-- ===== src/Policy/Tables.antt =====
-- The tables of cys_core/domain/policy/defaults.py that the risk and mode policies read. A frozenset
-- is the list of its elements.
use cys_agi.Prelude.{String, Option, none, some, List, [], ◌∷◌}
use cys_agi.Dict.{Dict}

abbrev pub mutating_tools : List String
mutating_tools = "spawn_worker" ∷ "update_todos" ∷ []

abbrev pub read_only_tools : List String
read_only_tools =
    "build_timeline" ∷ "correlate_dns" ∷ "correlate_findings" ∷ "dedup_alerts" ∷ "enrich_ioc"
    ∷ "load_skill" ∷ "parse_netflow" ∷ "parse_sast_report" ∷ "playbook_for_technique"
    ∷ "playbook_framework" ∷ "playbook_get" ∷ "playbook_procedure" ∷ "playbook_search"
    ∷ "query_siem_readonly" ∷ "rag_query" ∷ "read_document" ∷ "read_repo_metadata"
    ∷ "reasoning_check" ∷ "reasoning_step" ∷ "search_archived_webpage" ∷ "search_personas"
    ∷ "search_skills" ∷ "search_tools" ∷ "ti_search_in_category" ∷ "vision_analyze" ∷ "web_search"
    ∷ []

abbrev pub plan_blocked_tools : List String
plan_blocked_tools =
    "ask_user" ∷ "browser_use" ∷ "delegate_research" ∷ "plan_tool_calls" ∷ "python_sandbox"
    ∷ "spawn_worker" ∷ "update_todos" ∷ []

abbrev pub action_risk_mapping : Dict String String
action_risk_mapping =
    ("parse_netflow", "low")
    ∷ ("enrich_ioc", "low")
    ∷ ("correlate_dns", "low")
    ∷ ("query_siem_readonly", "low")
    ∷ ("rag_query", "low")
    ∷ ("dedup_alerts", "low")
    ∷ ("build_timeline", "low")
    ∷ ("correlate_findings", "low")
    ∷ ("check_control", "low")
    ∷ ("map_framework", "low")
    ∷ ("audit_evidence", "low")
    ∷ ("read_repo_metadata", "low")
    ∷ ("parse_sast_report", "low")
    ∷ ("web_search", "low")
    ∷ ("read_document", "low")
    ∷ ("search_archived_webpage", "low")
    ∷ ("vision_analyze", "medium")
    ∷ ("reasoning_check", "low")
    ∷ ("reasoning_step", "low")
    ∷ ("extract_structured_output", "low")
    ∷ ("search_personas", "low")
    ∷ ("search_skills", "low")
    ∷ ("search_tools", "low")
    ∷ ("ask_user", "low")
    ∷ ("load_skill", "low")
    ∷ ("update_todos", "medium")
    ∷ ("delegate_research", "medium")
    ∷ ("spawn_worker", "high")
    ∷ ("plan_tool_calls", "medium")
    ∷ ("create_report_outline", "low")
    ∷ ("transcribe_audio", "medium")
    ∷ ("analyze_workflow", "medium")
    ∷ ("python_sandbox", "high")
    ∷ ("browser_use", "high")
    ∷ ("write_file", "medium")
    ∷ ("run_active_scan", "high")
    ∷ ("execute_command", "critical")
    ∷ ("send_email", "high")
    ∷ ("database_delete", "critical")
    ∷ ("transfer_funds", "critical")
    ∷ []

abbrev pub gaia_allowlist : List String
gaia_allowlist =
    "ask_user" ∷ "browser_use" ∷ "delegate_research" ∷ "extract_structured_output" ∷ "load_skill"
    ∷ "plan_tool_calls" ∷ "python_sandbox" ∷ "read_document" ∷ "reasoning_check"
    ∷ "search_archived_webpage" ∷ "search_personas" ∷ "search_skills" ∷ "search_tools"
    ∷ "transcribe_audio" ∷ "update_todos" ∷ "vision_analyze" ∷ "web_search" ∷ []

abbrev pub general_allowlist : List String
general_allowlist =
    "ask_user" ∷ "create_report_outline" ∷ "delegate_research" ∷ "extract_structured_output"
    ∷ "load_skill" ∷ "plan_tool_calls" ∷ "read_document" ∷ "reasoning_check" ∷ "search_personas"
    ∷ "search_skills" ∷ "search_tools" ∷ "update_todos" ∷ "web_search" ∷ []

abbrev pub profile_tool_allowlist : Dict String (Option (List String))
profile_tool_allowlist =
    ("cybersec-soc", none)
    ∷ ("gaia-bench", some gaia_allowlist)
    ∷ ("general", some general_allowlist)
    ∷ []

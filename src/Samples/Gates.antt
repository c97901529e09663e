-- ===== src/Samples/Gates.antt =====
-- The tool gateway and the security middleware at concrete runs.
use cys_agi.Prelude.{
  ◌≤◌, ◌≡◌, ◌≢◌, ◌⊎◌, refl, true, some, none, [], ◌∷◌, ◌++◌, ok, err, string_eq, truthy,
}
use cys_agi.Dict
use cys_agi.Floats.{Milli, milli}
use cys_agi.Json.{lookup, Value, nil, field, str}
use cys_agi.Policy.{low, risk_le, risk_of, classify_tool_risk}
use cys_agi.ToolChain.{ToolInvokeRequest, check_tool_chain, is_high_risk_tool, get_chain_state}
use cys_agi.ToolChain.Streaks.{serve, streak, streak_capped}
use cys_agi.Gateway.{
  Gate, Backends, invoke, attempt, require_sandbox, check_chain, execute_tool, sanitize_or_raise,
  backend_answer,
}
use cys_agi.Gateway.Calls.{invoke_guarded}
use cys_agi.JobBudget.{empty, configure, check_tool_call, record_tool_call, count_tool_call}
use cys_agi.Hitl.{resume_decision_approved}
use cys_agi.Guard.{
  pause, ToolCall, SecurityMiddleware, World, Answers, wrap_tool_call, await_hitl_if_needed,
  run_tool,
}
use cys_agi.Guard.Calls.{IsPermitted, wrap_tool_call_guarded}

abbrev scan : ToolInvokeRequest
scan = record {
  tool_name = "run_active_scan";
  args = nil;
  persona = "redteam";
  sandbox_id = "sb1";
  job_id = "redteam:e1";
  correlation_id = "i1";
}

streak_capped_example : streak "redteam:e1" (serve 2 [] [] (scan ∷ scan ∷ scan ∷ [])).0 ≤ 2
streak_capped_example = streak_capped 2 (scan ∷ scan ∷ scan ∷ []) "redteam:e1"

abbrev gate : Gate
gate = record { chains = []; backend_calls = []; invocations = []; metrics = [] }

abbrev backends : Backends
backends = record {
  limit = 3;
  invoke_adapter = λ _ _. ok (some (field "ports" (str "22") nil));
  invoke_registered = λ _ _. err "no such tool";
  sanitize_tool_output = λ _. ok "ports: 22";
  loads = λ _. none;
}

scan_reaches : (invoke backends scan gate).1.backend_calls ≡ scan ∷ []
unfolding invoke attempt require_sandbox check_chain execute_tool sanitize_or_raise check_tool_chain
    get_chain_state is_high_risk_tool classify_tool_risk backend_answer Dict.get Dict.set risk_le
    risk_of
scan_reaches = refl

scan_is_called : (invoke backends scan gate).1.backend_calls ≢ gate.backend_calls
scan_is_called same = absurd (cc (scan_reaches, same))

invoke_guarded_example :
    (truthy scan.sandbox_id ≡ true)
    × (scan.sandbox_id ≢ "host")
    × ((check_tool_chain 3 scan []).0 ≡ ok tt)
    × ((invoke backends scan gate).1.backend_calls ≡ gate.backend_calls ++ scan ∷ [])
invoke_guarded_example = invoke_guarded backends scan gate scan_is_called

scan_succeeds : (invoke backends scan gate).0.success ≡ true
unfolding invoke attempt require_sandbox check_chain execute_tool sanitize_or_raise check_tool_chain
    get_chain_state is_high_risk_tool classify_tool_risk backend_answer Dict.get Dict.set risk_le
    risk_of
scan_succeeds = refl

abbrev middleware : SecurityMiddleware
middleware = record {
  agent_id = "redteam";
  session_id = "worker:redteam:redteam:e1";
  stage = "prod";
  auto_approve_threshold = low;
  risk_of_tool = λ name. classify_tool_risk name none;
}

abbrev answers : Answers Milli
answers = record {
  rate_allowed = true;
  interrupt = some (Value.obj (field "decision" (str "approve") nil));
  tool = ok (str "done");
  fresh = "a1";
  params_hash = λ _. "h";
}

abbrev call : ToolCall
call = record { name = "run_active_scan"; args = nil; id = "c1" }

abbrev world : World Milli
world = record {
  budget =
      configure ⦃fl = milli⦄ "worker:redteam:redteam:e1" 1000 5000 2 "cybersec-soc"
        (empty ⦃fl = milli⦄);
  jobs = [];
  events = [];
  tool_calls = [];
}

tool_is_reached : (wrap_tool_call middleware answers call world).1.tool_calls ≡ call ∷ []
unfolding wrap_tool_call await_hitl_if_needed run_tool check_tool_call record_tool_call
    count_tool_call configure classify_tool_risk resume_decision_approved Dict.get Dict.set risk_le
    risk_of lookup pause
tool_is_reached = refl

tool_is_called : (wrap_tool_call middleware answers call world).1.tool_calls ≢ world.tool_calls
tool_is_called same = absurd (cc (tool_is_reached, same))

wrap_tool_call_guarded_example :
    ((check_tool_call middleware.session_id world.budget).0 ≡ ok tt)
    × (true ≡ true)
    × ((risk_le (middleware.risk_of_tool call.name) low ≡ true) ⊎ IsPermitted middleware answers)
    × ((wrap_tool_call middleware answers call world).1.tool_calls ≡ world.tool_calls ++ call ∷ [])
wrap_tool_call_guarded_example = wrap_tool_call_guarded middleware answers call world tool_is_called

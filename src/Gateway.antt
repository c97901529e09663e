-- ===== src/Gateway.antt =====
-- `InvokeTool` of cys_core/application/use_cases/invoke_tool.py, as interfaces/gateways/tool/handler.py
-- wires it, with `require_sandbox` of cys_core/registry/mcp_tools.py. The backends, the sanitizer and
-- the parser of JSON are arguments, and every backend call and audit record is written to a list.
pub mod Calls
use cys_agi.Prelude.{
  ℕ, String, Bool, true, false, not, ◌||◌, Option, none, some, List, [], ◌∷◌, ◌++◌, truthy,
  string_eq, ◌==◌, if◌then◌else◌, Result, ok, err, Exec, ◌>>=◌, ◌>>◌, pure, raise,
}
use cys_agi.Json.{Value, Fields, nil, field, str, obj}
use cys_agi.ToolChain.{
  ToolInvokeRequest, ToolChainStates, ToolChainDepthExceeded, tool_chain_depth_exceeded,
  check_tool_chain,
}

-- The errors that `execute` turns into a response.
pub data InvokeError : Type 0 where
  permission_error : InvokeError
  chain_error : (limit : ℕ) → InvokeError
  backend_error sanitizer_error : String → InvokeError

pub record ToolInvokeResponse : Type 0 where
  pub success : Bool
  pub tool_name : String
  pub data_ : Fields
  pub sanitized_payload : String
  pub error : Option InvokeError

-- The chain states, the calls that reached a backend, the audit log and the metric.
pub record Gate : Type 0 where
  pub chains : ToolChainStates
  pub backend_calls : List ToolInvokeRequest
  pub invocations : List (ToolInvokeRequest × ToolInvokeResponse)
  pub metrics : List (String × Bool)

pub record Backends : Type 0 where
  pub limit : ℕ
  -- `invoke_adapter(...)`, with `none` where it returns `None`
  pub invoke_adapter : String → Fields → Result String (Option Fields)
  -- `tool_registry.get(name).invoke(args)`
  pub invoke_registered : String → Fields → Result String Value
  pub sanitize_tool_output : Fields → Result String String
  -- `json.loads`, with `none` where it raises `JSONDecodeError`
  pub loads : String → Option Value

unfoldable pub require_sandbox : String → Exec Gate InvokeError (Unit {0})
require_sandbox sandbox_id g =
    if not (truthy sandbox_id) || sandbox_id == "host"
    then (err permission_error, g)
    else (ok tt, g)

-- `_normalize_raw_result`
unfoldable pub normalize_raw_result : Backends → Value → Fields
normalize_raw_result b (obj d) = d
normalize_raw_result b (str raw) = elim (b.loads raw) [
  | some (obj parsed) ↦ parsed
  | _ ↦ field "raw" (str raw) nil
]
normalize_raw_result b raw = field "result" raw nil

-- the call of the chain policy
unfoldable pub check_chain : Backends → ToolInvokeRequest → Exec Gate InvokeError (Unit {0})
check_chain b request g =
    let (answer, chains) = check_tool_chain b.limit request g.chains in
    (
      elim answer [
        | ok _ ↦ ok tt
        | err (tool_chain_depth_exceeded limit) ↦ err (chain_error limit)
      ],
      record g { chains = chains },
    )

-- what the backends answer: the adapter, or the registered tool if there is no adapter
unfoldable pub backend_answer : Backends → ToolInvokeRequest → Result InvokeError Fields
unfolding normalize_raw_result
backend_answer b request = elim (b.invoke_adapter request.tool_name request.args) [
  | err e ↦ err (backend_error e)
  | ok (some data_) ↦ ok data_
  | ok none ↦ elim (b.invoke_registered request.tool_name request.args) [
    | err e ↦ err (backend_error e)
    | ok raw ↦ ok (normalize_raw_result b raw)
  ]
]

-- `_execute_tool`
unfoldable pub execute_tool : Backends → ToolInvokeRequest → Exec Gate InvokeError Fields
execute_tool b request g =
    (backend_answer b request, record g { backend_calls = g.backend_calls ++ request ∷ [] })

unfoldable pub sanitize_or_raise : Backends → Fields → Exec Gate InvokeError String
sanitize_or_raise b data_ g =
    (elim (b.sanitize_tool_output data_) [ ok s ↦ ok s | err e ↦ err (sanitizer_error e) ], g)

-- the body of the `try`
unfoldable pub attempt : Backends → ToolInvokeRequest → Exec Gate InvokeError ToolInvokeResponse
unfolding require_sandbox check_chain execute_tool sanitize_or_raise
attempt b request = do
  require_sandbox request.sandbox_id
  check_chain b request
  data_ ← execute_tool b request
  sanitized ← sanitize_or_raise b data_
  pure (record {
    success = true;
    tool_name = request.tool_name;
    data_ = data_;
    sanitized_payload = sanitized;
    error = none;
  })

-- the response of the two `except` clauses
abbrev pub failure : ToolInvokeRequest → InvokeError → ToolInvokeResponse
failure request e = record {
  success = false;
  tool_name = request.tool_name;
  data_ = nil;
  sanitized_payload = "";
  error = some e;
}

unfoldable pub invoke : Backends → ToolInvokeRequest → Gate → ToolInvokeResponse × Gate
invoke b request g =
    let (answer, g') = attempt b request g in
    let response : ToolInvokeResponse = elim answer [ ok r ↦ r | err e ↦ failure request e ] in
    (
      response,
      record g' {
        invocations = g'.invocations ++ (request, response) ∷ [];
        metrics = g'.metrics ++ (request.tool_name, response.success) ∷ [];
      },
    )

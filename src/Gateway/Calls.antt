-- ===== src/Gateway/Calls.antt =====
-- What reaches a backend, and what the caller and the audit log get
-- (cys_core/application/use_cases/invoke_tool.py).
use cys_agi.Prelude.{◌≡◌, ◌≢◌, true, [], ◌∷◌, ◌++◌, truthy, string_eq, arith, ok}
use cys_agi.ToolChain.{ToolInvokeRequest, check_tool_chain}
use cys_agi.Gateway.{
  Gate, Backends, attempt, invoke, backend_answer, require_sandbox, check_chain, execute_tool,
  sanitize_or_raise,
}

module _ (b : Backends) (request : ToolInvokeRequest) (g : Gate) where
  -- A call reaches a backend only from a sandbox that is named and is not the host, and only if the
  -- limit on high-risk calls in a row lets it through; it then reaches it once.
  pub invoke_guarded :
      (invoke b request g).1.backend_calls ≢ g.backend_calls
      → (truthy request.sandbox_id ≡ true)
        × (request.sandbox_id ≢ "host")
        × ((check_tool_chain b.limit request g.chains).0 ≡ ok tt)
        × ((invoke b request g).1.backend_calls ≡ g.backend_calls ++ request ∷ [])
  unfolding invoke attempt require_sandbox check_chain execute_tool sanitize_or_raise
  invoke_guarded called = (
    ground arith,
    ground (arith, string_eq.beq_iff request.sandbox_id "host"),
    ground arith,
    ground arith,
  )

  -- Every call, refused or not, is audited once with the response that the caller gets.
  pub invoke_audited :
      ((invoke b request g).1.invocations ≡ g.invocations ++ (request, (invoke b request g).0) ∷ [])
      × ((invoke b request g).1.metrics
          ≡ g.metrics ++ (request.tool_name, (invoke b request g).0.success) ∷ [])
  unfolding invoke attempt require_sandbox check_chain execute_tool sanitize_or_raise
  invoke_audited = (ground arith, ground arith)

  -- A response that succeeds holds what the backend answered, and the text that the sanitizer made
  -- of it and did not refuse.
  pub invoke_sanitized :
      (invoke b request g).0.success ≡ true
      → (backend_answer b request ≡ ok (invoke b request g).0.data_)
        × (b.sanitize_tool_output (invoke b request g).0.data_
            ≡ ok (invoke b request g).0.sanitized_payload)
  unfolding invoke attempt require_sandbox check_chain execute_tool sanitize_or_raise
  invoke_sanitized succeeds = (ground arith, ground arith)

-- ===== src/ToolChain/Streaks.antt =====
-- The limit of interfaces/gateways/tool/policy.py against a log of the calls that it let through.
use cys_agi.Prelude.{
  ℕ, suc, ◌+◌, ◌<◌, ◌≤◌, String, ◌≡◌, refl, ◌∙◌, ◌↔◌, true, false, ◌&&◌, List, [], ◌∷◌, leb,
  string_eq, ◌==◌, if◌then◌else◌, arith, Result, ok, err, Bool-cases, Option-cases, inl, inr,
}
use native.Mathlib.Decide.{dec_lt}
use cys_agi.Dict
use cys_agi.ToolChain.{
  ToolInvokeRequest, ToolChainStates, chain_key, is_high_risk_tool, check_tool_chain,
  get_chain_state, tool_chain_depth_exceeded,
}

-- The log behind an answer.
abbrev pub log_of :
    {E : Type 0}
    → Result E (Unit {0})
    → ToolInvokeRequest
    → List ToolInvokeRequest
    → List ToolInvokeRequest
log_of (ok _) r passed = r ∷ passed
log_of (err _) r passed = passed

-- The calls that are let through, the latest first, and the states that a run leaves.
pub serve :
    ℕ
    → ToolChainStates
    → List ToolInvokeRequest
    → List ToolInvokeRequest
    → List ToolInvokeRequest × ToolChainStates
serve limit chains passed [] = (passed, chains)
serve limit chains passed (r ∷ requests) =
    let (answer, chains') = check_tool_chain limit r chains in
    serve limit chains' (log_of answer r passed) requests

-- The high-risk calls of one key since its last call of lower risk, from the log alone.
abbrev pub streak : String → List ToolInvokeRequest → ℕ
streak key [] = 0
streak key (r ∷ passed) =
    let before = streak key passed in
    if chain_key r == key then (if is_high_risk_tool r.tool_name then suc before else 0) else before

-- The states hold the streaks of the log, and none is above the limit.
pub record Tracks (limit : ℕ) (chains : ToolChainStates) (passed : List ToolInvokeRequest)
    : Type 0 where
  pub counts : (key : String) → Dict.get_or chains key 0 ≡ streak key passed
  pub capped : (key : String) → streak key passed ≤ limit

Tracks-nil : (limit : ℕ) → Tracks limit [] []
unfolding Dict.get
Tracks-nil limit = record { counts = λ key. refl; capped = λ key. omega arith }

module _ (limit : ℕ) (r : ToolInvokeRequest) (chains : ToolChainStates) where
  -- The number that `get_chain_state` finds.
  abbrev found : ℕ
  found = Dict.get_or chains (chain_key r) 0

  abbrev after : ToolChainStates
  after = (check_tool_chain limit r chains).1

  check_low :
      is_high_risk_tool r.tool_name ≡ false
      → ((check_tool_chain limit r chains).0 ≡ ok tt)
        × ((key : String)
            → Dict.get_or after key 0
              ≡ (if chain_key r == key then 0 else Dict.get_or chains key 0))
  unfolding check_tool_chain get_chain_state
  check_low low = elim (Option-cases (Dict.get chains (chain_key r))) [
    | inl absent ↦
        (ground arith, λ key. grind (arith, Dict.get-set, string_eq.beq_iff (chain_key r) key))
    | inr (n, old) ↦
        (ground arith, λ key. grind (arith, Dict.get-set, string_eq.beq_iff (chain_key r) key))
  ]

  check_room :
      is_high_risk_tool r.tool_name ≡ true
      → found < limit
      → ((check_tool_chain limit r chains).0 ≡ ok tt)
        × ((key : String)
            → Dict.get_or after key 0
              ≡ (if chain_key r == key then found + 1 else Dict.get_or chains key 0))
  unfolding check_tool_chain get_chain_state
  check_room risky room = elim (Option-cases (Dict.get chains (chain_key r))) [
    | inl absent ↦
        (ground arith, λ key. grind (arith, Dict.get-set, string_eq.beq_iff (chain_key r) key))
    | inr (n, old) ↦
        (ground arith, λ key. grind (arith, Dict.get-set, string_eq.beq_iff (chain_key r) key))
  ]

  check_full :
      is_high_risk_tool r.tool_name ≡ true
      → limit ≤ found
      → ((check_tool_chain limit r chains).0 ≡ err (tool_chain_depth_exceeded limit))
        × ((key : String) → Dict.get_or after key 0 ≡ Dict.get_or chains key 0)
  unfolding check_tool_chain get_chain_state
  check_full risky full = elim (Option-cases (Dict.get chains (chain_key r))) [
    | inl absent ↦
        (ground arith, λ key. grind (arith, Dict.get-set, string_eq.beq_iff (chain_key r) key))
    | inr (n, old) ↦
        (ground arith, λ key. grind (arith, Dict.get-set, string_eq.beq_iff (chain_key r) key))
  ]

Tracks-check :
    (limit : ℕ) (r : ToolInvokeRequest) (chains : ToolChainStates) (passed : List ToolInvokeRequest)
    → Tracks limit chains passed
    → let (answer, chains') = check_tool_chain limit r chains in
      Tracks limit chains' (log_of answer r passed)
Tracks-check limit r chains passed h = elim (Bool-cases (is_high_risk_tool r.tool_name)) [
  | inl risky ↦ elim (dec_lt (found limit r chains) limit) [
    | yes room ↦
        let (fine, state) = check_room limit r chains risky room in
        rw fine (record {
          counts =
              λ key. ground (arith, state key, h.counts key, string_eq.beq_iff (chain_key r) key);
          capped = λ key.
              ground (arith, h.capped key, h.counts key, string_eq.beq_iff (chain_key r) key);
        })
    | no full ↦
        let (refused, state) = check_full limit r chains risky (omega arith) in
        rw refused (record { counts = λ key. state key ∙ h.counts key; capped = h.capped })
  ]
  | inr low ↦
      let (fine, state) = check_low limit r chains low in
      rw fine (record {
        counts =
            λ key. ground (arith, state key, h.counts key, string_eq.beq_iff (chain_key r) key);
        capped = λ key. ground (arith, h.capped key, h.counts key);
      })
]

Tracks-serve :
    (limit : ℕ) (chains : ToolChainStates) (passed requests : List ToolInvokeRequest)
    → Tracks limit chains passed
    → Tracks limit (serve limit chains passed requests).1 (serve limit chains passed requests).0
unfolding serve
Tracks-serve limit chains passed [] h = h
Tracks-serve limit chains passed (r ∷ requests) h =
    let (answer, chains') = check_tool_chain limit r chains in
    Tracks-serve limit chains' (log_of answer r passed) requests
      (Tracks-check limit r chains passed h)

-- After any calls, of any jobs in any order, from the empty table: the high-risk calls of a job that
-- were let through since its last call of lower risk are at most `limit`.
pub streak_capped :
    (limit : ℕ) (requests : List ToolInvokeRequest) (key : String)
    → streak key (serve limit [] [] requests).0 ≤ limit
streak_capped limit requests key = (Tracks-serve limit [] [] requests (Tracks-nil limit)).capped key

-- After any calls, of any jobs in any order, from the empty table: the next one is let through
-- exactly if its tool is not of high risk, or fewer than `limit` high-risk calls of its job were let
-- through since the job's last call of lower risk.
pub check_tool_chain_exact :
    (limit : ℕ) (requests : List ToolInvokeRequest) (r : ToolInvokeRequest)
    → let (passed, chains) = serve limit [] [] requests in
      ((check_tool_chain limit r chains).0 ≡ ok tt)
      ↔ ((is_high_risk_tool r.tool_name && leb limit (streak (chain_key r) passed)) ≡ false)
unfolding check_tool_chain get_chain_state
check_tool_chain_exact limit requests r =
    let h = Tracks-serve limit [] [] requests (Tracks-nil limit) in
    ground (arith, h.counts (chain_key r))

-- ===== src/JobStore/Approvals.antt =====
-- Which jobs of cys_core/infrastructure/job_store/in_memory.py wait for approval.
use cys_agi.Prelude.{
  ℕ, String, ◌≡◌, ◌≢◌, refl, true, false, none, some, List, [], ◌∷◌, arith, count, string_eq, ◌==◌,
  if◌then◌else◌, Option-cases, inl, inr,
}
use cys_agi.Dict
use cys_agi.Json.{Fields}
use cys_agi.JobStore.{
  JobRecord, PendingHitlAction, InMemoryJobStore, is_awaiting, awaits, approval_of,
  list_pending_approvals, upsert_pending, upsert_running, pause_for_hitl, paused, mark_running,
  mark_completed, mark_failed,
}

module _ (jobs : InMemoryJobStore) (job_id : String) where
  pub awaits-mark_running : awaits (mark_running job_id jobs).1 job_id ≡ false
  unfolding awaits mark_running
  awaits-mark_running = grind (arith, Dict.get-set_self)

  pub awaits-mark_completed : awaits (mark_completed job_id jobs) job_id ≡ false
  unfolding awaits mark_completed
  awaits-mark_completed = grind (arith, Dict.get-set_self)

  pub awaits-mark_failed : awaits (mark_failed job_id jobs) job_id ≡ false
  unfolding awaits mark_failed
  awaits-mark_failed = grind (arith, Dict.get-set_self)

-- A record is stored under its own id, and what it lists for approval is an action of that job.
pub record IsFiled (job_id : String) (r : JobRecord) : Type 0 where
  pub named : r.job_id ≡ job_id
  pub own_action : (a : PendingHitlAction) → r.pending_hitl ≡ some a → a.job_id ≡ job_id
  pub has_action : is_awaiting r.status ≡ true → r.pending_hitl ≢ none

pub record IsConsistent (jobs : InMemoryJobStore) : Type 0 where
  pub distinct : Dict.Distinct jobs
  pub filed : Dict.AllPairs IsFiled jobs

-- What a client can ask of the store.
pub data Op : Type 0 where
  op_pending : (job_id persona correlation_id tenant_id event_id : String) → Op
  op_running : (job_id session_id persona correlation_id tenant_id event_id : String) → Op
  op_pause : PendingHitlAction → Fields → Op
  op_mark_running op_completed op_failed : String → Op

pub apply : InMemoryJobStore → Op → InMemoryJobStore
apply jobs (op_pending j p c t e) = (upsert_pending j p c t e jobs).1
apply jobs (op_running j s p c t e) = (upsert_running j s p c t e jobs).1
apply jobs (op_pause action preview) = (pause_for_hitl action preview jobs).1
apply jobs (op_mark_running j) = (mark_running j jobs).1
apply jobs (op_completed j) = mark_completed j jobs
apply jobs (op_failed j) = mark_failed j jobs

pub apply_all : InMemoryJobStore → List Op → InMemoryJobStore
apply_all jobs [] = jobs
apply_all jobs (op ∷ ops) = apply_all (apply jobs op) ops

module _ (jobs : InMemoryJobStore) (h : IsConsistent jobs) where
  store-IsConsistent : (k : String) (r : JobRecord) → IsFiled k r → IsConsistent (Dict.set jobs k r)
  store-IsConsistent k r filed = record {
    distinct = Dict.Distinct-set jobs k r h.distinct;
    filed = Dict.AllPairs-set IsFiled jobs k r filed h.filed;
  }

  IsFiled-get : (k : String) (r : JobRecord) → Dict.get jobs k ≡ some r → IsFiled k r
  IsFiled-get k r found = Dict.AllPairs-get IsFiled jobs k r h.filed found

  apply-IsConsistent : (op : Op) → IsConsistent (apply jobs op)
  unfolding apply upsert_pending upsert_running pause_for_hitl paused mark_running mark_completed
      mark_failed
  apply-IsConsistent (op_pending j p c t e) =
      store-IsConsistent j _ (record { named = refl; own_action = λ a e. cc; has_action = λ e. cc })
  apply-IsConsistent (op_running j s p c t e) =
      store-IsConsistent j _ (record { named = refl; own_action = λ a e. cc; has_action = λ e. cc })
  apply-IsConsistent (op_pause action preview) =
      store-IsConsistent action.job_id _
        (record { named = refl; own_action = λ a e. cc; has_action = λ _ e. cc })
  apply-IsConsistent (op_mark_running j) = elim (Option-cases (Dict.get jobs j)) [
    | inl absent ↦ rw (absent, apply, mark_running) h
    | inr (r, found) ↦
        rw (found, apply, mark_running)
          (store-IsConsistent j _ (record {
            named = (IsFiled-get j r found).named;
            own_action = λ a e. cc;
            has_action = λ e. cc;
          }))
  ]
  apply-IsConsistent (op_completed j) = elim (Option-cases (Dict.get jobs j)) [
    | inl absent ↦ rw (absent, apply, mark_completed) h
    | inr (r, found) ↦
        let f = IsFiled-get j r found in
        rw (found, apply, mark_completed)
          (store-IsConsistent j _
            (record { named = f.named; own_action = f.own_action; has_action = λ e. cc }))
  ]
  apply-IsConsistent (op_failed j) = elim (Option-cases (Dict.get jobs j)) [
    | inl absent ↦ rw (absent, apply, mark_failed) h
    | inr (r, found) ↦
        let f = IsFiled-get j r found in
        rw (found, apply, mark_failed)
          (store-IsConsistent j _
            (record { named = f.named; own_action = f.own_action; has_action = λ e. cc }))
  ]

pub apply_all-IsConsistent :
    (jobs : InMemoryJobStore) (ops : List Op)
    → IsConsistent jobs
    → IsConsistent (apply_all jobs ops)
unfolding apply_all
apply_all-IsConsistent jobs [] h = h
apply_all-IsConsistent jobs (op ∷ ops) h =
    apply_all-IsConsistent (apply jobs op) ops (apply-IsConsistent jobs h op)

pub empty-IsConsistent : IsConsistent []
empty-IsConsistent = record { distinct = tt; filed = tt }

-- How often an action of the job stands in the list.
abbrev pub listed : String → List PendingHitlAction → ℕ
listed job_id = count (λ a. a.job_id == job_id)

listed-awaits :
    (jobs : InMemoryJobStore) (job_id : String)
    → Dict.Distinct jobs
    → Dict.AllPairs IsFiled jobs
    → listed job_id (list_pending_approvals jobs) ≡ (if awaits jobs job_id then 1 else 0)
unfolding list_pending_approvals awaits approval_of Dict.get
listed-awaits [] job_id distinct filed = refl
listed-awaits ((k, r) ∷ jobs) job_id distinct filed =
    let ih = listed-awaits jobs job_id distinct.1 filed.1 in
    elim (Option-cases r.pending_hitl) [
      | inl idle ↦ ground (arith, ih, filed.0.has_action, string_eq.beq_iff k job_id)
      | inr (a, holds) ↦ ground (
        arith,
        ih,
        filed.0.own_action a holds,
        string_eq.beq_iff k job_id,
        string_eq.beq_iff a.job_id job_id,
      )
    ]

-- After any sequence of operations from the empty store, the list of pending approvals holds
-- exactly one action of a job that waits for approval, and none of any other job.
pub list_pending_approvals_exact :
    (ops : List Op) (job_id : String)
    → listed job_id (list_pending_approvals (apply_all [] ops))
      ≡ (if awaits (apply_all [] ops) job_id then 1 else 0)
list_pending_approvals_exact ops job_id =
    let h = apply_all-IsConsistent [] ops empty-IsConsistent in
    listed-awaits (apply_all [] ops) job_id h.distinct h.filed

-- ===== src/Hitl/Session.antt =====
-- The session id that interfaces/worker/orchestrator.py gives a worker run, and the job id that
-- cys_core/middleware/hitl_pause.py reads back from it.
use Prim.Native.Char.{code}
use Prim.Native.String.{◌++◌}
use text.Mathlib.TextLemmas.{nil-append, cons-append}
use cys_agi.Prelude.{
  String, ◌≡◌, ◌∙◌, ap, refl, Bool, false, ◌||◌, some, nat_eq, string_eq, ◌==◌, arith,
}
use cys_agi.Hitl.{split_colon, job_id_from_session}

-- `f"worker:{job.persona}:{run_id}"` of `WorkerOrchestrator.run_job`
unfoldable pub worker_session_id : String → String → String
worker_session_id persona run_id = "worker" ++ (":" ++ (persona ++ (":" ++ run_id)))

abbrev pub has_colon : String → Bool
has_colon String.[] = false
has_colon (String.◌∷◌ c s) = (code c == 58) || has_colon s

colon_cons : (b : String) → ":" ++ b ≡ String.◌∷◌ ":" b
colon_cons b = cons-append ":" "" b ∙ ap (λ s. String.◌∷◌ ":" s) (nil-append b)

split_colon-append :
    (a b : String) → has_colon a ≡ false → split_colon (a ++ (":" ++ b)) ≡ some (a, b)
unfolding split_colon
split_colon-append String.[] b h = rw (nil-append, colon_cons)
split_colon-append (String.◌∷◌ c s) b h = simp cons-append (ground (arith, split_colon-append s b))

-- A persona without a colon in its name: the job id of the session is the id of the run.
pub job_id_from_session-worker_session_id :
    (persona run_id : String)
    → has_colon persona ≡ false
    → job_id_from_session (worker_session_id persona run_id) ≡ some run_id
unfolding worker_session_id job_id_from_session
job_id_from_session-worker_session_id persona run_id h = rw (
  job_id_from_session,
  split_colon-append "worker" (persona ++ (":" ++ run_id)) refl,
  split_colon-append persona run_id h,
)

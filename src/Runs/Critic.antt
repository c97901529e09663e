-- ===== src/Runs/Critic.antt =====
-- The critic of the trace of a run: cys_core/application/use_cases/evaluate_trace_critic.py, and its
-- settings of cys_core/application/policy_resolver.py. The judge and the reasoning model are ports.
use cys_agi.Prelude.{
  ℕ, String, not, ◌&&◌, ◌||◌, none, some, List, [], ◌∷◌, ◌++◌, length, ◌or_else◌, ltb, string_eq,
  ◌==◌, if◌then◌else◌, Result, ok, err,
}
use cys_agi.Floats.{FloatOps}
use cys_agi.Json.{Fields, bool, str, arr, obj, nil, field}
use cys_agi.Budgets.{or_ℕ}
use cys_agi.Memory.{cut}
use cys_agi.Runs.Prompt.{text_items}
use cys_agi.Runs.Answer.{RunFailure, TraceVerdict, JudgeResult, CriticPorts}

module _ {F : Type 0} (c : CriticPorts F) where
  unfoldable pub heuristic_issues : String → List String
  heuristic_issues trace_text =
      let lower = c.hints.lower trace_text in
      (if c.hints.contains lower "error" && c.hints.contains lower "stub"
        then "trace contains tool errors or stub responses" ∷ []
        else [])
      ++ ((if c.hints.contains lower "spawn" && not (c.hints.contains lower "result")
            then "spawn requested without visible spawn_result" ∷ []
            else [])
          ++ (if ltb (c.length trace_text) 40
              then "trace too short to verify reasoning" ∷ []
              else []))

  unfoldable pub trace_critic_threshold : String → F
  trace_critic_threshold profile_id = elim c.env.trace_critic_threshold [
    | some threshold ↦ threshold
    | none ↦ (c.policy profile_id).threshold
  ]

  unfoldable pub trace_critic_every_n : String → ℕ
  trace_critic_every_n profile_id = elim c.env.trace_critic_every_n_steps [
    | some n ↦ n
    | none ↦ (c.policy profile_id).every_n_steps
  ]

  unfoldable pub trace_critic_rerun_max : String → ℕ
  trace_critic_rerun_max profile_id = elim c.env.trace_critic_rerun_max [
    | some n ↦ n
    | none ↦ (c.policy profile_id).rerun_max
  ]

  -- how many reruns a step takes as the limit
  abbrev pub rerun_limit : String → ℕ
  rerun_limit profile_id = or_ℕ (c.policy profile_id).rerun_max (trace_critic_rerun_max profile_id)

  -- `verdict.model_dump()`
  unfoldable pub dump_verdict : TraceVerdict F → Fields
  dump_verdict v = field "score" (c.dump_score v.score) (
      field "verdict" (str v.verdict) (
        field "reasoning" (str v.reasoning) (
          field "should_rerun" (bool v.should_rerun)
            (field "issues" (arr (text_items v.issues)) nil))))

module _ {F : Type 0} ⦃fl : FloatOps F⦄ (c : CriticPorts F) where
  -- `max(0.2, 0.9 - 0.15 * len(issues))`
  abbrev pub base_score : List String → F
  base_score issues =
      fl.fmax (fl.decimal 2 1)
        (fl.sub (fl.decimal 9 1) (fl.mul (fl.decimal 15 2) (fl.of_ℕ (length issues))))

  -- the verdict on the answer of the judge
  unfoldable pub judged : F → List String → F → JudgeResult F → TraceVerdict F
  judged threshold issues base result =
      let score =
        if fl.gt result.score (fl.of_ℕ 0) && fl.gt base result.score then result.score else base in
      record {
        score = score;
        verdict = result.verdict or_else (if fl.ge score threshold then "pass" else "fail");
        reasoning = result.reasoning;
        should_rerun = fl.gt threshold score;
        issues =
            if result.verdict == "fail" || fl.gt threshold score
            then issues ++ (result.reasoning or_else "judge flagged trace") ∷ []
            else issues;
      }

  -- the verdict without a judge and without a reasoning model
  unfoldable pub heuristic : F → List String → F → TraceVerdict F
  heuristic threshold issues base = record {
    score = base;
    verdict = if fl.gt threshold base then "fail" else "pass";
    reasoning = "heuristic trace evaluation";
    should_rerun = fl.gt threshold base;
    issues = issues;
  }

  -- `EvaluateTraceCritic.execute`
  unfoldable pub evaluate :
      (profile_id goal : String) (trace : Fields) (step_count : ℕ)
      → Result RunFailure (TraceVerdict F)
  evaluate profile_id goal trace step_count =
      let trace_text = c.dumps (obj trace) in
      let issues = heuristic_issues c trace_text in
      let threshold = trace_critic_threshold c profile_id in
      elim c.judge [
        | some judge ↦ elim (judge goal (cut 8000 trace_text) step_count) [
          | err e ↦ err e
          | ok result ↦ ok (judged threshold issues (base_score issues) result)
        ]
        | none ↦ ok (elim (c.reasoning_judge goal trace_text step_count) [
          | some verdict ↦ record verdict { issues = verdict.issues ++ issues }
          | none ↦ heuristic threshold issues (base_score issues)
        ])
      ]

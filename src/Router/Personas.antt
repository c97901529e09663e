-- ===== src/Router/Personas.antt =====
-- Which personas an event goes to (cys_core/application/routing/event_router.py).
use cys_agi.Prelude.{
  ℕ, suc, String, ◌≡◌, refl, Bool, false, ◌&&◌, ◌||◌, List, [], ◌∷◌, ◌++◌, elem, any, any-append,
  string_eq, ◌==◌, arith, Bool-cases, inl, inr,
}
use cys_agi.Events.{SecurityEvent, RoutingRule, PlanRoutingConfig, rule_matches}
use cys_agi.Router.{Collected, start, add_personas, collect, try_rules, try_plans, conclude, route}

-- A rule of the plan matches the event and names the persona.
abbrev pub plan_sends : SecurityEvent → String → PlanRoutingConfig → Bool
plan_sends event persona plan =
    any (λ rule. rule_matches rule event.type event.severity && elem persona rule.personas)
      plan.rules

elem-add_personas :
    (persona : String) (personas ps : List String)
    → elem persona (add_personas personas ps) ≡ (elem persona personas || elem persona ps)
unfolding add_personas
elem-add_personas persona personas [] = ground arith
elem-add_personas persona personas (p ∷ ps) = elim (Bool-cases (elem p personas)) [
  | inl old ↦
      rw old (ground (arith, elem-add_personas persona personas ps, string_eq.beq_iff p persona))
  | inr new ↦ rw new (
      ground (
        arith,
        elem-add_personas persona (personas ++ p ∷ []) ps,
        any-append (λ x. x == persona) personas (p ∷ []),
      ))
]

elem-try_rules :
    (persona : String) (event : SecurityEvent) (plan : PlanRoutingConfig) (idx : ℕ)
    (rules : List RoutingRule) (c : Collected)
    → elem persona (try_rules event plan idx rules c).personas ≡ (
        elem persona c.personas
        || any
            (λ rule. rule_matches rule event.type event.severity && elem persona rule.personas)
            rules)
unfolding try_rules collect
elem-try_rules persona event plan idx [] c = ground arith
elem-try_rules persona event plan idx (rule ∷ rules) c =
    elim (Bool-cases (rule_matches rule event.type event.severity)) [
      | inl fits ↦
          rw (fits, try_rules)
            (ground (
              arith,
              elem-try_rules persona event plan (suc idx) rules (collect plan idx rule c),
              elem-add_personas persona c.personas rule.personas,
            ))
      | inr other ↦ rw (other, try_rules) (elem-try_rules persona event plan (suc idx) rules c)
    ]

elem-try_plans :
    (persona : String) (event : SecurityEvent) (plans : List PlanRoutingConfig) (c : Collected)
    → elem persona (try_plans event plans c).personas
      ≡ (elem persona c.personas || any (plan_sends event persona) plans)
unfolding try_plans
elem-try_plans persona event [] c = ground arith
elem-try_plans persona event (plan ∷ plans) c = ground (
  arith,
  elem-try_plans persona event plans (try_rules event plan 0 plan.rules c),
  elem-try_rules persona event plan 0 plan.rules c,
)

personas-conclude :
    (notify : List String) (event : SecurityEvent) (c : Collected)
    → (conclude notify event c).personas ≡ c.personas
unfolding conclude
personas-conclude notify event c = ground arith

-- The decision names exactly the personas of the rules, of any plan, that match the event.
pub route_personas :
    (notify_severities : List String) (plans : List PlanRoutingConfig) (event : SecurityEvent)
    (persona : String)
    → elem persona (route notify_severities plans event).personas
      ≡ any (plan_sends event persona) plans
unfolding route
route_personas notify plans event persona =
    rw (personas-conclude notify event (try_plans event plans start))
      (elem-try_plans persona event plans start)

-- No text stands twice.
abbrev pub NoDuplicates : List String → Type 0
NoDuplicates [] = Unit
NoDuplicates (x ∷ xs) = (elem x xs ≡ false) × NoDuplicates xs

NoDuplicates-snoc :
    (xs : List String) (p : String)
    → NoDuplicates xs
    → elem p xs ≡ false
    → NoDuplicates (xs ++ p ∷ [])
NoDuplicates-snoc [] p h new = (refl, tt)
NoDuplicates-snoc (x ∷ xs) p h new = (
  ground
      (arith, any-append (λ y. y == x) xs (p ∷ []), string_eq.beq_iff x p, string_eq.beq_iff p x),
  NoDuplicates-snoc xs p h.1 (ground arith),
)

NoDuplicates-add_personas :
    (personas ps : List String) → NoDuplicates personas → NoDuplicates (add_personas personas ps)
unfolding add_personas
NoDuplicates-add_personas personas [] h = h
NoDuplicates-add_personas personas (p ∷ ps) h = elim (Bool-cases (elem p personas)) [
  | inl old ↦ rw old (NoDuplicates-add_personas personas ps h)
  | inr new ↦
      rw new
        (NoDuplicates-add_personas (personas ++ p ∷ []) ps (NoDuplicates-snoc personas p h new))
]

NoDuplicates-try_rules :
    (event : SecurityEvent) (plan : PlanRoutingConfig) (idx : ℕ) (rules : List RoutingRule)
    (c : Collected)
    → NoDuplicates c.personas
    → NoDuplicates (try_rules event plan idx rules c).personas
unfolding try_rules collect
NoDuplicates-try_rules event plan idx [] c h = h
NoDuplicates-try_rules event plan idx (rule ∷ rules) c h =
    elim (Bool-cases (rule_matches rule event.type event.severity)) [
      | inl fits ↦
          rw (fits, try_rules)
            (NoDuplicates-try_rules event plan (suc idx) rules (collect plan idx rule c)
              (NoDuplicates-add_personas c.personas rule.personas h))
      | inr other ↦ rw (other, try_rules) (NoDuplicates-try_rules event plan (suc idx) rules c h)
    ]

NoDuplicates-try_plans :
    (event : SecurityEvent) (plans : List PlanRoutingConfig) (c : Collected)
    → NoDuplicates c.personas
    → NoDuplicates (try_plans event plans c).personas
unfolding try_plans
NoDuplicates-try_plans event [] c h = h
NoDuplicates-try_plans event (plan ∷ plans) c h =
    NoDuplicates-try_plans event plans (try_rules event plan 0 plan.rules c)
      (NoDuplicates-try_rules event plan 0 plan.rules c h)

-- The decision names no persona twice, so that an event makes one job for each.
pub route-NoDuplicates :
    (notify_severities : List String) (plans : List PlanRoutingConfig) (event : SecurityEvent)
    → NoDuplicates (route notify_severities plans event).personas
unfolding route
route-NoDuplicates notify plans event =
    rw (personas-conclude notify event (try_plans event plans start))
      (NoDuplicates-try_plans event plans start tt)

-- ===== src/RateLimit/Window.antt =====
-- The limiter of cys_core/security/rate_limit.py against its specification: a log of every granted
-- call, and the number of its calls in the window.
use cys_agi.Prelude.{
  ℕ, ◌-◌, ◌≤◌, ◌<◌, String, ◌≡◌, refl, sym, ◌∙◌, Bool, ◌&&◌, List, [], ◌∷◌, ◌++◌, length, leb, ltb,
  if◌then◌else◌, count, count-append, count-le-length, length-append, All, All-append, string_eq,
  ◌==◌, arith, Bool-cases, inl, inr,
}
use cys_agi.Dict
use cys_agi.RateLimit.{InMemoryRateLimiter, init, bucket, prune, allow}

pub record Call : Type 0 where
  pub at : ℕ
  pub key : String

-- All granted calls of a run, the earliest first, and the limiter that the run leaves.
pub serve : InMemoryRateLimiter → List Call → List Call → List Call × InMemoryRateLimiter
serve l granted [] = (granted, l)
serve l granted (c ∷ calls) =
    let (allowed, l') = allow c.at c.key l in
    serve l' (if allowed then granted ++ c ∷ [] else granted) calls

-- At time `now`, `t` is inside a window of the given width.
abbrev pub within : ℕ → ℕ → ℕ → Bool
within window now t = leb (now - t) window

abbrev pub hit : ℕ → ℕ → String → Call → Bool
hit window now key c = (c.key == key) && within window now c.at

-- Calls in the order of their times, none before `since`.
abbrev pub IsChronological : ℕ → List Call → Type 0
IsChronological since [] = Unit
IsChronological since (c ∷ calls) = (since ≤ c.at) × IsChronological c.at calls

abbrev pub last_time : ℕ → List Call → ℕ
last_time since [] = since
last_time since (c ∷ calls) = last_time c.at calls

-- Ascending times, none after `hi`.
abbrev Ascends : ℕ → List ℕ → Type 0
Ascends hi [] = Unit
Ascends hi (t ∷ ts) = (t ≤ hi) × All (λ u. t ≤ u) ts × Ascends hi ts

Ascends-weaken : (hi now : ℕ) (ts : List ℕ) → hi ≤ now → Ascends hi ts → Ascends now ts
Ascends-weaken hi now [] le h = tt
Ascends-weaken hi now (t ∷ ts) le h = (omega arith, h.1, Ascends-weaken hi now ts le h.2)

All-le-append :
    (t now : ℕ) (ts : List ℕ) → All (λ u. t ≤ u) ts → t ≤ now → All (λ u. t ≤ u) (ts ++ now ∷ [])
All-le-append t now ts h le = All-append (λ u. t ≤ u) ts (now ∷ []) h (le, tt)

Ascends-snoc : (hi now : ℕ) (ts : List ℕ) → hi ≤ now → Ascends hi ts → Ascends now (ts ++ now ∷ [])
Ascends-snoc hi now [] le h = omega arith
Ascends-snoc hi now (t ∷ ts) le h =
    (omega arith, All-le-append t now ts h.1 (omega arith), Ascends-snoc hi now ts le h.2)

Ascends-prune : (w now hi : ℕ) (ts : List ℕ) → Ascends hi ts → Ascends hi (prune w now ts)
unfolding prune
Ascends-prune w now hi [] h = tt
Ascends-prune w now hi (t ∷ ts) h = elim (Bool-cases (ltb w (now - t))) [
  | inl old ↦ rw old (Ascends-prune w now hi ts h.2)
  | inr new ↦ rw new h
]

length-prune-le : (w now : ℕ) (ts : List ℕ) → length (prune w now ts) ≤ length ts
unfolding prune
length-prune-le w now [] = omega arith
length-prune-le w now (t ∷ ts) = ground (arith, length-prune-le w now ts)

-- What the loop drops is outside every later window.
count-prune :
    (w now later : ℕ) (ts : List ℕ)
    → now ≤ later
    → count (within w later) (prune w now ts) ≡ count (within w later) ts
unfolding prune
count-prune w now later [] le = refl
count-prune w now later (t ∷ ts) le = ground (arith, count-prune w now later ts le)

count-within-All :
    (w now t : ℕ) (ts : List ℕ)
    → All (λ u. t ≤ u) ts
    → now - t ≤ w
    → count (within w now) ts ≡ length ts
count-within-All w now t [] h fits = refl
count-within-All w now t (u ∷ us) h fits = ground (arith, count-within-All w now t us h.1 fits, h.0)

-- What the loop keeps is inside the window, since the times ascend.
length-prune :
    (w now hi : ℕ) (ts : List ℕ)
    → Ascends hi ts
    → length (prune w now ts) ≡ count (within w now) (prune w now ts)
unfolding prune
length-prune w now hi [] h = refl
length-prune w now hi (t ∷ ts) h =
    ground (arith, length-prune w now hi ts h.2, count-within-All w now t ts h.1)

-- The limiter holds what the log of granted calls says, for every window that ends now or later.
pub record Tracks (m w : ℕ) (l : InMemoryRateLimiter) (now : ℕ) (granted : List Call) : Type 0 where
  pub max_calls : l.max_calls ≡ m
  pub window : l.window_seconds ≡ w
  pub counts :
      (key : String) (later : ℕ)
      → now ≤ later
      → count (hit w later key) granted ≡ count (within w later) (bucket l key)
  pub ascends : (key : String) → Ascends now (bucket l key)
  pub capped : (key : String) → length (bucket l key) ≤ m

Tracks-init : (m w : ℕ) → Tracks m w (init m w) 0 []
unfolding bucket
Tracks-init m w = record {
  max_calls = refl;
  window = refl;
  counts = λ key later le. unfold Dict.get in refl;
  ascends = λ key. unfold Dict.get in tt;
  capped = λ key. unfold Dict.get in omega arith;
}

-- The calls of one key that `allow` finds in the window are those of the log.
kept_eq :
    {m w : ℕ} {l : InMemoryRateLimiter} {since : ℕ} {granted : List Call} (now : ℕ) (key : String)
    → Tracks m w l since granted
    → since ≤ now
    → length (prune w now (bucket l key)) ≡ count (hit w now key) granted
kept_eq {w = w} {l = l} now key h le =
    length-prune w now _ (bucket l key) (h.ascends key)
    ∙ count-prune w now now (bucket l key) (omega arith)
    ∙ sym (h.counts key now le)

-- The answer of `allow` is the specification's: fewer than the limit in the window that ends now.
pub allow_iff :
    {m w : ℕ} {l : InMemoryRateLimiter} {since : ℕ} {granted : List Call} (now : ℕ) (key : String)
    → Tracks m w l since granted
    → since ≤ now
    → (allow now key l).0 ≡ ltb (count (hit w now key) granted) m
unfolding allow
allow_iff now key h le = rw (h.window, h.max_calls) (ground (arith, kept_eq now key h le))

bucket-set :
    (l : InMemoryRateLimiter) (k j : String) (b : List ℕ)
    → bucket (record l { buckets = Dict.set l.buckets k b }) j ≡ (if k == j then b else bucket l j)
unfolding bucket
bucket-set l k j b = ground (arith, Dict.get-set l.buckets k j b)

module _ {m w : ℕ} {l : InMemoryRateLimiter} {since : ℕ} {granted : List Call} (now : ℕ)
    (key : String) (h : Tracks m w l since granted) (le : since ≤ now) where
  abbrev kept : List ℕ
  kept = prune l.window_seconds now (bucket l key)

  abbrev stored : List ℕ → InMemoryRateLimiter
  stored b = record l { buckets = Dict.set l.buckets key b }

  Ascends-stored : (b : List ℕ) → Ascends now b → (j : String) → Ascends now (bucket (stored b) j)
  Ascends-stored b hb j = rw (bucket-set l key j b) (elim (Bool-cases (key == j)) [
    | inl e ↦ rw e hb
    | inr e ↦ rw e (Ascends-weaken since now (bucket l j) le (h.ascends j))
  ])

  Ascends-kept : Ascends since kept
  Ascends-kept = Ascends-prune l.window_seconds now since (bucket l key) (h.ascends key)

  Tracks-deny : Tracks m w (stored kept) now granted
  Tracks-deny = record {
    max_calls = h.max_calls;
    window = h.window;
    counts = λ j later le'. ground (
      arith,
      bucket-set l key j kept,
      h.counts j later (omega arith),
      count-prune w now later (bucket l key) le',
      string_eq.beq_iff key j,
    );
    ascends = Ascends-stored kept (Ascends-weaken since now kept le Ascends-kept);
    capped = λ j. ground (
      arith,
      bucket-set l key j kept,
      length-prune-le l.window_seconds now (bucket l key),
      h.capped key,
      h.capped j,
    );
  }

  Tracks-grant :
      length kept < m
      → Tracks m w (stored (kept ++ now ∷ [])) now (granted ++ record { at = now; key = key } ∷ [])
  Tracks-grant room = record {
    max_calls = h.max_calls;
    window = h.window;
    counts = λ j later le'. ground (
      arith,
      bucket-set l key j (kept ++ now ∷ []),
      h.counts j later (omega arith),
      count-prune w now later (bucket l key) le',
      count-append (hit w later j) granted (record { at = now; key = key } ∷ []),
      count-append (within w later) kept (now ∷ []),
      string_eq.beq_iff key j,
    );
    ascends = Ascends-stored (kept ++ now ∷ []) (Ascends-snoc since now kept le Ascends-kept);
    capped = λ j.
        ground
          (arith, bucket-set l key j (kept ++ now ∷ []), length-append kept (now ∷ []), h.capped j);
  }

-- One call keeps the limiter in step with the log.
pub Tracks-allow :
    {m w : ℕ} {l : InMemoryRateLimiter} {since : ℕ} {granted : List Call} (c : Call)
    → Tracks m w l since granted
    → since ≤ c.at
    → Tracks m w
        (allow c.at c.key l).1
        c.at
        (if (allow c.at c.key l).0 then granted ++ c ∷ [] else granted)
unfolding allow
Tracks-allow {m} {w} {l} {granted = granted} c h le =
    elim (Bool-cases (leb l.max_calls (length (prune l.window_seconds c.at (bucket l c.key))))) [
      | inl full ↦ rw full (Tracks-deny c.at c.key h le)
      | inr room ↦ rw room (Tracks-grant c.at c.key h le (ground (arith, h.max_calls)))
    ]

pub Tracks-serve :
    {m w : ℕ} (l : InMemoryRateLimiter) (since : ℕ) (granted : List Call) (calls : List Call)
    → Tracks m w l since granted
    → IsChronological since calls
    → Tracks m w (serve l granted calls).1 (last_time since calls) (serve l granted calls).0
unfolding serve
Tracks-serve l since granted [] h chron = h
Tracks-serve l since granted (c ∷ calls) h chron =
    let (allowed, l') = allow c.at c.key l in
    Tracks-serve l' c.at (if allowed then granted ++ c ∷ [] else granted) calls
      (Tracks-allow c h chron.0) chron.1

-- For any run of calls in the order of their times, from a fresh limiter: in no window that ends
-- at or after the last call were more than `max_calls` calls of one key granted.
pub serve_capped :
    (max_calls window : ℕ) (calls : List Call) (key : String) (now : ℕ)
    → IsChronological 0 calls
    → last_time 0 calls ≤ now
    → count (hit window now key) (serve (init max_calls window) [] calls).0 ≤ max_calls
serve_capped m w calls key now chron le =
    let h = Tracks-serve (init m w) 0 [] calls (Tracks-init m w) chron in
    omega (
      arith,
      h.counts key now le,
      count-le-length (within w now) (bucket (serve (init m w) [] calls).1 key),
      h.capped key,
    )

-- After any run of calls in the order of their times, from a fresh limiter, `allow` at a time not
-- before the last call answers true exactly if fewer than `max_calls` calls of the key were granted
-- in the window that ends now.
pub allow_exact :
    (max_calls window : ℕ) (calls : List Call) (key : String) (now : ℕ)
    → IsChronological 0 calls
    → last_time 0 calls ≤ now
    → (allow now key (serve (init max_calls window) [] calls).1).0
      ≡ ltb (count (hit window now key) (serve (init max_calls window) [] calls).0) max_calls
allow_exact m w calls key now chron le =
    allow_iff now key (Tracks-serve (init m w) 0 [] calls (Tracks-init m w) chron) le

-- ===== src/Retraining.antt =====
-- mlops/retrain.py: the watch over a deployed model, `add_round` and `watch_verdict`. An accuracy
-- is a whole number of 1e-9, to which the source rounds differences; times are numbers of seconds. The reason
-- beside a verdict is an enum instead of a sentence.
pub mod Gathering
mod Lows
mod Staleness
pub mod Watching
use lightserve.Prelude.{
  ℕ, ◌+◌, Bool, true, false, not, ◌&&◌, Option, none, some, List, [], ◌∷◌, ◌++◌, length, ltb, leb,
  if◌then◌else◌,
}

-- One entry of `rounds`: a complete round of the canary.
pub record CanaryRound : Type 0 where
  pub finished_at : ℕ
  pub accuracy : ℕ

-- The canary as it was last scraped, where `add_round` reads it.
pub record Reading : Type 0 where
  pub switched_at : Option ℕ
  pub scored : Option ℕ
  pub last_run : Option ℕ

pub data Verdict : Type 0 where
  wait : ℕ → Verdict
  pass : ℕ → Verdict
  low_twice : CanaryRound → CanaryRound → Verdict
  stale : Verdict
  too_few : ℕ → Verdict

-- `rounds[-1]`
unfoldable pub last_round : List CanaryRound → Option CanaryRound
last_round [] = none
last_round (a ∷ []) = some a
last_round (a ∷ b ∷ rest) = last_round (b ∷ rest)

-- `not rounds or r["last_run"] > rounds[-1][0]`
unfoldable pub later : Option CanaryRound → ℕ → Bool
later none run = true
later (some a) run = ltb a.finished_at run

-- The reading with its three values, where each is there.
unfoldable pub add_scored : List CanaryRound → ℕ → ℕ → ℕ → List CanaryRound
add_scored rounds since score run =
    if ltb since run && later (last_round rounds) run
    then rounds ++ (record { finished_at = run; accuracy = score }) ∷ []
    else rounds

unfoldable pub add_present : List CanaryRound → Option ℕ → Option ℕ → Option ℕ → List CanaryRound
add_present rounds (some since) (some score) (some run) = add_scored rounds since score run
add_present rounds _ _ _ = rounds

unfoldable pub add_round : List CanaryRound → Reading → List CanaryRound
add_round rounds r = add_present rounds r.switched_at r.scored r.last_run

-- An entry of `low`.
unfoldable pub is_low : ℕ → ℕ → CanaryRound → Bool
is_low expected margin a = ltb (a.accuracy + margin) expected

-- The first two rounds in a row that are low.
unfoldable pub first_low_pair : ℕ → ℕ → List CanaryRound → Option (CanaryRound × CanaryRound)
first_low_pair expected margin [] = none
first_low_pair expected margin (a ∷ []) = none
first_low_pair expected margin (a ∷ b ∷ rest) =
    let next = first_low_pair expected margin (b ∷ rest) in
    if is_low expected margin a && is_low expected margin b then some (a, b) else next

-- `max(started, switched_at)`
unfoldable pub start_of : ℕ → Option ℕ → ℕ
start_of started none = started
start_of started (some switched) = if ltb started switched then switched else started

-- Since when there has been no complete round.
unfoldable pub since_of : Option CanaryRound → ℕ → Option ℕ → ℕ
since_of none started switched_at = start_of started switched_at
since_of (some a) started switched_at = a.finished_at

-- The rules behind the one on low rounds.
unfoldable pub judge : List CanaryRound → ℕ → Option ℕ → ℕ → ℕ → ℕ → ℕ → Verdict
judge rounds started switched_at now window stale_after min_rounds =
    if ltb (since_of (last_round rounds) started switched_at + stale_after) now
    then stale
    else if leb (started + window) now
    then (if ltb (length rounds) min_rounds then too_few (length rounds) else pass (length rounds))
    else wait (length rounds)

-- Each verdict but `wait` and `pass` is the source's "rollback".
unfoldable pub watch_verdict : List CanaryRound → ℕ → ℕ → Option ℕ → ℕ → ℕ → ℕ → ℕ → ℕ → Verdict
watch_verdict rounds expected started switched_at now window stale_after margin min_rounds =
    elim (first_low_pair expected margin rounds) [
      | some (a, b) ↦ low_twice a b
      | none ↦ judge rounds started switched_at now window stale_after min_rounds
    ]

-- ===== src/Retraining/Watching.antt =====
-- mlops/retrain.py: what a verdict of the watch says of the rounds.
use lightserve.Prelude.{
  ℕ, ◌+◌, ◌≤◌, ◌<◌, ◌≡◌, refl, sym, subst, inl, inr, Option, none, some, List, length, Bool-cases,
  Option-cases, ltb_lt, ltb_ge, leb_gt, leb_sound, ltb, leb,
}
use lightserve.Retraining.{
  CanaryRound, Verdict, wait, pass, low_twice, stale, too_few, last_round, first_low_pair, since_of,
  judge, watch_verdict,
}
use lightserve.Retraining.Lows.{LowPair, LowTwice, row_found, row_missing}
use lightserve.Retraining.Staleness.{IsStale, too_old, young_enough}

-- What holds of the rounds and the clock behind each verdict.
abbrev pub Outcome : List CanaryRound → ℕ → ℕ → Option ℕ → ℕ → ℕ → ℕ → ℕ → ℕ → Verdict → Type 0
Outcome rounds expected started switched_at now window stale_after margin min_rounds (wait n) =
    ¬ LowTwice expected margin rounds
    × ¬ IsStale rounds started switched_at stale_after now
    × (now < started + window)
    × (n ≡ length rounds)
Outcome rounds expected started switched_at now window stale_after margin min_rounds (pass n) =
    ¬ LowTwice expected margin rounds
    × ¬ IsStale rounds started switched_at stale_after now
    × (started + window ≤ now)
    × (min_rounds ≤ length rounds)
    × (n ≡ length rounds)
Outcome rounds expected started switched_at now window stale_after margin min_rounds
      (low_twice a b) =
    LowPair expected margin rounds a b
Outcome rounds expected started switched_at now window stale_after margin min_rounds stale =
    ¬ LowTwice expected margin rounds × IsStale rounds started switched_at stale_after now
Outcome rounds expected started switched_at now window stale_after margin min_rounds (too_few n) =
    ¬ LowTwice expected margin rounds
    × ¬ IsStale rounds started switched_at stale_after now
    × (started + window ≤ now)
    × (length rounds < min_rounds)
    × (n ≡ length rounds)

-- The rules behind the one on low rounds, where it does not apply.
judge-Outcome :
    (rounds : List CanaryRound) (expected started : ℕ) (switched_at : Option ℕ)
    (now window stale_after margin min_rounds : ℕ)
    → ¬ LowTwice expected margin rounds
    → Outcome rounds expected started switched_at now window stale_after margin min_rounds
        (judge rounds started switched_at now window stale_after min_rounds)
unfolding judge
judge-Outcome rounds expected started switched_at now window stale_after margin min_rounds
      none_low =
    elim (Bool-cases (ltb (since_of (last_round rounds) started switched_at + stale_after) now)) [
      | inl e ↦
          rw (e, judge)
            (none_low, too_old rounds started switched_at stale_after now (ltb_lt _ _ e))
      | inr e ↦
          let fresh = young_enough rounds started switched_at stale_after now (ltb_ge _ _ e) in
          elim (Bool-cases (leb (started + window) now)) [
            | inr f ↦ rw (e, f, judge) (none_low, fresh, leb_gt _ _ f, refl)
            | inl f ↦ elim (Bool-cases (ltb (length rounds) min_rounds)) [
              | inl g ↦ rw (e, f, g, judge) (none_low, fresh, leb_sound _ _ f, ltb_lt _ _ g, refl)
              | inr g ↦ rw (e, f, g, judge) (none_low, fresh, leb_sound _ _ f, ltb_ge _ _ g, refl)
            ]
          ]
    ]

judged :
    (rounds : List CanaryRound) (expected started : ℕ) (switched_at : Option ℕ)
    (now window stale_after margin min_rounds : ℕ)
    → first_low_pair expected margin rounds ≡ none
    → watch_verdict rounds expected started switched_at now window stale_after margin min_rounds
      ≡ judge rounds started switched_at now window stale_after min_rounds
unfolding watch_verdict
judged rounds expected started switched_at now window stale_after margin min_rounds e =
    rw (e, watch_verdict) refl

rolled_back :
    (rounds : List CanaryRound) (expected started : ℕ) (switched_at : Option ℕ)
    (now window stale_after margin min_rounds : ℕ) (a b : CanaryRound)
    → first_low_pair expected margin rounds ≡ some (a, b)
    → watch_verdict rounds expected started switched_at now window stale_after margin min_rounds
      ≡ low_twice a b
unfolding watch_verdict
rolled_back rounds expected started switched_at now window stale_after margin min_rounds a b e =
    rw (e, watch_verdict) refl

-- Each verdict of the watch comes with what it stands for, stated by the list of rounds and the times
-- alone. A rollback: the two rounds it names stand in a row and are more than the margin below normal;
-- or none do, and the last round, or with no rounds both the deployment and the canary's switch, is
-- too long ago; or neither, and the window is over with too few rounds. A pass: nothing of that, and
-- the window is over. A wait: neither of the first two, and the window is not over.
pub watch_verdict-Outcome :
    (rounds : List CanaryRound) (expected started : ℕ) (switched_at : Option ℕ)
    (now window stale_after margin min_rounds : ℕ)
    → Outcome rounds expected started switched_at now window stale_after margin min_rounds
        (watch_verdict rounds expected started switched_at now window stale_after margin min_rounds)
watch_verdict-Outcome rounds expected started switched_at now window stale_after margin min_rounds =
    elim (Option-cases (first_low_pair expected margin rounds)) [
      | inl e ↦
          subst
            (Outcome rounds expected started switched_at now window stale_after margin min_rounds)
            (sym (
              judged rounds expected started switched_at now window stale_after margin min_rounds
                e))
            (judge-Outcome rounds expected started switched_at now window stale_after margin
              min_rounds (row_missing expected margin rounds e))
      | inr ((a, b), e) ↦
          subst
            (Outcome rounds expected started switched_at now window stale_after margin min_rounds)
            (sym (
              rolled_back rounds expected started switched_at now window stale_after margin
                min_rounds a b e))
            (row_found expected margin rounds (a, b) e)
    ]

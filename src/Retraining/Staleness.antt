-- ===== src/Retraining/Staleness.antt =====
-- mlops/retrain.py: the rule of `watch_verdict` on the time since the last complete round.
use lightserve.Prelude.{
  ℕ, ◌+◌, ◌<◌, ◌≤◌, ◌≡◌, ◌⊎◌, refl, ◌∙◌, inl, inr, Option, none, some, List, [], ◌∷◌, ◌++◌, arith,
  ap,
}
use lightserve.Retraining.{CanaryRound, last_round, start_of, since_of}

-- There are rounds, and the last is too old; or there are none, and both the deployment and, if there
-- is one yet, the canary's switch to the model are.
abbrev pub IsStale : List CanaryRound → ℕ → Option ℕ → ℕ → ℕ → Type 0
IsStale rounds started switched_at stale_after now =
    ((before : List CanaryRound) × (a : CanaryRound) × (rounds ≡ before ++ a ∷ [])
      × (a.finished_at + stale_after < now))
    ⊎ ((rounds ≡ [])
        × (started + stale_after < now)
        × ((s : ℕ) → switched_at ≡ some s → s + stale_after < now))

pub last_round-snoc :
    (rounds : List CanaryRound) (c : CanaryRound) → last_round (rounds ++ c ∷ []) ≡ some c
unfolding last_round
last_round-snoc [] c = refl
last_round-snoc (a ∷ []) c = refl
last_round-snoc (a ∷ b ∷ rest) c = last_round-snoc (b ∷ rest) c

-- A list of rounds is empty, or ends in its last round.
last_round_end :
    (rounds : List CanaryRound)
    → (rounds ≡ [])
      ⊎ ((before : List CanaryRound) × (a : CanaryRound) × (rounds ≡ before ++ a ∷ []))
last_round_end [] = inl refl
last_round_end (b ∷ rest) = elim (last_round_end rest) [
  | inl e ↦ inr ([], b, ap (◌∷◌ b) e)
  | inr (before, a, e) ↦ inr (b ∷ before, a, ap (◌∷◌ b) e)
]

since_of_last :
    (rounds before : List CanaryRound) (a : CanaryRound) (started : ℕ) (switched_at : Option ℕ)
    → rounds ≡ before ++ a ∷ []
    → since_of (last_round rounds) started switched_at ≡ a.finished_at
unfolding since_of
since_of_last rounds before a started switched_at e =
    ap (λ o. since_of o started switched_at) (ap last_round e ∙ last_round-snoc before a)

since_of_start :
    (rounds : List CanaryRound) (started : ℕ) (switched_at : Option ℕ)
    → rounds ≡ []
    → since_of (last_round rounds) started switched_at ≡ start_of started switched_at
unfolding since_of last_round
since_of_start rounds started switched_at e =
    ap (λ r. since_of (last_round r) started switched_at) e

start_of-none : (started : ℕ) (switched_at : Option ℕ) → started ≤ start_of started switched_at
unfolding start_of
start_of-none started none = omega arith
start_of-none started (some s) = ground arith

start_of-some :
    (started s : ℕ) (switched_at : Option ℕ)
    → switched_at ≡ some s
    → s ≤ start_of started switched_at
unfolding start_of
start_of-some started s switched_at e = rw (e, start_of) (ground arith)

start_of_either :
    (started : ℕ) (switched_at : Option ℕ)
    → (start_of started switched_at ≡ started) ⊎ (switched_at ≡ some (start_of started switched_at))
unfolding start_of
start_of_either started none = inl refl
start_of_either started (some s) = ground arith

-- The code's test for a stale round, where it holds.
pub too_old :
    (rounds : List CanaryRound) (started : ℕ) (switched_at : Option ℕ) (stale_after now : ℕ)
    → since_of (last_round rounds) started switched_at + stale_after < now
    → IsStale rounds started switched_at stale_after now
too_old rounds started switched_at stale_after now h = elim (last_round_end rounds) [
  | inr (before, a, e) ↦
      inl (before, a, e, omega (arith, h, since_of_last rounds before a started switched_at e))
  | inl e ↦ inr (
    e,
    omega
        (arith, h, since_of_start rounds started switched_at e, start_of-none started switched_at),
    λ s q. omega (
      arith,
      h,
      since_of_start rounds started switched_at e,
      start_of-some started s switched_at q,
    ),
  )
]

-- And where it does not.
pub young_enough :
    (rounds : List CanaryRound) (started : ℕ) (switched_at : Option ℕ) (stale_after now : ℕ)
    → now ≤ since_of (last_round rounds) started switched_at + stale_after
    → ¬ IsStale rounds started switched_at stale_after now
young_enough rounds started switched_at stale_after now h (inl (before, a, e, lt)) =
    omega (arith, h, lt, since_of_last rounds before a started switched_at e)
young_enough rounds started switched_at stale_after now h (inr (e, lt, all)) =
    elim (start_of_either started switched_at) [
      | inl q ↦ omega (arith, h, lt, q, since_of_start rounds started switched_at e)
      | inr q ↦ omega (arith, h, all _ q, since_of_start rounds started switched_at e)
    ]

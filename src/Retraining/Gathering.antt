-- ===== src/Retraining/Gathering.antt =====
-- mlops/retrain.py: how the rounds of the watch are gathered from readings.
use lightserve.Prelude.{
  ℕ, ◌<◌, ◌≡◌, refl, inl, inr, Bool, true, false, ◌&&◌, Option, none, some, List, [], ◌∷◌, ◌++◌,
  ltb, arith, Bool-cases, ltb_lt,
}
use lightserve.Retraining.Staleness.{last_round-snoc}
use lightserve.Retraining.{
  CanaryRound, Reading, last_round, later, add_round, add_scored, add_present,
}

-- Each round is finished after the one before it.
abbrev pub Rising : List CanaryRound → Type 0
Rising [] = Unit
Rising (a ∷ []) = Unit
Rising (a ∷ b ∷ rest) = (a.finished_at < b.finished_at) × Rising (b ∷ rest)

Rising-snoc :
    (rounds : List CanaryRound) (c : CanaryRound)
    → later (last_round rounds) c.finished_at ≡ true
    → Rising rounds
    → Rising (rounds ++ c ∷ [])
unfolding last_round later
Rising-snoc [] c h r = tt
Rising-snoc (a ∷ []) c h r = (ltb_lt _ _ h, tt)
Rising-snoc (a ∷ b ∷ rest) c h r = (r.0, Rising-snoc (b ∷ rest) c h r.1)

ltb_irrefl : (a : ℕ) → ltb a a ≡ false
ltb_irrefl a = ground arith

and_right : (x y : Bool) → (x && y) ≡ true → y ≡ true
and_right true y h = h
and_right false y h = ground arith

and_false : (x : Bool) → (x && false) ≡ false
and_false true = refl
and_false false = refl

abbrev scored_round : ℕ → ℕ → CanaryRound
scored_round score run = record { finished_at = run; accuracy = score }

add_scored_new :
    (rounds : List CanaryRound) (since score run : ℕ)
    → (ltb since run && later (last_round rounds) run) ≡ true
    → add_scored rounds since score run ≡ rounds ++ scored_round score run ∷ []
unfolding add_scored
add_scored_new rounds since score run e = rw (e) refl

add_scored_old :
    (rounds : List CanaryRound) (since score run : ℕ)
    → (ltb since run && later (last_round rounds) run) ≡ false
    → add_scored rounds since score run ≡ rounds
unfolding add_scored
add_scored_old rounds since score run e = rw (e) refl

add_scored_again :
    (rounds : List CanaryRound) (since score run : ℕ)
    → add_scored (rounds ++ scored_round score run ∷ []) since score run
      ≡ rounds ++ scored_round score run ∷ []
unfolding later
add_scored_again rounds since score run =
    add_scored_old (rounds ++ scored_round score run ∷ []) since score run (
      rw (last_round-snoc rounds (scored_round score run), ltb_irrefl run)
        (and_false (ltb since run)))

add_scored_once :
    (rounds : List CanaryRound) (since score run : ℕ)
    → Rising rounds
    → Rising (add_scored rounds since score run)
      × (add_scored (add_scored rounds since score run) since score run
          ≡ add_scored rounds since score run)
add_scored_once rounds since score run h =
    elim (Bool-cases (ltb since run && later (last_round rounds) run)) [
      | inl e ↦ rw (add_scored_new rounds since score run e) (
        Rising-snoc rounds (scored_round score run) (and_right (ltb since run) _ e) h,
        add_scored_again rounds since score run,
      )
      | inr e ↦
          rw (add_scored_old rounds since score run e) (h, add_scored_old rounds since score run e)
    ]

add_present_once :
    (rounds : List CanaryRound) (since score run : Option ℕ)
    → Rising rounds
    → Rising (add_present rounds since score run)
      × (add_present (add_present rounds since score run) since score run
          ≡ add_present rounds since score run)
unfolding add_present
add_present_once rounds none score run h = (h, refl)
add_present_once rounds (some a) none run h = (h, refl)
add_present_once rounds (some a) (some b) none h = (h, refl)
add_present_once rounds (some a) (some b) (some c) h = add_scored_once rounds a b c h

-- Adding a reading to rounds that were finished one after another gives such rounds, and adding
-- the same reading once more changes nothing.
pub add_round-Rising :
    (rounds : List CanaryRound) (r : Reading)
    → Rising rounds
    → Rising (add_round rounds r) × (add_round (add_round rounds r) r ≡ add_round rounds r)
unfolding add_round
add_round-Rising rounds r h = add_present_once rounds r.switched_at r.scored r.last_run h

-- ===== src/Retraining/Lows.antt =====
-- mlops/retrain.py: the search of `watch_verdict` for two low rounds in a row.
use lightserve.Prelude.{
  ℕ, ◌+◌, ◌<◌, ◌≡◌, refl, sym, subst, ◌∙◌, inl, inr, Bool, true, false, ◌&&◌, Option, none, some,
  List, [], ◌∷◌, ◌++◌, arith, or_else, Bool-cases, ltb_lt, ap,
}
use lightserve.Retraining.{CanaryRound, is_low, first_low_pair}

-- Two rounds in a row, `a` and then `b`, are low.
abbrev pub LowPair : ℕ → ℕ → List CanaryRound → CanaryRound → CanaryRound → Type 0
LowPair expected margin rounds a b =
    (before : List CanaryRound) × (rest : List CanaryRound) × (rounds ≡ before ++ a ∷ b ∷ rest)
    × (a.accuracy + margin < expected)
    × (b.accuracy + margin < expected)

abbrev pub LowTwice : ℕ → ℕ → List CanaryRound → Type 0
LowTwice expected margin rounds =
    (a : CanaryRound) × (b : CanaryRound) × LowPair expected margin rounds a b

pub two_options {ℓ} : {A : Type ℓ} (o : Option A) (a : A) → o ≡ some a → ¬ (o ≡ none)
two_options o a e h = cc

some_inj {ℓ} : {A : Type ℓ} {a b : A} → some a ≡ some b → a ≡ b
some_inj {a = a} h = ap (λ o. or_else o a) h

LowPair-later :
    (expected margin : ℕ) (c : CanaryRound) (rounds : List CanaryRound) (a b : CanaryRound)
    → LowPair expected margin rounds a b
    → LowPair expected margin (c ∷ rounds) a b
LowPair-later expected margin c rounds a b (before, rest, e, la, lb) =
    (c ∷ before, rest, ap (◌∷◌ c) e, la, lb)

and_right : (x y : Bool) → (x && y) ≡ true → y ≡ true
and_right true y h = h
and_right false y h = ground arith

and_left : (x y : Bool) → (x && y) ≡ true → x ≡ true
and_left true y h = refl
and_left false y h = h

low_pair_skip :
    (expected margin : ℕ) (c d : CanaryRound) (rest : List CanaryRound)
    → (is_low expected margin c && is_low expected margin d) ≡ false
    → first_low_pair expected margin (c ∷ d ∷ rest) ≡ first_low_pair expected margin (d ∷ rest)
unfolding first_low_pair
low_pair_skip expected margin c d rest e = rw (e) refl

low_pair_here :
    (expected margin : ℕ) (c d : CanaryRound) (rest : List CanaryRound)
    → (is_low expected margin c && is_low expected margin d) ≡ true
    → first_low_pair expected margin (c ∷ d ∷ rest) ≡ some (c, d)
unfolding first_low_pair
low_pair_here expected margin c d rest e = rw (e) refl

row_here :
    (expected margin : ℕ) (c d : CanaryRound) (rest : List CanaryRound)
    → (is_low expected margin c && is_low expected margin d) ≡ true
    → LowPair expected margin (c ∷ d ∷ rest) c d
unfolding is_low
row_here expected margin c d rest e = (
  [],
  rest,
  refl,
  ltb_lt _ _ (and_left (is_low expected margin c) (is_low expected margin d) e),
  ltb_lt _ _ (and_right (is_low expected margin c) (is_low expected margin d) e),
)

-- The pair that is found is a pair of low rounds in a row.
pub row_found :
    (expected margin : ℕ) (rounds : List CanaryRound) (p : CanaryRound × CanaryRound)
    → first_low_pair expected margin rounds ≡ some p
    → LowPair expected margin rounds p.0 p.1
unfolding first_low_pair
row_found expected margin [] p h = absurd (two_options _ p h refl)
row_found expected margin (c ∷ []) p h = absurd (two_options _ p h refl)
row_found expected margin (c ∷ d ∷ rest) p h =
    elim (Bool-cases (is_low expected margin c && is_low expected margin d)) [
      | inl e ↦
          subst (λ q. LowPair expected margin (c ∷ d ∷ rest) q.0 q.1)
            (some_inj (sym (low_pair_here expected margin c d rest e) ∙ h))
            (row_here expected margin c d rest e)
      | inr e ↦ LowPair-later expected margin c (d ∷ rest) p.0 p.1 (
          row_found expected margin (d ∷ rest) p
            (sym (low_pair_skip expected margin c d rest e) ∙ h))
    ]

low_both :
    (expected margin : ℕ) (a b : CanaryRound)
    → a.accuracy + margin < expected
    → b.accuracy + margin < expected
    → (is_low expected margin a && is_low expected margin b) ≡ true
unfolding is_low
low_both expected margin a b la lb = ground arith

behind :
    (expected margin : ℕ) (c d : CanaryRound) (rest : List CanaryRound)
    → ¬ (first_low_pair expected margin (d ∷ rest) ≡ none)
    → ¬ (first_low_pair expected margin (c ∷ d ∷ rest) ≡ none)
behind expected margin c d rest found h =
    elim (Bool-cases (is_low expected margin c && is_low expected margin d)) [
      | inl e ↦ two_options _ (c, d) (low_pair_here expected margin c d rest e) h
      | inr e ↦ found (sym (low_pair_skip expected margin c d rest e) ∙ h)
    ]

no_low_pair :
    (expected margin : ℕ) (before : List CanaryRound) (a b : CanaryRound) (rest : List CanaryRound)
    → a.accuracy + margin < expected
    → b.accuracy + margin < expected
    → ¬ (first_low_pair expected margin (before ++ a ∷ b ∷ rest) ≡ none)
no_low_pair expected margin [] a b rest la lb h =
    two_options _ (a, b)
      (low_pair_here expected margin a b rest (low_both expected margin a b la lb)) h
no_low_pair expected margin (c ∷ []) a b rest la lb h =
    behind expected margin c a (b ∷ rest) (no_low_pair expected margin [] a b rest la lb) h
no_low_pair expected margin (c ∷ d ∷ before) a b rest la lb h =
    behind expected margin c d (before ++ a ∷ b ∷ rest)
      (no_low_pair expected margin (d ∷ before) a b rest la lb) h

-- Where no pair is found there is none.
pub row_missing :
    (expected margin : ℕ) (rounds : List CanaryRound)
    → first_low_pair expected margin rounds ≡ none
    → ¬ LowTwice expected margin rounds
row_missing expected margin rounds h (a, b, (before, rest, e, la, lb)) =
    no_low_pair expected margin before a b rest la lb
      (sym (ap (first_low_pair expected margin) e) ∙ h)

-- ===== src/Prelude/Lists.antt =====
-- Lists measured and indexed by native numbers, under the library's names, and Python's slices.
use Prim.Native.Nat.{ℕ, zero, suc, ◌+◌, ◌-◌, ◌≤◌, ◌<◌, min}
use mathlib.Core.Path.{◌≡◌, refl, sym, ap, ◌∙◌}
use mathlib.Core.Bool.{Bool, true, false, ◌||◌}
use mathlib.Core.Logic.{◌⊎◌, inl, inr}
use mathlib.Core.List.{List, [], ◌∷◌, ◌++◌, reverse, reverse-cons}
use mathlib.Core.Option.{Option, none, some}
use native.Mathlib.Omega.{arith}
use lightserve.Prelude.Tests.{◌==◌, Bool-cases, eq_sound, if◌then◌else◌}

module _ {ℓ} {A : Type ℓ} where
  abbrev pub length : List A → ℕ
  length [] = 0
  length (x ∷ xs) = suc (length xs)

  abbrev pub get_elem? : List A → ℕ → Option A
  get_elem? [] i = none
  get_elem? (x ∷ xs) zero = some x
  get_elem? (x ∷ xs) (suc i) = get_elem? xs i

  abbrev pub take : ℕ → List A → List A
  take zero xs = []
  take (suc n) [] = []
  take (suc n) (x ∷ xs) = x ∷ take n xs

  abbrev pub drop : ℕ → List A → List A
  drop zero xs = xs
  drop (suc n) [] = []
  drop (suc n) (x ∷ xs) = drop n xs

  -- `xs[-1]`, where there is one
  abbrev pub last? : List A → Option A
  last? [] = none
  last? (x ∷ []) = some x
  last? (x ∷ y ∷ xs) = last? (y ∷ xs)

  -- All but the last element.
  abbrev pub init : List A → List A
  init [] = []
  init (x ∷ []) = []
  init (x ∷ y ∷ xs) = x ∷ init (y ∷ xs)

  -- `bool(xs)` of a Python list
  abbrev pub nonempty : List A → Bool
  nonempty [] = false
  nonempty (_ ∷ _) = true

  -- `[x for x in xs if p(x)]`
  unfoldable pub keep : (A → Bool) → List A → List A
  keep p [] = []
  keep p (x ∷ xs) = if p x then x ∷ keep p xs else keep p xs

  pub length-append : (xs ys : List A) → length (xs ++ ys) ≡ length xs + length ys
  length-append [] ys = omega arith
  length-append (x ∷ xs) ys = omega (arith, length-append xs ys)

  pub length-reverse : (xs : List A) → length (reverse xs) ≡ length xs
  length-reverse [] = refl
  length-reverse (y ∷ ys) =
      let turned = length-append (reverse ys) (y ∷ []) in
      omega (arith, length-reverse ys, turned, ap length (reverse-cons y ys))

  pub take-append-drop : (n : ℕ) (xs : List A) → take n xs ++ drop n xs ≡ xs
  take-append-drop zero xs = refl
  take-append-drop (suc n) [] = refl
  take-append-drop (suc n) (x ∷ xs) = ap (◌∷◌ x) (take-append-drop n xs)

  take-nil : (n : ℕ) → take n [] ≡ []
  take-nil zero = refl
  take-nil (suc n) = refl

  -- A slice behind a slice.
  pub take_slices : (m n : ℕ) (xs : List A) → take m xs ++ take n (drop m xs) ≡ take (m + n) xs
  take_slices zero n xs = ap (λ k. take k xs) (omega arith)
  take_slices (suc m) n [] = take-nil n ∙ sym (take-nil (suc m + n))
  take_slices (suc m) n (x ∷ xs) =
      let e : suc (m + n) ≡ suc m + n = omega arith in
      ap (◌∷◌ x) (take_slices m n xs) ∙ ap (λ k. take k (x ∷ xs)) e

  pub length-take : (n : ℕ) (xs : List A) → length (take n xs) ≡ min n (length xs)
  length-take zero xs = omega arith
  length-take (suc n) [] = omega arith
  length-take (suc n) (x ∷ xs) = omega (arith, length-take n xs)

  pub length-drop : (n : ℕ) (xs : List A) → length (drop n xs) ≡ length xs - n
  length-drop zero xs = omega arith
  length-drop (suc n) [] = omega arith
  length-drop (suc n) (x ∷ xs) = omega (arith, length-drop n xs)

  pub length-keep-le : (p : A → Bool) (xs : List A) → length (keep p xs) ≤ length xs
  unfolding keep
  length-keep-le p [] = omega arith
  length-keep-le p (x ∷ xs) = ground (arith, length-keep-le p xs)

  -- A nonempty list is what precedes its last element, and that.
  pub init-append-last : (xs : List A) (y : A) → last? xs ≡ some y → init xs ++ y ∷ [] ≡ xs
  init-append-last [] y h = cc
  init-append-last (x ∷ []) y h = ground arith
  init-append-last (x ∷ z ∷ xs) y h = ap (◌∷◌ x) (init-append-last (z ∷ xs) y h)

  pub last?-cons : (x : A) (xs : List A) → (y : A) × (last? (x ∷ xs) ≡ some y)
  last?-cons x [] = (x, refl)
  last?-cons x (y ∷ xs) = last?-cons y xs

  pub last?-append : (xs : List A) (y : A) → last? (xs ++ y ∷ []) ≡ some y
  last?-append [] y = refl
  last?-append (x ∷ []) y = refl
  last?-append (x ∷ z ∷ xs) y = last?-append (z ∷ xs) y

-- `x in xs`
unfoldable pub elem : ℕ → List ℕ → Bool
elem a [] = false
elem a (x ∷ xs) = a == x || elem a xs

pub elem_cons : (a x : ℕ) (xs : List ℕ) → elem a (x ∷ xs) ≡ true → (a ≡ x) ⊎ (elem a xs ≡ true)
unfolding elem
elem_cons a x xs h = elim (Bool-cases (a == x)) [
  | inl e ↦ inl (eq_sound a x e)
  | inr e ↦ inr (rw e at h)
]

pub elem_here : (a x : ℕ) (xs : List ℕ) → a ≡ x → elem a (x ∷ xs) ≡ true
unfolding elem
elem_here a x xs h = ground arith

pub elem_there : (a x : ℕ) (xs : List ℕ) → elem a xs ≡ true → elem a (x ∷ xs) ≡ true
unfolding elem
elem_there a x xs h = ground arith

-- How often `a` occurs.
unfoldable pub count : ℕ → List ℕ → ℕ
count a [] = 0
count a (x ∷ xs) = (if a == x then 1 else 0) + count a xs

pub count-append : (a : ℕ) (xs ys : List ℕ) → count a (xs ++ ys) ≡ count a xs + count a ys
unfolding count
count-append a [] ys = omega arith
count-append a (x ∷ xs) ys = omega (arith, count-append a xs ys)

-- `n - 1, n - 2, …, 0`: the list `list(range(n))` read from its end.
unfoldable pub count_down : ℕ → List ℕ
count_down zero = []
count_down (suc n) = n ∷ count_down n

pub count-count_down_ge : (n b : ℕ) → n ≤ b → count b (count_down n) ≡ 0
unfolding count count_down
count-count_down_ge zero b h = refl
count-count_down_ge (suc n) b h = ground (arith, count-count_down_ge n b)

pub count-count_down_lt : (n b : ℕ) → b < n → count b (count_down n) ≡ 1
unfolding count count_down
count-count_down_lt zero b h = absurd (omega arith)
count-count_down_lt (suc n) b h = ground (arith, count-count_down_lt n b, count-count_down_ge n b)

-- A store of objects by address, and the store with one object replaced.
abbrev pub update {ℓ} : {A : Type ℓ} → (ℕ → A) → ℕ → A → ℕ → A
update f a v b = if b == a then v else f b

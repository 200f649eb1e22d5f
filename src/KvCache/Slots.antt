-- ===== src/KvCache/Slots.antt =====
-- Different positions of a request have different slots.
use lightserve.Prelude.{
  ℕ, zero, suc, ◌+◌, ◌/◌, ◌%◌, ◌≤◌, ◌<◌, ◌≡◌, refl, ap, sym, ◌∙◌, subst, some, List, [], ◌∷◌, ◌++◌,
  arith, get_elem?, count, Option-cases, Result-cases, inl, inr, ok, OnOk, OnOk-use,
}
use lightserve.KvCache.{locations}

-- No block stands in the table twice: what the block manager's ownership gives.
abbrev pub Once : List ℕ → Type 0
Once table = (b : ℕ) → count b table ≤ 1

pub count_found : (table : List ℕ) (i b : ℕ) → get_elem? table i ≡ some b → 0 < count b table
unfolding count
count_found [] i b h = cc
count_found (x ∷ table) zero b h = ground arith
count_found (x ∷ table) (suc i) b h = omega (arith, count_found table i b h)

Once-tail : (x : ℕ) (table : List ℕ) → Once (x ∷ table) → Once table
unfolding count
Once-tail x table h b = omega (arith, h b)

head_again : (x : ℕ) (table : List ℕ) (i : ℕ) → Once (x ∷ table) → get_elem? table i ≡ some x → ⊥
unfolding count
head_again x table i h e = ground (arith, h x, count_found table i x e)

-- A block is at one place of the table.
Once-index :
    (table : List ℕ) (i j b : ℕ)
    → Once table
    → get_elem? table i ≡ some b
    → get_elem? table j ≡ some b
    → i ≡ j
Once-index [] i j b h e f = cc
Once-index (x ∷ table) zero zero b h e f = refl
Once-index (x ∷ table) zero (suc j) b h e f = absurd (head_again x table j h (f ∙ sym e))
Once-index (x ∷ table) (suc i) zero b h e f = absurd (head_again x table i h (e ∙ sym f))
Once-index (x ∷ table) (suc i) (suc j) b h e f =
    ap suc (Once-index table i j b (Once-tail x table h) e f)

same_position : (d p q : ℕ) → 0 < d → p / d ≡ q / d → p % d ≡ q % d → p ≡ q
same_position d p q pos h k = grind arith

-- Two slots that differ.
abbrev pub Apart : ℕ × ℕ → ℕ × ℕ → Type 0
Apart l m = l.0 ≡ m.0 → l.1 ≡ m.1 → ⊥

abbrev pub NotIn : ℕ × ℕ → List (ℕ × ℕ) → Type 0
NotIn l [] = Unit
NotIn l (m ∷ locs) = Apart l m × NotIn l locs

abbrev pub Distinct : List (ℕ × ℕ) → Type 0
Distinct [] = Unit
Distinct (l ∷ locs) = NotIn l locs × Distinct locs

-- What a successful call of `locations` finds at its first position.
abbrev pub Located : ℕ → List ℕ → ℕ → ℕ → List (ℕ × ℕ) → Type 0
Located d table start n locs =
    (b : ℕ) × (rest : List (ℕ × ℕ)) × (get_elem? table (start / d) ≡ some b)
    × (locations d table (start + 1) n ≡ ok rest)
    × (locs ≡ (b, start % d) ∷ rest)

locations-Located :
    (d : ℕ) (table : List ℕ) (start n : ℕ)
    → OnOk (Located d table start n) (locations d table start (suc n))
unfolding locations
locations-Located d table start n = elim (Option-cases (get_elem? table (start / d))) [
  | inl e ↦ rw (e, locations) tt
  | inr (b, e) ↦ elim (Result-cases (locations d table (start + 1) n)) [
    | inl (f, q) ↦ rw (e, locations) (rw q tt)
    | inr (rest, q) ↦ rw (e, locations) (rw q (b, rest, e, q, refl))
  ]
]

pub locations-cons :
    (d : ℕ) (table : List ℕ) (start n : ℕ) {locs : List (ℕ × ℕ)}
    → locations d table start (suc n) ≡ ok locs
    → Located d table start n locs
locations-cons d table start n h =
    OnOk-use (Located d table start n) (locations d table start (suc n))
      (locations-Located d table start n) h

-- … and the other way.
pub locations-ok :
    (d : ℕ) (table : List ℕ) (start n b : ℕ) (rest : List (ℕ × ℕ))
    → get_elem? table (start / d) ≡ some b
    → locations d table (start + 1) n ≡ ok rest
    → locations d table start (suc n) ≡ ok ((b, start % d) ∷ rest)
unfolding locations
locations-ok d table start n b rest e f = rw (e, locations) (rw f refl)

nil_locations :
    (d : ℕ) (table : List ℕ) (start : ℕ) {locs : List (ℕ × ℕ)}
    → locations d table start zero ≡ ok locs
    → locs ≡ []
unfolding locations
nil_locations d table start h = cc

pub locations-append :
    (d : ℕ) (table : List ℕ) (start m n : ℕ) (xs ys : List (ℕ × ℕ))
    → locations d table start m ≡ ok xs
    → locations d table (start + m) n ≡ ok ys
    → locations d table start (m + n) ≡ ok (xs ++ ys)
locations-append d table start zero n xs ys h k = rw (nil_locations d table start h) (
    subst (λ i. locations d table start i ≡ ok ys) (zero_plus n)
      (subst (λ i. locations d table i n ≡ ok ys) (plus_zero start) k))
  where
    zero_plus : (n : ℕ) → n ≡ 0 + n
    zero_plus n = omega arith

    plus_zero : (n : ℕ) → n + 0 ≡ n
    plus_zero n = omega arith
locations-append d table start (suc m) n xs ys h k =
    let (b, rest, e, f, q) = locations-cons d table start m h in
    let tail =
      locations-append d table (start + 1) m n rest ys f
        (subst (λ i. locations d table i n ≡ ok ys) (one_on start m) k) in
    rw q (
      subst (λ i. locations d table start i ≡ ok ((b, start % d) ∷ (rest ++ ys))) (suc_plus m n)
        (locations-ok d table start (m + n) b (rest ++ ys) e tail))
  where
    one_on : (s m : ℕ) → s + suc m ≡ s + 1 + m
    one_on s m = omega arith

    suc_plus : (m n : ℕ) → suc (m + n) ≡ suc m + n
    suc_plus m n = omega arith

-- A position before the others of the request has a slot of its own.
pub locations-NotIn :
    (d : ℕ) (table : List ℕ) (p b start n : ℕ) (locs : List (ℕ × ℕ))
    → 0 < d
    → Once table
    → p < start
    → get_elem? table (p / d) ≡ some b
    → locations d table start n ≡ ok locs
    → NotIn (b, p % d) locs
locations-NotIn d table p b start zero locs pos once lt e h = rw (nil_locations d table start h) tt
locations-NotIn d table p b start (suc n) locs pos once lt e h =
    let (b', rest, e', f, q) = locations-cons d table start n h in
    rw q (
      λ k l. apart b' e' k l,
      locations-NotIn d table p b (start + 1) n rest pos once (omega (arith, lt)) e f,
    )
  where
    apart : (b' : ℕ) → get_elem? table (start / d) ≡ some b' → b ≡ b' → p % d ≡ start % d → ⊥
    apart b' e' k l = omega (
      arith,
      lt,
      same_position d p start pos
          (Once-index table (p / d) (start / d) b once e (e' ∙ ap some (sym k))) l,
    )

pub locations-Distinct :
    (d : ℕ) (table : List ℕ) (start n : ℕ) (locs : List (ℕ × ℕ))
    → 0 < d
    → Once table
    → locations d table start n ≡ ok locs
    → Distinct locs
locations-Distinct d table start zero locs pos once h = rw (nil_locations d table start h) tt
locations-Distinct d table start (suc n) locs pos once h =
    let (b, rest, e, f, q) = locations-cons d table start n h in
    rw q (
      locations-NotIn d table start b (start + 1) n rest pos once (omega arith) e f,
      locations-Distinct d table (start + 1) n rest pos once f,
    )

-- Every slot of `xs` is apart from all of `ys`.
abbrev pub Disjoint : List (ℕ × ℕ) → List (ℕ × ℕ) → Type 0
Disjoint [] ys = Unit
Disjoint (l ∷ xs) ys = NotIn l ys × Disjoint xs ys

pub locations-Disjoint :
    (d : ℕ) (table : List ℕ) (first m start n : ℕ) (xs ys : List (ℕ × ℕ))
    → 0 < d
    → Once table
    → first + m ≤ start
    → locations d table first m ≡ ok xs
    → locations d table start n ≡ ok ys
    → Disjoint xs ys
locations-Disjoint d table first zero start n xs ys pos once le h k =
    rw (nil_locations d table first h) tt
locations-Disjoint d table first (suc m) start n xs ys pos once le h k =
    let (b, rest, e, f, q) = locations-cons d table first m h in
    rw q (
      locations-NotIn d table first b start n ys pos once (omega (arith, le)) e k,
      locations-Disjoint d table (first + 1) m start n rest ys pos once (omega (arith, le)) f k,
    )

-- Slots of tables with no block in common.
pub tables-NotIn :
    (d d' : ℕ) (table table' : List ℕ) (p b start n : ℕ) (locs : List (ℕ × ℕ))
    → ((b : ℕ) → count b table + count b table' ≤ 1)
    → get_elem? table (p / d) ≡ some b
    → locations d' table' start n ≡ ok locs
    → NotIn (b, p % d) locs
tables-NotIn d d' table table' p b start zero locs once e h =
    rw (nil_locations d' table' start h) tt
tables-NotIn d d' table table' p b start (suc n) locs once e h =
    let (b', rest, e', f, q) = locations-cons d' table' start n h in
    rw q (λ k l. apart b' e' k, tables-NotIn d d' table table' p b (start + 1) n rest once e f)
  where
    apart : (b' : ℕ) → get_elem? table' (start / d') ≡ some b' → b ≡ b' → ⊥
    apart b' e' k = omega (
      arith,
      once b,
      count_found table (p / d) b e,
      count_found table' (start / d') b (e' ∙ ap some (sym k)),
    )

pub tables-Disjoint :
    (d d' : ℕ) (table table' : List ℕ) (first m start n : ℕ) (xs ys : List (ℕ × ℕ))
    → ((b : ℕ) → count b table + count b table' ≤ 1)
    → locations d table first m ≡ ok xs
    → locations d' table' start n ≡ ok ys
    → Disjoint xs ys
tables-Disjoint d d' table table' first zero start n xs ys once h k =
    rw (nil_locations d table first h) tt
tables-Disjoint d d' table table' first (suc m) start n xs ys once h k =
    let (b, rest, e, f, q) = locations-cons d table first m h in
    rw q (
      tables-NotIn d d' table table' first b start n ys once e k,
      tables-Disjoint d d' table table' (first + 1) m start n rest ys once f k,
    )

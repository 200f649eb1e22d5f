-- ===== src/KvCache/Keeping.antt =====
-- What a write leaves to be read: by the request itself, by the others, and in other layers.
use mathlib.Core.List.{map-append}
use native.Mathlib.Nat.{sub-zero}
use lightserve.Prelude.{
  ℕ, zero, suc, ◌+◌, ◌≤◌, ◌<◌, ◌≡◌, refl, ap, ap₂, sym, ◌∙◌, subst, Bool, true, false, ◌&&◌, List,
  [], ◌∷◌, ◌++◌, map, arith, length, count, ◌==◌, eq_sound, if◌then◌else◌, Bool-cases, Result-cases,
  inl, inr, ok, ltb,
}
use lightserve.Request.{Request}
use lightserve.KvCache.{
  PagedKvCache, locations, physical_locations, within, scatter, gather, set_cell, write, read,
}
use lightserve.KvCache.Slots.{
  Once, locations-cons, locations-append, locations-Distinct, locations-Disjoint, tables-Disjoint,
}
use lightserve.KvCache.Reading.{
  gather_other, gather-scatter, through, write-written, read-Held, read_ok,
}

and_left : (a b : Bool) → (a && b) ≡ true → a ≡ true
and_left true b h = refl
and_left false b h = h

and_right : (a b : Bool) → (a && b) ≡ true → b ≡ true
and_right true b h = h
and_right false b h = cc

within-append :
    (n : ℕ) (xs ys : List (ℕ × ℕ))
    → within n xs ≡ true
    → within n ys ≡ true
    → within n (xs ++ ys) ≡ true
unfolding within
within-append n [] ys h k = k
within-append n ((b, o) ∷ xs) ys h k = elim (Bool-cases (ltb b n)) [
  | inl e ↦ rw e (within-append n xs ys (and_right (ltb b n) (within n xs) h) k)
  | inr e ↦ absurd (nope (and_left (ltb b n) (within n xs) h) e)
]
  where
    nope : ltb b n ≡ true → ltb b n ≡ false → ⊥
    nope t f = cc

pub length-locations :
    (d : ℕ) (table : List ℕ) (start n : ℕ) (locs : List (ℕ × ℕ))
    → locations d table start n ≡ ok locs
    → length locs ≡ n
unfolding locations
length-locations d table start zero locs h = cc
length-locations d table start (suc n) locs h =
    let (b, rest, e, f, q) = locations-cons d table start n h in
    rw q (ap suc (length-locations d table (start + 1) n rest f))

pub length-map {ℓ κ} :
    {A : Type ℓ} {B : Type κ} (f : A → B) (xs : List A) → length (map f xs) ≡ length xs
length-map f [] = refl
length-map f (x ∷ xs) = ap suc (length-map f xs)

map_after :
    {A B C : Type 0} (f : B → C) (g : A → B) (xs : List A)
    → map f (map g xs) ≡ map (λ x. f (g x)) xs
map_after f g [] = refl
map_after f g (x ∷ xs) = ap (λ ys. f (g x) ∷ ys) (map_after f g xs)

module _ {Row Cell : Type 0} (keep_row : Bool → Row → Cell) (give_row : Bool → Cell → Row) where
  pub write_after :
      (c c' : PagedKvCache Cell) (layer : ℕ) (r : Request) (start : ℕ) (rows : List Row)
      (before : List (ℕ × ℕ))
      → 0 < c.block_size
      → Once r.block_table
      → locations c.block_size r.block_table 0 start ≡ ok before
      → within c.num_gpu_blocks before ≡ true
      → write keep_row give_row c layer r start rows ≡ ok c'
      → read keep_row give_row c' layer r (start + length rows)
        ≡ ok (
            map (give_row c.int8_kv) (gather c.cells layer before)
            ++ map (through keep_row give_row c) rows)
  write_after c c' layer r start rows before pos once h inside w =
      let (locs, e, t, q) = write-written keep_row give_row c layer r start rows w in
      let here =
        gather-scatter c.cells layer locs (map (keep_row c.int8_kv) rows)
          (locations-Distinct c.block_size r.block_table start (length rows) locs pos once e)
          (length-map (keep_row c.int8_kv) rows
            ∙ sym (length-locations c.block_size r.block_table start (length rows) locs e)) in
      let there = gather_other c.cells layer locs (map (keep_row c.int8_kv) rows) layer before (
        locations-Disjoint c.block_size r.block_table 0 start start (length rows) before locs pos
          once (omega arith) h e) in
      rw q (
        read_ok keep_row give_row (put locs) layer r (start + length rows) (before ++ locs)
          (locations-append c.block_size r.block_table 0 start (length rows) before locs h (
            subst (λ i. locations c.block_size r.block_table i (length rows) ≡ ok locs)
              (zero_plus start) e))
          (subst (λ b. (b && within c.num_gpu_blocks (before ++ locs)) ≡ true)
            (sym (and_left (ltb layer c.model_shape.n_layers) (within c.num_gpu_blocks locs) t))
            (within-append c.num_gpu_blocks before locs inside
              (and_right (ltb layer c.model_shape.n_layers) (within c.num_gpu_blocks locs) t)))
        ∙ ap (λ cells. ok (map (give_row c.int8_kv) cells))
            (map-append (λ loc. (put locs).cells layer loc.0 loc.1) before locs
              ∙ ap₂ ◌++◌ there here)
        ∙ ap ok (
            map-append (give_row c.int8_kv) (gather c.cells layer before)
              (map (keep_row c.int8_kv) rows)
            ∙ ap (λ rest. map (give_row c.int8_kv) (gather c.cells layer before) ++ rest)
                (map_after (give_row c.int8_kv) (keep_row c.int8_kv) rows)))
    where
      put : List (ℕ × ℕ) → PagedKvCache Cell
      put locs = record c { cells = scatter c.cells layer locs (map (keep_row c.int8_kv) rows) }

      zero_plus : (n : ℕ) → n ≡ 0 + n
      zero_plus n = omega arith

  -- What a request's first positions hold stays, and the written rows follow: a `write` to `layer`
  -- from `start` on, then a `read` there of all positions up to the last that was written, gives the
  -- rows that a `read` of the first `start` positions gave before, then the written rows, each as
  -- storing and loading leaves it. The block size is positive and no block stands in the request's
  -- table twice.
  pub read-write :
      (c c' : PagedKvCache Cell) (layer : ℕ) (r : Request) (start : ℕ) (rows olds : List Row)
      → 0 < c.block_size
      → Once r.block_table
      → read keep_row give_row c layer r start ≡ ok olds
      → write keep_row give_row c layer r start rows ≡ ok c'
      → read keep_row give_row c' layer r (start + length rows)
        ≡ ok (olds ++ map (λ row. give_row c.int8_kv (keep_row c.int8_kv row)) rows)
  read-write c c' layer r start rows olds pos once h w =
      let (before, e, t, q) = read-Held keep_row give_row c layer r start h in
      rw q (
        write_after c c' layer r start rows before pos once e
          (and_right (ltb layer c.model_shape.n_layers) (within c.num_gpu_blocks before) t) w)

  -- A `read` looks at the slots only.
  read_same :
      (c : PagedKvCache Cell) (cells : ℕ → ℕ → ℕ → Cell) (layer : ℕ) (r : Request) (seq_len : ℕ)
      → ((locs : List (ℕ × ℕ))
          → locations c.block_size r.block_table 0 seq_len ≡ ok locs
          → gather cells layer locs ≡ gather c.cells layer locs)
      → read keep_row give_row (record c { cells = cells }) layer r seq_len
        ≡ read keep_row give_row c layer r seq_len
  unfolding read physical_locations
  read_same c cells layer r seq_len same =
      rw (sub-zero seq_len) (elim (Result-cases (locations c.block_size r.block_table 0 seq_len)) [
        | inl (f, q) ↦ rw q refl
        | inr (locs, q) ↦ rw (q, same locs q) refl
      ])

  -- A `write` for one request changes nothing that another request reads, in any layer, where no
  -- block stands in both tables, and none twice in one.
  pub read-write_other :
      (c c' : PagedKvCache Cell) (layer layer' : ℕ) (r r' : Request) (start seq_len : ℕ)
      (rows : List Row)
      → ((b : ℕ) → count b r'.block_table + count b r.block_table ≤ 1)
      → write keep_row give_row c layer r start rows ≡ ok c'
      → read keep_row give_row c' layer' r' seq_len ≡ read keep_row give_row c layer' r' seq_len
  read-write_other c c' layer layer' r r' start seq_len rows apart w =
      let (written, e, t, q) = write-written keep_row give_row c layer r start rows w in
      rw q (
        read_same c (scatter c.cells layer written (map (keep_row c.int8_kv) rows)) layer' r'
          seq_len
          (λ locs k.
            gather_other c.cells layer written (map (keep_row c.int8_kv) rows) layer' locs (
              tables-Disjoint c.block_size c.block_size r'.block_table r.block_table 0 seq_len start
                (length rows) locs written apart k e)))

  scatter_layer :
      (cells : ℕ → ℕ → ℕ → Cell) (layer layer' : ℕ) (locs : List (ℕ × ℕ)) (values : List Cell)
      → ¬ (layer' ≡ layer)
      → scatter cells layer locs values layer' ≡ cells layer'
  unfolding scatter
  scatter_layer cells layer layer' [] values ne = refl
  scatter_layer cells layer layer' (loc ∷ locs) [] ne = refl
  scatter_layer cells layer layer' (loc ∷ locs) (v ∷ values) ne =
      scatter_layer (set_cell cells layer loc v) layer layer' locs values ne
      ∙ elim (Bool-cases (layer' == layer)) [
        | inl e ↦ absurd (ne (eq_sound _ _ e))
        | inr e ↦
            subst
              (λ t.
                (λ b o. if t && (b == loc.0 && o == loc.1) then v else cells layer' b o)
                ≡ cells layer')
              (sym e) refl
      ]

  -- … nor what is read in another layer.
  pub read-write_layer :
      (c c' : PagedKvCache Cell) (layer layer' : ℕ) (r r' : Request) (start seq_len : ℕ)
      (rows : List Row)
      → ¬ (layer' ≡ layer)
      → write keep_row give_row c layer r start rows ≡ ok c'
      → read keep_row give_row c' layer' r' seq_len ≡ read keep_row give_row c layer' r' seq_len
  read-write_layer c c' layer layer' r r' start seq_len rows ne w =
      let (written, e, t, q) = write-written keep_row give_row c layer r start rows w in
      rw q (
        read_same c (scatter c.cells layer written (map (keep_row c.int8_kv) rows)) layer' r'
          seq_len
          (λ locs k.
            ap (λ f. map (λ loc. f loc.0 loc.1) locs)
              (scatter_layer c.cells layer layer' written (map (keep_row c.int8_kv) rows) ne)))

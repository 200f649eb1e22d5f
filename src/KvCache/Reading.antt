-- ===== src/KvCache/Reading.antt =====
-- The slots of the store after a write, and what a `write` and a `read` that succeed are.
use native.Mathlib.Nat.{sub-zero}
use lightserve.Prelude.{
  if◌then◌else◌, ℕ, ◌+◌, ◌-◌, ◌≡◌, refl, ap₂, sym, ◌∙◌, subst, Bool, true, false, ◌&&◌, List, [],
  ◌∷◌, map, arith, length, ◌==◌, eq_sound, Bool-cases, Result-cases, inl, inr, Result, ok, ltb,
  OnOk, OnOk-use, OnOk-bind, OnOk-self, ◌>>=◌, ◌>>◌, index_error, guard,
}
use lightserve.Request.{Request}
use lightserve.KvCache.{
  PagedKvCache, locations, physical_locations, within, scatter, gather, set_cell, write, read,
}
use lightserve.KvCache.Slots.{Apart, NotIn, Distinct, Disjoint}

module _ {Cell : Type 0} where
  set_cell-Apart :
      (cells : ℕ → ℕ → ℕ → Cell) (layer : ℕ) (loc l : ℕ × ℕ) (v : Cell) (layer' : ℕ)
      → Apart l loc
      → set_cell cells layer loc v layer' l.0 l.1 ≡ cells layer' l.0 l.1
  set_cell-Apart cells layer loc l v layer' h = elim (Bool-cases (l.0 == loc.0)) [
    | inr e ↦ rw e (other (layer' == layer))
    | inl e ↦ elim (Bool-cases (l.1 == loc.1)) [
      | inr f ↦ rw (e, f) (other (layer' == layer))
      | inl f ↦ absurd (h (eq_sound _ _ e) (eq_sound _ _ f))
    ]
  ]
    where
      other : (b : Bool) → (if b && false then v else cells layer' l.0 l.1) ≡ cells layer' l.0 l.1
      other true = refl
      other false = refl

  set_cell_self :
      (cells : ℕ → ℕ → ℕ → Cell) (layer : ℕ) (loc : ℕ × ℕ) (v : Cell)
      → set_cell cells layer loc v layer loc.0 loc.1 ≡ v
  set_cell_self cells layer loc v = ground arith

  scatter_other :
      (cells : ℕ → ℕ → ℕ → Cell) (layer : ℕ) (locs : List (ℕ × ℕ)) (values : List Cell) (layer' : ℕ)
      (l : ℕ × ℕ)
      → NotIn l locs
      → scatter cells layer locs values layer' l.0 l.1 ≡ cells layer' l.0 l.1
  unfolding scatter
  scatter_other cells layer [] values layer' l h = refl
  scatter_other cells layer (loc ∷ locs) [] layer' l h = refl
  scatter_other cells layer (loc ∷ locs) (v ∷ values) layer' l h =
      scatter_other (set_cell cells layer loc v) layer locs values layer' l h.1
      ∙ set_cell-Apart cells layer loc l v layer' h.0

  -- Slots that a write does not touch.
  pub gather_other :
      (cells : ℕ → ℕ → ℕ → Cell) (layer : ℕ) (locs : List (ℕ × ℕ)) (values : List Cell) (layer' : ℕ)
      (xs : List (ℕ × ℕ))
      → Disjoint xs locs
      → gather (scatter cells layer locs values) layer' xs ≡ gather cells layer' xs
  gather_other cells layer locs values layer' [] h = refl
  gather_other cells layer locs values layer' (l ∷ xs) h =
      ap₂ ◌∷◌ (scatter_other cells layer locs values layer' l h.0)
        (gather_other cells layer locs values layer' xs h.1)

  -- The slots that it does.
  pub gather-scatter :
      (cells : ℕ → ℕ → ℕ → Cell) (layer : ℕ) (locs : List (ℕ × ℕ)) (values : List Cell)
      → Distinct locs
      → length values ≡ length locs
      → gather (scatter cells layer locs values) layer locs ≡ values
  unfolding scatter
  gather-scatter cells layer [] [] h e = refl
  gather-scatter cells layer [] (v ∷ values) h e = absurd (omega (arith, e))
  gather-scatter cells layer (loc ∷ locs) [] h e = absurd (omega (arith, e))
  gather-scatter cells layer (loc ∷ locs) (v ∷ values) h e =
      ap₂ ◌∷◌
        (scatter_other (set_cell cells layer loc v) layer locs values layer loc h.0
          ∙ set_cell_self cells layer loc v)
        (gather-scatter (set_cell cells layer loc v) layer locs values h.1 (omega (arith, e)))

module _ {Row Cell : Type 0} (keep_row : Bool → Row → Cell) (give_row : Bool → Cell → Row) where
  -- What a store's way there and back makes of a row.
  abbrev pub through : PagedKvCache Cell → Row → Row
  through c row = give_row c.int8_kv (keep_row c.int8_kv row)

  abbrev pub Writing : PagedKvCache Cell → ℕ → Request → ℕ → List Row → PagedKvCache Cell → Type 0
  Writing c layer r start rows c' =
      (locs : List (ℕ × ℕ)) × (locations c.block_size r.block_table start (length rows) ≡ ok locs)
      × ((ltb layer c.model_shape.n_layers && within c.num_gpu_blocks locs) ≡ true)
      × (c' ≡ record c { cells = scatter c.cells layer locs (map (keep_row c.int8_kv) rows) })

  write-Writing :
      (c : PagedKvCache Cell) (layer : ℕ) (r : Request) (start : ℕ) (rows : List Row)
      → OnOk (Writing c layer r start rows) (write keep_row give_row c layer r start rows)
  unfolding write physical_locations
  write-Writing c layer r start rows =
      subst
        (λ n.
          OnOk (Writing c layer r start rows)
            (found (locations c.block_size r.block_table start n)))
        (sym (plus_minus start (length rows)))
        (OnOk-bind (λ locs. locations c.block_size r.block_table start (length rows) ≡ ok locs)
          (Writing c layer r start rows) (locations c.block_size r.block_table start (length rows))
          stored (OnOk-self (locations c.block_size r.block_table start (length rows))) each)
    where
      stored : List (ℕ × ℕ) → Result (PagedKvCache Cell)
      stored locs = do
        guard (ltb layer c.model_shape.n_layers && within c.num_gpu_blocks locs) index_error
        ok (record c { cells = scatter c.cells layer locs (map (keep_row c.int8_kv) rows) })

      found : Result (List (ℕ × ℕ)) → Result (PagedKvCache Cell)
      found locs = locs >>= stored

      plus_minus : (s n : ℕ) → s + n - s ≡ n
      plus_minus s n = omega arith

      each :
          (locs : List (ℕ × ℕ))
          → locations c.block_size r.block_table start (length rows) ≡ ok locs
          → OnOk (Writing c layer r start rows) (stored locs)
      each locs e =
          elim (Bool-cases (ltb layer c.model_shape.n_layers && within c.num_gpu_blocks locs)) [
            | inl t ↦ rw t (locs, e, t, refl)
            | inr t ↦ rw t tt
          ]

  pub write-written :
      (c : PagedKvCache Cell) (layer : ℕ) (r : Request) (start : ℕ) (rows : List Row)
      {c' : PagedKvCache Cell}
      → write keep_row give_row c layer r start rows ≡ ok c'
      → Writing c layer r start rows c'
  write-written c layer r start rows h =
      OnOk-use (Writing c layer r start rows) (write keep_row give_row c layer r start rows)
        (write-Writing c layer r start rows) h

  -- What a successful `read` is.
  abbrev pub Held : PagedKvCache Cell → ℕ → Request → ℕ → List Row → Type 0
  Held c layer r seq_len rows =
      (locs : List (ℕ × ℕ)) × (locations c.block_size r.block_table 0 seq_len ≡ ok locs)
      × ((ltb layer c.model_shape.n_layers && within c.num_gpu_blocks locs) ≡ true)
      × (rows ≡ map (give_row c.int8_kv) (gather c.cells layer locs))

  reading_lem :
      (c : PagedKvCache Cell) (layer : ℕ) (r : Request) (seq_len : ℕ)
      → OnOk (Held c layer r seq_len) (read keep_row give_row c layer r seq_len)
  unfolding read physical_locations
  reading_lem c layer r seq_len =
      rw (sub-zero seq_len) (elim (Result-cases (locations c.block_size r.block_table 0 seq_len)) [
        | inl (f, q) ↦ rw q tt
        | inr (locs, q) ↦
            elim (Bool-cases (ltb layer c.model_shape.n_layers && within c.num_gpu_blocks locs)) [
              | inl t ↦ rw (q, t) (locs, q, t, refl)
              | inr t ↦ rw (q, t) tt
            ]
      ])

  pub read-Held :
      (c : PagedKvCache Cell) (layer : ℕ) (r : Request) (seq_len : ℕ) {rows : List Row}
      → read keep_row give_row c layer r seq_len ≡ ok rows
      → Held c layer r seq_len rows
  read-Held c layer r seq_len h =
      OnOk-use (Held c layer r seq_len) (read keep_row give_row c layer r seq_len)
        (reading_lem c layer r seq_len) h

  pub read_ok :
      (c : PagedKvCache Cell) (layer : ℕ) (r : Request) (seq_len : ℕ) (locs : List (ℕ × ℕ))
      → locations c.block_size r.block_table 0 seq_len ≡ ok locs
      → (ltb layer c.model_shape.n_layers && within c.num_gpu_blocks locs) ≡ true
      → read keep_row give_row c layer r seq_len
        ≡ ok (map (give_row c.int8_kv) (gather c.cells layer locs))
  unfolding read physical_locations
  read_ok c layer r seq_len locs e t = rw (sub-zero seq_len, e, t) refl

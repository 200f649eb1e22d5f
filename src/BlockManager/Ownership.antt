-- ===== src/BlockManager/Ownership.antt =====
-- Who owns each block, where prefix caching is off: the stack of free blocks, or one request's table.
use mathlib.Core.List.{reverse-cons}
use native.Mathlib.Nat.{sub-zero}
use lightserve.Prelude.{
  ℕ, zero, suc, ◌+◌, ◌≡◌, refl, ap, ◌∙◌, Option, some, none, List, [], ◌∷◌, ◌++◌, reverse, arith,
  count, count-append, count-count_down_lt, count-count_down_ge, ltb, Bool, false, take, drop,
  take-append-drop, OnOk, OnOk-mono, OnOk-use, Option-cases, Bool-cases, Result-cases, List-cases,
  inl, inr, leb, if◌then◌else◌,
}
use lightserve.Prelude.Dict.{Dict, lookup, insert, erase, lookup-insert}
use lightserve.Request.{Request, num_blocks_needed}
use lightserve.BlockManager.{
  BlockManager, num_free_blocks, free, release_cached, append_slot, push_block, grow,
  ensure_capacity, allocate, drain_evictions, acquire_match, take_blocks, resolve_match,
  needs_new_block, match_prefix, new_manager,
}

-- How often block `b` stands in the tables.
unfoldable pub count_tables : ℕ → Dict (List ℕ) → ℕ
count_tables b [] = 0
count_tables b ((j, table) ∷ d) = count b table + count_tables b d

-- How often block `b` is owned.
unfoldable pub owners : ℕ → BlockManager → ℕ
owners b m = count b m.free_block_ids + count_tables b m.block_tables

count_tables-insert_new :
    (b k : ℕ) (table : List ℕ) (d : Dict (List ℕ))
    → lookup k d ≡ none
    → count_tables b (insert k table d) ≡ count_tables b d + count b table
unfolding count_tables lookup insert
count_tables-insert_new b k table [] h = omega arith
count_tables-insert_new b k table ((j, w) ∷ d) h =
    ground (arith, count_tables-insert_new b k table d)

count_tables-insert :
    (b k : ℕ) (table old : List ℕ) (d : Dict (List ℕ))
    → lookup k d ≡ some old
    → count_tables b (insert k table d) + count b old ≡ count_tables b d + count b table
unfolding count_tables lookup insert
count_tables-insert b k table old [] h = cc
count_tables-insert b k table old ((j, w) ∷ d) h =
    ground (arith, count_tables-insert b k table old d)

count_tables-erase :
    (b k : ℕ) (old : List ℕ) (d : Dict (List ℕ))
    → lookup k d ≡ some old
    → count_tables b (erase k d) + count b old ≡ count_tables b d
unfolding count_tables lookup erase
count_tables-erase b k old [] h = cc
count_tables-erase b k old ((j, w) ∷ d) h = ground (arith, count_tables-erase b k old d)

count-take-add-drop :
    (b n : ℕ) (xs : List ℕ) → count b (take n xs) + count b (drop n xs) ≡ count b xs
count-take-add-drop b n xs =
    omega (arith, count-append b (take n xs) (drop n xs), ap (count b) (take-append-drop n xs))

count-reverse : (b : ℕ) (xs : List ℕ) → count b (reverse xs) ≡ count b xs
unfolding count
count-reverse b [] = refl
count-reverse b (x ∷ xs) = omega (
  arith,
  ap (count b) (reverse-cons x xs),
  count-append b (reverse xs) (x ∷ []),
  count-reverse b xs,
)

-- What an operation keeps: caching is still off, and each block has as many owners as before.
abbrev pub Conserves : BlockManager → BlockManager → Type 0
Conserves m m' = (m'.prefix_cache ≡ none) × ((b : ℕ) → owners b m' ≡ owners b m)

pub free-Conserves :
    (m : BlockManager) (r : Request)
    → m.prefix_cache ≡ none
    → OnOk (λ p. Conserves m p.0) (free m r)
unfolding free release_cached owners
free-Conserves m r off = elim (Option-cases (lookup r.request_id m.block_tables)) [
  | inl e ↦ rw (e, free) (off, λ b. refl)
  | inr (table, e) ↦
      rw (e, free)
        (rw off (
          off,
          λ b. omega (
            arith,
            count-append b (reverse table) m.free_block_ids,
            count-reverse b table,
            count_tables-erase b r.request_id table m.block_tables e,
          ),
        ))
]

push_block-Conserves :
    (m : BlockManager) (r : Request) (table : List ℕ)
    → m.prefix_cache ≡ none
    → lookup r.request_id m.block_tables ≡ some table
    → OnOk (λ p. Conserves m p.0) (push_block m r table)
unfolding push_block owners count
push_block-Conserves m r table off e = elim (List-cases m.free_block_ids) [
  | inl f ↦ rw f tt
  | inr (x, rest, f) ↦ rw f (
    off,
    λ b. omega (
      arith,
      count-append b table (x ∷ []),
      count_tables-insert b r.request_id (table ++ x ∷ []) table m.block_tables e,
    ),
  )
]

pub Conserves-trans : (m n p : BlockManager) → Conserves m n → Conserves n p → Conserves m p
Conserves-trans m n p h k = (k.0, λ b. k.1 b ∙ h.1 b)

pub append_slot-Conserves :
    (m : BlockManager) (r : Request)
    → m.prefix_cache ≡ none
    → OnOk (λ p. Conserves m p.0) (append_slot m r)
unfolding append_slot
append_slot-Conserves m r off = elim (Option-cases (lookup r.request_id m.block_tables)) [
  | inl e ↦ rw e tt
  | inr (table, e) ↦ rw e (elim (Bool-cases (needs_new_block m r)) [
    | inl f ↦ rw f (push_block-Conserves m r table off e)
    | inr f ↦ rw f (off, λ b. refl)
  ])
]

-- The table that a push writes is the one that the manager then has for the request.
push_block_table :
    (m : BlockManager) (r : Request) (table : List ℕ)
    → OnOk
        (λ p. lookup p.1.request_id p.0.block_tables ≡ some p.1.block_table)
        (push_block m r table)
unfolding push_block
push_block_table m r table = elim (List-cases m.free_block_ids) [
  | inl f ↦ rw f tt
  | inr (x, rest, f) ↦
      rw f
        (ground (arith, lookup-insert r.request_id r.request_id (table ++ x ∷ []) m.block_tables))
]

grow-Conserves :
    (n : ℕ) (m : BlockManager) (r : Request) (table : List ℕ)
    → m.prefix_cache ≡ none
    → lookup r.request_id m.block_tables ≡ some table
    → OnOk (λ p. Conserves m p.0) (grow n m r table)
unfolding grow
grow-Conserves zero m r table off e = (off, λ b. refl)
grow-Conserves (suc n) m r table off e = elim (Result-cases (push_block m r table)) [
  | inl (f, q) ↦ rw (q, grow) tt
  | inr (p, q) ↦
      let c = OnOk-use (λ p. Conserves m p.0) _ (push_block-Conserves m r table off e) q in
      rw (q, grow)
        (OnOk-mono _ _ (grow n p.0 p.1 p.1.block_table) (λ u. Conserves-trans m p.0 u.0 c)
          (grow-Conserves n p.0 p.1 p.1.block_table c.0
            (OnOk-use _ (push_block m r table) (push_block_table m r table) q)))
]

pub ensure_capacity-Conserves :
    (m : BlockManager) (r : Request) (target_len : ℕ)
    → m.prefix_cache ≡ none
    → OnOk (λ p. Conserves m p.0) (ensure_capacity m r target_len)
unfolding ensure_capacity
ensure_capacity-Conserves m r target_len off =
    elim (Option-cases (lookup r.request_id m.block_tables)) [
      | inl e ↦ rw e tt
      | inr (table, e) ↦ rw e (grow-Conserves _ m r table off e)
    ]

take_blocks-Conserves :
    (m : BlockManager) (r : Request) (n : ℕ)
    → m.prefix_cache ≡ none
    → lookup r.request_id m.block_tables ≡ none
    → OnOk (λ p. Conserves m p.0) (take_blocks m r [] n)
unfolding take_blocks owners
take_blocks-Conserves m r n off e = elim (Bool-cases (leb n (num_free_blocks m))) [
  | inl f ↦ rw f (
    off,
    λ b. omega (
      arith,
      count-take-add-drop b n m.free_block_ids,
      count_tables-insert_new b r.request_id (take n m.free_block_ids) m.block_tables e,
    ),
  )
  | inr f ↦ rw f tt
]

-- Without a trie, `allocate` only pops.
pub allocate_uncached :
    (m : BlockManager) (r : Request)
    → m.prefix_cache ≡ none
    → lookup r.request_id m.block_tables ≡ none
    → allocate m r none ≡ take_blocks m r [] (num_blocks_needed r m.block_size)
unfolding allocate resolve_match acquire_match match_prefix drain_evictions
allocate_uncached m r off e = simp (off, e, sub-zero)

pub allocate-Conserves :
    (m : BlockManager) (r : Request)
    → m.prefix_cache ≡ none
    → OnOk (λ p. Conserves m p.0) (allocate m r none)
unfolding allocate
allocate-Conserves m r off = elim (Option-cases (lookup r.request_id m.block_tables)) [
  | inl e ↦
      rw (allocate_uncached m r off e)
        (take_blocks-Conserves m r (num_blocks_needed r m.block_size) off e)
  | inr (table, e) ↦ rw e tt
]

pub match_prefix_off :
    (m : BlockManager) (tokens : List ℕ) → m.prefix_cache ≡ none → match_prefix m tokens ≡ none
unfolding match_prefix
match_prefix_off m tokens off = simp off

-- A new pool: each of its blocks has one owner, and no other block has any.
pub owners-new_manager :
    (hash_fn : Option ℕ → List ℕ → ℕ) (block_size num_blocks watermark b : ℕ) (enable : Bool)
    → owners b (new_manager hash_fn block_size num_blocks watermark enable)
      ≡ (if ltb b num_blocks then 1 else 0)
unfolding owners new_manager count_tables
owners-new_manager hash_fn block_size num_blocks watermark b enable =
    ground (arith, count-count_down_lt num_blocks b, count-count_down_ge num_blocks b)

pub new_manager_off :
    (hash_fn : Option ℕ → List ℕ → ℕ) (block_size num_blocks watermark : ℕ) (enable : Bool)
    → enable ≡ false
    → (new_manager hash_fn block_size num_blocks watermark enable).prefix_cache ≡ none
unfolding new_manager
new_manager_off hash_fn block_size num_blocks watermark enable off = simp off

-- ===== src/BlockManager/Capacity.antt =====
-- The guards of the allocator are enough for what they guard, and its tables hold the tokens.
use lightserve.Prelude.{
  ℕ, zero, suc, ◌+◌, ◌*◌, ◌-◌, ◌≤◌, ◌<◌, ◌≡◌, refl, ap, sym, subst, ◌∙◌, true, false, some, List,
  [], ◌∷◌, ◌++◌, arith, length, length-append, Bool-cases, List-cases, inl, inr, Result, ok,
  leb_sound, ltb_ge,
}
use lightserve.Prelude.Dict.{lookup, insert, lookup-insert}
use lightserve.Request.{Request, get_len}
use lightserve.Request.Blocks.{ceil_div_bounds}
use lightserve.BlockManager.{
  BlockManager, num_free_blocks, get_block_table, push_block, append_slot, can_append_slot,
  needs_new_block, ensure_capacity, can_ensure_capacity, grow, ceil_div,
}

-- A request's table, under both of its names.
pub record Holds (m : BlockManager) (r : Request) (table : List ℕ) : Type 0 where
  pub listed : lookup r.request_id m.block_tables ≡ some table
  pub carried : r.block_table ≡ table

get_block_table_lem :
    (m : BlockManager) (r : Request) (table : List ℕ)
    → Holds m r table
    → get_block_table m r ≡ table
unfolding get_block_table
get_block_table_lem m r table h = rw (h.listed) refl

-- What a call that grows a table ends with: it succeeds, and the table has at least `n` blocks.
abbrev pub Grows : ℕ → Result (BlockManager × Request) → Type 0
Grows n res =
    (p : BlockManager × Request) × (res ≡ ok p)
    × (n ≤ length (p.1).block_table)
    × Holds p.0 p.1 (p.1).block_table

pub push_block-ok :
    (m : BlockManager) (r : Request) (table rest : List ℕ) (b : ℕ)
    → m.free_block_ids ≡ b ∷ rest
    → (p : BlockManager × Request) × (push_block m r table ≡ ok p)
      × ((p.1).block_table ≡ table ++ b ∷ [])
      × (num_free_blocks p.0 ≡ length rest)
      × Holds p.0 p.1 (table ++ b ∷ [])
unfolding push_block
push_block-ok m r table rest b e =
    let m' : BlockManager = record m {
      free_block_ids = rest;
      block_tables = insert r.request_id (table ++ b ∷ []) m.block_tables;
    } in
    let r' : Request = record r { block_table = table ++ b ∷ [] } in
    ((m', r'), rw e refl, refl, refl, record { listed = listed; carried = refl })
  where
    listed :
        lookup r.request_id (insert r.request_id (table ++ b ∷ []) m.block_tables)
        ≡ some (table ++ b ∷ [])
    listed =
        ground (arith, lookup-insert r.request_id r.request_id (table ++ b ∷ []) m.block_tables)

grow-Grows :
    (missing : ℕ) (m : BlockManager) (r : Request) (table : List ℕ)
    → Holds m r table
    → missing ≤ num_free_blocks m
    → Grows (length table + missing) (grow missing m r table)
unfolding grow
grow-Grows zero m r table h k = (
  (m, r),
  refl,
  omega (arith, ap length (h.carried)),
  record { listed = h.listed ∙ ap some (sym (h.carried)); carried = refl },
)
grow-Grows (suc missing) m r table h k = elim (List-cases m.free_block_ids) [
  | inl e ↦ absurd (omega (arith, k, ap length e))
  | inr (b, rest, e) ↦
      let (p, q, t, n, h') = push_block-ok m r table rest b e in
      let (p', q', l, h'') =
        grow-Grows missing p.0 p.1 (table ++ b ∷ []) h' (omega (arith, k, n, ap length e)) in
      (p', rw (q, grow) (rw t q'), omega (arith, l, length-append table (b ∷ [])), h'')
]

ceil_div-ge : (n d k : ℕ) → 0 < d → ceil_div n d ≤ k → n ≤ k * d
unfolding ceil_div
ceil_div-ge n d k h l = grind (arith, ceil_div_bounds n d h)

ensure_capacity-Grows :
    (m : BlockManager) (r : Request) (target_len : ℕ) (table : List ℕ)
    → Holds m r table
    → can_ensure_capacity m r target_len ≡ true
    → Grows (ceil_div target_len m.block_size) (ensure_capacity m r target_len)
unfolding ensure_capacity can_ensure_capacity
ensure_capacity-Grows m r target_len table h can =
    let needed = ceil_div target_len m.block_size in
    let enough : needed ≤ num_free_blocks m + length table =
      omega (arith, leb_sound _ _ can, ap length (get_block_table_lem m r table h)) in
    let (p, q, l, h') = grow-Grows (needed - length table) m r table h (omega (arith, enough)) in
    (p, rw (h.listed) q, omega (arith, l), h')

-- `can_ensure_capacity` is enough: where it answers yes for a request that has a table (and the block
-- size is positive), `ensure_capacity` succeeds, the request and the manager agree on the new table,
-- and the table's slots hold `target_len` tokens.
pub ensure_capacity_covers :
    (m : BlockManager) (r : Request) (target_len : ℕ) (table : List ℕ)
    → 0 < m.block_size
    → Holds m r table
    → can_ensure_capacity m r target_len ≡ true
    → (p : BlockManager × Request) × (ensure_capacity m r target_len ≡ ok p)
      × (target_len ≤ length (p.1).block_table * m.block_size)
      × Holds p.0 p.1 (p.1).block_table
ensure_capacity_covers m r target_len table pos h can =
    let (p, q, l, h') = ensure_capacity-Grows m r target_len table h can in
    (p, q, ceil_div-ge target_len m.block_size (length (p.1).block_table) pos l, h')

popped :
    (m : BlockManager) (r : Request)
    → needs_new_block m r ≡ true
    → can_append_slot m r ≡ true
    → (b : ℕ) × (rest : List ℕ) × (m.free_block_ids ≡ b ∷ rest)
unfolding can_append_slot
popped m r e can = elim (List-cases m.free_block_ids) [
  | inl q ↦ absurd (omega (arith, leb_sound _ _ (rw e at can), ap length q))
  | inr q ↦ q
]

appends :
    (m : BlockManager) (r : Request) (table : List ℕ)
    → Holds m r table
    → needs_new_block m r ≡ true
    → append_slot m r ≡ push_block m r table
unfolding append_slot
appends m r table h e = rw (h.listed, e) refl

keeps :
    (m : BlockManager) (r : Request) (table : List ℕ)
    → Holds m r table
    → needs_new_block m r ≡ false
    → append_slot m r ≡ ok (m, r)
unfolding append_slot
keeps m r table h e = rw (h.listed, e) refl

enough_slots :
    (m : BlockManager) (r : Request) (table : List ℕ)
    → Holds m r table
    → needs_new_block m r ≡ false
    → get_len r ≤ length table * m.block_size
unfolding needs_new_block
enough_slots m r table h e = ltb_ge _ _ (rw (get_block_table_lem m r table h) at e)

-- `can_append_slot` is enough: for a request whose table is at most one block too short for its
-- tokens, where it answers yes, `append_slot` succeeds, the request and the manager agree on the new
-- table, and the table's slots hold all of the request's tokens.
pub append_slot_covers :
    (m : BlockManager) (r : Request) (table : List ℕ)
    → get_len r ≤ (length table + 1) * m.block_size
    → Holds m r table
    → can_append_slot m r ≡ true
    → (p : BlockManager × Request) × (append_slot m r ≡ ok p)
      × (get_len r ≤ length (p.1).block_table * m.block_size)
      × Holds p.0 p.1 (p.1).block_table
append_slot_covers m r table fits h can = elim (Bool-cases (needs_new_block m r)) [
  | inl e ↦
      let (b, rest, q) = popped m r e can in
      let (p, push, t, n, h') = push_block-ok m r table rest b q in
      (
        p,
        rw⁻¹ push (appends m r table h e),
        subst (λ l. get_len r ≤ length l * m.block_size) (sym t) (pushed b),
        subst (Holds p.0 p.1) (sym t) h',
      )
  | inr e ↦ (
    (m, r),
    keeps m r table h e,
    subst (λ l. get_len r ≤ length l * m.block_size) (sym (h.carried)) (enough_slots m r table h e),
    record { listed = h.listed ∙ ap some (sym (h.carried)); carried = refl },
  )
]
  where
    pushed : (b : ℕ) → get_len r ≤ length (table ++ b ∷ []) * m.block_size
    pushed b = subst (λ n. get_len r ≤ n * m.block_size) (sym (length-append table (b ∷ []))) fits

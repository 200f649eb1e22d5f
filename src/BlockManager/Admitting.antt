-- ===== src/BlockManager/Admitting.antt =====
-- What `allocate` gives a request, and when it cannot fail.
use lightserve.Prelude.{
  ℕ, ◌+◌, ◌*◌, ◌-◌, ◌≤◌, ◌<◌, ◌≡◌, refl, ◌∙◌, true, Option, none, some, List, [], ◌++◌, arith,
  length, length-append, length-take, take, Bool-cases, inl, inr, ok, leb, leb_sound, leb_complete,
  OnOk, OnOk-bind, OnOk-any, OnOk-use, OnOk-mono,
}
use lightserve.Prelude.Dict.{lookup, insert, lookup-insert, contains}
use lightserve.PrefixCache.{PrefixMatch}
use lightserve.Request.{Request, get_len, num_blocks_needed}
use lightserve.Request.Blocks.{num_blocks_needed_bounds}
use lightserve.BlockManager.Ownership.{allocate_uncached}
use lightserve.BlockManager.Capacity.{Holds}
use lightserve.BlockManager.{
  BlockManager, num_free_blocks, matched_ids, can_allocate, allocate, resolve_match, acquire_match,
  drain_evictions, take_blocks,
}

-- The manager and the request agree on a table of at least `n` blocks.
abbrev Covers : ℕ → BlockManager × Request → Type 0
Covers n p = (n ≤ length (p.1).block_table) × Holds p.0 p.1 (p.1).block_table

take_blocks-Covers :
    (m : BlockManager) (r : Request) (matched : List ℕ) (fresh : ℕ)
    → OnOk (Covers (length matched + fresh)) (take_blocks m r matched fresh)
unfolding take_blocks
take_blocks-Covers m r matched fresh = elim (Bool-cases (leb fresh (num_free_blocks m))) [
  | inr e ↦ rw e tt
  | inl e ↦ rw e (long (leb_sound _ _ e), record { listed = listed; carried = refl })
]
  where
    table : List ℕ
    table = matched ++ take fresh m.free_block_ids

    long : fresh ≤ length m.free_block_ids → length matched + fresh ≤ length table
    long h = omega (
      arith,
      h,
      length-append matched (take fresh m.free_block_ids),
      length-take fresh m.free_block_ids,
    )

    listed : lookup r.request_id (insert r.request_id table m.block_tables) ≡ some table
    listed = ground (arith, lookup-insert r.request_id r.request_id table m.block_tables)

allocate-Covers :
    (m : BlockManager) (r : Request) (given : Option PrefixMatch)
    → OnOk (Covers (num_blocks_needed r m.block_size)) (allocate m r given)
unfolding allocate
allocate-Covers m r given =
    let matched = matched_ids (resolve_match m r given) in
    let fresh = num_blocks_needed r m.block_size - length matched in
    let p = acquire_match m r (resolve_match m r given) in
    elim (Bool-cases (contains r.request_id m.block_tables)) [
      | inl e ↦ rw e tt
      | inr e ↦ rw e (
          OnOk-bind (λ _. Unit) _ (drain_evictions p.0 fresh) _
            (OnOk-any (drain_evictions p.0 fresh))
            (λ drained _.
              OnOk-mono _ _ (take_blocks drained p.1 matched fresh)
                (λ q k. (omega (arith, k.0), k.1)) (take_blocks-Covers drained p.1 matched fresh)))
    ]

-- What `allocate` gives is enough, with and without prefix caching and whatever match it is given:
-- with a positive block size, the request and the manager agree on a table whose slots hold all of
-- the request's tokens.
pub allocate_covers :
    (m : BlockManager) (r : Request) (given : Option PrefixMatch) (p : BlockManager × Request)
    → 0 < m.block_size
    → allocate m r given ≡ ok p
    → (get_len r ≤ length (p.1).block_table * m.block_size) × Holds p.0 p.1 (p.1).block_table
allocate_covers m r given p pos e =
    let (l, h) = OnOk-use _ (allocate m r given) (allocate-Covers m r given) e in
    (grind (arith, l, (num_blocks_needed_bounds r m.block_size pos).0), h)

take_blocks-ok :
    (m : BlockManager) (r : Request) (matched : List ℕ) (fresh : ℕ)
    → fresh ≤ num_free_blocks m
    → (p : BlockManager × Request) × (take_blocks m r matched fresh ≡ ok p)
unfolding take_blocks
take_blocks-ok m r matched fresh h = rw (leb_complete _ _ h) (_, refl)

can_allocate_free :
    (m : BlockManager) (r : Request)
    → m.prefix_cache ≡ none
    → can_allocate m r none ≡ true
    → num_blocks_needed r m.block_size ≤ num_free_blocks m
unfolding can_allocate
can_allocate_free m r off can = omega (arith, leb_sound _ _ (rw off at can))

-- Without prefix caching `can_allocate` is enough: where it answers yes for a request that has no
-- table yet, `allocate` succeeds.
pub allocate_total :
    (m : BlockManager) (r : Request)
    → m.prefix_cache ≡ none
    → lookup r.request_id m.block_tables ≡ none
    → can_allocate m r none ≡ true
    → (p : BlockManager × Request) × (allocate m r none ≡ ok p)
allocate_total m r off new can =
    let (p, e) =
      take_blocks-ok m r [] (num_blocks_needed r m.block_size) (can_allocate_free m r off can) in
    (p, allocate_uncached m r off new ∙ e)

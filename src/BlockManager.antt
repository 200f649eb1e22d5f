-- ===== src/BlockManager.antt =====
-- engine/block_manager.py: the allocator of KV-cache blocks. The stack of free ids has its top at the
-- list's head, so `list.pop()` takes the head. `request.block_table` and the dict's entry are one list
-- object in the source: an operation that appends to it writes both.
pub mod Frame
pub mod Ownership
pub mod Capacity
pub mod Admitting
use lightserve.Prelude.{
  ℕ, zero, suc, ◌+◌, ◌-◌, ◌*◌, ◌/◌, Bool, true, false, not, Option, none, some, List, [], ◌∷◌, ◌++◌,
  map, reverse, ltb, leb, if◌then◌else◌, length, take, drop, keep, elem, nonempty, min, count_down,
  is_some, or_else, Result, ok, err, value_error, out_of_memory, or_raise, guard, ◌>>=◌, ◌>>◌,
}
use lightserve.Prelude.Dict.{Dict, lookup, insert, erase, contains}
use lightserve.Request.{Request, get_len, num_blocks_needed}
use lightserve.PrefixCache.{
  RadixTrie, PrefixMatch, new_trie, match, acquire, release, insert_blocks, evict_one_lru,
  num_evictable_blocks,
}
use mathlib.Core.Option

-- `BlockManager`
pub record BlockManager : Type 0 where
  pub block_size : ℕ
  pub num_gpu_blocks : ℕ
  pub watermark_blocks : ℕ
  pub free_block_ids : List ℕ
  pub block_tables : Dict (List ℕ)
  pub prefix_cache : Option RadixTrie

-- The constructor, with `__post_init__`; the trie's hash function is Python's `hash`, a parameter.
unfoldable pub new_manager : (Option ℕ → List ℕ → ℕ) → ℕ → ℕ → ℕ → Bool → BlockManager
unfolding new_trie
new_manager hash_fn block_size num_gpu_blocks watermark_blocks enable = record {
  block_size = block_size;
  num_gpu_blocks = num_gpu_blocks;
  watermark_blocks = watermark_blocks;
  free_block_ids = count_down num_gpu_blocks;
  block_tables = [];
  prefix_cache = if enable then some (new_trie block_size hash_fn) else none;
}

abbrev pub num_free_blocks : BlockManager → ℕ
num_free_blocks m = length m.free_block_ids

unfoldable pub get_block_table : BlockManager → Request → List ℕ
get_block_table m r = or_else (lookup r.request_id m.block_tables) []

unfoldable pub match_prefix : BlockManager → List ℕ → Option PrefixMatch
match_prefix m tokens = Option.map (λ t. match t tokens) m.prefix_cache

abbrev pub matched_ids : Option PrefixMatch → List ℕ
matched_ids none = []
matched_ids (some found) = found.physical_block_ids

abbrev pub num_evictable : Option RadixTrie → ℕ
num_evictable none = 0
num_evictable (some t) = num_evictable_blocks t

-- `(free + evictable) - needed_fresh >= watermark`, with the difference moved over.
unfoldable pub can_allocate : BlockManager → Request → Option PrefixMatch → Bool
can_allocate m r found =
    let needed_fresh = num_blocks_needed r m.block_size - length (matched_ids found) in
    leb (m.watermark_blocks + needed_fresh) (num_free_blocks m + num_evictable m.prefix_cache)

-- The loop of `_drain_evictions`. Each round frees a block or stops, so `num_needed` rounds are
-- enough.
unfoldable pub drain_loop : ℕ → RadixTrie → List ℕ → ℕ → Result (RadixTrie × List ℕ)
drain_loop zero t free num_needed = ok (t, free)
drain_loop (suc fuel) t free num_needed = elim (ltb (length free) num_needed) [
  | false ↦ ok (t, free)
  | true ↦ elim (evict_one_lru t) [
    | err e ↦ err e
    | ok r ↦ elim r.0 [
      | none ↦ ok (r.1, free)
      | some freed_id ↦ drain_loop fuel r.1 (freed_id ∷ free) num_needed
    ]
  ]
]

-- `_drain_evictions`
unfoldable pub drain_evictions : BlockManager → ℕ → Result BlockManager
drain_evictions m num_needed = elim m.prefix_cache [
  | none ↦ ok m
  | some t ↦ do
    (t', free) ← drain_loop num_needed t m.free_block_ids num_needed
    ok (record m { prefix_cache = some t'; free_block_ids = free })
]

-- The match that `allocate` uses: the given one, or its own lookup where caching is on.
unfoldable pub resolve_match : BlockManager → Request → Option PrefixMatch → Option PrefixMatch
resolve_match m r found = if is_some found then found else match_prefix m r.prompt_token_ids

-- The holds that `allocate` takes before it drains: `acquire`, and the nodes kept on the request.
unfoldable pub acquire_match : BlockManager → Request → Option PrefixMatch → BlockManager × Request
acquire_match m r none = (m, r)
acquire_match m r (some found) = elim m.prefix_cache [
  | none ↦ (m, r)
  | some t ↦ (
    record m { prefix_cache = some (acquire t found (length r.prompt_token_ids)) },
    record r { cached_prefix_nodes = found.nodes },
  )
]

-- The pops and the table that `allocate` ends with.
unfoldable pub take_blocks : BlockManager → Request → List ℕ → ℕ → Result (BlockManager × Request)
take_blocks m r matched needed_fresh = do
  guard (leb needed_fresh (num_free_blocks m)) out_of_memory
  let table = matched ++ take needed_fresh m.free_block_ids
  ok (
    record m {
      free_block_ids = drop needed_fresh m.free_block_ids;
      block_tables = insert r.request_id table m.block_tables;
    },
    record r { block_table = table },
  )

-- `range` and the comparison read a negative `needed_fresh` as 0, as the difference here does.
unfoldable pub allocate :
    BlockManager → Request → Option PrefixMatch → Result (BlockManager × Request)
allocate m r given = do
  guard (not (contains r.request_id m.block_tables)) value_error
  let found = resolve_match m r given
  let matched = matched_ids found
  let needed_fresh = num_blocks_needed r m.block_size - length matched
  let (m', r') = acquire_match m r found
  drained ← drain_evictions m' needed_fresh
  take_blocks drained r' matched needed_fresh

unfoldable pub insert_computed_prefix : BlockManager → Request → Result (BlockManager × Request)
insert_computed_prefix m r = elim m.prefix_cache [
  | none ↦ ok (m, r)
  | some t ↦
      let num_computed = min r.num_computed_tokens (length r.prompt_token_ids) in
      let inserted : Result (BlockManager × Request) = do
        (t', nodes) ←
            insert_blocks t r.prompt_token_ids r.block_table num_computed r.cached_prefix_nodes
        ok (record m { prefix_cache = some t' }, record r { cached_prefix_nodes = nodes })
      in if ltb num_computed m.block_size then ok (m, r) else inserted
]

-- `_needs_new_block`
unfoldable pub needs_new_block : BlockManager → Request → Bool
unfolding get_block_table get_len
needs_new_block m r = ltb (length (get_block_table m r) * m.block_size) (get_len r)

unfoldable pub can_append_slot : BlockManager → Request → Bool
unfolding needs_new_block
can_append_slot m r = if needs_new_block m r then leb 1 (num_free_blocks m) else true

-- `table.append(self._free_block_ids.pop())`, through both names of the table.
unfoldable pub push_block : BlockManager → Request → List ℕ → Result (BlockManager × Request)
push_block m r table = elim m.free_block_ids [
  | [] ↦ err out_of_memory
  | b ∷ free ↦
      let table' = table ++ b ∷ [] in
      ok (
        record m {
          free_block_ids = free;
          block_tables = insert r.request_id table' m.block_tables;
        },
        record r { block_table = table' },
      )
]

unfoldable pub append_slot : BlockManager → Request → Result (BlockManager × Request)
append_slot m r = do
  table ← or_raise (lookup r.request_id m.block_tables) value_error
  if needs_new_block m r then push_block m r table else ok (m, r)

-- `-(-target_len // self.block_size)`
unfoldable pub ceil_div : ℕ → ℕ → ℕ
ceil_div n d = (n + d - 1) / d

unfoldable pub can_ensure_capacity : BlockManager → Request → ℕ → Bool
unfolding get_block_table ceil_div
can_ensure_capacity m r target_len =
    leb (ceil_div target_len m.block_size) (num_free_blocks m + length (get_block_table m r))

-- The loop of `ensure_capacity`, on the number of blocks that are still missing.
unfoldable pub grow : ℕ → BlockManager → Request → List ℕ → Result (BlockManager × Request)
grow zero m r table = ok (m, r)
grow (suc missing) m r table = elim (push_block m r table) [
  | err e ↦ err e
  | ok p ↦ grow missing p.0 p.1 p.1.block_table
]

unfoldable pub ensure_capacity : BlockManager → Request → ℕ → Result (BlockManager × Request)
unfolding ceil_div
ensure_capacity m r target_len = do
  table ← or_raise (lookup r.request_id m.block_tables) value_error
  grow (ceil_div target_len m.block_size - length table) m r table

-- The trie's part of `free`: the holds are released, and the blocks that the trie owns are kept out of
-- the list that goes back to the pool.
unfoldable pub release_cached :
    BlockManager → Request → List ℕ → Result (BlockManager × Request × List ℕ)
release_cached m r table = elim m.prefix_cache [
  | none ↦ ok (m, r, table)
  | some t ↦
      let cache_owned = map (λ a. (t.heap a).physical_block_id) r.cached_prefix_nodes in
      let private = keep (λ b. not (elem b cache_owned)) table in
      let released : Result (BlockManager × Request × List ℕ) = do
        t' ← release t r.cached_prefix_nodes
        ok (record m { prefix_cache = some t' }, record r { cached_prefix_nodes = [] }, private)
      in if nonempty r.cached_prefix_nodes then released else ok (m, r, table)
]

unfoldable pub free : BlockManager → Request → Result (BlockManager × Request)
free m r = elim (lookup r.request_id m.block_tables) [
  | none ↦ ok (m, r)
  | some table ↦ do
    let m' = record m { block_tables = erase r.request_id m.block_tables }
    (m'', r', private) ← release_cached m' r table
    ok (
      record m'' { free_block_ids = reverse private ++ m''.free_block_ids },
      record r' { block_table = [] },
    )
]

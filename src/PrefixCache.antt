-- ===== src/PrefixCache.antt =====
-- engine/prefix_cache.py: the tree of cached blocks. A node is an object that the tree, its hash index
-- and requests share, so nodes live in a store by address: `heap`, with `next_address` the first
-- address that no object has. Hashes and tokens are only compared, and are natural numbers; the hash
-- function is a field, as in the source. The hit rates, which are floats, are not modelled.
pub mod Labels
pub mod Shrinking
pub mod Insertion
pub mod Rounds
pub mod Recording
pub mod Holding
pub mod Removal
pub mod Eviction
pub mod Sharing
use lightserve.Prelude.{
  ℕ, zero, suc, ◌+◌, ◌-◌, ◌*◌, ◌/◌, Bool, not, ◌&&◌, Option, none, some, List, [], ◌∷◌, ◌++◌, map,
  ltb, leb, ◌==◌, eq_list, if◌then◌else◌, length, take, drop, keep, nonempty, last?, get_elem?,
  update, Result, ok, err, value_error, key_error, index_error, or_raise, ◌>>=◌, guard, ◌>>◌,
}
use mathlib.Core.Option
use lightserve.Prelude.Dict.{Dict, lookup, insert, erase, values, contains}

-- `TrieNode`; `children` maps a child's hash to its address.
pub record TrieNode : Type 0 where
  pub block_hash : ℕ
  pub parent_hash : Option ℕ
  pub token_ids : List ℕ
  pub physical_block_id : ℕ
  pub ref_count : ℕ
  pub children : Dict ℕ
  pub last_used : ℕ

-- `PrefixMatch`
pub record PrefixMatch : Type 0 where
  pub physical_block_ids : List ℕ
  pub num_matched_tokens : ℕ
  pub nodes : List ℕ

-- `PrefixCacheStats`
pub record PrefixCacheStats : Type 0 where
  pub num_lookup_tokens : ℕ
  pub num_hit_tokens : ℕ
  pub num_lookups : ℕ
  pub num_hits : ℕ

-- `RadixTrie`
pub record RadixTrie : Type 0 where
  pub block_size : ℕ
  pub hash_fn : Option ℕ → List ℕ → ℕ
  pub heap : ℕ → TrieNode
  pub next_address : ℕ
  pub roots : Dict ℕ
  pub by_hash : Dict ℕ
  pub clock : ℕ
  pub stats : PrefixCacheStats

abbrev blank : TrieNode
blank = record {
  block_hash = 0;
  parent_hash = none;
  token_ids = [];
  physical_block_id = 0;
  ref_count = 0;
  children = [];
  last_used = 0;
}

-- `RadixTrie.__init__`
unfoldable pub new_trie : ℕ → (Option ℕ → List ℕ → ℕ) → RadixTrie
new_trie block_size hash_fn = record {
  block_size = block_size;
  hash_fn = hash_fn;
  heap = λ a. blank;
  next_address = 0;
  roots = [];
  by_hash = [];
  clock = 0;
  stats = record { num_lookup_tokens = 0; num_hit_tokens = 0; num_lookups = 0; num_hits = 0 };
}

-- `token_ids[i * block_size:(i + 1) * block_size]`
unfoldable pub block_at : ℕ → List ℕ → ℕ → List ℕ
block_at block_size tokens i = take block_size (drop (i * block_size) tokens)

-- The loop of `match`: `n` rounds are left, and round `i` looks into `level`.
unfoldable pub walk : RadixTrie → List ℕ → ℕ → ℕ → Option ℕ → Dict ℕ → List ℕ
walk t tokens zero i parent level = []
walk t tokens (suc n) i parent level =
    let block = block_at t.block_size tokens i in
    let h = t.hash_fn parent block in
    elim (lookup h level) [
      | none ↦ []
      | some a ↦
          let rest = walk t tokens n (i + 1) (some h) (t.heap a).children in
          if eq_list (t.heap a).token_ids block then a ∷ rest else []
    ]

-- `RadixTrie.match`
unfoldable pub match : RadixTrie → List ℕ → PrefixMatch
unfolding walk block_at
match t tokens =
    let nodes = walk t tokens (length tokens / t.block_size) 0 none t.roots in
    record {
      physical_block_ids = map (λ a. (t.heap a).physical_block_id) nodes;
      num_matched_tokens = length nodes * t.block_size;
      nodes = nodes;
    }

-- One hold on a node at time `clock`.
abbrev pub held : ℕ → TrieNode → TrieNode
held clock n = record n { ref_count = n.ref_count + 1; last_used = clock }

-- The loop of `acquire`.
unfoldable pub hold : ℕ → (ℕ → TrieNode) → List ℕ → ℕ → TrieNode
hold clock heap [] = heap
hold clock heap (a ∷ nodes) = hold clock (update heap a (held clock (heap a))) nodes

-- `RadixTrie.acquire`
unfoldable pub acquire : RadixTrie → PrefixMatch → ℕ → RadixTrie
unfolding hold
acquire t m num_lookup_tokens = record t {
  clock = t.clock + 1;
  heap = hold (t.clock + 1) t.heap m.nodes;
  stats = record {
    num_lookup_tokens = t.stats.num_lookup_tokens + num_lookup_tokens;
    num_hit_tokens =
        t.stats.num_hit_tokens + (if nonempty m.nodes then m.num_matched_tokens else 0);
    num_lookups = t.stats.num_lookups + 1;
    num_hits = t.stats.num_hits + (if nonempty m.nodes then 1 else 0);
  };
}

-- The loop of `release`.
unfoldable pub drop_holds : (ℕ → TrieNode) → List ℕ → Result (ℕ → TrieNode)
drop_holds heap [] = ok heap
drop_holds heap (a ∷ nodes) =
    let n = heap a in
    let rest = drop_holds (update heap a (record n { ref_count = n.ref_count - 1 })) nodes in
    if leb n.ref_count 0 then err value_error else rest

-- `RadixTrie.release`
unfoldable pub release : RadixTrie → List ℕ → Result RadixTrie
unfolding drop_holds
release t nodes = do heap ← drop_holds t.heap nodes; ok (record t { heap = heap })

-- The dict that `insert` looks into: `none` stands for `_roots`, an address for that node's children.
unfoldable pub level_of : RadixTrie → Option ℕ → Dict ℕ
level_of t none = t.roots
level_of t (some a) = (t.heap a).children

-- `level[h] = node`
unfoldable pub put_level : RadixTrie → Option ℕ → ℕ → ℕ → RadixTrie
put_level t none h a = record t { roots = insert h a t.roots }
put_level t (some p) h a = record t {
  heap = update t.heap p (record (t.heap p) { children = insert h a (t.heap p).children });
}

-- The `TrieNode` that `insert` makes.
abbrev pub new_node : RadixTrie → ℕ → Option ℕ → List ℕ → ℕ → TrieNode
new_node t h parent block physical = record {
  block_hash = h;
  parent_hash = parent;
  token_ids = block;
  physical_block_id = physical;
  ref_count = 0;
  children = [];
  last_used = t.clock;
}

-- A new `TrieNode` in the store, in its level and in the index.
unfoldable pub create : RadixTrie → Option ℕ → ℕ → Option ℕ → List ℕ → ℕ → RadixTrie
unfolding put_level
create t place h parent block physical =
    let a = t.next_address in
    let t' =
      put_level
        (record t {
          heap = update t.heap a (new_node t h parent block physical);
          next_address = a + 1;
        })
        place h a in
    record t' { by_hash = insert h a t'.by_hash }

-- `node.ref_count += 1; node.last_used = self._clock`
unfoldable pub touch : RadixTrie → ℕ → RadixTrie
touch t a = record t { heap = update t.heap a (held t.clock (t.heap a)) }

-- The loop of `insert`: `n` rounds are left; `place` says what `level` is, and `nodes` what the list
-- holds so far.
unfoldable pub insert_loop :
    RadixTrie → List ℕ → List ℕ → ℕ → ℕ → Option ℕ → Option ℕ → List ℕ → Result (RadixTrie × List ℕ)
unfolding level_of create touch
insert_loop t tokens physical zero i parent place nodes = ok (t, nodes)
insert_loop t tokens physical (suc n) i parent place nodes =
    let block = block_at t.block_size tokens i in
    let h = t.hash_fn parent block in
    elim (lookup h (level_of t place)) [
      | some a ↦
          let rest =
            insert_loop (touch t a) tokens physical n (i + 1) (some h) (some a) (nodes ++ a ∷ []) in
          if eq_list (t.heap a).token_ids block then rest else ok (t, nodes)
      | none ↦ elim (get_elem? physical i) [
        | none ↦ err index_error
        | some b ↦
            let a = t.next_address in
            insert_loop (touch (create t place h parent block b) a) tokens physical n (i + 1)
              (some h) (some a) (nodes ++ a ∷ [])
      ]
    ]

-- `RadixTrie.insert`
unfoldable pub insert_blocks :
    RadixTrie → List ℕ → List ℕ → ℕ → List ℕ → Result (RadixTrie × List ℕ)
unfolding insert_loop
insert_blocks t tokens physical num_computed known_prefix =
    let n_blocks = num_computed / t.block_size in
    let start = length known_prefix in
    let parent = Option.map (λ a. (t.heap a).block_hash) (last? known_prefix) in
    if leb n_blocks start
    then ok (t, take n_blocks known_prefix)
    else insert_loop (record t { clock = t.clock + 1 }) tokens physical (n_blocks - start) start
        parent (last? known_prefix) known_prefix

-- Reclaimable: nobody uses it, and nothing comes after it in the tree.
unfoldable pub evictable : (ℕ → TrieNode) → ℕ → Bool
evictable heap a = (heap a).ref_count == 0 && not (nonempty (heap a).children)

-- `RadixTrie.num_evictable_blocks`
unfoldable pub num_evictable_blocks : RadixTrie → ℕ
unfolding evictable
num_evictable_blocks t = length (keep (evictable t.heap) (values t.by_hash))

-- Python's `min(…, key=…)`: the first of the least.
unfoldable pub least_used : (ℕ → TrieNode) → ℕ → List ℕ → ℕ
least_used heap best [] = best
least_used heap best (a ∷ nodes) =
    least_used heap (if ltb (heap a).last_used (heap best).last_used then a else best) nodes

-- `del level[h]`
unfoldable pub del_level : RadixTrie → Option ℕ → ℕ → Result RadixTrie
del_level t none h = do
  guard (contains h t.roots) key_error
  ok (record t { roots = erase h t.roots })
del_level t (some p) h = do
  guard (contains h (t.heap p).children) key_error
  ok (record t {
    heap = update t.heap p (record (t.heap p) { children = erase h (t.heap p).children });
  })

-- Where a node's parent keeps it: `none` for the roots, or the node that the index has for its hash.
unfoldable pub parent_place : RadixTrie → Option ℕ → Result (Option ℕ)
parent_place t none = ok none
parent_place t (some p) = do a ← or_raise (lookup p t.by_hash) key_error; ok (some a)

-- `RadixTrie._remove`
unfoldable pub remove : RadixTrie → ℕ → Result RadixTrie
unfolding del_level parent_place
remove t a = do
  place ← parent_place t (t.heap a).parent_hash
  t' ← del_level t place (t.heap a).block_hash
  guard (contains (t.heap a).block_hash t'.by_hash) key_error
  ok (record t' { by_hash = erase (t.heap a).block_hash t'.by_hash })

-- `RadixTrie.evict_one_lru`
unfoldable pub evict_one_lru : RadixTrie → Result (Option ℕ × RadixTrie)
unfolding remove least_used evictable
evict_one_lru t = elim (keep (evictable t.heap) (values t.by_hash)) [
  | [] ↦ ok (none, t)
  | a ∷ nodes ↦
      let victim = least_used t.heap a nodes in
      do t' ← remove t victim; ok (some (t.heap victim).physical_block_id, t')
]

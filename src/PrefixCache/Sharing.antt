-- ===== src/PrefixCache/Sharing.antt =====
-- The tree over its life: whatever the cache did before, requests share only blocks of equal prefixes.
use lightserve.Prelude.{
  ℕ, zero, suc, ◌+◌, ◌*◌, ◌/◌, ◌≡◌, sym, ap, ◌∙◌, Option, none, some, List, [], ◌∷◌, length, take,
  get_elem?, arith, OnOk-use, Bool-cases, Option-cases, inl, inr, ok, eq_list,
}
use lightserve.Prelude.Dict.{lookup, lookup-Entries}
use lightserve.PrefixCache.{
  RadixTrie, PrefixMatch, new_trie, block_at, walk, match, acquire, release, evict_one_lru,
  insert_blocks, level_of,
}
use lightserve.PrefixCache.Labels.{IsLabelled, Follows, match-Follows}
use lightserve.PrefixCache.Rounds.{Below}
use lightserve.PrefixCache.Recording.{insert_blocks-Recorded, Follows-take}
use lightserve.PrefixCache.Shrinking.{
  acquire-Shrinks, Shrinks-IsLabelled, release-IsLabelled, evict_one_lru-IsLabelled,
}

-- One call on the tree; an insertion starts below some of what the tree has of
-- the same tokens, as a request does with the nodes that it holds.
pub data TrieStep (t t' : RadixTrie) : Type 0 where
  acquires : (m : PrefixMatch) (n : ℕ) → t' ≡ acquire t m n → TrieStep t t'
  releases : (nodes : List ℕ) → release t nodes ≡ ok t' → TrieStep t t'
  evicts : (freed : Option ℕ) → evict_one_lru t ≡ ok (freed, t') → TrieStep t t'
  inserts :
      (tokens physical nodes : List ℕ) (num_computed k : ℕ)
      → insert_blocks t tokens physical num_computed (take k (match t tokens).nodes)
        ≡ ok (t', nodes)
      → TrieStep t t'

pub data TrieReach (t : RadixTrie) : RadixTrie → Type 0 where
  here : TrieReach t t
  next : {u v : RadixTrie} → TrieReach t u → TrieStep u v → TrieReach t v

walk-Below :
    (content : ℕ → List ℕ) (t : RadixTrie) (tokens : List ℕ)
    → IsLabelled content t
    → (n i : ℕ) (parent place : Option ℕ)
    → Below t.next_address (walk t tokens n i parent (level_of t place))
unfolding walk level_of
walk-Below content t tokens labelled zero i parent place = tt
walk-Below content t tokens labelled (suc n) i parent place =
    let block = block_at t.block_size tokens i in
    let hash = t.hash_fn parent block in
    elim (Option-cases (lookup hash (level_of t place))) [
      | inl e ↦ rw (e, walk) tt
      | inr (a, e) ↦ elim (Bool-cases (eq_list (t.heap a).token_ids block)) [
        | inr f ↦ rw (e, walk) (rw f tt)
        | inl f ↦
            rw (e, walk)
              (rw f (
                (lookup-Entries _ hash (level_of t place) a (labelled place) e).0,
                walk-Below content t tokens labelled n (i + 1) (some hash) (some a),
              ))
      ]
    ]

match-Below :
    (content : ℕ → List ℕ) (t : RadixTrie) (tokens : List ℕ)
    → IsLabelled content t
    → Below t.next_address (match t tokens).nodes
unfolding match level_of
match-Below content t tokens labelled =
    walk-Below content t tokens labelled (length tokens / t.block_size) 0 none none

Below-take : (n k : ℕ) (nodes : List ℕ) → Below n nodes → Below n (take k nodes)
Below-take n zero nodes h = tt
Below-take n (suc k) [] h = tt
Below-take n (suc k) (a ∷ nodes) h = (h.0, Below-take n k nodes h.1)

Labelled : RadixTrie → Type 0
Labelled t = (content : ℕ → List ℕ) × IsLabelled content t

TrieStep-Labelled : (t t' : RadixTrie) → TrieStep t t' → Labelled t → Labelled t'
unfolding Labelled
TrieStep-Labelled t t' (acquires m n e) (content, l) =
    (content, rw e (Shrinks-IsLabelled content t (acquire t m n) (acquire-Shrinks t m n) l))
TrieStep-Labelled t t' (releases nodes e) (content, l) =
    (content, OnOk-use _ (release t nodes) (release-IsLabelled content t nodes l) e)
TrieStep-Labelled t t' (evicts freed e) (content, l) =
    (content, OnOk-use _ (evict_one_lru t) (evict_one_lru-IsLabelled content t l) e)
TrieStep-Labelled t t' (inserts tokens physical nodes n k e) (content, l) =
    let found = (match t tokens).nodes in
    let r =
      insert_blocks-Recorded content t tokens physical n (take k found) (t', nodes) l
        (Follows-take content t.block_size tokens 0 k found (match-Follows content t tokens l))
        (Below-take t.next_address k found (match-Below content t tokens l)) e in
    (r.content', r.labelled)

TrieReach-Labelled : {t u : RadixTrie} → Labelled t → TrieReach t u → Labelled u
TrieReach-Labelled h here = h
TrieReach-Labelled h (next {u} {v} r step) = TrieStep-Labelled u v step (TrieReach-Labelled h r)

new_trie-Labelled :
    (block_size : ℕ) (hash_fn : Option ℕ → List ℕ → ℕ) → Labelled (new_trie block_size hash_fn)
unfolding Labelled new_trie level_of
new_trie-Labelled block_size hash_fn = (λ a. [], elim [ none ↦ tt | some p ↦ tt ])

Follows-nth :
    (content : ℕ → List ℕ) (d : ℕ) (tokens : List ℕ) (start i a : ℕ) (nodes : List ℕ)
    → Follows content d tokens start nodes
    → get_elem? nodes i ≡ some a
    → content a ≡ take ((start + i + 1) * d) tokens
Follows-nth content d tokens start i a [] f e = cc
Follows-nth content d tokens start zero a (b ∷ nodes) f e =
    ap content (sym (first e)) ∙ f.0 ∙ ap (λ k. take (k * d) tokens) (omega arith)
  where
    first : get_elem? (b ∷ nodes) 0 ≡ some a → b ≡ a
    first e = ground arith
Follows-nth content d tokens start (suc i) a (b ∷ nodes) f e =
    Follows-nth content d tokens (start + 1) i a nodes f.1 e
    ∙ ap (λ k. take (k * d) tokens) (omega arith)

-- Whatever calls a tree has had since it was made, in any order, and whatever the hash function does:
-- where two prompts match the same node as their block `i`, they have the same first `i + 1` blocks
-- of tokens.
pub TrieReach-shared :
    (block_size : ℕ) (hash_fn : Option ℕ → List ℕ → ℕ) (t : RadixTrie) (xs ys : List ℕ) (i a : ℕ)
    → TrieReach (new_trie block_size hash_fn) t
    → get_elem? (match t xs).nodes i ≡ some a
    → get_elem? (match t ys).nodes i ≡ some a
    → take ((i + 1) * t.block_size) xs ≡ take ((i + 1) * t.block_size) ys
unfolding Labelled
TrieReach-shared block_size hash_fn t xs ys i a r e f =
    let (content, l) = TrieReach-Labelled (new_trie-Labelled block_size hash_fn) r in
    let one_more : i + 1 ≡ 0 + i + 1 = omega arith in
    ap (λ k. take (k * t.block_size) xs) one_more
    ∙ sym (
        Follows-nth content t.block_size xs 0 i a (match t xs).nodes (match-Follows content t xs l)
          e)
    ∙ Follows-nth content t.block_size ys 0 i a (match t ys).nodes (match-Follows content t ys l) f
    ∙ ap (λ k. take (k * t.block_size) ys) (sym one_more)

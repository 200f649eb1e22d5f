-- ===== src/PrefixCache/Eviction.antt =====
-- Which block `evict_one_lru` gives back, and which node it takes from the tree.
use lightserve.Prelude.{
  ℕ, ◌≤◌, ◌<◌, ◌≡◌, refl, ap, ◌∙◌, Bool, true, none, some, List, [], ◌∷◌, arith, keep, elem,
  elem_cons, elem_here, elem_there, ltb, ltb_lt, ltb_ge, sym, Bool-cases, List-cases, inl, inr, ◌⊎◌,
  subst, ok,
}
use lightserve.Prelude.Dict.{values}
use lightserve.PrefixCache.{TrieNode, RadixTrie, evictable, least_used, remove, evict_one_lru}
use lightserve.PrefixCache.Removal.{IsConsistent, Removed, remove-Removed}

false_elem : (a : ℕ) → elem a [] ≡ true → ⊥
unfolding elem
false_elem a h = cc

elem-keep :
    (p : ℕ → Bool) (a : ℕ) (xs : List ℕ)
    → elem a (keep p xs) ≡ true
    → (p a ≡ true) × (elem a xs ≡ true)
unfolding keep
elem-keep p a [] h = absurd (false_elem a h)
elem-keep p a (x ∷ xs) h = elim (Bool-cases (p x)) [
  | inr e ↦ let (h₁, h₂) = elem-keep p a xs (rw e at h) in (h₁, elem_there a x xs h₂)
  | inl e ↦ elim (elem_cons a x (keep p xs) (rw e at h)) [
    | inl q ↦ (ap p q ∙ e, elem_here a x xs q)
    | inr q ↦ let (h₁, h₂) = elem-keep p a xs q in (h₁, elem_there a x xs h₂)
  ]
]

keep-elem :
    (p : ℕ → Bool) (a : ℕ) (xs : List ℕ) → elem a xs ≡ true → p a ≡ true → elem a (keep p xs) ≡ true
unfolding keep
keep-elem p a [] h t = h
keep-elem p a (x ∷ xs) h t = elim (elem_cons a x xs h) [
  | inl q ↦ rw (sym (ap p q) ∙ t) (elem_here a x (keep p xs) q)
  | inr q ↦ elim (Bool-cases (p x)) [
    | inl e ↦ rw e (elem_there a x (keep p xs) (keep-elem p a xs q t))
    | inr e ↦ rw e (keep-elem p a xs q t)
  ]
]

-- `best` is among the nodes, and was used no later than any of them.
record IsLeast (heap : ℕ → TrieNode) (nodes : List ℕ) (best : ℕ) : Type 0 where
  among : elem best nodes ≡ true
  least : (a : ℕ) → elem a nodes ≡ true → (heap best).last_used ≤ (heap a).last_used

IsLeast-second :
    (heap : ℕ → TrieNode) (best a r : ℕ) (nodes : List ℕ)
    → (heap a).last_used < (heap best).last_used
    → IsLeast heap (a ∷ nodes) r
    → IsLeast heap (best ∷ a ∷ nodes) r
IsLeast-second heap best a r nodes l h = record {
  among = elem_there r best (a ∷ nodes) h.among;
  least = λ b k. elim (elem_cons b best (a ∷ nodes) k) [
    | inl q ↦ rw q (omega (arith, l, h.least a (elem_here a a nodes refl)))
    | inr q ↦ h.least b q
  ];
}

IsLeast-first :
    (heap : ℕ → TrieNode) (best a r : ℕ) (nodes : List ℕ)
    → (heap best).last_used ≤ (heap a).last_used
    → IsLeast heap (best ∷ nodes) r
    → IsLeast heap (best ∷ a ∷ nodes) r
IsLeast-first heap best a r nodes l h = record {
  among = elim (elem_cons r best nodes h.among) [
    | inl q ↦ elem_here r best (a ∷ nodes) q
    | inr q ↦ elem_there r best (a ∷ nodes) (elem_there r a nodes q)
  ];
  least = λ b k. elim (elem_cons b best (a ∷ nodes) k) [
    | inl q ↦ h.least b (elem_here b best nodes q)
    | inr q ↦ elim (elem_cons b a nodes q) [
      | inl t ↦ rw t (omega (arith, l, h.least best (elem_here best best nodes refl)))
      | inr t ↦ h.least b (elem_there b best nodes t)
    ]
  ];
}

least_used-IsLeast :
    (heap : ℕ → TrieNode) (best : ℕ) (nodes : List ℕ)
    → IsLeast heap (best ∷ nodes) (least_used heap best nodes)
unfolding least_used
least_used-IsLeast heap best [] = record {
  among = elem_here best best [] refl;
  least = λ a h. elim (elem_cons a best [] h) [
    | inl q ↦ rw q (omega arith)
    | inr q ↦ absurd (false_elem a q)
  ];
}
least_used-IsLeast heap best (a ∷ nodes) =
    elim (Bool-cases (ltb (heap a).last_used (heap best).last_used)) [
      | inl e ↦
          rw e (IsLeast-second heap best a _ nodes (ltb_lt _ _ e) (least_used-IsLeast heap a nodes))
      | inr e ↦
          rw e
            (IsLeast-first heap best a _ nodes (ltb_ge _ _ e) (least_used-IsLeast heap best nodes))
    ]

-- Nothing uses the node, and it has no children.
abbrev pub IsFree : RadixTrie → ℕ → Type 0
IsFree t a = ((t.heap a).ref_count ≡ 0) × ((t.heap a).children ≡ [])

-- The node that `evict_one_lru` takes: it is in the tree's index and free, and no other such node was
-- used before it.
pub record IsVictim (t : RadixTrie) (victim : ℕ) : Type 0 where
  pub indexed : elem victim (values t.by_hash) ≡ true
  pub free : IsFree t victim
  pub oldest :
      (a : ℕ)
      → elem a (values t.by_hash) ≡ true
      → IsFree t a
      → (t.heap victim).last_used ≤ (t.heap a).last_used

evictable_parts : (t : RadixTrie) (a : ℕ) → evictable t.heap a ≡ true → IsFree t a
unfolding evictable
evictable_parts t a h = elim (List-cases (t.heap a).children) [
  | inl e ↦ (ground arith, e)
  | inr (c, rest, e) ↦ absurd (ground arith)
]

IsFree-evictable : (t : RadixTrie) (a : ℕ) → IsFree t a → evictable t.heap a ≡ true
unfolding evictable
IsFree-evictable t a h = rw (h.0, h.1) refl

IsLeast-IsVictim :
    (t : RadixTrie) (victim : ℕ)
    → IsLeast t.heap (keep (evictable t.heap) (values t.by_hash)) victim
    → IsVictim t victim
IsLeast-IsVictim t victim h =
    let (free, among) = elem-keep (evictable t.heap) victim (values t.by_hash) h.among in
    record {
      indexed = among;
      free = evictable_parts t victim free;
      oldest = λ a k f.
          h.least a (keep-elem (evictable t.heap) a (values t.by_hash) k (IsFree-evictable t a f));
    }

none_free :
    (t : RadixTrie) (a : ℕ)
    → keep (evictable t.heap) (values t.by_hash) ≡ []
    → elem a (values t.by_hash) ≡ true
    → ¬ IsFree t a
none_free t a e k f = false_elem a (
    sym (ap (elem a) e)
    ∙ keep-elem (evictable t.heap) a (values t.by_hash) k (IsFree-evictable t a f))

evicts :
    (t t' : RadixTrie) (a : ℕ) (nodes : List ℕ)
    → keep (evictable t.heap) (values t.by_hash) ≡ a ∷ nodes
    → remove t (least_used t.heap a nodes) ≡ ok t'
    → evict_one_lru t ≡ ok (some (t.heap (least_used t.heap a nodes)).physical_block_id, t')
unfolding evict_one_lru
evicts t t' a nodes e q = rw (e, evict_one_lru, q) refl

-- What `evict_one_lru` comes to: nothing to evict, and the same tree; or a victim's block, and the tree
-- without the victim.
abbrev pub Outcome : RadixTrie → Type 0
Outcome t =
    ((evict_one_lru t ≡ ok (none, t)) × ((a : ℕ) → elem a (values t.by_hash) ≡ true → ¬ IsFree t a))
    ⊎ ((victim : ℕ) × (t' : RadixTrie) × (evict_one_lru t
          ≡ ok (some (t.heap victim).physical_block_id, t'))
        × IsVictim t victim
        × Removed t t' victim)

-- `evict_one_lru` on a tree in which no hashes of different levels collide returns. With no unreferenced
-- leaf it says so and leaves the tree; else it gives the block of a least recently used one, and in the
-- tree that it leaves, neither the index nor the level that the leaf hung in has the leaf, while all
-- their other entries, all other levels and, but for its children, every node are as they were.
pub evict_one_lru_lem : (t : RadixTrie) → IsConsistent t → Outcome t
unfolding evict_one_lru
evict_one_lru_lem t c = elim (List-cases (keep (evictable t.heap) (values t.by_hash))) [
  | inl e ↦ inl (rw (e, evict_one_lru) refl, λ a k. none_free t a e k)
  | inr (a, nodes, e) ↦
      let victim = least_used t.heap a nodes in
      let is_victim : IsVictim t victim =
        IsLeast-IsVictim t victim
          (subst (λ l. IsLeast t.heap l victim) (sym e) (least_used-IsLeast t.heap a nodes)) in
      let (t', q, removed) = remove-Removed t victim c is_victim.indexed in
      inr (victim, t', evicts t t' a nodes e q, is_victim, removed)
]

-- ===== src/PrefixCache/Shrinking.antt =====
-- The operations that add nothing to the tree: holds, releases and evictions keep every label.
use lightserve.Prelude.{
  ℕ, ◌+◌, ◌-◌, ◌≡◌, refl, ap, sym, ◌∙◌, subst, true, Option, none, some, List, [], ◌∷◌, ◌++◌, arith,
  update, ◌==◌, leb, Bool-cases, List-cases, inl, inr, OnOk, OnOk-bind, OnOk-mono, OnOk-any, keep,
  ok,
}
use lightserve.Prelude.Dict.{Dict, values, erase, contains, Entries, Entries-mono, erase-Entries}
use lightserve.PrefixCache.{
  TrieNode, RadixTrie, PrefixMatch, level_of, touch, hold, acquire, drop_holds, release, del_level,
  parent_place, remove, evict_one_lru, evictable, least_used, held,
}
use lightserve.PrefixCache.Labels.{IsLabelled, path}

-- The tree `t'` has no node that `t` has not, and the same node objects with the same tokens.
pub record Shrinks (t t' : RadixTrie) : Type 1 where
  pub block_size : t'.block_size ≡ t.block_size
  pub next : t'.next_address ≡ t.next_address
  pub tokens : (a : ℕ) → (t'.heap a).token_ids ≡ (t.heap a).token_ids
  pub levels :
      (place : Option ℕ) (P : ℕ → Type 0)
      → Entries P (level_of t place)
      → Entries P (level_of t' place)

pub Shrinks-refl : (t : RadixTrie) → Shrinks t t
Shrinks-refl t = record {
  block_size = refl;
  next = refl;
  tokens = λ a. refl;
  levels = λ place P h. h;
}

pub Shrinks-trans : (t u v : RadixTrie) → Shrinks t u → Shrinks u v → Shrinks t v
Shrinks-trans t u v h k = record {
  block_size = k.block_size ∙ h.block_size;
  next = k.next ∙ h.next;
  tokens = λ a. k.tokens a ∙ h.tokens a;
  levels = λ place P e. k.levels place P (h.levels place P e);
}

pub Shrinks-IsLabelled :
    (content : ℕ → List ℕ) (t t' : RadixTrie)
    → Shrinks t t'
    → IsLabelled content t
    → IsLabelled content t'
Shrinks-IsLabelled content t t' h labelled place =
    Entries-mono _ _ (level_of t' place)
      (λ a k. (rw (h.next) k.0, k.1 ∙ ap (λ l. path content place ++ l) (sym (h.tokens a))))
      (h.levels place _ (labelled place))

-- Two stores with the same tokens and children.
abbrev pub SameNodes : (ℕ → TrieNode) → (ℕ → TrieNode) → Type 0
SameNodes heap heap' =
    (a : ℕ) → ((heap' a).token_ids ≡ (heap a).token_ids) × ((heap' a).children ≡ (heap a).children)

pub SameNodes-Shrinks :
    (t t' : RadixTrie)
    → t'.block_size ≡ t.block_size
    → t'.next_address ≡ t.next_address
    → t'.roots ≡ t.roots
    → SameNodes t.heap t'.heap
    → Shrinks t t'
unfolding level_of
SameNodes-Shrinks t t' b n r h = record {
  block_size = b;
  next = n;
  tokens = λ a. (h a).0;
  levels = elim [
    | none ↦ λ P e. subst (Entries P) (sym r) e
    | some a ↦ λ P e. subst (Entries P) (sym (h a).1) e
  ];
}

SameNodes-trans :
    (heap heap' heap'' : ℕ → TrieNode)
    → SameNodes heap heap'
    → SameNodes heap' heap''
    → SameNodes heap heap''
SameNodes-trans heap heap' heap'' h k a = ((k a).0 ∙ (h a).0, (k a).1 ∙ (h a).1)

SameNodes-update :
    (heap : ℕ → TrieNode) (a : ℕ) (n : TrieNode)
    → n.token_ids ≡ (heap a).token_ids
    → n.children ≡ (heap a).children
    → SameNodes heap (update heap a n)
SameNodes-update heap a n h k b = ground arith

hold-SameNodes :
    (clock : ℕ) (heap : ℕ → TrieNode) (nodes : List ℕ) → SameNodes heap (hold clock heap nodes)
unfolding hold
hold-SameNodes clock heap [] = λ a. (refl, refl)
hold-SameNodes clock heap (a ∷ nodes) =
    let heap' = update heap a (held clock (heap a)) in
    SameNodes-trans heap heap' (hold clock heap' nodes)
      (SameNodes-update heap a (held clock (heap a)) refl refl) (hold-SameNodes clock heap' nodes)

drop_holds-SameNodes :
    (heap : ℕ → TrieNode) (nodes : List ℕ) → OnOk (SameNodes heap) (drop_holds heap nodes)
unfolding drop_holds
drop_holds-SameNodes heap [] = λ a. (refl, refl)
drop_holds-SameNodes heap (a ∷ nodes) = elim (Bool-cases (leb (heap a).ref_count 0)) [
  | inl e ↦ rw e tt
  | inr e ↦
      let n : TrieNode = record (heap a) { ref_count = (heap a).ref_count - 1 } in
      rw e (
        OnOk-mono _ _ (drop_holds (update heap a n) nodes)
          (λ heap'' k.
            SameNodes-trans heap (update heap a n) heap'' (SameNodes-update heap a n refl refl) k)
          (drop_holds-SameNodes (update heap a n) nodes))
]

pub acquire-Shrinks : (t : RadixTrie) (m : PrefixMatch) (n : ℕ) → Shrinks t (acquire t m n)
unfolding acquire
acquire-Shrinks t m n =
    SameNodes-Shrinks t _ refl refl refl (hold-SameNodes (t.clock + 1) t.heap m.nodes)

pub touch-Shrinks : (t : RadixTrie) (a : ℕ) → Shrinks t (touch t a)
unfolding touch
touch-Shrinks t a = SameNodes-Shrinks t _ refl refl refl (SameNodes-update t.heap a _ refl refl)

pub release-IsLabelled :
    (content : ℕ → List ℕ) (t : RadixTrie) (nodes : List ℕ)
    → IsLabelled content t
    → OnOk (IsLabelled content) (release t nodes)
unfolding release
release-IsLabelled content t nodes labelled =
    OnOk-bind _ _ (drop_holds t.heap nodes) (λ heap. ok (record t { heap = heap }))
      (drop_holds-SameNodes t.heap nodes)
      (λ heap h.
        Shrinks-IsLabelled content t (record t { heap = heap })
          (SameNodes-Shrinks t _ refl refl refl h) labelled)

erased_children :
    (P : ℕ → Type 0) (heap : ℕ → TrieNode) (p h a : ℕ)
    → Entries P (heap a).children
    → Entries P
        (update heap p (record (heap p) { children = erase h (heap p).children }) a).children
erased_children P heap p h a e = elim (Bool-cases (a == p)) [
  | inl f ↦ rw f (
      erase-Entries P h (heap p).children (subst (λ x. Entries P (heap x).children) (same a p f) e))
  | inr f ↦ rw f e
]
  where
    same : (x y : ℕ) → (x == y) ≡ true → x ≡ y
    same x y h = ground arith

erase-Shrinks :
    (t : RadixTrie) (p h : ℕ)
    → Shrinks t (record t {
      heap = update t.heap p (record (t.heap p) { children = erase h (t.heap p).children });
    })
unfolding level_of
erase-Shrinks t p h = record {
  block_size = refl;
  next = refl;
  tokens = λ a. ground arith;
  levels = elim [ none ↦ λ P e. e | some a ↦ λ P e. erased_children P t.heap p h a e ];
}

erase_root-Shrinks : (t : RadixTrie) (h : ℕ) → Shrinks t (record t { roots = erase h t.roots })
unfolding level_of
erase_root-Shrinks t h = record {
  block_size = refl;
  next = refl;
  tokens = λ a. refl;
  levels = elim [ none ↦ λ P e. erase-Entries P h t.roots e | some a ↦ λ P e. e ];
}

del_level-IsLabelled :
    (content : ℕ → List ℕ) (t : RadixTrie) (place : Option ℕ) (h : ℕ)
    → IsLabelled content t
    → OnOk (IsLabelled content) (del_level t place h)
unfolding del_level
del_level-IsLabelled content t none h labelled = elim (Bool-cases (contains h t.roots)) [
  | inl e ↦ rw (e, del_level) (Shrinks-IsLabelled content t _ (erase_root-Shrinks t h) labelled)
  | inr e ↦ rw (e, del_level) tt
]
del_level-IsLabelled content t (some p) h labelled =
    elim (Bool-cases (contains h (t.heap p).children)) [
      | inl e ↦ rw (e, del_level) (Shrinks-IsLabelled content t _ (erase-Shrinks t p h) labelled)
      | inr e ↦ rw (e, del_level) tt
    ]

unindex-IsLabelled :
    (content : ℕ → List ℕ) (t : RadixTrie) (index : Dict ℕ)
    → IsLabelled content t
    → IsLabelled content (record t { by_hash = index })
unindex-IsLabelled content t index labelled =
    Shrinks-IsLabelled content t _ (SameNodes-Shrinks t _ refl refl refl (λ a. (refl, refl)))
      labelled

remove-IsLabelled :
    (content : ℕ → List ℕ) (t : RadixTrie) (a : ℕ)
    → IsLabelled content t
    → OnOk (IsLabelled content) (remove t a)
unfolding remove
remove-IsLabelled content t a labelled =
    OnOk-bind (λ place. Unit) _ (parent_place t (t.heap a).parent_hash) _
      (OnOk-any (parent_place t (t.heap a).parent_hash))
      (λ place _.
        OnOk-bind (IsLabelled content) _ (del_level t place (t.heap a).block_hash) _
          (del_level-IsLabelled content t place (t.heap a).block_hash labelled)
          (λ t' k. elim (Bool-cases (contains (t.heap a).block_hash t'.by_hash)) [
            | inl e ↦
                rw e (unindex-IsLabelled content t' (erase (t.heap a).block_hash t'.by_hash) k)
            | inr e ↦ rw e tt
          ]))

pub evict_one_lru-IsLabelled :
    (content : ℕ → List ℕ) (t : RadixTrie)
    → IsLabelled content t
    → OnOk (λ p. IsLabelled content p.1) (evict_one_lru t)
unfolding evict_one_lru
evict_one_lru-IsLabelled content t labelled =
    elim (List-cases (keep (evictable t.heap) (values t.by_hash))) [
      | inl e ↦ rw (e, evict_one_lru) labelled
      | inr (a, nodes, e) ↦
          let victim = least_used t.heap a nodes in
          rw (e, evict_one_lru)
            (OnOk-bind (IsLabelled content) _ (remove t victim) _
              (remove-IsLabelled content t victim labelled) (λ t' k. k))
    ]

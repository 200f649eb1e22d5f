-- ===== src/PrefixCache/Removal.antt =====
-- What `_remove` takes out of the tree: the node's entry in the index and its entry in the level that
-- it hangs in.
use lightserve.Prelude.{
  ℕ, ◌≡◌, ◌≢◌, refl, sym, ap, ◌∙◌, true, Option, none, some, [], ◌∷◌, arith, elem, elem_cons, ◌==◌,
  update, ok, inl, inr, Bool-cases, eq_sound, ne_sound,
}
use lightserve.Prelude.Dict.{
  Dict, lookup, erase, values, IsDict, lookup-erase_ne, lookup-erase_self,
}
use lightserve.PrefixCache.{TrieNode, RadixTrie, level_of, del_level, parent_place, remove}

-- Node `a` hangs where `_remove` looks for it: among the roots, or among the children of the node that
-- the index has for the hash of its parent.
abbrev pub Hangs : RadixTrie → ℕ → Option ℕ → Type 0
Hangs t a none = ((t.heap a).parent_hash ≡ none) × (lookup (t.heap a).block_hash t.roots ≡ some a)
Hangs t a (some q) =
    (p : ℕ) × ((t.heap a).parent_hash ≡ some p)
    × (lookup p t.by_hash ≡ some q)
    × (lookup (t.heap a).block_hash (t.heap q).children ≡ some a)

-- A tree in which no two hashes of different levels collide: the index has each node under its hash, and
-- each node of the index hangs where its parent's hash says.
pub record IsConsistent (t : RadixTrie) : Type 0 where
  pub index_dict : IsDict t.by_hash
  pub level_dicts : (place : Option ℕ) → IsDict (level_of t place)
  pub index_keys : (h a : ℕ) → lookup h t.by_hash ≡ some a → (t.heap a).block_hash ≡ h
  pub hanging : (a : ℕ) → elem a (values t.by_hash) ≡ true → (place : Option ℕ) × Hangs t a place

-- `t'` is `t` without node `a`: neither the index nor the level that it hung in has it, all their other
-- entries and all other levels are as they were, and so is every node but for its children.
pub record Removed (t t' : RadixTrie) (a : ℕ) : Type 0 where
  pub place : Option ℕ
  pub hung : Hangs t a place
  pub index_rest : (k : ℕ) → k ≢ (t.heap a).block_hash → lookup k t'.by_hash ≡ lookup k t.by_hash
  pub index_lacks : (k : ℕ) → ¬ (lookup k t'.by_hash ≡ some a)
  pub level_rest :
      (k : ℕ)
      → k ≢ (t.heap a).block_hash
      → lookup k (level_of t' place) ≡ lookup k (level_of t place)
  pub level_lacks : lookup (t.heap a).block_hash (level_of t' place) ≡ none
  pub levels_kept : (q : Option ℕ) → q ≢ place → level_of t' q ≡ level_of t q
  pub nodes_kept :
      (b : ℕ) → record (t'.heap b) { children = [] } ≡ record (t.heap b) { children = [] }

module _ {V : Type 0} where
  none_not_some : (o : Option V) (v : V) → o ≡ none → ¬ (o ≡ some v)
  none_not_some o v e h = cc

deeper :
    (j k w a : ℕ) (d : Dict ℕ)
    → lookup j d ≡ none
    → lookup k d ≡ some a
    → lookup k ((j, w) ∷ d) ≡ some a
unfolding lookup
deeper j k w a d e q = elim (Bool-cases (k == j)) [
  | inl t ↦ absurd (none_not_some (lookup k d) a (ap (λ i. lookup i d) (eq_sound k j t) ∙ e) q)
  | inr f ↦ rw (f, lookup) q
]

elem-values :
    (a : ℕ) (d : Dict ℕ) → IsDict d → elem a (values d) ≡ true → (h : ℕ) × (lookup h d ≡ some a)
unfolding lookup values elem
elem-values a [] i h = ground arith
elem-values a ((j, w) ∷ d) i h = elim (elem_cons a w (values d) h) [
  | inl e ↦ (j, ground arith)
  | inr e ↦ let (k, q) = elem-values a d i.1 e in (k, deeper j k w a d i.0 q)
]

lookup_other :
    (d : Dict ℕ) (h a k : ℕ)
    → IsDict d
    → ((j b : ℕ) → lookup j d ≡ some b → b ≡ a → j ≡ h)
    → ¬ (lookup k (erase h d) ≡ some a)
lookup_other d h a k i only e = elim (Bool-cases (k == h)) [
  | inl q ↦
      none_not_some (lookup k (erase h d)) a
        (ap (λ i. lookup i (erase h d)) (eq_sound k h q) ∙ lookup-erase_self h d i) e
  | inr q ↦ ne_sound k h q (only k a (sym (lookup-erase_ne k h d (ne_sound k h q)) ∙ e) refl)
]

-- The index without the node's hash.
without_index :
    (t : RadixTrie) (a k : ℕ)
    → IsConsistent t
    → ¬ (lookup k (erase (t.heap a).block_hash t.by_hash) ≡ some a)
without_index t a k c =
    lookup_other t.by_hash (t.heap a).block_hash a k c.index_dict
      (λ j b e q. sym (c.index_keys j b e) ∙ ap (λ x. (t.heap x).block_hash) q)

abbrev unhung : RadixTrie → ℕ → Option ℕ → RadixTrie
unhung t a none = record t {
  roots = erase (t.heap a).block_hash t.roots;
  by_hash = erase (t.heap a).block_hash t.by_hash;
}
unhung t a (some q) = record t {
  heap =
      update t.heap q
        (record (t.heap q) { children = erase (t.heap a).block_hash (t.heap q).children });
  by_hash = erase (t.heap a).block_hash t.by_hash;
}

remove-unhung :
    (t : RadixTrie) (a : ℕ) (place : Option ℕ)
    → Hangs t a place
    → lookup (t.heap a).block_hash t.by_hash ≡ some a
    → remove t a ≡ ok (unhung t a place)
unfolding remove parent_place del_level
remove-unhung t a none (e, l) i = rw (e, l, i, remove) refl
remove-unhung t a (some q) (p, e, m, l) i = rw (e, m, l, i, remove) refl

update_here {ℓ} : {A : Type ℓ} (f : ℕ → A) (a : ℕ) (v : A) → update f a v a ≡ v
update_here f a v = ground arith

update_there {ℓ} : {A : Type ℓ} (f : ℕ → A) (a b : ℕ) (v : A) → b ≢ a → update f a v b ≡ f b
update_there f a b v n = ground arith

cut_index :
    (t : RadixTrie) (a : ℕ) (place : Option ℕ)
    → (unhung t a place).by_hash ≡ erase (t.heap a).block_hash t.by_hash
cut_index t a none = refl
cut_index t a (some q) = refl

cut_level :
    (t : RadixTrie) (a : ℕ) (place : Option ℕ)
    → level_of (unhung t a place) place ≡ erase (t.heap a).block_hash (level_of t place)
unfolding level_of
cut_level t a none = refl
cut_level t a (some q) = ap (λ n. n.children) (update_here t.heap q _)

level_kept :
    (t : RadixTrie) (a : ℕ) (place q : Option ℕ)
    → q ≢ place
    → level_of (unhung t a place) q ≡ level_of t q
unfolding level_of
level_kept t a none none n = absurd (n refl)
level_kept t a none (some r) n = refl
level_kept t a (some p) none n = refl
level_kept t a (some p) (some r) n =
    ap (λ m. m.children) (update_there t.heap p r _ (λ e. n (ap some e)))

abbrev bare : TrieNode → TrieNode
bare n = record n { children = [] }

node_kept :
    (t : RadixTrie) (a : ℕ) (place : Option ℕ) (b : ℕ)
    → bare ((unhung t a place).heap b) ≡ bare (t.heap b)
node_kept t a none b = refl
node_kept t a (some q) b = elim (Bool-cases (b == q)) [
  | inl e ↦ rw e (ap (λ x. bare (t.heap x)) (sym (eq_sound b q e)))
  | inr e ↦ rw e refl
]

unhung-Removed :
    (t : RadixTrie) (a : ℕ) (place : Option ℕ)
    → IsConsistent t
    → Hangs t a place
    → Removed t (unhung t a place) a
unhung-Removed t a place c h = record {
  place = place;
  hung = h;
  index_rest = λ k n.
      ap (lookup k) (cut_index t a place) ∙ lookup-erase_ne k (t.heap a).block_hash t.by_hash n;
  index_lacks = λ k e. without_index t a k c (sym (ap (lookup k) (cut_index t a place)) ∙ e);
  level_rest = λ k n.
      ap (lookup k) (cut_level t a place)
      ∙ lookup-erase_ne k (t.heap a).block_hash (level_of t place) n;
  level_lacks =
      ap (lookup (t.heap a).block_hash) (cut_level t a place)
      ∙ lookup-erase_self (t.heap a).block_hash (level_of t place) (c.level_dicts place);
  levels_kept = λ q n. level_kept t a place q n;
  nodes_kept = λ b. node_kept t a place b;
}

-- In a consistent tree every node of the index can be removed, and is.
pub remove-Removed :
    (t : RadixTrie) (a : ℕ)
    → IsConsistent t
    → elem a (values t.by_hash) ≡ true
    → (t' : RadixTrie) × (remove t a ≡ ok t') × Removed t t' a
remove-Removed t a c e =
    let (place, h) = c.hanging a e in
    let (k, q) = elem-values a t.by_hash c.index_dict e in
    (
      unhung t a place,
      remove-unhung t a place h (ap (λ i. lookup i t.by_hash) (c.index_keys k a q) ∙ q),
      unhung-Removed t a place c h,
    )

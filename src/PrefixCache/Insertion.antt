-- ===== src/PrefixCache/Insertion.antt =====
-- What `RadixTrie.insert` adds to the tree: nodes for prefixes of the tokens, and nothing else.
use lightserve.Prelude.{
  ℕ, ◌+◌, ◌<◌, ◌≡◌, refl, ap₂, sym, ◌∙◌, subst, true, Option, none, some, List, [], ◌++◌, arith,
  update, ◌==◌, eq_sound, ne_sound, Bool-cases, inl, inr,
}
use lightserve.Prelude.Dict.{insert, Entries, Entries-mono, insert-Entries}
use lightserve.PrefixCache.{TrieNode, RadixTrie, level_of, put_level, create, new_node}
use lightserve.PrefixCache.Labels.{IsLabelled, path}

-- A place in the tree: the roots, or a node that exists.
abbrev pub InRange : RadixTrie → Option ℕ → Type 0
InRange t none = Unit
InRange t (some p) = p < t.next_address

-- A place that the next new node is not.
abbrev Elsewhere : ℕ → Option ℕ → Type 0
Elsewhere n none = Unit
Elsewhere n (some p) = ¬ (p ≡ n)

InRange-Elsewhere : (t : RadixTrie) (q : Option ℕ) → InRange t q → Elsewhere t.next_address q
InRange-Elsewhere t none r = tt
InRange-Elsewhere t (some p) r = ground arith

-- The ghost contents after a node for `block` is made under `place`.
abbrev pub labelled_with : (ℕ → List ℕ) → RadixTrie → Option ℕ → List ℕ → ℕ → List ℕ
labelled_with content t place block = update content t.next_address (path content place ++ block)

path_kept :
    (content : ℕ → List ℕ) (n : ℕ) (l : List ℕ) (q : Option ℕ)
    → Elsewhere n q
    → path (update content n l) q ≡ path content q
path_kept content n l none h = refl
path_kept content n l (some b) h = ground arith

create_tokens :
    (t : RadixTrie) (place : Option ℕ) (h : ℕ) (parent : Option ℕ) (block : List ℕ) (physical a : ℕ)
    → a < t.next_address
    → ((create t place h parent block physical).heap a).token_ids ≡ (t.heap a).token_ids
unfolding create put_level
create_tokens t none h parent block physical a k = ground arith
create_tokens t (some p) h parent block physical a k = ground arith

create_own_tokens :
    (t : RadixTrie) (place : Option ℕ) (h : ℕ) (parent : Option ℕ) (block : List ℕ) (physical : ℕ)
    → ((create t place h parent block physical).heap t.next_address).token_ids ≡ block
unfolding create put_level
create_own_tokens t none h parent block physical = ground arith
create_own_tokens t (some p) h parent block physical = ground arith

-- The children of a node other than the new one, after the new one was put under `p`.
put_children :
    (P : ℕ → Type 0) (heap : ℕ → TrieNode) (p h n b : ℕ)
    → ((b == p) ≡ true → P n)
    → Entries P (heap b).children
    → Entries P
        (update heap p (record (heap p) { children = insert h n (heap p).children }) b).children
put_children P heap p h n b own e = elim (Bool-cases (b == p)) [
  | inl f ↦ rw f (
      insert-Entries P h n (heap p).children (own f)
        (subst (λ x. Entries P (heap x).children) (eq_sound b p f) e))
  | inr f ↦ rw f e
]

new_children :
    (P : ℕ → Type 0) (heap : ℕ → TrieNode) (n b : ℕ) (node : TrieNode)
    → node.children ≡ []
    → (¬ (b ≡ n) → Entries P (heap b).children)
    → Entries P (update heap n node b).children
new_children P heap n b node empty old = elim (Bool-cases (b == n)) [
  | inl f ↦ rw f (rw empty tt)
  | inr f ↦ rw f (old (ne_sound b n f))
]

-- A level after `create`: empty for the new node, one node more at `place`, and else as it was.
create_level :
    (t : RadixTrie) (place : Option ℕ) (h : ℕ) (parent : Option ℕ) (block : List ℕ) (physical : ℕ)
    → (P : Option ℕ → ℕ → Type 0) → P place t.next_address
    → ((q : Option ℕ) → Elsewhere t.next_address q → Entries (P q) (level_of t q))
    → (q : Option ℕ) → Entries (P q) (level_of (create t place h parent block physical) q)
unfolding create put_level level_of
create_level t none h parent block physical P own old none =
    insert-Entries (P none) h t.next_address t.roots own (old none tt)
create_level t none h parent block physical P own old (some b) =
    new_children (P (some b)) t.heap t.next_address b _ refl (old (some b))
create_level t (some p) h parent block physical P own old none = old none tt
create_level t (some p) h parent block physical P own old (some b) =
    let node = new_node t h parent block physical in
    put_children (P (some b)) (update t.heap t.next_address node) p h t.next_address b
      (λ f. subst (λ x. P (some x) t.next_address) (sym (eq_sound b p f)) own)
      (new_children (P (some b)) t.heap t.next_address b node refl (old (some b)))

pub create_shape :
    (t : RadixTrie) (place : Option ℕ) (h : ℕ) (parent : Option ℕ) (block : List ℕ) (physical : ℕ)
    → ((create t place h parent block physical).next_address ≡ t.next_address + 1)
      × ((create t place h parent block physical).block_size ≡ t.block_size)
unfolding create put_level
create_shape t none h parent block physical = (refl, refl)
create_shape t (some p) h parent block physical = (refl, refl)

pub update_at : (content : ℕ → List ℕ) (n : ℕ) (l : List ℕ) → update content n l n ≡ l
update_at content n l = ground arith

pub update_before :
    (content : ℕ → List ℕ) (n : ℕ) (l : List ℕ) (a : ℕ) → a < n → update content n l a ≡ content a
update_before content n l a h = ground arith

-- The new tree's labels, with the new node's contents added to the ghost.
pub create-IsLabelled :
    (content : ℕ → List ℕ) (t : RadixTrie) (place : Option ℕ) (h : ℕ) (parent : Option ℕ)
    (block : List ℕ) (physical : ℕ)
    → InRange t place
    → IsLabelled content t
    → IsLabelled (labelled_with content t place block) (create t place h parent block physical)
create-IsLabelled content t place h parent block physical range labelled =
    let t' = create t place h parent block physical in
    let content' = labelled_with content t place block in
    let l = path content place ++ block in
    create_level t place h parent block physical
      (λ q a. (a < t'.next_address) × (content' a ≡ path content' q ++ (t'.heap a).token_ids))
      (
        rw ((create_shape t place h parent block physical).0) (omega arith),
        update_at content t.next_address l
            ∙ ap₂ ◌++◌
                (sym (path_kept content t.next_address l place (InRange-Elsewhere t place range)))
                (sym (create_own_tokens t place h parent block physical)),
      )
      (λ q e.
        Entries-mono _ _ (level_of t q)
          (λ a k. (
            rw ((create_shape t place h parent block physical).0) (omega (arith, k.0)),
            update_before content t.next_address l a k.0
                ∙ k.1
                ∙ ap₂ ◌++◌ (sym (path_kept content t.next_address l q e))
                    (sym (create_tokens t place h parent block physical a k.0)),
          ))
          (labelled q))

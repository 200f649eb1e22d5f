-- ===== src/PrefixCache/Rounds.antt =====
-- One round of `RadixTrie.insert`: the loop's invariant, for a node found and for a node made.
use lightserve.Prelude.{
  ℕ, ◌+◌, ◌*◌, ◌≤◌, ◌<◌, ◌≡◌, refl, ap, sym, ◌∙◌, Option, none, some, List, [], ◌∷◌, ◌++◌, arith,
  update, length, take,
}
use lightserve.PrefixCache.{RadixTrie, block_at, create, touch}
use lightserve.PrefixCache.Labels.{IsLabelled, path, Follows, next_block}
use lightserve.PrefixCache.Shrinking.{Shrinks-IsLabelled, touch-Shrinks}
use lightserve.PrefixCache.Insertion.{
  InRange, labelled_with, create-IsLabelled, create_shape, update_at, update_before,
}

-- The nodes are among the first `n` objects.
abbrev pub Below : ℕ → List ℕ → Type 0
Below n [] = Unit
Below n (a ∷ nodes) = (a < n) × Below n nodes

Below-mono : (n m : ℕ) (nodes : List ℕ) → n ≤ m → Below n nodes → Below m nodes
Below-mono n m [] h k = tt
Below-mono n m (a ∷ nodes) h k = (omega (arith, k.0), Below-mono n m nodes h k.1)

Below-push : (n : ℕ) (nodes : List ℕ) (a : ℕ) → Below n nodes → a < n → Below n (nodes ++ a ∷ [])
Below-push n [] a h k = (k, tt)
Below-push n (b ∷ nodes) a h k = (h.0, Below-push n nodes a h.1 k)

Follows-agree :
    (content content' : ℕ → List ℕ) (n d : ℕ) (tokens : List ℕ) (i : ℕ) (nodes : List ℕ)
    → ((a : ℕ) → a < n → content' a ≡ content a)
    → Below n nodes
    → Follows content d tokens i nodes
    → Follows content' d tokens i nodes
Follows-agree content content' n d tokens i [] h k f = tt
Follows-agree content content' n d tokens i (a ∷ nodes) h k f =
    (h a k.0 ∙ f.0, Follows-agree content content' n d tokens (i + 1) nodes h k.1 f.1)

Follows-push :
    (content : ℕ → List ℕ) (d : ℕ) (tokens : List ℕ) (i : ℕ) (nodes : List ℕ) (a : ℕ)
    → Follows content d tokens i nodes
    → content a ≡ take ((i + length nodes + 1) * d) tokens
    → Follows content d tokens i (nodes ++ a ∷ [])
Follows-push content d tokens i [] a f e = (e ∙ ap (λ k. take (k * d) tokens) (omega arith), tt)
Follows-push content d tokens i (b ∷ nodes) a f e = (
  f.0,
  Follows-push content d tokens (i + 1) nodes a f.1
      (e ∙ ap (λ k. take (k * d) tokens) (omega arith)),
)

length_snoc : (nodes : List ℕ) (a : ℕ) → length (nodes ++ a ∷ []) ≡ length nodes + 1
length_snoc [] a = refl
length_snoc (b ∷ nodes) a = omega (arith, length_snoc nodes a)

-- The loop's invariant before round `i`.
pub record Ready (content : ℕ → List ℕ) (t : RadixTrie) (tokens : List ℕ) (i : ℕ) (place : Option ℕ)
    (nodes : List ℕ) : Type 0 where
  pub labelled : IsLabelled content t
  pub range : InRange t place
  pub at : path content place ≡ take (i * t.block_size) tokens
  pub follows : Follows content t.block_size tokens 0 nodes
  pub made : Below t.next_address nodes
  pub count : length nodes ≡ i

-- A round that finds node `a`.
pub found_Ready :
    (content : ℕ → List ℕ) (t : RadixTrie) (tokens : List ℕ) (i : ℕ) (place : Option ℕ)
    (nodes : List ℕ) (a : ℕ)
    → Ready content t tokens i place nodes
    → a < t.next_address
    → content a ≡ take ((i + 1) * t.block_size) tokens
    → Ready content (touch t a) tokens (i + 1) (some a) (nodes ++ a ∷ [])
unfolding touch
found_Ready content t tokens i place nodes a r k e = record {
  labelled = Shrinks-IsLabelled content t (touch t a) (touch-Shrinks t a) r.labelled;
  range = k;
  at = e;
  follows =
      Follows-push content t.block_size tokens 0 nodes a r.follows
        (e ∙ ap (λ k. take (k * t.block_size) tokens) (omega (arith, r.count)));
  made = Below-push t.next_address nodes a r.made k;
  count = omega (arith, length_snoc nodes a, r.count);
}

InRange-mono :
    (t t' : RadixTrie) (q : Option ℕ)
    → t.next_address ≤ t'.next_address
    → InRange t q
    → InRange t' q
InRange-mono t t' none h r = tt
InRange-mono t t' (some p) h r = omega (arith, r)

path_old :
    (content : ℕ → List ℕ) (t : RadixTrie) (l : List ℕ) (q : Option ℕ)
    → InRange t q
    → path (update content t.next_address l) q ≡ path content q
path_old content t l none r = refl
path_old content t l (some p) r = update_before content t.next_address l p r

-- A round that makes a node: the tree with the new node, before the hold on it.
made_Ready :
    (content : ℕ → List ℕ) (t : RadixTrie) (tokens : List ℕ) (i : ℕ) (place : Option ℕ)
    (nodes : List ℕ) (h : ℕ) (parent : Option ℕ) (block : List ℕ) (physical : ℕ)
    → Ready content t tokens i place nodes
    → Ready
        (labelled_with content t place block)
        (create t place h parent block physical)
        tokens
        i
        place
        nodes
made_Ready content t tokens i place nodes h parent block physical r =
    let t' = create t place h parent block physical in
    let content' = labelled_with content t place block in
    let l = path content place ++ block in
    let shape = create_shape t place h parent block physical in
    let grown : t.next_address ≤ t'.next_address = rw (shape.0) (omega arith) in
    record {
      labelled = create-IsLabelled content t place h parent block physical r.range r.labelled;
      range = InRange-mono t t' place grown r.range;
      at =
          path_old content t l place r.range ∙ r.at ∙ ap (λ d. take (i * d) tokens) (sym (shape.1));
      follows = rw (shape.1) (
          Follows-agree content content' t.next_address t.block_size tokens 0 nodes
            (update_before content t.next_address l) r.made r.follows);
      made = Below-mono t.next_address t'.next_address nodes grown r.made;
      count = r.count;
    }

-- … and after it.
pub created_Ready :
    (content : ℕ → List ℕ) (t : RadixTrie) (tokens : List ℕ) (i : ℕ) (place : Option ℕ)
    (nodes : List ℕ) (h : ℕ) (parent : Option ℕ) (physical : ℕ)
    → Ready content t tokens i place nodes
    → Ready
        (labelled_with content t place (block_at t.block_size tokens i))
        (touch (create t place h parent (block_at t.block_size tokens i) physical) t.next_address)
        tokens
        (i + 1)
        (some t.next_address)
        (nodes ++ t.next_address ∷ [])
created_Ready content t tokens i place nodes h parent physical r =
    let block = block_at t.block_size tokens i in
    let shape = create_shape t place h parent block physical in
    found_Ready (labelled_with content t place block) (create t place h parent block physical)
      tokens i place nodes t.next_address
      (made_Ready content t tokens i place nodes h parent block physical r)
      (rw (shape.0) (omega arith))
      (update_at content t.next_address (path content place ++ block)
        ∙ ap (λ l. l ++ block) r.at
        ∙ next_block t.block_size tokens i
        ∙ ap (λ d. take ((i + 1) * d) tokens) (sym (shape.1)))

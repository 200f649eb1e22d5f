-- ===== src/PrefixCache/Recording.antt =====
-- `RadixTrie.insert` as a whole: the loop keeps the labels, and its nodes follow the tokens.
use lightserve.Prelude.{
  ℕ, zero, suc, ◌+◌, ◌*◌, ◌-◌, ◌/◌, ◌≤◌, ◌<◌, ◌≡◌, refl, ap, ◌∙◌, Option, some, List, [], ◌∷◌, ◌++◌,
  arith, Bool-cases, Option-cases, inl, inr, ok, OnOk, OnOk-mono, length, take, eq_list, get_elem?,
  last?, leb, OnOk-use,
}
use lightserve.Prelude.Dict.{lookup, lookup-Entries}
use mathlib.Core.Option
use lightserve.PrefixCache.{
  RadixTrie, block_at, level_of, create, touch, insert_loop, insert_blocks,
}
use lightserve.PrefixCache.Labels.{IsLabelled, path, Follows, next_label}
use lightserve.PrefixCache.Shrinking.{Shrinks-IsLabelled, SameNodes-Shrinks}
use lightserve.PrefixCache.Rounds.{Ready, Below, found_Ready, created_Ready}
use lightserve.PrefixCache.Insertion.{labelled_with, create_shape, update_before}

-- What `insert` promises: the old nodes keep what they stand for, the tree is labelled, and the
-- nodes returned stand for the tokens' prefixes.
pub record Recorded (content : ℕ → List ℕ) (t : RadixTrie) (tokens : List ℕ)
    (p : RadixTrie × List ℕ) : Type 0 where
  pub content' : ℕ → List ℕ
  pub agrees : (a : ℕ) → a < t.next_address → content' a ≡ content a
  pub labelled : IsLabelled content' p.0
  pub follows : Follows content' t.block_size tokens 0 p.1

Ready-Recorded :
    (content : ℕ → List ℕ) (t : RadixTrie) (tokens : List ℕ) (i : ℕ) (place : Option ℕ)
    (nodes : List ℕ)
    → Ready content t tokens i place nodes
    → Recorded content t tokens (t, nodes)
Ready-Recorded content t tokens i place nodes r = record {
  content' = content;
  agrees = λ a h. refl;
  labelled = r.labelled;
  follows = r.follows;
}

-- The rest of the loop starts from a tree with more objects and an extended ghost.
Recorded-extend :
    (content content' : ℕ → List ℕ) (t t' : RadixTrie) (tokens : List ℕ) (p : RadixTrie × List ℕ)
    → t.next_address ≤ t'.next_address
    → t'.block_size ≡ t.block_size
    → ((a : ℕ) → a < t.next_address → content' a ≡ content a)
    → Recorded content' t' tokens p
    → Recorded content t tokens p
Recorded-extend content content' t t' tokens p h d agrees r = record {
  content' = r.content';
  agrees = λ a k. r.agrees a (omega (arith, h, k)) ∙ agrees a k;
  labelled = r.labelled;
  follows = rw d at r.follows;
}

found_extend :
    (content : ℕ → List ℕ) (t : RadixTrie) (tokens : List ℕ) (a : ℕ) (p : RadixTrie × List ℕ)
    → Recorded content (touch t a) tokens p
    → Recorded content t tokens p
unfolding touch
found_extend content t tokens a p r = record {
  content' = r.content';
  agrees = r.agrees;
  labelled = r.labelled;
  follows = r.follows;
}

created_extend :
    (content : ℕ → List ℕ) (t : RadixTrie) (tokens : List ℕ) (place : Option ℕ) (h : ℕ)
    (parent : Option ℕ) (block : List ℕ) (b : ℕ) (p : RadixTrie × List ℕ)
    → Recorded
        (labelled_with content t place block)
        (touch (create t place h parent block b) t.next_address)
        tokens
        p
    → Recorded content t tokens p
created_extend content t tokens place h parent block b p r =
    let t' = create t place h parent block b in
    let shape = create_shape t place h parent block b in
    Recorded-extend content (labelled_with content t place block) t t' tokens p
      (rw (shape.0) (omega arith)) (shape.1)
      (update_before content t.next_address (path content place ++ block))
      (found_extend (labelled_with content t place block) t' tokens t.next_address p r)

insert_loop-Recorded :
    (content : ℕ → List ℕ) (t : RadixTrie) (tokens physical : List ℕ) (n i : ℕ)
    (parent place : Option ℕ) (nodes : List ℕ)
    → Ready content t tokens i place nodes
    → OnOk (Recorded content t tokens) (insert_loop t tokens physical n i parent place nodes)
unfolding insert_loop
insert_loop-Recorded content t tokens physical zero i parent place nodes r =
    Ready-Recorded content t tokens i place nodes r
insert_loop-Recorded content t tokens physical (suc n) i parent place nodes r =
    let block = block_at t.block_size tokens i in
    let h = t.hash_fn parent block in
    elim (Option-cases (lookup h (level_of t place))) [
      | inr (a, e) ↦ elim (Bool-cases (eq_list (t.heap a).token_ids block)) [
        | inl f ↦
            rw (e, insert_loop)
              (rw f (
                OnOk-mono _ _
                  (insert_loop (touch t a) tokens physical n (i + 1) (some h) (some a)
                    (nodes ++ a ∷ []))
                  (λ p k. found_extend content t tokens a p k)
                  (insert_loop-Recorded content (touch t a) tokens physical n (i + 1) (some h)
                    (some a) (nodes ++ a ∷ [])
                    (found_Ready content t tokens i place nodes a r
                      (lookup-Entries _ h (level_of t place) a (r.labelled place) e).0
                      (next_label content t tokens r.labelled i place r.at h a e f)))))
        | inr f ↦ rw (e, insert_loop) (rw f (Ready-Recorded content t tokens i place nodes r))
      ]
      | inl e ↦ elim (Option-cases (get_elem? physical i)) [
        | inl f ↦ rw (e, insert_loop) (rw f tt)
        | inr (b, f) ↦
            rw (e, insert_loop)
              (rw f (
                OnOk-mono _ _
                  (insert_loop (touch (create t place h parent block b) t.next_address) tokens
                    physical n (i + 1) (some h) (some t.next_address)
                    (nodes ++ t.next_address ∷ []))
                  (λ p k. created_extend content t tokens place h parent block b p k)
                  (insert_loop-Recorded (labelled_with content t place block)
                    (touch (create t place h parent block b) t.next_address) tokens physical n
                    (i + 1) (some h) (some t.next_address) (nodes ++ t.next_address ∷ [])
                    (created_Ready content t tokens i place nodes h parent b r))))
      ]
    ]

last_node :
    (content : ℕ → List ℕ) (d n : ℕ) (tokens : List ℕ) (i : ℕ) (a : ℕ) (nodes : List ℕ)
    → Follows content d tokens i (a ∷ nodes)
    → Below n (a ∷ nodes)
    → (b : ℕ) × (last? (a ∷ nodes) ≡ some b)
      × (b < n)
      × (content b ≡ take ((i + length (a ∷ nodes)) * d) tokens)
last_node content d n tokens i a [] f k = (a, refl, k.0, f.0)
last_node content d n tokens i a (b ∷ nodes) f k =
    let (c, e, l, g) = last_node content d n tokens (i + 1) b nodes f.1 k.1 in
    (c, e, l, g ∙ ap (λ k. take (k * d) tokens) (omega arith))

pub Follows-take :
    (content : ℕ → List ℕ) (d : ℕ) (tokens : List ℕ) (i n : ℕ) (nodes : List ℕ)
    → Follows content d tokens i nodes
    → Follows content d tokens i (take n nodes)
Follows-take content d tokens i zero nodes f = tt
Follows-take content d tokens i (suc n) [] f = tt
Follows-take content d tokens i (suc n) (a ∷ nodes) f =
    (f.0, Follows-take content d tokens (i + 1) n nodes f.1)

-- The invariant before the first round, which starts below the known nodes.
known_Ready :
    (content : ℕ → List ℕ) (t : RadixTrie) (tokens known : List ℕ)
    → IsLabelled content t
    → Follows content t.block_size tokens 0 known
    → Below t.next_address known
    → Ready content t tokens (length known) (last? known) known
known_Ready content t tokens [] labelled f k = record {
  labelled = labelled;
  range = tt;
  at = ap (λ k. take k tokens) (zero_rounds t.block_size);
  follows = tt;
  made = tt;
  count = refl;
}
  where
    zero_rounds : (d : ℕ) → 0 ≡ 0 * d
    zero_rounds d = omega arith
known_Ready content t tokens (a ∷ nodes) labelled f k =
    let (b, e, l, g) = last_node content t.block_size t.next_address tokens 0 a nodes f k in
    record {
      labelled = labelled;
      range = rw e l;
      at = rw e (g ∙ ap (λ k. take (k * t.block_size) tokens) (plus_zero (length (a ∷ nodes))));
      follows = f;
      made = k;
      count = refl;
    }
  where
    plus_zero : (n : ℕ) → 0 + n ≡ n
    plus_zero n = omega arith

tick-IsLabelled :
    (content : ℕ → List ℕ) (t : RadixTrie) (clock : ℕ)
    → IsLabelled content t
    → IsLabelled content (record t { clock = clock })
tick-IsLabelled content t clock labelled =
    Shrinks-IsLabelled content t _ (SameNodes-Shrinks t _ refl refl refl (λ a. (refl, refl)))
      labelled

insert_blocks-OnOk :
    (content : ℕ → List ℕ) (t : RadixTrie) (tokens physical : List ℕ) (num_computed : ℕ)
    (known : List ℕ)
    → IsLabelled content t
    → Follows content t.block_size tokens 0 known
    → Below t.next_address known
    → OnOk (Recorded content t tokens) (insert_blocks t tokens physical num_computed known)
unfolding insert_blocks
insert_blocks-OnOk content t tokens physical num_computed known labelled f k =
    let n = num_computed / t.block_size in
    elim (Bool-cases (leb n (length known))) [
      | inl e ↦ rw e (record {
        content' = content;
        agrees = λ a h. refl;
        labelled = labelled;
        follows = Follows-take content t.block_size tokens 0 n known f;
      })
      | inr e ↦
          let t' : RadixTrie = record t { clock = t.clock + 1 } in
          let parent = Option.map (λ a. (t.heap a).block_hash) (last? known) in
          rw e (
            OnOk-mono _ _
              (insert_loop t' tokens physical (n - length known) (length known) parent (last? known)
                known)
              (λ p r. record {
                content' = r.content';
                agrees = r.agrees;
                labelled = r.labelled;
                follows = r.follows;
              })
              (insert_loop-Recorded content t' tokens physical (n - length known) (length known)
                parent (last? known) known
                (known_Ready content t' tokens known
                  (tick-IsLabelled content t (t.clock + 1) labelled) f k)))
    ]

-- `insert` keeps the tree right: from a tree whose nodes stand for what `content` says and known nodes
-- that stand for the first blocks of the tokens, there are contents that agree with `content` on
-- every old node, by which the new tree is labelled and the nodes returned stand for the tokens'
-- first blocks, whatever the hash function does.
pub insert_blocks-Recorded :
    (content : ℕ → List ℕ) (t : RadixTrie) (tokens physical : List ℕ) (num_computed : ℕ)
    (known : List ℕ) (p : RadixTrie × List ℕ)
    → IsLabelled content t
    → Follows content t.block_size tokens 0 known
    → Below t.next_address known
    → insert_blocks t tokens physical num_computed known ≡ ok p
    → Recorded content t tokens p
insert_blocks-Recorded content t tokens physical num_computed known p labelled f k e =
    OnOk-use _ (insert_blocks t tokens physical num_computed known)
      (insert_blocks-OnOk content t tokens physical num_computed known labelled f k) e

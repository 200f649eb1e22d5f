-- ===== src/PrefixCache/Holding.antt =====
-- Reference counts: what `acquire` adds, `release` takes back.
use lightserve.Prelude.{
  ℕ, ◌+◌, ◌-◌, ◌≤◌, ◌<◌, ◌≡◌, refl, List, [], ◌∷◌, arith, update, ◌==◌, eq_sound, leb, leb_gt,
  leb_pos, count, Bool-cases, inl, inr, ok, err, value_error,
}
use lightserve.PrefixCache.{
  TrieNode, RadixTrie, PrefixMatch, hold, held, acquire, drop_holds, release,
}

hold-ref_count :
    (clock : ℕ) (heap : ℕ → TrieNode) (nodes : List ℕ) (a : ℕ)
    → (hold clock heap nodes a).ref_count ≡ (heap a).ref_count + count a nodes
unfolding hold count
hold-ref_count clock heap [] a = omega arith
hold-ref_count clock heap (b ∷ nodes) a =
    ground (arith, hold-ref_count clock (update heap b (held clock (heap b))) nodes a)

-- A release that ends well: every count is down by the number of times the node was named.
abbrev Dropped : (ℕ → TrieNode) → List ℕ → Type 0
Dropped heap nodes =
    (heap' : ℕ → TrieNode) × (drop_holds heap nodes ≡ ok heap')
    × ((a : ℕ) → (heap' a).ref_count + count a nodes ≡ (heap a).ref_count)

abbrev unheld : TrieNode → TrieNode
unheld n = record n { ref_count = n.ref_count - 1 }

one_less :
    (heap : ℕ → TrieNode) (b : ℕ) (nodes : List ℕ)
    → ((a : ℕ) → count a (b ∷ nodes) ≤ (heap a).ref_count)
    → (a : ℕ) → count a nodes ≤ (update heap b (unheld (heap b)) a).ref_count
unfolding count
one_less heap b nodes h a = ground (arith, h a)

count_own : (b : ℕ) (nodes : List ℕ) → 0 < count b (b ∷ nodes)
unfolding count
count_own b nodes = ground arith

refs_step :
    (heap : ℕ → TrieNode) (b : ℕ) (nodes : List ℕ) (heap' : ℕ → TrieNode)
    → ((a : ℕ)
        → (heap' a).ref_count + count a nodes ≡ (update heap b (unheld (heap b)) a).ref_count)
    → count b (b ∷ nodes) ≤ (heap b).ref_count
    → (a : ℕ) → (heap' a).ref_count + count a (b ∷ nodes) ≡ (heap a).ref_count
unfolding count
refs_step heap b nodes heap' refs h a = elim (Bool-cases (a == b)) [
  | inl e ↦ ground (arith, refs a, count_own b nodes, eq_sound a b e)
  | inr e ↦ ground (arith, refs a)
]

drop_holds-Dropped :
    (heap : ℕ → TrieNode) (nodes : List ℕ)
    → ((a : ℕ) → count a nodes ≤ (heap a).ref_count)
    → Dropped heap nodes
unfolding drop_holds count
drop_holds-Dropped heap [] h = (heap, refl, λ a. omega arith)
drop_holds-Dropped heap (b ∷ nodes) h =
    let heap₁ = update heap b (unheld (heap b)) in
    let (heap', e, refs) = drop_holds-Dropped heap₁ nodes (one_less heap b nodes h) in
    (
      heap',
      rw (leb_pos (heap b).ref_count (omega (arith, h b, count_own b nodes))) e,
      λ a. refs_step heap b nodes heap' refs (h b) a,
    )

-- Acquiring a match and releasing its nodes never fails, even where the match names a node twice, and
-- leaves every reference count of the tree as it was.
pub release-acquire :
    (t : RadixTrie) (m : PrefixMatch) (num_lookup_tokens : ℕ)
    → (t' : RadixTrie) × (release (acquire t m num_lookup_tokens) m.nodes ≡ ok t')
      × ((a : ℕ) → (t'.heap a).ref_count ≡ (t.heap a).ref_count)
unfolding release acquire
release-acquire t m n =
    let counts = hold-ref_count (t.clock + 1) t.heap m.nodes in
    let t₁ = acquire t m n in
    let (heap', e, refs) = drop_holds-Dropped t₁.heap m.nodes (λ a. omega (arith, counts a)) in
    (record t₁ { heap = heap' }, rw e refl, λ a. omega (arith, refs a, counts a))

still_over :
    (heap : ℕ → TrieNode) (b : ℕ) (nodes : List ℕ) (a : ℕ)
    → (heap a).ref_count < count a (b ∷ nodes)
    → 0 < (heap b).ref_count
    → (update heap b (unheld (heap b)) a).ref_count < count a nodes
unfolding count
still_over heap b nodes a h pos = elim (Bool-cases (a == b)) [
  | inl e ↦ ground (arith, eq_sound a b e)
  | inr e ↦ ground arith
]

drop_holds-over :
    (heap : ℕ → TrieNode) (nodes : List ℕ) (a : ℕ)
    → (heap a).ref_count < count a nodes
    → drop_holds heap nodes ≡ err value_error
unfolding drop_holds count
drop_holds-over heap [] a h = absurd (omega (arith, h))
drop_holds-over heap (b ∷ nodes) a h = elim (Bool-cases (leb (heap b).ref_count 0)) [
  | inl e ↦ rw e refl
  | inr e ↦ rw e (
      drop_holds-over (update heap b (unheld (heap b))) nodes a
        (still_over heap b nodes a h (leb_gt _ _ e)))
]

-- `release` raises `ValueError` exactly when it is asked to give back more holds on some node than
-- there are: with enough holds on every node it succeeds and takes off exactly those that were named,
-- and with too few on one node it raises.
pub release_exact :
    (t : RadixTrie) (nodes : List ℕ)
    → (((a : ℕ) → count a nodes ≤ (t.heap a).ref_count)
        → (t' : RadixTrie) × (release t nodes ≡ ok t')
          × ((a : ℕ) → (t'.heap a).ref_count + count a nodes ≡ (t.heap a).ref_count))
      × ((a : ℕ) → (t.heap a).ref_count < count a nodes → release t nodes ≡ err value_error)
unfolding release
release_exact t nodes = (
  λ enough.
      let (heap', e, refs) = drop_holds-Dropped t.heap nodes enough in
      (record t { heap = heap' }, rw e refl, refs),
  λ a over. rw (drop_holds-over t.heap nodes a over) refl,
)

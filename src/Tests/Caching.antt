-- ===== src/Tests/Caching.antt =====
-- The tree's theorems at concrete inputs: two blocks of one prompt, inserted, matched and evicted.
use lightserve.Prelude.{
  ℕ, ◌+◌, ◌*◌, ◌≡◌, refl, Option, none, some, List, [], ◌∷◌, take, count, ok, err, value_or,
  value_error, elem, arith, false, elem_cons, subst, sym, eq_sound, Bool-cases, inl, inr, ◌==◌,
  true, ◌≤◌, ◌<◌,
}
use lightserve.Prelude.Dict.{lookup, values, IsDict}
use lightserve.Samples.{sample_hash, program}
use lightserve.PrefixCache.{
  RadixTrie, new_trie, match, acquire, release, insert_blocks, evict_one_lru, level_of,
}
use lightserve.PrefixCache.Labels.{IsLabelled, Follows, match-Follows}
use lightserve.PrefixCache.Recording.{Recorded, insert_blocks-Recorded}
use lightserve.PrefixCache.Holding.{release-acquire, release_exact}
use lightserve.PrefixCache.Removal.{Hangs, IsConsistent}
use lightserve.PrefixCache.Eviction.{Outcome, evict_one_lru_lem}
use lightserve.PrefixCache.Sharing.{TrieReach, here, next, inserts, TrieReach-shared}

abbrev empty : RadixTrie
empty = new_trie 4 sample_hash

abbrev prompt : List ℕ
prompt = 5 ∷ 6 ∷ 7 ∷ 8 ∷ 9 ∷ 10 ∷ 11 ∷ 12 ∷ []

abbrev longer : List ℕ
longer = 5 ∷ 6 ∷ 7 ∷ 8 ∷ 9 ∷ 10 ∷ 11 ∷ 12 ∷ 13 ∷ []

abbrev blocks : List ℕ
blocks = 30 ∷ 31 ∷ []

abbrev inserted : RadixTrie × List ℕ
inserted = value_or (insert_blocks empty prompt blocks 8 []) (empty, [])

insert_runs : insert_blocks empty prompt blocks 8 [] ≡ ok inserted
unfolding program
insert_runs = refl

no_content : ℕ → List ℕ
no_content a = []

empty-IsLabelled : IsLabelled no_content empty
unfolding new_trie level_of
empty-IsLabelled = elim [ none ↦ tt | some p ↦ tt ]

recorded : Recorded no_content empty prompt inserted
recorded =
    insert_blocks-Recorded no_content empty prompt blocks 8 [] inserted empty-IsLabelled tt tt
      insert_runs

insert_blocks-Recorded_example : Recorded no_content empty prompt inserted
insert_blocks-Recorded_example =
    insert_blocks-Recorded no_content empty prompt blocks 8 [] inserted empty-IsLabelled tt tt
      insert_runs

matched_longer : (match inserted.0 longer).nodes ≡ 0 ∷ 1 ∷ []
unfolding program
matched_longer = refl

match-Follows_example :
    Follows recorded.content' (inserted.0).block_size longer 0 (match inserted.0 longer).nodes
match-Follows_example = match-Follows recorded.content' inserted.0 longer recorded.labelled

reached : TrieReach empty inserted.0
unfolding program
reached = next here (inserts prompt blocks (0 ∷ 1 ∷ []) 8 0 refl)

TrieReach-shared_example :
    take ((1 + 1) * (inserted.0).block_size) longer
    ≡ take ((1 + 1) * (inserted.0).block_size) prompt
unfolding program
TrieReach-shared_example =
    TrieReach-shared 4 sample_hash inserted.0 longer prompt 1 1 reached refl refl

release-acquire_example :
    (t' : RadixTrie) × (release
        (acquire inserted.0 (match inserted.0 longer) 9)
        (match inserted.0 longer).nodes
      ≡ ok t')
    × ((a : ℕ) → (t'.heap a).ref_count ≡ ((inserted.0).heap a).ref_count)
release-acquire_example = release-acquire inserted.0 (match inserted.0 longer) 9

release_exact_example :
    (((a : ℕ) → count a (0 ∷ 0 ∷ []) ≤ ((inserted.0).heap a).ref_count)
      → (t' : RadixTrie) × (release inserted.0 (0 ∷ 0 ∷ []) ≡ ok t')
        × ((a : ℕ)
            → (t'.heap a).ref_count + count a (0 ∷ 0 ∷ []) ≡ ((inserted.0).heap a).ref_count))
    × ((a : ℕ)
        → ((inserted.0).heap a).ref_count < count a (0 ∷ 0 ∷ [])
        → release inserted.0 (0 ∷ 0 ∷ []) ≡ err value_error)
release_exact_example = release_exact inserted.0 (0 ∷ 0 ∷ [])

abbrev unused : RadixTrie
unused = value_or (release inserted.0 (0 ∷ 1 ∷ [])) empty

abbrev evicted : Option ℕ × RadixTrie
evicted = value_or (evict_one_lru unused) (none, empty)

evict_runs : evict_one_lru unused ≡ ok evicted
unfolding program
evict_runs = refl

evicted_block : evicted.0 ≡ some 31
unfolding program
evicted_block = refl

one_entry : (h a : ℕ) → lookup h unused.by_hash ≡ some a → ((unused.heap) a).block_hash ≡ h
unfolding program
one_entry h a e = ground arith

no_children : (q : ℕ) → (q == 1) ≡ false → (q == 0) ≡ false → level_of unused (some q) ≡ []
unfolding program
no_children q e f = ground arith

unused_levels : (place : Option ℕ) → IsDict (level_of unused place)
unfolding program
unused_levels none = (refl, tt)
unused_levels (some q) = elim (Bool-cases (q == 1)) [
  | inl e ↦ subst (λ x. IsDict (level_of unused (some x))) (sym (eq_sound q 1 e)) tt
  | inr e ↦ elim (Bool-cases (q == 0)) [
    | inl f ↦ subst (λ x. IsDict (level_of unused (some x))) (sym (eq_sound q 0 f)) (refl, tt)
    | inr f ↦ subst IsDict (sym (no_children q e f)) tt
  ]
]

unused-Hangs :
    (a : ℕ) → elem a (values unused.by_hash) ≡ true → (place : Option ℕ) × Hangs unused a place
unfolding program
unused-Hangs a h = elim (elem_cons a 0 (1 ∷ []) h) [
  | inl e ↦ subst (λ x. (place : Option ℕ) × Hangs unused x place) (sym e) (none, (refl, refl))
  | inr k ↦ elim (elem_cons a 1 [] k) [
    | inl e ↦
        subst (λ x. (place : Option ℕ) × Hangs unused x place) (sym e)
          (some 0, (6650377, refl, refl, refl))
    | inr none_left ↦ ground arith
  ]
]

unused-IsConsistent : IsConsistent unused
unfolding program
unused-IsConsistent = record {
  index_dict = (refl, (refl, tt));
  level_dicts = unused_levels;
  index_keys = one_entry;
  hanging = unused-Hangs;
}

evict_one_lru_example : Outcome unused
evict_one_lru_example = evict_one_lru_lem unused unused-IsConsistent

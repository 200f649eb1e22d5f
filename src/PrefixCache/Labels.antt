-- ===== src/PrefixCache/Labels.antt =====
-- Which tokens each cached block stands for. `content a` is the whole prefix of tokens whose keys and
-- values node `a`'s block holds: it is fixed when the node is made, and a ghost, not a field.
use lightserve.Prelude.{
  ℕ, zero, suc, ◌+◌, ◌*◌, ◌/◌, ◌<◌, ◌≡◌, ap, ap₂, ◌∙◌, true, Option, none, some, List, [], ◌∷◌,
  ◌++◌, arith, length, take, take_slices, eq_list, eq_list_sound, Bool-cases, Option-cases, inl,
  inr,
}
use lightserve.Prelude.Dict.{lookup, Entries, lookup-Entries}
use lightserve.PrefixCache.{RadixTrie, block_at, walk, match, level_of}

-- The tokens that the path to a level has read.
abbrev pub path : (ℕ → List ℕ) → Option ℕ → List ℕ
path content none = []
path content (some p) = content p

-- Each node of each level stands for its parent's tokens followed by its own block.
abbrev pub IsLabelled : (ℕ → List ℕ) → RadixTrie → Type 0
IsLabelled content t =
    (place : Option ℕ)
    → Entries (λ a. (a < t.next_address) × (content a ≡ path content place ++ (t.heap a).token_ids))
        (level_of t place)

-- The nodes stand for the prefixes of `i + 1`, `i + 2`, … blocks of the tokens.
abbrev pub Follows : (ℕ → List ℕ) → ℕ → List ℕ → ℕ → List ℕ → Type 0
Follows content block_size tokens i [] = Unit
Follows content block_size tokens i (a ∷ nodes) =
    (content a ≡ take ((i + 1) * block_size) tokens)
    × Follows content block_size tokens (i + 1) nodes

pub next_block :
    (block_size : ℕ) (tokens : List ℕ) (i : ℕ)
    → take (i * block_size) tokens ++ block_at block_size tokens i
      ≡ take ((i + 1) * block_size) tokens
unfolding block_at
next_block block_size tokens i =
    take_slices (i * block_size) block_size tokens ∙ ap (λ k. take k tokens) (grind arith)

pub next_label :
    (content : ℕ → List ℕ) (t : RadixTrie) (tokens : List ℕ)
    → IsLabelled content t
    → (i : ℕ) (place : Option ℕ) → path content place ≡ take (i * t.block_size) tokens
    → (hash a : ℕ) → lookup hash (level_of t place) ≡ some a
    → eq_list (t.heap a).token_ids (block_at t.block_size tokens i) ≡ true
    → content a ≡ take ((i + 1) * t.block_size) tokens
next_label content t tokens labelled i place h hash a e f =
    (lookup-Entries _ hash (level_of t place) a (labelled place) e).1
    ∙ ap₂ ◌++◌ h (eq_list_sound _ _ f)
    ∙ next_block t.block_size tokens i

walk-Follows :
    (content : ℕ → List ℕ) (t : RadixTrie) (tokens : List ℕ)
    → IsLabelled content t
    → (n i : ℕ) (parent place : Option ℕ) → path content place ≡ take (i * t.block_size) tokens
    → Follows content t.block_size tokens i (walk t tokens n i parent (level_of t place))
unfolding walk level_of
walk-Follows content t tokens labelled zero i parent place h = tt
walk-Follows content t tokens labelled (suc n) i parent place h =
    let block = block_at t.block_size tokens i in
    let hash = t.hash_fn parent block in
    elim (Option-cases (lookup hash (level_of t place))) [
      | inl e ↦ rw (e, walk) tt
      | inr (a, e) ↦ elim (Bool-cases (eq_list (t.heap a).token_ids block)) [
        | inr f ↦ rw (e, walk) (rw f tt)
        | inl f ↦
            let label = next_label content t tokens labelled i place h hash a e f in
            rw (e, walk)
              (rw f (
                label,
                walk-Follows content t tokens labelled n (i + 1) (some hash) (some a) label,
              ))
      ]
    ]

-- A match is sound whatever the hash function does: the block that it reuses for the prompt's
-- block `i` was made for exactly the prompt's first `i + 1` blocks of tokens.
pub match-Follows :
    (content : ℕ → List ℕ) (t : RadixTrie) (tokens : List ℕ)
    → IsLabelled content t
    → Follows content t.block_size tokens 0 (match t tokens).nodes
unfolding match level_of
match-Follows content t tokens labelled =
    walk-Follows content t tokens labelled (length tokens / t.block_size) 0 none none
      (ap (λ k. take k tokens) start)
  where
    start : 0 ≡ 0 * t.block_size
    start = omega arith

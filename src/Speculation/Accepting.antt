-- ===== src/Speculation/Accepting.antt =====
-- Speculative decoding commits what plain greedy decoding would have.
use mathlib.Core.List.{append_assoc}
use mathlib.Core.Option.{Option}
use lightserve.Prelude.{
  ℕ, zero, suc, ◌≤◌, ◌≡◌, refl, ap, ◌∙◌, List, [], ◌∷◌, ◌++◌, arith, ◌==◌, eq_sound, length, last?,
  init, Bool-cases, inl, inr, Result, ok,
}
use lightserve.Speculation.{accept_loop, accept_reject, conclude}

-- `greedy tokens` is the model's best next token behind the tokens. The rows for a context and its
-- drafts: each draft's row is computed behind the drafts before it, and the last behind all of them.
unfoldable pub rows_of : (List ℕ → ℕ) → List ℕ → List ℕ → List ℕ
rows_of greedy context [] = greedy context ∷ []
rows_of greedy context (d ∷ drafts) = greedy context ∷ rows_of greedy (context ++ d ∷ []) drafts

-- Plain decoding: `n` tokens, each decoded behind all before it.
unfoldable pub decode : (List ℕ → ℕ) → List ℕ → ℕ → List ℕ
decode greedy context zero = []
decode greedy context (suc n) = greedy context ∷ decode greedy (context ++ greedy context ∷ []) n

-- What is committed, past `before`: a nonempty run of plain decoding, of one more than the drafts at
-- most.
abbrev pub Commits : (List ℕ → ℕ) → List ℕ → List ℕ → List ℕ → Result (List ℕ) → Type 0
Commits greedy context drafts before r =
    (n : ℕ) × (r ≡ ok (before ++ decode greedy context (suc n))) × (n ≤ length drafts)

init_rows :
    (greedy : List ℕ → ℕ) (context : List ℕ) (d : ℕ) (drafts : List ℕ)
    → init (rows_of greedy context (d ∷ drafts))
      ≡ greedy context ∷ init (rows_of greedy (context ++ d ∷ []) drafts)
unfolding rows_of
init_rows greedy context d [] = refl
init_rows greedy context d (e ∷ drafts) = refl

last_rows :
    (greedy : List ℕ → ℕ) (context : List ℕ) (d : ℕ) (drafts : List ℕ)
    → last? (rows_of greedy context (d ∷ drafts))
      ≡ last? (rows_of greedy (context ++ d ∷ []) drafts)
unfolding rows_of
last_rows greedy context d [] = refl
last_rows greedy context d (e ∷ drafts) = refl

loop-Commits :
    (greedy : List ℕ → ℕ) (context drafts before rows : List ℕ) (bonus : Option ℕ)
    → rows ≡ init (rows_of greedy context drafts)
    → bonus ≡ last? (rows_of greedy context drafts)
    → Commits greedy context drafts before (conclude bonus (accept_loop drafts rows before))
unfolding accept_loop decode rows_of
loop-Commits greedy context [] before rows bonus p q = rw q (0, refl, omega arith)
loop-Commits greedy context (d ∷ drafts) before rows bonus p q =
    rw (p ∙ init_rows greedy context d drafts) (elim (Bool-cases (d == greedy context)) [
      | inl e ↦ rw e (
          longer (eq_sound d (greedy context) e) (
            loop-Commits greedy (context ++ d ∷ []) drafts (before ++ greedy context ∷ []) _ bonus
              refl (q ∙ last_rows greedy context d drafts)))
      | inr e ↦ rw e (0, refl, omega arith)
    ])
  where
    longer :
        {r : Result (List ℕ)}
        → d ≡ greedy context
        → Commits greedy (context ++ d ∷ []) drafts (before ++ greedy context ∷ []) r
        → Commits greedy context (d ∷ drafts) before r
    longer q (n, e, l) = (
      suc n,
      e
          ∙ ap ok (
              append_assoc before (greedy context ∷ []) (decode greedy (context ++ d ∷ []) (suc n)))
          ∙ ap (λ t. ok (before ++ greedy context ∷ decode greedy (context ++ t ∷ []) (suc n))) q,
      omega (arith, l),
    )

-- Speculative decoding is plain greedy decoding: where the rows are the model's best tokens behind
-- the context and the drafts before each row, `_accept_reject` succeeds, and what it commits is what
-- plain decoding would give next, at least one token and at most one more than the drafts, whatever
-- the drafts are.
pub accept_reject-decode :
    (greedy : List ℕ → ℕ) (context drafts : List ℕ)
    → Commits greedy context drafts [] (accept_reject drafts (rows_of greedy context drafts))
unfolding accept_reject
accept_reject-decode greedy context drafts = loop-Commits greedy context drafts [] _ _ refl refl

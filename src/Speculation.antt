-- ===== src/Speculation.antt =====
-- model/model_runner.py: `_accept_reject`, the rule by which speculative decoding commits tokens. The
-- rows of the forward pass, one token for each, are inputs here.
pub mod Accepting
use lightserve.Prelude.{
  ℕ, Bool, Option, true, false, List, [], ◌∷◌, ◌++◌, ◌==◌, if◌then◌else◌, last?, init, Result, ok,
  index_error, or_raise, ◌>>=◌,
}

-- The loop, over the pairs of `zip`: what is committed, and whether it returned.
unfoldable pub accept_loop : List ℕ → List ℕ → List ℕ → List ℕ × Bool
accept_loop [] rows committed = (committed, false)
accept_loop (d ∷ drafts) [] committed = (committed, false)
accept_loop (d ∷ drafts) (t ∷ rows) committed =
    let rest = accept_loop drafts rows (committed ++ t ∷ []) in
    if d == t then rest else (committed ++ t ∷ [], true)

-- Behind the loop: `committed.append(row_tokens[-1])`, unless the loop returned.
abbrev pub conclude : Option ℕ → List ℕ × Bool → Result (List ℕ)
conclude bonus (committed, true) = ok committed
conclude bonus (committed, false) = do t ← or_raise bonus index_error; ok (committed ++ t ∷ [])

-- `_accept_reject`
unfoldable pub accept_reject : List ℕ → List ℕ → Result (List ℕ)
unfolding accept_loop
accept_reject drafts rows = conclude (last? rows) (accept_loop drafts (init rows) [])

-- ===== src/Tests/Speculating.antt =====
-- Speculative decoding at a concrete model: the best next token is the number of tokens so far.
use lightserve.Prelude.{
  ℕ, ◌≡◌, refl, List, [], ◌∷◌, length, ok, ◌+◌, ◌≤◌, false, none, value_or, leb, if◌then◌else◌,
  arith,
}
use lightserve.Samples.{greedy, sample_hash, program}
use lightserve.Request.{Request, new_request, get_len}
use lightserve.BlockManager.{BlockManager, new_manager, allocate}
use lightserve.DraftProposer.{shadow_of, extend_table, cover_shadow, execute, draft_loop, roll_back}
use lightserve.DraftProposer.Resync.{draft_loop-roll_back}
use lightserve.Correction.{commit, first_stop, trim, correct}
use lightserve.Correction.Stopping.{one_by_one}
use lightserve.Correction.Cutting.{correct-one_by_one}
use lightserve.Speculation.{accept_loop, accept_reject}
use lightserve.Speculation.Accepting.{rows_of, Commits, accept_reject-decode}

abbrev by_length : List ℕ → ℕ
by_length = λ l. length l

-- The second draft is wrong, and is replaced.
second_wrong : accept_reject (1 ∷ 9 ∷ []) (1 ∷ 2 ∷ 3 ∷ []) ≡ ok (1 ∷ 2 ∷ [])
unfolding accept_reject accept_loop
second_wrong = refl

accept_reject-decode_example :
    Commits by_length
      (5 ∷ [])
      (1 ∷ 9 ∷ [])
      []
      (accept_reject (1 ∷ 9 ∷ []) (rows_of by_length (5 ∷ []) (1 ∷ 9 ∷ [])))
accept_reject-decode_example = accept_reject-decode by_length (5 ∷ []) (1 ∷ 9 ∷ [])

abbrev one : Request
one = new_request 1 (5 ∷ []) (greedy 3)

-- The second of four committed tokens is the end of sequence: it and the first are kept.
second_ends : (correct (commit one (4 ∷ 2 ∷ 9 ∷ 8 ∷ [])) 0 4).output_token_ids ≡ 4 ∷ 2 ∷ []
unfolding program correct commit trim first_stop
second_ends = refl

correct-one_by_one_example :
    ((correct (commit one (4 ∷ 2 ∷ 9 ∷ 8 ∷ [])) 0 4).output_token_ids
      ≡ (one_by_one one (4 ∷ 2 ∷ 9 ∷ 8 ∷ [])).output_token_ids)
    × ((correct (commit one (4 ∷ 2 ∷ 9 ∷ 8 ∷ [])) 0 4).status
        ≡ (one_by_one one (4 ∷ 2 ∷ 9 ∷ 8 ∷ [])).status)
unfolding program
correct-one_by_one_example = correct-one_by_one one (4 ∷ 2 ∷ 9 ∷ []) 8 4 refl

-- A draft model's own pool, and a round of two drafts behind one prompt token.
abbrev draft_pool : BlockManager
draft_pool = new_manager sample_hash 4 8 0 false

abbrev drawn : Request → ℕ
drawn = λ r. length r.output_token_ids + 7

abbrev shadowed : BlockManager × Request
shadowed = value_or (allocate draft_pool (shadow_of one) none) (draft_pool, one)

abbrev drafted : BlockManager × Request × List ℕ
drafted = value_or (draft_loop drawn 2 shadowed.0 shadowed.1 []) (draft_pool, one, [])

drafted_runs : draft_loop drawn 2 shadowed.0 shadowed.1 [] ≡ ok drafted
unfolding program draft_loop cover_shadow extend_table execute
drafted_runs = refl

drafted_tokens : drafted.2 ≡ 7 ∷ 8 ∷ []
unfolding program draft_loop cover_shadow extend_table execute
drafted_tokens = refl

shadowed_within : (shadowed.1).num_computed_tokens ≤ get_len shadowed.1
unfolding program
shadowed_within = omega arith

draft_loop-roll_back_example :
    (roll_back 2 drafted.1 1).num_computed_tokens + (if leb 1 2 then 1 else 2)
    ≡ get_len shadowed.1 + 1
draft_loop-roll_back_example =
    draft_loop-roll_back drawn 2 1 shadowed.0 drafted.0 shadowed.1 drafted.1 drafted.2
      shadowed_within (omega arith) (omega arith) (omega arith) drafted_runs

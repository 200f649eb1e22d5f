-- ===== src/Correction.antt =====
-- model/llm_engine.py: what `step` corrects for a request behind a speculative round, and the commit
-- of model/model_runner.py's `execute_model` that it corrects.
pub mod Stopping
pub mod Cutting
use lightserve.Prelude.{
  ℕ, ◌+◌, ◌-◌, Bool, true, false, ◌||◌, Option, none, some, List, [], ◌∷◌, ◌++◌, ltb, leb, eq_opt,
  if◌then◌else◌, length, take, drop,
}
use lightserve.Request.{
  Request, RequestStatus, finished_stopped, finished_length_capped, maybe_finish,
}

-- `output_token_ids.extend(committed)` and `maybe_finish()`
unfoldable pub commit : Request → List ℕ → Request
commit r committed = maybe_finish (record r { output_token_ids = r.output_token_ids ++ committed })

-- The test of the generator: the token in place `n` of the output is the last that there may be.
abbrev pub stops : Option ℕ → ℕ → ℕ → ℕ → Bool
stops eos max_tokens n token = eq_opt (some token) eos || leb max_tokens (n + 1)

-- The `next(…)` of the generator: the index among the new tokens of the first that stops, where
-- the first of them has place `n` in the output, with the token.
unfoldable pub first_stop : Option ℕ → ℕ → ℕ → List ℕ → Option (ℕ × ℕ)
first_stop eos max_tokens n [] = none
first_stop eos max_tokens n (token ∷ tokens) =
    let later = first_stop eos max_tokens (n + 1) tokens in
    if stops eos max_tokens n token
    then some (0, token)
    else elim later [ none ↦ none | some p ↦ some (p.0 + 1, p.1) ]

-- `FINISHED_STOPPED if new_tokens[stop_at] == eos else FINISHED_LENGTH_CAPPED`
abbrev pub status_at : Option ℕ → ℕ → RequestStatus
status_at eos token = if eq_opt (some token) eos then finished_stopped else finished_length_capped

-- The cut at the first stop, where the commit went past it: the request, and what is accepted.
unfoldable pub trim : Request → ℕ → ℕ → Option (ℕ × ℕ) → Request × ℕ
trim r pre_len accepted none = (r, accepted)
trim r pre_len accepted (some (stop_at, token)) =
    if ltb (stop_at + 1) accepted
    then (
      record r {
        output_token_ids = take (pre_len + stop_at + 1) r.output_token_ids;
        status = status_at r.sampling_params.eos_token_id token;
      },
      stop_at + 1,
    )
    else (r, accepted)

-- The body of the correction's loop, less the draft proposer's rollback. `schedule` advanced the
-- counter by `num_scheduled`, which is at least what was accepted, so it does not go below zero.
unfoldable pub correct : Request → ℕ → ℕ → Request
unfolding trim first_stop
correct r pre_len num_scheduled =
    let accepted = length r.output_token_ids - pre_len in
    let p = trim r pre_len accepted (
      first_stop r.sampling_params.eos_token_id r.sampling_params.max_tokens pre_len
        (drop pre_len r.output_token_ids)) in
    let q : Request = p.0 in
    record q {
      num_computed_tokens = q.num_computed_tokens + p.1 - num_scheduled;
      draft_token_ids = [];
    }

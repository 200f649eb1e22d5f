-- ===== src/SampleEngines.antt =====
-- Small whole engines for the examples: rows and slots are numbers, an int8 store keeps the half.
use lightserve.Prelude.{ℕ, ◌+◌, ◌*◌, ◌/◌, Bool, false, none, List, [], ◌∷◌, if◌then◌else◌}
use lightserve.Samples.{greedy, sample_hash, cache_config, scheduler_config, program}
use lightserve.Request.{Request, new_request, all_token_ids, get_len}
use lightserve.KvCache.{
  ModelShape, new_cache, locations, physical_locations, within, scatter, write, read, export_layers,
  export_request_kv, import_layers, import_request_kv,
}
use lightserve.ModelRunner.{
  Forward, range, repeat, zip_with, draft_rows, input_rows, flat_rows, too_long, build_flat_batch,
  attend_one, attend_all, attention, run_layers, next_tokens, committed_tokens, commit_all,
  execute_model,
}
use lightserve.Speculation.{accept_loop, accept_reject}
use lightserve.Correction.{commit, first_stop, trim, correct}
use lightserve.Scheduler.{
  num_new_tokens, chunk_of, is_speculative, sum_scheduled, get_num_unfinished_requests,
  has_unfinished_requests,
}
use lightserve.Engine.{
  LlmEngine, new_engine, add_request, spec_pre_len, register_prefix, register_prefixes,
  register_computed, accepted_of, correct_all, propose_all, propose_next, step, run_steps, add_all,
  generate,
}
use lightserve.Disaggregation.{
  run_prefill, hand_over, prefill, resume_decode, run_decode, decode_rest, generate_disaggregated,
}

abbrev pub keep_half : Bool → ℕ → ℕ
keep_half int8 row = if int8 then row / 2 else row

abbrev pub give_double : Bool → ℕ → ℕ
give_double int8 cell = if int8 then cell * 2 else cell

abbrev pub last_or_zero : List ℕ → ℕ
last_or_zero [] = 0
last_or_zero (x ∷ []) = x
last_or_zero (x ∷ y ∷ l) = last_or_zero (y ∷ l)

-- One layer; each query gets the newest key and value, and the next token is one more than the last.
abbrev pub counter : Forward ℕ ℕ ℕ
counter = record {
  n_layers = 1;
  max_model_len = 32;
  embed = λ t. t;
  query = λ layer position x. x;
  key_value = λ layer position x. x;
  flash = λ q kv. q;
  zero_query = 0;
  empty_query = 0;
  mix = λ layer x o. x;
  sample = λ x. x + 1;
}

abbrev pub shape : ModelShape
shape = record { n_layers = 1; num_kv_heads = 1; head_dim = 1; dtype = 0 }

abbrev pub first_draw : Request → ℕ
first_draw r = 0

abbrev pub number : ℕ → ℕ
number n = n

abbrev pub engine : LlmEngine ℕ
engine =
    new_engine sample_hash (new_request 0 [] (greedy 1)) 0 (cache_config 4 false)
      (scheduler_config 8) shape none

-- Everything that a run of a whole engine computes with.
unfoldable pub whole_program : Unit {0}
unfolding program all_token_ids get_len new_cache locations physical_locations within scatter write
    read export_layers export_request_kv import_layers import_request_kv range repeat zip_with
    draft_rows input_rows flat_rows too_long build_flat_batch attend_one attend_all attention
    run_layers next_tokens committed_tokens commit_all execute_model accept_loop accept_reject
    commit first_stop trim correct get_num_unfinished_requests has_unfinished_requests new_engine
    add_request spec_pre_len register_prefix register_prefixes register_computed accepted_of
    correct_all propose_all propose_next step run_steps add_all generate run_prefill hand_over
    prefill resume_decode run_decode decode_rest generate_disaggregated num_new_tokens chunk_of
    is_speculative sum_scheduled
whole_program = tt

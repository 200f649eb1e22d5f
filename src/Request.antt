-- ===== src/Request.antt =====
-- engine/request.py: a request, its life-cycle states and its stop conditions. Token ids and request
-- ids are only compared, so they are natural numbers. `arrival_time` is read by nothing in the engine
-- and is left out. `cached_prefix_nodes` holds the addresses of trie nodes (PrefixCache).
pub mod Stops
pub mod Blocks
use lightserve.Prelude.{
  ℕ, ◌+◌, ◌-◌, ◌/◌, Bool, true, false, Option, none, some, List, [], ◌++◌, ltb, leb, ◌==◌, eq_opt,
  if◌then◌else◌, length, last?, is_some, nonempty, ◌&&◌,
}

-- `RequestStatus`
pub data RequestStatus : Type 0 where
  waiting running preempted finished_stopped finished_length_capped finished_aborted : RequestStatus

-- `RequestStatus.finished`
unfoldable pub finished : RequestStatus → Bool
finished finished_stopped = true
finished finished_length_capped = true
finished finished_aborted = true
finished _ = false

-- `SamplingParams`
pub record SamplingParams : Type 0 where
  pub max_tokens : ℕ
  pub eos_token_id : Option ℕ

-- `Request`
pub record Request : Type 0 where
  pub request_id : ℕ
  pub prompt_token_ids : List ℕ
  pub sampling_params : SamplingParams
  pub output_token_ids : List ℕ
  pub status : RequestStatus
  pub block_table : List ℕ
  pub cached_prefix_nodes : List ℕ
  pub draft_token_ids : List ℕ
  pub num_computed_tokens : ℕ

-- A request as its constructor makes it from the arguments that have no default.
unfoldable pub new_request : ℕ → List ℕ → SamplingParams → Request
new_request request_id prompt params = record {
  request_id = request_id;
  prompt_token_ids = prompt;
  sampling_params = params;
  output_token_ids = [];
  status = waiting;
  block_table = [];
  cached_prefix_nodes = [];
  draft_token_ids = [];
  num_computed_tokens = 0;
}

unfoldable pub all_token_ids : Request → List ℕ
all_token_ids r = r.prompt_token_ids ++ r.output_token_ids

unfoldable pub get_len : Request → ℕ
get_len r = length r.prompt_token_ids + length r.output_token_ids

-- The source's difference can be negative; its callers test it for `<= 0` before anything else, and
-- here it is 0 then.
unfoldable pub get_num_new_tokens : Request → ℕ
unfolding get_len
get_num_new_tokens r = get_len r - r.num_computed_tokens

unfoldable pub is_prefill : Request → Bool
is_prefill r = ltb r.num_computed_tokens (length r.prompt_token_ids)

-- With its own test for an empty sequence, as the source has it.
unfoldable pub num_blocks_needed : Request → ℕ → ℕ
unfolding get_len
num_blocks_needed r block_size =
    let len = get_len r in if len == 0 then 0 else (len + block_size - 1) / block_size

unfoldable pub is_finished : Request → Bool
unfolding finished
is_finished r = finished r.status

-- `eos is not None and self.output_token_ids and self.output_token_ids[-1] == eos`
unfoldable pub hit_eos : Request → Bool
hit_eos r =
    is_some r.sampling_params.eos_token_id
    && (nonempty r.output_token_ids
        && eq_opt (last? r.output_token_ids) r.sampling_params.eos_token_id)

unfoldable pub maybe_finish : Request → Request
unfolding hit_eos finished
maybe_finish r =
    if finished r.status
    then r
    else if hit_eos r
    then record r { status = finished_stopped }
    else if leb r.sampling_params.max_tokens (length r.output_token_ids)
    then record r { status = finished_length_capped }
    else r

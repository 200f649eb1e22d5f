-- ===== src/Engine.antt =====
-- model/llm_engine.py: `LLMEngine`, over the modelled scheduler, model runner and KV cache. `draw` is the
-- draft model's forward pass, and `name_of n` the id `f"req-{n}"`.
pub mod Ownership
pub mod Sweeping
use lightserve.Prelude.{
  ℕ, zero, suc, ◌+◌, ◌-◌, Bool, true, false, Option, none, some, List, [], ◌∷◌, ◌++◌, map, ltb,
  if◌then◌else◌, length, drop, nonempty, update, is_some, or_else, Result, ok, err, ◌>>=◌,
}
use lightserve.Prelude.Dict.{Dict, lookup, insert}
use lightserve.Config.{CacheConfig, SchedulerConfig, SpeculativeConfig}
use lightserve.Request.{Request, RequestStatus, SamplingParams, new_request, is_prefill}
use lightserve.BlockManager.{insert_computed_prefix, new_manager}
use lightserve.Scheduler.{
  Scheduler, ScheduledRequest, SchedulerOutput, new_scheduler, put, schedule,
  free_finished_requests, has_unfinished_requests,
}
use lightserve.Scheduler
use mathlib.Core.Option
use lightserve.Correction.{correct, trim, first_stop}
use lightserve.DraftProposer.{DraftProposer, rollback, propose}
use lightserve.KvCache.{PagedKvCache, ModelShape, new_cache}
use lightserve.ModelRunner.{Forward, execute_model}

-- `GenerationOutput`
pub record GenerationOutput : Type 0 where
  pub request_id : ℕ
  pub prompt_token_ids : List ℕ
  pub output_token_ids : List ℕ
  pub finish_reason : RequestStatus

-- `LLMEngine`, without the model runner, which has no state but the store of keys and values.
pub record LlmEngine (Cell : Type 0) : Type 0 where
  pub scheduler : Scheduler
  pub kv_cache : PagedKvCache Cell
  pub next_id : ℕ
  pub draft_proposer : Option DraftProposer

-- What the constructor makes of a `SpeculativeConfig`.
abbrev pub new_proposer : (Option ℕ → List ℕ → ℕ) → CacheConfig → SpeculativeConfig → DraftProposer
new_proposer hash_fn c spec = record {
  num_speculative_tokens = spec.num_speculative_tokens;
  block_manager = new_manager hash_fn c.block_size (or_else spec.draft_num_gpu_blocks 0) 0 false;
  shadow_requests = [];
}

-- `LLMEngine.__init__`
unfoldable pub new_engine :
    {Cell : Type 0}
    → (Option ℕ → List ℕ → ℕ)
    → Request
    → Cell
    → CacheConfig
    → SchedulerConfig
    → ModelShape
    → Option SpeculativeConfig
    → LlmEngine Cell
new_engine hash_fn blank zero_cell c s shape spec = record {
  scheduler = new_scheduler hash_fn blank c s;
  kv_cache = new_cache zero_cell c shape;
  next_id = 0;
  draft_proposer = Option.map (new_proposer hash_fn c) spec;
}

-- The result of a request object, for `generate`.
abbrev pub output_of : Request → GenerationOutput
output_of r = record {
  request_id = r.request_id;
  prompt_token_ids = r.prompt_token_ids;
  output_token_ids = r.output_token_ids;
  finish_reason = r.status;
}

-- `add_request`: the engine, and the new request's id.
unfoldable pub add_request :
    {Cell : Type 0}
    → (ℕ → ℕ)
    → LlmEngine Cell
    → List ℕ
    → SamplingParams
    → Option ℕ
    → Result (LlmEngine Cell × ℕ)
add_request name_of e prompt params given = do
  let request_id = or_else given (name_of e.next_id)
  s ← Scheduler.add_request e.scheduler (new_request request_id prompt params)
  ok (
    record e { scheduler = s; next_id = if is_some given then e.next_id else e.next_id + 1 },
    request_id,
  )

-- `spec_pre_len`
unfoldable pub spec_pre_len : (ℕ → Request) → List ScheduledRequest → Dict ℕ
spec_pre_len store [] = []
spec_pre_len store (sr ∷ running) =
    let rest = spec_pre_len store running in
    if nonempty (store sr.request).draft_token_ids
    then (sr.request, length (store sr.request).output_token_ids) ∷ rest
    else rest

-- The body of the loop that registers computed prompt blocks; the difference does not go below zero
-- behind a `schedule`, and its place in the comparison is the sum's.
unfoldable pub register_prefix : Scheduler → ScheduledRequest → Result Scheduler
register_prefix s sr =
    let r = s.store sr.request in
    let registered : Result Scheduler = do
      (m, r') ← insert_computed_prefix s.block_manager r
      ok (put (record s { block_manager = m }) sr.request r')
    in if ltb r.num_computed_tokens (length r.prompt_token_ids + sr.num_scheduled_tokens)
      then registered
      else ok s

unfoldable pub register_prefixes : Scheduler → List ScheduledRequest → Result Scheduler
unfolding register_prefix
register_prefixes s [] = ok s
register_prefixes s (sr ∷ scheduled) = do s' ← register_prefix s sr; register_prefixes s' scheduled

-- The stage of `step` for prefix caching.
unfoldable pub register_computed : Scheduler → List ScheduledRequest → Result Scheduler
unfolding register_prefixes
register_computed s scheduled =
    if is_some s.block_manager.prefix_cache then register_prefixes s scheduled else ok s

-- `accepted`, as the rollback gets it.
unfoldable pub accepted_of : Request → ℕ → ℕ
accepted_of r pre_len =
    (trim r pre_len (length r.output_token_ids - pre_len) (
      first_stop r.sampling_params.eos_token_id r.sampling_params.max_tokens pre_len
        (drop pre_len r.output_token_ids))).1

-- The loop that corrects the speculative over-advance.
unfoldable pub correct_all :
    Dict ℕ
    → List ScheduledRequest
    → Scheduler × Option DraftProposer
    → Scheduler × Option DraftProposer
unfolding accepted_of
correct_all pre_lens [] state = state
correct_all pre_lens (sr ∷ running) (s, drafts) = elim (lookup sr.request pre_lens) [
  | none ↦ correct_all pre_lens running (s, drafts)
  | some pre_len ↦
      let r = s.store sr.request in
      correct_all pre_lens running (
        put s sr.request (correct r pre_len sr.num_scheduled_tokens),
        Option.map (λ d. rollback d sr.request (accepted_of r pre_len)) drafts,
      )
]

-- The loop that proposes, over the running requests.
unfoldable pub propose_all :
    (Request → ℕ) → DraftProposer → (ℕ → Request) → List ℕ → Result (DraftProposer × (ℕ → Request))
propose_all draw d store [] = ok (d, store)
propose_all draw d store (a ∷ rest) =
    let r = store a in
    let proposed : Result (DraftProposer × (ℕ → Request)) = do
      (d', drafts) ← propose draw d r
      propose_all draw d' (update store a (record r { draft_token_ids = drafts })) rest
    in let skipped = propose_all draw d store rest in if is_prefill r then skipped else proposed

-- The end of `step`.
unfoldable pub propose_next :
    (Request → ℕ) → Scheduler → Option DraftProposer → Result (Scheduler × Option DraftProposer)
unfolding propose_all
propose_next draw s none = ok (s, none)
propose_next draw s (some d) = do
  (d', store) ← propose_all draw d s.store s.running_list
  ok (record s { store = store }, some d')

module _ {X Query Row Cell : Type 0} (keep_row : Bool → Row → Cell) (give_row : Bool → Cell → Row)
    (model : Forward X Query Row) (draw : Request → ℕ) where
  -- `step`: the engine, the scheduler's output, and the requests that finished.
  unfoldable pub step : LlmEngine Cell → Result (LlmEngine Cell × SchedulerOutput × List ℕ)
  unfolding spec_pre_len register_computed correct_all propose_next
  step e = do
    (s, out) ← schedule e.scheduler
    let pre_lens = spec_pre_len s.store out.scheduled_running
    (c, store) ← execute_model keep_row give_row model e.kv_cache s.store out
    let executed = record s { store = store }
    registered ← register_computed executed (out.scheduled_new ++ out.scheduled_running)
    let (corrected, drafts) =
        correct_all pre_lens out.scheduled_running (registered, e.draft_proposer)
    (swept, finished) ← free_finished_requests corrected
    (s', drafts') ← propose_next draw swept drafts
    ok (record e { scheduler = s'; kv_cache = c; draft_proposer = drafts' }, out, finished)

  -- The loop of `generate`; `max_steps` is its own bound.
  unfoldable pub run_steps : ℕ → LlmEngine Cell → Result (LlmEngine Cell)
  run_steps zero e = ok e
  run_steps (suc max_steps) e = elim (has_unfinished_requests e.scheduler) [
    | false ↦ ok e
    | true ↦ do (e', out, finished) ← step e; run_steps max_steps e'
  ]

  -- The list comprehension at the start of `generate`.
  unfoldable pub add_all :
      (ℕ → ℕ) → LlmEngine Cell → List (List ℕ) → SamplingParams → Result (LlmEngine Cell × List ℕ)
  unfolding add_request
  add_all name_of e [] params = ok (e, [])
  add_all name_of e (prompt ∷ prompts) params = do
    (e', a) ← add_request name_of e prompt params none
    (e'', rest) ← add_all name_of e' prompts params
    ok (e'', a ∷ rest)

  -- `generate`
  unfoldable pub generate :
      (ℕ → ℕ)
      → LlmEngine Cell
      → List (List ℕ)
      → SamplingParams
      → ℕ
      → Result (LlmEngine Cell × List GenerationOutput)
  unfolding run_steps add_all
  generate name_of e prompts params max_steps = do
    (added, ids) ← add_all name_of e prompts params
    ended ← run_steps max_steps added
    ok (ended, map (λ a. output_of (ended.scheduler.store a)) ids)

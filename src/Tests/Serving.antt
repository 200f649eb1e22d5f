-- ===== src/Tests/Serving.antt =====
-- Whole engines at concrete inputs.
use lightserve.Prelude.{
  ℕ, ◌≡◌, refl, List, [], ◌∷◌, ◌++◌, ok, ◌≤◌, false, true, ◌⊎◌, inr, ◌&&◌, none, value_or,
  if◌then◌else◌, ltb, arith, count, elem, map,
}
use lightserve.Samples.{greedy, sample_hash, cache_config, scheduler_config}
use lightserve.SampleEngines.{
  keep_half, give_double, counter, shape, first_draw, number, engine, whole_program,
}
use lightserve.Request.{Request, new_request, is_prefill}
use lightserve.BlockManager.Ownership.{owners}
use lightserve.Scheduler.{SchedulerOutput, empty_output, ScheduledRequest, sum_scheduled}
use lightserve.KvCache.{PagedKvCache}
use lightserve.ModelRunner.{FlatBatch, build_flat_batch, execute_model}
use lightserve.ModelRunner.Batching.{Aligned, AllHaveTokens, build_flat_batch-Aligned}
use lightserve.ModelRunner.Recording.{Executed}
use lightserve.ModelRunner.Committing.{ids_of, all_computed, execute_model-Kept}
use lightserve.Engine.{LlmEngine, GenerationOutput, generate, add_request, step}
use lightserve.Engine.Ownership.{generate-owners}
use lightserve.Engine.Sweeping.{Sorted, step-Sorted}

-- Two prompts, of which the second waits for a block; each gets its two tokens.
abbrev generated : LlmEngine ℕ × List GenerationOutput
generated =
    value_or
      (generate keep_half give_double counter first_draw number engine
        ((5 ∷ 6 ∷ 7 ∷ []) ∷ (8 ∷ []) ∷ []) (greedy 2) 6)
      (engine, [])

outputs : map (λ o. o.output_token_ids) generated.1 ≡ (8 ∷ 9 ∷ []) ∷ (9 ∷ 10 ∷ []) ∷ []
unfolding whole_program
outputs = refl

generated_runs :
    generate keep_half give_double counter first_draw number engine
      ((5 ∷ 6 ∷ 7 ∷ []) ∷ (8 ∷ []) ∷ [])
      (greedy 2)
      6
    ≡ ok generated
unfolding whole_program
generated_runs = refl

generate-owners_example : owners 2 generated.0.scheduler.block_manager ≡ (if ltb 2 4 then 1 else 0)
generate-owners_example =
    generate-owners keep_half give_double counter first_draw sample_hash
      (new_request 0 [] (greedy 1)) 0 (cache_config 4 false) (scheduler_config 8) shape none number
      ((5 ∷ 6 ∷ 7 ∷ []) ∷ (8 ∷ []) ∷ []) (greedy 2) 6 2 generated.0 generated.1 refl generated_runs

-- One request that is finished by its first token.
abbrev with_short : LlmEngine ℕ
with_short = (value_or (add_request number engine (5 ∷ 6 ∷ []) (greedy 1) none) (engine, 0)).0

abbrev stepped : LlmEngine ℕ × SchedulerOutput × List ℕ
stepped =
    value_or (step keep_half give_double counter first_draw with_short) (engine, empty_output, [])

stepped_runs : step keep_half give_double counter first_draw with_short ≡ ok stepped
unfolding whole_program
stepped_runs = refl

stepped_swept : stepped.2 ≡ 0 ∷ []
unfolding whole_program
stepped_swept = refl

step-Sorted_example : Sorted with_short.scheduler stepped.0.scheduler stepped.2
step-Sorted_example =
    step-Sorted keep_half give_double counter first_draw with_short stepped.0 stepped.1 stepped.2
      stepped_runs

-- The batch of that step.
abbrev scheduled : List ScheduledRequest
scheduled = record { request = 0; num_scheduled_tokens = 2 } ∷ []

abbrev ready : ℕ → Request
ready a = record (new_request 0 (5 ∷ 6 ∷ []) (greedy 1)) { num_computed_tokens = 2 }

abbrev batch : FlatBatch
batch =
    value_or (build_flat_batch ready 32 scheduled)
      (record { input_ids = []; positions = []; spans = [] })

batch_built : build_flat_batch ready 32 scheduled ≡ ok batch
unfolding whole_program
batch_built = refl

all_tokens : AllHaveTokens ready scheduled
unfolding whole_program
all_tokens = ((λ e. omega arith), tt)

build_flat_batch-Aligned_example : Aligned 0 (sum_scheduled scheduled) batch
build_flat_batch-Aligned_example =
    build_flat_batch-Aligned ready 32 scheduled batch all_tokens batch_built

abbrev one_scheduled : SchedulerOutput
one_scheduled = record {
  scheduled_new = scheduled;
  scheduled_running = [];
  preempted_requests = [];
}

abbrev located : ℕ → Request
located a = record (ready a) { block_table = 3 ∷ [] }

abbrev executed : PagedKvCache ℕ × (ℕ → Request)
executed =
    value_or (execute_model keep_half give_double counter engine.kv_cache located one_scheduled)
      (engine.kv_cache, located)

executed_runs :
    execute_model keep_half give_double counter engine.kv_cache located one_scheduled ≡ ok executed
unfolding whole_program
executed_runs = refl

executed_output : (executed.1 0).output_token_ids ≡ 7 ∷ []
unfolding whole_program
executed_output = refl

scheduled_once : (b : ℕ) → count b (ids_of (one_scheduled.scheduled_new ++ [])) ≤ 1
unfolding count
scheduled_once b = ground arith

scheduled_whole :
    (b : ℕ)
    → elem b (ids_of (one_scheduled.scheduled_new ++ [])) ≡ true
    → (is_prefill (located b) ≡ true) ⊎ (all_computed (located b) ≡ true)
unfolding whole_program
scheduled_whole b h = inr refl

execute_model-Kept_example :
    Executed
      (elem 0 (ids_of (one_scheduled.scheduled_new ++ [])) && all_computed (located 0))
      (located 0)
      (executed.1 0)
execute_model-Kept_example =
    execute_model-Kept keep_half give_double counter engine.kv_cache executed.0 located executed.1
      one_scheduled scheduled_once scheduled_whole executed_runs 0

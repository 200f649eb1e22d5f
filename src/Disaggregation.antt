-- ===== src/Disaggregation.antt =====
-- model/pd_disaggregation.py: a request is prefilled on one engine and decoded on another.
pub mod Resuming
use lightserve.Prelude.{
  ℕ, zero, suc, ◌+◌, ◌-◌, Bool, true, false, Option, none, some, List, [], ◌∷◌, ◌++◌, if◌then◌else◌,
  length, last?, elem, Result, ok, err, index_error, or_raise, ◌>>=◌,
}
use lightserve.Request.{Request, SamplingParams, running, is_prefill, is_finished}
use lightserve.BlockManager.{allocate}
use lightserve.Scheduler.{Scheduler, put, abort_requests}
use lightserve.KvCache.{PagedKvCache, KvBundle, export_request_kv, import_request_kv}
use lightserve.ModelRunner.{Forward}
use lightserve.Engine.{LlmEngine, GenerationOutput, output_of, add_request, step}

-- `PrefillHandoff`
pub record PrefillHandoff (Row : Type 0) : Type 0 where
  pub request_id : ℕ
  pub prompt_token_ids : List ℕ
  pub first_token_id : ℕ
  pub sampling_params : SamplingParams
  pub kv : KvBundle Row

-- What `prefill` returns.
pub data Prefilled (Row : Type 0) : Type 0 where
  ended : (output : GenerationOutput) → Prefilled Row
  handed : (handoff : PrefillHandoff Row) → Prefilled Row

-- `requests[request_id] = request` on the keys.
abbrev pub set_key : ℕ → List ℕ → List ℕ
set_key a keys = if elem a keys then keys else keys ++ a ∷ []

-- The request that `resume_decode` makes.
abbrev pub resumed_request : {Row : Type 0} → PrefillHandoff Row → Request
resumed_request handoff = record {
  request_id = handoff.request_id;
  prompt_token_ids = handoff.prompt_token_ids;
  sampling_params = handoff.sampling_params;
  output_token_ids = handoff.first_token_id ∷ [];
  status = running;
  block_table = [];
  cached_prefix_nodes = [];
  draft_token_ids = [];
  num_computed_tokens = 0;
}

-- The request behind the import, with its counter, in the scheduler's lists.
abbrev pub placed : Scheduler → Request → Scheduler
placed s r =
    let s' = put s r.request_id (record r { num_computed_tokens = length r.prompt_token_ids }) in
    record s' {
      requests = set_key r.request_id s.requests;
      running_list = s.running_list ++ r.request_id ∷ [];
    }

module _ {Row Cell : Type 0} (keep_row : Bool → Row → Cell) (give_row : Bool → Cell → Row) where
  -- `prefill` behind its loop.
  unfoldable pub hand_over : LlmEngine Cell → ℕ → Result (LlmEngine Cell × Prefilled Row)
  hand_over e a =
      let r = e.scheduler.store a in
      let exported : Result (LlmEngine Cell × Prefilled Row) = do
        kv ← export_request_kv keep_row give_row e.kv_cache r (length r.prompt_token_ids)
        first ← or_raise (last? r.output_token_ids) index_error
        (s, aborted) ← abort_requests e.scheduler (r.request_id ∷ [])
        ok (
          record e { scheduler = s },
          handed (record {
            request_id = r.request_id;
            prompt_token_ids = r.prompt_token_ids;
            first_token_id = first;
            sampling_params = r.sampling_params;
            kv = kv;
          }),
        )
      in if is_finished r then ok (e, ended (output_of r)) else exported

  -- `resume_decode`: the engine, and the id of the request.
  unfoldable pub resume_decode : LlmEngine Cell → PrefillHandoff Row → Result (LlmEngine Cell × ℕ)
  resume_decode e handoff = do
    (m, r) ← allocate e.scheduler.block_manager (resumed_request handoff) none
    c ← import_request_kv keep_row give_row e.kv_cache r handoff.kv
    ok (
      record e { scheduler = placed (record (e.scheduler) { block_manager = m }) r; kv_cache = c },
      r.request_id,
    )

module _ {X Query Row Cell : Type 0} (keep_row : Bool → Row → Cell) (give_row : Bool → Cell → Row)
    (model : Forward X Query Row) (draw : Request → ℕ) where
  -- The loop of `prefill`, which has no bound of its own: `none` where `fuel` steps do not end it.
  unfoldable pub run_prefill : ℕ → LlmEngine Cell → ℕ → Result (Option (LlmEngine Cell))
  run_prefill zero e a = ok (if is_prefill (e.scheduler.store a) then none else some e)
  run_prefill (suc fuel) e a = elim (is_prefill (e.scheduler.store a)) [
    | false ↦ ok (some e)
    | true ↦ do (e', out, finished) ← step keep_row give_row model draw e; run_prefill fuel e' a
  ]

  -- `prefill`
  unfoldable pub prefill :
      (ℕ → ℕ)
      → ℕ
      → LlmEngine Cell
      → List ℕ
      → SamplingParams
      → Option ℕ
      → Result (Option (LlmEngine Cell × Prefilled Row))
  unfolding run_prefill hand_over
  prefill name_of fuel e prompt params given = do
    (added, a) ← add_request name_of e prompt params given
    computed ← run_prefill fuel added a
    elim computed [
      | none ↦ ok none
      | some e' ↦ do p ← hand_over keep_row give_row e' a; ok (some p)
    ]

  -- The loop of `generate_disaggregated`; `max_steps` is its own bound.
  unfoldable pub run_decode : ℕ → LlmEngine Cell → ℕ → Result (LlmEngine Cell)
  run_decode zero e a = ok e
  run_decode (suc max_steps) e a = elim (is_finished (e.scheduler.store a)) [
    | true ↦ ok e
    | false ↦ do
      (e', out, finished) ← step keep_row give_row model draw e
      run_decode max_steps e' a
  ]

  -- `generate_disaggregated`, after `prefill`.
  unfoldable pub decode_rest :
      ℕ → LlmEngine Cell → Prefilled Row → Result (LlmEngine Cell × GenerationOutput)
  unfolding resume_decode run_decode
  decode_rest max_steps d (ended output) = ok (d, output)
  decode_rest max_steps d (handed handoff) = do
    (d', a) ← resume_decode keep_row give_row d handoff
    d'' ← run_decode max_steps d' a
    ok (d'', output_of (d''.scheduler.store a))

  -- `generate_disaggregated`: the two engines, and the output.
  unfoldable pub generate_disaggregated :
      (ℕ → ℕ)
      → ℕ
      → LlmEngine Cell
      → LlmEngine Cell
      → List ℕ
      → SamplingParams
      → Option ℕ
      → ℕ
      → Result (Option (LlmEngine Cell × LlmEngine Cell × GenerationOutput))
  unfolding prefill decode_rest
  generate_disaggregated name_of fuel e d prompt params given max_steps = do
    p ← prefill name_of fuel e prompt params given
    elim p [
      | none ↦ ok none
      | some q ↦ do (d', output) ← decode_rest max_steps d q.1; ok (some (q.0, d', output))
    ]

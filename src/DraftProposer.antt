-- ===== src/DraftProposer.antt =====
-- model/draft_proposer.py: the draft model's own requests, which shadow the engine's. The draft model's
-- forward pass is the parameter `draw`: the best next token for a shadow whose counter was advanced.
pub mod Resync
use lightserve.Prelude.{
  ℕ, zero, suc, ◌+◌, ◌-◌, Bool, true, false, Option, none, some, List, [], ◌∷◌, ◌++◌, ltb,
  if◌then◌else◌, length, Result, ok, err, index_error, last?, ◌>>=◌,
}
use lightserve.Prelude.Dict.{Dict, lookup, insert}
use lightserve.Request.{
  Request, running, is_prefill, get_num_new_tokens, num_blocks_needed, maybe_finish,
}
use lightserve.BlockManager.{BlockManager, allocate, append_slot, get_block_table}

-- `DraftProposer`
pub record DraftProposer : Type 0 where
  pub num_speculative_tokens : ℕ
  pub block_manager : BlockManager
  pub shadow_requests : Dict Request

-- The loop of `_ensure_capacity`, on the blocks that are still missing: a call of `append_slot` adds
-- a block where one is missing.
unfoldable pub extend_table : ℕ → BlockManager → Request → Result (BlockManager × Request)
extend_table zero m shadow = ok (m, shadow)
extend_table (suc missing) m shadow = elim (append_slot m shadow) [
  | err e ↦ err e
  | ok p ↦ extend_table missing p.0 p.1
]

-- `_ensure_capacity`
unfoldable pub cover_shadow : BlockManager → Request → Result (BlockManager × Request)
unfolding extend_table
cover_shadow m shadow =
    extend_table (num_blocks_needed shadow m.block_size - length (get_block_table m shadow)) m
      shadow

-- A new shadow, before its allocation.
abbrev pub shadow_of : Request → Request
shadow_of r = record {
  request_id = r.request_id;
  prompt_token_ids = r.prompt_token_ids;
  sampling_params = r.sampling_params;
  output_token_ids = r.output_token_ids;
  status = running;
  block_table = [];
  cached_prefix_nodes = [];
  draft_token_ids = [];
  num_computed_tokens = 0;
}

-- The shadow object, written to where the dict has it.
abbrev pub keep_shadow : DraftProposer → Request → DraftProposer
keep_shadow d shadow = record d {
  shadow_requests = insert shadow.request_id shadow d.shadow_requests;
}

-- `_get_or_create_shadow`
unfoldable pub get_or_create_shadow : DraftProposer → Request → Result (DraftProposer × Request)
get_or_create_shadow d r = elim (lookup r.request_id d.shadow_requests) [
  | some found ↦
      let shadow : Request = record found { output_token_ids = r.output_token_ids } in
      ok (keep_shadow d shadow, shadow)
  | none ↦ do
    (m, shadow) ← allocate d.block_manager (shadow_of r) none
    ok (keep_shadow (record d { block_manager = m }) shadow, shadow)
]

-- `rollback` on the shadow; `max(0, a - b)` is the difference on ℕ.
unfoldable pub roll_back : ℕ → Request → ℕ → Request
roll_back num_speculative_tokens shadow num_accepted = record shadow {
  num_computed_tokens = shadow.num_computed_tokens - (num_speculative_tokens - num_accepted);
}

-- `rollback`
unfoldable pub rollback : DraftProposer → ℕ → ℕ → DraftProposer
unfolding roll_back
rollback d request_id num_accepted = elim (lookup request_id d.shadow_requests) [
  | none ↦ d
  | some shadow ↦ record d {
    shadow_requests =
        insert request_id (roll_back d.num_speculative_tokens shadow num_accepted)
          d.shadow_requests;
  }
]

-- What `execute_model` does to the one request of a batch: a token, unless its prompt goes on.
unfoldable pub execute : (Request → ℕ) → Request → Request
execute draw r =
    if is_prefill r
    then r
    else maybe_finish (record r { output_token_ids = r.output_token_ids ++ draw r ∷ [] })

-- `shadow.num_computed_tokens += num_new`
abbrev pub advanced : Request → Request
advanced r = record r { num_computed_tokens = r.num_computed_tokens + get_num_new_tokens r }

-- The loop of `propose`.
unfoldable pub draft_loop :
    (Request → ℕ) → ℕ → BlockManager → Request → List ℕ → Result (BlockManager × Request × List ℕ)
draft_loop draw zero m shadow proposed = ok (m, shadow, proposed)
draft_loop draw (suc n) m shadow proposed = elim (cover_shadow m shadow) [
  | err e ↦ err e
  | ok p ↦
      let stepped = execute draw (advanced (p.1)) in
      elim (last? stepped.output_token_ids) [
        | none ↦ err index_error
        | some token ↦ draft_loop draw n p.0 stepped (proposed ++ token ∷ [])
      ]
]

-- `propose`
unfoldable pub propose : (Request → ℕ) → DraftProposer → Request → Result (DraftProposer × List ℕ)
propose draw d r = do
  (d', shadow) ← get_or_create_shadow d r
  (m, shadow', proposed) ← draft_loop draw d.num_speculative_tokens d'.block_manager shadow []
  ok (keep_shadow (record d' { block_manager = m }) shadow', proposed)

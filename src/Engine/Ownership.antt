-- ===== src/Engine/Ownership.antt =====
-- The blocks of the pool through the engine's calls, where prefix caching is off.
use lightserve.Prelude.{
  ℕ, zero, suc, ◌≡◌, refl, ◌∙◌, subst, sym, Bool, true, false, Option, none, some, List, [], ◌∷◌,
  ◌++◌, ok, is_some, or_else, OnOk, OnOk-bind, OnOk-use, OnOk-any, Bool-cases, Option-cases, inl,
  inr, ltb, if◌then◌else◌,
}
use lightserve.Prelude.Dict.{Dict, lookup}
use lightserve.Config.{CacheConfig, SchedulerConfig, SpeculativeConfig}
use lightserve.Request.{Request, SamplingParams, new_request}
use lightserve.BlockManager.{BlockManager}
use lightserve.BlockManager.Ownership.{Conserves, owners, new_manager_off, owners-new_manager}
use lightserve.Scheduler.{
  Scheduler, ScheduledRequest, SchedulerOutput, new_scheduler, schedule, free_finished_requests,
  has_unfinished_requests,
}
use lightserve.Scheduler
use lightserve.Scheduler.Ownership.{
  Owned, schedule-Owned, free_finished_requests-Owned, add_request-Owned,
}
use lightserve.DraftProposer.{DraftProposer}
use lightserve.KvCache.{ModelShape}
use lightserve.ModelRunner.{Forward, execute_model}
use lightserve.Engine.{
  LlmEngine, GenerationOutput, new_engine, add_request, spec_pre_len, step, register_computed,
  correct_all, propose_all, propose_next, run_steps, add_all, generate,
}

correct_all-block_manager :
    (pre_lens : Dict ℕ) (running : List ScheduledRequest) (s : Scheduler) (d : Option DraftProposer)
    → (correct_all pre_lens running (s, d)).0.block_manager ≡ s.block_manager
unfolding correct_all
correct_all-block_manager pre_lens [] s d = refl
correct_all-block_manager pre_lens (sr ∷ running) s d =
    elim (Option-cases (lookup sr.request pre_lens)) [
      | inl e ↦ rw (e, correct_all) (correct_all-block_manager pre_lens running s d)
      | inr (pre_len, e) ↦ rw (e, correct_all) (correct_all-block_manager pre_lens running _ _)
    ]

register_computed-Owned :
    (m : BlockManager) (s : Scheduler) (scheduled : List ScheduledRequest)
    → Owned m s
    → OnOk (Owned m) (register_computed s scheduled)
unfolding register_computed
register_computed-Owned m s scheduled h = elim (Bool-cases (is_some s.block_manager.prefix_cache)) [
  | inr e ↦ rw e h
  | inl e ↦ absurd (none_there s.block_manager.prefix_cache h.0 e)
]
  where
    none_there : {A : Type 0} (o : Option A) → o ≡ none → is_some o ≡ true → ⊥
    none_there none h e = cc
    none_there (some a) h e = cc

propose_next-Owned :
    (draw : Request → ℕ) (m : BlockManager) (s : Scheduler) (d : Option DraftProposer)
    → Owned m s
    → OnOk (λ p. Owned m p.0) (propose_next draw s d)
unfolding propose_next
propose_next-Owned draw m s none h = h
propose_next-Owned draw m s (some d) h =
    OnOk-bind (λ p. Unit) (λ p. Owned m p.0) (propose_all draw d s.store s.running_list) _
      (OnOk-any _) (λ p u. h)

add_request-Keeps :
    {Cell : Type 0} (name_of : ℕ → ℕ) (m : BlockManager) (e : LlmEngine Cell) (prompt : List ℕ)
    (params : SamplingParams) (given : Option ℕ)
    → Owned m e.scheduler
    → OnOk (λ p. Owned m p.0.scheduler) (add_request name_of e prompt params given)
unfolding add_request
add_request-Keeps name_of m e prompt params given h =
    OnOk-bind (Owned m) (λ p. Owned m p.0.scheduler)
      (Scheduler.add_request e.scheduler
        (new_request (or_else given (name_of e.next_id)) prompt params))
      _ (add_request-Owned m e.scheduler _ h) (λ s k. k)

module _ {X Query Row Cell : Type 0} (keep_row : Bool → Row → Cell) (give_row : Bool → Cell → Row)
    (model : Forward X Query Row) (draw : Request → ℕ) where
  step-Owned :
      (m : BlockManager) (e : LlmEngine Cell)
      → Owned m e.scheduler
      → OnOk (λ p. Owned m p.0.scheduler) (step keep_row give_row model draw e)
  unfolding step
  step-Owned m e h =
      OnOk-bind (λ p. Owned m p.0) (λ p. Owned m p.0.scheduler) (schedule e.scheduler) _
        (schedule-Owned m e.scheduler h)
        λ p k.
          OnOk-bind (λ p. Unit) (λ p. Owned m p.0.scheduler)
            (execute_model keep_row give_row model e.kv_cache p.0.store p.1) _ (OnOk-any _)
            λ q u.
              OnOk-bind (Owned m) (λ p. Owned m p.0.scheduler)
                (register_computed (record (p.0) { store = q.1 })
                  (p.1.scheduled_new ++ p.1.scheduled_running))
                _ (register_computed-Owned m (record (p.0) { store = q.1 }) _ k)
                λ t j.
                  OnOk-bind (λ f. Owned m f.0) (λ p. Owned m p.0.scheduler)
                    (free_finished_requests (corrected p t)) _
                    (free_finished_requests-Owned m (corrected p t) (
                      subst (Conserves m)
                        (sym (
                          correct_all-block_manager (spec_pre_len p.0.store p.1.scheduled_running)
                            p.1.scheduled_running t e.draft_proposer))
                        j))
                    λ f l.
                      OnOk-bind {B = LlmEngine Cell × SchedulerOutput × List ℕ} (λ z. Owned m z.0)
                        (λ p. Owned m p.0.scheduler)
                        (propose_next draw f.0
                          (correct_all (spec_pre_len p.0.store p.1.scheduled_running)
                            p.1.scheduled_running (t, e.draft_proposer)).1)
                        _
                        (propose_next-Owned draw m f.0
                          (correct_all (spec_pre_len p.0.store p.1.scheduled_running)
                            p.1.scheduled_running (t, e.draft_proposer)).1
                          l)
                        (λ z n. n)
    where
      corrected : Scheduler × SchedulerOutput → Scheduler → Scheduler
      corrected p t =
          (correct_all (spec_pre_len p.0.store p.1.scheduled_running) p.1.scheduled_running
            (t, e.draft_proposer)).0

  run_steps-Owned :
      (m : BlockManager) (n : ℕ) (e : LlmEngine Cell)
      → Owned m e.scheduler
      → OnOk (λ e'. Owned m e'.scheduler) (run_steps keep_row give_row model draw n e)
  unfolding run_steps
  run_steps-Owned m zero e h = h
  run_steps-Owned m (suc n) e h = elim (Bool-cases (has_unfinished_requests e.scheduler)) [
    | inr f ↦ rw (f, run_steps) h
    | inl f ↦
        rw (f, run_steps)
          (OnOk-bind (λ p. Owned m p.0.scheduler) (λ e'. Owned m e'.scheduler)
            (step keep_row give_row model draw e) _ (step-Owned m e h)
            (λ p k. run_steps-Owned m n p.0 k))
  ]

  add_all-Owned :
      (name_of : ℕ → ℕ) (m : BlockManager) (e : LlmEngine Cell) (prompts : List (List ℕ))
      (params : SamplingParams)
      → Owned m e.scheduler
      → OnOk
          (λ p. Owned m p.0.scheduler)
          (add_all keep_row give_row model draw name_of e prompts params)
  unfolding add_all
  add_all-Owned name_of m e [] params h = h
  add_all-Owned name_of m e (prompt ∷ prompts) params h =
      OnOk-bind (λ p. Owned m p.0.scheduler) (λ p. Owned m p.0.scheduler)
        (add_request name_of e prompt params none) _
        (add_request-Keeps name_of m e prompt params none h)
        λ p k.
          OnOk-bind (λ p. Owned m p.0.scheduler) (λ p. Owned m p.0.scheduler)
            (add_all keep_row give_row model draw name_of p.0 prompts params) _
            (add_all-Owned name_of m p.0 prompts params k) (λ q l. l)

  generate-Owned :
      (m : BlockManager) (name_of : ℕ → ℕ) (e : LlmEngine Cell) (prompts : List (List ℕ))
      (params : SamplingParams) (max_steps : ℕ)
      → Owned m e.scheduler
      → OnOk
          (λ p. Owned m p.0.scheduler)
          (generate keep_row give_row model draw name_of e prompts params max_steps)
  unfolding generate
  generate-Owned m name_of e prompts params max_steps h =
      OnOk-bind (λ p. Owned m p.0.scheduler) (λ p. Owned m p.0.scheduler)
        (add_all keep_row give_row model draw name_of e prompts params) _
        (add_all-Owned name_of m e prompts params h)
        λ p k.
          OnOk-bind (λ e. Owned m e.scheduler) (λ p. Owned m p.0.scheduler)
            (run_steps keep_row give_row model draw max_steps p.0) _
            (run_steps-Owned m max_steps p.0 k) (λ q l. l)

  -- Blocks through a whole `generate`, with or without speculative decoding: on a new engine without
  -- prefix caching, whatever the model computes, when `generate` returns, finished or at `max_steps`,
  -- every block of the pool has exactly one owner, the free stack or one request's table, and no other
  -- block has any.
  pub generate-owners :
      (hash_fn : Option ℕ → List ℕ → ℕ) (blank : Request) (zero_cell : Cell) (c : CacheConfig)
      (sc : SchedulerConfig) (shape : ModelShape) (spec : Option SpeculativeConfig)
      (name_of : ℕ → ℕ) (prompts : List (List ℕ)) (params : SamplingParams) (max_steps b : ℕ)
      (e : LlmEngine Cell) (outputs : List GenerationOutput)
      → c.enable_prefix_caching ≡ false
      → generate keep_row give_row model draw name_of
          (new_engine hash_fn blank zero_cell c sc shape spec)
          prompts
          params
          max_steps
        ≡ ok (e, outputs)
      → owners b e.scheduler.block_manager ≡ (if ltb b c.num_gpu_blocks then 1 else 0)
  unfolding new_engine new_scheduler
  generate-owners hash_fn blank zero_cell c sc shape spec name_of prompts params max_steps b e
        outputs off h =
      let made = new_manager_off hash_fn c.block_size c.num_gpu_blocks c.watermark_blocks _ off in
      let first : Owned (new_scheduler hash_fn blank c sc).block_manager
          (new_scheduler hash_fn blank c sc) =
        (made, λ b. refl) in
      (OnOk-use (λ p. Owned (new_scheduler hash_fn blank c sc).block_manager p.0.scheduler)
          (generate keep_row give_row model draw name_of
            (new_engine hash_fn blank zero_cell c sc shape spec) prompts params max_steps)
          (generate-Owned _ name_of _ prompts params max_steps first) h).1
        b
      ∙ owners-new_manager hash_fn c.block_size c.num_gpu_blocks c.watermark_blocks b
          c.enable_prefix_caching

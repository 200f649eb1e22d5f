-- ===== src/EngineWorker/Serving.antt =====
-- `LLMEngine` is an engine as the worker needs it.
use lightserve.Prelude.{
  ℕ, ◌≡◌, inl, inr, refl, ap, sym, subst, ◌∙◌, Bool, true, false, Option, none, some, List, [], ◌∷◌,
  ◌++◌, arith, elem, elem_cons, elem_here, elem_there, is_some, Bool-cases, Option-cases, ok, OnOk,
  OnOk-bind, OnOk-use, OnOk-any, OnOk-mono, bind_ok, ok_inj, ◌>>=◌,
}
use lightserve.Prelude.Dict.{Dict, lookup}
use lightserve.Request.{Request, SamplingParams, new_request}
use lightserve.Scheduler
use lightserve.Scheduler.{
  Scheduler, ScheduledRequest, SchedulerOutput, put, schedule, free_finished_requests,
}
use lightserve.Scheduler.Keys.{Accounted, free_finished_requests-Accounted}
use lightserve.Scheduler.Requests.{schedule-SameKeys}
use lightserve.DraftProposer.{DraftProposer}
use lightserve.ModelRunner.{Forward, execute_model}
use lightserve.Engine.{
  LlmEngine, add_request, step, spec_pre_len, register_prefix, register_prefixes, register_computed,
  correct_all, propose_all, propose_next,
}
use lightserve.EngineWorker.{EngineShape}
use lightserve.EngineWorker.Keys.{EngineLaws}

register_prefix-requests :
    (s : Scheduler) (sr : ScheduledRequest)
    → OnOk (λ t. t.requests ≡ s.requests) (register_prefix s sr)
unfolding register_prefix
register_prefix-requests s sr = ground arith

register_prefixes-requests :
    (s : Scheduler) (l : List ScheduledRequest)
    → OnOk (λ t. t.requests ≡ s.requests) (register_prefixes s l)
unfolding register_prefixes
register_prefixes-requests s [] = refl
register_prefixes-requests s (sr ∷ l) =
    OnOk-bind (λ t. t.requests ≡ s.requests) (λ t. t.requests ≡ s.requests) (register_prefix s sr) _
      (register_prefix-requests s sr)
      (λ t h.
        OnOk-mono (λ u. u.requests ≡ t.requests) (λ u. u.requests ≡ s.requests)
          (register_prefixes t l) (λ u k. k ∙ h) (register_prefixes-requests t l))

register_computed-requests :
    (s : Scheduler) (l : List ScheduledRequest)
    → OnOk (λ t. t.requests ≡ s.requests) (register_computed s l)
unfolding register_computed
register_computed-requests s l = elim (Bool-cases (is_some s.block_manager.prefix_cache)) [
  | inl e ↦ rw e (register_prefixes-requests s l)
  | inr e ↦ rw e refl
]

correct_all-requests :
    (pre_lens : Dict ℕ) (running : List ScheduledRequest) (s : Scheduler) (d : Option DraftProposer)
    → (correct_all pre_lens running (s, d)).0.requests ≡ s.requests
unfolding correct_all
correct_all-requests pre_lens [] s d = refl
correct_all-requests pre_lens (sr ∷ running) s d =
    elim (Option-cases (lookup sr.request pre_lens)) [
      | inl e ↦ rw (e, correct_all) (correct_all-requests pre_lens running s d)
      | inr (pre_len, e) ↦ rw (e, correct_all) (correct_all-requests pre_lens running _ _)
    ]

propose_next-requests :
    (draw : Request → ℕ) (s : Scheduler) (d : Option DraftProposer)
    → OnOk (λ p. p.0.requests ≡ s.requests) (propose_next draw s d)
unfolding propose_next
propose_next-requests draw s none = refl
propose_next-requests draw s (some d) =
    OnOk-bind (λ p. Unit) (λ p. p.0.requests ≡ s.requests)
      (propose_all draw d s.store s.running_list) _ (OnOk-any _) (λ p h. refl)

elem_last : (b a : ℕ) (xs : List ℕ) → b ≡ a → elem b (xs ++ a ∷ []) ≡ true
elem_last b a [] q = elem_here b a [] q
elem_last b a (x ∷ xs) q = elem_there b x (xs ++ a ∷ []) (elem_last b a xs q)

elem_before : (b a : ℕ) (xs : List ℕ) → elem b xs ≡ true → elem b (xs ++ a ∷ []) ≡ true
unfolding elem
elem_before b a [] h = cc
elem_before b a (x ∷ xs) h = elim (elem_cons b x xs h) [
  | inl q ↦ elem_here b x (xs ++ a ∷ []) q
  | inr i ↦ elem_there b x (xs ++ a ∷ []) (elem_before b a xs i)
]

-- The key of a new request, and the others.
NewKey : {Cell : Type 0} → LlmEngine Cell → ℕ → LlmEngine Cell → Type 0
NewKey e a e' =
    (elem a e.scheduler.requests ≡ false) × (e'.scheduler.requests ≡ e.scheduler.requests ++ a ∷ [])

add_request-NewKey :
    {Cell : Type 0} (name_of : ℕ → ℕ) (e : LlmEngine Cell) (prompt : List ℕ)
    (params : SamplingParams) (a : ℕ)
    → OnOk (λ p. NewKey e a p.0) (add_request name_of e prompt params (some a))
unfolding add_request Scheduler.add_request new_request NewKey
add_request-NewKey name_of e prompt params a = elim (Bool-cases (elem a e.scheduler.requests)) [
  | inl f ↦ rw f tt
  | inr f ↦ rw f (refl, refl)
]

module _ {X Query Row Cell : Type 0} (keep_row : Bool → Row → Cell) (give_row : Bool → Cell → Row)
    (model : Forward X Query Row) (draw : Request → ℕ) (name_of : ℕ → ℕ) where
  -- The worker always gives the id.
  unfoldable pub llm_shape : EngineShape (LlmEngine Cell)
  llm_shape = record {
    add_request = λ e prompt params a. do
      p ← add_request name_of e prompt params (some a)
      ok (p.0);
    step = step keep_row give_row model draw;
    scheduler = λ e. e.scheduler;
    with_scheduler = λ e s. record e { scheduler = s };
  }

  abbrev Stepped : Type 0
  Stepped = LlmEngine Cell × SchedulerOutput × List ℕ

  step-Accounted :
      (e : LlmEngine Cell)
      → OnOk
          (λ p. Accounted e.scheduler.requests p.0.scheduler.requests p.2)
          (step keep_row give_row model draw e)
  unfolding step
  step-Accounted e =
      OnOk-bind {B = Stepped} (λ p. p.0.requests ≡ e.scheduler.requests) (Good e)
        (schedule e.scheduler) _ (schedule-SameKeys e.scheduler)
        λ p k.
          OnOk-bind {B = Stepped} (λ q. Unit) (Good e)
            (execute_model keep_row give_row model e.kv_cache p.0.store p.1) _ (OnOk-any _)
            λ q u.
              OnOk-bind {B = Stepped} (λ t. t.requests ≡ p.0.requests) (Good e)
                (register_computed (record (p.0) { store = q.1 })
                  (p.1.scheduled_new ++ p.1.scheduled_running))
                _
                (register_computed-requests (record (p.0) { store = q.1 })
                  (p.1.scheduled_new ++ p.1.scheduled_running))
                λ t j.
                  let lens = spec_pre_len p.0.store p.1.scheduled_running in
                  let c = correct_all lens p.1.scheduled_running (t, e.draft_proposer) in
                  OnOk-bind {B = Stepped} (λ f. Accounted c.0.requests f.0.requests f.1) (Good e)
                    (free_finished_requests c.0) _ (free_finished_requests-Accounted c.0)
                    λ f m.
                      OnOk-bind {B = Stepped} (λ z. z.0.requests ≡ f.0.requests) (Good e)
                        (propose_next draw f.0 c.1) _ (propose_next-requests draw f.0 c.1)
                        (λ z n.
                          subst (λ (keys : List ℕ). Accounted keys z.0.requests f.1)
                            (correct_all-requests lens p.1.scheduled_running t e.draft_proposer
                              ∙ j
                              ∙ k)
                            (subst (λ (keys : List ℕ). Accounted c.0.requests keys f.1) (sym n) m))
    where
      Good : LlmEngine Cell → Stepped → Type 0
      Good e p = Accounted e.scheduler.requests p.0.scheduler.requests p.2

  -- The engine keeps what the worker relies on: `add_request` of the engine adds a request under a key
  -- that was not there; over a whole `step`, with or without prefix caching and speculative decoding, no
  -- key leaves the dict of requests but by the step's handing the request back; and the scheduler that is
  -- put in place of the engine's is the one that is found there.
  pub llm_laws : EngineLaws llm_shape
  unfolding llm_shape NewKey
  llm_laws = record {
    adds = λ e e' prompt params a h.
        let (p, f, k) = bind_ok (add_request name_of e prompt params (some a)) (λ p. ok (p.0)) h in
        let new : NewKey e a p.0 =
          OnOk-use (λ p. NewKey e a p.0) (add_request name_of e prompt params (some a))
            (add_request-NewKey name_of e prompt params a) f in
        let keys : e'.scheduler.requests ≡ e.scheduler.requests ++ a ∷ [] =
          ap (λ x. x.scheduler.requests) (sym (ok_inj k)) ∙ new.1 in
        (
          new.0,
          subst (λ l. elem a l ≡ true) (sym keys) (elem_last a a e.scheduler.requests refl),
          λ b i. subst (λ l. elem b l ≡ true) (sym keys) (elem_before b a e.scheduler.requests i),
        );
    steps = λ e e' out gone h.
        OnOk-use (λ p. Accounted e.scheduler.requests p.0.scheduler.requests p.2)
          (step keep_row give_row model draw e) (step-Accounted e) h;
    replaces = λ e s. refl;
  }

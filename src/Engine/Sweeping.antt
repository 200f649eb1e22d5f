-- ===== src/Engine/Sweeping.antt =====
-- Which requests a whole `step` keeps, and which it hands back.
use lightserve.Prelude.{
  ℕ, ◌≡◌, refl, sym, ap, ap₂, ◌∙◌, Bool, not, Option, none, some, List, [], ◌∷◌, ◌++◌, arith, ok,
  is_some, keep, update, OnOk, OnOk-bind, OnOk-use, OnOk-any, OnOk-mono, OnOk-self, Bool-cases,
  Option-cases, Result-cases, inl, inr,
}
use lightserve.Prelude.Dict.{Dict, lookup}
use lightserve.Request.{Request, is_finished, finished, is_prefill}
use lightserve.BlockManager
use lightserve.BlockManager.{BlockManager, insert_computed_prefix}
use lightserve.BlockManager.Frame
use lightserve.BlockManager.Frame.{free-Kept}
use lightserve.Scheduler.{
  Scheduler, ScheduledRequest, SchedulerOutput, schedule, free_request, free_all, del_key,
  free_finished_requests,
}
use lightserve.Scheduler.Order.{everyone, schedule-everyone}
use lightserve.DraftProposer.{DraftProposer, propose}
use lightserve.ModelRunner.{Forward, execute_model}
use lightserve.Engine.{
  LlmEngine, step, spec_pre_len, register_prefix, register_prefixes, register_computed, correct_all,
  propose_all, propose_next,
}

abbrev SameLists : Scheduler → Scheduler → Type 0
SameLists s s' = (s'.waiting_queue ≡ s.waiting_queue) × (s'.running_list ≡ s.running_list)

SameLists-trans : (s t u : Scheduler) → SameLists s t → SameLists t u → SameLists s u
SameLists-trans s t u h k = (k.0 ∙ h.0, k.1 ∙ h.1)

register_prefix-SameLists :
    (s : Scheduler) (sr : ScheduledRequest) → OnOk (SameLists s) (register_prefix s sr)
unfolding register_prefix
register_prefix-SameLists s sr = ground arith

register_prefixes-SameLists :
    (s : Scheduler) (scheduled : List ScheduledRequest)
    → OnOk (SameLists s) (register_prefixes s scheduled)
unfolding register_prefixes
register_prefixes-SameLists s [] = (refl, refl)
register_prefixes-SameLists s (sr ∷ scheduled) =
    OnOk-bind (SameLists s) (SameLists s) (register_prefix s sr) _ (register_prefix-SameLists s sr)
      (λ t h.
        OnOk-mono (SameLists t) (SameLists s) (register_prefixes t scheduled)
          (λ u. SameLists-trans s t u h) (register_prefixes-SameLists t scheduled))

register_computed-SameLists :
    (s : Scheduler) (scheduled : List ScheduledRequest)
    → OnOk (SameLists s) (register_computed s scheduled)
unfolding register_computed
register_computed-SameLists s scheduled = elim (Bool-cases (is_some s.block_manager.prefix_cache)) [
  | inl e ↦ rw e (register_prefixes-SameLists s scheduled)
  | inr e ↦ rw e (refl, refl)
]

correct_all-SameLists :
    (pre_lens : Dict ℕ) (running : List ScheduledRequest) (s : Scheduler) (d : Option DraftProposer)
    → SameLists s (correct_all pre_lens running (s, d)).0
unfolding correct_all
correct_all-SameLists pre_lens [] s d = (refl, refl)
correct_all-SameLists pre_lens (sr ∷ running) s d =
    elim (Option-cases (lookup sr.request pre_lens)) [
      | inl e ↦ rw (e, correct_all) (correct_all-SameLists pre_lens running s d)
      | inr (pre_len, e) ↦ rw (e, correct_all) (correct_all-SameLists pre_lens running _ _)
    ]

-- No status changes.
abbrev SameStatus : (ℕ → Request) → (ℕ → Request) → Type 0
SameStatus f g = (a : ℕ) → (g a).status ≡ (f a).status

status_update :
    (store : ℕ → Request) (a : ℕ) (r : Request)
    → r.status ≡ (store a).status
    → SameStatus store (update store a r)
status_update store a r h b = ground arith

-- Neither the lists nor a status change.
abbrev Settled : Scheduler → Scheduler → Type 0
Settled s s' = SameLists s s' × SameStatus s.store s'.store

free_request-Settled : (s : Scheduler) (a : ℕ) → OnOk (Settled s) (free_request s a)
unfolding free_request
free_request-Settled s a =
    OnOk-bind (Frame.Kept s.block_manager (s.store a)) (Settled s)
      (BlockManager.free s.block_manager (s.store a)) _ (free-Kept s.block_manager (s.store a))
      (λ p h. ((refl, refl), status_update s.store a p.1 h.status))

free_all-Settled : (s : Scheduler) (l : List ℕ) → OnOk (Settled s) (free_all s l)
unfolding free_all
free_all-Settled s [] = ((refl, refl), λ a. refl)
free_all-Settled s (a ∷ rest) = elim (Result-cases (free_request s a)) [
  | inl (f, e) ↦ rw (e, free_all) tt
  | inr (t, e) ↦ elim (Result-cases (del_key a t.requests)) [
    | inl (f, q) ↦ rw (e, q, free_all) tt
    | inr (keys, q) ↦
        let h = OnOk-use (Settled s) (free_request s a) (free_request-Settled s a) e in
        rw (e, q, free_all)
          (OnOk-mono (Settled (record t { requests = keys })) (Settled s)
            (free_all (record t { requests = keys }) rest)
            (λ u k. (SameLists-trans s t u h.0 k.0, λ b. k.1 b ∙ h.1 b))
            (free_all-Settled (record t { requests = keys }) rest))
  ]
]

-- Whether a request is finished, as `free_finished_requests` asks.
abbrev pub done : (ℕ → Request) → ℕ → Bool
done store a = is_finished (store a)

Swept : Scheduler → Scheduler × List ℕ → Type 0
Swept s (s', swept) =
    (s'.waiting_queue ≡ s.waiting_queue)
    × (s'.running_list ≡ keep (λ a. not (done s.store a)) s.running_list)
    × (swept ≡ keep (done s.store) s.running_list)
    × SameStatus s.store s'.store

free_finished_requests-Swept : (s : Scheduler) → OnOk (Swept s) (free_finished_requests s)
unfolding free_finished_requests Swept
free_finished_requests-Swept s =
    let left = record s { running_list = keep (λ a. not (done s.store a)) s.running_list } in
    OnOk-bind (Settled left) (Swept s) (free_all left (keep (done s.store) s.running_list)) _
      (free_all-Settled left _) (λ t h. (h.0.0, h.0.1, refl, h.1))

propose_all-SameStatus :
    (draw : Request → ℕ) (d : DraftProposer) (store : ℕ → Request) (l : List ℕ)
    → OnOk (λ p. SameStatus store p.1) (propose_all draw d store l)
unfolding propose_all
propose_all-SameStatus draw d store [] = λ a. refl
propose_all-SameStatus draw d store (a ∷ rest) = elim (Bool-cases (is_prefill (store a))) [
  | inl e ↦ rw e (propose_all-SameStatus draw d store rest)
  | inr e ↦ rw e (
      OnOk-bind (λ p. Unit) (λ p. SameStatus store p.1) (propose draw d (store a)) _ (OnOk-any _)
        (λ p u.
          OnOk-mono (λ q. SameStatus (drafted p.1) q.1) (λ q. SameStatus store q.1)
            (propose_all draw p.0 (drafted p.1) rest)
            (λ q k b.
              k b ∙ status_update store a (record (store a) { draft_token_ids = p.1 }) refl b)
            (propose_all-SameStatus draw p.0 (drafted p.1) rest)))
]
  where
    drafted : List ℕ → ℕ → Request
    drafted drafts = update store a (record (store a) { draft_token_ids = drafts })

propose_next-Settled :
    (draw : Request → ℕ) (s : Scheduler) (d : Option DraftProposer)
    → OnOk (λ p. Settled s p.0) (propose_next draw s d)
unfolding propose_next
propose_next-Settled draw s none = ((refl, refl), λ a. refl)
propose_next-Settled draw s (some d) =
    OnOk-bind (λ p. SameStatus s.store p.1) (λ p. Settled s p.0)
      (propose_all draw d s.store s.running_list) _
      (propose_all-SameStatus draw d s.store s.running_list) (λ p h. ((refl, refl), h))

keep_same : (p q : ℕ → Bool) (xs : List ℕ) → ((a : ℕ) → p a ≡ q a) → keep p xs ≡ keep q xs
unfolding keep
keep_same p q [] h = refl
keep_same p q (x ∷ xs) h = rw (h x, keep_same p q xs h) refl

done_same : (f g : ℕ → Request) (a : ℕ) → SameStatus f g → done g a ≡ done f a
unfolding is_finished
done_same f g a h = ap finished (h a)

-- What `step` does with the requests of the engine's scheduler.
abbrev pub Sorted : Scheduler → Scheduler → List ℕ → Type 0
Sorted s s' swept =
    (ran : List ℕ) × (ran ++ s'.waiting_queue ≡ everyone s)
    × (s'.running_list ≡ keep (λ a. not (done s'.store a)) ran)
    × (swept ≡ keep (done s'.store) ran)

sweep-Sorted :
    (s t u v : Scheduler) (swept : List ℕ)
    → everyone t ≡ everyone s
    → Swept t (u, swept)
    → Settled u v
    → Sorted s v swept
unfolding Swept
sweep-Sorted s t u v swept h k l =
    let same = λ (a : ℕ). done_same t.store v.store a (λ b. l.1 b ∙ k.3 b) in
    (
      t.running_list,
      ap (λ w. t.running_list ++ w) (l.0.0 ∙ k.0) ∙ h,
      l.0.1
          ∙ k.1
          ∙ keep_same (λ a. not (done t.store a)) (λ a. not (done v.store a)) t.running_list
              (λ a. ap not (sym (same a))),
      k.2 ∙ keep_same (done t.store) (done v.store) t.running_list (λ a. sym (same a)),
    )

module _ {X Query Row Cell : Type 0} (keep_row : Bool → Row → Cell) (give_row : Bool → Cell → Row)
    (model : Forward X Query Row) (draw : Request → ℕ) where
  abbrev Stepped : Type 0
  Stepped = LlmEngine Cell × SchedulerOutput × List ℕ

  abbrev Sorts : LlmEngine Cell → Stepped → Type 0
  Sorts e p = Sorted e.scheduler p.0.scheduler p.2

  step_sorted : (e : LlmEngine Cell) → OnOk (Sorts e) (step keep_row give_row model draw e)
  unfolding step
  step_sorted e =
      OnOk-bind {B = Stepped} (λ p. schedule e.scheduler ≡ ok p) (Sorts e) (schedule e.scheduler) _
        (OnOk-self (schedule e.scheduler))
        λ p k.
          OnOk-bind {B = Stepped} (λ q. Unit) (Sorts e)
            (execute_model keep_row give_row model e.kv_cache p.0.store p.1) _ (OnOk-any _)
            λ q u.
              OnOk-bind {B = Stepped} (SameLists (record (p.0) { store = q.1 })) (Sorts e)
                (register_computed (record (p.0) { store = q.1 })
                  (p.1.scheduled_new ++ p.1.scheduled_running))
                _
                (register_computed-SameLists (record (p.0) { store = q.1 })
                  (p.1.scheduled_new ++ p.1.scheduled_running))
                λ t j.
                  let lens = spec_pre_len p.0.store p.1.scheduled_running in
                  let c = correct_all lens p.1.scheduled_running (t, e.draft_proposer) in
                  let l = correct_all-SameLists lens p.1.scheduled_running t e.draft_proposer in
                  OnOk-bind {B = Stepped} (Swept c.0) (Sorts e) (free_finished_requests c.0) _
                    (free_finished_requests-Swept c.0)
                    λ f m.
                      OnOk-bind {B = Stepped} (λ z. Settled f.0 z.0) (Sorts e)
                        (propose_next draw f.0 c.1) _ (propose_next-Settled draw f.0 c.1)
                        (λ z n.
                          sweep-Sorted e.scheduler c.0 f.0 z.0 f.1
                            (ap₂ ◌++◌ (l.1 ∙ j.1) (l.0 ∙ j.0)
                              ∙ schedule-everyone e.scheduler p.0 p.1 k)
                            m n)

  -- The requests through a `step` that returns, with prefix caching and speculative decoding or
  -- without: the requests that the scheduling left running, followed by those that wait afterwards, are
  -- the running and the waiting requests of before, in their order; of the former exactly the unfinished
  -- still run and exactly the finished are handed back, both in their order.
  pub step-Sorted :
      (e e' : LlmEngine Cell) (out : SchedulerOutput) (swept : List ℕ)
      → step keep_row give_row model draw e ≡ ok (e', out, swept)
      → Sorted e.scheduler e'.scheduler swept
  step-Sorted e e' out swept h =
      OnOk-use (Sorts e) (step keep_row give_row model draw e) (step_sorted e) h

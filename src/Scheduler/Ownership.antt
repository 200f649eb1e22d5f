-- ===== src/Scheduler/Ownership.antt =====
-- Block ownership through the scheduler, where prefix caching is off.
use lightserve.Prelude.{
  ℕ, ◌+◌, ◌∙◌, Bool, true, false, none, List, [], ◌∷◌, reverse, length, OnOk, OnOk-any, OnOk-use,
  OnOk-bind, Bool-cases, Result-cases, inl, inr, leb, elem,
}
use lightserve.Request.{Request}
use lightserve.BlockManager.{BlockManager, allocate, append_slot, ensure_capacity, match_prefix}
use lightserve.BlockManager
use lightserve.BlockManager.Ownership.{
  Conserves, Conserves-trans, free-Conserves, append_slot-Conserves, ensure_capacity-Conserves,
  allocate-Conserves, match_prefix_off,
}
use lightserve.Scheduler.Rule.{Room, make_room_inv, run_rounds_inv, admit_loop_inv, schedule_ind}
use lightserve.Scheduler.{
  Scheduler, SchedulerOutput, Round, Admission, free_request, preempt, make_room, advance,
  is_speculative, num_new_tokens, chunk_of, settle, give_tokens, visit, run_rounds,
  schedule_running, admit, seed_computed, admit_loop, schedule_waiting, schedule, del_key, free_all,
  free_finished_requests, abort_waiting, aborted_one, abort_requests, add_request,
}

-- The blocks of `s` have the same owners in number as those of the manager `m`, and caching is off.
abbrev pub Owned : BlockManager → Scheduler → Type 0
Owned m s = Conserves m s.block_manager

free_request-Owned :
    (m : BlockManager) (s : Scheduler) (a : ℕ) → Owned m s → OnOk (Owned m) (free_request s a)
unfolding free_request
free_request-Owned m s a h =
    OnOk-bind (λ p. Conserves s.block_manager p.0) (Owned m)
      (BlockManager.free s.block_manager (s.store a)) _
      (free-Conserves s.block_manager (s.store a) h.0)
      (λ p k. Conserves-trans m s.block_manager p.0 h k)

preempt-Owned :
    (m : BlockManager) (s : Scheduler) (out : SchedulerOutput) (a : ℕ)
    → Owned m s
    → OnOk (λ p. Owned m p.0) (preempt s a out)
unfolding preempt
preempt-Owned m s out a h =
    OnOk-bind (Owned m) (λ p. Owned m p.0) (free_request s a) _ (free_request-Owned m s a h)
      (λ s' k. k)

advance-Owned :
    (m : BlockManager) (s : Scheduler) (a : ℕ) (is_spec : Bool) (target_len chunk : ℕ)
    → Owned m s
    → OnOk (Owned m) (advance s a is_spec target_len chunk)
unfolding advance
advance-Owned m s a true target_len chunk h =
    OnOk-bind (λ p. Conserves s.block_manager p.0) (Owned m)
      (ensure_capacity s.block_manager (s.store a) target_len) _
      (ensure_capacity-Conserves s.block_manager (s.store a) target_len h.0)
      (λ p k. Conserves-trans m s.block_manager p.0 h k)
advance-Owned m s a false target_len chunk h =
    OnOk-bind (λ p. Conserves s.block_manager p.0) (Owned m)
      (append_slot s.block_manager (s.store a)) _
      (append_slot-Conserves s.block_manager (s.store a) h.0)
      (λ p k. Conserves-trans m s.block_manager p.0 h k)

settle-Owned :
    (m : BlockManager) (st : Round) (a chunk : ℕ) (p : Bool × Scheduler × SchedulerOutput × List ℕ)
    → Owned m p.1
    → OnOk (λ st'. Owned m st'.scheduler) (settle st a chunk p)
unfolding settle
settle-Owned m st a chunk (false, s, out, rest) h = h
settle-Owned m st a chunk (true, s, out, rest) h =
    let r = st.scheduler.store a in
    OnOk-bind (Owned m) _ (advance s a (is_speculative r) (r.num_computed_tokens + chunk) chunk) _
      (advance-Owned m s a (is_speculative r) (r.num_computed_tokens + chunk) chunk h) (λ s' k. k)

give_tokens-Owned :
    (m : BlockManager) (st : Round) (a : ℕ)
    → Owned m st.scheduler
    → OnOk (λ st'. Owned m st'.scheduler) (give_tokens st a)
unfolding give_tokens
give_tokens-Owned m st a h =
    let r = st.scheduler.store a in
    let chunk = chunk_of r st.token_budget in
    let target_len = r.num_computed_tokens + chunk in
    OnOk-bind (Room (λ p. Owned m p.0) a (is_speculative r) target_len) _
      (make_room st.scheduler st.output a (is_speculative r) target_len (reverse st.pending)) _
      (make_room_inv (λ p. Owned m p.0) (preempt-Owned m) st.scheduler st.output a
        (is_speculative r) target_len (reverse st.pending) h)
      (λ p q. settle-Owned m st a chunk p q.0)

visit-Owned :
    (m : BlockManager) (st : Round) (a : ℕ)
    → Owned m st.scheduler
    → OnOk (λ st'. Owned m st'.scheduler) (visit st a)
unfolding visit
visit-Owned m st a h = elim (Bool-cases (leb (num_new_tokens (st.scheduler.store a)) 0)) [
  | inl e ↦ rw e h
  | inr e ↦ rw e (elim (Bool-cases (leb st.token_budget 0)) [
    | inl f ↦ rw f h
    | inr f ↦ rw f (give_tokens-Owned m st a h)
  ])
]

admit-Owned :
    (m : BlockManager) (st : Admission) (a : ℕ)
    → Owned m st.scheduler
    → OnOk (λ st'. Owned m st'.scheduler) (admit st a none)
unfolding admit
admit-Owned m st a h =
    let bm = st.scheduler.block_manager in
    OnOk-bind (λ p. Conserves bm p.0) _ (allocate bm (st.scheduler.store a) none) _
      (allocate-Conserves bm (st.scheduler.store a) h.0)
      λ p k.
        OnOk-bind (λ q. Unit) _ (seed_computed _ none) _ (OnOk-any _)
          (λ q u. Conserves-trans m bm p.0 h k)

pub schedule-Owned :
    (m : BlockManager) (s : Scheduler) → Owned m s → OnOk (λ p. Owned m p.0) (schedule s)
unfolding schedule_running schedule_waiting
schedule-Owned m s h =
    schedule_ind (λ p. Owned m p.0) (λ p. Owned m p.0) s
      (record {
        first =
            OnOk-bind (λ st. Owned m st.scheduler) _ (run_rounds (length s.running_list) _) _
              (run_rounds_inv (λ st. Owned m st.scheduler)
                (λ st a rest e k. visit-Owned m (record st { pending = rest }) a k)
                (length s.running_list) _ h)
              (λ st k. k);
        stop = λ p k e. k;
        second = λ p k e.
            OnOk-bind (λ st. Owned m st.scheduler) _ (admit_loop _ p.0.waiting_queue) _
              (admit_loop_inv (λ st. Owned m st.scheduler)
                (λ st a found f b i.
                  rw (f ∙ match_prefix_off st.scheduler.block_manager _ i.0) (admit-Owned m st a i))
                (λ st queue i. i) _ p.0.waiting_queue k)
              (λ st i. i);
      })

free_all-Owned :
    (m : BlockManager) (s : Scheduler) (l : List ℕ) → Owned m s → OnOk (Owned m) (free_all s l)
unfolding free_all
free_all-Owned m s [] h = h
free_all-Owned m s (a ∷ rest) h = elim (Result-cases (free_request s a)) [
  | inl (f, e) ↦ rw (e, free_all) tt
  | inr (s', e) ↦ elim (Result-cases (del_key a s'.requests)) [
    | inl (f, q) ↦ rw (e, q, free_all) tt
    | inr (keys, q) ↦
        rw (e, q, free_all)
          (free_all-Owned m (record s' { requests = keys }) rest
            (OnOk-use (Owned m) (free_request s a) (free_request-Owned m s a h) e))
  ]
]

pub free_finished_requests-Owned :
    (m : BlockManager) (s : Scheduler)
    → Owned m s
    → OnOk (λ p. Owned m p.0) (free_finished_requests s)
unfolding free_finished_requests
free_finished_requests-Owned m s h =
    OnOk-bind (Owned m) _ (free_all _ _) _ (free_all-Owned m _ _ h) (λ s' k. k)

abort_waiting-Owned :
    (m : BlockManager) (s : Scheduler) (ids queue : List ℕ)
    → Owned m s
    → OnOk (λ p. Owned m p.0) (abort_waiting s ids queue)
unfolding abort_waiting
abort_waiting-Owned m s ids [] h = h
abort_waiting-Owned m s ids (a ∷ queue) h = elim (Bool-cases (elem a ids)) [
  | inr e ↦ elim (Result-cases (abort_waiting s ids queue)) [
    | inl (f, q) ↦ rw (e, abort_waiting) (rw q tt)
    | inr (p, q) ↦
        rw (e, abort_waiting)
          (rw q (OnOk-use _ (abort_waiting s ids queue) (abort_waiting-Owned m s ids queue h) q))
  ]
  | inl e ↦ elim (Result-cases (del_key a s.requests)) [
    | inl (f, q) ↦ rw (e, abort_waiting) (rw q tt)
    | inr (keys, q) ↦
        let s' = aborted_one s a keys in
        elim (Result-cases (abort_waiting s' ids queue)) [
          | inl (f, t) ↦ rw (e, abort_waiting) (rw q (rw t tt))
          | inr (p, t) ↦
              rw (e, abort_waiting)
                (rw q (
                  rw t (
                    OnOk-use _ (abort_waiting s' ids queue) (abort_waiting-Owned m s' ids queue h)
                      t)))
        ]
  ]
]

pub abort_requests-Owned :
    (m : BlockManager) (s : Scheduler) (ids : List ℕ)
    → Owned m s
    → OnOk (λ p. Owned m p.0) (abort_requests s ids)
unfolding abort_requests
abort_requests-Owned m s ids h =
    OnOk-bind (λ p. Owned m p.0) _ (abort_waiting s ids s.waiting_queue) _
      (abort_waiting-Owned m s ids s.waiting_queue h)
      λ p k.
        OnOk-bind (λ p. Owned m p.0) _ (free_finished_requests _) _
          (free_finished_requests-Owned m _ k) (λ q l. l)

pub add_request-Owned :
    (m : BlockManager) (s : Scheduler) (r : Request) → Owned m s → OnOk (Owned m) (add_request s r)
unfolding add_request
add_request-Owned m s r h = elim (Bool-cases (elem r.request_id s.requests)) [
  | inl e ↦ rw e tt
  | inr e ↦ rw e h
]

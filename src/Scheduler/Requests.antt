-- ===== src/Scheduler/Requests.antt =====
-- Scheduling leaves the dict `requests` alone.
use lightserve.Prelude.{
  ℕ, ◌+◌, ◌≡◌, refl, ◌∙◌, Bool, true, false, List, reverse, length, OnOk, OnOk-bind, OnOk-mono,
  Bool-cases, inl, inr, leb,
}
use lightserve.Scheduler.Rule.{Room, make_room_inv, run_rounds_inv, admit_loop_inv, schedule_ind}
use lightserve.Scheduler.{
  Scheduler, SchedulerOutput, Round, preempt, make_room, advance, is_speculative, num_new_tokens,
  chunk_of, settle, give_tokens, visit, run_rounds, schedule_running, admit, admit_loop,
  schedule_waiting, schedule,
}
use lightserve.Scheduler.Frame.{Kept, preempt-Kept, advance-Kept, admit-Kept}

abbrev SameKeys : List ℕ → Scheduler → Type 0
SameKeys keys s = s.requests ≡ keys

preempt-SameKeys :
    (keys : List ℕ) (s : Scheduler) (out : SchedulerOutput) (a : ℕ)
    → SameKeys keys s
    → OnOk (λ p. SameKeys keys p.0) (preempt s a out)
preempt-SameKeys keys s out a h =
    OnOk-mono (λ p. Kept s p.0) (λ p. SameKeys keys p.0) (preempt s a out) (λ p k. k.requests ∙ h)
      (preempt-Kept s a out)

settle-SameKeys :
    (keys : List ℕ) (st : Round) (a chunk : ℕ) (p : Bool × Scheduler × SchedulerOutput × List ℕ)
    → SameKeys keys p.1
    → OnOk (λ st'. SameKeys keys st'.scheduler) (settle st a chunk p)
unfolding settle
settle-SameKeys keys st a chunk (false, s, out, rest) h = h
settle-SameKeys keys st a chunk (true, s, out, rest) h =
    let r = st.scheduler.store a in
    OnOk-bind (Kept s) (λ st'. SameKeys keys st'.scheduler)
      (advance s a (is_speculative r) (r.num_computed_tokens + chunk) chunk) _
      (advance-Kept s a (is_speculative r) (r.num_computed_tokens + chunk) chunk)
      (λ s' k. k.requests ∙ h)

visit-SameKeys :
    (keys : List ℕ) (st : Round) (a : ℕ)
    → SameKeys keys st.scheduler
    → OnOk (λ st'. SameKeys keys st'.scheduler) (visit st a)
unfolding visit give_tokens
visit-SameKeys keys st a h = elim (Bool-cases (leb (num_new_tokens (st.scheduler.store a)) 0)) [
  | inl e ↦ rw e h
  | inr e ↦
      rw e (elim (Bool-cases (leb st.token_budget 0)) [ inl f ↦ rw f h | inr f ↦ rw f (given) ])
]
  where
    given : OnOk (λ st'. SameKeys keys st'.scheduler) (give_tokens st a)
    given =
        let r = st.scheduler.store a in
        let chunk = chunk_of r st.token_budget in
        let target_len = r.num_computed_tokens + chunk in
        OnOk-bind (Room (λ p. SameKeys keys p.0) a (is_speculative r) target_len) _
          (make_room st.scheduler st.output a (is_speculative r) target_len (reverse st.pending)) _
          (make_room_inv (λ p. SameKeys keys p.0) (preempt-SameKeys keys) st.scheduler st.output a
            (is_speculative r) target_len (reverse st.pending) h)
          (λ p q. settle-SameKeys keys st a chunk p q.0)

pub schedule-SameKeys : (s : Scheduler) → OnOk (λ p. p.0.requests ≡ s.requests) (schedule s)
unfolding schedule_running schedule_waiting
schedule-SameKeys s =
    schedule_ind (λ p. SameKeys s.requests p.0) (λ p. SameKeys s.requests p.0) s
      (record {
        first =
            OnOk-bind (λ st. SameKeys s.requests st.scheduler) _
              (run_rounds (length s.running_list) _) _
              (run_rounds_inv (λ st. SameKeys s.requests st.scheduler)
                (λ st a rest e k. visit-SameKeys s.requests (record st { pending = rest }) a k)
                (length s.running_list) _ refl)
              (λ st k. k);
        stop = λ p k e. k;
        second = λ p k e.
            OnOk-bind (λ st. SameKeys s.requests st.scheduler) _ (admit_loop _ p.0.waiting_queue) _
              (admit_loop_inv (λ st. SameKeys s.requests st.scheduler)
                (λ st a found f b i.
                  OnOk-mono (λ t. Kept st.scheduler t.scheduler)
                    (λ t. SameKeys s.requests t.scheduler) (admit st a found)
                    (λ t l. l.requests ∙ i) (admit-Kept st a found))
                (λ st queue i. i) _ p.0.waiting_queue k)
              (λ st i. i);
      })

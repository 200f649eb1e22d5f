-- ===== src/Scheduler/Limits.antt =====
-- How many requests run at once.
use lightserve.Prelude.{
  ℕ, ◌+◌, ◌≤◌, ◌<◌, ◌≡◌, refl, ap, ◌∙◌, Bool, true, false, Option, List, [], ◌∷◌, reverse, arith,
  length, length-append, ok, OnOk, OnOk-use, OnOk-mono, OnOk-bind, OnOk-both,
}
use lightserve.Config.{SchedulerConfig}
use lightserve.PrefixCache.{PrefixMatch}
use lightserve.Scheduler.Frame.{Kept, preempt-Kept, advance-Kept, admit-Kept}
use lightserve.Scheduler.Order.{schedule_running-le_length, Admits, admit-Admits}
use lightserve.Scheduler.Rule.{Room, make_room_inv, run_rounds_inv, admit_loop_inv, schedule_ind}
use lightserve.Scheduler.{
  Scheduler, SchedulerOutput, Round, Admission, preempt, make_room, advance, is_speculative,
  chunk_of, settle, give_tokens, visit, run_rounds, schedule_running, blocked, admit, admit_loop,
  schedule_waiting, schedule,
}

-- The configuration is `c`.
abbrev Configured : SchedulerConfig → Scheduler → Type 0
Configured c s = s.scheduler_config ≡ c

settle-Configured :
    (c : SchedulerConfig) (st : Round) (a chunk : ℕ)
    (p : Bool × Scheduler × SchedulerOutput × List ℕ)
    → Configured c p.1
    → OnOk (λ st'. Configured c st'.scheduler) (settle st a chunk p)
unfolding settle
settle-Configured c st a chunk (false, s, out, rest) h = h
settle-Configured c st a chunk (true, s, out, rest) h =
    let r = st.scheduler.store a in
    OnOk-bind (Kept s) _ (advance s a (is_speculative r) (r.num_computed_tokens + chunk) chunk) _
      (advance-Kept s a (is_speculative r) (r.num_computed_tokens + chunk) chunk)
      (λ s' k. k.config ∙ h)

give_tokens-Configured :
    (c : SchedulerConfig) (st : Round) (a : ℕ)
    → Configured c st.scheduler
    → OnOk (λ st'. Configured c st'.scheduler) (give_tokens st a)
unfolding give_tokens
give_tokens-Configured c st a h =
    let r = st.scheduler.store a in
    let P : Scheduler × SchedulerOutput → Type 0 = λ p. Configured c p.0 in
    let target_len = r.num_computed_tokens + chunk_of r st.token_budget in
    OnOk-bind (Room P a (is_speculative r) target_len) _
      (make_room st.scheduler st.output a (is_speculative r) target_len (reverse st.pending)) _
      (make_room_inv P
        (λ s out v k. OnOk-mono _ P (preempt s v out) (λ p l. l.config ∙ k) (preempt-Kept s v out))
        st.scheduler st.output a (is_speculative r) target_len (reverse st.pending) h)
      (λ p q. settle-Configured c st a _ p q.0)

visit-Configured :
    (c : SchedulerConfig) (st : Round) (a : ℕ)
    → Configured c st.scheduler
    → OnOk (λ st'. Configured c st'.scheduler) (visit st a)
unfolding visit
visit-Configured c st a h = ground (arith, give_tokens-Configured c st a h)

schedule_running-Configured :
    (s : Scheduler) (token_budget : ℕ)
    → OnOk (λ p. Configured s.scheduler_config p.0) (schedule_running s token_budget)
unfolding schedule_running
schedule_running-Configured s token_budget =
    let c = s.scheduler_config in
    OnOk-bind (λ st. Configured c st.scheduler) _ (run_rounds (length s.running_list) _) _
      (run_rounds_inv (λ st. Configured c st.scheduler)
        (λ st a rest e h. visit-Configured c (record st { pending = rest }) a h)
        (length s.running_list) _ refl)
      (λ st h. h)

-- At most as many requests run as the configuration `c` allows.
abbrev Limited : SchedulerConfig → Scheduler → Type 0
Limited c s = (s.scheduler_config ≡ c) × (length s.running_list ≤ c.max_num_seqs)

blocked_room :
    (st : Admission) (a : ℕ) (found : Option PrefixMatch)
    → blocked st a found ≡ false
    → length st.scheduler.running_list < st.scheduler.scheduler_config.max_num_seqs
unfolding blocked
blocked_room st a found h = ground arith

admit-Limited :
    (c : SchedulerConfig) (st : Admission) (a : ℕ) (found : Option PrefixMatch)
    → blocked st a found ≡ false
    → Limited c st.scheduler
    → OnOk (λ st'. Limited c st'.scheduler) (admit st a found)
admit-Limited c st a found b h =
    OnOk-mono _ _ (admit st a found)
      (λ st' k. (
        k.0.config ∙ h.0,
        omega (
          arith,
          blocked_room st a found b,
          ap (λ x. x.max_num_seqs) h.0,
          ap length k.1.0,
          length-append st.scheduler.running_list (a ∷ []),
        ),
      ))
      (OnOk-both (λ st'. Kept st.scheduler st'.scheduler) (Admits st a) (admit st a found)
        (admit-Kept st a found) (admit-Admits st a found))

waiting_Limited :
    (c : SchedulerConfig) (s : Scheduler) (out : SchedulerOutput) (token_budget : ℕ)
    → Limited c s
    → OnOk (λ q. Limited c q.0) (schedule_waiting s out token_budget)
unfolding schedule_waiting
waiting_Limited c s out token_budget k =
    OnOk-bind (λ st. Limited c st.scheduler) _ (admit_loop _ s.waiting_queue) _
      (admit_loop_inv (λ st. Limited c st.scheduler)
        (λ st a found f b i. admit-Limited c st a found b i) (λ st queue i. i) _ s.waiting_queue k)
      (λ st i. i)

-- A step that starts with at most `max_num_seqs` running requests ends with at most that many.
pub schedule-le_seqs :
    (s s' : Scheduler) (out : SchedulerOutput)
    → length s.running_list ≤ s.scheduler_config.max_num_seqs
    → schedule s ≡ ok (s', out)
    → length s'.running_list ≤ s.scheduler_config.max_num_seqs
schedule-le_seqs s s' out few h =
    (OnOk-use Q (schedule s)
      (schedule_ind P Q s (record {
        first =
            OnOk-mono _ P (schedule_running s s.scheduler_config.max_num_batched_tokens)
              (λ p k. (k.0, omega (arith, few, k.1)))
              (OnOk-both (λ p. Configured s.scheduler_config p.0) _
                (schedule_running s s.scheduler_config.max_num_batched_tokens)
                (schedule_running-Configured s s.scheduler_config.max_num_batched_tokens)
                (schedule_running-le_length s s.scheduler_config.max_num_batched_tokens));
        stop = λ p k e. k;
        second = λ p k e. waiting_Limited s.scheduler_config p.0 p.1 p.2 k;
      }))
      h).1
  where
    P : Scheduler × SchedulerOutput × ℕ → Type 0
    P p = Limited s.scheduler_config p.0

    Q : Scheduler × SchedulerOutput → Type 0
    Q p = Limited s.scheduler_config p.0

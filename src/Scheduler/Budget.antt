-- ===== src/Scheduler/Budget.antt =====
-- How many tokens one step schedules, and how many requests run.
use lightserve.Prelude.{
  ℕ, suc, ◌+◌, ◌-◌, ◌≤◌, ◌<◌, ◌≡◌, refl, Bool, true, false, Option, List, [], ◌∷◌, ◌++◌, reverse,
  arith, length, min, OnOk, OnOk-use, OnOk-mono, OnOk-bind, OnOk-any, OnOk-both, ◌⊎◌, ◌∙◌, ok, inl,
  inr, ap, Bool-cases, leb,
}
use lightserve.PrefixCache.{PrefixMatch}
use lightserve.Request.{Request, get_num_new_tokens}
use lightserve.BlockManager.{allocate}
use lightserve.Scheduler.Frame.{Kept, Kept-refl, Kept-trans, preempt-Kept, advance-Kept, admit-Kept}
use lightserve.Scheduler.Rule.{Room, make_room_inv, run_rounds_inv, admit_loop_inv, schedule_ind}
use lightserve.Scheduler.{
  Scheduler, SchedulerOutput, ScheduledRequest, Round, Admission, sum_scheduled, preempt, make_room,
  advance, is_speculative, num_new_tokens, chunk_of, settle, give_tokens, visit, run_rounds,
  schedule_running, admit, seed_computed, admit_loop, schedule_waiting, schedule,
  total_num_scheduled_tokens,
}

-- No request has more than `k` draft tokens.
abbrev pub DraftsWithin : ℕ → Scheduler → Type 0
DraftsWithin k s = (a : ℕ) → length (s.store a).draft_token_ids ≤ k

DraftsWithin-Kept : (k : ℕ) (s s' : Scheduler) → Kept s s' → DraftsWithin k s → DraftsWithin k s'
DraftsWithin-Kept k s s' h d a = rw ((h.text a).drafts) (d a)

sum_scheduled-append :
    (xs ys : List ScheduledRequest) → sum_scheduled (xs ++ ys) ≡ sum_scheduled xs + sum_scheduled ys
unfolding sum_scheduled
sum_scheduled-append [] ys = omega arith
sum_scheduled-append (x ∷ xs) ys = omega (arith, sum_scheduled-append xs ys)

sum_scheduled_snoc :
    (xs : List ScheduledRequest) (a n : ℕ)
    → sum_scheduled (xs ++ record { request = a; num_scheduled_tokens = n } ∷ [])
      ≡ sum_scheduled xs + n
unfolding sum_scheduled
sum_scheduled_snoc xs a n =
    omega (arith, sum_scheduled-append xs (record { request = a; num_scheduled_tokens = n } ∷ []))

-- What one request is given: the budget is a bound, but for one speculative request.
chunk_of_le :
    (r : Request) (k budget : ℕ)
    → length r.draft_token_ids ≤ k
    → (chunk_of r budget ≤ budget) ⊎ (chunk_of r budget ≤ suc k)
unfolding chunk_of
chunk_of_le r k budget h = ground arith

-- The invariant of `_schedule_running`: `limit` is the budget of the step.
record Spent (k limit : ℕ) (s₀ : Scheduler) (st : Round) : Type 0 where
  kept : Kept s₀ st.scheduler
  overall : sum_scheduled st.output.scheduled_running + st.token_budget ≤ limit + k
  left : 0 < st.token_budget → sum_scheduled st.output.scheduled_running + st.token_budget ≤ limit
  no_new : st.output.scheduled_new ≡ []

-- Preemption changes neither the store's texts nor what is scheduled.
abbrev Preempted : Scheduler → SchedulerOutput → Scheduler × SchedulerOutput → Type 0
Preempted s out p =
    Kept s p.0
    × (p.1.scheduled_running ≡ out.scheduled_running)
    × (p.1.scheduled_new ≡ out.scheduled_new)

preempt_output :
    (s : Scheduler) (v : ℕ) (out : SchedulerOutput)
    → OnOk
        (λ p.
          (p.1.scheduled_running ≡ out.scheduled_running) × (p.1.scheduled_new ≡ out.scheduled_new))
        (preempt s v out)
unfolding preempt
preempt_output s v out = ground arith

preempt-Preempted :
    (s₀ : Scheduler) (out₀ : SchedulerOutput) (s : Scheduler) (out : SchedulerOutput) (v : ℕ)
    → Preempted s₀ out₀ (s, out)
    → OnOk (Preempted s₀ out₀) (preempt s v out)
preempt-Preempted s₀ out₀ s out v h =
    OnOk-mono _ (Preempted s₀ out₀) (preempt s v out)
      (λ p k. (Kept-trans s₀ s p.0 h.0 k.0, k.1.0 ∙ h.1, k.1.1 ∙ h.2))
      (OnOk-both (λ p. Kept s p.0) _ (preempt s v out) (preempt-Kept s v out)
        (preempt_output s v out))

settle-Spent :
    (k limit : ℕ) (s₀ : Scheduler) (st : Round) (a : ℕ)
    (p : Bool × Scheduler × SchedulerOutput × List ℕ)
    → DraftsWithin k s₀
    → 0 < st.token_budget
    → Spent k limit s₀ st
    → Preempted st.scheduler st.output (p.1, p.2)
    → OnOk (Spent k limit s₀) (settle st a (chunk_of (st.scheduler.store a) st.token_budget) p)
unfolding settle
settle-Spent k limit s₀ st a (false, s, out, rest) d pos h q = record {
  kept = Kept-trans s₀ st.scheduler s h.kept q.0;
  overall = rw q.1 h.overall;
  left = rw q.1 h.left;
  no_new = q.2 ∙ h.no_new;
}
settle-Spent k limit s₀ st a (true, s, out, rest) d pos h q =
    let r = st.scheduler.store a in
    let chunk = chunk_of r st.token_budget in
    let bound = chunk_of_le r k st.token_budget (DraftsWithin-Kept k s₀ st.scheduler h.kept d a) in
    let same = ap sum_scheduled q.1 in
    let total = sum_scheduled_snoc out.scheduled_running a chunk in
    OnOk-bind (Kept s) (Spent k limit s₀)
      (advance s a (is_speculative r) (r.num_computed_tokens + chunk) chunk) _
      (advance-Kept s a (is_speculative r) (r.num_computed_tokens + chunk) chunk)
      λ s' c. record {
        kept = Kept-trans s₀ s s' (Kept-trans s₀ st.scheduler s h.kept q.0) c;
        overall = omega (arith, bound, same, total, h.left pos);
        left = omega (arith, bound, same, total, h.left pos);
        no_new = q.2 ∙ h.no_new;
      }

give_tokens-Spent :
    (k limit : ℕ) (s₀ : Scheduler) (st : Round) (a : ℕ)
    → DraftsWithin k s₀
    → 0 < st.token_budget
    → Spent k limit s₀ st
    → OnOk (Spent k limit s₀) (give_tokens st a)
unfolding give_tokens
give_tokens-Spent k limit s₀ st a d pos h =
    let r = st.scheduler.store a in
    let chunk = chunk_of r st.token_budget in
    let P = Preempted st.scheduler st.output in
    let target_len = r.num_computed_tokens + chunk in
    OnOk-bind (Room P a (is_speculative r) target_len) (Spent k limit s₀)
      (make_room st.scheduler st.output a (is_speculative r) target_len (reverse st.pending)) _
      (make_room_inv P (preempt-Preempted st.scheduler st.output) st.scheduler st.output a
        (is_speculative r) target_len (reverse st.pending) (Kept-refl st.scheduler, refl, refl))
      (λ p q. settle-Spent k limit s₀ st a p d pos h q.0)

visit-Spent :
    (k limit : ℕ) (s₀ : Scheduler) (st : Round) (a : ℕ)
    → DraftsWithin k s₀
    → Spent k limit s₀ st
    → OnOk (Spent k limit s₀) (visit st a)
unfolding visit
visit-Spent k limit s₀ st a d h =
    elim (Bool-cases (leb (num_new_tokens (st.scheduler.store a)) 0)) [
      | inl e ↦
          rw e (record { kept = h.kept; overall = h.overall; left = h.left; no_new = h.no_new })
      | inr e ↦ rw e (elim (Bool-cases (leb st.token_budget 0)) [
        | inl f ↦
            rw f (record { kept = h.kept; overall = h.overall; left = h.left; no_new = h.no_new })
        | inr f ↦ rw f (give_tokens-Spent k limit s₀ st a d (ground arith) h)
      ])
    ]

-- Behind `_schedule_running`: the bound holds for what is scheduled with what is left.
abbrev RunningSpent : ℕ → Scheduler → Scheduler × SchedulerOutput × ℕ → Type 0
RunningSpent k s p =
    Kept s p.0
    × (sum_scheduled p.1.scheduled_running + p.2 ≤ s.scheduler_config.max_num_batched_tokens + k)
    × (p.1.scheduled_new ≡ [])

schedule_running-RunningSpent :
    (k : ℕ) (s : Scheduler)
    → DraftsWithin k s
    → OnOk (RunningSpent k s) (schedule_running s s.scheduler_config.max_num_batched_tokens)
unfolding schedule_running sum_scheduled
schedule_running-RunningSpent k s d =
    let limit = s.scheduler_config.max_num_batched_tokens in
    OnOk-bind (Spent k limit s) (RunningSpent k s) (run_rounds (length s.running_list) _) _
      (run_rounds_inv (Spent k limit s)
        (λ st a rest e h.
          visit-Spent k limit s (record st { pending = rest }) a d
            (record { kept = h.kept; overall = h.overall; left = h.left; no_new = h.no_new }))
        (length s.running_list) _
        (record {
          kept = Kept-refl s;
          overall = omega arith;
          left = λ _. omega arith;
          no_new = refl;
        }))
      (λ st h. (
        record { config = h.kept.config; requests = h.kept.requests; text = h.kept.text },
        h.overall,
        h.no_new,
      ))

-- An admission takes from the budget what it schedules.
abbrev Admitted : Admission → ℕ → Admission → Type 0
Admitted st a st' =
    (n : ℕ) × (n ≤ st.token_budget)
    × (st'.token_budget ≡ st.token_budget - n)
    × (st'.output.scheduled_new
        ≡ st.output.scheduled_new ++ record { request = a; num_scheduled_tokens = n } ∷ [])
    × (st'.output.scheduled_running ≡ st.output.scheduled_running)

admit-Admitted :
    (st : Admission) (a : ℕ) (found : Option PrefixMatch) → OnOk (Admitted st a) (admit st a found)
unfolding admit
admit-Admitted st a found =
    OnOk-bind (λ p. Unit) (Admitted st a) (allocate st.scheduler.block_manager _ found) _
      (OnOk-any _)
      λ p u.
        OnOk-bind (λ q. Unit) (Admitted st a) (seed_computed _ found) _ (OnOk-any _)
          λ q v. (min (get_num_new_tokens q) st.token_budget, omega arith, refl, refl, refl)

record Spending (k limit : ℕ) (s₀ : Scheduler) (st : Admission) : Type 0 where
  kept : Kept s₀ st.scheduler
  overall :
      sum_scheduled st.output.scheduled_new
        + sum_scheduled st.output.scheduled_running
        + st.token_budget
      ≤ limit + k

admit-Spending :
    (k limit : ℕ) (s₀ : Scheduler) (st : Admission) (a : ℕ) (found : Option PrefixMatch)
    → Spending k limit s₀ st
    → OnOk (Spending k limit s₀) (admit st a found)
admit-Spending k limit s₀ st a found h =
    OnOk-mono _ (Spending k limit s₀) (admit st a found)
      (λ st' q. record {
        kept = Kept-trans s₀ st.scheduler st'.scheduler h.kept q.0;
        overall = omega (
          arith,
          h.overall,
          ap sum_scheduled q.1.3,
          ap sum_scheduled q.1.4,
          sum_scheduled_snoc st.output.scheduled_new a q.1.0,
          q.1.1,
          q.1.2,
        );
      })
      (OnOk-both (λ st'. Kept st.scheduler st'.scheduler) (Admitted st a) (admit st a found)
        (admit-Kept st a found) (admit-Admitted st a found))

abbrev Within : ℕ → Scheduler → Scheduler × SchedulerOutput → Type 0
Within k s p = total_num_scheduled_tokens p.1 ≤ s.scheduler_config.max_num_batched_tokens + k

schedule-Within : (k : ℕ) (s : Scheduler) → DraftsWithin k s → OnOk (Within k s) (schedule s)
unfolding schedule_waiting total_num_scheduled_tokens
schedule-Within k s d =
    let limit = s.scheduler_config.max_num_batched_tokens in
    schedule_ind (RunningSpent k s) (Within k s) s (record {
      first = schedule_running-RunningSpent k s d;
      stop = λ p h e. rw h.2 (omega (arith, h.1));
      second = λ p h e.
          OnOk-bind (Spending k limit s) (λ q. Within k s (q.0, q.1))
            (admit_loop _ p.0.waiting_queue) _
            (admit_loop_inv (Spending k limit s)
              (λ st a found f b i. admit-Spending k limit s st a found i)
              (λ st queue i. record {
                kept = record {
                  config = i.kept.config;
                  requests = i.kept.requests;
                  text = i.kept.text;
                };
                overall = i.overall;
              })
              _ p.0.waiting_queue
              (record { kept = h.0; overall = omega (arith, h.1, ap sum_scheduled h.2) }))
            (λ st i. omega (
              arith,
              i.overall,
              sum_scheduled-append st.output.scheduled_new st.output.scheduled_running,
            ));
    })

-- One step schedules at most the token budget, and more only for one speculative request, by at most
-- its `k` draft tokens: with no draft tokens in the engine the budget itself is the bound.
pub schedule-le_budget :
    (k : ℕ) (s s' : Scheduler) (out : SchedulerOutput)
    → DraftsWithin k s
    → schedule s ≡ ok (s', out)
    → total_num_scheduled_tokens out ≤ s.scheduler_config.max_num_batched_tokens + k
schedule-le_budget k s s' out d h = OnOk-use (Within k s) (schedule s) (schedule-Within k s d) h

-- ===== src/Scheduler/Rule.antt =====
-- The proof rules for the loops of `schedule`: what each step keeps, the whole keeps.
use lightserve.Prelude.{
  ℕ, zero, suc, ◌≡◌, refl, List, [], ◌∷◌, Bool, Option, true, false, Bool-cases, List-cases,
  Result-cases, inl, inr, nonempty, OnOk, OnOk-bind, OnOk-use,
}
use lightserve.PrefixCache.{PrefixMatch}
use lightserve.BlockManager.{match_prefix}
use lightserve.Scheduler.{
  Scheduler, SchedulerOutput, Round, Admission, preempt, fits, make_room, visit, run_rounds,
  blocked, admit, admit_loop, schedule_running, schedule_waiting, schedule,
}

-- What `make_room` ends with: an invariant of preemption, and room where it says so.
abbrev pub Room :
    (Scheduler × SchedulerOutput → Type 0)
    → ℕ
    → Bool
    → ℕ
    → Bool × Scheduler × SchedulerOutput × List ℕ
    → Type 0
Room P a is_spec target_len p = P (p.1, p.2) × (p.0 ≡ true → fits p.1 a is_spec target_len ≡ true)

pub make_room_inv :
    (P : Scheduler × SchedulerOutput → Type 0)
    → ((s : Scheduler) (out : SchedulerOutput) (v : ℕ) → P (s, out) → OnOk P (preempt s v out))
    → (s : Scheduler) (out : SchedulerOutput) (a : ℕ) (is_spec : Bool) (target_len : ℕ)
      (vs : List ℕ)
    → P (s, out)
    → OnOk (Room P a is_spec target_len) (make_room s out a is_spec target_len vs)
unfolding make_room
make_room_inv P keep s out a is_spec target_len [] h =
    elim (Bool-cases (fits s a is_spec target_len)) [
      | inl e ↦ rw (e, make_room) (h, λ _. e)
      | inr e ↦
          rw (e, make_room)
            (OnOk-bind P (Room P a is_spec target_len) (preempt s a out) _ (keep s out a h)
              (λ p k. (k, λ t. cc)))
    ]
make_room_inv P keep s out a is_spec target_len (v ∷ vs) h =
    elim (Bool-cases (fits s a is_spec target_len)) [
      | inl e ↦ rw (e, make_room) (h, λ _. e)
      | inr e ↦ elim (Result-cases (preempt s v out)) [
        | inl (f, q) ↦ rw (e, q, make_room) tt
        | inr (p, q) ↦
            rw (e, q, make_room)
              (make_room_inv P keep p.0 p.1 a is_spec target_len vs
                (OnOk-use P (preempt s v out) (keep s out v h) q))
      ]
    ]

pub run_rounds_inv :
    (P : Round → Type 0)
    → ((st : Round) (a : ℕ) (rest : List ℕ)
        → st.pending ≡ a ∷ rest
        → P st
        → OnOk P (visit (record st { pending = rest }) a))
    → (fuel : ℕ) (st : Round) → P st
    → OnOk P (run_rounds fuel st)
unfolding run_rounds
run_rounds_inv P keep zero st h = h
run_rounds_inv P keep (suc fuel) st h = elim (List-cases st.pending) [
  | inl e ↦ rw (e, run_rounds) h
  | inr (a, rest, e) ↦ elim (Result-cases (visit (record st { pending = rest }) a)) [
    | inl (f, q) ↦ rw (e, run_rounds) (rw q tt)
    | inr (st', q) ↦
        rw (e, run_rounds)
          (rw q (run_rounds_inv P keep fuel st' (OnOk-use P (visit _ a) (keep st a rest e h) q)))
  ]
]

abbrev pub with_queue : Admission → List ℕ → Admission
with_queue st queue = record st { scheduler = record (st.scheduler) { waiting_queue = queue } }

pub admit_loop_inv :
    (P : Admission → Type 0)
    → ((st : Admission) (a : ℕ) (found : Option PrefixMatch)
        → found ≡ match_prefix st.scheduler.block_manager (st.scheduler.store a).prompt_token_ids
        → blocked st a found ≡ false
        → P st
        → OnOk P (admit st a found))
    → ((st : Admission) (queue : List ℕ) → P st → P (with_queue st queue))
    → (st : Admission) (queue : List ℕ) → P st
    → OnOk P (admit_loop st queue)
unfolding admit_loop
admit_loop_inv P keep swap st [] h = swap st [] h
admit_loop_inv P keep swap st (a ∷ queue) h =
    let found = match_prefix st.scheduler.block_manager (st.scheduler.store a).prompt_token_ids in
    elim (Bool-cases (blocked st a found)) [
      | inl e ↦ rw (e, admit_loop) (swap st (a ∷ queue) h)
      | inr e ↦ elim (Result-cases (admit st a found)) [
        | inl (f, q) ↦ rw (e, q, admit_loop) tt
        | inr (st', q) ↦
            rw (e, q, admit_loop)
              (admit_loop_inv P keep swap st' queue
                (OnOk-use P (admit st a found) (keep st a found refl e h) q))
      ]
    ]

-- `P` is what holds behind `_schedule_running`, `Q` what holds at the end.
pub record Halves (P : Scheduler × SchedulerOutput × ℕ → Type 0)
    (Q : Scheduler × SchedulerOutput → Type 0) (s : Scheduler) : Type 0 where
  pub first : OnOk P (schedule_running s s.scheduler_config.max_num_batched_tokens)
  pub stop :
      (p : Scheduler × SchedulerOutput × ℕ)
      → P p
      → nonempty p.1.preempted_requests ≡ true
      → Q (p.0, p.1)
  pub second :
      (p : Scheduler × SchedulerOutput × ℕ)
      → P p
      → nonempty p.1.preempted_requests ≡ false
      → OnOk (λ q. Q (q.0, q.1)) (schedule_waiting p.0 p.1 p.2)

pub schedule_ind :
    (P : Scheduler × SchedulerOutput × ℕ → Type 0) (Q : Scheduler × SchedulerOutput → Type 0)
    (s : Scheduler)
    → Halves P Q s
    → OnOk Q (schedule s)
unfolding schedule
schedule_ind P Q s h = OnOk-bind P Q (schedule_running s _) _ h.first λ p k.
    elim (Bool-cases (nonempty p.1.preempted_requests)) [
      | inl e ↦ rw e (h.stop p k e)
      | inr e ↦ rw e (
          OnOk-bind (λ q. Q (q.0, q.1)) Q (schedule_waiting p.0 p.1 p.2) _ (h.second p k e)
            (λ q l. l))
    ]

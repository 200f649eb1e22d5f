-- ===== src/Scheduler/Order.antt =====
-- The order of requests: `schedule` moves the border between `running` and `waiting`, and nothing else.
use mathlib.Core.List.{append_assoc, reverse-cons, reverse-reverse}
use lightserve.Prelude.{
  ℕ, zero, suc, ◌+◌, ◌≤◌, ◌≡◌, refl, sym, ap, ◌∙◌, Bool, true, false, Option, List, [], ◌∷◌, ◌++◌,
  reverse, arith, length, length-append, length-reverse, ok, OnOk, OnOk-use, OnOk-mono, Bool-cases,
  List-cases, Result-cases, OnOk-bind, inl, inr,
}
use lightserve.BlockManager.{match_prefix}
use lightserve.Scheduler.Rule.{schedule_ind}
use lightserve.Scheduler.{
  Scheduler, SchedulerOutput, Round, Admission, free_request, preempt, fits, make_room, advance,
  is_speculative, settle, give_tokens, visit, run_rounds, schedule_running, blocked, admit,
  admit_loop, schedule_waiting, schedule,
}
use lightserve.PrefixCache.{PrefixMatch}

abbrev SameLists : Scheduler → Scheduler → Type 0
SameLists s s' = (s'.waiting_queue ≡ s.waiting_queue) × (s'.running_list ≡ s.running_list)

free_request-SameLists : (s : Scheduler) (a : ℕ) → OnOk (SameLists s) (free_request s a)
unfolding free_request
free_request-SameLists s a = ground arith

preempt_lists :
    (s : Scheduler) (a : ℕ) (out : SchedulerOutput)
    → OnOk
        (λ p. (p.0.waiting_queue ≡ a ∷ s.waiting_queue) × (p.0.running_list ≡ s.running_list))
        (preempt s a out)
unfolding preempt
preempt_lists s a out = ground (arith, free_request-SameLists s a)

advance-SameLists :
    (s : Scheduler) (a : ℕ) (is_spec : Bool) (target_len chunk : ℕ)
    → OnOk (SameLists s) (advance s a is_spec target_len chunk)
unfolding advance
advance-SameLists s a is_spec target_len chunk = ground arith

-- What `make_room` does to the line: the requests that it takes from the end of `pending` go to the
-- front of `waiting`, and so does the request itself where it gives up.
abbrev line_of : Bool × Scheduler × SchedulerOutput × List ℕ → ℕ → List ℕ
line_of (true, s, out, rest) a = a ∷ (reverse rest ++ s.waiting_queue)
line_of (false, s, out, rest) a = reverse rest ++ s.waiting_queue

abbrev MadeRoom : Scheduler → ℕ → List ℕ → Bool × Scheduler × SchedulerOutput × List ℕ → Type 0
MadeRoom s a vs p =
    (line_of p a ≡ a ∷ (reverse vs ++ s.waiting_queue))
    × (length p.3 ≤ length vs)
    × (p.1.running_list ≡ s.running_list)

reverse_snoc : (v : ℕ) (vs w : List ℕ) → reverse (v ∷ vs) ++ w ≡ reverse vs ++ v ∷ w
reverse_snoc v vs w = rw (reverse-cons v vs) (append_assoc (reverse vs) (v ∷ []) w)

MadeRoom-step :
    (s s' : Scheduler) (a v : ℕ) (vs : List ℕ)
    → (s'.waiting_queue ≡ v ∷ s.waiting_queue) × (s'.running_list ≡ s.running_list)
    → (p : Bool × Scheduler × SchedulerOutput × List ℕ) → MadeRoom s' a vs p
    → MadeRoom s a (v ∷ vs) p
MadeRoom-step s s' a v vs h p m =
    (m.0 ∙ ap (◌∷◌ a) (rw h.0 (sym (reverse_snoc v vs s.waiting_queue))), omega arith, m.2 ∙ h.1)

make_room-MadeRoom :
    (s : Scheduler) (out : SchedulerOutput) (a : ℕ) (is_spec : Bool) (target_len : ℕ) (vs : List ℕ)
    → OnOk (MadeRoom s a vs) (make_room s out a is_spec target_len vs)
unfolding make_room
make_room-MadeRoom s out a is_spec target_len [] = ground (arith, preempt_lists s a out)
make_room-MadeRoom s out a is_spec target_len (v ∷ vs) =
    elim (Bool-cases (fits s a is_spec target_len)) [
      | inl e ↦ rw (e, make_room) (refl, omega arith, refl)
      | inr e ↦ elim (Result-cases (preempt s v out)) [
        | inl (f, q) ↦ rw (e, q, make_room) tt
        | inr (p, q) ↦
            rw (e, q, make_room)
              (OnOk-mono (MadeRoom p.0 a vs) (MadeRoom s a (v ∷ vs)) _
                (MadeRoom-step s p.0 a v vs
                  (OnOk-use _ (preempt s v out) (preempt_lists s v out) q))
                (make_room-MadeRoom p.0 p.1 a is_spec target_len vs))
      ]
    ]

abbrev line : Round → List ℕ
line st = st.scheduled ++ (st.pending ++ st.scheduler.waiting_queue)

-- One round over the request `a`, just taken from `pending`.
abbrev Advances : Round → ℕ → Round → Type 0
Advances st a st' =
    (line st' ≡ st.scheduled ++ a ∷ (st.pending ++ st.scheduler.waiting_queue))
    × (length st'.pending ≤ length st.pending)
    × (length st'.scheduled ≤ length st.scheduled + 1)

MadeRoom-length :
    (pending rest : List ℕ)
    → length rest ≤ length (reverse pending)
    → length (reverse rest) ≤ length pending
MadeRoom-length pending rest h = omega (arith, length-reverse pending, length-reverse rest)

settle-Advances :
    (st : Round) (a chunk : ℕ) (p : Bool × Scheduler × SchedulerOutput × List ℕ)
    → MadeRoom st.scheduler a (reverse st.pending) p
    → OnOk (Advances st a) (settle st a chunk p)
unfolding settle
settle-Advances st a chunk (false, s, out, rest) h = (
  ap (◌++◌ st.scheduled)
      (h.0 ∙ ap (λ l. a ∷ (l ++ st.scheduler.waiting_queue)) (reverse-reverse st.pending)),
  MadeRoom-length st.pending rest h.1,
  omega arith,
)
settle-Advances st a chunk (true, s, out, rest) h =
    let r = st.scheduler.store a in
    ground (
      arith,
      advance-SameLists s a (is_speculative r) (r.num_computed_tokens + chunk) chunk,
      append_assoc st.scheduled (a ∷ []) (reverse rest ++ s.waiting_queue),
      reverse-reverse st.pending,
      MadeRoom-length st.pending rest h.1,
      length-append st.scheduled (a ∷ []),
    )

give_tokens-Advances : (st : Round) (a : ℕ) → OnOk (Advances st a) (give_tokens st a)
unfolding give_tokens
give_tokens-Advances st a =
    OnOk-bind (MadeRoom st.scheduler a (reverse st.pending)) (Advances st a) _ _
      (make_room-MadeRoom st.scheduler st.output a _ _ (reverse st.pending))
      (settle-Advances st a _)

visit-Advances : (st : Round) (a : ℕ) → OnOk (Advances st a) (visit st a)
unfolding visit
visit-Advances st a = ground (
  arith,
  give_tokens-Advances st a,
  append_assoc st.scheduled (a ∷ []) (st.pending ++ st.scheduler.waiting_queue),
  length-append st.scheduled (a ∷ []),
)

run_rounds-line :
    (fuel : ℕ) (st : Round)
    → length st.pending ≤ fuel
    → OnOk
        (λ st'.
          (line st' ≡ line st)
          × (st'.pending ≡ [])
          × (length st'.scheduled ≤ length st.scheduled + length st.pending))
        (run_rounds fuel st)
unfolding run_rounds
run_rounds-line zero st h = elim (List-cases st.pending) [
  | inl e ↦ (refl, e, omega arith)
  | inr (a, rest, e) ↦ absurd (omega (arith, ap length e))
]
run_rounds-line (suc fuel) st h = elim (List-cases st.pending) [
  | inl e ↦
      rw (e, run_rounds)
        (ap (λ l. st.scheduled ++ (l ++ st.scheduler.waiting_queue)) e, e, omega arith)
  | inr (a, rest, e) ↦
      let st₀ = record st { pending = rest } in
      elim (Result-cases (visit st₀ a)) [
        | inl (f, q) ↦ rw (e, run_rounds) (rw q tt)
        | inr (st', q) ↦
            let v = OnOk-use (Advances st₀ a) (visit st₀ a) (visit-Advances st₀ a) q in
            rw (e, run_rounds)
              (rw q (
                OnOk-mono _ _ (run_rounds fuel st')
                  (λ u k. (k.0 ∙ v.0, k.1, omega (arith, k.2, v.1, v.2, ap length e)))
                  (run_rounds-line fuel st' (omega (arith, ap length e)))))
      ]
]

abbrev pub everyone : Scheduler → List ℕ
everyone s = s.running_list ++ s.waiting_queue

schedule_running-everyone :
    (s : Scheduler) (token_budget : ℕ)
    → OnOk (λ p. everyone p.0 ≡ everyone s) (schedule_running s token_budget)
unfolding schedule_running
schedule_running-everyone s token_budget =
    OnOk-bind _ _ (run_rounds (length s.running_list) _) _
      (run_rounds-line (length s.running_list) _ (omega arith))
      λ st k. ap (λ l. st.scheduled ++ (l ++ st.scheduler.waiting_queue)) (sym (k.1)) ∙ k.0

pub schedule_running-le_length :
    (s : Scheduler) (token_budget : ℕ)
    → OnOk (λ p. length p.0.running_list ≤ length s.running_list) (schedule_running s token_budget)
unfolding schedule_running
schedule_running-le_length s token_budget =
    OnOk-bind _ _ (run_rounds (length s.running_list) _) _
      (run_rounds-line (length s.running_list) _ (omega arith)) λ st k. omega (arith, k.2)

abbrev pub Admits : Admission → ℕ → Admission → Type 0
Admits st a st' =
    (st'.scheduler.running_list ≡ st.scheduler.running_list ++ a ∷ [])
    × (st'.scheduler.waiting_queue ≡ st.scheduler.waiting_queue)

pub admit-Admits :
    (st : Admission) (a : ℕ) (found : Option PrefixMatch) → OnOk (Admits st a) (admit st a found)
unfolding admit
admit-Admits st a found = ground arith

admit_loop-everyone :
    (st : Admission) (queue : List ℕ)
    → OnOk
        (λ st'. everyone st'.scheduler ≡ st.scheduler.running_list ++ queue)
        (admit_loop st queue)
unfolding admit_loop
admit_loop-everyone st [] = refl
admit_loop-everyone st (a ∷ queue) =
    let found = match_prefix st.scheduler.block_manager (st.scheduler.store a).prompt_token_ids in
    elim (Bool-cases (blocked st a found)) [
      | inl e ↦ rw (e, admit_loop) refl
      | inr e ↦ elim (Result-cases (admit st a found)) [
        | inl (f, q) ↦ rw (e, q, admit_loop) tt
        | inr (st', q) ↦
            let v = OnOk-use (Admits st a) (admit st a found) (admit-Admits st a found) q in
            rw (e, q, admit_loop)
              (OnOk-mono _ _ (admit_loop st' queue)
                (λ u k.
                  k
                  ∙ ap (λ l. l ++ queue) v.0
                  ∙ append_assoc st.scheduler.running_list (a ∷ []) queue)
                (admit_loop-everyone st' queue))
      ]
    ]

schedule_waiting-everyone :
    (s : Scheduler) (out : SchedulerOutput) (token_budget : ℕ)
    → OnOk (λ p. everyone p.0 ≡ everyone s) (schedule_waiting s out token_budget)
unfolding schedule_waiting
schedule_waiting-everyone s out token_budget =
    OnOk-bind _ _ (admit_loop _ s.waiting_queue) _ (admit_loop-everyone _ s.waiting_queue)
      (λ st k. k)

-- Whatever a step decides, admissions and preemptions included, the running requests followed by the
-- waiting ones are the same list before and after it: no request is lost, duplicated or overtaken.
pub schedule-everyone :
    (s s' : Scheduler) (out : SchedulerOutput)
    → schedule s ≡ ok (s', out)
    → everyone s' ≡ everyone s
schedule-everyone s s' out h =
    OnOk-use Keeps (schedule s)
      (schedule_ind (λ p. everyone p.0 ≡ everyone s) Keeps s
        (record {
          first = schedule_running-everyone s _;
          stop = λ p k e. k;
          second = λ p k e.
              OnOk-mono _ _ (schedule_waiting p.0 p.1 p.2) (λ q l. l ∙ k)
                (schedule_waiting-everyone p.0 p.1 p.2);
        }))
      h
  where
    Keeps : Scheduler × SchedulerOutput → Type 0
    Keeps p = everyone p.0 ≡ everyone s

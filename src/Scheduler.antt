-- ===== src/Scheduler.antt =====
-- engine/scheduler.py: continuous batching. The `Request` objects live in `store`, at their request
-- ids; `waiting` and `running` hold ids where the source's deque and list hold references, and
-- `requests` holds the keys of the dict of that name. `token_budget` can pass below zero in the source
-- only through a speculative request, and is then only compared with 0: here it stops at 0.
pub mod Rule
pub mod Order
pub mod Ownership
pub mod Reachable
pub mod Limits
pub mod Frame
pub mod Budget
pub mod Keys
pub mod Requests
use lightserve.Prelude.{
  ℕ, zero, suc, ◌+◌, ◌-◌, Bool, true, false, not, ◌&&◌, ◌||◌, Option, none, some, List, [], ◌∷◌,
  ◌++◌, map, reverse, ltb, leb, ◌==◌, if◌then◌else◌, length, keep, elem, nonempty, min, update,
  or_else, Result, ok, err, value_error, key_error, negative_counter, guard, ◌>>=◌, ◌>>◌,
}
use lightserve.Config.{CacheConfig, SchedulerConfig}
use lightserve.Request.{
  Request, RequestStatus, waiting, running, preempted, finished_aborted, get_len,
  get_num_new_tokens, is_finished,
}
use lightserve.PrefixCache.{PrefixMatch}
use lightserve.BlockManager.{
  BlockManager, new_manager, match_prefix, can_allocate, allocate, can_append_slot, append_slot,
  can_ensure_capacity, ensure_capacity,
}
use lightserve.BlockManager

-- `ScheduledRequest`
pub record ScheduledRequest : Type 0 where
  pub request : ℕ
  pub num_scheduled_tokens : ℕ

-- `SchedulerOutput`
pub record SchedulerOutput : Type 0 where
  pub scheduled_new : List ScheduledRequest
  pub scheduled_running : List ScheduledRequest
  pub preempted_requests : List ℕ

unfoldable pub sum_scheduled : List ScheduledRequest → ℕ
sum_scheduled [] = 0
sum_scheduled (s ∷ l) = s.num_scheduled_tokens + sum_scheduled l

-- `SchedulerOutput.is_empty`
unfoldable pub is_empty : SchedulerOutput → Bool
is_empty out = not (nonempty out.scheduled_new || nonempty out.scheduled_running)

-- `SchedulerOutput.total_num_scheduled_tokens`
unfoldable pub total_num_scheduled_tokens : SchedulerOutput → ℕ
unfolding sum_scheduled
total_num_scheduled_tokens out = sum_scheduled (out.scheduled_new ++ out.scheduled_running)

abbrev pub empty_output : SchedulerOutput
empty_output = record { scheduled_new = []; scheduled_running = []; preempted_requests = [] }

-- `Scheduler`
pub record Scheduler : Type 0 where
  pub scheduler_config : SchedulerConfig
  pub block_manager : BlockManager
  pub waiting_queue : List ℕ
  pub running_list : List ℕ
  pub requests : List ℕ
  pub store : ℕ → Request

-- `Scheduler.__init__`; `blank` is what the store reads where no request was added.
unfoldable pub new_scheduler :
    (Option ℕ → List ℕ → ℕ) → Request → CacheConfig → SchedulerConfig → Scheduler
new_scheduler hash_fn blank c s = record {
  scheduler_config = s;
  block_manager =
      new_manager hash_fn c.block_size c.num_gpu_blocks c.watermark_blocks c.enable_prefix_caching;
  waiting_queue = [];
  running_list = [];
  requests = [];
  store = λ a. blank;
}

-- Writes a request object.
abbrev pub put : Scheduler → ℕ → Request → Scheduler
put s a r = record s { store = update s.store a r }

unfoldable pub add_request : Scheduler → Request → Result Scheduler
add_request s r = do
  guard (not (elem r.request_id s.requests)) value_error
  let s' = put s r.request_id (record r { status = waiting })
  ok (record s' {
    requests = s.requests ++ r.request_id ∷ [];
    waiting_queue = s.waiting_queue ++ r.request_id ∷ [];
  })

unfoldable pub get_num_unfinished_requests : Scheduler → ℕ
get_num_unfinished_requests s = length s.waiting_queue + length s.running_list

unfoldable pub has_unfinished_requests : Scheduler → Bool
unfolding get_num_unfinished_requests
has_unfinished_requests s = ltb 0 (get_num_unfinished_requests s)

-- `self.block_manager.free(request)`
unfoldable pub free_request : Scheduler → ℕ → Result Scheduler
free_request s a = do
  (m, r) ← BlockManager.free s.block_manager (s.store a)
  ok (put (record s { block_manager = m }) a r)

-- `_preempt`
unfoldable pub preempt : Scheduler → ℕ → SchedulerOutput → Result (Scheduler × SchedulerOutput)
preempt s a out = do
  s' ← free_request s a
  let r = record (s'.store a) { num_computed_tokens = 0; status = preempted }
  ok (
    record (put s' a r) { waiting_queue = a ∷ s'.waiting_queue },
    record out { preempted_requests = out.preempted_requests ++ a ∷ [] },
  )

-- The variables of `_schedule_running`.
pub record Round : Type 0 where
  pub scheduler : Scheduler
  pub pending : List ℕ
  pub scheduled : List ℕ
  pub output : SchedulerOutput
  pub token_budget : ℕ

-- `fits`
unfoldable pub fits : Scheduler → ℕ → Bool → ℕ → Bool
fits s a is_spec target_len =
    if is_spec
    then can_ensure_capacity s.block_manager (s.store a) target_len
    else can_append_slot s.block_manager (s.store a)

-- `while not fits`, over the pending requests from the last to the first. The flag says whether the
-- loop ended by its test (and not by the `break`).
unfoldable pub make_room :
    Scheduler
    → SchedulerOutput
    → ℕ
    → Bool
    → ℕ
    → List ℕ
    → Result (Bool × Scheduler × SchedulerOutput × List ℕ)
make_room s out a is_spec target_len [] = elim (fits s a is_spec target_len) [
  | true ↦ ok (true, s, out, [])
  | false ↦ do (s', out') ← preempt s a out; ok (false, s', out', [])
]
make_room s out a is_spec target_len (v ∷ vs) = elim (fits s a is_spec target_len) [
  | true ↦ ok (true, s, out, v ∷ vs)
  | false ↦ elim (preempt s v out) [
    | err e ↦ err e
    | ok p ↦ make_room p.0 p.1 a is_spec target_len vs
  ]
]

-- `ensure_capacity` or `append_slot`, and `num_computed_tokens += chunk`.
unfoldable pub advance : Scheduler → ℕ → Bool → ℕ → ℕ → Result Scheduler
advance s a is_spec target_len chunk = do
  (m, r) ←
      if is_spec
      then ensure_capacity s.block_manager (s.store a) target_len
      else append_slot s.block_manager (s.store a)
  ok (
      put (record s { block_manager = m }) a
        (record r { num_computed_tokens = r.num_computed_tokens + chunk }))

unfoldable pub is_speculative : Request → Bool
is_speculative r = nonempty r.draft_token_ids

-- `num_new` of `_schedule_running`
unfoldable pub num_new_tokens : Request → ℕ
unfolding is_speculative
num_new_tokens r = if is_speculative r then length r.draft_token_ids + 1 else get_num_new_tokens r

-- `chunk` of `_schedule_running`
unfoldable pub chunk_of : Request → ℕ → ℕ
unfolding num_new_tokens
chunk_of r token_budget =
    if is_speculative r then num_new_tokens r else min (num_new_tokens r) token_budget

-- The `else` of the loop of `_schedule_running`: what follows once there is room, or there is not.
unfoldable pub settle : Round → ℕ → ℕ → Bool × Scheduler × SchedulerOutput × List ℕ → Result Round
settle st a chunk (false, s, out, rest) =
    ok (record st { scheduler = s; output = out; pending = reverse rest })
settle st a chunk (true, s, out, rest) = do
  let r = st.scheduler.store a
  s' ← advance s a (is_speculative r) (r.num_computed_tokens + chunk) chunk
  ok (record st {
    scheduler = s';
    pending = reverse rest;
    scheduled = st.scheduled ++ a ∷ [];
    output = record out {
      scheduled_running =
          out.scheduled_running ++ record { request = a; num_scheduled_tokens = chunk } ∷ [];
    };
    token_budget = st.token_budget - chunk;
  })

-- The part of the body behind the two `continue`s.
unfoldable pub give_tokens : Round → ℕ → Result Round
give_tokens st a = do
  let r = st.scheduler.store a
  let chunk = chunk_of r st.token_budget
  room ←
      make_room st.scheduler st.output a (is_speculative r) (r.num_computed_tokens + chunk)
        (reverse st.pending)
  settle st a chunk room

-- The body of the loop of `_schedule_running`, for the request `a` just popped from `pending`.
unfoldable pub visit : Round → ℕ → Result Round
visit st a =
    let kept = record st { scheduled = st.scheduled ++ a ∷ [] } in
    if leb (num_new_tokens (st.scheduler.store a)) 0
    then ok kept
    else if leb st.token_budget 0
    then ok kept
    else give_tokens st a

-- The loop of `_schedule_running`: every round takes a request from `pending`.
unfoldable pub run_rounds : ℕ → Round → Result Round
run_rounds zero st = ok st
run_rounds (suc fuel) st = elim st.pending [
  | [] ↦ ok st
  | a ∷ rest ↦ elim (visit (record st { pending = rest }) a) [
    | err e ↦ err e
    | ok st' ↦ run_rounds fuel st'
  ]
]

-- `_schedule_running`, on a new output: the scheduler, the output and the budget left.
unfoldable pub schedule_running : Scheduler → ℕ → Result (Scheduler × SchedulerOutput × ℕ)
schedule_running s token_budget = do
  let start : Round = record {
    scheduler = s;
    pending = s.running_list;
    scheduled = [];
    output = empty_output;
    token_budget = token_budget;
  }
  st ← run_rounds (length s.running_list) start
  ok (record st.scheduler { running_list = st.scheduled }, st.output, st.token_budget)

-- The variables of `_schedule_waiting`.
pub record Admission : Type 0 where
  pub scheduler : Scheduler
  pub output : SchedulerOutput
  pub token_budget : ℕ
  pub cache_budget : ℕ

abbrev pub matched_tokens : Option PrefixMatch → ℕ
matched_tokens none = 0
matched_tokens (some found) = found.num_matched_tokens

-- The test of the `break`.
unfoldable pub blocked : Admission → ℕ → Option PrefixMatch → Bool
blocked st a found =
    not (ltb (length st.scheduler.running_list) st.scheduler.scheduler_config.max_num_seqs)
    || (leb st.token_budget 0
        || (not (leb (matched_tokens found) st.cache_budget)
            || not (can_allocate st.scheduler.block_manager (st.scheduler.store a) found)))

-- `min(match.num_matched_tokens, len(request.prompt_token_ids) - 1)`, which is -1 for an empty prompt.
unfoldable pub seed_computed : Request → Option PrefixMatch → Result Request
seed_computed r none = ok r
seed_computed r (some found) = do
  guard (nonempty r.prompt_token_ids) negative_counter
  ok (record r {
    num_computed_tokens = min found.num_matched_tokens (length r.prompt_token_ids - 1);
  })

-- The body of the loop of `_schedule_waiting` behind the `break`.
unfoldable pub admit : Admission → ℕ → Option PrefixMatch → Result Admission
admit st a found = do
  let s = st.scheduler
  (m, r) ← allocate s.block_manager (s.store a) found
  seeded ← seed_computed (record r { status = running }) found
  let chunk = min (get_num_new_tokens seeded) st.token_budget
  let placed =
      put (record s { block_manager = m }) a
        (record seeded { num_computed_tokens = seeded.num_computed_tokens + chunk })
  ok (record {
    scheduler = record placed { running_list = s.running_list ++ a ∷ [] };
    output = record st.output {
      scheduled_new =
          st.output.scheduled_new ++ record { request = a; num_scheduled_tokens = chunk } ∷ [];
    };
    token_budget = st.token_budget - chunk;
    cache_budget = st.cache_budget - matched_tokens found;
  })

-- The loop of `_schedule_waiting`, over the queue; at the `break` the request and those behind it stay.
unfoldable pub admit_loop : Admission → List ℕ → Result Admission
admit_loop st [] = ok (record st { scheduler = record (st.scheduler) { waiting_queue = [] } })
admit_loop st (a ∷ queue) =
    let found = match_prefix st.scheduler.block_manager (st.scheduler.store a).prompt_token_ids in
    elim (blocked st a found) [
      | true ↦ ok (record st { scheduler = record (st.scheduler) { waiting_queue = a ∷ queue } })
      | false ↦ elim (admit st a found) [ err e ↦ err e | ok st' ↦ admit_loop st' queue ]
    ]

-- `_schedule_waiting`
unfoldable pub schedule_waiting :
    Scheduler → SchedulerOutput → ℕ → Result (Scheduler × SchedulerOutput × ℕ)
schedule_waiting s out token_budget = do
  let c = s.scheduler_config
  let start : Admission = record {
    scheduler = s;
    output = out;
    token_budget = token_budget;
    cache_budget = or_else c.max_cache_hit_context_tokens c.max_num_batched_tokens;
  }
  st ← admit_loop start s.waiting_queue
  ok (st.scheduler, st.output, st.token_budget)

unfoldable pub schedule : Scheduler → Result (Scheduler × SchedulerOutput)
schedule s = do
  (s', out, token_budget) ← schedule_running s s.scheduler_config.max_num_batched_tokens
  let admitted = do (s'', out', left) ← schedule_waiting s' out token_budget; ok (s'', out')
  if nonempty out.preempted_requests then ok (s', out) else admitted

-- `del self.requests[key]`
unfoldable pub del_key : ℕ → List ℕ → Result (List ℕ)
del_key a [] = err key_error
del_key a (x ∷ xs) = if a == x then ok xs else (do rest ← del_key a xs; ok (x ∷ rest))

-- The loop of `free_finished_requests`.
unfoldable pub free_all : Scheduler → List ℕ → Result Scheduler
free_all s [] = ok s
free_all s (a ∷ rest) = elim (free_request s a) [
  | err e ↦ err e
  | ok s' ↦ elim (del_key a s'.requests) [
    | err e ↦ err e
    | ok keys ↦ free_all (record s' { requests = keys }) rest
  ]
]

unfoldable pub free_finished_requests : Scheduler → Result (Scheduler × List ℕ)
free_finished_requests s = do
  let done = λ (a : ℕ). is_finished (s.store a)
  let finished = keep done s.running_list
  s' ← free_all (record s { running_list = keep (λ a. not (done a)) s.running_list }) finished
  ok (s', finished)

-- A waiting request is marked, and `keys` are the keys that are left.
abbrev pub aborted_one : Scheduler → ℕ → List ℕ → Scheduler
aborted_one s a keys =
    put (record s { requests = keys }) a (record (s.store a) { status = finished_aborted })

-- The loop of `abort_requests` over `waiting`: the queue that is left, and who was aborted.
unfoldable pub abort_waiting : Scheduler → List ℕ → List ℕ → Result (Scheduler × List ℕ × List ℕ)
abort_waiting s ids [] = ok (s, [], [])
abort_waiting s ids (a ∷ queue) = elim (elem a ids) [
  | false ↦ elim (abort_waiting s ids queue) [ err e ↦ err e | ok p ↦ ok (p.0, a ∷ p.1, p.2) ]
  | true ↦ elim (del_key a s.requests) [
    | err e ↦ err e
    | ok keys ↦
        elim (abort_waiting
          (put (record s { requests = keys }) a (record (s.store a) { status = finished_aborted }))
          ids queue) [ err e ↦ err e | ok p ↦ ok (p.0, p.1, a ∷ p.2) ]
  ]
]

-- The loop of `abort_requests` over `running`.
unfoldable pub mark_aborted : (ℕ → Request) → List ℕ → List ℕ → ℕ → Request
mark_aborted store ids [] = store
mark_aborted store ids (a ∷ rest) =
    mark_aborted
      (if elem a ids
        then update store a (record (store a) { status = finished_aborted })
        else store)
      ids rest

unfoldable pub abort_requests : Scheduler → List ℕ → Result (Scheduler × List ℕ)
abort_requests s ids = do
  (s', still_waiting, aborted) ← abort_waiting s ids s.waiting_queue
  let marked = record s' {
    waiting_queue = still_waiting;
    store = mark_aborted s'.store ids s'.running_list;
  }
  (s'', swept) ← free_finished_requests marked
  ok (s'', aborted ++ swept)

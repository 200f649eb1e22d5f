-- ===== src/EngineWorker/Thread.antt =====
-- server/engine_worker.py: the loop of the engine thread.
use lightserve.Prelude.{
  ℕ, ◌+◌, ◌-◌, Bool, true, false, ◌||◌, none, some, List, [], ◌∷◌, ◌++◌, map, ltb, leb,
  if◌then◌else◌, length, keep, last?, nonempty, update, Result, err, ok, zero_division_error, ◌==◌,
}
use lightserve.Prelude.Dict.{lookup, erase}
use lightserve.Scheduler.{ScheduledRequest, SchedulerOutput, has_unfinished_requests}
use lightserve.EngineWorker.{
  EngineWorker, EngineShape, Incoming, stream_token, put_item, take_item, finish, finish_aborted,
}

-- What the clocks say in one pass of the loop.
pub record Clock : Type 0 where
  pub arrival : ℕ → ℕ
  pub sweep : ℕ
  pub started_ns : ℕ
  pub elapsed : ℕ

module _ {E : Type 0} where
  -- The loop of `_drain_incoming`, over the items of the queue; where one raises, those behind it stay.
  -- `clock n` is the time that is read with `n` items still in the queue.
  unfoldable pub drain :
      EngineShape E → (ℕ → ℕ) → EngineWorker E → List Incoming → EngineWorker E × Bool
  unfolding take_item
  drain shape clock w [] = (w, true)
  drain shape clock w (item ∷ items) =
      let taken = take_item shape (clock (length items)) (record w { incoming = items }) item in
      let rest = drain shape clock taken.0 items in if taken.1 then rest else taken

  -- `_drain_incoming`
  unfoldable pub drain_incoming : EngineShape E → (ℕ → ℕ) → EngineWorker E → EngineWorker E × Bool
  unfolding drain
  drain_incoming shape clock w = drain shape clock w w.incoming

  -- `_sweep_timeouts`
  unfoldable pub sweep_timeouts : EngineShape E → ℕ → EngineWorker E → EngineWorker E × Bool
  unfolding finish_aborted
  sweep_timeouts shape now w =
      let expired = map (λ d. d.0) (keep (λ d. leb d.1 now) w.deadlines) in
      let swept = finish_aborted shape w expired in if nonempty expired then swept else (w, true)

  -- The body of the loop of `_record_step`; a wait of the source's, a difference of two clocks, may be
  -- below zero, and is 0 here.
  unfoldable pub record_wait : ℕ → EngineWorker E → ℕ → EngineWorker E
  record_wait started_ns w a =
      let popped = record w { queued = erase a w.queued } in
      elim (lookup a w.queued) [
        | none ↦ popped
        | some arrival ↦
            let waited = record popped {
              metrics = record (w.metrics) {
                queue_waits = (started_ns - arrival) ∷ w.metrics.queue_waits;
              };
            } in
            elim (lookup a w.streams) [
              | none ↦ waited
              | some h ↦ record waited {
                handles =
                    update w.handles h (record (w.handles h) { scheduled_ns = some started_ns });
              }
            ]
      ]

  -- That loop, over the newly scheduled requests.
  unfoldable pub record_waits : ℕ → List ScheduledRequest → EngineWorker E → EngineWorker E
  unfolding record_wait
  record_waits started_ns [] w = w
  record_waits started_ns (sr ∷ scheduled_new) w =
      record_waits started_ns scheduled_new (record_wait started_ns w sr.request)

  -- The first observations of `_record_step`.
  unfoldable pub observe_step : SchedulerOutput → ℕ → EngineWorker E → EngineWorker E
  observe_step out elapsed w =
      let scheduled = out.scheduled_new ++ out.scheduled_running in
      let prefill =
        nonempty out.scheduled_new
        || nonempty (keep (λ sr. ltb 1 sr.num_scheduled_tokens) scheduled) in
      record w {
        metrics = record (w.metrics) {
          steps = (prefill, elapsed) ∷ w.metrics.steps;
          batch_sizes = length scheduled ∷ w.metrics.batch_sizes;
        };
      }

  -- The last: the preemptions and the gauges, of which the one for the blocks divides by their number.
  unfoldable pub observe_gauges :
      EngineShape E → SchedulerOutput → EngineWorker E → Result (EngineWorker E)
  observe_gauges shape out w =
      let s = shape.scheduler w.engine in
      let gauged : EngineWorker E = record w {
        metrics = record (w.metrics) {
          preemptions = w.metrics.preemptions + length out.preempted_requests;
          kv_free = length s.block_manager.free_block_ids;
          kv_blocks = s.block_manager.num_gpu_blocks;
          num_waiting = length s.waiting_queue;
          num_running = length s.running_list;
        };
      } in
      if s.block_manager.num_gpu_blocks == 0 then err zero_division_error else ok gauged

  -- `_record_step`
  unfoldable pub record_step :
      EngineShape E → SchedulerOutput → ℕ → ℕ → EngineWorker E → Result (EngineWorker E)
  unfolding observe_step record_waits observe_gauges
  record_step shape out elapsed started_ns w =
      observe_gauges shape out
        (record_waits started_ns out.scheduled_new (observe_step out elapsed w))

  -- The body of `_emit_tokens`.
  unfoldable pub emit_token : EngineShape E → EngineWorker E → ℕ → EngineWorker E
  emit_token shape w a = elim (lookup a w.streams) [
    | none ↦ w
    | some h ↦ elim (last? ((shape.scheduler w.engine).store a).output_token_ids) [
      | none ↦ w
      | some token ↦ record w { handles = put_item w.handles h (stream_token token) }
    ]
  ]

  -- `_emit_tokens`
  unfoldable pub emit_tokens :
      EngineShape E → EngineWorker E → List ScheduledRequest → EngineWorker E
  unfolding emit_token
  emit_tokens shape w [] = w
  emit_tokens shape w (sr ∷ scheduled) = emit_tokens shape (emit_token shape w sr.request) scheduled

  -- The branch of `_loop` for an engine with work; `elapsed` and `started_ns` are read from the clocks.
  unfoldable pub step_engine : EngineShape E → ℕ → ℕ → EngineWorker E → EngineWorker E × Bool
  unfolding record_step emit_tokens finish
  step_engine shape elapsed started_ns w = elim (shape.step w.engine) [
    | err fault ↦ (w, false)
    | ok (engine, out, finished) ↦
        elim (record_step shape out elapsed started_ns (record w { engine = engine })) [
          | err fault ↦ (w, false)
          | ok recorded ↦
              let emitted =
                emit_tokens shape recorded (out.scheduled_new ++ out.scheduled_running) in
              (finish shape emitted finished, true)
        ]
  ]

  -- One pass of the loop of `_loop`.
  unfoldable pub loop_pass : EngineShape E → Clock → EngineWorker E → EngineWorker E × Bool
  unfolding drain_incoming sweep_timeouts step_engine
  loop_pass shape clock w =
      let drained = drain_incoming shape clock.arrival w in
      let swept = sweep_timeouts shape clock.sweep drained.0 in
      let stepped = step_engine shape clock.elapsed clock.started_ns swept.0 in
      let busy = has_unfinished_requests (shape.scheduler (swept.0.engine)) in
      if drained.1 then (if swept.1 then (if busy then stepped else swept) else swept) else drained

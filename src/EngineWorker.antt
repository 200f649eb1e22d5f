-- ===== src/EngineWorker.antt =====
-- server/engine_worker.py: `EngineWorker`, the engine thread and the queues around it. Handles live in
-- `handles`, at the numbers in which `submit` made them. A time is a number of nanoseconds, a parameter
-- of the operations that read the clock. An operation of the engine thread gives the worker's state also
-- where it raises, since `_abort_everything` goes on from there: the flag says whether it returned.
pub mod Thread
pub mod Keys
pub mod Places
pub mod Quiet
pub mod Passing
pub mod Placing
pub mod Dying
pub mod Submitting
pub mod Ending
pub mod Serving
pub mod Steps
use lightserve.Prelude.{
  ℕ, ◌+◌, Bool, true, false, Option, none, some, List, [], ◌∷◌, ◌++◌, if◌then◌else◌, update,
  is_some, Result, ok, err,
}
use lightserve.Prelude.Dict.{Dict, lookup, insert, erase, values}
use lightserve.Request.{RequestStatus, SamplingParams, finished_aborted}
use lightserve.Scheduler.{Scheduler, SchedulerOutput, abort_requests}

-- What goes through a stream: `StreamToken`, `StreamEnd`.
pub data StreamItem : Type 0 where
  stream_token : (token_id : ℕ) → StreamItem
  stream_end : (finish_reason : RequestStatus) → StreamItem

-- `StreamHandle`; the queue holds all that was ever put.
pub record StreamHandle : Type 0 where
  pub request_id : ℕ
  pub queue : List StreamItem
  pub scheduled_ns : Option ℕ

-- `_Submission`
pub record Submission : Type 0 where
  pub prompt_token_ids : List ℕ
  pub sampling_params : SamplingParams
  pub request_id : ℕ
  pub timeout_s : Option ℕ
  pub handle : ℕ

-- What `_incoming` holds: a `_Submission` or an `_Abort`.
pub data Incoming : Type 0 where
  submitted : (submission : Submission) → Incoming
  aborted : (request_id : ℕ) → Incoming

-- The metrics: what was observed and counted, the newest first, and the gauges.
pub record Metrics : Type 0 where
  pub requests : List RequestStatus
  pub steps : List (Bool × ℕ)
  pub batch_sizes : List ℕ
  pub queue_waits : List ℕ
  pub preemptions : ℕ
  pub kv_free : ℕ
  pub kv_blocks : ℕ
  pub num_waiting : ℕ
  pub num_running : ℕ

-- An engine as the worker needs it.
pub record EngineShape (E : Type 0) : Type 0 where
  pub add_request : E → List ℕ → SamplingParams → ℕ → Result E
  pub step : E → Result (E × SchedulerOutput × List ℕ)
  pub scheduler : E → Scheduler
  pub with_scheduler : E → Scheduler → E

-- `EngineWorker`; `error` says whether there is one.
pub record EngineWorker (E : Type 0) : Type 0 where
  pub engine : E
  pub error : Bool
  pub default_timeout_s : Option ℕ
  pub incoming : List Incoming
  pub streams : Dict ℕ
  pub deadlines : Dict ℕ
  pub queued : Dict ℕ
  pub stopping : Bool
  pub handles : ℕ → StreamHandle
  pub num_handles : ℕ
  pub metrics : Metrics

-- `handle.queue.put(item)`
abbrev pub put_item : (ℕ → StreamHandle) → ℕ → StreamItem → ℕ → StreamHandle
put_item handles h item =
    update handles h (record (handles h) { queue = (handles h).queue ++ item ∷ [] })

-- The handles of the submissions in a queue.
unfoldable pub queued_handles : List Incoming → List ℕ
queued_handles [] = []
queued_handles (submitted s ∷ items) = s.handle ∷ queued_handles items
queued_handles (aborted a ∷ items) = queued_handles items

-- The end, put into each of the handles.
unfoldable pub end_all : (ℕ → StreamHandle) → List ℕ → ℕ → StreamHandle
end_all handles [] = handles
end_all handles (h ∷ hs) = end_all (put_item handles h (stream_end finished_aborted)) hs

module _ {E : Type 0} where
  -- `EngineWorker.__init__`, less the thread and its cores; `blank` is what no handle reads as.
  unfoldable pub new_worker : E → StreamHandle → Option ℕ → EngineWorker E
  new_worker engine blank timeout = record {
    engine = engine;
    error = false;
    default_timeout_s = timeout;
    incoming = [];
    streams = [];
    deadlines = [];
    queued = [];
    stopping = false;
    handles = λ h. blank;
    num_handles = 0;
    metrics = record {
      requests = [];
      steps = [];
      batch_sizes = [];
      queue_waits = [];
      preemptions = 0;
      kv_free = 0;
      kv_blocks = 0;
      num_waiting = 0;
      num_running = 0;
    };
  }

  -- `submit` up to its test: the new handle, and the submission in the queue. The id is given, or is the
  -- one that `uuid4` makes.
  unfoldable pub submit_put :
      EngineWorker E → List ℕ → SamplingParams → ℕ → Option ℕ → EngineWorker E
  submit_put w prompt params request_id timeout_s =
      let h = w.num_handles in
      record w {
        handles =
            update w.handles h
              (record { request_id = request_id; queue = []; scheduled_ns = none });
        num_handles = h + 1;
        incoming =
            w.incoming
            ++ submitted (record {
              prompt_token_ids = prompt;
              sampling_params = params;
              request_id = request_id;
              timeout_s = if is_some timeout_s then timeout_s else w.default_timeout_s;
              handle = h;
            })
              ∷ [];
      }

  -- The test of `submit`, which may run later than the put.
  unfoldable pub submit_check : EngineWorker E → ℕ → EngineWorker E
  submit_check w h =
      if w.error
      then record w { handles = put_item w.handles h (stream_end finished_aborted) }
      else w

  -- `abort`
  unfoldable pub abort : EngineWorker E → ℕ → EngineWorker E
  abort w request_id = record w { incoming = w.incoming ++ aborted request_id ∷ [] }

  -- `_abort_everything`
  unfoldable pub abort_everything : EngineWorker E → EngineWorker E
  unfolding queued_handles end_all
  abort_everything w = record w {
    incoming = [];
    handles = end_all w.handles (values w.streams ++ queued_handles w.incoming);
    streams = [];
  }

  -- `_handle_submission`; `now` is the time that it reads.
  unfoldable pub handle_submission :
      EngineShape E → ℕ → EngineWorker E → Submission → EngineWorker E × Bool
  handle_submission shape now w s =
      elim (shape.add_request w.engine s.prompt_token_ids s.sampling_params s.request_id) [
        | err fault ↦ (w, false)
        | ok engine ↦ (
          record w {
            engine = engine;
            streams = insert s.request_id s.handle w.streams;
            queued = insert s.request_id now w.queued;
            deadlines = elim s.timeout_s [
              | none ↦ w.deadlines
              | some timeout ↦ insert s.request_id (now + timeout) w.deadlines
            ];
          },
          true,
        )
      ]

  -- The end of one stream in `_finish`.
  unfoldable pub finish_stream : EngineWorker E → ℕ → RequestStatus → EngineWorker E
  finish_stream w a status = elim (lookup a w.streams) [
    | none ↦ w
    | some h ↦ record w {
      streams = erase a w.streams;
      handles = put_item w.handles h (stream_end status);
    }
  ]

  -- `_finish`, for the requests with the given ids.
  unfoldable pub finish : EngineShape E → EngineWorker E → List ℕ → EngineWorker E
  unfolding finish_stream
  finish shape w [] = w
  finish shape w (a ∷ rest) =
      let status = ((shape.scheduler w.engine).store a).status in
      let counted = record w {
        metrics = record (w.metrics) { requests = status ∷ w.metrics.requests };
        queued = erase a w.queued;
        deadlines = erase a w.deadlines;
      } in
      finish shape (finish_stream counted a status) rest

  -- `self._finish(self.engine.scheduler.abort_requests(ids))`
  unfoldable pub finish_aborted : EngineShape E → EngineWorker E → List ℕ → EngineWorker E × Bool
  unfolding finish
  finish_aborted shape w ids = elim (abort_requests (shape.scheduler w.engine) ids) [
    | err fault ↦ (w, false)
    | ok p ↦ (finish shape (record w { engine = shape.with_scheduler w.engine p.0 }) p.1, true)
  ]

  -- The body of `_drain_incoming`, for an item that is taken out.
  unfoldable pub take_item : EngineShape E → ℕ → EngineWorker E → Incoming → EngineWorker E × Bool
  unfolding handle_submission finish_aborted
  take_item shape now w (submitted s) = handle_submission shape now w s
  take_item shape now w (aborted a) = finish_aborted shape w (a ∷ [])

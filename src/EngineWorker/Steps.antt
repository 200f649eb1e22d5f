-- ===== src/EngineWorker/Steps.antt =====
-- The worker between its threads: who submits and the engine thread take turns in any order.
use lightserve.Prelude.{
  ℕ, ◌≡◌, Bool, true, false, not, Option, none, some, List, [], ◌∷◌, elem, keep, ◌==◌,
}
use lightserve.Request.{SamplingParams}
use lightserve.EngineWorker.{
  EngineWorker, EngineShape, Incoming, submitted, aborted, StreamHandle, new_worker, submit_put,
  submit_check, abort, abort_everything, take_item,
}
use lightserve.EngineWorker.Thread.{sweep_timeouts, step_engine}

-- The worker, the handles whose `submit` has put but not yet tested, the handle of the submission that
-- was in hand when the engine thread died, and whether `_abort_everything` is through.
pub record Server (E : Type 0) : Type 0 where
  pub worker : EngineWorker E
  pub checking : List ℕ
  pub in_hand : Option ℕ
  pub over : Bool

-- A worker right behind its construction.
abbrev pub fresh : {E : Type 0} → E → StreamHandle → Option ℕ → Server E
fresh engine blank timeout = record {
  worker = new_worker engine blank timeout;
  checking = [];
  in_hand = none;
  over = false;
}

-- The handle of an item of the queue.
abbrev pub handle_of : Incoming → Option ℕ
handle_of (submitted s) = some s.handle
handle_of (aborted a) = none

-- `self.error = …`
abbrev pub died : {E : Type 0} → EngineWorker E → EngineWorker E
died w = record w { error = true }

-- What may happen next. The engine thread's steps need it alive: it takes an item of the queue, sweeps
-- or steps, in any order, and where that raises it records the error; `_abort_everything` follows.
pub data Turn {E : Type 0} (shape : EngineShape E) (s s' : Server E) : Type 0 where
  puts :
      (prompt : List ℕ) (params : SamplingParams) (request_id : ℕ) (timeout_s : Option ℕ)
      → s' ≡ record s {
        worker = submit_put s.worker prompt params request_id timeout_s;
        checking = s.worker.num_handles ∷ s.checking;
      }
      → Turn shape s s'
  checks :
      (h : ℕ)
      → elem h s.checking ≡ true
      → s' ≡ record s {
        worker = submit_check s.worker h;
        checking = keep (λ g. not (g == h)) s.checking;
      }
      → Turn shape s s'
  aborts : (a : ℕ) → s' ≡ record s { worker = abort s.worker a } → Turn shape s s'
  takes :
      (now : ℕ) (item : Incoming) (items : List Incoming) (w : EngineWorker E)
      → s.worker.error ≡ false
      → s.worker.incoming ≡ item ∷ items
      → take_item shape now (record (s.worker) { incoming = items }) item ≡ (w, true)
      → s' ≡ record s { worker = w }
      → Turn shape s s'
  sweeps :
      (now : ℕ) (w : EngineWorker E)
      → s.worker.error ≡ false
      → sweep_timeouts shape now s.worker ≡ (w, true)
      → s' ≡ record s { worker = w }
      → Turn shape s s'
  steps :
      (elapsed ns : ℕ) (w : EngineWorker E)
      → s.worker.error ≡ false
      → step_engine shape elapsed ns s.worker ≡ (w, true)
      → s' ≡ record s { worker = w }
      → Turn shape s s'
  takes_and_dies :
      (now : ℕ) (item : Incoming) (items : List Incoming) (w : EngineWorker E)
      → s.worker.error ≡ false
      → s.worker.incoming ≡ item ∷ items
      → take_item shape now (record (s.worker) { incoming = items }) item ≡ (w, false)
      → s' ≡ record s { worker = died w; in_hand = handle_of item }
      → Turn shape s s'
  sweeps_and_dies :
      (now : ℕ) (w : EngineWorker E)
      → s.worker.error ≡ false
      → sweep_timeouts shape now s.worker ≡ (w, false)
      → s' ≡ record s { worker = died w }
      → Turn shape s s'
  steps_and_dies :
      (elapsed ns : ℕ) (w : EngineWorker E)
      → s.worker.error ≡ false
      → step_engine shape elapsed ns s.worker ≡ (w, false)
      → s' ≡ record s { worker = died w }
      → Turn shape s s'
  ends_all :
      s.worker.error ≡ true
      → s.over ≡ false
      → s' ≡ record s { worker = abort_everything s.worker; over = true }
      → Turn shape s s'

pub data Turns {E : Type 0} (shape : EngineShape E) (s : Server E) : Server E → Type 0 where
  here : Turns shape s s
  next : {t u : Server E} → Turns shape s t → Turn shape t u → Turns shape s u

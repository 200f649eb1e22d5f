-- ===== src/Tests/Streaming.antt =====
-- The worker at concrete inputs.
use lightserve.Prelude.{
  ℕ, ◌≡◌, refl, [], ◌∷◌, ◌≤◌, ◌<◌, none, some, false, true, Bool, arith, elem, length,
}
use lightserve.Prelude.Dict.{lookup, insert, erase, values}
use lightserve.Samples.{greedy}
use lightserve.SampleEngines.{
  keep_half, give_double, counter, first_draw, number, engine, whole_program,
}
use lightserve.Engine.{LlmEngine}
use lightserve.EngineWorker.{
  EngineWorker, EngineShape, Submission, submitted, StreamHandle, new_worker, submit_put,
  submit_check, abort, queued_handles, end_all, abort_everything, handle_submission, finish_stream,
  finish, finish_aborted, take_item,
}
use lightserve.EngineWorker.Thread.{
  record_wait, record_waits, observe_step, observe_gauges, record_step, emit_token, emit_tokens,
  step_engine, drain, drain_incoming, sweep_timeouts, loop_pass, Clock,
}
use lightserve.EngineWorker.Places.{ends, places}
use lightserve.EngineWorker.Keys.{EngineLaws}
use lightserve.EngineWorker.Steps.{
  Server, fresh, Turn, Turns, here, next, puts, checks, takes, takes_and_dies, ends_all, died,
}
use lightserve.EngineWorker.Ending.{Turns-places, Turns-ended}
use lightserve.EngineWorker.Serving.{llm_shape, llm_laws}

llm_laws_example : EngineLaws (llm_shape keep_half give_double counter first_draw number)
llm_laws_example = llm_laws keep_half give_double counter first_draw number

abbrev blank : StreamHandle
blank = record { request_id = 0; queue = []; scheduled_ns = none }

abbrev worker : EngineWorker (LlmEngine ℕ)
worker = new_worker engine blank (some 60)

-- Everything that a run of a worker computes with.
unfoldable whole_worker : Unit {0}
unfolding whole_program new_worker submit_put submit_check abort queued_handles end_all
    abort_everything handle_submission finish_stream finish finish_aborted take_item record_wait
    record_waits observe_step observe_gauges record_step emit_token emit_tokens step_engine drain
    drain_incoming sweep_timeouts loop_pass llm_shape ends lookup insert erase values
whole_worker = tt

abbrev clock : Clock
clock = record { arrival = λ n. 10; sweep = 11; started_ns = 12; elapsed = 1 }

-- A submission, and one pass of the loop: the token and the end are in the stream.
abbrev after : EngineWorker (LlmEngine ℕ)
after =
    (loop_pass (llm_shape keep_half give_double counter first_draw number) clock
      (submit_put worker (5 ∷ 6 ∷ []) (greedy 1) 7 none)).0

one_token : length (after.handles 0).queue ≡ 2
unfolding whole_worker
one_token = refl

nothing_held : after.streams ≡ []
unfolding whole_worker
nothing_held = refl

abbrev llm : EngineShape (LlmEngine ℕ)
llm = llm_shape keep_half give_double counter first_draw number

-- Two submissions under one id: the second kills the engine thread.
abbrev s₀ : Server (LlmEngine ℕ)
s₀ = fresh engine blank (some 60)

abbrev s₁ : Server (LlmEngine ℕ)
s₁ = record s₀ { worker = submit_put s₀.worker (5 ∷ 6 ∷ []) (greedy 1) 7 none; checking = 0 ∷ [] }

abbrev s₂ : Server (LlmEngine ℕ)
s₂ = record s₁ { worker = submit_check s₁.worker 0; checking = [] }

abbrev s₃ : Server (LlmEngine ℕ)
s₃ = record s₂ { worker = submit_put s₂.worker (5 ∷ 6 ∷ []) (greedy 1) 7 none; checking = 1 ∷ [] }

abbrev s₄ : Server (LlmEngine ℕ)
s₄ = record s₃ { worker = submit_check s₃.worker 1; checking = [] }

abbrev submission : ℕ → Submission
submission h = record {
  prompt_token_ids = 5 ∷ 6 ∷ [];
  sampling_params = greedy 1;
  request_id = 7;
  timeout_s = some 60;
  handle = h;
}

abbrev first_taken : EngineWorker (LlmEngine ℕ) × Bool
first_taken =
    take_item llm 10 (record (s₄.worker) { incoming = submitted (submission 1) ∷ [] })
      (submitted (submission 0))

abbrev s₅ : Server (LlmEngine ℕ)
s₅ = record s₄ { worker = first_taken.0 }

abbrev second_taken : EngineWorker (LlmEngine ℕ) × Bool
second_taken = take_item llm 10 (record (s₅.worker) { incoming = [] }) (submitted (submission 1))

abbrev s₆ : Server (LlmEngine ℕ)
s₆ = record s₅ { worker = died second_taken.0; in_hand = some 1 }

abbrev s₇ : Server (LlmEngine ℕ)
s₇ = record s₆ { worker = abort_everything s₆.worker; over = true }

first_put : Turn llm s₀ s₁
unfolding whole_worker
first_put = puts (5 ∷ 6 ∷ []) (greedy 1) 7 none refl

first_check : Turn llm s₁ s₂
unfolding whole_worker
first_check = checks 0 refl refl

second_put : Turn llm s₂ s₃
unfolding whole_worker
second_put = puts (5 ∷ 6 ∷ []) (greedy 1) 7 none refl

second_check : Turn llm s₃ s₄
unfolding whole_worker
second_check = checks 1 refl refl

first_take : Turn llm s₄ s₅
unfolding whole_worker
first_take =
    takes 10 (submitted (submission 0)) (submitted (submission 1) ∷ []) first_taken.0 refl refl refl
      refl

second_take : Turn llm s₅ s₆
unfolding whole_worker
second_take = takes_and_dies 10 (submitted (submission 1)) [] second_taken.0 refl refl refl refl

burial : Turn llm s₆ s₇
unfolding whole_worker
burial = ends_all refl refl refl

to_alive : Turns llm s₀ s₅
to_alive =
    next (next (next (next (next here first_put) first_check) second_put) second_check) first_take

to_end : Turns llm s₀ s₇
to_end = next (next to_alive second_take) burial

still_alive : (s₅.worker).error ≡ false
unfolding whole_worker
still_alive = refl

two_handles : 1 < (s₅.worker).num_handles
unfolding whole_worker
two_handles = omega arith

Turns-places_example : places 1 s₅.worker ≡ 1
Turns-places_example =
    Turns-places llm (llm_laws keep_half give_double counter first_draw number) engine blank
      (some 60) s₅ 1 to_alive still_alive two_handles

has_died : (s₇.worker).error ≡ true
unfolding whole_worker
has_died = refl

first_handle : 0 < (s₇.worker).num_handles
unfolding whole_worker
first_handle = omega arith

first_returned : elem 0 s₇.checking ≡ false
unfolding whole_worker
first_returned = refl

not_in_hand : ¬ (s₇.in_hand ≡ some 0)
unfolding whole_worker
not_in_hand e = cc

Turns-ended_example : 1 ≤ ends ((s₇.worker).handles 0).queue
Turns-ended_example =
    Turns-ended llm (llm_laws keep_half give_double counter first_draw number) engine blank
      (some 60) s₇ 0 to_end has_died refl first_handle first_returned not_in_hand

-- The submission in hand gets no end.
second_waits : ends ((s₇.worker).handles 1).queue ≡ 0
unfolding whole_worker
second_waits = refl

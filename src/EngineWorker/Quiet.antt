-- ===== src/EngineWorker/Quiet.antt =====
-- Streaming tokens and recording metrics move no handle.
use lightserve.Prelude.{
  ℕ, ◌+◌, ◌≡◌, inl, inr, refl, ap, ◌∙◌, some, List, [], ◌∷◌, arith, update, last?, Option-cases,
  OnOk, Bool-cases, ◌==◌,
}
use lightserve.Prelude.Dict.{lookup}
use lightserve.Scheduler.{ScheduledRequest, SchedulerOutput}
use lightserve.EngineWorker.{EngineWorker, EngineShape, StreamHandle, stream_token}
use lightserve.EngineWorker.Thread.{
  observe_step, observe_gauges, record_wait, record_waits, record_step, emit_token, emit_tokens,
}
use lightserve.EngineWorker.Places.{open_places, ends, ends-put_item, Moves, Moves-trans, same}

-- Writing the time into a handle leaves its queue.
queue_update :
    (handles : ℕ → StreamHandle) (h ns g : ℕ)
    → (update handles h (record (handles h) { scheduled_ns = some ns }) g).queue ≡ (handles g).queue
queue_update handles h ns g = ground arith

module _ {E : Type 0} where
  -- Neither the engine nor the streams change, and no handle moves.
  pub record Quiet (w w' : EngineWorker E) : Type 0 where
    pub engine : w'.engine ≡ w.engine
    pub streams : w'.streams ≡ w.streams
    pub moves : Moves w w'

  pub Quiet-trans : (u v w : EngineWorker E) → Quiet u v → Quiet v w → Quiet u w
  Quiet-trans u v w h k = record {
    engine = k.engine ∙ h.engine;
    streams = k.streams ∙ h.streams;
    moves = Moves-trans u v w h.moves k.moves;
  }

  Quiet-refl : (w : EngineWorker E) → Quiet w w
  Quiet-refl w = record { engine = refl; streams = refl; moves = same w w refl refl refl refl refl }

  quiet :
      (w w' : EngineWorker E)
      → w'.engine ≡ w.engine
      → w'.num_handles ≡ w.num_handles
      → w'.error ≡ w.error
      → w'.handles ≡ w.handles
      → w'.streams ≡ w.streams
      → w'.incoming ≡ w.incoming
      → Quiet w w'
  quiet w w' g n e h s i = record { engine = g; streams = s; moves = same w w' n e h s i }

  emit_token-Quiet :
      (shape : EngineShape E) (w : EngineWorker E) (a : ℕ) → Quiet w (emit_token shape w a)
  unfolding emit_token ends
  emit_token-Quiet shape w a = elim (Option-cases (lookup a w.streams)) [
    | inl e ↦ rw (e, emit_token) (Quiet-refl w)
    | inr (h, e) ↦
        elim (Option-cases (last? ((shape.scheduler w.engine).store a).output_token_ids)) [
          | inl f ↦ rw (e, emit_token) (rw f (Quiet-refl w))
          | inr (t, f) ↦
              rw (e, emit_token)
                (rw f (record {
                  engine = refl;
                  streams = refl;
                  moves = record {
                    num = refl;
                    error = refl;
                    kept = λ g. ground (arith, ends-put_item w.handles h (stream_token t) g);
                    on = λ g. omega arith;
                  };
                }))
        ]
  ]

  pub emit_tokens-Quiet :
      (shape : EngineShape E) (w : EngineWorker E) (l : List ScheduledRequest)
      → Quiet w (emit_tokens shape w l)
  unfolding emit_tokens
  emit_tokens-Quiet shape w [] = Quiet-refl w
  emit_tokens-Quiet shape w (sr ∷ l) =
      Quiet-trans w (emit_token shape w sr.request) _ (emit_token-Quiet shape w sr.request)
        (emit_tokens-Quiet shape (emit_token shape w sr.request) l)

  record_wait-Quiet : (ns : ℕ) (w : EngineWorker E) (a : ℕ) → Quiet w (record_wait ns w a)
  unfolding record_wait
  record_wait-Quiet ns w a = elim (Option-cases (lookup a w.queued)) [
    | inl e ↦
        rw (e, record_wait)
          (record { engine = refl; streams = refl; moves = same w _ refl refl refl refl refl })
    | inr (arrival, e) ↦ elim (Option-cases (lookup a w.streams)) [
      | inl f ↦
          rw (e, record_wait)
            (rw f
              (record { engine = refl; streams = refl; moves = same w _ refl refl refl refl refl }))
      | inr (h, f) ↦
          rw (e, record_wait)
            (rw f (record {
              engine = refl;
              streams = refl;
              moves = record {
                num = refl;
                error = refl;
                kept = λ g. ap (λ q. ends q + open_places g w) (queue_update w.handles h ns g);
                on = λ g. omega arith;
              };
            }))
    ]
  ]

  record_waits-Quiet :
      (ns : ℕ) (l : List ScheduledRequest) (w : EngineWorker E) → Quiet w (record_waits ns l w)
  unfolding record_waits
  record_waits-Quiet ns [] w = Quiet-refl w
  record_waits-Quiet ns (sr ∷ l) w =
      Quiet-trans w (record_wait ns w sr.request) _ (record_wait-Quiet ns w sr.request)
        (record_waits-Quiet ns l (record_wait ns w sr.request))

  pub record_step-Quiet :
      (shape : EngineShape E) (out : SchedulerOutput) (elapsed ns : ℕ) (w : EngineWorker E)
      → OnOk (Quiet w) (record_step shape out elapsed ns w)
  unfolding record_step observe_step observe_gauges
  record_step-Quiet shape out elapsed ns w =
      let first = observe_step out elapsed w in
      let second = record_waits ns out.scheduled_new first in
      elim (Bool-cases ((shape.scheduler second.engine).block_manager.num_gpu_blocks == 0)) [
        | inl e ↦ rw e tt
        | inr e ↦ rw e (
            Quiet-trans w first _ (quiet w first refl refl refl refl refl refl) (
              Quiet-trans first second _ (record_waits-Quiet ns out.scheduled_new first)
                (quiet second _ refl refl refl refl refl refl)))
      ]

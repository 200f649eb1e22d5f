-- ===== src/EngineWorker/Passing.antt =====
-- The operations of the engine thread keep every handle in its one place.
use lightserve.Prelude.{
  ℕ, ◌+◌, ◌≡◌, inl, inr, refl, ap, sym, subst, Bool, true, false, none, List, [], ◌∷◌, ◌++◌, arith,
  count, elem, is_some, nonempty, Bool-cases, Option-cases, Result-cases, OnOk-use, map, keep, leb,
}
use lightserve.Prelude.Dict.{Dict, lookup, insert, values, contains, IsDict, insert-IsDict}
use lightserve.Scheduler.{Scheduler, abort_requests}
use lightserve.Scheduler.Keys.{Accounted, abort_requests-Accounted}
use lightserve.EngineWorker.{
  EngineWorker, EngineShape, Incoming, submitted, aborted, Submission, queued_handles,
  handle_submission, finish, finish_aborted, take_item,
}
use lightserve.EngineWorker.Thread.{sweep_timeouts, record_step, emit_tokens, step_engine}
use lightserve.EngineWorker.Places.{
  ends, count-values-insert, Moves, Moves-trans, same, finish-Moves,
}
use lightserve.EngineWorker.Keys.{EngineLaws, keys_of, Known, finish-Known, contains-insert}
use lightserve.EngineWorker.Quiet.{Quiet, Quiet-trans, emit_tokens-Quiet, record_step-Quiet}

module _ {E : Type 0} (shape : EngineShape E) (laws : EngineLaws shape) where
  -- What an operation of the engine thread does: it returns, and every handle has moved on or stayed,
  -- or it raises, and nothing has happened.
  abbrev pub Passes : EngineWorker E → EngineWorker E × Bool → Type 0
  Passes w (w', true) = Moves w w' × Known shape w'
  Passes w (w', false) = w' ≡ w

  -- `_finish` behind a call that changed the engine.
  finish-Passes :
      (w w' : EngineWorker E) (gone : List ℕ)
      → Known shape w
      → Accounted (keys_of shape w.engine) (keys_of shape w'.engine) gone
      → w'.streams ≡ w.streams
      → Moves w w'
      → Moves w (finish shape w' gone) × Known shape (finish shape w' gone)
  finish-Passes w w' gone (d, known) acc same_streams moves = (
    Moves-trans w w' (finish shape w' gone) moves (finish-Moves shape w' gone),
    finish-Known shape w' gone (
      subst IsDict (sym same_streams) d,
      λ k c. acc k (known k (subst (λ (s : Dict ℕ). contains k s ≡ true) same_streams c)),
    ),
  )

  pub finish_aborted-Passes :
      (w : EngineWorker E) (ids : List ℕ) → Known shape w → Passes w (finish_aborted shape w ids)
  unfolding finish_aborted
  finish_aborted-Passes w ids known =
      elim (Result-cases (abort_requests (shape.scheduler w.engine) ids)) [
        | inl (f, e) ↦ rw (e, finish_aborted) refl
        | inr (p, e) ↦
            let acc =
              OnOk-use (λ p. Accounted (keys_of shape w.engine) p.0.requests p.1)
                (abort_requests (shape.scheduler w.engine) ids)
                (abort_requests-Accounted (shape.scheduler w.engine) ids) e in
            let w' = record w { engine = shape.with_scheduler w.engine p.0 } in
            rw (e, finish_aborted)
              (finish-Passes w w' p.1 known
                (subst (λ (s : Scheduler). Accounted (keys_of shape w.engine) s.requests p.1)
                  (sym (laws.replaces w.engine p.0)) acc)
                refl (same w w' refl refl refl refl refl))
      ]

  pub sweep_timeouts-Passes :
      (now : ℕ) (w : EngineWorker E) → Known shape w → Passes w (sweep_timeouts shape now w)
  unfolding sweep_timeouts
  sweep_timeouts-Passes now w known =
      elim (Bool-cases (nonempty (map (λ d. d.0) (keep (λ d. leb d.1 now) w.deadlines)))) [
        | inl e ↦ rw e (finish_aborted-Passes w _ known)
        | inr e ↦ rw e (same w w refl refl refl refl refl, known)
      ]

  pub step_engine-Passes :
      (elapsed ns : ℕ) (w : EngineWorker E)
      → Known shape w
      → Passes w (step_engine shape elapsed ns w)
  unfolding step_engine
  step_engine-Passes elapsed ns w known = elim (Result-cases (shape.step w.engine)) [
    | inl (f, e) ↦ rw (e, step_engine) refl
    | inr ((engine, out, gone), e) ↦
        let w₁ = record w { engine = engine } in
        elim (Result-cases (record_step shape out elapsed ns w₁)) [
          | inl (f, r) ↦ rw (e, step_engine, r) refl
          | inr (w₂, r) ↦
              let w₃ = emit_tokens shape w₂ (out.scheduled_new ++ out.scheduled_running) in
              let q =
                Quiet-trans w₁ w₂ w₃
                  (OnOk-use (Quiet w₁) (record_step shape out elapsed ns w₁)
                    (record_step-Quiet shape out elapsed ns w₁) r)
                  (emit_tokens-Quiet shape w₂ (out.scheduled_new ++ out.scheduled_running)) in
              rw (e, step_engine, r)
                (finish-Passes w w₃ gone known
                  (subst (λ (x : E). Accounted (keys_of shape w.engine) (keys_of shape x) gone)
                    (sym q.engine) (laws.steps w.engine engine out gone e))
                  q.streams (Moves-trans w w₁ w₃ (same w w₁ refl refl refl refl refl) q.moves))
        ]
  ]

  -- … and where it takes an item out of the queue and raises, no more than that has happened.
  abbrev pub Takes : EngineWorker E → List Incoming → EngineWorker E × Bool → Type 0
  Takes w items (w', true) = Moves w w' × Known shape w'
  Takes w items (w', false) = w' ≡ record w { incoming = items }

  popped-Moves :
      (w : EngineWorker E) (a : ℕ) (items : List Incoming)
      → w.incoming ≡ aborted a ∷ items
      → Moves w (record w { incoming = items })
  unfolding queued_handles
  popped-Moves w a items e = record {
    num = refl;
    error = refl;
    kept = λ g.
        ap
          (λ q.
            ends (w.handles g).queue + (count g (values w.streams) + count g (queued_handles q)))
          (sym e);
    on = λ g. omega (arith, ap (λ q. count g (queued_handles q)) e);
  }

  Passes-Takes :
      (w : EngineWorker E) (items : List Incoming) (p : EngineWorker E × Bool)
      → Moves w (record w { incoming = items })
      → Passes (record w { incoming = items }) p
      → Takes w items p
  Passes-Takes w items (w', true) h k =
      (Moves-trans w (record w { incoming = items }) w' h k.0, k.1)
  Passes-Takes w items (w', false) h k = k

  -- A new stream, for a request that had none.
  new_stream-Moves :
      (w w' : EngineWorker E) (s : Submission) (items : List Incoming)
      → w.incoming ≡ submitted s ∷ items
      → lookup s.request_id w.streams ≡ none
      → w'.num_handles ≡ w.num_handles
      → w'.error ≡ w.error
      → w'.handles ≡ w.handles
      → w'.incoming ≡ items
      → w'.streams ≡ insert s.request_id s.handle w.streams
      → Moves w w'
  unfolding queued_handles count
  new_stream-Moves w w' s items e absent n r h i t = record {
    num = n;
    error = r;
    kept = λ g.
        rw (h, i, t)
          (omega (
            arith,
            count-values-insert g s.request_id s.handle w.streams absent,
            ap (λ q. count g (queued_handles q)) e,
          ));
    on = λ g.
        rw (i, t)
          (omega (
            arith,
            count-values-insert g s.request_id s.handle w.streams absent,
            ap (λ q. count g (queued_handles q)) e,
          ));
  }

  -- The queue is `item ∷ items`, and `item` is taken out.
  pub take_item-Takes :
      (now : ℕ) (w : EngineWorker E) (item : Incoming) (items : List Incoming)
      → w.incoming ≡ item ∷ items
      → Known shape w
      → Takes w items (take_item shape now (record w { incoming = items }) item)
  unfolding take_item handle_submission
  take_item-Takes now w (aborted a) items e known =
      Passes-Takes w items (finish_aborted shape (record w { incoming = items }) (a ∷ []))
        (popped-Moves w a items e)
        (finish_aborted-Passes (record w { incoming = items }) (a ∷ []) known)
  take_item-Takes now w (submitted s) items e (d, known) =
      elim (Result-cases
        (shape.add_request w.engine s.prompt_token_ids s.sampling_params s.request_id)) [
          | inl (f, q) ↦ rw (q, handle_submission) refl
          | inr (engine, q) ↦
              let (fresh, there, kept) =
                laws.adds w.engine engine s.prompt_token_ids s.sampling_params s.request_id q in
              rw (q, handle_submission)
                (
                  new_stream-Moves w _ s items e (absent fresh) refl refl refl refl refl,
                  (
                    insert-IsDict s.request_id s.handle w.streams d,
                    λ k c. elim (contains-insert k s.request_id s.handle w.streams c) [
                      | inl t ↦
                          subst (λ (b : ℕ). elem b (keys_of shape engine) ≡ true) (sym t) there
                      | inr t ↦ kept k (known k t)
                    ],
                  ),
                )
        ]
    where
      absent :
          elem s.request_id (keys_of shape w.engine) ≡ false → lookup s.request_id w.streams ≡ none
      absent fresh = elim (Option-cases (lookup s.request_id w.streams)) [
        | inl t ↦ t
        | inr (h, t) ↦ absurd (clash (known s.request_id (ap is_some t)) fresh)
      ]
        where
          clash : {b : Bool} → b ≡ true → b ≡ false → ⊥
          clash t f = cc

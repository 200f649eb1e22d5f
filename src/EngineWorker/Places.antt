-- ===== src/EngineWorker/Places.antt =====
-- Where each handle of the worker is: in the queue with its submission, among the streams, or ended.
use lightserve.Prelude.{
  ℕ, ◌+◌, ◌≤◌, ◌≡◌, inl, inr, refl, subst, ◌∙◌, none, some, List, [], ◌∷◌, ◌++◌, arith, count, ◌==◌,
  eq_sound, if◌then◌else◌, Bool-cases, Option-cases,
}
use lightserve.Prelude.Dict.{Dict, lookup, insert, erase, values}
use lightserve.Request.{RequestStatus}
use lightserve.EngineWorker.{
  EngineWorker, EngineShape, StreamItem, stream_token, stream_end, StreamHandle, put_item,
  queued_handles, finish_stream, finish,
}

-- How many ends were put into a queue.
unfoldable pub ends : List StreamItem → ℕ
ends [] = 0
ends (stream_token t ∷ items) = ends items
ends (stream_end reason ∷ items) = 1 + ends items

ends-append : (xs ys : List StreamItem) → ends (xs ++ ys) ≡ ends xs + ends ys
unfolding ends
ends-append [] ys = omega arith
ends-append (stream_token t ∷ xs) ys = ends-append xs ys
ends-append (stream_end r ∷ xs) ys = omega (arith, ends-append xs ys)

pub ends-put_item :
    (handles : ℕ → StreamHandle) (h : ℕ) (item : StreamItem) (g : ℕ)
    → ends (put_item handles h item g).queue
      ≡ ends (handles g).queue + (if g == h then ends (item ∷ []) else 0)
ends-put_item handles h item g = elim (Bool-cases (g == h)) [
  | inr e ↦ rw e (omega arith)
  | inl e ↦ rw e (
      subst (λ x. ends ((handles x).queue ++ item ∷ []) ≡ ends (handles g).queue + ends (item ∷ []))
        (eq_sound g h e) (ends-append (handles g).queue (item ∷ [])))
]

count-values-erase :
    (g a h : ℕ) (d : Dict ℕ)
    → lookup a d ≡ some h
    → count g (values (erase a d)) + (if g == h then 1 else 0) ≡ count g (values d)
unfolding count values erase lookup
count-values-erase g a h [] e = cc
count-values-erase g a h ((j, v) ∷ d) e = ground (arith, count-values-erase g a h d)

pub count-values-insert :
    (g a h : ℕ) (d : Dict ℕ)
    → lookup a d ≡ none
    → count g (values (insert a h d)) ≡ count g (values d) + (if g == h then 1 else 0)
unfolding count values insert lookup
count-values-insert g a h [] e = omega arith
count-values-insert g a h ((j, v) ∷ d) e = ground (arith, count-values-insert g a h d)

module _ {E : Type 0} where
  -- How often a handle is among the streams or with a submission in the queue.
  abbrev pub open_places : ℕ → EngineWorker E → ℕ
  open_places h w = count h (values w.streams) + count h (queued_handles w.incoming)

  -- … or ended.
  abbrev pub places : ℕ → EngineWorker E → ℕ
  places h w = ends (w.handles h).queue + open_places h w

  -- Handles move on from the queue to the streams and to their end.
  pub record Moves (w w' : EngineWorker E) : Type 0 where
    pub num : w'.num_handles ≡ w.num_handles
    pub error : w'.error ≡ w.error
    pub kept : (h : ℕ) → places h w' ≡ places h w
    pub on : (h : ℕ) → open_places h w' ≤ open_places h w

  pub Moves-trans : (u v w : EngineWorker E) → Moves u v → Moves v w → Moves u w
  Moves-trans u v w h k = record {
    num = k.num ∙ h.num;
    error = k.error ∙ h.error;
    kept = λ g. k.kept g ∙ h.kept g;
    on = λ g. omega (arith, h.on g, k.on g);
  }

  -- A worker with the same queues.
  pub same :
      (w w' : EngineWorker E)
      → w'.num_handles ≡ w.num_handles
      → w'.error ≡ w.error
      → w'.handles ≡ w.handles
      → w'.streams ≡ w.streams
      → w'.incoming ≡ w.incoming
      → Moves w w'
  same w w' n e h s i = record {
    num = n;
    error = e;
    kept = λ g. rw (h, s, i) refl;
    on = λ g. rw (s, i) (omega arith);
  }

  finish_stream-Moves :
      (w : EngineWorker E) (a : ℕ) (status : RequestStatus) → Moves w (finish_stream w a status)
  unfolding finish_stream ends
  finish_stream-Moves w a status = elim (Option-cases (lookup a w.streams)) [
    | inl e ↦
        rw (e, finish_stream)
          (record { num = refl; error = refl; kept = λ g. refl; on = λ g. omega arith })
    | inr (h, e) ↦
        rw (e, finish_stream)
          (record {
            num = refl;
            error = refl;
            kept = λ g. omega (
              arith,
              ends-put_item w.handles h (stream_end status) g,
              count-values-erase g a h w.streams e,
            );
            on = λ g. omega (arith, count-values-erase g a h w.streams e);
          })
  ]

  pub finish-Moves :
      (shape : EngineShape E) (w : EngineWorker E) (gone : List ℕ) → Moves w (finish shape w gone)
  unfolding finish
  finish-Moves shape w [] = record {
    num = refl;
    error = refl;
    kept = λ g. refl;
    on = λ g. omega arith;
  }
  finish-Moves shape w (a ∷ gone) =
      Moves-trans w counted (finish shape stopped gone) (same w counted refl refl refl refl refl) (
        Moves-trans counted stopped (finish shape stopped gone)
          (finish_stream-Moves counted a status) (finish-Moves shape stopped gone))
    where
      status : RequestStatus
      status = ((shape.scheduler w.engine).store a).status

      counted : EngineWorker E
      counted = record w {
        metrics = record (w.metrics) { requests = status ∷ w.metrics.requests };
        queued = erase a w.queued;
        deadlines = erase a w.deadlines;
      }

      stopped : EngineWorker E
      stopped = finish_stream counted a status

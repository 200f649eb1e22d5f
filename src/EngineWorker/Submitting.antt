-- ===== src/EngineWorker/Submitting.antt =====
-- The invariant through `submit`, its test, and `abort`.
use lightserve.Prelude.{
  ℕ, ◌+◌, ◌≤◌, ◌≡◌, ◌⊎◌, inl, inr, refl, sym, subst, ◌∙◌, true, false, not, Option, is_some, List,
  [], ◌∷◌, arith, count, elem_here, ne_sound, keep, ◌==◌, eq_sound, if◌then◌else◌, Bool-cases,
}
use lightserve.Request.{SamplingParams, finished_aborted}
use lightserve.EngineWorker.{
  EngineWorker, EngineShape, Submission, submitted, aborted, stream_end, put_item, submit_put,
  submit_check, abort, queued_handles,
}
use lightserve.EngineWorker.Places.{ends, ends-put_item, open_places}
use lightserve.EngineWorker.Steps.{Server}
use lightserve.EngineWorker.Placing.{
  clash, count-queued_handles-push, tail_out, elem-keep_ne, Placed,
}

module _ {E : Type 0} (shape : EngineShape E) where
  -- What `submit` does to a handle: it is the new one, or it is another.
  PutCases : EngineWorker E → EngineWorker E → ℕ → Type 0
  PutCases w w' h =
      ((h ≡ w.num_handles)
        × (ends (w'.handles h).queue ≡ 0)
        × (open_places h w' ≡ open_places h w + 1))
      ⊎ (¬ (h ≡ w.num_handles)
          × (ends (w'.handles h).queue ≡ ends (w.handles h).queue)
          × (open_places h w' ≡ open_places h w))

  put_cases :
      (w : EngineWorker E) (prompt : List ℕ) (params : SamplingParams) (a : ℕ) (timeout : Option ℕ)
      (h : ℕ)
      → PutCases w (submit_put w prompt params a timeout) h
  unfolding submit_put ends queued_handles count PutCases
  put_cases w prompt params a timeout h =
      let sum = count-queued_handles-push h w.incoming (submitted new ∷ []) in
      elim (Bool-cases (h == w.num_handles)) [
        | inl e ↦ inl (eq_sound h w.num_handles e, rw e refl, ground (arith, e, sum))
        | inr e ↦ inr (ne_sound h w.num_handles e, rw e refl, ground (arith, e, sum))
      ]
    where
      new : Submission
      new = record {
        prompt_token_ids = prompt;
        sampling_params = params;
        request_id = a;
        timeout_s = if is_some timeout then timeout else w.default_timeout_s;
        handle = w.num_handles;
      }

  pub put :
      (s : Server E) (prompt : List ℕ) (params : SamplingParams) (a : ℕ) (timeout : Option ℕ)
      → Placed shape s
      → Placed shape (record s {
        worker = submit_put s.worker prompt params a timeout;
        checking = s.worker.num_handles ∷ s.checking;
      })
  unfolding submit_put PutCases
  put s prompt params a timeout p = record {
    new = λ h le. elim (put_cases s.worker prompt params a timeout h) [
      | inl (q, n, o) ↦ absurd (omega (arith, q, le))
      | inr (q, n, o) ↦ omega (arith, o, p.new h (omega (arith, le)))
    ];
    alive = λ e. (
      (p.alive e).0,
      (p.alive e).1,
      λ h lt. elim (put_cases s.worker prompt params a timeout h) [
        | inl (q, n, o) ↦ omega (arith, n, o, p.new h (omega (arith, q)))
        | inr (q, n, o) ↦ omega (arith, n, o, (p.alive e).2 h (omega (arith, q, lt)))
      ],
    );
    dying = λ e t h lt ne. elim (put_cases s.worker prompt params a timeout h) [
      | inl (q, n, o) ↦ omega (arith, o)
      | inr (q, n, o) ↦ omega (arith, n, o, p.dying e t h (omega (arith, q, lt)) ne)
    ];
    over = λ e t h lt ne c. elim (put_cases s.worker prompt params a timeout h) [
      | inl (q, n, o) ↦ absurd (clash (elem_here h s.worker.num_handles s.checking q) c)
      | inr (q, n, o) ↦ omega (
        arith,
        n,
        p.over e t h (omega (arith, q, lt)) ne (tail_out h s.worker.num_handles s.checking c),
      )
    ];
  }

  checked_alive : (w : EngineWorker E) (g : ℕ) → w.error ≡ false → submit_check w g ≡ w
  unfolding submit_check
  checked_alive w g e =
      subst
        (λ b.
          (if b
            then record w { handles = put_item w.handles g (stream_end finished_aborted) }
            else w)
          ≡ w)
        (sym e) refl

  checked_dead :
      (w : EngineWorker E) (g : ℕ)
      → w.error ≡ true
      → submit_check w g ≡ record w { handles = put_item w.handles g (stream_end finished_aborted) }
  unfolding submit_check
  checked_dead w g e =
      subst
        (λ b.
          (if b
            then record w { handles = put_item w.handles g (stream_end finished_aborted) }
            else w)
          ≡ record w { handles = put_item w.handles g (stream_end finished_aborted) })
        (sym e) refl

  pub checked :
      (s : Server E) (g : ℕ)
      → Placed shape s
      → Placed shape (record s {
        worker = submit_check s.worker g;
        checking = keep (λ x. not (x == g)) s.checking;
      })
  unfolding ends
  checked s g p = elim (Bool-cases s.worker.error) [
    | inr e ↦
        subst
          (λ w.
            Placed shape (record s { worker = w; checking = keep (λ x. not (x == g)) s.checking }))
          (sym (checked_alive s.worker g e))
          (record { new = p.new; alive = p.alive; dying = p.dying; over = λ t. absurd (clash t e) })
    | inl e ↦
        subst
          (λ w.
            Placed shape (record s { worker = w; checking = keep (λ x. not (x == g)) s.checking }))
          (sym (checked_dead s.worker g e))
          (record {
            new = p.new;
            alive = λ t. absurd (clash e t);
            dying = λ t o h lt ne. omega (
              arith,
              p.dying t o h lt ne,
              ends-put_item s.worker.handles g (stream_end finished_aborted) h,
            );
            over = λ t o h lt ne c. elim (Bool-cases (h == g)) [
              | inl f ↦ ended h f
              | inr f ↦ omega (
                arith,
                p.over t o h lt ne (sym (elem-keep_ne h g s.checking (ne_sound h g f)) ∙ c),
                ends-put_item s.worker.handles g (stream_end finished_aborted) h,
              )
            ];
          })
  ]
    where
      ended :
          (h : ℕ)
          → (h == g) ≡ true
          → 1 ≤ ends (put_item s.worker.handles g (stream_end finished_aborted) h).queue
      ended h f =
          ground (arith, f, ends-put_item s.worker.handles g (stream_end finished_aborted) h)

  pub abort_placed :
      (s : Server E) (a : ℕ)
      → Placed shape s
      → Placed shape (record s { worker = abort s.worker a })
  unfolding abort queued_handles count
  abort_placed s a p = record {
    new = λ h le.
        omega (arith, p.new h le, count-queued_handles-push h s.worker.incoming (aborted a ∷ []));
    alive = λ e. (
      (p.alive e).0,
      (p.alive e).1,
      λ h lt. omega (
        arith,
        (p.alive e).2 h lt,
        count-queued_handles-push h s.worker.incoming (aborted a ∷ []),
      ),
    );
    dying = λ e o h lt ne. omega (
      arith,
      p.dying e o h lt ne,
      count-queued_handles-push h s.worker.incoming (aborted a ∷ []),
    );
    over = p.over;
  }

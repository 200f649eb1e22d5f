-- ===== src/EngineWorker/Dying.antt =====
-- The invariant through the turns of the engine thread, its death and `_abort_everything`.
use lightserve.Prelude.{
  ℕ, ◌+◌, ◌≡◌, inl, inr, refl, ap, sym, ◌∙◌, true, false, some, List, ◌∷◌, ◌++◌, arith, count,
  count-append, ◌==◌, eq_sound, Bool-cases,
}
use lightserve.Prelude.Dict.{values}
use lightserve.EngineWorker.{
  EngineWorker, EngineShape, Incoming, submitted, aborted, queued_handles, abort_everything,
}
use lightserve.EngineWorker.Places.{ends, places, Moves}
use lightserve.EngineWorker.Keys.{Known}
use lightserve.EngineWorker.Steps.{Server, handle_of, died}
use lightserve.EngineWorker.Placing.{clash, ends-end_all, queued_le, Placed}

module _ {E : Type 0} (shape : EngineShape E) where
  pub moved :
      (s : Server E) (w : EngineWorker E)
      → s.worker.error ≡ false
      → Moves s.worker w
      → Known shape w
      → Placed shape s
      → Placed shape (record s { worker = w })
  moved s w live m known p = record {
    new = λ h le. omega (arith, m.on h, p.new h (omega (arith, le, m.num)));
    alive = λ e.
        (known, (p.alive live).1, λ h lt. m.kept h ∙ (p.alive live).2 h (omega (arith, lt, m.num)));
    dying = λ e. absurd (clash e (m.error ∙ live));
    over = λ e. absurd (clash e (m.error ∙ live));
  }

  -- The engine thread dies with nothing in hand.
  pub dead :
      (s : Server E) (w : EngineWorker E)
      → s.worker.error ≡ false
      → w ≡ s.worker
      → Placed shape s
      → Placed shape (record s { worker = died w })
  dead s w live q p = rw q (record {
    new = p.new;
    alive = λ e. cc;
    dying = λ e o h lt ne. omega (arith, (p.alive live).2 h lt);
    over = λ e o. absurd (clash o (p.alive live).1);
  })

  popped_places :
      (w : EngineWorker E) (item : Incoming) (items : List Incoming) (h : ℕ)
      → w.incoming ≡ item ∷ items
      → ¬ (handle_of item ≡ some h)
      → places h (record w { incoming = items }) ≡ places h w
  unfolding queued_handles count
  popped_places w (submitted s) items h e ne =
      ap (λ n. ends (w.handles h).queue + (count h (values w.streams) + n)) other
      ∙ ap
          (λ q.
            ends (w.handles h).queue + (count h (values w.streams) + count h (queued_handles q)))
          (sym e)
    where
      other : count h (queued_handles items) ≡ count h (queued_handles (submitted s ∷ items))
      other = elim (Bool-cases (h == s.handle)) [
        | inl f ↦ absurd (ne (ap some (sym (eq_sound h s.handle f))))
        | inr f ↦ rw f (omega arith)
      ]
  popped_places w (aborted a) items h e ne =
      ap (λ q. ends (w.handles h).queue + (count h (values w.streams) + count h (queued_handles q)))
        (sym e)

  -- It dies with an item in hand.
  pub dead_with :
      (s : Server E) (item : Incoming) (items : List Incoming) (w : EngineWorker E)
      → s.worker.error ≡ false
      → s.worker.incoming ≡ item ∷ items
      → w ≡ record (s.worker) { incoming = items }
      → Placed shape s
      → Placed shape (record s { worker = died w; in_hand = handle_of item })
  dead_with s item items w live e q p = rw q (record {
    new = λ h le.
        omega (arith, p.new h le, queued_le item items h, ap (λ r. count h (queued_handles r)) e);
    alive = λ e. cc;
    dying = λ t o h lt ne.
        omega (arith, popped_places s.worker item items h e ne, (p.alive live).2 h lt);
    over = λ t o. absurd (clash o (p.alive live).1);
  })

  pub all_ended :
      (s : Server E)
      → s.worker.error ≡ true
      → s.over ≡ false
      → Placed shape s
      → Placed shape (record s { worker = abort_everything s.worker; over = true })
  unfolding abort_everything queued_handles count values
  all_ended s e o p = record {
    new = λ h le. refl;
    alive = λ t. absurd (clash e t);
    dying = λ t f. cc;
    over = λ t f h lt ne c. omega (
      arith,
      p.dying e o h lt ne,
      ends-end_all h (values s.worker.streams ++ queued_handles s.worker.incoming) s.worker.handles,
      count-append h (values s.worker.streams) (queued_handles s.worker.incoming),
    );
  }

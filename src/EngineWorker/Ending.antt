-- ===== src/EngineWorker/Ending.antt =====
-- No stream is left open: every handle is in one place, and ends with the engine thread.
use lightserve.Prelude.{
  ℕ, ◌≤◌, ◌<◌, ◌≡◌, refl, subst, true, false, Option, some, arith, count, elem,
}
use lightserve.Prelude.Dict.{values, lookup}
use lightserve.EngineWorker.{EngineShape, StreamHandle, new_worker, queued_handles}
use lightserve.EngineWorker.Places.{ends, places}
use lightserve.EngineWorker.Keys.{EngineLaws}
use lightserve.EngineWorker.Passing.{
  Takes, Passes, take_item-Takes, sweep_timeouts-Passes, step_engine-Passes,
}
use lightserve.EngineWorker.Steps.{
  Server, Turn, Turns, fresh, here, next, puts, checks, aborts, takes, sweeps, steps,
  takes_and_dies, sweeps_and_dies, steps_and_dies, ends_all,
}
use lightserve.EngineWorker.Placing.{Placed}
use lightserve.EngineWorker.Dying.{moved, dead, dead_with, all_ended}
use lightserve.EngineWorker.Submitting.{put, checked, abort_placed}

module _ {E : Type 0} (shape : EngineShape E) (laws : EngineLaws shape) where
  Turn-Placed : (s s' : Server E) → Turn shape s s' → Placed shape s → Placed shape s'
  Turn-Placed s s' (puts prompt params a timeout e) p = rw e (put shape s prompt params a timeout p)
  Turn-Placed s s' (checks h i e) p = rw e (checked shape s h p)
  Turn-Placed s s' (aborts a e) p = rw e (abort_placed shape s a p)
  Turn-Placed s s' (takes now item items w live q t e) p =
      let r : Takes shape laws s.worker items (w, true) =
        subst (Takes shape laws s.worker items) t
          (take_item-Takes shape laws now s.worker item items q (p.alive live).0) in
      rw e (moved shape s w live r.0 r.1 p)
  Turn-Placed s s' (sweeps now w live t e) p =
      let r : Passes shape laws s.worker (w, true) =
        subst (Passes shape laws s.worker) t
          (sweep_timeouts-Passes shape laws now s.worker (p.alive live).0) in
      rw e (moved shape s w live r.0 r.1 p)
  Turn-Placed s s' (steps elapsed ns w live t e) p =
      let r : Passes shape laws s.worker (w, true) =
        subst (Passes shape laws s.worker) t
          (step_engine-Passes shape laws elapsed ns s.worker (p.alive live).0) in
      rw e (moved shape s w live r.0 r.1 p)
  Turn-Placed s s' (takes_and_dies now item items w live q t e) p =
      let r : Takes shape laws s.worker items (w, false) =
        subst (Takes shape laws s.worker items) t
          (take_item-Takes shape laws now s.worker item items q (p.alive live).0) in
      rw e (dead_with shape s item items w live q r p)
  Turn-Placed s s' (sweeps_and_dies now w live t e) p =
      let r : Passes shape laws s.worker (w, false) =
        subst (Passes shape laws s.worker) t
          (sweep_timeouts-Passes shape laws now s.worker (p.alive live).0) in
      rw e (dead shape s w live r p)
  Turn-Placed s s' (steps_and_dies elapsed ns w live t e) p =
      let r : Passes shape laws s.worker (w, false) =
        subst (Passes shape laws s.worker) t
          (step_engine-Passes shape laws elapsed ns s.worker (p.alive live).0) in
      rw e (dead shape s w live r p)
  Turn-Placed s s' (ends_all e o q) p = rw q (all_ended shape s e o p)

  Turns-Placed : (s s' : Server E) → Turns shape s s' → Placed shape s → Placed shape s'
  Turns-Placed s s' here p = p
  Turns-Placed s s' (next {t = t} r step) p = Turn-Placed t s' step (Turns-Placed s t r p)

  fresh-Placed :
      (engine : E) (blank : StreamHandle) (timeout : Option ℕ)
      → Placed shape (fresh engine blank timeout)
  unfolding new_worker queued_handles count values lookup
  fresh-Placed engine blank timeout = record {
    new = λ h le. refl;
    alive = λ e. ((tt, λ k c. cc), refl, λ h lt. absurd (omega (arith, lt)));
    dying = λ e o. cc;
    over = λ e o. cc;
  }

  -- While the engine thread lives, every stream is in exactly one place: whatever the threads have done
  -- since the worker's construction, in any order, each handle that a `submit` made is in the queue with
  -- its submission, or among the streams, or has had its end put into it, and just one of these, once.
  pub Turns-places :
      (engine : E) (blank : StreamHandle) (timeout : Option ℕ) (s : Server E) (h : ℕ)
      → Turns shape (fresh engine blank timeout) s
      → s.worker.error ≡ false
      → h < s.worker.num_handles
      → places h s.worker ≡ 1
  Turns-places engine blank timeout s h run live lt =
      ((Turns-Placed (fresh engine blank timeout) s run (fresh-Placed engine blank timeout)).alive
          live).2
        h lt

  -- No client waits for ever on a dead engine: once the engine thread has died of an exception and
  -- `_abort_everything` is through, in whatever order the threads came, each handle whose `submit` has
  -- returned has an end in its queue, but for the one whose submission was in hand when the thread died.
  pub Turns-ended :
      (engine : E) (blank : StreamHandle) (timeout : Option ℕ) (s : Server E) (h : ℕ)
      → Turns shape (fresh engine blank timeout) s
      → s.worker.error ≡ true
      → s.over ≡ true
      → h < s.worker.num_handles
      → elem h s.checking ≡ false
      → ¬ (s.in_hand ≡ some h)
      → 1 ≤ ends (s.worker.handles h).queue
  Turns-ended engine blank timeout s h run dead over lt returned ne =
      (Turns-Placed (fresh engine blank timeout) s run (fresh-Placed engine blank timeout)).over
        dead over h lt ne returned

-- ===== src/Scheduler/Reachable.antt =====
-- The life of a scheduler without prefix caching, from its construction on.
use lightserve.Prelude.{ℕ, ◌≡◌, refl, ◌∙◌, Option, List, false, ok, OnOk-use, if◌then◌else◌, ltb}
use lightserve.Config.{CacheConfig, SchedulerConfig}
use lightserve.Request.{Request}
use lightserve.BlockManager.Ownership.{owners, new_manager_off, owners-new_manager}
use lightserve.Scheduler.Ownership.{
  Owned, schedule-Owned, free_finished_requests-Owned, abort_requests-Owned, add_request-Owned,
}
use lightserve.Scheduler.{
  Scheduler, SchedulerOutput, new_scheduler, put, add_request, schedule, free_finished_requests,
  abort_requests,
}

-- One call from outside, in any order: the scheduler's methods, and the engine and the model runner
-- writing a request object.
pub data Step (s s' : Scheduler) : Type 0 where
  adds : (r : Request) → add_request s r ≡ ok s' → Step s s'
  schedules : (out : SchedulerOutput) → schedule s ≡ ok (s', out) → Step s s'
  sweeps : (done : List ℕ) → free_finished_requests s ≡ ok (s', done) → Step s s'
  aborts : (ids done : List ℕ) → abort_requests s ids ≡ ok (s', done) → Step s s'
  writes : (a : ℕ) (r : Request) → s' ≡ put s a r → Step s s'

pub data Reach (s : Scheduler) : Scheduler → Type 0 where
  here : Reach s s
  next : {t u : Scheduler} → Reach s t → Step t u → Reach s u

Step-Owned :
    (s₀ s s' : Scheduler) → Step s s' → Owned s₀.block_manager s → Owned s₀.block_manager s'
Step-Owned s₀ s s' (adds r e) h =
    OnOk-use (Owned s₀.block_manager) (add_request s r) (add_request-Owned s₀.block_manager s r h) e
Step-Owned s₀ s s' (schedules out e) h =
    OnOk-use _ (schedule s) (schedule-Owned s₀.block_manager s h) e
Step-Owned s₀ s s' (sweeps done e) h =
    OnOk-use _ (free_finished_requests s) (free_finished_requests-Owned s₀.block_manager s h) e
Step-Owned s₀ s s' (aborts ids done e) h =
    OnOk-use _ (abort_requests s ids) (abort_requests-Owned s₀.block_manager s ids h) e
Step-Owned s₀ s s' (writes a r e) h = rw e h

Reach-Owned : {s₀ s : Scheduler} → Owned s₀.block_manager s₀ → Reach s₀ s → Owned s₀.block_manager s
Reach-Owned h here = h
Reach-Owned {s₀} h (next {t = t} {u = u} r step) = Step-Owned s₀ t u step (Reach-Owned h r)

-- Whatever calls a scheduler without prefix caching has had, in any order, every block of the pool
-- has exactly one owner, the free stack or one request's table, and no other block has any: none is
-- leaked, and none is in two places.
pub Reach-owners :
    (hash_fn : Option ℕ → List ℕ → ℕ) (blank : Request) (c : CacheConfig) (sc : SchedulerConfig)
    (s : Scheduler) (b : ℕ)
    → c.enable_prefix_caching ≡ false
    → Reach (new_scheduler hash_fn blank c sc) s
    → owners b s.block_manager ≡ (if ltb b c.num_gpu_blocks then 1 else 0)
unfolding new_scheduler
Reach-owners hash_fn blank c sc s b off r =
    (Reach-Owned
        (new_manager_off hash_fn c.block_size c.num_gpu_blocks c.watermark_blocks _ off, λ b. refl)
        r).1
      b
    ∙ owners-new_manager hash_fn c.block_size c.num_gpu_blocks c.watermark_blocks b
        c.enable_prefix_caching

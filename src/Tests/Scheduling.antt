-- ===== src/Tests/Scheduling.antt =====
-- The scheduler's theorems at concrete inputs.
use lightserve.Prelude.{
  false, ◌≡◌, refl, [], ◌∷◌, Result, ok, value_or, ◌>>=◌, length, ◌≤◌, ◌+◌, arith, ltb,
  if◌then◌else◌,
}
use lightserve.Samples.{start, greedy, sample_hash, cache_config, scheduler_config, program}
use lightserve.BlockManager.Ownership.{owners}
use lightserve.Scheduler.Budget.{DraftsWithin, schedule-le_budget}
use lightserve.Scheduler.Limits.{schedule-le_seqs}
use lightserve.Scheduler.Reachable.{Reach, here, next, adds, schedules, Reach-owners}
use lightserve.Request.{new_request}
use lightserve.Scheduler.{
  Scheduler, SchedulerOutput, empty_output, add_request, schedule, total_num_scheduled_tokens,
}
use lightserve.Scheduler.Order.{everyone, schedule-everyone}

abbrev with_two : Result Scheduler
with_two = do
  s ← add_request start (new_request 1 (5 ∷ 6 ∷ 7 ∷ 8 ∷ 9 ∷ []) (greedy 3))
  add_request s (new_request 2 (5 ∷ 6 ∷ 7 ∷ 8 ∷ 9 ∷ 10 ∷ []) (greedy 3))

abbrev two : Scheduler
two = value_or with_two start

abbrev stepped : Scheduler × SchedulerOutput
stepped = value_or (schedule two) (start, empty_output)

two_runs : schedule two ≡ ok stepped
unfolding program
two_runs = refl

stepped_total : total_num_scheduled_tokens stepped.1 ≡ 8
unfolding program
stepped_total = refl

stepped_everyone : everyone stepped.0 ≡ 1 ∷ 2 ∷ []
unfolding program
stepped_everyone = refl

schedule-everyone_example : everyone stepped.0 ≡ everyone two
schedule-everyone_example = schedule-everyone two stepped.0 stepped.1 two_runs

-- No request of the two has draft tokens, and neither has an object that no request stands for.
no_drafts : DraftsWithin 0 two
unfolding program
no_drafts a = ground arith

schedule-le_budget_example :
    total_num_scheduled_tokens stepped.1 ≤ (two.scheduler_config).max_num_batched_tokens + 0
schedule-le_budget_example = schedule-le_budget 0 two stepped.0 stepped.1 no_drafts two_runs

none_running : length two.running_list ≤ (two.scheduler_config).max_num_seqs
unfolding program
none_running = omega arith

schedule-le_seqs_example : length (stepped.0).running_list ≤ (two.scheduler_config).max_num_seqs
schedule-le_seqs_example = schedule-le_seqs two stepped.0 stepped.1 none_running two_runs

abbrev with_one : Scheduler
with_one = value_or (add_request start (new_request 1 (5 ∷ 6 ∷ 7 ∷ 8 ∷ 9 ∷ []) (greedy 3))) start

abbrev one_stepped : Scheduler × SchedulerOutput
one_stepped = value_or (schedule with_one) (start, empty_output)

-- A start, one arrival and one step.
run : Reach start one_stepped.0
unfolding program
run =
    next (next here (adds (new_request 1 (5 ∷ 6 ∷ 7 ∷ 8 ∷ 9 ∷ []) (greedy 3)) refl))
      (schedules one_stepped.1 refl)

Reach-owners_example : owners 3 (one_stepped.0).block_manager ≡ (if ltb 3 4 then 1 else 0)
Reach-owners_example =
    Reach-owners sample_hash (new_request 0 [] (greedy 1)) (cache_config 4 false)
      (scheduler_config 8) one_stepped.0 3 refl run

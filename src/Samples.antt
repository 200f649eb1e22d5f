-- ===== src/Samples.antt =====
-- Small engines for the tests and the examples: blocks of four tokens, a pool of a few blocks.
use lightserve.Prelude.{
  ℕ, ◌+◌, ◌*◌, Bool, false, Option, none, some, List, [], ◌∷◌, or_else, elem, keep, count_down,
  eq_list,
}
use lightserve.Config.{CacheConfig, SchedulerConfig, cache_post_init, scheduler_post_init}
use lightserve.Request.{
  SamplingParams, new_request, maybe_finish, num_blocks_needed, get_num_new_tokens, is_finished,
  is_prefill,
}
use lightserve.PrefixCache.{
  new_trie, match, acquire, release, insert_blocks, num_evictable_blocks, evict_one_lru,
}
use lightserve.BlockManager.{
  drain_loop, resolve_match, acquire_match, take_blocks, release_cached, grow, push_block,
  new_manager, get_block_table, match_prefix, can_allocate, allocate, insert_computed_prefix,
  append_slot, can_append_slot, ensure_capacity, can_ensure_capacity, drain_evictions, free,
}
use lightserve.Scheduler.{
  Scheduler, new_scheduler, add_request, free_request, preempt, fits, make_room, advance, settle,
  give_tokens, visit, run_rounds, schedule_running, blocked, seed_computed, admit, admit_loop,
  schedule_waiting, schedule, del_key, free_all, free_finished_requests, abort_waiting,
  mark_aborted, abort_requests, total_num_scheduled_tokens,
}
use lightserve.Prelude.Dict.{lookup, insert, erase, values}

-- A stand-in for Python's `hash` of a parent hash and a block.
unfoldable pub digest : List ℕ → ℕ → ℕ
digest [] acc = acc
digest (x ∷ xs) acc = digest xs (acc * 31 + x + 1)

abbrev pub sample_hash : Option ℕ → List ℕ → ℕ
sample_hash parent block = digest block (or_else parent 7)

abbrev pub greedy : ℕ → SamplingParams
greedy n = record { max_tokens = n; eos_token_id = some 2 }

abbrev pub cache_config : ℕ → Bool → CacheConfig
cache_config blocks caching = record {
  block_size = 4;
  num_gpu_blocks = blocks;
  watermark_blocks = 0;
  enable_prefix_caching = caching;
  int8_kv = false;
}

abbrev pub scheduler_config : ℕ → SchedulerConfig
scheduler_config budget = record {
  max_num_seqs = 4;
  max_num_batched_tokens = budget;
  max_cache_hit_context_tokens = none;
}

abbrev pub engine_of : ℕ → Bool → ℕ → Scheduler
engine_of blocks caching budget =
    new_scheduler sample_hash (new_request 0 [] (greedy 1)) (cache_config blocks caching)
      (scheduler_config budget)

abbrev pub start : Scheduler
start = engine_of 4 false 8

-- Everything that a run of the sample engines computes with.
unfoldable pub program : Unit {0}
unfolding new_request new_manager new_scheduler digest add_request schedule schedule_running
    run_rounds visit give_tokens make_room fits settle advance schedule_waiting admit_loop blocked
    admit seed_computed preempt free_request free_finished_requests free_all del_key abort_requests
    abort_waiting mark_aborted can_allocate allocate drain_evictions append_slot can_append_slot
    ensure_capacity can_ensure_capacity free match_prefix insert_computed_prefix match acquire
    release insert_blocks evict_one_lru num_evictable_blocks maybe_finish elem keep count_down
    eq_list lookup insert erase values num_blocks_needed get_num_new_tokens is_finished is_prefill
    drain_loop resolve_match acquire_match take_blocks release_cached grow push_block
    get_block_table total_num_scheduled_tokens cache_post_init scheduler_post_init new_trie
program = tt

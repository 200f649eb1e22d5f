-- ===== src/Lib.antt =====
-- lightserve: the serving engine's scheduling core, modelled and proved.
--
-- The engine (engine/) decides, one step at a time, which requests run and which KV-cache blocks they
-- own. `Scheduler` keeps a FIFO of waiting requests and a list of running ones; each `schedule()` first
-- gives the running requests their tokens, preempting from the end of the list where the block pool is
-- exhausted, and, if nobody was preempted, admits from the front of the queue. `BlockManager` owns the
-- pool of block ids and a table of blocks per request. With prefix caching on it also owns a `RadixTrie`
-- that maps blocks of prompt tokens to blocks of the pool, which requests share and reference-count.
--
-- Files and sources:
--   Prelude       tests on numbers, lists and slices, dicts, errors as values, predicates on results
--   Config        engine/config.py: the configurations and their `__post_init__` checks
--   Request       engine/request.py: the request object, its life cycle and its stop test
--   PrefixCache   engine/prefix_cache.py: `RadixTrie`, with `match`, `acquire`, `release`, `insert`
--                 (here `insert_blocks`), `evict_one_lru` and `_remove`; below it Labels (what a node
--                 stands for), Shrinking, Insertion, Rounds and Recording (who keeps the labels),
--                 Sharing (the tree over its life), Holding (reference counts), Removal and Eviction
--   BlockManager  engine/block_manager.py, method by method; below it Frame (what calls leave alone),
--                 Ownership (who owns a block), Capacity and Admitting (the guards are enough)
--   Scheduler     engine/scheduler.py, method by method; below it Rule (proof rules of the loops), Order,
--                 Frame, Ownership, Reachable, Budget, Limits
--   Speculation   model/model_runner.py: `_accept_reject`, the commit rule of speculative decoding
--   Correction    model/llm_engine.py: what `step` corrects behind a speculative round, and the commit of
--                 `execute_model` in model/model_runner.py
--   DraftProposer  model/draft_proposer.py: the shadow requests, `propose` and `rollback`, with the draft
--                 model's forward pass as the parameter `draw`
--   KvCache       model/kv_cache.py: the slots of positions, `write`, `read`, export and import; below it
--                 Slots, Reading and Keeping (what a write leaves), Transfer, and Isolation and Room (under
--                 the scheduler)
--   ModelRunner   model/model_runner.py: the flat batch, attention over the KV cache, and the commits of
--                 `execute_model`; below it Batching, Recording and Committing
--   Engine        model/llm_engine.py: `add_request`, the whole `step`, `generate`; below it Ownership and
--                 Sweeping
--   Disaggregation  model/pd_disaggregation.py: `prefill`, `resume_decode`, `generate_disaggregated`; below
--                 it Resuming
--   EngineWorker  server/engine_worker.py: the queues, `submit` and `abort`, and below it Thread (the engine
--                 thread's loop), Places, Quiet and Passing (where each handle is), Keys (the interface with
--                 the engine), Steps (the threads' turns), Placing, Dying, Submitting and Ending (how every
--                 stream ends), Serving (the engine fills the interface)
--   Retraining    mlops/retrain.py: `add_round` and `watch_verdict`, the watch over a deployed model; below
--                 it Gathering (the rounds), Lows, Staleness and Watching (the verdicts)
--   Samples, SampleEngines, Tests  small engines, runs of them, and the theorems at concrete inputs
--
-- Interaction. `LlmEngine` owns a `Scheduler` and a `PagedKvCache`. Its `step` schedules, lets the model
-- runner write and read the keys and values of the scheduled requests and commit tokens to them, registers
-- computed prompt blocks, corrects speculative requests, sweeps the finished ones and asks for drafts. The
-- worker is the only one to call the engine, through `EngineShape`; clients reach it by the queue
-- `incoming` and get their tokens from the queue of a `StreamHandle`.
--
-- Conventions. Python objects that are shared live in a store: requests by id in `Scheduler.store`, trie
-- nodes by address in `RadixTrie.heap`; a list of objects is a list of ids or addresses. An exception is
-- an error of `Prelude.Faults.Result`, which ends the call, and what the call had done by then is not
-- looked at. Ids and tokens are only compared and are natural numbers. A difference of the source that
-- may be negative is written as the comparison it is used in, or is stated to be read as 0. The one
-- place where the source would store a negative number, the counter of an empty prompt, is the error
-- `negative_counter`. Python's `hash` is a field of the trie, `hash_fn`, and no theorem assumes anything
-- of it; the one on `evict_one_lru` is about trees in which no hashes of different levels collide. A block
-- table, which the request and the manager share in the source, is written under both names.
--
-- Loops and fuel. Loops over lists recurse on the list. `_schedule_running` takes one request off its
-- list in each round, so it is given as many rounds as the list is long, and Scheduler.Order proves that
-- the list is empty at the end. `_drain_evictions` frees a block or stops in each round, so the number
-- of blocks asked for is enough. The loop of `ensure_capacity` recurses on the missing blocks, and so does the
-- draft proposer's, where `append_slot` adds a block in each round, since one is missing.
--
-- `prefill` of the disaggregation has a loop without a bound, and is given fuel; `none` says that it was
-- not enough. `generate` and `generate_disaggregated` have a bound of their own, `max_steps`.
--
-- Parameters. The numbers of the forward pass (model/minimal_llama.py, kernels/) are the fields of
-- `ModelRunner.Forward`, one row of the residual stream, of q and of k and v being of any type; what a
-- store keeps of a row, `_quantize` or the row itself, and the way back are `keep_row` and `give_row`. No
-- theorem assumes anything of them. Times are numbers that the worker's operations are given. The watch
-- over a deployed model has accuracies as whole numbers of 1e-9 in place of floats.
--
-- Not modelled: the kernels and the numbers of the model, CUDA graphs and the loading of weights (model/,
-- kernels/), the HTTP routes (server/app.py and the processes around it), the polling of a stream, `stop`
-- and the pinning of the worker's thread, and the training, benchmark, monitoring and infrastructure code
-- and the rest of retraining, which call the engine or work on its output. Within the engine,
-- `arrival_time` and the hit rates, which nothing there reads, are left out.
pub mod Prelude
pub mod Config
pub mod Request
pub mod PrefixCache
pub mod BlockManager
pub mod Scheduler
pub mod Speculation
pub mod Correction
pub mod DraftProposer
pub mod KvCache
pub mod ModelRunner
pub mod Engine
pub mod Disaggregation
pub mod EngineWorker
pub mod Retraining
mod Samples
mod SampleEngines
mod Tests

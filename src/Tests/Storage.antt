-- ===== src/Tests/Storage.antt =====
-- The store of keys and values, and a request's way to a second engine, at concrete inputs.
use lightserve.Prelude.{
  ℕ, ◌≡◌, refl, [], ◌∷◌, ◌++◌, ◌≤◌, ◌<◌, Result, ok, ◌+◌, ◌*◌, Option, none, some, false, true,
  value_or, arith, map, count, length, ◌>>=◌,
}
use lightserve.Prelude.Dict.{lookup}
use lightserve.Config.{CacheConfig}
use lightserve.Samples.{greedy, sample_hash, cache_config, scheduler_config, start}
use lightserve.SampleEngines.{
  keep_half, give_double, counter, shape, first_draw, number, engine, whole_program,
}
use lightserve.Request.{Request, new_request}
use lightserve.BlockManager.Ownership.{owners, count_tables}
use lightserve.Scheduler.{Scheduler, schedule, empty_output, SchedulerOutput}
use lightserve.Scheduler
use lightserve.Scheduler.Reachable.{Reach, Step, here, next, adds, schedules}
use lightserve.KvCache.{
  PagedKvCache, KvBundle, new_cache, write, read, export_request_kv, import_request_kv,
}
use lightserve.KvCache.Slots.{Once}
use lightserve.KvCache.Keeping.{read-write}
use lightserve.KvCache.Isolation.{Reach-read}
use lightserve.KvCache.Room.{Stored, Reach-Stored}
use lightserve.KvCache.Transfer.{import_request_kv-export_request_kv}
use lightserve.Engine.{LlmEngine}
use lightserve.Disaggregation.{PrefillHandoff, Prefilled, ended, handed, prefill, resume_decode}
use lightserve.Disaggregation.Resuming.{Resumed, resume_decode-Resumed, resume_decode-read}

-- A store that keeps the half, with blocks of four positions.
abbrev int8_config : CacheConfig
int8_config = record (cache_config 4 false) { int8_kv = true }

abbrev store : PagedKvCache ℕ
store = new_cache 0 int8_config shape

abbrev owner : Request
owner = record (new_request 1 [] (greedy 1)) { block_table = 2 ∷ 0 ∷ [] }

abbrev three_rows : PagedKvCache ℕ
three_rows = value_or (write keep_half give_double store 0 owner 0 (5 ∷ 6 ∷ 7 ∷ [])) store

abbrev five_rows : PagedKvCache ℕ
five_rows = value_or (write keep_half give_double three_rows 0 owner 3 (8 ∷ 9 ∷ [])) store

three_read : read keep_half give_double three_rows 0 owner 3 ≡ ok (4 ∷ 6 ∷ 6 ∷ [])
unfolding whole_program
three_read = refl

five_written : write keep_half give_double three_rows 0 owner 3 (8 ∷ 9 ∷ []) ≡ ok five_rows
unfolding whole_program
five_written = refl

blocks_differ : Once (2 ∷ 0 ∷ [])
unfolding count
blocks_differ b = ground arith

block_size_pos : 0 < 4
block_size_pos = omega arith

three_size_pos : 0 < three_rows.block_size
unfolding whole_program
three_size_pos = omega arith

read-write_example :
    read keep_half give_double five_rows 0 owner (3 + 2)
    ≡ ok (
        (4 ∷ 6 ∷ 6 ∷ [])
        ++ map
            (λ row. give_double three_rows.int8_kv (keep_half three_rows.int8_kv row))
            (8 ∷ 9 ∷ []))
read-write_example =
    read-write keep_half give_double three_rows five_rows 0 owner 3 (8 ∷ 9 ∷ []) (4 ∷ 6 ∷ 6 ∷ [])
      three_size_pos blocks_differ three_read five_written

-- A second store with blocks of two positions.
abbrev other_store : PagedKvCache ℕ
other_store = record (new_cache 0 (cache_config 4 false) shape) { block_size = 2 }

abbrev other_owner : Request
other_owner = record (new_request 1 [] (greedy 1)) { block_table = 1 ∷ 3 ∷ [] }

abbrev bundle : KvBundle ℕ
bundle =
    value_or (export_request_kv keep_half give_double three_rows owner 3)
      (record { num_kv_heads = 0; head_dim = 0; dtype = 0; layers = [] })

bundle_exported : export_request_kv keep_half give_double three_rows owner 3 ≡ ok bundle
unfolding whole_program
bundle_exported = refl

abbrev moved : PagedKvCache ℕ
moved =
    value_or (import_request_kv keep_half give_double other_store other_owner bundle) other_store

moved_imported : import_request_kv keep_half give_double other_store other_owner bundle ≡ ok moved
unfolding whole_program
moved_imported = refl

other_blocks_differ : Once (1 ∷ 3 ∷ [])
unfolding count
other_blocks_differ b = ground arith

other_size_pos : 0 < other_store.block_size
other_size_pos = omega arith

one_layer : 0 < three_rows.model_shape.n_layers
unfolding whole_program
one_layer = omega arith

import_request_kv-export_request_kv_example :
    read keep_half give_double moved 0 other_owner 3
    ≡ ok (
        map
          (λ row. give_double other_store.int8_kv (keep_half other_store.int8_kv row))
          (4 ∷ 6 ∷ 6 ∷ []))
import_request_kv-export_request_kv_example =
    import_request_kv-export_request_kv keep_half give_double three_rows other_store moved owner
      other_owner 3 0 bundle (4 ∷ 6 ∷ 6 ∷ []) other_size_pos other_blocks_differ bundle_exported
      moved_imported one_layer three_read

-- Two requests in one engine: the second has blocks of its own.
abbrev with_two : Result Scheduler
with_two = do
  s ← Scheduler.add_request start (new_request 1 (5 ∷ 6 ∷ []) (greedy 3))
  Scheduler.add_request s (new_request 2 (7 ∷ 8 ∷ []) (greedy 3))

abbrev first_added : Scheduler
first_added = value_or (Scheduler.add_request start (new_request 1 (5 ∷ 6 ∷ []) (greedy 3))) start

abbrev two : Scheduler
two = value_or with_two start

abbrev placed_two : Scheduler × SchedulerOutput
placed_two = value_or (schedule two) (start, empty_output)

first_arrival : Step start first_added
unfolding whole_program
first_arrival = adds (new_request 1 (5 ∷ 6 ∷ []) (greedy 3)) refl

second_arrival : Step first_added two
unfolding whole_program
second_arrival = adds (new_request 2 (7 ∷ 8 ∷ []) (greedy 3)) refl

scheduling : Step two placed_two.0
unfolding whole_program
scheduling = schedules placed_two.1 refl

run : Reach start placed_two.0
run = next (next (next here first_arrival) second_arrival) scheduling

first_listed :
    lookup ((placed_two.0).store 1).request_id (placed_two.0).block_manager.block_tables
    ≡ some ((placed_two.0).store 1).block_table
unfolding whole_program
first_listed = refl

second_listed :
    lookup ((placed_two.0).store 2).request_id (placed_two.0).block_manager.block_tables
    ≡ some ((placed_two.0).store 2).block_table
unfolding whole_program
second_listed = refl

different : ¬ (((placed_two.0).store 2).request_id ≡ ((placed_two.0).store 1).request_id)
unfolding whole_program
different e = omega (arith, e)

abbrev first_written : PagedKvCache ℕ
first_written =
    value_or (write keep_half give_double store 0 ((placed_two.0).store 1) 0 (5 ∷ 6 ∷ [])) store

first_write :
    write keep_half give_double store 0 ((placed_two.0).store 1) 0 (5 ∷ 6 ∷ []) ≡ ok first_written
unfolding whole_program
first_write = refl

Reach-read_example :
    read keep_half give_double first_written 0 ((placed_two.0).store 2) 2
    ≡ read keep_half give_double store 0 ((placed_two.0).store 2) 2
Reach-read_example =
    Reach-read sample_hash (new_request 0 [] (greedy 1)) (cache_config 4 false) (scheduler_config 8)
      placed_two.0 refl run keep_half give_double store first_written 0 0 ((placed_two.0).store 1)
      ((placed_two.0).store 2) 0 2 (5 ∷ 6 ∷ []) different first_listed second_listed first_write

same_pool : store.num_gpu_blocks ≡ (cache_config 4 false).num_gpu_blocks
unfolding whole_program
same_pool = refl

store_size_pos : 0 < store.block_size
unfolding whole_program
store_size_pos = omega arith

store_layer : 0 < (store.model_shape).n_layers
unfolding whole_program
store_layer = omega arith

enough_room : 1 + 2 ≤ length ((placed_two.0).store 1).block_table * store.block_size
unfolding whole_program
enough_room = omega arith

Reach-Stored_example : Stored keep_half give_double store 0 ((placed_two.0).store 1) 1 (5 ∷ 6 ∷ [])
Reach-Stored_example =
    Reach-Stored sample_hash (new_request 0 [] (greedy 1)) (cache_config 4 false)
      (scheduler_config 8) placed_two.0 refl run keep_half give_double store 0
      ((placed_two.0).store 1) 1 (5 ∷ 6 ∷ []) first_listed same_pool store_size_pos store_layer
      enough_room

-- A prompt of three tokens through two engines, and through one.
abbrev no_handoff : PrefillHandoff ℕ
no_handoff = record {
  request_id = 0;
  prompt_token_ids = [];
  first_token_id = 0;
  sampling_params = greedy 1;
  kv = bundle;
}

abbrev handoff_of : Option (LlmEngine ℕ × Prefilled ℕ) → PrefillHandoff ℕ
handoff_of (some (e, handed h)) = h
handoff_of (some (e, ended o)) = no_handoff
handoff_of none = no_handoff

abbrev handoff : PrefillHandoff ℕ
handoff = handoff_of (
    value_or
      (prefill keep_half give_double counter first_draw number 3 engine (5 ∷ 6 ∷ 7 ∷ []) (greedy 2)
        none)
      none)

abbrev resumed : LlmEngine ℕ × ℕ
resumed = value_or (resume_decode keep_half give_double engine handoff) (engine, 0)

resumed_runs : resume_decode keep_half give_double engine handoff ≡ ok resumed
unfolding whole_program
resumed_runs = refl

engine_size_pos : 0 < engine.scheduler.block_manager.block_size
unfolding whole_program
engine_size_pos = omega arith

resume_decode-Resumed_example : Resumed keep_half give_double engine handoff resumed.0 resumed.1
resume_decode-Resumed_example =
    resume_decode-Resumed keep_half give_double engine resumed.0 handoff resumed.1 engine_size_pos
      resumed_runs

engine_off : engine.scheduler.block_manager.prefix_cache ≡ none
unfolding whole_program
engine_off = refl

engine_owned : (b : ℕ) → owners b engine.scheduler.block_manager ≤ 1
unfolding whole_program owners count_tables count
engine_owned b = ground arith

engine_kv_pos : 0 < engine.kv_cache.block_size
unfolding whole_program
engine_kv_pos = omega arith

-- The first three positions of the request on the first engine.
abbrev first_store : PagedKvCache ℕ
first_store =
    value_or (write keep_half give_double engine.kv_cache 0 other_owner 0 (5 ∷ 6 ∷ 7 ∷ []))
      engine.kv_cache

first_exported : export_request_kv keep_half give_double first_store other_owner 3 ≡ ok handoff.kv
unfolding whole_program
first_exported = refl

first_read : read keep_half give_double first_store 0 other_owner 3 ≡ ok (5 ∷ 6 ∷ 7 ∷ [])
unfolding whole_program
first_read = refl

first_layer : 0 < first_store.model_shape.n_layers
unfolding whole_program
first_layer = omega arith

resume_decode-read_example :
    read keep_half give_double (resumed.0).kv_cache 0 ((resumed.0).scheduler.store resumed.1) 3
    ≡ ok (
        map
          (λ row. give_double engine.kv_cache.int8_kv (keep_half engine.kv_cache.int8_kv row))
          (5 ∷ 6 ∷ 7 ∷ []))
resume_decode-read_example =
    resume_decode-read keep_half give_double engine resumed.0 handoff resumed.1 first_store
      other_owner 3 0 (5 ∷ 6 ∷ 7 ∷ []) engine_off engine_owned engine_size_pos engine_kv_pos
      first_exported resumed_runs first_layer first_read

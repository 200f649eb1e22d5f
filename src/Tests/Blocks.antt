-- ===== src/Tests/Blocks.antt =====
-- The theorems on requests, configurations and the block manager at concrete inputs.
use lightserve.Prelude.{
  ◌+◌, ◌*◌, ◌≤◌, ◌<◌, ◌≡◌, refl, true, false, ◌↔◌, ◌⊎◌, [], ◌∷◌, none, arith, length, ok, value_or,
}
use lightserve.Request.{Request, new_request, get_len, num_blocks_needed, is_finished, maybe_finish}
use lightserve.Request.Blocks.{num_blocks_needed_bounds}
use lightserve.Request.Stops.{EndsInEos, maybe_finish_stops}
use lightserve.BlockManager.{BlockManager, new_manager, allocate, append_slot, ensure_capacity}
use lightserve.BlockManager.Capacity.{Holds, ensure_capacity_covers, append_slot_covers}
use lightserve.BlockManager.Admitting.{allocate_covers, allocate_total}
use lightserve.Samples.{sample_hash, greedy, program}

abbrev five : Request
five = new_request 1 (5 ∷ 6 ∷ 7 ∷ 8 ∷ 9 ∷ []) (greedy 3)

num_blocks_needed_bounds_example :
    (get_len five ≤ num_blocks_needed five 4 * 4)
    × (num_blocks_needed five 4 * 4 < get_len five + 4)
num_blocks_needed_bounds_example = num_blocks_needed_bounds five 4 (omega arith)

maybe_finish_stops_example :
    is_finished (maybe_finish five) ≡ true
    ↔ EndsInEos five ⊎ ((five.sampling_params).max_tokens ≤ length five.output_token_ids)
unfolding program
maybe_finish_stops_example = maybe_finish_stops five refl

-- Eight blocks of four tokens, with prefix caching off.
abbrev pool : BlockManager
pool = new_manager sample_hash 4 8 1 false

abbrev allocated : BlockManager × Request
allocated = value_or (allocate pool five none) (pool, five)

allocate_runs : allocate pool five none ≡ ok allocated
unfolding program
allocate_runs = refl

pool_blocks : 0 < pool.block_size
unfolding program
pool_blocks = omega arith

allocate_covers_example :
    (get_len five ≤ length (allocated.1).block_table * pool.block_size)
    × Holds allocated.0 allocated.1 (allocated.1).block_table
allocate_covers_example = allocate_covers pool five none allocated pool_blocks allocate_runs

allocate_total_example : (p : BlockManager × Request) × (allocate pool five none ≡ ok p)
unfolding program
allocate_total_example = allocate_total pool five refl refl refl

two_blocks : Holds allocated.0 allocated.1 (7 ∷ 6 ∷ [])
unfolding program
two_blocks = record { listed = refl; carried = refl }

-- The request with four more tokens, for which it needs a third block.
abbrev nine : Request
nine = record (allocated.1) { output_token_ids = 1 ∷ 3 ∷ 4 ∷ 6 ∷ [] }

nine_blocks : Holds allocated.0 nine (7 ∷ 6 ∷ [])
unfolding program
nine_blocks = record { listed = refl; carried = refl }

ensure_capacity_covers_example :
    (p : BlockManager × Request) × (ensure_capacity allocated.0 allocated.1 14 ≡ ok p)
    × (14 ≤ length (p.1).block_table * (allocated.0).block_size)
    × Holds p.0 p.1 (p.1).block_table
unfolding program
ensure_capacity_covers_example =
    ensure_capacity_covers allocated.0 allocated.1 14 (7 ∷ 6 ∷ []) (omega arith) two_blocks refl

append_slot_covers_example :
    (p : BlockManager × Request) × (append_slot allocated.0 nine ≡ ok p)
    × (get_len nine ≤ length (p.1).block_table * (allocated.0).block_size)
    × Holds p.0 p.1 (p.1).block_table
unfolding program
append_slot_covers_example =
    append_slot_covers allocated.0 nine (7 ∷ 6 ∷ []) (omega arith) nine_blocks refl

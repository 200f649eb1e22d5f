-- ===== src/Request/Blocks.antt =====
-- The number of blocks that a request needs.
use lightserve.Prelude.{ℕ, ◌+◌, ◌*◌, ◌/◌, ◌-◌, ◌≤◌, ◌<◌, arith}
use lightserve.Request.{Request, get_len, num_blocks_needed}

pub ceil_div_bounds :
    (n d : ℕ) → 0 < d → (n ≤ ((n + d - 1) / d) * d) × (((n + d - 1) / d) * d < n + d)
ceil_div_bounds n d h = grind arith

-- A request's blocks hold all of its tokens, and one block less would not: with a positive block size
-- the slots of the needed blocks are at least the tokens and exceed them by less than one block.
pub num_blocks_needed_bounds :
    (r : Request) (block_size : ℕ)
    → 0 < block_size
    → (get_len r ≤ num_blocks_needed r block_size * block_size)
      × (num_blocks_needed r block_size * block_size < get_len r + block_size)
unfolding num_blocks_needed
num_blocks_needed_bounds r d h = ground (arith, ceil_div_bounds (get_len r) d h)

-- ===== src/Config.antt =====
-- engine/config.py: the frozen configuration objects, built through their `__post_init__` checks.
-- Model paths are not modelled; Python's `int`s here are checked to be positive or non-negative.
use lightserve.Prelude.{
  ℕ, Bool, none, some, Option, ltb, leb, Result, ok, assertion_error, guard, ◌>>◌,
}

-- `CacheConfig`
pub record CacheConfig : Type 0 where
  pub block_size : ℕ
  pub num_gpu_blocks : ℕ
  pub watermark_blocks : ℕ
  pub enable_prefix_caching : Bool
  pub int8_kv : Bool

-- `CacheConfig.__post_init__`; `0 <= x` holds of every natural number.
unfoldable pub cache_post_init : CacheConfig → Result CacheConfig
cache_post_init c = do
  guard (ltb 0 c.block_size) assertion_error
  guard (leb c.watermark_blocks c.num_gpu_blocks) assertion_error
  ok c

-- `SchedulerConfig`
pub record SchedulerConfig : Type 0 where
  pub max_num_seqs : ℕ
  pub max_num_batched_tokens : ℕ
  pub max_cache_hit_context_tokens : Option ℕ

abbrev positive_if_set : Option ℕ → Bool
positive_if_set none = leb 0 0
positive_if_set (some n) = ltb 0 n

-- `SchedulerConfig.__post_init__`
unfoldable pub scheduler_post_init : SchedulerConfig → Result SchedulerConfig
scheduler_post_init c = do
  guard (ltb 0 c.max_num_seqs) assertion_error
  guard (ltb 0 c.max_num_batched_tokens) assertion_error
  guard (positive_if_set c.max_cache_hit_context_tokens) assertion_error
  ok c

-- `SpeculativeConfig`, less the path of the draft model.
pub record SpeculativeConfig : Type 0 where
  pub num_speculative_tokens : ℕ
  pub draft_num_gpu_blocks : Option ℕ

abbrev positive_and_set : Option ℕ → Bool
positive_and_set none = ltb 0 0
positive_and_set (some n) = ltb 0 n

-- `SpeculativeConfig.__post_init__`
unfoldable pub speculative_post_init : SpeculativeConfig → Result SpeculativeConfig
speculative_post_init c = do
  guard (ltb 0 c.num_speculative_tokens) assertion_error
  guard (positive_and_set c.draft_num_gpu_blocks) assertion_error
  ok c

-- ===== src/KvCache/Isolation.antt =====
-- The store under a scheduler without prefix caching: no request writes what another reads.
use lightserve.Prelude.{
  ℕ, ◌+◌, ◌≤◌, ◌≡◌, Bool, false, Option, some, List, [], ◌∷◌, ok, count, arith, Bool-cases, inl,
  inr, ◌==◌,
}
use lightserve.Prelude.Dict.{Dict, lookup}
use lightserve.Config.{CacheConfig, SchedulerConfig}
use lightserve.Request.{Request}
use lightserve.BlockManager.Ownership.{owners, count_tables}
use lightserve.Scheduler.{Scheduler, new_scheduler}
use lightserve.Scheduler.Reachable.{Reach, Reach-owners}
use lightserve.KvCache.{PagedKvCache, write, read}
use lightserve.KvCache.Slots.{Once}
use lightserve.KvCache.Keeping.{read-write_other}

pub count_tables-lookup :
    (b k : ℕ) (table : List ℕ) (d : Dict (List ℕ))
    → lookup k d ≡ some table
    → count b table ≤ count_tables b d
unfolding count_tables lookup
count_tables-lookup b k table [] h = cc
count_tables-lookup b k table ((j, w) ∷ d) h = elim (Bool-cases (k == j)) [
  | inl e ↦ let q : w ≡ table = ground arith in ground arith
  | inr e ↦ omega (arith, count_tables-lookup b k table d (rw e at h))
]

-- Two tables of the dict have their blocks counted apart.
count_tables-lookup_both :
    (b k k' : ℕ) (table table' : List ℕ) (d : Dict (List ℕ))
    → ¬ (k ≡ k')
    → lookup k d ≡ some table
    → lookup k' d ≡ some table'
    → count b table + count b table' ≤ count_tables b d
unfolding count_tables lookup
count_tables-lookup_both b k k' table table' [] ne h h' = cc
count_tables-lookup_both b k k' table table' ((j, w) ∷ d) ne h h' = ground (
  arith,
  count_tables-lookup_both b k k' table table' d ne,
  count_tables-lookup b k table d,
  count_tables-lookup b k' table' d,
)

module _ (hash_fn : Option ℕ → List ℕ → ℕ) (blank : Request) (cache : CacheConfig)
    (limits : SchedulerConfig) (s : Scheduler) (off : cache.enable_prefix_caching ≡ false)
    (run : Reach (new_scheduler hash_fn blank cache limits) s) where
  owners_le : (b : ℕ) → owners b s.block_manager ≤ 1
  owners_le b = ground (arith, Reach-owners hash_fn blank cache limits s b off run)

  -- No block stands twice in the table that the block manager has for a request.
  pub Reach-Once :
      (r : Request)
      → lookup r.request_id (s.block_manager).block_tables ≡ some r.block_table
      → Once r.block_table
  unfolding owners
  Reach-Once r h b = omega (
    arith,
    owners_le b,
    count_tables-lookup b r.request_id r.block_table (s.block_manager).block_tables h,
  )

  -- Requests do not touch each other's keys and values: after any calls of a scheduler without prefix
  -- caching, for two requests of different ids with the tables that its block manager has for them, a
  -- `write` of the one changes nothing that the other reads, in any layer.
  pub Reach-read :
      {Row Cell : Type 0} (keep_row : Bool → Row → Cell) (give_row : Bool → Cell → Row)
      (c c' : PagedKvCache Cell) (layer layer' : ℕ) (r r' : Request) (start seq_len : ℕ)
      (rows : List Row)
      → ¬ (r'.request_id ≡ r.request_id)
      → lookup r.request_id (s.block_manager).block_tables ≡ some r.block_table
      → lookup r'.request_id (s.block_manager).block_tables ≡ some r'.block_table
      → write keep_row give_row c layer r start rows ≡ ok c'
      → read keep_row give_row c' layer' r' seq_len ≡ read keep_row give_row c layer' r' seq_len
  unfolding owners
  Reach-read keep_row give_row c c' layer layer' r r' start seq_len rows ne h h' w =
      read-write_other keep_row give_row c c' layer layer' r r' start seq_len rows
        (λ b. omega (
          arith,
          owners_le b,
          count_tables-lookup_both b r'.request_id r.request_id r'.block_table r.block_table
              (s.block_manager).block_tables ne h' h,
        ))
        w

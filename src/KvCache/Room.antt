-- ===== src/KvCache/Room.antt =====
-- A table with enough blocks of the pool is enough for `write` and `read` to return.
use lightserve.Prelude.{
  ℕ, zero, suc, ◌+◌, ◌-◌, ◌*◌, ◌/◌, ◌%◌, ◌≤◌, ◌<◌, ◌≡◌, refl, sym, subst, ◌∙◌, Bool, true, false,
  ◌&&◌, Option, some, List, [], ◌∷◌, ◌++◌, map, arith, length, get_elem?, ltb, ltb_lt, ok,
  Bool-cases, inl, inr,
}
use lightserve.Prelude.Dict.{lookup}
use lightserve.Config.{CacheConfig, SchedulerConfig}
use lightserve.Request.{Request}
use lightserve.BlockManager.Ownership.{owners}
use lightserve.Scheduler.{Scheduler, new_scheduler}
use lightserve.Scheduler.Reachable.{Reach, Reach-owners}
use lightserve.KvCache.{
  PagedKvCache, locations, physical_locations, within, scatter, gather, write, read,
}
use lightserve.KvCache.Slots.{Once, count_found, locations-ok}
use lightserve.KvCache.Reading.{read_ok}
use lightserve.KvCache.Keeping.{read-write}
use lightserve.KvCache.Isolation.{count_tables-lookup, Reach-Once}

ltb-true : (a b : ℕ) → a < b → ltb a b ≡ true
ltb-true a b h = ground arith

get_elem?_found : (xs : List ℕ) (i : ℕ) → i < length xs → (a : ℕ) × (get_elem? xs i ≡ some a)
get_elem?_found [] i h = absurd (omega (arith, h))
get_elem?_found (x ∷ xs) zero h = (x, refl)
get_elem?_found (x ∷ xs) (suc i) h = get_elem?_found xs i (omega (arith, h))

-- All blocks of the table are blocks of the store.
abbrev pub InPool : ℕ → List ℕ → Type 0
InPool num_blocks table = (i b : ℕ) → get_elem? table i ≡ some b → b < num_blocks

block_index : (p len d : ℕ) → 0 < d → p < len * d → p / d < len
block_index p len d pos h = grind arith

locations_found :
    (d num_blocks : ℕ) (table : List ℕ) (start n : ℕ)
    → 0 < d
    → InPool num_blocks table
    → start + n ≤ length table * d
    → (locs : List (ℕ × ℕ)) × (locations d table start n ≡ ok locs)
      × (within num_blocks locs ≡ true)
unfolding locations within
locations_found d num_blocks table start zero pos pool h = ([], refl, refl)
locations_found d num_blocks table start (suc n) pos pool h =
    let (b, e) =
      get_elem?_found table (start / d)
        (block_index start (length table) d pos (omega (arith, h))) in
    let (rest, f, t) =
      locations_found d num_blocks table (start + 1) n pos pool (omega (arith, h)) in
    (
      (b, start % d) ∷ rest,
      locations-ok d table start n b rest e f,
      rw (ltb-true b num_blocks (pool (start / d) b e)) t,
    )

module _ {Row Cell : Type 0} (keep_row : Bool → Row → Cell) (give_row : Bool → Cell → Row) where
  write_ok :
      (c : PagedKvCache Cell) (layer : ℕ) (r : Request) (start : ℕ) (rows : List Row)
      (locs : List (ℕ × ℕ))
      → locations c.block_size r.block_table start (length rows) ≡ ok locs
      → (ltb layer c.model_shape.n_layers && within c.num_gpu_blocks locs) ≡ true
      → (c' : PagedKvCache Cell) × (write keep_row give_row c layer r start rows ≡ ok c')
  unfolding write physical_locations
  write_ok c layer r start rows locs e t = (
    record c { cells = scatter c.cells layer locs (map (keep_row c.int8_kv) rows) },
    rw (plus_minus start (length rows), e, t) refl,
  )
    where
      plus_minus : (s n : ℕ) → s + n - s ≡ n
      plus_minus s n = omega arith

  -- Both calls return, and what is read then is what was there, and what was written.
  abbrev pub Stored : PagedKvCache Cell → ℕ → Request → ℕ → List Row → Type 0
  Stored c layer r start rows =
      (olds : List Row) × (c' : PagedKvCache Cell) × (read keep_row give_row c layer r start
        ≡ ok olds)
      × (write keep_row give_row c layer r start rows ≡ ok c')
      × (read keep_row give_row c' layer r (start + length rows)
          ≡ ok (olds ++ map (λ row. give_row c.int8_kv (keep_row c.int8_kv row)) rows))

  stored :
      (c : PagedKvCache Cell) (layer : ℕ) (r : Request) (start : ℕ) (rows : List Row)
      → 0 < c.block_size
      → Once r.block_table
      → InPool c.num_gpu_blocks r.block_table
      → layer < c.model_shape.n_layers
      → start + length rows ≤ length r.block_table * c.block_size
      → Stored c layer r start rows
  stored c layer r start rows pos once pool lt room =
      let d = c.block_size in
      let (before, e, t) =
        locations_found d c.num_gpu_blocks r.block_table 0 start pos pool (omega (arith, room)) in
      let (locs, f, u) =
        locations_found d c.num_gpu_blocks r.block_table start (length rows) pos pool room in
      let (c', w) = write_ok c layer r start rows locs f (both locs u) in
      let olds = read_ok keep_row give_row c layer r start before e (both before t) in
      (
        map (give_row c.int8_kv) (gather c.cells layer before),
        c',
        olds,
        w,
        read-write keep_row give_row c c' layer r start rows
            (map (give_row c.int8_kv) (gather c.cells layer before)) pos once olds w,
      )
    where
      both :
          (l : List (ℕ × ℕ))
          → within c.num_gpu_blocks l ≡ true
          → (ltb layer c.model_shape.n_layers && within c.num_gpu_blocks l) ≡ true
      both l h = rw (ltb-true layer c.model_shape.n_layers lt) h

module _ (hash_fn : Option ℕ → List ℕ → ℕ) (blank : Request) (cache : CacheConfig)
    (limits : SchedulerConfig) (s : Scheduler) (off : cache.enable_prefix_caching ≡ false)
    (run : Reach (new_scheduler hash_fn blank cache limits) s) where
  owner_in_pool : (b : ℕ) → 0 < owners b s.block_manager → b < cache.num_gpu_blocks
  owner_in_pool b h = elim (Bool-cases (ltb b cache.num_gpu_blocks)) [
    | inl e ↦ ltb_lt b cache.num_gpu_blocks e
    | inr e ↦ absurd (omega (arith, h, none_own e))
  ]
    where
      none_own : ltb b cache.num_gpu_blocks ≡ false → owners b s.block_manager ≡ 0
      none_own e = Reach-owners hash_fn blank cache limits s b off run ∙ rw e refl

  Reach-InPool :
      (r : Request)
      → lookup r.request_id (s.block_manager).block_tables ≡ some r.block_table
      → InPool cache.num_gpu_blocks r.block_table
  unfolding owners
  Reach-InPool r h i b e = owner_in_pool b (
      omega (
        arith,
        count_found r.block_table i b e,
        count_tables-lookup b r.request_id r.block_table (s.block_manager).block_tables h,
      ))

  -- The engine's stores and its tables go together: after any calls of a scheduler without prefix
  -- caching, for a request with the table that its block manager has for it, in a store of as many blocks
  -- and of a positive block size, whose slots in the table hold `start` positions and the rows, a `read`
  -- of the first `start` positions and a `write` of the rows behind them return, and a `read` of all then
  -- returns the former rows and the written ones, as storing leaves them.
  pub Reach-Stored :
      {Row Cell : Type 0} (keep_row : Bool → Row → Cell) (give_row : Bool → Cell → Row)
      (c : PagedKvCache Cell) (layer : ℕ) (r : Request) (start : ℕ) (rows : List Row)
      → lookup r.request_id (s.block_manager).block_tables ≡ some r.block_table
      → c.num_gpu_blocks ≡ cache.num_gpu_blocks
      → 0 < c.block_size
      → layer < c.model_shape.n_layers
      → start + length rows ≤ length r.block_table * c.block_size
      → Stored keep_row give_row c layer r start rows
  Reach-Stored keep_row give_row c layer r start rows h same pos lt room =
      stored keep_row give_row c layer r start rows pos
        (Reach-Once hash_fn blank cache limits s off run r h)
        (subst (λ n. InPool n r.block_table) (sym same) (Reach-InPool r h)) lt room

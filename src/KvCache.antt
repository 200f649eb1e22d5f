-- ===== src/KvCache.antt =====
-- model/kv_cache.py: where a request's keys and values lie. A row is one token's keys and values in one
-- layer, of a type `Row`; K and V and their scales are always indexed alike, so one store holds them.
-- What a store keeps of a row, of a type `Cell`, is a parameter: `keep_row int8 row` is the row itself
-- or its `_quantize`, and `give_row` the way back.
pub mod Slots
pub mod Reading
pub mod Keeping
pub mod Transfer
pub mod Isolation
pub mod Room
use lightserve.Prelude.{
  ℕ, zero, suc, ◌+◌, ◌-◌, ◌/◌, ◌%◌, Bool, true, false, ◌&&◌, Option, none, some, List, [], ◌∷◌,
  ◌++◌, map, ltb, leb, ◌==◌, if◌then◌else◌, length, get_elem?, Result, ok, err, index_error,
  assertion_error, runtime_error, guard, ◌>>=◌, ◌>>◌,
}
use lightserve.Config.{CacheConfig}
use lightserve.Request.{Request}

-- `LlamaConfig`, as far as the cache reads it; a dtype is a number.
pub record ModelShape : Type 0 where
  pub n_layers : ℕ
  pub num_kv_heads : ℕ
  pub head_dim : ℕ
  pub dtype : ℕ

-- `PagedKVCache`; `cells layer block offset`
pub record PagedKvCache (Cell : Type 0) : Type 0 where
  pub block_size : ℕ
  pub num_gpu_blocks : ℕ
  pub model_shape : ModelShape
  pub int8_kv : Bool
  pub cells : ℕ → ℕ → ℕ → Cell

-- `PagedKVCache.__init__`; `blank` is a zero.
unfoldable pub new_cache : {Cell : Type 0} → Cell → CacheConfig → ModelShape → PagedKvCache Cell
new_cache blank c shape = record {
  block_size = c.block_size;
  num_gpu_blocks = c.num_gpu_blocks;
  model_shape = shape;
  int8_kv = c.int8_kv;
  cells = λ layer block offset. blank;
}

-- Block and offset of the `n` positions from `start` on; a position behind the table is an
-- `IndexError`.
unfoldable pub locations : ℕ → List ℕ → ℕ → ℕ → Result (List (ℕ × ℕ))
locations block_size table start zero = ok []
locations block_size table start (suc n) = elim (get_elem? table (start / block_size)) [
  | none ↦ err index_error
  | some block ↦ do
    rest ← locations block_size table (start + 1) n
    ok ((block, start % block_size) ∷ rest)
]

-- `_physical_locations`
unfoldable pub physical_locations :
    {Cell : Type 0} → PagedKvCache Cell → Request → ℕ → ℕ → Result (List (ℕ × ℕ))
unfolding locations
physical_locations c r start end = locations c.block_size r.block_table start (end - start)

-- Whether an index into the store is within its shape.
unfoldable pub within : ℕ → List (ℕ × ℕ) → Bool
within num_blocks [] = true
within num_blocks ((block, offset) ∷ locs) = ltb block num_blocks && within num_blocks locs

abbrev pub set_cell : {Cell : Type 0} → (ℕ → ℕ → ℕ → Cell) → ℕ → ℕ × ℕ → Cell → ℕ → ℕ → ℕ → Cell
set_cell cells layer loc v l b o =
    if l == layer && (b == loc.0 && o == loc.1) then v else cells l b o

-- `cache[layer, blocks, offsets] = values`
unfoldable pub scatter :
    {Cell : Type 0} → (ℕ → ℕ → ℕ → Cell) → ℕ → List (ℕ × ℕ) → List Cell → ℕ → ℕ → ℕ → Cell
scatter cells layer [] values = cells
scatter cells layer (loc ∷ locs) [] = cells
scatter cells layer (loc ∷ locs) (v ∷ values) =
    scatter (set_cell cells layer loc v) layer locs values

-- `cache[layer, blocks, offsets]`
abbrev pub gather : {Cell : Type 0} → (ℕ → ℕ → ℕ → Cell) → ℕ → List (ℕ × ℕ) → List Cell
gather cells layer locs = map (λ loc. cells layer loc.0 loc.1) locs

-- What `export_request_kv` returns: a tensor of the rows of each layer, with the rest of its shape.
pub record KvBundle (Row : Type 0) : Type 0 where
  pub num_kv_heads : ℕ
  pub head_dim : ℕ
  pub dtype : ℕ
  pub layers : List (List Row)

module _ {Row Cell : Type 0} (keep_row : Bool → Row → Cell) (give_row : Bool → Cell → Row) where
  -- `write`
  unfoldable pub write : PagedKvCache Cell → ℕ → Request → ℕ → List Row → Result (PagedKvCache Cell)
  unfolding physical_locations within scatter
  write c layer r start rows = do
    locs ← physical_locations c r start (start + length rows)
    guard (ltb layer c.model_shape.n_layers && within c.num_gpu_blocks locs) index_error
    ok (record c { cells = scatter c.cells layer locs (map (keep_row c.int8_kv) rows) })

  -- `read`
  unfoldable pub read : PagedKvCache Cell → ℕ → Request → ℕ → Result (List Row)
  unfolding physical_locations within
  read c layer r seq_len = do
    locs ← physical_locations c r 0 seq_len
    guard (ltb layer c.model_shape.n_layers && within c.num_gpu_blocks locs) index_error
    ok (map (give_row c.int8_kv) (gather c.cells layer locs))

  -- The loop of `export_request_kv`, with `n` layers left.
  unfoldable pub export_layers : PagedKvCache Cell → Request → ℕ → ℕ → ℕ → Result (List (List Row))
  export_layers c r seq_len layer zero = ok []
  export_layers c r seq_len layer (suc n) = do
    rows ← read c layer r seq_len
    rest ← export_layers c r seq_len (layer + 1) n
    ok (rows ∷ rest)

  -- `export_request_kv`; `torch.stack` of no layers is an error.
  unfoldable pub export_request_kv : PagedKvCache Cell → Request → ℕ → Result (KvBundle Row)
  unfolding export_layers
  export_request_kv c r seq_len = do
    layers ← export_layers c r seq_len 0 c.model_shape.n_layers
    guard (ltb 0 c.model_shape.n_layers) runtime_error
    ok (record {
      num_kv_heads = c.model_shape.num_kv_heads;
      head_dim = c.model_shape.head_dim;
      dtype = c.model_shape.dtype;
      layers = layers;
    })

  -- The loop of `import_request_kv`.
  unfoldable pub import_layers :
      PagedKvCache Cell → Request → ℕ → List (List Row) → Result (PagedKvCache Cell)
  import_layers c r layer [] = ok c
  import_layers c r layer (rows ∷ rest) = do
    c' ← write c layer r 0 rows
    import_layers c' r (layer + 1) rest

  -- `import_request_kv`; that K and V have one shape, a bundle has by its type.
  unfoldable pub import_request_kv :
      PagedKvCache Cell → Request → KvBundle Row → Result (PagedKvCache Cell)
  unfolding import_layers
  import_request_kv c r bundle = do
    guard
        (length bundle.layers == c.model_shape.n_layers
          && (bundle.num_kv_heads == c.model_shape.num_kv_heads
              && bundle.head_dim == c.model_shape.head_dim))
        assertion_error
    guard (bundle.dtype == c.model_shape.dtype) assertion_error
    import_layers c r 0 bundle.layers

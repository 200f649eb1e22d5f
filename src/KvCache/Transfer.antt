-- ===== src/KvCache/Transfer.antt =====
-- `export_request_kv` and `import_request_kv`: a request's keys and values move to another store.
use lightserve.Prelude.{
  ℕ, zero, suc, ◌+◌, ◌<◌, ◌≡◌, refl, ap, sym, ◌∙◌, subst, Bool, ◌&&◌, List, [], ◌∷◌, map, arith,
  length, get_elem?, ◌==◌, some, ok, ltb, bind_ok, guard_ok, ok_inj, guard, assertion_error,
  runtime_error, ◌>>=◌, ◌>>◌,
}
use lightserve.Request.{Request}
use lightserve.KvCache.{
  PagedKvCache, KvBundle, locations, gather, within, write, read, export_layers, export_request_kv,
  import_layers, import_request_kv,
}
use lightserve.KvCache.Slots.{Once}
use lightserve.KvCache.Reading.{through, write-written, read-Held}
use lightserve.KvCache.Keeping.{length-map, length-locations, write_after, read-write_layer}

module _ {Row Cell : Type 0} (keep_row : Bool → Row → Cell) (give_row : Bool → Cell → Row) where
  -- The rows of a layer, where the loop of `export_request_kv` gets to it.
  export_layers-get_elem? :
      (c : PagedKvCache Cell) (r : Request) (seq_len layer n i : ℕ) (layers : List (List Row))
      (rows : List Row)
      → export_layers keep_row give_row c r seq_len layer n ≡ ok layers
      → i < n
      → read keep_row give_row c (layer + i) r seq_len ≡ ok rows
      → get_elem? layers i ≡ some rows
  unfolding export_layers
  export_layers-get_elem? c r seq_len layer zero i layers rows h lt k = absurd (omega (arith, lt))
  export_layers-get_elem? c r seq_len layer (suc n) zero layers rows h lt k =
      let (first, e, h₁) =
        bind_ok (read keep_row give_row c layer r seq_len)
          (λ rows.
            export_layers keep_row give_row c r seq_len (layer + 1) n
            >>= (λ rest. ok (rows ∷ rest)))
          h in
      let (rest, f, h₂) =
        bind_ok (export_layers keep_row give_row c r seq_len (layer + 1) n)
          (λ rest. ok (first ∷ rest)) h₁ in
      subst (λ ls. get_elem? ls 0 ≡ some rows) (ok_inj h₂)
        (ap some (
          ok_inj (
            sym e
            ∙ subst (λ l. read keep_row give_row c l r seq_len ≡ ok rows) (plus_zero layer) k)))
    where
      plus_zero : (l : ℕ) → l + 0 ≡ l
      plus_zero l = omega arith
  export_layers-get_elem? c r seq_len layer (suc n) (suc i) layers rows h lt k =
      let (first, e, h₁) =
        bind_ok (read keep_row give_row c layer r seq_len)
          (λ rows.
            export_layers keep_row give_row c r seq_len (layer + 1) n
            >>= (λ rest. ok (rows ∷ rest)))
          h in
      let (rest, f, h₂) =
        bind_ok (export_layers keep_row give_row c r seq_len (layer + 1) n)
          (λ rest. ok (first ∷ rest)) h₁ in
      subst (λ ls. get_elem? ls (suc i) ≡ some rows) (ok_inj h₂)
        (export_layers-get_elem? c r seq_len (layer + 1) n i rest rows f (omega (arith, lt))
          (subst (λ l. read keep_row give_row c l r seq_len ≡ ok rows) (one_on layer i) k))
    where
      one_on : (l i : ℕ) → l + suc i ≡ l + 1 + i
      one_on l i = omega arith

  length-read :
      (c : PagedKvCache Cell) (layer : ℕ) (r : Request) (seq_len : ℕ) (rows : List Row)
      → read keep_row give_row c layer r seq_len ≡ ok rows
      → length rows ≡ seq_len
  length-read c layer r seq_len rows h =
      let (locs, e, t, q) = read-Held keep_row give_row c layer r seq_len h in
      rw q (
        length-map (give_row c.int8_kv) (gather c.cells layer locs)
        ∙ length-map (λ loc. c.cells layer loc.0 loc.1) locs
        ∙ length-locations c.block_size r.block_table 0 seq_len locs e)

  -- The layers before the first of the loop of `import_request_kv` stay.
  read-import_layers :
      (c c' : PagedKvCache Cell) (r : Request) (layer : ℕ) (layers : List (List Row)) (before : ℕ)
      (r' : Request) (seq_len : ℕ)
      → import_layers keep_row give_row c r layer layers ≡ ok c'
      → before < layer
      → read keep_row give_row c' before r' seq_len ≡ read keep_row give_row c before r' seq_len
  unfolding import_layers
  read-import_layers c c' r layer [] before r' seq_len h lt =
      ap (λ c. read keep_row give_row c before r' seq_len) (sym (ok_inj h))
  read-import_layers c c' r layer (rows ∷ layers) before r' seq_len h lt =
      let (mid, q, k) =
        bind_ok (write keep_row give_row c layer r 0 rows)
          (λ mid. import_layers keep_row give_row mid r (layer + 1) layers) h in
      read-import_layers mid c' r (layer + 1) layers before r' seq_len k (omega (arith, lt))
      ∙ read-write_layer keep_row give_row c mid layer before r r' 0 seq_len rows
          (λ e. omega (arith, e, lt)) q

  -- What the loop puts into each layer.
  import_layers-read :
      (c c' : PagedKvCache Cell) (r : Request) (layer : ℕ) (layers : List (List Row)) (i : ℕ)
      (rows : List Row)
      → 0 < c.block_size
      → Once r.block_table
      → import_layers keep_row give_row c r layer layers ≡ ok c'
      → get_elem? layers i ≡ some rows
      → read keep_row give_row c' (layer + i) r (length rows)
        ≡ ok (map (through keep_row give_row c) rows)
  unfolding import_layers locations within
  import_layers-read c c' r layer [] i rows pos once h e = cc
  import_layers-read c c' r layer (first ∷ layers) zero rows pos once h e =
      let (mid, q, k) =
        bind_ok (write keep_row give_row c layer r 0 first)
          (λ mid. import_layers keep_row give_row mid r (layer + 1) layers) h in
      let stored = write_after keep_row give_row c mid layer r 0 first [] pos once refl refl q in
      subst
        (λ rows.
          read keep_row give_row c' (layer + 0) r (length rows)
          ≡ ok (map (through keep_row give_row c) rows))
        (some_inj e)
        (subst
          (λ l.
            read keep_row give_row c' l r (length first)
            ≡ ok (map (through keep_row give_row c) first))
          (plus_zero layer)
          (read-import_layers mid c' r (layer + 1) layers layer r (length first) k (omega arith)
            ∙ subst
                (λ n.
                  read keep_row give_row mid layer r n
                  ≡ ok (map (through keep_row give_row c) first))
                (zero_plus (length first)) stored))
    where
      plus_zero : (l : ℕ) → l ≡ l + 0
      plus_zero l = omega arith

      zero_plus : (n : ℕ) → 0 + n ≡ n
      zero_plus n = omega arith

      some_inj : some first ≡ some rows → first ≡ rows
      some_inj h = cc
  import_layers-read c c' r layer (first ∷ layers) (suc i) rows pos once h e =
      let (mid, q, k) =
        bind_ok (write keep_row give_row c layer r 0 first)
          (λ mid. import_layers keep_row give_row mid r (layer + 1) layers) h in
      let (locs, f, t, stored) = write-written keep_row give_row c layer r 0 first q in
      subst
        (λ int8.
          read keep_row give_row c' (layer + suc i) r (length rows)
          ≡ ok (map (λ row. give_row int8 (keep_row int8 row)) rows))
        (ap (λ m. m.int8_kv) stored)
        (subst
          (λ l.
            read keep_row give_row c' l r (length rows)
            ≡ ok (map (through keep_row give_row mid) rows))
          (one_on layer i)
          (import_layers-read mid c' r (layer + 1) layers i rows
            (subst (λ d. 0 < d) (ap (λ m. m.block_size) (sym stored)) pos) once k e))
    where
      one_on : (l i : ℕ) → l + 1 + i ≡ l + suc i
      one_on l i = omega arith

  -- A request's keys and values after the move: where `export_request_kv` of the first `seq_len`
  -- positions of a request of one store returns a bundle, and `import_request_kv` of that bundle for a
  -- request of another store returns, each layer of the other store reads back there, as its storing and
  -- loading leaves them, the rows that the first store reads, whatever the block sizes and tables. The
  -- other store's block size is positive and no block stands in the other request's table twice.
  pub import_request_kv-export_request_kv :
      (c d d' : PagedKvCache Cell) (r s : Request) (seq_len layer : ℕ) (bundle : KvBundle Row)
      (rows : List Row)
      → 0 < d.block_size
      → Once s.block_table
      → export_request_kv keep_row give_row c r seq_len ≡ ok bundle
      → import_request_kv keep_row give_row d s bundle ≡ ok d'
      → layer < c.model_shape.n_layers
      → read keep_row give_row c layer r seq_len ≡ ok rows
      → read keep_row give_row d' layer s seq_len
        ≡ ok (map (λ row. give_row d.int8_kv (keep_row d.int8_kv row)) rows)
  unfolding export_request_kv import_request_kv
  import_request_kv-export_request_kv c d d' r s seq_len layer bundle rows pos once h k lt e =
      let (layers, f, h₁) =
        bind_ok (export_layers keep_row give_row c r seq_len 0 c.model_shape.n_layers)
          (λ layers. guard (ltb 0 c.model_shape.n_layers) runtime_error >> ok (bundled layers)) h in
      let (some_layers, h₂) =
        guard_ok (ltb 0 c.model_shape.n_layers) runtime_error (ok (bundled layers)) h₁ in
      let (shape, k₁) =
        guard_ok
          (length bundle.layers == d.model_shape.n_layers
            && (bundle.num_kv_heads == d.model_shape.num_kv_heads
                && bundle.head_dim == d.model_shape.head_dim))
          assertion_error
          (guard (bundle.dtype == d.model_shape.dtype) assertion_error
            >> import_layers keep_row give_row d s 0 bundle.layers)
          k in
      let (dtype, k₂) =
        guard_ok (bundle.dtype == d.model_shape.dtype) assertion_error
          (import_layers keep_row give_row d s 0 bundle.layers) k₁ in
      let row_of =
        export_layers-get_elem? c r seq_len 0 c.model_shape.n_layers layer layers rows f lt
          (subst (λ l. read keep_row give_row c l r seq_len ≡ ok rows) (zero_plus layer) e) in
      subst
        (λ l. read keep_row give_row d' l s seq_len ≡ ok (map (through keep_row give_row d) rows))
        (sym (zero_plus layer))
        (subst
          (λ n.
            read keep_row give_row d' (0 + layer) s n ≡ ok (map (through keep_row give_row d) rows))
          (length-read c layer r seq_len rows e)
          (import_layers-read d d' s 0 bundle.layers layer rows pos once k₂
            (subst (λ ls. get_elem? ls layer ≡ some rows) (ap (λ b. b.layers) (ok_inj h₂)) row_of)))
    where
      bundled : List (List Row) → KvBundle Row
      bundled layers = record {
        num_kv_heads = c.model_shape.num_kv_heads;
        head_dim = c.model_shape.head_dim;
        dtype = c.model_shape.dtype;
        layers = layers;
      }

      zero_plus : (n : ℕ) → n ≡ 0 + n
      zero_plus n = omega arith

-- ===== src/Disaggregation/Resuming.antt =====
-- What `resume_decode` leaves on the second engine.
use lightserve.Prelude.{
  ℕ, ◌+◌, ◌*◌, ◌≤◌, ◌<◌, ◌≡◌, refl, ap, ap₂, sym, subst, ◌∙◌, Bool, none, List, [], ◌∷◌, ◌++◌, map,
  length, arith, Result, ok, bind_ok, ok_inj, OnOk-use, ◌>>=◌,
}
use lightserve.Request.{Request, get_len}
use lightserve.BlockManager.{BlockManager, allocate}
use lightserve.BlockManager.Frame
use lightserve.BlockManager.Frame.{allocate-Kept}
use lightserve.BlockManager.Admitting.{allocate_covers}
use lightserve.BlockManager.Ownership.{Conserves, owners, allocate-Conserves}
use lightserve.KvCache.{
  PagedKvCache, physical_locations, read, export_request_kv, import_request_kv,
}
use lightserve.KvCache.Slots.{Once}
use lightserve.KvCache.Isolation.{count_tables-lookup}
use lightserve.KvCache.Transfer.{import_request_kv-export_request_kv}
use lightserve.Scheduler.{Scheduler}
use lightserve.Engine.{LlmEngine}
use lightserve.Disaggregation.{PrefillHandoff, resumed_request, placed, resume_decode}

module _ {Row Cell : Type 0} (keep_row : Bool → Row → Cell) (give_row : Bool → Cell → Row) where
  -- The two calls of a `resume_decode` that returns, and what they leave.
  abbrev Resumes : LlmEngine Cell → PrefillHandoff Row → LlmEngine Cell → ℕ → Type 0
  Resumes d handoff d' a =
      (m : BlockManager) × (r : Request) × (c : PagedKvCache Cell) × (allocate
          d.scheduler.block_manager (resumed_request handoff) none
        ≡ ok (m, r))
      × (import_request_kv keep_row give_row d.kv_cache r handoff.kv ≡ ok c)
      × (d' ≡ record d {
        scheduler = placed (record (d.scheduler) { block_manager = m }) r;
        kv_cache = c;
      })
      × (a ≡ r.request_id)

  resume_decode-Resumes :
      (d : LlmEngine Cell) (handoff : PrefillHandoff Row) (d' : LlmEngine Cell) (a : ℕ)
      → resume_decode keep_row give_row d handoff ≡ ok (d', a)
      → Resumes d handoff d' a
  unfolding resume_decode
  resume_decode-Resumes d handoff d' a h =
      let ((m, r), e, h₁) =
        bind_ok (allocate d.scheduler.block_manager (resumed_request handoff) none) imported h in
      let (c, f, h₂) =
        bind_ok (import_request_kv keep_row give_row d.kv_cache r handoff.kv) (result m r) h₁ in
      (m, r, c, e, f, ap (λ p. p.0) (sym (ok_inj h₂)), ap (λ p. p.1) (sym (ok_inj h₂)))
    where
      result : BlockManager → Request → PagedKvCache Cell → Result (LlmEngine Cell × ℕ)
      result m r c = ok (
        record d {
          scheduler = placed (record (d.scheduler) { block_manager = m }) r;
          kv_cache = c;
        },
        r.request_id,
      )

      imported : BlockManager × Request → Result (LlmEngine Cell × ℕ)
      imported (m, r) = import_request_kv keep_row give_row d.kv_cache r handoff.kv >>= result m r

  -- How a resumed request stands.
  abbrev pub Resumed : LlmEngine Cell → PrefillHandoff Row → LlmEngine Cell → ℕ → Type 0
  Resumed d handoff d' a =
      (a ≡ handoff.request_id)
      × (d'.scheduler.running_list ≡ d.scheduler.running_list ++ a ∷ [])
      × ((d'.scheduler.store a).prompt_token_ids ≡ handoff.prompt_token_ids)
      × ((d'.scheduler.store a).output_token_ids ≡ handoff.first_token_id ∷ [])
      × ((d'.scheduler.store a).num_computed_tokens ≡ length handoff.prompt_token_ids)
      × (get_len (d'.scheduler.store a)
          ≤ length (d'.scheduler.store a).block_table * d.scheduler.block_manager.block_size)

  placed_store :
      (s : Scheduler) (r : Request)
      → (placed s r).store r.request_id
        ≡ record r { num_computed_tokens = length r.prompt_token_ids }
  placed_store s r = ground arith

  settled_in :
      (d : LlmEngine Cell) (handoff : PrefillHandoff Row) (m : BlockManager) (r : Request)
      (c : PagedKvCache Cell)
      → 0 < d.scheduler.block_manager.block_size
      → allocate d.scheduler.block_manager (resumed_request handoff) none ≡ ok (m, r)
      → Resumed d handoff
          (record d {
            scheduler = placed (record (d.scheduler) { block_manager = m }) r;
            kv_cache = c;
          })
          r.request_id
  unfolding get_len
  settled_in d handoff m r c pos e =
      let bm = d.scheduler.block_manager in
      let (covered, holds) = allocate_covers bm (resumed_request handoff) none (m, r) pos e in
      let kept : Frame.Kept bm (resumed_request handoff) (m, r) =
        OnOk-use (Frame.Kept bm (resumed_request handoff))
          (allocate bm (resumed_request handoff) none)
          (allocate-Kept bm (resumed_request handoff) none) e in
      let at = placed_store (record (d.scheduler) { block_manager = m }) r in
      (
        kept.request_id,
        refl,
        ap (λ q. q.prompt_token_ids) at ∙ kept.prompt,
        ap (λ q. q.output_token_ids) at ∙ kept.output,
        ap (λ q. q.num_computed_tokens) at ∙ ap length kept.prompt,
        subst (λ q. get_len q ≤ length q.block_table * bm.block_size) (sym at)
            (subst (λ n. n ≤ length r.block_table * bm.block_size)
              (sym (ap₂ (λ (p o : List ℕ). length p + length o) kept.prompt kept.output)) covered),
      )

  -- The state of a request right behind `resume_decode`, where that returns: the second engine runs it
  -- last, with the handoff's prompt and its first token as output; exactly the prompt counts as
  -- computed; and its table's slots hold all of its tokens, where the engine's block size is positive.
  pub resume_decode-Resumed :
      (d d' : LlmEngine Cell) (handoff : PrefillHandoff Row) (a : ℕ)
      → 0 < d.scheduler.block_manager.block_size
      → resume_decode keep_row give_row d handoff ≡ ok (d', a)
      → Resumed d handoff d' a
  resume_decode-Resumed d d' handoff a pos h =
      let (m, r, c, e, f, q, t) = resume_decode-Resumes d handoff d' a h in
      carry m r c q t (settled_in d handoff m r c pos e)
    where
      carry :
          (m : BlockManager) (r : Request) (c : PagedKvCache Cell)
          → d' ≡ record d {
            scheduler = placed (record (d.scheduler) { block_manager = m }) r;
            kv_cache = c;
          }
          → a ≡ r.request_id
          → Resumed d handoff
              (record d {
                scheduler = placed (record (d.scheduler) { block_manager = m }) r;
                kv_cache = c;
              })
              r.request_id
          → Resumed d handoff d' a
      carry m r c q t k =
          subst (λ e. Resumed d handoff e a) (sym q)
            (subst
              (Resumed d handoff (record d {
                scheduler = placed (record (d.scheduler) { block_manager = m }) r;
                kv_cache = c;
              }))
              (sym t) k)

  table-Once :
      (m m' : BlockManager) (r r' : Request)
      → m.prefix_cache ≡ none
      → ((b : ℕ) → owners b m ≤ 1)
      → 0 < m.block_size
      → allocate m r none ≡ ok (m', r')
      → Once r'.block_table
  unfolding owners
  table-Once m m' r r' off owned pos e b =
      let (covered, holds) = allocate_covers m r none (m', r') pos e in
      let kept : Conserves m m' =
        OnOk-use (λ p. Conserves m p.0) (allocate m r none) (allocate-Conserves m r off) e in
      omega (
        arith,
        owned b,
        kept.1 b,
        count_tables-lookup b r'.request_id r'.block_table m'.block_tables holds.listed,
      )

  read-placed :
      (s : Scheduler) (c : PagedKvCache Cell) (layer seq_len : ℕ) (r : Request)
      → read keep_row give_row c layer ((placed s r).store r.request_id) seq_len
        ≡ read keep_row give_row c layer r seq_len
  unfolding read physical_locations
  read-placed s c layer seq_len r = rw (placed_store s r) refl

  -- The keys and values that `resume_decode` brings over: where the bundle of a handoff was exported
  -- for the first `seq_len` positions of a request of any other store, and `resume_decode` returns on an
  -- engine without prefix caching whose blocks have at most one owner each and whose block sizes are
  -- positive, every layer of that engine reads back for the resumed request, as its storing and loading
  -- leaves them, the rows that the first store reads.
  pub resume_decode-read :
      (d d' : LlmEngine Cell) (handoff : PrefillHandoff Row) (a : ℕ) (c : PagedKvCache Cell)
      (r₀ : Request) (seq_len layer : ℕ) (rows : List Row)
      → d.scheduler.block_manager.prefix_cache ≡ none
      → ((b : ℕ) → owners b d.scheduler.block_manager ≤ 1)
      → 0 < d.scheduler.block_manager.block_size
      → 0 < d.kv_cache.block_size
      → export_request_kv keep_row give_row c r₀ seq_len ≡ ok handoff.kv
      → resume_decode keep_row give_row d handoff ≡ ok (d', a)
      → layer < c.model_shape.n_layers
      → read keep_row give_row c layer r₀ seq_len ≡ ok rows
      → read keep_row give_row d'.kv_cache layer (d'.scheduler.store a) seq_len
        ≡ ok (map (λ row. give_row d.kv_cache.int8_kv (keep_row d.kv_cache.int8_kv row)) rows)
  resume_decode-read d d' handoff a c r₀ seq_len layer rows off owned pos pos' x h lt e =
      let (m, r, c', f, g, q, t) = resume_decode-Resumes d handoff d' a h in
      ap₂
        (λ (n : LlmEngine Cell) (b : ℕ).
          read keep_row give_row n.kv_cache layer (n.scheduler.store b) seq_len)
        q t
      ∙ read-placed (record (d.scheduler) { block_manager = m }) c' layer seq_len r
      ∙ import_request_kv-export_request_kv keep_row give_row c d.kv_cache c' r₀ r seq_len layer
          handoff.kv rows pos'
          (table-Once d.scheduler.block_manager m (resumed_request handoff) r off owned pos f) x g
          lt e

-- ===== src/ModelRunner.antt =====
-- model/model_runner.py: `ModelRunner`, on the modelled KV cache. The numbers of the forward pass are
-- parameters, the record `Forward`: a row of the residual stream is an `X`, a row of q a `Query`, a row
-- of k and v a `Row`. What is modelled is which rows go where.
pub mod Batching
pub mod Recording
pub mod Committing
use lightserve.Prelude.{
  ℕ, zero, suc, ◌+◌, ◌-◌, Bool, true, false, not, ◌&&◌, Option, none, some, List, [], ◌∷◌, ◌++◌,
  map, ltb, leb, ◌==◌, if◌then◌else◌, length, take, drop, get_elem?, last?, nonempty, update,
  Result, ok, err, value_error, index_error, assertion_error, negative_counter, or_raise, guard,
  ◌>>=◌, ◌>>◌,
}
use lightserve.Request.{Request, all_token_ids, is_prefill}
use lightserve.Scheduler.{Scheduler, ScheduledRequest, SchedulerOutput}
use lightserve.Speculation.{accept_reject}
use lightserve.Correction.{commit}
use lightserve.KvCache.{PagedKvCache, write, read}

-- `range(start, start + n)`
unfoldable pub range : ℕ → ℕ → List ℕ
range start zero = []
range start (suc n) = start ∷ range (start + 1) n

-- `n` times the same.
unfoldable pub repeat {ℓ} : {A : Type ℓ} → ℕ → A → List A
repeat zero a = []
repeat (suc n) a = a ∷ repeat n a

-- `xs[first:last]`
abbrev pub slice {ℓ} : {A : Type ℓ} → ℕ → ℕ → List A → List A
slice first last xs = take (last - first) (drop first xs)

-- `xs[first:last] = ys`
abbrev pub set_slice {ℓ} : {A : Type ℓ} → ℕ → ℕ → List A → List A → List A
set_slice first last ys xs = take first xs ++ ys ++ drop last xs

-- One request's entries of `flat_starts`, `flat_ends`, `seq_starts` and `seq_ends`.
pub record Span : Type 0 where
  pub request : ℕ
  pub flat_start : ℕ
  pub flat_end : ℕ
  pub seq_start : ℕ
  pub seq_end : ℕ

-- What `_build_flat_batch` returns; the four lists of ranges are one.
pub record FlatBatch : Type 0 where
  pub input_ids : List ℕ
  pub positions : List ℕ
  pub spans : List Span

-- The rows of a request with drafts: its newest token, and the drafts.
unfoldable pub draft_rows : Request → ℕ → ℕ → Result (List ℕ)
draft_rows r n seq_start = do
  guard (n == length r.draft_token_ids + 1) assertion_error
  token ← or_raise (get_elem? (all_token_ids r) seq_start) index_error
  ok (token ∷ r.draft_token_ids)

-- The tokens of a request that go into the batch. A `seq_start` below zero does not occur behind a
-- `schedule`, which advanced the counter by `n`; it is an error here.
unfoldable pub input_rows : Request → ℕ → Result (List ℕ)
unfolding draft_rows
input_rows r n = do
  guard (leb n r.num_computed_tokens) negative_counter
  let seq_start = r.num_computed_tokens - n
  if nonempty r.draft_token_ids
      then draft_rows r n seq_start
      else ok (slice seq_start r.num_computed_tokens (all_token_ids r))

-- The loop of `_build_flat_batch`, from `cursor` on.
unfoldable pub flat_rows : (ℕ → Request) → ℕ → List ScheduledRequest → Result FlatBatch
flat_rows store cursor [] = ok (record { input_ids = []; positions = []; spans = [] })
flat_rows store cursor (sr ∷ scheduled) = do
  let r = store sr.request
  let n = sr.num_scheduled_tokens
  rows ← input_rows r n
  rest ← flat_rows store (cursor + n) scheduled
  let span : Span = record {
    request = sr.request;
    flat_start = cursor;
    flat_end = cursor + n;
    seq_start = r.num_computed_tokens - n;
    seq_end = r.num_computed_tokens;
  }
  ok (record {
    input_ids = rows ++ rest.input_ids;
    positions = range (r.num_computed_tokens - n) n ++ rest.positions;
    spans = span ∷ rest.spans;
  })

-- The test of the last position; there is none in an empty batch.
unfoldable pub too_long : ℕ → Option ℕ → Bool
too_long max_model_len none = false
too_long max_model_len (some position) = leb max_model_len position

-- `_build_flat_batch`
unfoldable pub build_flat_batch : (ℕ → Request) → ℕ → List ScheduledRequest → Result FlatBatch
unfolding flat_rows too_long
build_flat_batch store max_model_len scheduled = do
  batch ← flat_rows store 0 scheduled
  guard (not (too_long max_model_len (last? batch.positions))) value_error
  ok batch

-- The numbers of the forward pass. `flash` is `flash_attention_forward` behind `repeat_kv`, `mix` the
-- rest of a layer, `sample` the argmax of a row's logits.
pub record Forward (X Query Row : Type 0) : Type 0 where
  pub n_layers : ℕ
  pub max_model_len : ℕ
  pub embed : ℕ → X
  pub query : ℕ → ℕ → X → Query
  pub key_value : ℕ → ℕ → X → Row
  pub flash : List Query → List Row → List Query
  pub zero_query : Query
  pub empty_query : Query
  pub mix : ℕ → X → Query → X
  pub sample : X → ℕ

-- `f` on the positions and rows in pairs.
unfoldable pub zip_with : {A B C : Type 0} → (A → B → C) → List A → List B → List C
zip_with f [] ys = []
zip_with f (a ∷ xs) [] = []
zip_with f (a ∷ xs) (b ∷ ys) = f a b ∷ zip_with f xs ys

-- `next_token_ids`, all of which are computed: the token of the last row of each range.
unfoldable pub next_tokens : List ℕ → List Span → Result (List ℕ)
next_tokens tokens [] = ok []
next_tokens tokens (span ∷ spans) = do
  guard (ltb 0 span.flat_end) index_error
  token ← or_raise (get_elem? tokens (span.flat_end - 1)) index_error
  rest ← next_tokens tokens spans
  ok (token ∷ rest)

-- The tokens that one request's pass commits; `tokens` holds the token of each row.
unfoldable pub committed_tokens : List ℕ → ℕ → Request → Span → Result (List ℕ)
committed_tokens tokens next_token r span =
    if nonempty r.draft_token_ids
    then accept_reject r.draft_token_ids (slice span.flat_start span.flat_end tokens)
    else ok (next_token ∷ [])

-- The loop behind the forward pass, over the ranges with their `next_token_ids`.
unfoldable pub commit_all : List ℕ → List ℕ → List Span → (ℕ → Request) → Result (ℕ → Request)
unfolding committed_tokens
commit_all tokens nexts [] store = ok store
commit_all tokens [] (span ∷ spans) store = ok store
commit_all tokens (next_token ∷ nexts) (span ∷ spans) store =
    let r = store span.request in
    let recorded : Result (ℕ → Request) = do
      committed ← committed_tokens tokens next_token r span
      commit_all tokens nexts spans (update store span.request (commit r committed))
    in let skipped = commit_all tokens nexts spans store in
      if is_prefill r then skipped else recorded

module _ {X Query Row Cell : Type 0} (keep_row : Bool → Row → Cell) (give_row : Bool → Cell → Row)
    (model : Forward X Query Row) where
  -- The body of `_attention`'s loop: the store, and `attn_out`.
  unfoldable pub attend_one :
      (ℕ → Request)
      → ℕ
      → List Query
      → List Row
      → Span
      → PagedKvCache Cell × List Query
      → Result (PagedKvCache Cell × List Query)
  unfolding repeat
  attend_one store layer q kv span (c, out) =
      let len = span.flat_end - span.flat_start in
      let attended : Result (PagedKvCache Cell × List Query) = do
        let r = store span.request
        c' ←
            write keep_row give_row c layer r span.seq_start
              (slice span.flat_start span.flat_end kv)
        full ← read keep_row give_row c' layer r span.seq_end
        let q_new = slice span.flat_start span.flat_end q
        let q_full =
            if ltb len span.seq_end
            then repeat (span.seq_end - len) model.zero_query ++ q_new
            else q_new
        let out_i = model.flash q_full full
        ok (c', set_slice span.flat_start span.flat_end (drop (length out_i - len) out_i) out)
      in if len == 0 then ok (c, out) else attended

  -- The loop of `_attention`.
  unfoldable pub attend_all :
      (ℕ → Request)
      → ℕ
      → List Query
      → List Row
      → List Span
      → PagedKvCache Cell × List Query
      → Result (PagedKvCache Cell × List Query)
  attend_all store layer q kv [] state = ok state
  attend_all store layer q kv (span ∷ spans) state = do
    state' ← attend_one store layer q kv span state
    attend_all store layer q kv spans state'

  -- `_attention`
  unfoldable pub attention :
      (ℕ → Request)
      → PagedKvCache Cell
      → ℕ
      → List Query
      → List Row
      → List Span
      → Result (PagedKvCache Cell × List Query)
  unfolding attend_all
  attention store c layer q kv spans =
      attend_all store layer q kv spans (c, map (λ x. model.empty_query) q)

  -- The loop of `execute_model` over the layers, with `n` layers left.
  unfoldable pub run_layers :
      (ℕ → Request)
      → FlatBatch
      → ℕ
      → ℕ
      → PagedKvCache Cell
      → List X
      → Result (PagedKvCache Cell × List X)
  unfolding attention zip_with
  run_layers store batch layer zero c xs = ok (c, xs)
  run_layers store batch layer (suc n) c xs = do
    let q = zip_with (model.query layer) batch.positions xs
    let kv = zip_with (model.key_value layer) batch.positions xs
    (c', out) ← attention store c layer q kv batch.spans
    run_layers store batch (layer + 1) n c' (zip_with (model.mix layer) xs out)

  -- `execute_model`
  unfoldable pub execute_model :
      PagedKvCache Cell
      → (ℕ → Request)
      → SchedulerOutput
      → Result (PagedKvCache Cell × (ℕ → Request))
  unfolding build_flat_batch run_layers next_tokens commit_all
  execute_model c store out =
      let scheduled = out.scheduled_new ++ out.scheduled_running in
      let executed : Result (PagedKvCache Cell × (ℕ → Request)) = do
        batch ← build_flat_batch store model.max_model_len scheduled
        (c', xs) ← run_layers store batch 0 model.n_layers c (map model.embed batch.input_ids)
        let tokens = map model.sample xs
        nexts ← next_tokens tokens batch.spans
        store' ← commit_all tokens nexts batch.spans store
        ok (c', store')
      in if nonempty scheduled then executed else ok (c, store)

-- ===== src/ModelRunner/Batching.antt =====
-- How the rows of the flat batch fit together.
use lightserve.Prelude.{
  ℕ, zero, suc, ◌+◌, ◌-◌, ◌≤◌, ◌≡◌, refl, ap, subst, ◌∙◌, true, false, not, List, [], ◌∷◌, arith,
  ok, length, drop, length-take, length-drop, length-append, leb, leb_sound, eq_sound, ◌==◌,
  nonempty, OnOk, OnOk-bind, OnOk-use, OnOk-any, OnOk-guard, Bool-cases, inl, inr, bind_ok,
  guard_ok, guard, value_error, negative_counter, assertion_error, index_error, or_raise, get_elem?,
  last?, ◌>>◌,
}
use lightserve.Request.{Request, all_token_ids, get_len}
use lightserve.Scheduler.{ScheduledRequest, sum_scheduled}
use lightserve.ModelRunner.{
  FlatBatch, Span, range, slice, draft_rows, input_rows, flat_rows, build_flat_batch, too_long,
}

length-range : (start n : ℕ) → length (range start n) ≡ n
unfolding range
length-range start zero = refl
length-range start (suc n) = ap suc (length-range (start + 1) n)

-- A request without drafts has the tokens that it is to be advanced over.
abbrev pub HasTokens : Request → Type 0
HasTokens r = nonempty r.draft_token_ids ≡ false → r.num_computed_tokens ≤ get_len r

length_all : (r : Request) → length (all_token_ids r) ≡ get_len r
unfolding all_token_ids get_len
length_all r = length-append r.prompt_token_ids r.output_token_ids

length-input_rows :
    (r : Request) (n : ℕ)
    → HasTokens r
    → OnOk (λ rows. (length rows ≡ n) × (n ≤ r.num_computed_tokens)) (input_rows r n)
unfolding input_rows draft_rows
length-input_rows r n h =
    OnOk-bind (λ u. leb n r.num_computed_tokens ≡ true)
      (λ rows. (length rows ≡ n) × (n ≤ r.num_computed_tokens))
      (guard (leb n r.num_computed_tokens) negative_counter) _
      (OnOk-guard (leb n r.num_computed_tokens) negative_counter)
      λ u e. elim (Bool-cases (nonempty r.draft_token_ids)) [
        | inl f ↦ rw f (
            OnOk-bind (λ u. (n == length r.draft_token_ids + 1) ≡ true)
              (λ rows. (length rows ≡ n) × (n ≤ r.num_computed_tokens))
              (guard (n == length r.draft_token_ids + 1) assertion_error) _
              (OnOk-guard (n == length r.draft_token_ids + 1) assertion_error)
              λ u g.
                OnOk-bind (λ t. Unit) (λ rows. (length rows ≡ n) × (n ≤ r.num_computed_tokens))
                  (or_raise (get_elem? (all_token_ids r) (r.num_computed_tokens - n)) index_error) _
                  (OnOk-any _)
                  (λ t v. (
                    omega (arith, eq_sound n (length r.draft_token_ids + 1) g),
                    leb_sound n r.num_computed_tokens e,
                  )))
        | inr f ↦ rw f (
          sliced (leb_sound n r.num_computed_tokens e) (h f),
          leb_sound n r.num_computed_tokens e,
        )
      ]
  where
    sliced :
        n ≤ r.num_computed_tokens
        → r.num_computed_tokens ≤ get_len r
        → length (slice (r.num_computed_tokens - n) r.num_computed_tokens (all_token_ids r)) ≡ n
    sliced le within = omega (
      arith,
      le,
      within,
      length_all r,
      length-take (r.num_computed_tokens - (r.num_computed_tokens - n))
          (drop (r.num_computed_tokens - n) (all_token_ids r)),
      length-drop (r.num_computed_tokens - n) (all_token_ids r),
    )

-- The ranges lie one behind the other, from `cursor` to `last`, each as long as the positions it is for.
abbrev pub Tiles : ℕ → List Span → ℕ → Type 0
Tiles cursor [] last = cursor ≡ last
Tiles cursor (span ∷ spans) last =
    (span.flat_start ≡ cursor)
    × (span.flat_start + (span.seq_end - span.seq_start) ≡ span.flat_end)
    × (span.seq_start ≤ span.seq_end)
    × Tiles span.flat_end spans last

-- The batch has `n` rows, from `cursor` on.
abbrev pub Aligned : ℕ → ℕ → FlatBatch → Type 0
Aligned cursor n batch =
    (length batch.input_ids ≡ n)
    × (length batch.positions ≡ n)
    × Tiles cursor batch.spans (cursor + n)

abbrev pub AllHaveTokens : (ℕ → Request) → List ScheduledRequest → Type 0
AllHaveTokens store [] = Unit
AllHaveTokens store (sr ∷ scheduled) = HasTokens (store sr.request) × AllHaveTokens store scheduled

flat_rows-Aligned :
    (store : ℕ → Request) (cursor : ℕ) (scheduled : List ScheduledRequest)
    → AllHaveTokens store scheduled
    → OnOk (Aligned cursor (sum_scheduled scheduled)) (flat_rows store cursor scheduled)
unfolding flat_rows sum_scheduled
flat_rows-Aligned store cursor [] h = (refl, refl, omega arith)
flat_rows-Aligned store cursor (sr ∷ scheduled) h =
    let r = store sr.request in
    let n = sr.num_scheduled_tokens in
    OnOk-bind (λ rows. (length rows ≡ n) × (n ≤ r.num_computed_tokens)) _ (input_rows r n) _
      (length-input_rows r n h.0)
      λ rows e.
        OnOk-bind (Aligned (cursor + n) (sum_scheduled scheduled)) _
          (flat_rows store (cursor + n) scheduled) _
          (flat_rows-Aligned store (cursor + n) scheduled h.1)
          (λ rest k. (
            omega (arith, length-append rows rest.input_ids, e.0, k.0),
            omega (
              arith,
              length-append (range (r.num_computed_tokens - n) n) rest.positions,
              length-range (r.num_computed_tokens - n) n,
              k.1,
            ),
            (
              refl,
              omega (arith, e.1),
              omega arith,
              subst (Tiles (cursor + n) rest.spans) (plus_assoc cursor n (sum_scheduled scheduled))
                  k.2,
            ),
          ))
  where
    plus_assoc : (a b c : ℕ) → a + b + c ≡ a + (b + c)
    plus_assoc a b c = omega arith

-- The flat batch fits together: where every scheduled request without draft tokens has at least as
-- many tokens as its counter says, and `_build_flat_batch` returns, the batch has one input token and
-- one position for each scheduled token, and the requests' ranges of rows lie one behind the other
-- without a gap from 0 to that number, each as long as the request's range of positions.
pub build_flat_batch-Aligned :
    (store : ℕ → Request) (max_model_len : ℕ) (scheduled : List ScheduledRequest)
    (batch : FlatBatch)
    → AllHaveTokens store scheduled
    → build_flat_batch store max_model_len scheduled ≡ ok batch
    → Aligned 0 (sum_scheduled scheduled) batch
unfolding build_flat_batch
build_flat_batch-Aligned store max_model_len scheduled batch h e =
    let (b, f, e₁) =
      bind_ok (flat_rows store 0 scheduled)
        (λ b. guard (not (too_long max_model_len (last? b.positions))) value_error >> ok b) e in
    let (t, e₂) =
      guard_ok (not (too_long max_model_len (last? b.positions))) value_error (ok b) e₁ in
    OnOk-use (Aligned 0 (sum_scheduled scheduled)) (flat_rows store 0 scheduled)
      (flat_rows-Aligned store 0 scheduled h) (f ∙ e₂)

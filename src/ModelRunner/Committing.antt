-- ===== src/ModelRunner/Committing.antt =====
-- What `execute_model` does to the request objects.
use lightserve.Prelude.{
  ℕ, suc, ◌+◌, ◌-◌, ◌≤◌, ◌≡◌, refl, ap, sym, subst, Bool, true, false, not, ◌&&◌, List, [], ◌∷◌,
  ◌++◌, ok, map, length, elem, count, nonempty, last?, OnOk, OnOk-bind, OnOk-use, OnOk-any,
  Bool-cases, ◌⊎◌, leb, arith, inl, inr, guard, value_error, index_error, ltb, get_elem?, or_raise,
}
use lightserve.Request.{Request, is_prefill, get_len}
use lightserve.Scheduler.{ScheduledRequest, SchedulerOutput}
use lightserve.KvCache.{PagedKvCache}
use lightserve.ModelRunner.{
  Span, Forward, flat_rows, build_flat_batch, too_long, run_layers, next_tokens, commit_all,
  execute_model, input_rows,
}
use lightserve.ModelRunner.Recording.{Executed, Kept, commit_all-Executed}

abbrev pub ids_of : List ScheduledRequest → List ℕ
ids_of scheduled = map (λ sr. sr.request) scheduled

-- Every token and every draft of the request has been through the model: its last row is predicted from
-- a complete prefix.
abbrev pub all_computed : Request → Bool
all_computed r = leb (get_len r + length r.draft_token_ids) r.num_computed_tokens

commits_whole :
    (scheduled : Bool) (r : Request)
    → (scheduled ≡ true → (is_prefill r ≡ true) ⊎ (all_computed r ≡ true))
    → (scheduled && not (is_prefill r)) ≡ (scheduled && all_computed r)
unfolding is_prefill get_len
commits_whole false r h = refl
commits_whole true r h = elim (h refl) [ inl p ↦ ground arith | inr w ↦ ground arith ]

flat_rows_ids :
    (store : ℕ → Request) (cursor : ℕ) (scheduled : List ScheduledRequest)
    → OnOk
        (λ batch. map (λ s. s.request) batch.spans ≡ ids_of scheduled)
        (flat_rows store cursor scheduled)
unfolding flat_rows
flat_rows_ids store cursor [] = refl
flat_rows_ids store cursor (sr ∷ scheduled) =
    OnOk-bind (λ rows. Unit) _ (input_rows (store sr.request) sr.num_scheduled_tokens) _
      (OnOk-any _)
      λ rows u.
        OnOk-bind (λ batch. map (λ s. s.request) batch.spans ≡ ids_of scheduled) _
          (flat_rows store (cursor + sr.num_scheduled_tokens) scheduled) _
          (flat_rows_ids store (cursor + sr.num_scheduled_tokens) scheduled)
          (λ rest k. ap (◌∷◌ sr.request) k)

build_flat_batch_ids :
    (store : ℕ → Request) (max_model_len : ℕ) (scheduled : List ScheduledRequest)
    → OnOk
        (λ batch. map (λ s. s.request) batch.spans ≡ ids_of scheduled)
        (build_flat_batch store max_model_len scheduled)
unfolding build_flat_batch
build_flat_batch_ids store max_model_len scheduled =
    OnOk-bind (λ batch. map (λ s. s.request) batch.spans ≡ ids_of scheduled)
      (λ batch. map (λ s. s.request) batch.spans ≡ ids_of scheduled) (flat_rows store 0 scheduled) _
      (flat_rows_ids store 0 scheduled)
      λ batch k.
        OnOk-bind (λ u. Unit) (λ batch. map (λ s. s.request) batch.spans ≡ ids_of scheduled)
          (guard (not (too_long max_model_len (last? batch.positions))) value_error) _ (OnOk-any _)
          (λ u v. k)

no_ids : (l : List ScheduledRequest) (a : ℕ) → nonempty l ≡ false → elem a (ids_of l) ≡ false
unfolding elem
no_ids [] a h = refl
no_ids (sr ∷ l) a h = cc

length-next_tokens :
    (tokens : List ℕ) (spans : List Span)
    → OnOk (λ nexts. length nexts ≡ length spans) (next_tokens tokens spans)
unfolding next_tokens
length-next_tokens tokens [] = refl
length-next_tokens tokens (span ∷ spans) =
    OnOk-bind (λ u. Unit) (λ nexts. length nexts ≡ suc (length spans))
      (guard (ltb 0 span.flat_end) index_error) _ (OnOk-any _)
      λ u v.
        OnOk-bind (λ u. Unit) (λ nexts. length nexts ≡ suc (length spans))
          (or_raise (get_elem? tokens (span.flat_end - 1)) index_error) _ (OnOk-any _)
          λ t w.
            OnOk-bind (λ nexts. length nexts ≡ length spans)
              (λ nexts. length nexts ≡ suc (length spans)) (next_tokens tokens spans) _
              (length-next_tokens tokens spans) (λ nexts k. ap suc k)

module _ {X Query Row Cell : Type 0} (keep_row : Bool → Row → Cell) (give_row : Bool → Cell → Row)
    (model : Forward X Query Row) where
  executed_all :
      (c : PagedKvCache Cell) (store : ℕ → Request) (out : SchedulerOutput)
      → ((b : ℕ) → count b (ids_of (out.scheduled_new ++ out.scheduled_running)) ≤ 1)
      → OnOk
          (λ p. Kept (ids_of (out.scheduled_new ++ out.scheduled_running)) store p.1)
          (execute_model keep_row give_row model c store out)
  unfolding execute_model
  executed_all c store out once =
      let scheduled = out.scheduled_new ++ out.scheduled_running in
      elim (Bool-cases (nonempty scheduled)) [
        | inr e ↦ rw e (λ a.
            subst (λ t. Executed (t && not (is_prefill (store a))) (store a) (store a))
              (sym (no_ids scheduled a e)) refl)
        | inl e ↦ rw e (
            OnOk-bind (λ batch. map (λ s. s.request) batch.spans ≡ ids_of scheduled)
              (Done scheduled) (build_flat_batch store model.max_model_len scheduled) _
              (build_flat_batch_ids store model.max_model_len scheduled)
              λ batch k.
                OnOk-bind (λ q. Unit) (Done scheduled)
                  (run_layers keep_row give_row model store batch 0 model.n_layers c
                    (map model.embed batch.input_ids))
                  _ (OnOk-any _)
                  λ q u.
                    OnOk-bind (λ nexts. length nexts ≡ length batch.spans) (Done scheduled)
                      (next_tokens (map model.sample q.1) batch.spans) _
                      (length-next_tokens (map model.sample q.1) batch.spans)
                      λ nexts l.
                        OnOk-bind (Kept (ids_of scheduled) store) (Done scheduled)
                          (commit_all (map model.sample q.1) nexts batch.spans store) _
                          (subst
                            (λ ids.
                              OnOk (Kept ids store)
                                (commit_all (map model.sample q.1) nexts batch.spans store))
                            k
                            (commit_all-Executed (map model.sample q.1) nexts batch.spans store l
                              (subst (λ ids. (b : ℕ) → count b ids ≤ 1) (sym k) once)))
                          (λ store' m. m))
      ]
    where
      Done : List ScheduledRequest → PagedKvCache Cell × (ℕ → Request) → Type 0
      Done scheduled p = Kept (ids_of scheduled) store p.1

  -- What a forward pass does to the requests, whatever the model computes: where no request is scheduled
  -- twice, each scheduled one's chunk ends in its prompt or is all the rest of its tokens and drafts, and
  -- `execute_model` returns, a scheduled request all of whose tokens and drafts are computed then gets a
  -- commit of at least one token and at most one more than it has drafts; every other request object,
  -- scheduled or not, stays as it is.
  pub execute_model-Kept :
      (c c' : PagedKvCache Cell) (store store' : ℕ → Request) (out : SchedulerOutput)
      → ((b : ℕ) → count b (ids_of (out.scheduled_new ++ out.scheduled_running)) ≤ 1)
      → ((b : ℕ)
          → elem b (ids_of (out.scheduled_new ++ out.scheduled_running)) ≡ true
          → (is_prefill (store b) ≡ true) ⊎ (all_computed (store b) ≡ true))
      → execute_model keep_row give_row model c store out ≡ ok (c', store')
      → (a : ℕ)
      → Executed
          (elem a (ids_of (out.scheduled_new ++ out.scheduled_running)) && all_computed (store a))
          (store a)
          (store' a)
  execute_model-Kept c c' store store' out once whole h a =
      let ids = ids_of (out.scheduled_new ++ out.scheduled_running) in
      subst (λ t. Executed t (store a) (store' a)) (commits_whole (elem a ids) (store a) (whole a))
        (OnOk-use (λ p. Kept ids store p.1) (execute_model keep_row give_row model c store out)
          (executed_all c store out once) h a)

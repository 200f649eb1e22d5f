-- ===== src/ModelRunner/Recording.antt =====
-- What the loop behind the forward pass does to the request objects.
use lightserve.Prelude.{
  ℕ, ◌+◌, ◌≤◌, ◌≡◌, refl, ap, sym, subst, ◌∙◌, Bool, true, false, not, ◌&&◌, Option, none, some,
  List, [], ◌∷◌, ◌++◌, arith, map, length, elem, count, length-append, ◌==◌, eq_sound, nonempty,
  update, init, last?, OnOk, OnOk-bind, OnOk-mono, Bool-cases, inl, inr,
}
use lightserve.Request.{Request, is_prefill}
use lightserve.Speculation.{accept_loop, conclude, accept_reject}
use lightserve.Correction.{commit}
use lightserve.ModelRunner.{slice, Span, committed_tokens, commit_all}

-- At least one token, and at most one more than the drafts.
abbrev pub Count : List ℕ → List ℕ → Type 0
Count drafts xs = (1 ≤ length xs) × (length xs ≤ length drafts + 1)

accept_loop-Count :
    (drafts rows done : List ℕ) (bonus : Option ℕ)
    → OnOk
        (λ xs. (length done + 1 ≤ length xs) × (length xs ≤ length done + length drafts + 1))
        (conclude bonus (accept_loop drafts rows done))
unfolding accept_loop
accept_loop-Count [] rows done none = tt
accept_loop-Count [] rows done (some t) =
    (omega (arith, length-append done (t ∷ [])), omega (arith, length-append done (t ∷ [])))
accept_loop-Count (d ∷ drafts) [] done none = tt
accept_loop-Count (d ∷ drafts) [] done (some t) =
    (omega (arith, length-append done (t ∷ [])), omega (arith, length-append done (t ∷ [])))
accept_loop-Count (d ∷ drafts) (t ∷ rows) done bonus = elim (Bool-cases (d == t)) [
  | inr e ↦
      rw e (omega (arith, length-append done (t ∷ [])), omega (arith, length-append done (t ∷ [])))
  | inl e ↦ rw e (
      OnOk-mono _ _ (conclude bonus (accept_loop drafts rows (done ++ t ∷ [])))
        (λ xs k. (
          omega (arith, length-append done (t ∷ []), k.0),
          omega (arith, length-append done (t ∷ []), k.1),
        ))
        (accept_loop-Count drafts rows (done ++ t ∷ []) bonus))
]

committed_tokens-Count :
    (tokens : List ℕ) (next_token : ℕ) (r : Request) (span : Span)
    → OnOk (Count r.draft_token_ids) (committed_tokens tokens next_token r span)
unfolding committed_tokens accept_reject
committed_tokens-Count tokens next_token r span = elim (Bool-cases (nonempty r.draft_token_ids)) [
  | inl e ↦ rw e (
      OnOk-mono _ (Count r.draft_token_ids)
        (accept_reject r.draft_token_ids (slice span.flat_start span.flat_end tokens))
        (λ xs k. (omega (arith, k.0), omega (arith, k.1)))
        (accept_loop-Count r.draft_token_ids (init (slice span.flat_start span.flat_end tokens)) []
          (last? (slice span.flat_start span.flat_end tokens))))
  | inr e ↦ rw e (omega arith, omega arith)
]

-- What becomes of a request: nothing, or a commit.
abbrev pub Executed : Bool → Request → Request → Type 0
Executed false r r' = r' ≡ r
Executed true r r' = (xs : List ℕ) × Count r.draft_token_ids xs × (r' ≡ commit r xs)

-- What becomes of each request of a batch of the requests `ids`, and of the others.
abbrev pub Kept : List ℕ → (ℕ → Request) → (ℕ → Request) → Type 0
Kept ids store store' =
    (a : ℕ) → Executed (elem a ids && not (is_prefill (store a))) (store a) (store' a)

and_false : (b : Bool) → (b && false) ≡ false
and_false true = refl
and_false false = refl

elem_none : (a : ℕ) (xs : List ℕ) → count a xs ≡ 0 → elem a xs ≡ false
unfolding elem count
elem_none a [] h = refl
elem_none a (x ∷ xs) h = ground (arith, elem_none a xs)

-- A request whose prompt goes on is passed over.
passed_over :
    (a₀ a : ℕ) (rest : List ℕ) (store store' : ℕ → Request)
    → is_prefill (store a₀) ≡ true
    → Executed (elem a rest && not (is_prefill (store a))) (store a) (store' a)
    → Executed (elem a (a₀ ∷ rest) && not (is_prefill (store a))) (store a) (store' a)
unfolding elem
passed_over a₀ a rest store store' p h = elim (Bool-cases (a == a₀)) [
  | inr e ↦ rw e h
  | inl e ↦
      let p' : is_prefill (store a) ≡ true =
        subst (λ b. is_prefill (store b) ≡ true) (sym (eq_sound a a₀ e)) p in
      subst (λ t. Executed t (store a) (store' a))
        (ap (λ t. elem a rest && not t) p'
          ∙ and_false (elem a rest)
          ∙ sym (ap (λ t. elem a (a₀ ∷ rest) && not t) p' ∙ and_false (elem a (a₀ ∷ rest))))
        h
]

-- A request that is committed to, which no later range is for.
recorded :
    (a₀ a : ℕ) (rest : List ℕ) (store store' : ℕ → Request)
    → count a₀ (a₀ ∷ rest) ≤ 1
    → is_prefill (store a₀) ≡ false
    → (xs : List ℕ) → Count (store a₀).draft_token_ids xs
    → Kept rest (update store a₀ (commit (store a₀) xs)) store'
    → Executed (elem a (a₀ ∷ rest) && not (is_prefill (store a))) (store a) (store' a)
unfolding elem count
recorded a₀ a rest store store' once p xs k ih = elim (Bool-cases (a == a₀)) [
  | inr e ↦
      rw e (subst (λ r. Executed (elem a rest && not (is_prefill r)) r (store' a)) (other e) (ih a))
  | inl e ↦ rw e (
      subst (λ b. Executed (not (is_prefill (store b))) (store b) (store' b))
        (sym (eq_sound a a₀ e)) (rw p (xs, k, here)))
]
  where
    put₁ : ℕ → Request
    put₁ = update store a₀ (commit (store a₀) xs)

    other : (a == a₀) ≡ false → put₁ a ≡ store a
    other e = rw e refl

    self : put₁ a₀ ≡ commit (store a₀) xs
    self = ground arith

    gone : elem a₀ rest ≡ false
    gone = elem_none a₀ rest (ground (arith, once))

    here : store' a₀ ≡ commit (store a₀) xs
    here =
        subst (λ t. Executed (t && not (is_prefill (put₁ a₀))) (put₁ a₀) (store' a₀)) gone (ih a₀)
        ∙ self

pub commit_all-Executed :
    (tokens nexts : List ℕ) (spans : List Span) (store : ℕ → Request)
    → length nexts ≡ length spans
    → ((b : ℕ) → count b (map (λ s. s.request) spans) ≤ 1)
    → OnOk (Kept (map (λ s. s.request) spans) store) (commit_all tokens nexts spans store)
unfolding commit_all elem count
commit_all-Executed tokens [] [] store e once = λ a. refl
commit_all-Executed tokens (n ∷ nexts) [] store e once = absurd (omega (arith, e))
commit_all-Executed tokens [] (span ∷ spans) store e once = absurd (omega (arith, e))
commit_all-Executed tokens (n ∷ nexts) (span ∷ spans) store e once =
    elim (Bool-cases (is_prefill (store a₀))) [
      | inl p ↦ rw p (
          OnOk-mono (Kept rest store) (Kept (a₀ ∷ rest) store) (commit_all tokens nexts spans store)
            (λ store' ih a. passed_over a₀ a rest store store' p (ih a))
            (commit_all-Executed tokens nexts spans store (omega (arith, e))
              (λ b. fewer b (once b))))
      | inr p ↦ rw p (
          OnOk-bind (Count (store a₀).draft_token_ids) (Kept (a₀ ∷ rest) store)
            (committed_tokens tokens n (store a₀) span) _
            (committed_tokens-Count tokens n (store a₀) span)
            (λ xs k.
              OnOk-mono (Kept rest (put₁ xs)) (Kept (a₀ ∷ rest) store)
                (commit_all tokens nexts spans (put₁ xs))
                (λ store' ih a. recorded a₀ a rest store store' (once a₀) p xs k ih)
                (commit_all-Executed tokens nexts spans (put₁ xs) (omega (arith, e))
                  (λ b. fewer b (once b)))))
    ]
  where
    a₀ : ℕ
    a₀ = span.request

    rest : List ℕ
    rest = map (λ s. s.request) spans

    put₁ : List ℕ → ℕ → Request
    put₁ xs = update store a₀ (commit (store a₀) xs)

    fewer : (b : ℕ) → count b (a₀ ∷ rest) ≤ 1 → count b rest ≤ 1
    fewer b h = omega (arith, h)

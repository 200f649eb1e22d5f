-- ===== src/Correction/Cutting.antt =====
-- The corrected round: what `correct` makes of a commit of several tokens.
use lightserve.Prelude.{
  ℕ, zero, suc, ◌+◌, ◌-◌, ◌≤◌, ◌≡◌, refl, sym, ap, ◌∙◌, subst, true, false, Option, none, some,
  List, [], ◌∷◌, ◌++◌, arith, length, take, drop, ltb, ltb_ge, Bool-cases, inl, inr, length-append,
}
use lightserve.Request.{Request, is_finished}
use lightserve.Correction.{commit, stops, first_stop, status_at, trim, correct}
use lightserve.Correction.Stopping.{
  one_by_one, one_by_one-Ends, cut, stop_of, Ends, committed, commit_push, committed_stop,
  committed_on, bump,
}

-- What the first stop of a list says of its last token: with no stop, it does not stop either; and a
-- stop that is not before it is at it.
AtLast : Option ℕ → ℕ → ℕ → List ℕ → ℕ → Option (ℕ × ℕ) → Type 0
AtLast eos max_tokens n tokens t none = stops eos max_tokens (n + length tokens) t ≡ false
AtLast eos max_tokens n tokens t (some (k, token)) =
    (k ≤ length tokens)
    × (length tokens ≤ k → (token ≡ t) × (stops eos max_tokens (n + length tokens) t ≡ true))

AtLast-bump :
    (eos : Option ℕ) (max_tokens n : ℕ) (x : ℕ) (tokens : List ℕ) (t : ℕ) (o : Option (ℕ × ℕ))
    → AtLast eos max_tokens (n + 1) tokens t o
    → AtLast eos max_tokens n (x ∷ tokens) t (bump o)
unfolding AtLast
AtLast-bump eos max_tokens n x tokens t none h =
    subst (λ k. stops eos max_tokens k t ≡ false) (shift n (length tokens)) h
  where
    shift : (n k : ℕ) → n + 1 + k ≡ n + suc k
    shift n k = omega arith
AtLast-bump eos max_tokens n x tokens t (some (k, token)) h = (
  omega (arith, h.0),
  λ l.
      let (e, s) = h.1 (omega (arith, l)) in
      (e, subst (λ k. stops eos max_tokens k t ≡ true) (shift n (length tokens)) s),
)
  where
    shift : (n k : ℕ) → n + 1 + k ≡ n + suc k
    shift n k = omega arith

plus_zero : (n : ℕ) → n ≡ n + 0
plus_zero n = omega arith

first_stop-AtLast :
    (eos : Option ℕ) (max_tokens n : ℕ) (tokens : List ℕ) (t : ℕ)
    → AtLast eos max_tokens n tokens t (first_stop eos max_tokens n (tokens ++ t ∷ []))
unfolding AtLast first_stop
first_stop-AtLast eos max_tokens n [] t = elim (Bool-cases (stops eos max_tokens n t)) [
  | inl e ↦
      rw e (omega arith, λ l. (refl, subst (λ k. stops eos max_tokens k t ≡ true) (plus_zero n) e))
  | inr e ↦ rw e (subst (λ k. stops eos max_tokens k t ≡ false) (plus_zero n) e)
]
first_stop-AtLast eos max_tokens n (x ∷ tokens) t = elim (Bool-cases (stops eos max_tokens n x)) [
  | inl e ↦ rw e (omega arith, λ l. absurd (omega (arith, l)))
  | inr e ↦ rw e (
      AtLast-bump eos max_tokens n x tokens t _ (first_stop-AtLast eos max_tokens (n + 1) tokens t))
]

take_append : (xs ys : List ℕ) (m : ℕ) → take (length xs + m) (xs ++ ys) ≡ xs ++ take m ys
take_append [] ys m = ap (λ n. take n ys) (zero_plus m)
  where
    zero_plus : (m : ℕ) → 0 + m ≡ m
    zero_plus m = omega arith
take_append (x ∷ xs) ys m =
    ap (λ n. take n (x ∷ (xs ++ ys))) (suc_plus (length xs) m) ∙ ap (◌∷◌ x) (take_append xs ys m)
  where
    suc_plus : (n m : ℕ) → suc n + m ≡ suc (n + m)
    suc_plus n m = omega arith

take_all : (xs : List ℕ) (m : ℕ) → length xs ≤ m → take m xs ≡ xs
take_all [] zero h = refl
take_all [] (suc m) h = refl
take_all (x ∷ xs) zero h = absurd (omega (arith, h))
take_all (x ∷ xs) (suc m) h = ap (◌∷◌ x) (take_all xs m (omega (arith, h)))

drop_append : (xs ys : List ℕ) → drop (length xs) (xs ++ ys) ≡ ys
drop_append [] ys = refl
drop_append (x ∷ xs) ys = drop_append xs ys

trim-Ends :
    (r : Request) (tokens : List ℕ) (t : ℕ) (o : Option (ℕ × ℕ))
    → AtLast r.sampling_params.eos_token_id r.sampling_params.max_tokens
        (length r.output_token_ids)
        tokens
        t
        o
    → Ends
        (cut r (tokens ++ t ∷ []) o)
        (trim (committed r tokens t) (length r.output_token_ids) (length (tokens ++ t ∷ [])) o).0
unfolding trim AtLast
trim-Ends r tokens t none h = (refl, committed_on r tokens t h)
trim-Ends r tokens t (some (k, token)) h =
    let ts = tokens ++ t ∷ [] in
    let len = length-append tokens (t ∷ []) in
    elim (Bool-cases (ltb (k + 1) (length ts))) [
      | inl e ↦ rw e (
        ap (λ n. take n (r.output_token_ids ++ ts)) (plus_assoc (length r.output_token_ids) k)
            ∙ take_append r.output_token_ids ts (k + 1),
        refl,
      )
      | inr e ↦
          let last = h.1 (omega (arith, ltb_ge _ _ e, len)) in
          rw e (
            ap (λ l. r.output_token_ids ++ l) (sym (take_all ts (k + 1) (ltb_ge _ _ e))),
            (committed_stop r tokens t last.1).1
                ∙ ap (status_at r.sampling_params.eos_token_id) (sym last.0),
          )
    ]
  where
    plus_assoc : (n k : ℕ) → n + k + 1 ≡ n + (k + 1)
    plus_assoc n k = omega arith

accepted_lem : (xs ys : List ℕ) → length (xs ++ ys) - length xs ≡ length ys
accepted_lem xs ys = omega (arith, length-append xs ys)

correct-Ends :
    (r : Request) (tokens : List ℕ) (t num_scheduled : ℕ)
    → is_finished r ≡ false
    → Ends
        (cut r (tokens ++ t ∷ []) (stop_of r (tokens ++ t ∷ [])))
        (correct (commit r (tokens ++ t ∷ [])) (length r.output_token_ids) num_scheduled)
unfolding correct
correct-Ends r tokens t num_scheduled h =
    let out = r.output_token_ids in
    let ts = tokens ++ t ∷ [] in
    let p = cut r ts (stop_of r ts) in
    let q = committed r tokens t in
    subst (λ x. Ends p (correct x (length out) num_scheduled)) (sym (commit_push r tokens t h))
      (subst (λ n. Ends p (trim q (length out) n (stop_of r (drop (length out) (out ++ ts)))).0)
        (sym (accepted_lem out ts))
        (subst (λ l. Ends p (trim q (length out) (length ts) (stop_of r l)).0)
          (sym (drop_append out ts))
          (trim-Ends r tokens t (stop_of r ts) (
            first_stop-AtLast r.sampling_params.eos_token_id r.sampling_params.max_tokens
              (length out) tokens t))))

-- A corrected speculative round is plain decoding: whatever tokens a round commits to an unfinished
-- request, behind the commit and the correction its output and its status are those of committing the
-- same tokens one by one until the request is finished.
pub correct-one_by_one :
    (r : Request) (tokens : List ℕ) (t num_scheduled : ℕ)
    → is_finished r ≡ false
    → let corrected =
        correct (commit r (tokens ++ t ∷ [])) (length r.output_token_ids) num_scheduled in
      let plain = one_by_one r (tokens ++ t ∷ []) in
      (corrected.output_token_ids ≡ plain.output_token_ids) × (corrected.status ≡ plain.status)
correct-one_by_one r tokens t num_scheduled h =
    let c = correct-Ends r tokens t num_scheduled h in
    let p = one_by_one-Ends r (tokens ++ t ∷ []) h in (c.0 ∙ sym (p.0), c.1 ∙ sym (p.1))

-- ===== src/Request/Stops.antt =====
-- When a request stops.
use lightserve.Prelude.{
  ℕ, ◌≤◌, ◌≡◌, ◌↔◌, ◌⊎◌, inl, inr, refl, true, false, Option, none, some, List, [], ◌∷◌, arith,
  length, last?, eq_opt, nonempty, Bool-cases, is_some, ◌&&◌, sym, ◌∙◌, leb, leb_sound, leb_gt,
}
use lightserve.Request.{Request, is_finished, maybe_finish, hit_eos, finished}

-- A finished request keeps the status it finished with, whatever its tokens are.
pub maybe_finish_terminal : (r : Request) → is_finished r ≡ true → maybe_finish r ≡ r
unfolding maybe_finish is_finished
maybe_finish_terminal r h = ground arith

-- The last output token is the end-of-sequence token that the sampling parameters name.
abbrev pub EndsInEos : Request → Type 0
EndsInEos r =
    (eos : ℕ) × (r.sampling_params.eos_token_id ≡ some eos) × (last? r.output_token_ids ≡ some eos)

eq_opt_sound : (o : Option ℕ) (b : ℕ) → eq_opt o (some b) ≡ true → o ≡ some b
eq_opt_sound none b h = ground arith
eq_opt_sound (some a) b h = ground arith

eq_opt_complete : (o : Option ℕ) (b : ℕ) → o ≡ some b → eq_opt o (some b) ≡ true
eq_opt_complete none b h = ground arith
eq_opt_complete (some a) b h = ground arith

eos_test :
    (eos : Option ℕ) (out : List ℕ)
    → (is_some eos && (nonempty out && eq_opt (last? out) eos)) ≡ true
      ↔ ((e : ℕ) × (eos ≡ some e) × (last? out ≡ some e))
eos_test none out = (λ h. cc, λ h. cc)
eos_test (some b) [] = (λ h. cc, λ h. cc)
eos_test (some b) (x ∷ xs) = (
  λ h. (b, refl, eq_opt_sound (last? (x ∷ xs)) b h),
  λ h. eq_opt_complete (last? (x ∷ xs)) b (h.2 ∙ sym (h.1)),
)

hit_eos_iff : (r : Request) → hit_eos r ≡ true ↔ EndsInEos r
unfolding hit_eos
hit_eos_iff r = eos_test r.sampling_params.eos_token_id r.output_token_ids

finishes_iff :
    (r : Request)
    → is_finished r ≡ false
    → is_finished (maybe_finish r) ≡ true
      ↔ (hit_eos r ≡ true) ⊎ (r.sampling_params.max_tokens ≤ length r.output_token_ids)
unfolding is_finished maybe_finish finished
finishes_iff r h = elim (Bool-cases (hit_eos r)) [
  | inl e ↦ (λ _. inl e, λ _. rw (e, h) refl)
  | inr e ↦ elim (Bool-cases (leb r.sampling_params.max_tokens (length r.output_token_ids))) [
    | inl f ↦ (λ _. inr (leb_sound _ _ f), λ _. rw (e, h, f) refl)
    | inr f ↦
        ((λ k. cc), λ k. elim k [ inl q ↦ cc | inr q ↦ absurd (ground (arith, leb_gt _ _ f)) ])
  ]
]

-- An unfinished request is finished by the test behind each token exactly when its last output token
-- is its end-of-sequence token or its output has reached `max_tokens`.
pub maybe_finish_stops :
    (r : Request)
    → is_finished r ≡ false
    → is_finished (maybe_finish r) ≡ true
      ↔ EndsInEos r ⊎ (r.sampling_params.max_tokens ≤ length r.output_token_ids)
maybe_finish_stops r h = (
  λ k. elim ((finishes_iff r h).0 k) [ inl e ↦ inl ((hit_eos_iff r).0 e) | inr l ↦ inr l ],
  λ k. (finishes_iff r h).1 (elim k [ inl e ↦ inl ((hit_eos_iff r).1 e) | inr l ↦ inr l ]),
)

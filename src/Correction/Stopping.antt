-- ===== src/Correction/Stopping.antt =====
-- A corrected round stops where decoding token by token would have stopped.
use mathlib.Core.List.{append_assoc, append-nil}
use lightserve.Prelude.{
  ℕ, suc, ◌+◌, ◌≡◌, refl, sym, ap, ap₂, ◌∙◌, subst, Bool, true, false, ◌||◌, Option, none, some,
  List, [], ◌∷◌, ◌++◌, arith, length, take, leb, eq_opt, if◌then◌else◌, Bool-cases, inl, inr,
  length-append, last?-append, nonempty, is_some, ◌&&◌,
}
use lightserve.Request.{
  Request, RequestStatus, finished_stopped, finished_length_capped, is_finished, maybe_finish,
  finished, hit_eos,
}
use lightserve.Correction.{commit, stops, first_stop, status_at}

-- Plain decoding of the same tokens: one commit for each, until the request is finished.
unfoldable pub one_by_one : Request → List ℕ → Request
unfolding is_finished
one_by_one r [] = r
one_by_one r (t ∷ tokens) =
    let rest = one_by_one (commit r (t ∷ [])) tokens in if is_finished r then r else rest

-- A finished request decodes no more.
one_by_one_finished :
    (r : Request) (tokens : List ℕ) → is_finished r ≡ true → one_by_one r tokens ≡ r
unfolding one_by_one
one_by_one_finished r [] h = refl
one_by_one_finished r (t ∷ tokens) h = rw (h, one_by_one) refl

-- What both do to a request: the output up to the first stop, and the status there.
abbrev pub cut : Request → List ℕ → Option (ℕ × ℕ) → List ℕ × RequestStatus
cut r tokens none = (r.output_token_ids ++ tokens, r.status)
cut r tokens (some (k, token)) =
    (r.output_token_ids ++ take (k + 1) tokens, status_at r.sampling_params.eos_token_id token)

-- The first stop among the tokens, were they behind the request's output.
abbrev pub stop_of : Request → List ℕ → Option (ℕ × ℕ)
stop_of r tokens =
    first_stop r.sampling_params.eos_token_id r.sampling_params.max_tokens
      (length r.output_token_ids) tokens

nonempty_push : (xs : List ℕ) (t : ℕ) → nonempty (xs ++ t ∷ []) ≡ true
nonempty_push [] t = refl
nonempty_push (x ∷ xs) t = refl

-- The end-of-sequence test behind a commit that ends in `t`.
hit_eos_push :
    (r : Request) (tokens : List ℕ) (t : ℕ)
    → hit_eos (record r { output_token_ids = tokens ++ t ∷ [] })
      ≡ eq_opt (some t) r.sampling_params.eos_token_id
unfolding hit_eos
hit_eos_push r tokens t =
    rw (nonempty_push tokens t, last?-append tokens t) (set r.sampling_params.eos_token_id)
  where
    set : (eos : Option ℕ) → (is_some eos && eq_opt (some t) eos) ≡ eq_opt (some t) eos
    set none = refl
    set (some e) = refl

-- The status behind the two tests of `maybe_finish`.
abbrev pub status_after : Bool → Bool → RequestStatus → RequestStatus
status_after true capped status = finished_stopped
status_after false true status = finished_length_capped
status_after false false status = status

maybe_finish_status :
    (r : Request)
    → is_finished r ≡ false
    → maybe_finish r ≡ record r {
      status =
          status_after
            (hit_eos r)
            (leb r.sampling_params.max_tokens (length r.output_token_ids))
            r.status;
    }
unfolding is_finished maybe_finish
maybe_finish_status r h = elim (Bool-cases (hit_eos r)) [
  | inl e ↦ rw (h, e, maybe_finish) refl
  | inr e ↦ elim (Bool-cases (leb r.sampling_params.max_tokens (length r.output_token_ids))) [
    | inl f ↦ rw (h, e, f, maybe_finish) refl
    | inr f ↦ rw (h, e, f, maybe_finish) refl
  ]
]

-- The commit of tokens that end in `t`.
abbrev pub committed : Request → List ℕ → ℕ → Request
committed r tokens t = record r {
  output_token_ids = r.output_token_ids ++ (tokens ++ t ∷ []);
  status =
      status_after (eq_opt (some t) r.sampling_params.eos_token_id)
        (leb r.sampling_params.max_tokens (length r.output_token_ids + length tokens + 1)) r.status;
}

pub commit_push :
    (r : Request) (tokens : List ℕ) (t : ℕ)
    → is_finished r ≡ false
    → commit r (tokens ++ t ∷ []) ≡ committed r tokens t
unfolding commit is_finished
commit_push r tokens t h =
    let out = r.output_token_ids ++ (tokens ++ t ∷ []) in
    let r' : Request = record r { output_token_ids = out } in
    let behind : out ≡ (r.output_token_ids ++ tokens) ++ t ∷ [] =
      sym (append_assoc r.output_token_ids tokens (t ∷ [])) in
    maybe_finish_status r' h
    ∙ ap₂
        (λ a n. record r' { status = status_after a (leb r.sampling_params.max_tokens n) r.status })
        (ap (λ l. hit_eos (record r { output_token_ids = l })) behind
          ∙ hit_eos_push r (r.output_token_ids ++ tokens) t)
        (length-append r.output_token_ids (tokens ++ t ∷ [])
          ∙ ap (λ n. length r.output_token_ids + n) (length-append tokens (t ∷ []))
          ∙ plus_assoc (length r.output_token_ids) (length tokens))
  where
    plus_assoc : (a b : ℕ) → a + (b + 1) ≡ a + b + 1
    plus_assoc a b = omega arith

-- A request's output and status.
abbrev pub Ends : List ℕ × RequestStatus → Request → Type 0
Ends p r = (r.output_token_ids ≡ p.0) × (r.status ≡ p.1)

-- `later` seen from one token earlier.
abbrev pub bump : Option (ℕ × ℕ) → Option (ℕ × ℕ)
bump later = elim later [ none ↦ none | some p ↦ some (p.0 + 1, p.1) ]

pub take_next : (k x : ℕ) (xs : List ℕ) → take (k + 1) (x ∷ xs) ≡ x ∷ take k xs
take_next k x xs = ap (λ n. take n (x ∷ xs)) (one_more k)
  where
    one_more : (k : ℕ) → k + 1 ≡ suc k
    one_more k = omega arith

pushed : Request → ℕ → Request
pushed r t = record r { output_token_ids = r.output_token_ids ++ t ∷ [] }

cut-bump :
    (r : Request) (t : ℕ) (tokens : List ℕ) (later : Option (ℕ × ℕ))
    → cut (pushed r t) tokens later ≡ cut r (t ∷ tokens) (bump later)
unfolding pushed
cut-bump r t tokens none = ap (λ l. (l, r.status)) (append_assoc r.output_token_ids (t ∷ []) tokens)
cut-bump r t tokens (some (k, token)) =
    ap (λ l. (l, status_at r.sampling_params.eos_token_id token))
      (append_assoc r.output_token_ids (t ∷ []) (take (k + 1) tokens)
        ∙ ap (λ l. r.output_token_ids ++ l) (sym (take_next (k + 1) t tokens)))

status_stop :
    (a b : Bool) (status : RequestStatus)
    → (a || b) ≡ true
    → (finished (status_after a b status) ≡ true)
      × (status_after a b status ≡ (if a then finished_stopped else finished_length_capped))
unfolding finished
status_stop true b status h = (refl, refl)
status_stop false true status h = (refl, refl)
status_stop false false status h = cc

status_on :
    (a b : Bool) (status : RequestStatus) → (a || b) ≡ false → status_after a b status ≡ status
status_on true b status h = cc
status_on false true status h = cc
status_on false false status h = refl

-- Whether the last of a commit's tokens stops.
abbrev pub stops_at : Request → ℕ → ℕ → Bool
stops_at r n t =
    stops r.sampling_params.eos_token_id r.sampling_params.max_tokens
      (length r.output_token_ids + n) t

pub committed_stop :
    (r : Request) (tokens : List ℕ) (t : ℕ)
    → stops_at r (length tokens) t ≡ true
    → (is_finished (committed r tokens t) ≡ true)
      × ((committed r tokens t).status ≡ status_at r.sampling_params.eos_token_id t)
unfolding is_finished
committed_stop r tokens t h = status_stop _ _ r.status h

pub committed_on :
    (r : Request) (tokens : List ℕ) (t : ℕ)
    → stops_at r (length tokens) t ≡ false
    → (committed r tokens t).status ≡ r.status
committed_on r tokens t h = status_on _ _ r.status h

-- The first stop of a list by whether its first token stops.
first_stop_here :
    (r : Request) (t : ℕ) (tokens : List ℕ)
    → stops_at r 0 t ≡ true
    → stop_of r (t ∷ tokens) ≡ some (0, t)
unfolding first_stop
first_stop_here r t tokens h =
    rw
      (subst (λ n. stops r.sampling_params.eos_token_id r.sampling_params.max_tokens n t ≡ true)
        (plus_zero (length r.output_token_ids)) h)
      refl
  where
    plus_zero : (n : ℕ) → n + 0 ≡ n
    plus_zero n = omega arith

first_stop_later :
    (r : Request) (t : ℕ) (tokens : List ℕ)
    → stops_at r 0 t ≡ false
    → stop_of r (t ∷ tokens) ≡ bump (stop_of (pushed r t) tokens)
unfolding first_stop pushed
first_stop_later r t tokens h =
    rw
      (subst (λ n. stops r.sampling_params.eos_token_id r.sampling_params.max_tokens n t ≡ false)
        (plus_zero (length r.output_token_ids)) h)
      (ap
        (λ n.
          bump (first_stop r.sampling_params.eos_token_id r.sampling_params.max_tokens n tokens))
        (sym (length-append r.output_token_ids (t ∷ []))))
  where
    plus_zero : (n : ℕ) → n + 0 ≡ n
    plus_zero n = omega arith

one_by_one_step :
    (r : Request) (t : ℕ) (tokens : List ℕ)
    → is_finished r ≡ false
    → one_by_one r (t ∷ tokens) ≡ one_by_one (committed r [] t) tokens
unfolding one_by_one
one_by_one_step r t tokens h =
    rw (h, one_by_one) (ap (λ q. one_by_one q tokens) (commit_push r [] t h))

committed-pushed : (r : Request) (t : ℕ) → stops_at r 0 t ≡ false → committed r [] t ≡ pushed r t
unfolding pushed
committed-pushed r t e = ap (λ s. record (pushed r t) { status = s }) (committed_on r [] t e)

pushed_unfinished : (r : Request) (t : ℕ) → is_finished r ≡ false → is_finished (pushed r t) ≡ false
unfolding pushed is_finished
pushed_unfinished r t h = h

pub one_by_one-Ends :
    (r : Request) (tokens : List ℕ)
    → is_finished r ≡ false
    → Ends (cut r tokens (stop_of r tokens)) (one_by_one r tokens)
unfolding one_by_one first_stop
one_by_one-Ends r [] h = (sym (append-nil r.output_token_ids), refl)
one_by_one-Ends r (t ∷ tokens) h = elim (Bool-cases (stops_at r 0 t)) [
  | inl e ↦
      let (f, q) = committed_stop r [] t e in
      subst (λ x. Ends x (one_by_one r (t ∷ tokens)))
        (ap (cut r (t ∷ tokens)) (sym (first_stop_here r t tokens e)))
        (subst (Ends _)
          (sym (one_by_one_step r t tokens h ∙ one_by_one_finished (committed r [] t) tokens f))
          (refl, q))
  | inr e ↦
      subst (λ x. Ends x (one_by_one r (t ∷ tokens)))
        (cut-bump r t tokens (stop_of (pushed r t) tokens)
          ∙ ap (cut r (t ∷ tokens)) (sym (first_stop_later r t tokens e)))
        (subst (Ends _) (sym (one_by_one_step r t tokens h)) (
          subst
            (λ x.
              Ends (cut (pushed r t) tokens (stop_of (pushed r t) tokens)) (one_by_one x tokens))
            (sym (committed-pushed r t e))
            (one_by_one-Ends (pushed r t) tokens (pushed_unfinished r t h))))
]

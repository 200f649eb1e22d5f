-- ===== src/DraftProposer/Resync.antt =====
-- How far a shadow's counter is from its tokens, before and after a round.
use lightserve.Prelude.{
  ℕ, zero, suc, ◌+◌, ◌-◌, ◌≤◌, ◌<◌, ◌≡◌, refl, ap, ◌∙◌, false, List, [], ◌∷◌, ◌++◌, arith, length,
  leb, if◌then◌else◌, length-append, last?, Result-cases, Option-cases, inl, inr, ok, OnOk,
  OnOk-use, OnOk-mono,
}
use lightserve.Request.{Request, get_len, is_prefill, get_num_new_tokens, maybe_finish}
use lightserve.BlockManager.{BlockManager, append_slot}
use lightserve.BlockManager.Frame.{Kept, append_slot-Kept}
use lightserve.DraftProposer.{extend_table, cover_shadow, execute, advanced, draft_loop, roll_back}

-- A shadow's length and counter are those of another.
abbrev Counted : Request → BlockManager × Request → Type 0
Counted r p = (get_len (p.1) ≡ get_len r) × ((p.1).num_computed_tokens ≡ r.num_computed_tokens)

append_slot-Counted : (m : BlockManager) (r : Request) → OnOk (Counted r) (append_slot m r)
unfolding get_len
append_slot-Counted m r =
    OnOk-mono (Kept m r) (Counted r) (append_slot m r)
      (λ p k. (omega (arith, ap length k.prompt, ap length k.output), k.computed))
      (append_slot-Kept m r)

extend_table-Counted :
    (missing : ℕ) (m : BlockManager) (r : Request) → OnOk (Counted r) (extend_table missing m r)
unfolding extend_table
extend_table-Counted zero m r = (refl, refl)
extend_table-Counted (suc missing) m r = elim (Result-cases (append_slot m r)) [
  | inl (e, q) ↦ rw (q, extend_table) tt
  | inr (p, q) ↦
      let c = OnOk-use (Counted r) (append_slot m r) (append_slot-Counted m r) q in
      rw (q, extend_table)
        (OnOk-mono (Counted (p.1)) (Counted r) (extend_table missing p.0 p.1)
          (λ u k. (k.0 ∙ c.0, k.1 ∙ c.1)) (extend_table-Counted missing p.0 p.1))
]

-- One round: a token more, and the counter at the tokens that there were.
Stepped : Request → Request → Type 0
Stepped r s = (get_len s ≡ get_len r + 1) × (s.num_computed_tokens ≡ get_len r)

maybe_finish_same :
    (r : Request)
    → (get_len (maybe_finish r) ≡ get_len r)
      × ((maybe_finish r).num_computed_tokens ≡ r.num_computed_tokens)
unfolding maybe_finish get_len
maybe_finish_same r = ground arith

advanced_decodes :
    (r : Request) → r.num_computed_tokens ≤ get_len r → is_prefill (advanced r) ≡ false
unfolding is_prefill get_len get_num_new_tokens
advanced_decodes r h = ground arith

advanced_counts :
    (r : Request)
    → r.num_computed_tokens ≤ get_len r
    → ((advanced r).num_computed_tokens ≡ get_len r) × (get_len (advanced r) ≡ get_len r)
unfolding get_len get_num_new_tokens
advanced_counts r h = (omega (arith, h), refl)

one_longer :
    (r : Request) (t : ℕ)
    → get_len (record r { output_token_ids = r.output_token_ids ++ t ∷ [] }) ≡ get_len r + 1
unfolding get_len
one_longer r t = omega (arith, length-append r.output_token_ids (t ∷ []))

last_round :
    (n len counter before after : ℕ)
    → counter ≡ len
    → before ≡ len + 1
    → (0 < n → after + 1 ≡ before + n)
    → (n ≡ 0 → after ≡ counter)
    → after + 1 ≡ len + suc n
last_round zero len counter before after c b i j = omega (arith, c, j refl)
last_round (suc n) len counter before after c b i j = omega (arith, b, i (omega arith))

execute-Stepped :
    (draw : Request → ℕ) (r : Request)
    → r.num_computed_tokens ≤ get_len r
    → Stepped r (execute draw (advanced r))
unfolding execute Stepped
execute-Stepped draw r h =
    let a = advanced r in
    let out = a.output_token_ids ++ draw a ∷ [] in
    let same = maybe_finish_same (record a { output_token_ids = out }) in
    rw (advanced_decodes r h) (
      same.0 ∙ one_longer a (draw a) ∙ ap (λ n. n + 1) (advanced_counts r h).1,
      same.1 ∙ (advanced_counts r h).0,
    )

draft_loop-Counted :
    (draw : Request → ℕ) (n : ℕ) (m : BlockManager) (r : Request) (proposed : List ℕ)
    → r.num_computed_tokens ≤ get_len r
    → OnOk
        (λ p.
          (get_len (p.1) ≡ get_len r + n)
          × (0 < n → (p.1).num_computed_tokens + 1 ≡ get_len r + n)
          × (n ≡ 0 → (p.1).num_computed_tokens ≡ r.num_computed_tokens))
        (draft_loop draw n m r proposed)
unfolding draft_loop cover_shadow Stepped
draft_loop-Counted draw zero m r proposed h =
    (omega arith, λ l. absurd (omega (arith, l)), λ z. refl)
draft_loop-Counted draw (suc n) m r proposed h = elim (Result-cases (cover_shadow m r)) [
  | inl (e, q) ↦ rw (q, draft_loop) tt
  | inr (p, q) ↦
      let c = OnOk-use (Counted r) (cover_shadow m r) (extend_table-Counted _ m r) q in
      let s = execute draw (advanced (p.1)) in
      let k = execute-Stepped draw p.1 (omega (arith, h, c.0, c.1)) in
      elim (Option-cases (last? s.output_token_ids)) [
        | inl e ↦ rw (q, draft_loop) (rw e tt)
        | inr (token, e) ↦
            rw (q, draft_loop)
              (rw e (
                OnOk-mono _ _ (draft_loop draw n p.0 s (proposed ++ token ∷ []))
                  (λ u i. (
                    omega (arith, i.0, k.0, c.0),
                    λ l.
                        last_round n (get_len r) s.num_computed_tokens (get_len s)
                          (u.1).num_computed_tokens (k.1 ∙ c.0) (k.0 ∙ ap (λ x. x + 1) c.0) i.1 i.2,
                    λ z. absurd (omega (arith, z)),
                  ))
                  (draft_loop-Counted draw n p.0 s (proposed ++ token ∷ [])
                    (omega (arith, k.0, k.1)))))
      ]
]

-- A round of drafts and its rollback leave the shadow in step with the engine: for a shadow whose
-- counter is within its tokens, where `propose`'s loop drafts `k` tokens, at least one, and the
-- engine then commits `accepted` tokens in all, from 1 to `k + 1`, the counter is rolled back to one
-- token before the end of the committed tokens, or two where all drafts and the bonus were accepted.
pub draft_loop-roll_back :
    (draw : Request → ℕ) (k accepted : ℕ) (m m' : BlockManager) (shadow shadow' : Request)
    (proposed : List ℕ)
    → shadow.num_computed_tokens ≤ get_len shadow
    → 0 < k
    → 0 < accepted
    → accepted ≤ k + 1
    → draft_loop draw k m shadow [] ≡ ok (m', shadow', proposed)
    → (roll_back k shadow' accepted).num_computed_tokens + (if leb accepted k then 1 else 2)
      ≡ get_len shadow + accepted
unfolding roll_back
draft_loop-roll_back draw k accepted m m' shadow shadow' proposed h pos least most e =
    let c =
      OnOk-use _ (draft_loop draw k m shadow []) (draft_loop-Counted draw k m shadow [] h) e in
    counter_lem (c.1 pos)
  where
    counter_lem :
        shadow'.num_computed_tokens + 1 ≡ get_len shadow + k
        → shadow'.num_computed_tokens - (k - accepted) + (if leb accepted k then 1 else 2)
          ≡ get_len shadow + accepted
    counter_lem q = ground arith

-- ===== src/Scheduler/Keys.antt =====
-- The keys of the dict `requests`: no call loses one but by handing the request back.
use lightserve.Prelude.{
  ℕ, ◌≡◌, ◌⊎◌, inl, inr, sym, subst, ◌∙◌, true, not, List, [], ◌∷◌, ◌++◌, arith, elem, elem_cons,
  elem_here, elem_there, ◌==◌, eq_sound, keep, Bool-cases, Result-cases, OnOk, OnOk-bind, OnOk-use,
  OnOk-mono,
}
use lightserve.Request.{is_finished}
use lightserve.Scheduler.{
  Scheduler, free_request, del_key, free_all, free_finished_requests, abort_waiting, aborted_one,
  abort_requests,
}

-- Every key of `keys` is in `keys'` or in `gone`.
abbrev pub Accounted : List ℕ → List ℕ → List ℕ → Type 0
Accounted keys keys' gone =
    (b : ℕ) → elem b keys ≡ true → (elem b keys' ≡ true) ⊎ (elem b gone ≡ true)

del_key-Accounted :
    (a : ℕ) (keys : List ℕ) → OnOk (λ keys'. Accounted keys keys' (a ∷ [])) (del_key a keys)
unfolding del_key
del_key-Accounted a [] = tt
del_key-Accounted a (x ∷ keys) = elim (Bool-cases (a == x)) [
  | inl e ↦
      rw (e, del_key)
        (λ b h. elim (elem_cons b x keys h) [
          | inl q ↦ inr (elem_here b a [] (q ∙ sym (eq_sound a x e)))
          | inr i ↦ inl i
        ])
  | inr e ↦ elim (Result-cases (del_key a keys)) [
    | inl (f, q) ↦ rw (e, del_key) (rw q tt)
    | inr (rest, q) ↦
        rw (e, del_key)
          (rw q (λ b h. elim (elem_cons b x keys h) [
            | inl t ↦ inl (elem_here b x rest t)
            | inr i ↦
                elim (OnOk-use (λ keys'. Accounted keys keys' (a ∷ [])) (del_key a keys)
                  (del_key-Accounted a keys) q b i) [
                    | inl j ↦ inl (elem_there b x rest j)
                    | inr j ↦ inr j
                  ]
          ]))
  ]
]

Accounted-trans :
    (keys mid last : List ℕ) (a : ℕ) (gone : List ℕ)
    → Accounted keys mid (a ∷ [])
    → Accounted mid last gone
    → Accounted keys last (a ∷ gone)
unfolding elem
Accounted-trans keys mid last a gone h k b i = elim (h b i) [
  | inl j ↦ elim (k b j) [ inl l ↦ inl l | inr l ↦ inr (elem_there b a gone l) ]
  | inr j ↦ inr (elem_here b a gone (single (elem_cons b a [] j)))
]
  where
    single : (b ≡ a) ⊎ (elem b [] ≡ true) → b ≡ a
    single (inl q) = q
    single (inr q) = cc

-- The dict is the same.
abbrev SameKeys : List ℕ → Scheduler → Type 0
SameKeys keys s = s.requests ≡ keys

free_request-SameKeys : (s : Scheduler) (a : ℕ) → OnOk (SameKeys s.requests) (free_request s a)
unfolding free_request
free_request-SameKeys s a = ground arith

free_all-Accounted :
    (s : Scheduler) (l : List ℕ) → OnOk (λ s'. Accounted s.requests s'.requests l) (free_all s l)
unfolding free_all
free_all-Accounted s [] = λ b h. inl h
free_all-Accounted s (a ∷ l) = elim (Result-cases (free_request s a)) [
  | inl (f, e) ↦ rw (e, free_all) tt
  | inr (t, e) ↦ elim (Result-cases (del_key a t.requests)) [
    | inl (f, q) ↦ rw (e, q, free_all) tt
    | inr (keys, q) ↦
        let same =
          OnOk-use (SameKeys s.requests) (free_request s a) (free_request-SameKeys s a) e in
        let first : Accounted s.requests keys (a ∷ []) =
          subst (λ old. Accounted old keys (a ∷ [])) same
            (OnOk-use (λ keys'. Accounted t.requests keys' (a ∷ [])) (del_key a t.requests)
              (del_key-Accounted a t.requests) q) in
        rw (e, q, free_all)
          (OnOk-mono (λ u. Accounted keys u.requests l)
            (λ u. Accounted s.requests u.requests (a ∷ l))
            (free_all (record t { requests = keys }) l)
            (λ u. Accounted-trans s.requests keys u.requests a l first)
            (free_all-Accounted (record t { requests = keys }) l))
  ]
]

pub free_finished_requests-Accounted :
    (s : Scheduler) → OnOk (λ p. Accounted s.requests p.0.requests p.1) (free_finished_requests s)
unfolding free_finished_requests
free_finished_requests-Accounted s =
    let finished = keep (λ a. is_finished (s.store a)) s.running_list in
    let left = record s {
      running_list = keep (λ a. not (is_finished (s.store a))) s.running_list;
    } in
    OnOk-bind (λ t. Accounted s.requests t.requests finished)
      (λ p. Accounted s.requests p.0.requests p.1) (free_all left finished) _
      (free_all-Accounted left finished) (λ t h. h)

abort_waiting-Accounted :
    (s : Scheduler) (ids queue : List ℕ)
    → OnOk (λ p. Accounted s.requests p.0.requests p.2) (abort_waiting s ids queue)
unfolding abort_waiting
abort_waiting-Accounted s ids [] = λ b h. inl h
abort_waiting-Accounted s ids (a ∷ queue) = elim (Bool-cases (elem a ids)) [
  | inr e ↦ elim (Result-cases (abort_waiting s ids queue)) [
    | inl (f, q) ↦ rw (e, abort_waiting) (rw q tt)
    | inr (p, q) ↦
        rw (e, abort_waiting)
          (rw q (
            OnOk-use (λ p. Accounted s.requests p.0.requests p.2) (abort_waiting s ids queue)
              (abort_waiting-Accounted s ids queue) q))
  ]
  | inl e ↦ elim (Result-cases (del_key a s.requests)) [
    | inl (f, q) ↦ rw (e, abort_waiting) (rw q tt)
    | inr (keys, q) ↦
        let s' = aborted_one s a keys in
        elim (Result-cases (abort_waiting s' ids queue)) [
          | inl (f, t) ↦ rw (e, abort_waiting) (rw q (rw t tt))
          | inr (p, t) ↦
              rw (e, abort_waiting)
                (rw q (
                  rw t (
                    Accounted-trans s.requests keys p.0.requests a p.2
                      (OnOk-use (λ keys'. Accounted s.requests keys' (a ∷ []))
                        (del_key a s.requests) (del_key-Accounted a s.requests) q)
                      (OnOk-use (λ p. Accounted keys p.0.requests p.2) (abort_waiting s' ids queue)
                        (abort_waiting-Accounted s' ids queue) t))))
        ]
  ]
]

elem_append_left : (b : ℕ) (xs ys : List ℕ) → elem b xs ≡ true → elem b (xs ++ ys) ≡ true
unfolding elem
elem_append_left b [] ys h = cc
elem_append_left b (x ∷ xs) ys h = ground (arith, elem_append_left b xs ys)

elem_append_right : (b : ℕ) (xs ys : List ℕ) → elem b ys ≡ true → elem b (xs ++ ys) ≡ true
unfolding elem
elem_append_right b [] ys h = h
elem_append_right b (x ∷ xs) ys h = elem_there b x (xs ++ ys) (elem_append_right b xs ys h)

pub abort_requests-Accounted :
    (s : Scheduler) (ids : List ℕ)
    → OnOk (λ p. Accounted s.requests p.0.requests p.1) (abort_requests s ids)
unfolding abort_requests
abort_requests-Accounted s ids =
    OnOk-bind (λ p. Accounted s.requests p.0.requests p.2)
      (λ p. Accounted s.requests p.0.requests p.1) (abort_waiting s ids s.waiting_queue) _
      (abort_waiting-Accounted s ids s.waiting_queue)
      λ p h.
        OnOk-bind (λ q. Accounted p.0.requests q.0.requests q.1)
          (λ p. Accounted s.requests p.0.requests p.1) (free_finished_requests _) _
          (free_finished_requests-Accounted _)
          (λ q k b i. elim (h b i) [
            | inr j ↦ inr (elem_append_left b p.2 q.1 j)
            | inl j ↦ elim (k b j) [ inl l ↦ inl l | inr l ↦ inr (elem_append_right b p.2 q.1 l) ]
          ])

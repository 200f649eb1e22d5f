-- ===== src/EngineWorker/Keys.antt =====
-- The interface between the worker and its engine: what an engine promises of its requests' keys, and
-- that the worker's streams are always of requests that the engine knows.
use lightserve.Prelude.{
  ℕ, ◌≡◌, ◌⊎◌, inl, inr, refl, ap, sym, subst, ◌∙◌, true, false, Option, none, some, List, [], ◌∷◌,
  arith, elem, elem_cons, ◌==◌, eq_sound, is_some, Bool-cases, Option-cases, ok,
}
use lightserve.Prelude.Dict.{
  Dict, lookup, insert, erase, contains, IsDict, erase-IsDict, lookup-insert, lookup-erase_ne,
  lookup-erase_self,
}
use lightserve.Request.{RequestStatus, SamplingParams}
use lightserve.Scheduler.{Scheduler, SchedulerOutput}
use lightserve.Scheduler.Keys.{Accounted}
use lightserve.EngineWorker.{EngineWorker, EngineShape, finish_stream, finish}

-- The keys of the dict of requests of an engine's scheduler.
abbrev pub keys_of : {E : Type 0} → EngineShape E → E → List ℕ
keys_of shape e = (shape.scheduler e).requests

-- What the worker relies on: a request is added under a new key, no key is lost but by handing the
-- request back, and the scheduler is the engine's own.
pub record EngineLaws {E : Type 0} (shape : EngineShape E) : Type 0 where
  pub adds :
      (e e' : E) (prompt : List ℕ) (params : SamplingParams) (a : ℕ)
      → shape.add_request e prompt params a ≡ ok e'
      → (elem a (keys_of shape e) ≡ false)
        × (elem a (keys_of shape e') ≡ true)
        × ((b : ℕ) → elem b (keys_of shape e) ≡ true → elem b (keys_of shape e') ≡ true)
  pub steps :
      (e e' : E) (out : SchedulerOutput) (gone : List ℕ)
      → shape.step e ≡ ok (e', out, gone)
      → Accounted (keys_of shape e) (keys_of shape e') gone
  pub replaces : (e : E) (s : Scheduler) → shape.scheduler (shape.with_scheduler e s) ≡ s

no_some : {A : Type 0} (o : Option A) → o ≡ none → is_some o ≡ true → ⊥
no_some none e h = cc
no_some (some a) e h = cc

not_in : (k a : ℕ) (d : Dict ℕ) → lookup a d ≡ none → contains k d ≡ true → ¬ (k ≡ a)
not_in k a d e c q = no_some (lookup a d) e (subst (λ (x : ℕ). is_some (lookup x d) ≡ true) q c)

contains-erase :
    (k a : ℕ) (d : Dict ℕ)
    → IsDict d
    → contains k (erase a d) ≡ true
    → (contains k d ≡ true) × ¬ (k ≡ a)
contains-erase k a d h c =
    let ne = not_in k a (erase a d) (lookup-erase_self a d h) c in
    (ap is_some (sym (lookup-erase_ne k a d ne)) ∙ c, ne)

pub contains-insert :
    (k a v : ℕ) (d : Dict ℕ) → contains k (insert a v d) ≡ true → (k ≡ a) ⊎ (contains k d ≡ true)
contains-insert k a v d c = elim (Bool-cases (k == a)) [
  | inl e ↦ inl (eq_sound k a e)
  | inr e ↦ inr (ap is_some (sym (other e)) ∙ c)
]
  where
    other : (k == a) ≡ false → lookup k (insert a v d) ≡ lookup k d
    other e = lookup-insert k a v d ∙ rw e refl

module _ {E : Type 0} (shape : EngineShape E) where
  -- The streams are a dict, of requests with keys among the given.
  abbrev pub Within : EngineWorker E → List ℕ → Type 0
  Within w keys = IsDict w.streams × ((k : ℕ) → contains k w.streams ≡ true → elem k keys ≡ true)

  abbrev pub Known : EngineWorker E → Type 0
  Known w = Within w (keys_of shape w.engine)

  -- … or of requests that are about to be handed back.
  abbrev pub Leaving : EngineWorker E → List ℕ → Type 0
  Leaving w gone =
      IsDict w.streams
      × ((k : ℕ)
          → contains k w.streams ≡ true
          → (elem k (keys_of shape w.engine) ≡ true) ⊎ (elem k gone ≡ true))

  finish_stream-engine :
      (w : EngineWorker E) (a : ℕ) (status : RequestStatus)
      → (finish_stream w a status).engine ≡ w.engine
  unfolding finish_stream
  finish_stream-engine w a status = ground arith

  -- The streams that are left.
  finish_stream-streams :
      (w : EngineWorker E) (a : ℕ) (status : RequestStatus) (k : ℕ)
      → IsDict w.streams
      → IsDict (finish_stream w a status).streams
        × (contains k (finish_stream w a status).streams ≡ true
            → (contains k w.streams ≡ true) × ¬ (k ≡ a))
  unfolding finish_stream
  finish_stream-streams w a status k h = elim (Option-cases (lookup a w.streams)) [
    | inl e ↦ rw (e, finish_stream) (h, λ c. (c, not_in k a w.streams e c))
    | inr (v, e) ↦
        rw (e, finish_stream) (erase-IsDict a w.streams h, contains-erase k a w.streams h)
  ]

  -- After `_finish` the engine knows every request with a stream, where it did or the request was handed
  -- back before.
  pub finish-Known :
      (w : EngineWorker E) (gone : List ℕ) → Leaving w gone → Known (finish shape w gone)
  unfolding finish elem
  finish-Known w [] (d, h) = (d, λ k c. known k (h k c))
    where
      known :
          (k : ℕ)
          → (elem k (keys_of shape w.engine) ≡ true) ⊎ (elem k [] ≡ true)
          → elem k (keys_of shape w.engine) ≡ true
      known k (inl e) = e
      known k (inr e) = cc
  finish-Known w (a ∷ gone) (d, h) = finish-Known stopped gone (
    (finish_stream-streams counted a status 0 d).0,
    λ k c.
        let (was, ne) = (finish_stream-streams counted a status k d).1 c in
        subst (λ e. (elem k (keys_of shape e) ≡ true) ⊎ (elem k gone ≡ true))
          (sym (finish_stream-engine counted a status)) (later k ne (h k was)),
  )
    where
      status : RequestStatus
      status = ((shape.scheduler w.engine).store a).status

      counted : EngineWorker E
      counted = record w {
        metrics = record (w.metrics) { requests = status ∷ w.metrics.requests };
        queued = erase a w.queued;
        deadlines = erase a w.deadlines;
      }

      stopped : EngineWorker E
      stopped = finish_stream counted a status

      later :
          (k : ℕ)
          → ¬ (k ≡ a)
          → (elem k (keys_of shape w.engine) ≡ true) ⊎ (elem k (a ∷ gone) ≡ true)
          → (elem k (keys_of shape w.engine) ≡ true) ⊎ (elem k gone ≡ true)
      later k ne (inl e) = inl e
      later k ne (inr e) = elim (elem_cons k a gone e) [ inl q ↦ absurd (ne q) | inr f ↦ inr f ]

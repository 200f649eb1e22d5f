-- ===== src/EngineWorker/Placing.antt =====
-- The invariant of the worker's threads: where the handles are in each phase, with what it counts.
use lightserve.Prelude.{
  ℕ, ◌+◌, ◌≤◌, ◌<◌, ◌≡◌, inl, inr, refl, Bool, true, false, not, some, List, [], ◌∷◌, ◌++◌, arith,
  count, elem, elem_there, keep, ◌==◌, Bool-cases,
}
use lightserve.Request.{finished_aborted}
use lightserve.EngineWorker.{
  EngineShape, Incoming, submitted, aborted, StreamHandle, stream_end, put_item, queued_handles,
  end_all,
}
use lightserve.EngineWorker.Places.{ends, ends-put_item, open_places, places}
use lightserve.EngineWorker.Keys.{Known}
use lightserve.EngineWorker.Steps.{Server}

pub clash : {b : Bool} → b ≡ true → b ≡ false → ⊥
clash t f = cc

pub count-queued_handles-push :
    (g : ℕ) (xs ys : List Incoming)
    → count g (queued_handles (xs ++ ys))
      ≡ count g (queued_handles xs) + count g (queued_handles ys)
unfolding queued_handles count
count-queued_handles-push g [] ys = omega arith
count-queued_handles-push g (submitted s ∷ xs) ys = omega (arith, count-queued_handles-push g xs ys)
count-queued_handles-push g (aborted a ∷ xs) ys = count-queued_handles-push g xs ys

pub ends-end_all :
    (g : ℕ) (hs : List ℕ) (handles : ℕ → StreamHandle)
    → ends (end_all handles hs g).queue ≡ ends (handles g).queue + count g hs
unfolding end_all count ends
ends-end_all g [] handles = omega arith
ends-end_all g (h ∷ hs) handles = omega (
  arith,
  ends-end_all g hs (put_item handles h (stream_end finished_aborted)),
  ends-put_item handles h (stream_end finished_aborted) g,
)

pub queued_le :
    (item : Incoming) (items : List Incoming) (h : ℕ)
    → count h (queued_handles items) ≤ count h (queued_handles (item ∷ items))
unfolding queued_handles count
queued_le (submitted s) items h = omega arith
queued_le (aborted a) items h = omega arith

pub tail_out : (h x : ℕ) (l : List ℕ) → elem h (x ∷ l) ≡ false → elem h l ≡ false
tail_out h x l c = elim (Bool-cases (elem h l)) [
  | inl e ↦ absurd (clash (elem_there h x l e) c)
  | inr e ↦ e
]

pub elem-keep_ne :
    (g h : ℕ) (l : List ℕ) → ¬ (g ≡ h) → elem g (keep (λ x. not (x == h)) l) ≡ elem g l
unfolding elem keep
elem-keep_ne g h [] ne = refl
elem-keep_ne g h (x ∷ l) ne = ground (arith, elem-keep_ne g h l)

module _ {E : Type 0} (shape : EngineShape E) where
  -- Where the handles are, while the engine thread lives, when it has died, and at the end.
  abbrev pub Alive : Server E → Type 0
  Alive s =
      Known shape s.worker
      × (s.over ≡ false)
      × ((h : ℕ) → h < s.worker.num_handles → places h s.worker ≡ 1)

  abbrev pub Dying : Server E → Type 0
  Dying s = (h : ℕ) → h < s.worker.num_handles → ¬ (s.in_hand ≡ some h) → 1 ≤ places h s.worker

  abbrev pub Over : Server E → Type 0
  Over s =
      (h : ℕ)
      → h < s.worker.num_handles
      → ¬ (s.in_hand ≡ some h)
      → elem h s.checking ≡ false
      → 1 ≤ ends (s.worker.handles h).queue

  pub record Placed (s : Server E) : Type 0 where
    pub new : (h : ℕ) → s.worker.num_handles ≤ h → open_places h s.worker ≡ 0
    pub alive : s.worker.error ≡ false → Alive s
    pub dying : s.worker.error ≡ true → s.over ≡ false → Dying s
    pub over : s.worker.error ≡ true → s.over ≡ true → Over s

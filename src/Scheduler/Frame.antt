-- ===== src/Scheduler/Frame.antt =====
-- What scheduling leaves alone: the configuration, and of each request all but its progress.
use lightserve.Prelude.{
  ℕ, ◌≡◌, refl, ◌∙◌, ◌+◌, Bool, true, false, Option, arith, OnOk, OnOk-bind, update,
}
use lightserve.PrefixCache.{PrefixMatch}
use lightserve.Request.{Request, RequestStatus, preempted, running}
use lightserve.BlockManager.{BlockManager, allocate, append_slot, ensure_capacity}
use lightserve.BlockManager
use lightserve.BlockManager.Frame
use lightserve.BlockManager.Frame.{free-Kept, append_slot-Kept, ensure_capacity-Kept, allocate-Kept}
use lightserve.Scheduler.{
  Scheduler, SchedulerOutput, Admission, free_request, preempt, advance, admit, seed_computed, put,
}

pub record SameText (r r' : Request) : Type 0 where
  pub request_id : r'.request_id ≡ r.request_id
  pub prompt : r'.prompt_token_ids ≡ r.prompt_token_ids
  pub params : r'.sampling_params ≡ r.sampling_params
  pub output : r'.output_token_ids ≡ r.output_token_ids
  pub drafts : r'.draft_token_ids ≡ r.draft_token_ids

pub record Kept (s s' : Scheduler) : Type 0 where
  pub config : s'.scheduler_config ≡ s.scheduler_config
  pub requests : s'.requests ≡ s.requests
  pub text : (a : ℕ) → SameText (s.store a) (s'.store a)

pub Kept-refl : (s : Scheduler) → Kept s s
Kept-refl s = record {
  config = refl;
  requests = refl;
  text =
      λ a. record { request_id = refl; prompt = refl; params = refl; output = refl; drafts = refl };
}

SameText-trans : (r q p : Request) → SameText r q → SameText q p → SameText r p
SameText-trans r q p h k = ground arith

pub Kept-trans : (s t u : Scheduler) → Kept s t → Kept t u → Kept s u
Kept-trans s t u h k = record {
  config = k.config ∙ h.config;
  requests = k.requests ∙ h.requests;
  text = λ a. SameText-trans (s.store a) (t.store a) (u.store a) (h.text a) (k.text a);
}

-- Writing one object with the same text keeps the text of all.
SameText-update :
    (store : ℕ → Request) (a : ℕ) (r : Request) (b : ℕ)
    → SameText (store a) r
    → SameText (store b) (update store a r b)
SameText-update store a r b h = ground arith

SameText-progress :
    (r : Request) (status : RequestStatus) (n : ℕ)
    → SameText r (record r { status = status; num_computed_tokens = n })
SameText-progress r status n = record {
  request_id = refl;
  prompt = refl;
  params = refl;
  output = refl;
  drafts = refl;
}

Kept-text : (m m' : BlockManager) (r r' : Request) → Frame.Kept m r (m', r') → SameText r r'
Kept-text m m' r r' h = ground arith

pub free_request-Kept : (s : Scheduler) (a : ℕ) → OnOk (Kept s) (free_request s a)
unfolding free_request
free_request-Kept s a =
    OnOk-bind (Frame.Kept s.block_manager (s.store a)) (Kept s)
      (BlockManager.free s.block_manager (s.store a)) _ (free-Kept s.block_manager (s.store a))
      λ p h. record {
        config = refl;
        requests = refl;
        text =
            λ b. SameText-update s.store a p.1 b (Kept-text s.block_manager p.0 (s.store a) p.1 h);
      }

pub preempt-Kept :
    (s : Scheduler) (a : ℕ) (out : SchedulerOutput) → OnOk (λ p. Kept s p.0) (preempt s a out)
unfolding preempt
preempt-Kept s a out =
    OnOk-bind (Kept s) (λ p. Kept s p.0) (free_request s a) _ (free_request-Kept s a)
      λ s' h. record {
        config = h.config;
        requests = h.requests;
        text = λ b.
            SameText-trans (s.store b) (s'.store b) _ (h.text b)
              (SameText-update s'.store a _ b (SameText-progress (s'.store a) preempted 0));
      }

advanced-Kept :
    (s : Scheduler) (a chunk : ℕ) (p : BlockManager × Request)
    → Frame.Kept s.block_manager (s.store a) p
    → Kept s (
        put
          (record s { block_manager = p.0 })
          a
          (record (p.1) { num_computed_tokens = p.1.num_computed_tokens + chunk }))
advanced-Kept s a chunk p h = record {
  config = refl;
  requests = refl;
  text = λ b. SameText-update s.store a _ b (
      SameText-trans (s.store a) p.1 _ (Kept-text s.block_manager p.0 (s.store a) p.1 h)
        (SameText-progress p.1 p.1.status (p.1.num_computed_tokens + chunk)));
}

pub advance-Kept :
    (s : Scheduler) (a : ℕ) (is_spec : Bool) (target_len chunk : ℕ)
    → OnOk (Kept s) (advance s a is_spec target_len chunk)
unfolding advance
advance-Kept s a true target_len chunk =
    OnOk-bind (Frame.Kept s.block_manager (s.store a)) (Kept s)
      (ensure_capacity s.block_manager (s.store a) target_len) _
      (ensure_capacity-Kept s.block_manager (s.store a) target_len) (advanced-Kept s a chunk)
advance-Kept s a false target_len chunk =
    OnOk-bind (Frame.Kept s.block_manager (s.store a)) (Kept s)
      (append_slot s.block_manager (s.store a)) _ (append_slot-Kept s.block_manager (s.store a))
      (advanced-Kept s a chunk)

seed_computed_text :
    (r : Request) (found : Option PrefixMatch) → OnOk (SameText r) (seed_computed r found)
unfolding seed_computed
seed_computed_text r found = ground arith

pub admit-Kept :
    (st : Admission) (a : ℕ) (found : Option PrefixMatch)
    → OnOk (λ st'. Kept st.scheduler st'.scheduler) (admit st a found)
unfolding admit
admit-Kept st a found =
    let s = st.scheduler in
    OnOk-bind (Frame.Kept s.block_manager (s.store a)) _
      (allocate s.block_manager (s.store a) found) _
      (allocate-Kept s.block_manager (s.store a) found)
      λ p h.
        let r = record (p.1) { status = running } in
        OnOk-bind (SameText r) _ (seed_computed r found) _ (seed_computed_text r found) λ q k.
          record {
            config = refl;
            requests = refl;
            text = λ b. SameText-update s.store a _ b (
                SameText-trans (s.store a) p.1 _ (Kept-text s.block_manager p.0 (s.store a) p.1 h) (
                  SameText-trans p.1 r _ (SameText-progress p.1 running p.1.num_computed_tokens)
                    (SameText-trans r q _ k (SameText-progress q q.status _))));
          }

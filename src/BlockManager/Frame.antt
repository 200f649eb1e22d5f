-- ===== src/BlockManager/Frame.antt =====
-- What the block manager leaves alone: of a request, all but its table and its cached nodes; of itself,
-- its sizes.
use lightserve.Prelude.{
  ℕ, zero, suc, ◌≡◌, Option, List, arith, OnOk, OnOk-mono, Option-cases, inl, inr, Result-cases,
  OnOk-use, OnOk-bind, ◌>>=◌, Bool-cases,
}
use lightserve.Prelude.Dict.{lookup, contains}
use lightserve.Request.{Request}
use lightserve.PrefixCache.{PrefixMatch}
use lightserve.BlockManager.{
  BlockManager, free, release_cached, append_slot, push_block, grow, ensure_capacity, allocate,
  drain_evictions, acquire_match, take_blocks, resolve_match,
}

pub record Kept (m : BlockManager) (r : Request) (p : BlockManager × Request) : Type 0 where
  pub block_size : p.0.block_size ≡ m.block_size
  pub num_gpu_blocks : p.0.num_gpu_blocks ≡ m.num_gpu_blocks
  pub watermark : p.0.watermark_blocks ≡ m.watermark_blocks
  pub request_id : p.1.request_id ≡ r.request_id
  pub prompt : p.1.prompt_token_ids ≡ r.prompt_token_ids
  pub params : p.1.sampling_params ≡ r.sampling_params
  pub output : p.1.output_token_ids ≡ r.output_token_ids
  pub status : p.1.status ≡ r.status
  pub drafts : p.1.draft_token_ids ≡ r.draft_token_ids
  pub computed : p.1.num_computed_tokens ≡ r.num_computed_tokens

pub free-Kept : (m : BlockManager) (r : Request) → OnOk (Kept m r) (free m r)
unfolding free release_cached
free-Kept m r = ground arith

push_block-Kept :
    (m : BlockManager) (r : Request) (table : List ℕ) → OnOk (Kept m r) (push_block m r table)
unfolding push_block
push_block-Kept m r table = ground arith

pub append_slot-Kept : (m : BlockManager) (r : Request) → OnOk (Kept m r) (append_slot m r)
unfolding append_slot push_block
append_slot-Kept m r = ground arith

Kept-trans :
    (m : BlockManager) (r : Request) (p q : BlockManager × Request)
    → Kept m r p
    → Kept p.0 p.1 q
    → Kept m r q
Kept-trans m r p q h k = ground arith

grow-Kept :
    (n : ℕ) (m : BlockManager) (r : Request) (table : List ℕ) → OnOk (Kept m r) (grow n m r table)
unfolding grow
grow-Kept zero m r table = ground arith
grow-Kept (suc n) m r table = elim (Result-cases (push_block m r table)) [
  | inl (f, e) ↦ rw (e, grow) tt
  | inr (p, e) ↦
      rw (e, grow)
        (OnOk-mono (Kept p.0 p.1) (Kept m r) (grow n p.0 p.1 p.1.block_table)
          (λ q.
            Kept-trans m r p q
              (OnOk-use (Kept m r) (push_block m r table) (push_block-Kept m r table) e))
          (grow-Kept n p.0 p.1 p.1.block_table))
]

pub ensure_capacity-Kept :
    (m : BlockManager) (r : Request) (target_len : ℕ)
    → OnOk (Kept m r) (ensure_capacity m r target_len)
unfolding ensure_capacity
ensure_capacity-Kept m r target_len = elim (Option-cases (lookup r.request_id m.block_tables)) [
  | inl e ↦ rw e tt
  | inr (table, e) ↦ rw e (grow-Kept _ m r table)
]

-- Draining moves blocks from the trie to the stack, and does no more.
pub record Drained (m m' : BlockManager) : Type 0 where
  pub block_size : m'.block_size ≡ m.block_size
  pub num_gpu_blocks : m'.num_gpu_blocks ≡ m.num_gpu_blocks
  pub watermark : m'.watermark_blocks ≡ m.watermark_blocks
  pub tables : m'.block_tables ≡ m.block_tables

pub drain_evictions-Drained : (m : BlockManager) (n : ℕ) → OnOk (Drained m) (drain_evictions m n)
unfolding drain_evictions
drain_evictions-Drained m n = ground arith

pub acquire_match-Kept :
    (m : BlockManager) (r : Request) (found : Option PrefixMatch)
    → Kept m r (acquire_match m r found)
      × ((acquire_match m r found).0.block_tables ≡ m.block_tables)
unfolding acquire_match
acquire_match-Kept m r found = ground arith

pub take_blocks-Kept :
    (m : BlockManager) (r : Request) (matched : List ℕ) (n : ℕ)
    → OnOk (Kept m r) (take_blocks m r matched n)
unfolding take_blocks
take_blocks-Kept m r matched n = ground arith

drain-Kept :
    (m m' : BlockManager) (r : Request) (p : BlockManager × Request)
    → Drained m m'
    → Kept m' r p
    → Kept m r p
drain-Kept m m' r p h k = ground arith

drain_and_take-Kept :
    (m : BlockManager) (r : Request) (matched : List ℕ) (n : ℕ)
    → OnOk (Kept m r) (drain_evictions m n >>= λ m'. take_blocks m' r matched n)
drain_and_take-Kept m r matched n =
    OnOk-bind (Drained m) (Kept m r) (drain_evictions m n) _ (drain_evictions-Drained m n) λ m' h.
      OnOk-mono (Kept m' r) (Kept m r) (take_blocks m' r matched n) (λ p. drain-Kept m m' r p h)
        (take_blocks-Kept m' r matched n)

pub allocate-Kept :
    (m : BlockManager) (r : Request) (given : Option PrefixMatch)
    → OnOk (Kept m r) (allocate m r given)
unfolding allocate
allocate-Kept m r given = elim (Bool-cases (contains r.request_id m.block_tables)) [
  | inl e ↦ rw e tt
  | inr e ↦
      let found = resolve_match m r given in
      let (m', r') = acquire_match m r found in
      rw e (
        OnOk-mono (Kept m' r') (Kept m r) (drain_evictions m' _ >>= λ d. take_blocks d r' _ _)
          (λ p. Kept-trans m r (m', r') p (acquire_match-Kept m r found).0)
          (drain_and_take-Kept m' r' _ _))
]

-- ===== src/Engine/Talker/Idle.antt =====
-- Steps while every running sequence waits for its next input.
use nano_qwen3tts_vllm.Common.{
  ℕ, ◌≡◌, refl, sym, ap, ◌∙◌, inl, inr, Bool, true, false, List, [], ◌∷◌, ◌++◌, Option, some,
  length, ltb, Bool-cases, nat_eq, pos,
}
use mathlib.Core.List.{append-nil, append_assoc}
use nano_qwen3tts_vllm.Common.Dict.{Dict, lookup}
use nano_qwen3tts_vllm.Engine.Effects.{ok, ◌>>=◌}
use nano_qwen3tts_vllm.Engine.Sequence.{Sequence}
use nano_qwen3tts_vllm.Engine.Scheduler.{Scheduler, seq_at, prefill}
use nano_qwen3tts_vllm.Engine.Talker.{
  RequestScheduler, is_ready, decode_ready, or_decode_ready, talker_schedule,
}
use nano_qwen3tts_vllm.Engine.Talker.Steps.{step_with_outputs}

-- None of the sequences has its next input.
abbrev pub AreIdle : Dict ℕ Sequence → List ℕ → Type 0
AreIdle seqs [] = Unit
AreIdle seqs (id ∷ ids) =
    ((q : Sequence) × (lookup id seqs ≡ some q) × (is_ready q ≡ false)) × AreIdle seqs ids

module _ (digest : List ℕ → Option ℕ → ℕ) (s : Scheduler) where
  abbrev queue : List ℕ → Scheduler
  queue ids = record s { running_ids = ids }

  -- The rounds move each sequence behind the others.
  decode_ready_rotates :
      (xs ys : List ℕ) (n : ℕ)
      → ltb n s.max_num_seqs ≡ true
      → AreIdle s.seqs xs
      → decode_ready digest (length xs) n (queue (xs ++ ys)) ≡ ok ([], queue (ys ++ xs))
  unfolding decode_ready
  decode_ready_rotates [] ys n room idle = ap (λ ids. ok ([], queue ids)) (sym (append-nil ys))
  decode_ready_rotates (x ∷ xs) ys n room ((q, here, blank), idle) =
      rw (room, decode_ready)
        (rw (here, seq_at)
          (rw blank (
            rw (append_assoc xs ys (x ∷ [])) (
              decode_ready_rotates xs (ys ++ x ∷ []) n room idle
              ∙ ap (λ ids. ok ([], queue ids)) (append_assoc ys (x ∷ []) xs)))))

  decode_ready_idle :
      AreIdle s.seqs s.running_ids → decode_ready digest (length s.running_ids) 0 s ≡ ok ([], s)
  unfolding decode_ready
  decode_ready_idle idle = elim (Bool-cases (ltb 0 s.max_num_seqs)) [
    | inl room ↦
        ap (λ ids. decode_ready digest (length s.running_ids) 0 (queue ids))
          (sym (append-nil s.running_ids))
        ∙ decode_ready_rotates s.running_ids [] 0 room idle
    | inr full ↦ go s.running_ids full
  ]
    where
      go :
          (ids : List ℕ)
          → ltb 0 s.max_num_seqs ≡ false
          → decode_ready digest (length ids) 0 s ≡ ok ([], s)
      go [] full = refl
      go (id ∷ ids) full = rw (full, decode_ready) refl

  talker_schedule_idle :
      s.waiting_ids ≡ []
      → AreIdle s.seqs s.running_ids
      → talker_schedule digest s ≡ ok ([], false, s)
  unfolding talker_schedule prefill
  talker_schedule_idle nobody idle = go s.waiting_ids nobody
    where
      go :
          (ids : List ℕ)
          → ids ≡ []
          → (do r ← prefill digest ids 0 0 s; or_decode_ready digest r) ≡ ok ([], false, s)
      go [] e = rw (decode_ready_idle idle) refl
      go (id ∷ ids) e = cc

-- While no sequence waits to be admitted and none of the running ones has its next input, a step
-- does not call the model, has no outputs, counts no tokens and leaves the state as it is, the order of
-- the running queue included.
pub step_idle :
    (digest : List ℕ → Option ℕ → ℕ) (runner : List Sequence → Bool → List ℕ) (s : RequestScheduler)
    → s.base.waiting_ids ≡ []
    → AreIdle s.base.seqs s.base.running_ids
    → step_with_outputs digest runner s
      ≡ ok (record { outputs = []; num_tokens = pos 0; outputs_all = []; later = s })
unfolding step_with_outputs
step_idle digest runner s nobody idle = rw (talker_schedule_idle digest s.base nobody idle) refl

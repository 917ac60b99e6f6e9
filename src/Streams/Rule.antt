-- ===== src/Streams/Rule.antt =====
-- A proof rule for the `for` loop of `_pop_next_ready_stream_locked`.
use nano_qwen3tts_vllm.Common.{
  ℕ, zero, suc, ◌≤◌, ◌≡◌, refl, String, true, false, List, [], ◌∷◌, ◌++◌, Option, none, some,
  length, length-append, arith, string_eq,
}
use nano_qwen3tts_vllm.Common.Dict.{lookup}
use nano_qwen3tts_vllm.Streams.State.{Job, FairStreamScheduler, Result, ok, raise}
use nano_qwen3tts_vllm.Streams.Turns.{prune_queue, pop_rounds, pop_next_ready_stream}
use nano_qwen3tts_vllm.Streams.Pruning.{Pruned}
use nano_qwen3tts_vllm.Streams.Rounds.{
  IsOrdered, drop_tenant, rotate, taken, drops, passes, takes, turn_cases, drop-IsOrdered,
  rotate-IsOrdered,
}

-- What to show of an invariant `P` and a postcondition `Q` of the loop.
pub record Rule {ℓ} (P : FairStreamScheduler → Type ℓ)
    (Q : Result (Option String) × FairStreamScheduler → Type ℓ) : Type ℓ where
  pub stop : (s : FairStreamScheduler) → IsOrdered s → P s → Q (ok none, s)
  pub drop :
      (s : FairStreamScheduler) (t : String) (rr queue : List String)
      → IsOrdered s
      → s.tenant_rr ≡ t ∷ rr
      → lookup t s.tenant_queues ≡ some queue
      → Pruned s.active_streams queue ([], none)
      → P s
      → P (drop_tenant s t rr)
  pub pass :
      (s : FairStreamScheduler) (t : String) (rr queue : List String) (head : String)
      (rest : List String) (job : Job)
      → IsOrdered s
      → s.tenant_rr ≡ t ∷ rr
      → lookup t s.tenant_queues ≡ some queue
      → Pruned s.active_streams queue (head ∷ rest, some job)
      → job.stream_requested ≡ false
      → P s
      → P (rotate s t rr (head ∷ rest))
  pub take :
      (s : FairStreamScheduler) (t : String) (rr queue : List String) (head : String)
      (rest : List String) (job : Job)
      → IsOrdered s
      → s.tenant_rr ≡ t ∷ rr
      → lookup t s.tenant_queues ≡ some queue
      → Pruned s.active_streams queue (head ∷ rest, some job)
      → job.stream_requested ≡ true
      → P s
      → Q (ok (some head), taken s t rr (prune_queue s.active_streams rest))

module _ {ℓ} {P : FairStreamScheduler → Type ℓ}
    {Q : Result (Option String) × FairStreamScheduler → Type ℓ} (rule : Rule P Q) where
  open rule use {stop, drop, pass, take}

  pop_rounds_ind :
      (n : ℕ) (s : FairStreamScheduler) (front : List String)
      → s.tenant_rr ≡ front
      → n ≤ length front
      → IsOrdered s
      → P s
      → Q (pop_rounds n s)
  unfolding pop_rounds
  pop_rounds_ind zero s front e h o p = stop s o p
  pop_rounds_ind (suc n) s [] e h o p = absurd (omega arith)
  pop_rounds_ind (suc n) s (t ∷ rr) e h o p = elim (turn_cases s t rr e o (pop_rounds n)) [
    | drops queue found e' pruned r ↦ rw r (
        pop_rounds_ind n (drop_tenant s t rr) rr refl (omega arith) (drop-IsOrdered s t rr e o)
          (drop s t rr queue o e found pruned p))
    | passes queue head rest job found e' pruned idle r ↦ rw r (
        pop_rounds_ind n (rotate s t rr (head ∷ rest)) (rr ++ t ∷ []) refl
          (omega (arith, length-append rr (t ∷ []))) (rotate-IsOrdered s t rr e o head rest)
          (pass s t rr queue head rest job o e found pruned idle p))
    | takes queue head rest job found e' pruned asked r ↦
        rw r (take s t rr queue head rest job o e found pruned asked p)
  ]

  pub pop_next_ind : (s : FairStreamScheduler) → IsOrdered s → P s → Q (pop_next_ready_stream s)
  unfolding pop_next_ready_stream
  pop_next_ind s = pop_rounds_ind (length s.tenant_rr) s s.tenant_rr refl (omega arith)

-- A postcondition of a pop: it raises nothing, `N` holds if it finds no stream, and `S` if it does.
abbrev pub Pops :
    (FairStreamScheduler → Type 0)
    → (String → FairStreamScheduler → Type 0)
    → Result (Option String) × FairStreamScheduler
    → Type 0
Pops N S (ok none, s) = N s
Pops N S (ok (some stream_id), s) = S stream_id s
Pops N S (raise e, s) = ⊥

pub taken-IsOrdered :
    (s : FairStreamScheduler) (t : String) (rr rest : List String) (r : List String × Option Job)
    → IsOrdered s
    → s.tenant_rr ≡ t ∷ rr
    → Pruned s.active_streams rest r
    → IsOrdered (taken s t rr r)
taken-IsOrdered s t rr rest (left, none) o e p = drop-IsOrdered s t rr e o
taken-IsOrdered s t rr rest (left, some job) o e p = rw p.2 (rotate-IsOrdered s t rr e o p.0 p.1)

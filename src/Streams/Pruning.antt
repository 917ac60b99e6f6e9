-- ===== src/Streams/Pruning.antt =====
-- What the pruning of a queue's head leaves, and the outcomes of one turn.
use nano_qwen3tts_vllm.Common.{
  ◌≤◌, ◌≡◌, ◌≢◌, refl, sym, ◌∙◌, inl, inr, String, true, List, [], ◌∷◌, Option, none, some, length,
  arith, Bool-cases, Option-cases, string_eq,
}
use mathlib.Core.Logic.{if_neg}
use nano_qwen3tts_vllm.Common.Dict.{Dict, lookup}
use nano_qwen3tts_vllm.Common.Count.{count}
use nano_qwen3tts_vllm.Streams.State.{Job, is_queued}
use nano_qwen3tts_vllm.Streams.Turns.{prune_queue}

-- Pruning stops at a queued head, and drops no stream that is queued.
abbrev pub Pruned : Dict String Job → List String → List String × Option Job → Type 0
Pruned jobs queue (left, none) =
    (left ≡ [])
    × ((i : String) (job : Job)
        → lookup i jobs ≡ some job
        → is_queued job ≡ true
        → count i queue ≡ 0)
Pruned jobs queue (left, some job) =
    (head : String) × (rest : List String) × (left ≡ head ∷ rest)
    × (lookup head jobs ≡ some job)
    × (is_queued job ≡ true)
    × (length left ≤ length queue)
    × ((i : String) (other : Job)
        → lookup i jobs ≡ some other
        → is_queued other ≡ true
        → count i left ≡ count i queue)

module _ (jobs : Dict String Job) (x : String) (rest : List String)
    (dead : (job : Job) → lookup x jobs ≡ some job → is_queued job ≢ true) where
  count_dead :
      (i : String) (job : Job)
      → lookup i jobs ≡ some job
      → is_queued job ≡ true
      → count i (x ∷ rest) ≡ count i rest
  unfolding count
  count_dead i job found live = elim (string_eq.dec i x) [
    | yes same ↦ absurd (dead job (rw same at found) live)
    | no other ↦ rw (if_neg _ other) (omega arith)
  ]

  Pruned-cons : (r : List String × Option Job) → Pruned jobs rest r → Pruned jobs (x ∷ rest) r
  Pruned-cons (left, none) (empty, absent) =
      (empty, λ i job found live. count_dead i job found live ∙ absent i job found live)
  Pruned-cons (left, some job) (head, more, split, found, live, shorter, same) = (
    head,
    more,
    split,
    found,
    live,
    omega arith,
    λ i other here waits. same i other here waits ∙ sym (count_dead i other here waits),
  )

pub prune_queue-Pruned :
    (jobs : Dict String Job) (queue : List String) → Pruned jobs queue (prune_queue jobs queue)
unfolding prune_queue count
prune_queue-Pruned jobs [] = (refl, λ i job found live. refl)
prune_queue-Pruned jobs (x ∷ rest) = elim (Option-cases (lookup x jobs)) [
  | inl gone ↦
      rw (gone, prune_queue)
        (Pruned-cons jobs x rest (λ job found. cc) _ (prune_queue-Pruned jobs rest))
  | inr (job, found) ↦ elim (Bool-cases (is_queued job)) [
    | inl live ↦
        rw (found, prune_queue)
          (rw live (x, rest, refl, found, live, omega arith, λ i other here waits. refl))
    | inr stale ↦
        rw (found, prune_queue)
          (rw stale
            (Pruned-cons jobs x rest (λ other here live. cc) _ (prune_queue-Pruned jobs rest)))
  ]
]

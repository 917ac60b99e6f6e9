-- ===== src/Streams/Fairness.antt =====
-- Round robin: how often a tenant can be overtaken.
use nano_qwen3tts_vllm.Common.{
  ℕ, zero, suc, ◌≤◌, ◌<◌, ◌≡◌, ◌≢◌, refl, sym, ◌∙◌, ap, String, true, List, [], ◌∷◌, ◌++◌, Option,
  none, some, length, length-append, arith, string_eq,
}
use mathlib.Core.List.{append_assoc}
use mathlib.Core.Option.{some-injective}
use nano_qwen3tts_vllm.Common.Dict.{lookup, lookup-insert, lookup-erase}
use nano_qwen3tts_vllm.Common.Count.{count, count-append}
use nano_qwen3tts_vllm.Streams.State.{Job, FairStreamScheduler, Result, ok, job_of, is_queued}
use nano_qwen3tts_vllm.Streams.Turns.{prune_queue, turn, pop_rounds, pop_next_ready_stream}
use nano_qwen3tts_vllm.Streams.Rounds.{
  IsOrdered, drop_tenant, rotate, taken, drops, passes, takes, turn_cases, drop-IsOrdered,
  rotate-IsOrdered, front_once,
}

-- The stream at the head of the tenant's queue waits and has been asked for.
pub record IsUp (s : FairStreamScheduler) (t stream_id : String) (rest : List String) : Type 0 where
  pub job : Job
  pub queue : lookup t s.tenant_queues ≡ some (stream_id ∷ rest)
  pub here : job_of s stream_id ≡ some job
  pub waits : is_queued job ≡ true
  pub asked : job.stream_requested ≡ true

-- A pop serves the tenant's head, or some other stream and brings the tenant nearer to the front.
pub data Serves (t stream_id : String) (rest : List String) (ahead : ℕ)
    : Result (Option String) × FairStreamScheduler → Type 0 where
  served : {s' : FairStreamScheduler} → Serves t stream_id rest ahead (ok (some stream_id), s')
  overtaken :
      {s' : FairStreamScheduler} (other : String) (before after : List String)
      → s'.tenant_rr ≡ before ++ t ∷ after
      → length before < ahead
      → IsUp s' t stream_id rest
      → Serves t stream_id rest ahead (ok (some other), s')

Serves-mono :
    {t i : String} {rest : List String} {r : Result (Option String) × FairStreamScheduler} (m n : ℕ)
    → m ≤ n
    → Serves t i rest m r
    → Serves t i rest n r
Serves-mono m n h served = served
Serves-mono m n h (overtaken other before after e near up) =
    overtaken other before after e (omega arith) up

module _ (s : FairStreamScheduler) (u t i : String) (rest : List String) (apart : t ≢ u)
    (up : IsUp s t i rest) where
  drop-IsUp : (rr : List String) → IsUp (drop_tenant s u rr) t i rest
  drop-IsUp rr = record {
    job = up.job;
    queue = ground (arith, lookup-erase t u s.tenant_queues, up.queue);
    here = up.here;
    waits = up.waits;
    asked = up.asked;
  }

  rotate-IsUp : (rr left : List String) → IsUp (rotate s u rr left) t i rest
  rotate-IsUp rr left = record {
    job = up.job;
    queue = ground (arith, lookup-insert t u left s.tenant_queues, up.queue);
    here = up.here;
    waits = up.waits;
    asked = up.asked;
  }

  taken-overtaken :
      (head : String) (rr before after queue : List String) (r : List String × Option Job)
      → rr ≡ before ++ t ∷ after
      → Serves t i rest (suc (length before)) (ok (some head), taken s u rr r)
  taken-overtaken head rr before after queue (left, none) e =
      overtaken head before after e (omega arith) (drop-IsUp rr)
  taken-overtaken head rr before after queue (left, some job) e =
      overtaken head before (after ++ u ∷ []) (rw e (append_assoc before (t ∷ after) (u ∷ [])))
        (omega arith) (rotate-IsUp rr left)

module _ (s : FairStreamScheduler) (t i : String) (rest queue : List String) (up : IsUp s t i rest)
    (found : lookup t s.tenant_queues ≡ some queue) where
  queue_eq : queue ≡ i ∷ rest
  queue_eq = some-injective queue (i ∷ rest) (sym found ∙ up.queue)

  up_pruned : prune_queue s.active_streams queue ≡ (i ∷ rest, some up.job)
  unfolding prune_queue
  up_pruned = rw queue_eq (rw (up.here, prune_queue) (rw up.waits))

at_front :
    (s : FairStreamScheduler) (t i : String) (rest rr : List String)
    (continue : FairStreamScheduler → Result (Option String) × FairStreamScheduler) (n : ℕ)
    → s.tenant_rr ≡ t ∷ rr
    → IsOrdered s
    → IsUp s t i rest
    → Serves t i rest n (turn continue s)
at_front s t i rest rr continue n e o up = elim (turn_cases s t rr e o continue) [
  | drops queue found pruned p r ↦ absurd (cc (up_pruned s t i rest queue up found))
  | passes queue head left job found pruned p idle r ↦
      absurd (cc (up_pruned s t i rest queue up found, up.asked))
  | takes queue head left job found pruned p asked r ↦
      let same : head ≡ i = cc (up_pruned s t i rest queue up found) in rw (r, same) served
]

apart_of_absent :
    (t u : String) (before after : List String) → count u (before ++ t ∷ after) ≡ 0 → t ≢ u
unfolding count
apart_of_absent t u before after h same = ground (arith, count-append u before (t ∷ after))

overtaking :
    (t i : String) (rest before after : List String) (n : ℕ) (s : FairStreamScheduler)
    → length before < n
    → s.tenant_rr ≡ before ++ t ∷ after
    → IsOrdered s
    → IsUp s t i rest
    → Serves t i rest (length before) (pop_rounds n s)
unfolding pop_rounds
overtaking t i rest before after zero s h e o up = absurd (omega arith)
overtaking t i rest [] after (suc n) s h e o up = at_front s t i rest after (pop_rounds n) _ e o up
overtaking t i rest (u ∷ before) after (suc n) s h e o up =
    elim (turn_cases s u (before ++ t ∷ after) e o (pop_rounds n)) [
      | drops queue found pruned p r ↦ rw r (
          Serves-mono _ _ (omega arith) (
            overtaking t i rest before after n _ (omega arith) refl
              (drop-IsOrdered s u (before ++ t ∷ after) e o) (drop-IsUp s u t i rest apart up _)))
      | passes queue head left job found pruned p idle r ↦ rw r (
          Serves-mono _ _ (omega arith) (
            overtaking t i rest before (after ++ u ∷ []) n _ (omega arith)
              (append_assoc before (t ∷ after) (u ∷ []))
              (rotate-IsOrdered s u (before ++ t ∷ after) e o head left)
              (rotate-IsUp s u t i rest apart up _ _)))
      | takes queue head left job found pruned p asked r ↦ rw r (
          taken-overtaken s u t i rest apart up head (before ++ t ∷ after) before after queue _
            refl)
    ]
  where
    apart : t ≢ u
    apart = apart_of_absent t u before after (front_once s u (before ++ t ∷ after) e o)

-- Bounded overtaking: while the head of a tenant's queue waits and has been asked for, a pop hands
-- out that stream, or hands out another one, keeps the tenant's queue and leaves strictly fewer
-- tenants ahead of it.
pub pop_next-Serves :
    (t i : String) (rest before after : List String) (s : FairStreamScheduler)
    → s.tenant_rr ≡ before ++ t ∷ after
    → IsOrdered s
    → IsUp s t i rest
    → Serves t i rest (length before) (pop_next_ready_stream s)
unfolding pop_next_ready_stream
pop_next-Serves t i rest before after s e o up =
    overtaking t i rest before after (length s.tenant_rr) s
      (omega (arith, ap length e, length-append before (t ∷ after))) e o up

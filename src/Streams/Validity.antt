-- ===== src/Streams/Validity.antt =====
-- The invariant of the scheduler, and its writes one by one.
use nano_qwen3tts_vllm.Common.{
  ℕ, ◌≡◌, refl, inl, inr, String, Bool, true, false, Option, none, some, arith, string_eq,
  option_eq, ◌==◌, Option-cases,
}
use nano_qwen3tts_vllm.Common.Dict.{total, lookup, lookup-insert}
use nano_qwen3tts_vllm.Common.Count.{count}
use nano_qwen3tts_vllm.Streams.State.{
  running, Job, FairStreamScheduler, Result, ok, raise, init, queued_total, job_of, put_job,
}
use nano_qwen3tts_vllm.Streams.Turns.{start, try_activate_next}
use nano_qwen3tts_vllm.Streams.Rounds.{IsOrdered}
use nano_qwen3tts_vllm.Streams.Rule.{Pops}
use nano_qwen3tts_vllm.Streams.Keeping.{AllWait, IsBounded, Found, Missed, pop_next-Kept}

abbrev pub is_running : Option Job → Bool
is_running none = false
is_running (some job) = elim job.state [ running ↦ true | _ ↦ false ]

-- The order is that of the tenants with queued streams, the queues keep their limits, every queued
-- stream stands in its tenant's queue, and the active stream is the one that runs.
pub record IsValid (s : FairStreamScheduler) : Type 0 where
  pub ordered : IsOrdered s
  pub bounded : IsBounded s
  pub all_wait : AllWait none s
  pub runs : (i : String) → is_running (job_of s i) ≡ (s.active_stream_id == some i)

-- A call that raises nothing, and the postcondition of its result.
abbrev pub Returns {ℓ} :
    {A : Type ℓ} → (A → FairStreamScheduler → Type 0) → Result A × FairStreamScheduler → Type 0
Returns Q (ok a, s) = Q a s
Returns Q (raise e, s) = ⊥

pub init-IsValid : (per_tenant limit timeout : ℕ) → IsValid (init per_tenant limit timeout)
unfolding init queued_total count lookup total
init-IsValid per_tenant limit timeout = record {
  ordered = record { placed = λ t. refl; in_set = λ t. refl };
  bounded = record { total_bound = omega arith; tenant_bound = λ t queue e. cc };
  all_wait = λ i job e. cc;
  runs = λ i. ground arith;
}

-- A write to a job that keeps its state and its tenant.
pub put_job-IsValid :
    (s : FairStreamScheduler) (i : String) (old job : Job)
    → job_of s i ≡ some old
    → job.state ≡ old.state
    → job.tenant_id ≡ old.tenant_id
    → IsValid s
    → IsValid (put_job s i job)
unfolding queued_total
put_job-IsValid s i old job here state tenant v = record {
  ordered = record { placed = v.ordered.placed; in_set = v.ordered.in_set };
  bounded = record { total_bound = v.bounded.total_bound; tenant_bound = v.bounded.tenant_bound };
  all_wait = λ j other found live apart.
      ground (arith, lookup-insert j i job s.active_streams, v.all_wait j other, v.all_wait i old);
  runs = λ j. ground (arith, lookup-insert j i job s.active_streams, v.runs j, v.runs i);
}

module _ (s : FairStreamScheduler) (now : ℕ) (v : IsValid s)
    (idle : s.active_stream_id ≡ none) where
  start-Found :
      (i : String) (s' : FairStreamScheduler)
      → Found s i s'
      → Returns (λ _ s''. IsValid s'') (start now (ok (some i), s'))
  unfolding queued_total
  start-Found i s' (o, k, r) =
      rw (r.here, start)
        (record {
          ordered = record { placed = o.placed; in_set = o.in_set };
          bounded = record {
            total_bound = k.bounded.total_bound;
            tenant_bound = k.bounded.tenant_bound;
          };
          all_wait = λ j other found live apart. ground (
            arith,
            lookup-insert j i (record r.job { state = running; started_at = some now })
                s'.active_streams,
            k.all_wait j other,
          );
          runs = λ j. ground (
            arith,
            lookup-insert j i (record r.job { state = running; started_at = some now })
                s'.active_streams,
            v.runs j,
          );
        })

  start-Returns :
      (r : Result (Option String) × FairStreamScheduler)
      → Pops (Missed s) (Found s) r
      → Returns (λ _ s'. IsValid s') (start now r)
  start-Returns (ok none, s') (o, k) = record {
    ordered = o;
    bounded = k.bounded;
    all_wait = k.all_wait;
    runs = λ j. ground (arith, v.runs j);
  }
  start-Returns (ok (some i), s') p = start-Found i s' p
  start-Returns (raise e, s') p = absurd p

-- Trying to start a stream keeps the invariant, and raises nothing.
pub try_activate_next-IsValid :
    (now : ℕ) (s : FairStreamScheduler)
    → IsValid s
    → Returns (λ _ s'. IsValid s') (try_activate_next now s)
unfolding try_activate_next
try_activate_next-IsValid now s v = elim (Option-cases s.active_stream_id) [
  | inl idle ↦
      rw (idle, try_activate_next)
        (start-Returns s now v idle _ (pop_next-Kept s v.ordered v.bounded v.all_wait))
  | inr (i, busy) ↦ rw (busy, try_activate_next) v
]

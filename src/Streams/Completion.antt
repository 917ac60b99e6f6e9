-- ===== src/Streams/Completion.antt =====
-- `mark_stream_done`: the end of a stream.
use nano_qwen3tts_vllm.Common.{
  ℕ, ◌≡◌, ◌≢◌, inl, inr, String, false, Option, none, some, arith, string_eq, option_eq, ◌==◌,
  Option-cases, Bool-cases,
}
use nano_qwen3tts_vllm.Common.Dict.{lookup-insert}
use nano_qwen3tts_vllm.Streams.State.{
  JobState, finished, cancelled, failed, Job, FairStreamScheduler, queued_total, job_of, put_job,
  is_queued,
}
use nano_qwen3tts_vllm.Streams.Calls.{done_job, close_job, mark_stream_done}
use nano_qwen3tts_vllm.Streams.Keeping.{AllWait}
use nano_qwen3tts_vllm.Streams.Validity.{IsValid, is_running, Returns, try_activate_next-IsValid}

-- The states that `final_state` may name.
pub data IsFinal : JobState → Type 0 where
  finished_final : IsFinal finished
  cancelled_final : IsFinal cancelled
  failed_final : IsFinal failed

module _ (s : FairStreamScheduler) (i : String) (job : Job)
    (over : (is_running (some job) ≡ false) × (is_queued job ≡ false)) where
  pub ended_waits : AllWait (some i) s → AllWait none (put_job s i job)
  ended_waits w j other here live apart =
      ground (arith, lookup-insert j i job s.active_streams, w j other)

  pub ended_runs :
      (active : Option String)
      → ((j : String) → j ≢ i → is_running (job_of s j) ≡ (active == some j))
      → active ≢ some i
      → (j : String) → is_running (job_of (put_job s i job) j) ≡ (active == some j)
  ended_runs active r free j = ground (arith, lookup-insert j i job s.active_streams, r j)

done_job_over :
    (final_state : JobState) (error : Option String) (now : ℕ) (job : Job)
    → IsFinal final_state
    → (is_running (some (done_job final_state error now job)) ≡ false)
      × (is_queued (done_job final_state error now job) ≡ false)
done_job_over final_state error now job finished_final = ground arith
done_job_over final_state error now job cancelled_final = ground arith
done_job_over final_state error now job failed_final = ground arith

pub AllWait-skip : (s : FairStreamScheduler) (i : String) → AllWait none s → AllWait (some i) s
AllWait-skip s i w j job here live apart = w j job here live (λ e. cc)

-- The end of a stream: its job is over, and if it held the running place, that is free.
pub close_job-IsValid :
    (i : String) (final_state : JobState) (error : Option String) (now : ℕ)
    (s : FairStreamScheduler)
    → IsFinal final_state
    → IsValid s
    → IsValid (close_job i final_state error now s)
unfolding close_job queued_total
close_job-IsValid i final_state error now s final v = elim (Option-cases (job_of s i)) [
  | inl gone ↦ ground (arith, v.runs i)
  | inr (job, here) ↦
      let job' = done_job final_state error now job in
      let over = done_job_over final_state error now job final in
      let waits = ended_waits s i job' over (AllWait-skip s i v.all_wait) in
      elim (Bool-cases (s.active_stream_id == some i)) [
        | inl active ↦
            rw (active, here)
              (record {
                ordered = record { placed = v.ordered.placed; in_set = v.ordered.in_set };
                bounded = record {
                  total_bound = v.bounded.total_bound;
                  tenant_bound = v.bounded.tenant_bound;
                };
                all_wait = waits;
                runs =
                    ended_runs s i job' over none (λ j apart. ground (arith, v.runs j)) (λ e. cc);
              })
        | inr other ↦
            rw (other, here)
              (record {
                ordered = record { placed = v.ordered.placed; in_set = v.ordered.in_set };
                bounded = record {
                  total_bound = v.bounded.total_bound;
                  tenant_bound = v.bounded.tenant_bound;
                };
                all_wait = waits;
                runs =
                    ended_runs s i job' over s.active_stream_id (λ j apart. v.runs j)
                      (λ e. ground arith);
              })
      ]
]

-- `mark_stream_done` keeps the invariant and raises nothing.
pub mark_stream_done-IsValid :
    (i : String) (final_state : JobState) (error : Option String) (now : ℕ)
    (s : FairStreamScheduler)
    → IsFinal final_state
    → IsValid s
    → Returns (λ _ s'. IsValid s') (mark_stream_done i final_state error now s)
unfolding mark_stream_done
mark_stream_done-IsValid i final_state error now s final v =
    try_activate_next-IsValid now _ (close_job-IsValid i final_state error now s final v)

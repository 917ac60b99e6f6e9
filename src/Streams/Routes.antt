-- ===== src/Streams/Routes.antt =====
-- The part of nano_qwen3tts_vllm/stream_routes.py that drives the scheduler: the end of a stream's
-- generator (lines 310-322) and the route `stream_tts` behind its wait (lines 439-463).
use nano_qwen3tts_vllm.Common.{
  ℕ, refl, inl, inr, String, Bool, true, false, Option, none, some, if◌then◌else◌, Option-cases,
  Bool-cases,
}
use nano_qwen3tts_vllm.Streams.State.{
  JobState, finished, cancelled, failed, RequestData, FairStreamScheduler, Result, ok, raise, http,
  key_error, job_of, put_job,
}
use nano_qwen3tts_vllm.Streams.Calls.{mark_stream_done}
use nano_qwen3tts_vllm.Streams.Validity.{IsValid, Returns, put_job-IsValid}
use nano_qwen3tts_vllm.Streams.Completion.{
  IsFinal, finished_final, cancelled_final, failed_final, mark_stream_done-IsValid,
}

-- Whether the generator's body raised, and with which text.
pub data Ending : Type 0 where
  completed : Ending
  raised : String → Ending

-- Lines 310-317: the final state and the error of a generator.
unfoldable pub final_state_of : Ending → RequestData → JobState
final_state_of (raised error) d = failed
final_state_of completed d = elim d.cancel_event [ some true ↦ cancelled | _ ↦ finished ]

abbrev pub final_error_of : Ending → Option String
final_error_of completed = none
final_error_of (raised error) = some error

-- The `finally` block of `audio_stream_generator_async`.
unfoldable pub end_generator :
    String
    → RequestData
    → Ending
    → ℕ
    → FairStreamScheduler
    → Result (Option String) × FairStreamScheduler
end_generator stream_id d ending now s =
    mark_stream_done stream_id (final_state_of ending d) (final_error_of ending) now s

-- Lines 460-463: a stream is consumed once. The job is the one that the wait returned.
unfoldable pub open_stream : String → FairStreamScheduler → Result (Unit {0}) × FairStreamScheduler
open_stream stream_id s = elim (job_of s stream_id) [
  | none ↦ (raise key_error, s)
  | some job ↦
      if job.stream_opened
      then (raise (http 409), s)
      else (ok tt, put_job s stream_id (record job { stream_opened = true }))
]

-- What `switch_model_if_needed` does: it returns, or raises an `HTTPException` or another error.
pub data Switch : Type 0 where
  switched : Switch
  http_failure : ℕ → String → Switch
  other_failure : String → Switch

abbrev pub fail_with :
    ℕ → Result (Option String) × FairStreamScheduler → Result (Unit {0}) × FairStreamScheduler
fail_with code (ok _, s) = (raise (http code), s)
fail_with code (raise e, s) = (raise e, s)

-- Lines 442-463 of `stream_tts`.
unfoldable pub stream_tts :
    String → Switch → ℕ → FairStreamScheduler → Result (Unit {0}) × FairStreamScheduler
unfolding open_stream
stream_tts stream_id switched now s = open_stream stream_id s
stream_tts stream_id (http_failure code detail) now s =
    fail_with code (mark_stream_done stream_id failed (some detail) now s)
stream_tts stream_id (other_failure error) now s =
    fail_with 500 (mark_stream_done stream_id failed (some error) now s)

final_state_of-IsFinal : (ending : Ending) (d : RequestData) → IsFinal (final_state_of ending d)
unfolding final_state_of
final_state_of-IsFinal (raised error) d = failed_final
final_state_of-IsFinal completed d = by_flag d.cancel_event
  where
    by_flag : (flag : Option Bool) → IsFinal (elim flag [ some true ↦ cancelled | _ ↦ finished ])
    by_flag none = finished_final
    by_flag (some true) = cancelled_final
    by_flag (some false) = finished_final

pub end_generator-IsValid :
    (i : String) (d : RequestData) (ending : Ending) (now : ℕ) (s : FairStreamScheduler)
    → IsValid s
    → Returns (λ _ s'. IsValid s') (end_generator i d ending now s)
unfolding end_generator
end_generator-IsValid i d ending now s =
    mark_stream_done-IsValid i _ _ now s (final_state_of-IsFinal ending d)

fail_with-IsValid :
    (code : ℕ) (r : Result (Option String) × FairStreamScheduler)
    → Returns (λ _ s'. IsValid s') r
    → IsValid (fail_with code r).1
fail_with-IsValid code (ok _, s) v = v
fail_with-IsValid code (raise e, s) v = absurd v

pub stream_tts-IsValid :
    (i : String) (switch : Switch) (now : ℕ) (s : FairStreamScheduler)
    → IsValid s
    → IsValid (stream_tts i switch now s).1
unfolding stream_tts
stream_tts-IsValid i switched now s v = elim (Option-cases (job_of s i)) [
  | inl gone ↦ rw (gone, open_stream) v
  | inr (job, here) ↦ elim (Bool-cases job.stream_opened) [
    | inl opened ↦ rw (here, open_stream) (rw opened v)
    | inr unopened ↦
        rw (here, open_stream)
          (rw unopened
            (put_job-IsValid s i job (record job { stream_opened = true }) here refl refl v))
  ]
]
stream_tts-IsValid i (http_failure code detail) now s v =
    fail_with-IsValid code _ (mark_stream_done-IsValid i failed _ now s failed_final v)
stream_tts-IsValid i (other_failure error) now s v =
    fail_with-IsValid 500 _ (mark_stream_done-IsValid i failed _ now s failed_final v)

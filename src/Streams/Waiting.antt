-- ===== src/Streams/Waiting.antt =====
-- The rounds of `wait_until_stream_can_run`.
use nano_qwen3tts_vllm.Common.{
  ℕ, ◌≡◌, ◌≢◌, ◌≤◌, ◌<◌, refl, ◌⊎◌, inl, inr, String, true, Option, none, some, leb, arith,
  string_eq, option_eq, ◌==◌, Option-cases, Bool-cases,
}
use nano_qwen3tts_vllm.Streams.State.{
  JobState, queued, running, finished, cancelled, failed, Job, FairStreamScheduler, Result, ok,
  raise, http, job_of, is_queued,
}
use nano_qwen3tts_vllm.Streams.Turns.{try_activate_next}
use nano_qwen3tts_vllm.Streams.Calls.{
  running_job, not_yet, wait_begin, wait_checked, wait_activate, wait_in, wait_round,
}
use nano_qwen3tts_vllm.Streams.Validity.{
  IsValid, Returns, put_job-IsValid, try_activate_next-IsValid,
}

-- What a round leaves after it has tried to start a stream.
abbrev pub Tried : ℕ → FairStreamScheduler → FairStreamScheduler → Type 0
Tried now s s' = (e : Option String) × (try_activate_next now s ≡ (ok e, s'))

-- The stream `i` may still run: it is queued, or runs without being the active one.
abbrev pub MayRun : String → FairStreamScheduler → Type 0
MayRun i s = (job : Job) × (job_of s i ≡ some job) × ((job.state ≡ queued) ⊎ (job.state ≡ running))

-- The outcomes of a round of `wait_until_stream_can_run` for the stream `i` in the state `s`. It returns
-- only the job that runs. It tries to start a stream first, and where another one or none is active
-- then, it waits on before the deadline and raises 408 from then on. It changes nothing where the stream
-- is unknown or over, and raises what tells why. The invariant holds on every branch.
pub data Waits (i : String) (now : ℕ) (deadline : Option ℕ) (s : FairStreamScheduler)
    : Result (Option Job) × FairStreamScheduler → Type 0 where
  runs_now :
      {s' : FairStreamScheduler} (job : Job)
      → IsValid s'
      → job_of s' i ≡ some job
      → job.state ≡ running
      → s'.active_stream_id ≡ some i
      → MayRun i s
      → (s' ≡ s) ⊎ Tried now s s'
      → Waits i now deadline s (ok (some job), s')
  waits_on :
      {s' : FairStreamScheduler}
      → IsValid s'
      → MayRun i s
      → Tried now s s'
      → s'.active_stream_id ≢ some i
      → ((end : ℕ) → deadline ≡ some end → now < end)
      → Waits i now deadline s (ok none, s')
  timed_out :
      {s' : FairStreamScheduler} (end : ℕ)
      → IsValid s'
      → MayRun i s
      → Tried now s s'
      → s'.active_stream_id ≢ some i
      → deadline ≡ some end
      → end ≤ now
      → Waits i now deadline s (raise (http 408), s')
  unknown : IsValid s → job_of s i ≡ none → Waits i now deadline s (raise (http 404), s)
  over :
      (code : ℕ) (job : Job)
      → IsValid s
      → job_of s i ≡ some job
      → ((job.state ≡ cancelled) × (code ≡ 409))
        ⊎ ((job.state ≡ failed) × (code ≡ 500))
        ⊎ ((job.state ≡ finished) × (code ≡ 410))
      → Waits i now deadline s (raise (http code), s)

running_job_cases :
    (s : FairStreamScheduler) (i : String) (job : Job)
    → running_job s i ≡ some job
    → (job_of s i ≡ some job) × (job.state ≡ running) × (s.active_stream_id ≡ some i)
unfolding running_job
running_job_cases s i job e = ground arith

-- In a valid state the active stream is one that runs.
running_job-none :
    (s : FairStreamScheduler) (i : String)
    → IsValid s
    → running_job s i ≡ none
    → s.active_stream_id ≢ some i
unfolding running_job
running_job-none s i v e active = ground (arith, v.runs i, e, active)

module _ (i : String) (now : ℕ) (deadline : Option ℕ) (s : FairStreamScheduler)
    (may : MayRun i s) where
  not_yet-Waits :
      (s' : FairStreamScheduler) (d : Option ℕ)
      → deadline ≡ d
      → IsValid s'
      → Tried now s s'
      → s'.active_stream_id ≢ some i
      → Waits i now deadline s (not_yet now s' d)
  not_yet-Waits s' none e v tried other =
      waits_on v may tried other (λ end e'. absurd (ground arith))
  not_yet-Waits s' (some end) e v tried other = elim (Bool-cases (leb end now)) [
    | inl late ↦ rw late (timed_out end v may tried other e (ground arith))
    | inr early ↦ rw early (waits_on v may tried other (λ end' e'. ground arith))
  ]

  wait_checked-Waits :
      (r : Result (Option String) × FairStreamScheduler)
      → try_activate_next now s ≡ r
      → Returns (λ _ s'. IsValid s') r
      → Waits i now deadline s (wait_checked i now deadline r)
  wait_checked-Waits (raise e, s') tried v = absurd v
  wait_checked-Waits (ok a, s') tried v = elim (Option-cases (running_job s' i)) [
    | inl waiting ↦
        rw (waiting, wait_checked)
          (not_yet-Waits s' deadline refl v (a, tried) (running_job-none s' i v waiting))
    | inr (job, e) ↦
        let (here, state, active) = running_job_cases s' i job e in
        rw (e, wait_checked) (runs_now job v here state active may (inr (a, tried)))
  ]

-- In a valid state each outcome of a round is one of those above, at which the invariant holds.
pub wait_round-Waits :
    (i : String) (now : ℕ) (deadline : Option ℕ) (s : FairStreamScheduler)
    → IsValid s
    → Waits i now deadline s (wait_round i now deadline s)
unfolding wait_round
wait_round-Waits i now deadline s v = elim (Option-cases (job_of s i)) [
  | inl gone ↦ rw (gone, wait_round) (unknown v gone)
  | inr (job, here) ↦ rw (here, wait_round) (by_state job job.state here refl)
]
  where
    activate : MayRun i s → Waits i now deadline s (wait_activate i now deadline s)
    activate may =
        wait_checked-Waits i now deadline s may _ refl (try_activate_next-IsValid now s v)

    by_state :
        (job : Job) (state : JobState)
        → job_of s i ≡ some job
        → job.state ≡ state
        → Waits i now deadline s (wait_in i now deadline s job state)
    by_state job queued here e = activate (job, here, inl e)
    by_state job running here e = elim (Bool-cases (s.active_stream_id == some i)) [
      | inl active ↦ rw active (runs_now job v here e (ground arith) (job, here, inr e) (inl refl))
      | inr other ↦ rw other (activate (job, here, inr e))
    ]
    by_state job finished here e = over 410 job v here (inr (inr (e, refl)))
    by_state job cancelled here e = over 409 job v here (inl (e, refl))
    by_state job failed here e = over 500 job v here (inr (inl (e, refl)))

-- The call's first half: an unknown stream is refused, and a queued one is marked as asked for.
pub wait_begin-IsValid :
    (i : String) (now : ℕ) (s : FairStreamScheduler) → IsValid s → IsValid (wait_begin i now s).1
unfolding wait_begin
wait_begin-IsValid i now s v = elim (Option-cases (job_of s i)) [
  | inl gone ↦ rw (gone, wait_begin) v
  | inr (job, here) ↦ elim (Bool-cases (is_queued job)) [
    | inl waits ↦
        rw (here, wait_begin)
          (rw waits
            (put_job-IsValid s i job (record job { stream_requested = true }) here refl refl v))
    | inr other ↦ rw (here, wait_begin) (rw other v)
  ]
]

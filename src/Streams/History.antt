-- ===== src/Streams/History.antt =====
-- Every interleaving of the calls as a sequence of steps.
use nano_qwen3tts_vllm.Common.{
  ℕ, ◌≡◌, sym, ◌∙◌, String, Bool, true, false, Option, none, some, arith, string_eq, option_eq,
}
use mathlib.Core.Option.{some-injective}
use nano_qwen3tts_vllm.Streams.State.{
  running, RequestData, Job, FairStreamScheduler, Result, ok, raise, init, job_of,
}
use nano_qwen3tts_vllm.Streams.Calls.{enqueue, wait_begin, wait_round, wait_resume}
use nano_qwen3tts_vllm.Streams.Calls.Cancel.{cancel}
use nano_qwen3tts_vllm.Streams.Routes.{
  Ending, Switch, end_generator, stream_tts, end_generator-IsValid, stream_tts-IsValid,
}
use nano_qwen3tts_vllm.Streams.Validity.{IsValid, Returns, init-IsValid}
use nano_qwen3tts_vllm.Streams.Admission.{enqueue-IsValid}
use nano_qwen3tts_vllm.Streams.Cancelling.{cancel-IsValid}
use nano_qwen3tts_vllm.Streams.Waiting.{
  Waits, runs_now, waits_on, timed_out, unknown, over, wait_round-Waits, wait_begin-IsValid,
}

-- One critical section. A new stream has a new id; every other argument is free.
pub data Step (lower : String → String) (s : FairStreamScheduler)
    : FairStreamScheduler → Type 0 where
  enqueues :
      (i : String) (d : RequestData) (tenant_id channel_name : String) (now : ℕ)
      → job_of s i ≡ none
      → Step lower s (enqueue lower i d tenant_id channel_name now s).1
  begins : (i : String) (now : ℕ) → Step lower s (wait_begin i now s).1
  polls :
      (i : String) (now : ℕ) (deadline : Option ℕ) → Step lower s (wait_round i now deadline s).1
  resumes :
      (late : Bool) (i : String) (now : ℕ) (deadline : Option ℕ)
      → Step lower s (wait_resume late i now deadline s).1
  opens : (i : String) (switch : Switch) (now : ℕ) → Step lower s (stream_tts i switch now s).1
  ends :
      (i : String) (d : RequestData) (ending : Ending) (now : ℕ)
      → Step lower s (end_generator i d ending now s).1
  cancels : (i : String) (now : ℕ) → Step lower s (cancel i now s).1

pub data Reach (lower : String → String) (s : FairStreamScheduler)
    : FairStreamScheduler → Type 0 where
  initial : Reach lower s s
  next : {t u : FairStreamScheduler} → Reach lower s t → Step lower t u → Reach lower s u

Returns-IsValid :
    {A : Type 0} (r : Result A × FairStreamScheduler) → Returns (λ _ s'. IsValid s') r → IsValid r.1
Returns-IsValid (ok a, s) v = v
Returns-IsValid (raise e, s) v = absurd v

Waits-IsValid :
    {i : String} {now : ℕ} {deadline : Option ℕ} {s : FairStreamScheduler}
    {r : Result (Option Job) × FairStreamScheduler}
    → Waits i now deadline s r
    → IsValid r.1
Waits-IsValid (runs_now job v here state active may how) = v
Waits-IsValid (waits_on v may tried other early) = v
Waits-IsValid (timed_out end v may tried other e late) = v
Waits-IsValid (unknown v gone) = v
Waits-IsValid (over code job v here why) = v

resume-IsValid :
    (late : Bool) (i : String) (now : ℕ) (deadline : Option ℕ) (s : FairStreamScheduler)
    → IsValid s
    → IsValid (wait_resume late i now deadline s).1
unfolding wait_resume
resume-IsValid true i now deadline s v = v
resume-IsValid false i now deadline s v = Waits-IsValid (wait_round-Waits i now deadline s v)

-- Every call of the scheduler and its routes keeps the invariant, whatever it returns or raises.
pub Step-IsValid :
    (lower : String → String) (s t : FairStreamScheduler) → Step lower s t → IsValid s → IsValid t
Step-IsValid lower s t (enqueues i d tenant_id channel_name now fresh) v =
    enqueue-IsValid lower i d tenant_id channel_name now s fresh v
Step-IsValid lower s t (begins i now) v = wait_begin-IsValid i now s v
Step-IsValid lower s t (polls i now deadline) v =
    Waits-IsValid (wait_round-Waits i now deadline s v)
Step-IsValid lower s t (resumes late i now deadline) v = resume-IsValid late i now deadline s v
Step-IsValid lower s t (opens i switch now) v = stream_tts-IsValid i switch now s v
Step-IsValid lower s t (ends i d ending now) v =
    Returns-IsValid _ (end_generator-IsValid i d ending now s v)
Step-IsValid lower s t (cancels i now) v = Returns-IsValid _ (cancel-IsValid i now s v)

Reach-IsValid :
    (lower : String → String) (s t : FairStreamScheduler) → IsValid s → Reach lower s t → IsValid t
Reach-IsValid lower s t v initial = v
Reach-IsValid lower s t v (next {t = u} r step) =
    Step-IsValid lower u t step (Reach-IsValid lower s u v r)

-- After any history of calls on a new scheduler the invariant holds.
pub Reach-init-IsValid :
    (lower : String → String) (per_tenant limit timeout : ℕ) (s : FairStreamScheduler)
    → Reach lower (init per_tenant limit timeout) s
    → IsValid s
Reach-init-IsValid lower per_tenant limit timeout s =
    Reach-IsValid lower _ s (init-IsValid per_tenant limit timeout)

running_active :
    (s : FairStreamScheduler) (i : String) (job : Job)
    → IsValid s
    → job_of s i ≡ some job
    → job.state ≡ running
    → s.active_stream_id ≡ some i
running_active s i job v found state = ground (arith, v.runs i)

-- Mutual exclusion on the model: after any history at most one stream runs.
pub running_once :
    (lower : String → String) (per_tenant limit timeout : ℕ) (s : FairStreamScheduler)
    (i j : String) (job other : Job)
    → Reach lower (init per_tenant limit timeout) s
    → job_of s i ≡ some job
    → job.state ≡ running
    → job_of s j ≡ some other
    → other.state ≡ running
    → i ≡ j
running_once lower per_tenant limit timeout s i j job other r fi ri fj rj =
    let v = Reach-init-IsValid lower per_tenant limit timeout s r in
    some-injective i j (sym (running_active s i job v fi ri) ∙ running_active s j other v fj rj)

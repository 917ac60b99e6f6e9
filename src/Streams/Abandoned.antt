-- ===== src/Streams/Abandoned.antt =====
-- A client that gives up: `wait_until_stream_can_run` raises 408 and leaves its job in the queue.
use nano_qwen3tts_vllm.Common.{
  ℕ, ◌≡◌, ◌≢◌, refl, ◌∙◌, leb, String, true, false, List, [], ◌∷◌, Option, none, some, arith,
  string_eq, option_eq, ◌==◌, inl, inr, Option-cases, Bool-cases,
}
use nano_qwen3tts_vllm.Common.Dict.{lookup-insert}
use nano_qwen3tts_vllm.Streams.State.{
  JobState, running, cancelled, failed, finished, queued, Job, FairStreamScheduler, Result, ok,
  raise, http, job_of,
}
use nano_qwen3tts_vllm.Streams.Turns.{start, try_activate_next}
use nano_qwen3tts_vllm.Streams.Calls.{
  done_job, close_job, mark_stream_done, running_job, not_yet, wait_checked, wait_activate, wait_in,
  wait_round, wait_resume,
}
use nano_qwen3tts_vllm.Streams.Rule.{Pops}
use nano_qwen3tts_vllm.Streams.Keeping.{Found, Missed, pop_next-Kept}
use nano_qwen3tts_vllm.Streams.Validity.{IsValid}
use nano_qwen3tts_vllm.Streams.Completion.{IsFinal, close_job-IsValid}
use nano_qwen3tts_vllm.Streams.Fairness.{IsUp, Serves, served, overtaken, pop_next-Serves}

start_active :
    (s : FairStreamScheduler) (now : ℕ) (t i : String) (rest : List String)
    (r : Result (Option String) × FairStreamScheduler)
    → Pops (Missed s) (Found s) r
    → Serves t i rest 0 r
    → (start now r).1.active_stream_id ≡ some i
start_active s now t i rest r p (served {s'}) = rw (p.2.here, start)
start_active s now t i rest r p (overtaken other before after e near up) = absurd (omega arith)

module _ (s : FairStreamScheduler) (j i t : String) (final_state : JobState) (error : Option String)
    (now : ℕ) (rest rr : List String) (v : IsValid s) (final : IsFinal final_state)
    (active : s.active_stream_id ≡ some j) (up : IsUp s t i rest) (front : s.tenant_rr ≡ t ∷ rr)
    (apart : i ≢ j) where
  abbrev closed : FairStreamScheduler
  closed = close_job j final_state error now s

  closed_rr :
      (closed.tenant_rr ≡ t ∷ rr)
      × (closed.active_stream_id ≡ none)
      × (closed.tenant_queues ≡ s.tenant_queues)
  unfolding close_job
  closed_rr = elim (Option-cases (job_of s j)) [
    | inl gone ↦ ground arith
    | inr (job, found) ↦ ground arith
  ]

  closed_job : job_of closed i ≡ job_of s i
  unfolding close_job
  closed_job = elim (Option-cases (job_of s j)) [
    | inl gone ↦ ground arith
    | inr (job, found) ↦
        ground (arith, lookup-insert i j (done_job final_state error now job) s.active_streams)
  ]

  closed-IsUp : IsUp closed t i rest
  closed-IsUp = record {
    job = up.job;
    queue = rw closed_rr.2 up.queue;
    here = closed_job ∙ up.here;
    waits = up.waits;
    asked = up.asked;
  }

  starts_abandoned : (mark_stream_done j final_state error now s).1.active_stream_id ≡ some i
  unfolding mark_stream_done try_activate_next
  starts_abandoned =
      let v' = close_job-IsValid j final_state error now s final v in
      rw (closed_rr.1, try_activate_next)
        (start_active closed now t i rest _ (pop_next-Kept closed v'.ordered v'.bounded v'.all_wait)
          (pop_next-Serves t i rest [] rr closed closed_rr.0 v'.ordered closed-IsUp))

-- In a valid state where `j` is active and the tenant in front has the requested stream `i` at its
-- head, a wait for `i` that times out raises 408, and the end of `j` then makes `i` the active one.
pub timed_out_stream_starts :
    (s : FairStreamScheduler) (j i t : String) (final_state : JobState) (error : Option String)
    (now later : ℕ) (deadline : Option ℕ) (rest rr : List String)
    → IsValid s
    → IsFinal final_state
    → s.active_stream_id ≡ some j
    → IsUp s t i rest
    → s.tenant_rr ≡ t ∷ rr
    → i ≢ j
    → ((wait_resume true i now deadline s).0 ≡ raise (http 408))
      × ((mark_stream_done j final_state error later
            (wait_resume true i now deadline s).1).1.active_stream_id
          ≡ some i)
unfolding wait_resume
timed_out_stream_starts s j i t final_state error now later deadline rest rr v final active up front
      apart =
    (refl, starts_abandoned s j i t final_state error later rest rr v final active up front apart)

module _ (s : FairStreamScheduler) (i k : String) (now : ℕ) (deadline : Option ℕ)
    (held : s.active_stream_id ≡ some i) (apart : k ≢ i) where
  Blocked : Result (Option Job) × FairStreamScheduler → Type 0
  Blocked r = (r.1 ≡ s) × ((job : Job) → r.0 ≢ ok (some job))

  not_running : running_job s k ≡ none
  unfolding running_job
  not_running = ground arith

  not_yet-Blocked : (end : Option ℕ) → Blocked (not_yet now s end)
  unfolding Blocked
  not_yet-Blocked none = (refl, λ job e. cc)
  not_yet-Blocked (some end) = elim (Bool-cases (leb end now)) [
    | inl late ↦ rw late (refl, λ job e. cc)
    | inr early ↦ rw early (refl, λ job e. cc)
  ]

  activate-Blocked : Blocked (wait_activate k now deadline s)
  unfolding wait_activate try_activate_next
  activate-Blocked =
      rw (held, try_activate_next) (rw (not_running, wait_checked) (not_yet-Blocked deadline))

  in-Blocked : (job : Job) (state : JobState) → Blocked (wait_in k now deadline s job state)
  unfolding Blocked
  in-Blocked job queued = activate-Blocked
  in-Blocked job running = rw other activate-Blocked
    where
      other : (s.active_stream_id == some k) ≡ false
      other = ground arith
  in-Blocked job finished = (refl, λ job e. cc)
  in-Blocked job cancelled = (refl, λ job e. cc)
  in-Blocked job failed = (refl, λ job e. cc)

  -- While the stream `i` is active, a round of another stream's wait leaves the state as it is and
  -- returns no job.
  pub wait_round_blocked :
      ((wait_round k now deadline s).1 ≡ s)
      × ((job : Job) → (wait_round k now deadline s).0 ≢ ok (some job))
  unfolding wait_round Blocked
  wait_round_blocked = elim (Option-cases (job_of s k)) [
    | inl gone ↦ rw (gone, wait_round) (refl, λ job e. cc)
    | inr (job, found) ↦ rw (found, wait_round) (in-Blocked job job.state)
  ]

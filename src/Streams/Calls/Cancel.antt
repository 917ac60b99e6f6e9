-- ===== src/Streams/Calls/Cancel.antt =====
-- The method `cancel` of `FairStreamScheduler`, nano_qwen3tts_vllm/stream_scheduler.py lines 240-273.
use nano_qwen3tts_vllm.Common.{
  ℕ, String, true, List, [], ◌∷◌, Option, none, some, remove, string_eq, option_eq,
}
use nano_qwen3tts_vllm.Common.Dict.{lookup}
use nano_qwen3tts_vllm.Streams.State.{
  JobState, queued, running, cancelled, RequestData, Job, FairStreamScheduler, Result, ok, raise,
  remove_tenant_from_rr, job_of, put_job, put_queue, pop_queue,
}
use nano_qwen3tts_vllm.Streams.Turns.{try_activate_next}

-- The answers of `cancel`.
pub data CancelReply : Type 0 where
  not_found queued_cancelled cancel_requested : CancelReply
  completed : JobState → CancelReply

-- `cancel_event.set()`, where the request has one.
abbrev pub set_event : RequestData → RequestData
set_event d = record d { cancel_event = elim d.cancel_event [ none ↦ none | some _ ↦ some true ] }

-- An empty queue leaves the order.
abbrev pub requeue : FairStreamScheduler → String → List String → FairStreamScheduler
requeue s tenant [] = remove_tenant_from_rr (pop_queue s tenant) tenant
requeue s tenant (first ∷ left) = put_queue s tenant (first ∷ left)

-- A queued stream leaves its tenant's queue.
unfoldable pub unqueue : String → String → FairStreamScheduler → FairStreamScheduler
unqueue stream_id tenant s = elim (lookup tenant s.tenant_queues) [
  | none ↦ s
  | some queue ↦ requeue s tenant (remove stream_id queue)
]

-- The state of a queued stream's cancellation before the next stream is tried.
unfoldable pub cancel_queued : String → Job → ℕ → FairStreamScheduler → FairStreamScheduler
unfolding unqueue
cancel_queued stream_id job now s =
    put_job (unqueue stream_id job.tenant_id s) stream_id
      (record job { state = cancelled; finished_at = some now })

abbrev pub reply_cancelled :
    Result (Option String) × FairStreamScheduler → Result CancelReply × FairStreamScheduler
reply_cancelled (raise e, s) = (raise e, s)
reply_cancelled (ok _, s) = (ok queued_cancelled, s)

-- Lines 251-273, by the state of the job.
abbrev pub cancel_in :
    String → Job → ℕ → FairStreamScheduler → JobState → Result CancelReply × FairStreamScheduler
cancel_in stream_id job now s queued =
    reply_cancelled (try_activate_next now (cancel_queued stream_id job now s))
cancel_in stream_id job now s running = (ok cancel_requested, s)
cancel_in stream_id job now s other = (ok (completed other), s)

unfoldable pub cancel : String → ℕ → FairStreamScheduler → Result CancelReply × FairStreamScheduler
cancel stream_id now s = elim (job_of s stream_id) [
  | none ↦ (ok not_found, s)
  | some old ↦
      let job = record old { request_data = set_event old.request_data } in
      cancel_in stream_id job now (put_job s stream_id job) old.state
]

-- ===== src/Streams/Calls.antt =====
-- The calls of stream_scheduler.py, lines 100-236, without `cancel`. Each holds `queue_condition` from end to end,
-- except `wait_until_stream_can_run`, which gives it up between its rounds.
pub mod Cancel
use nano_qwen3tts_vllm.Common.{
  ℕ, ◌+◌, String, Bool, true, false, List, [], ◌∷◌, ◌++◌, Option, none, some, length, leb, ltb,
  if◌then◌else◌, ◌==◌, contains, remove, is_empty, string_eq, option_eq,
}
use nano_qwen3tts_vllm.Common.Dict.{lookup}
use nano_qwen3tts_vllm.Streams.State.{
  JobState, queued, running, finished, cancelled, failed, RequestData, Job, FairStreamScheduler,
  Result, ok, raise, http, normalize_tenant_id, queued_total, remove_tenant_from_rr, job_of,
  put_job, put_queue, pop_queue, is_queued,
}
use nano_qwen3tts_vllm.Streams.Turns.{try_activate_next}

-- The dictionary that `enqueue` returns; its message is a constant.
pub record Receipt : Type 0 where
  pub stream_id : String
  pub tenant_id : String
  pub state : JobState
  pub tenant_queue_depth : ℕ
  pub global_queue_depth : ℕ

abbrev pub new_job : String → RequestData → ℕ → Job
new_job tenant request_data now = record {
  tenant_id = tenant;
  request_data = request_data;
  state = queued;
  stream_requested = false;
  stream_opened = false;
  error = none;
  created_at = now;
  started_at = none;
  finished_at = none;
}

-- The tenant's queue, which `enqueue` makes where there is none.
abbrev pub open_queue : FairStreamScheduler → String → FairStreamScheduler × List String
open_queue s tenant = elim (lookup tenant s.tenant_queues) [
  | none ↦ (put_queue s tenant [], [])
  | some queue ↦ (s, queue)
]

-- The tenant's place in the round-robin order.
abbrev pub join_rr : FairStreamScheduler → String → FairStreamScheduler
join_rr s tenant = if contains s.tenant_rr_set tenant then s else (record s {
  tenant_rr = s.tenant_rr ++ tenant ∷ [];
  tenant_rr_set = tenant ∷ s.tenant_rr_set;
})

-- The writes of an `enqueue` that is let in.
unfoldable pub admit :
    String → RequestData → String → ℕ → List String → FairStreamScheduler → FairStreamScheduler
admit stream_id request_data tenant now queue s =
    join_rr
      (put_queue (put_job s stream_id (new_job tenant request_data now)) tenant
        (queue ++ stream_id ∷ []))
      tenant

-- Lines 122-154, at the tenant's queue.
abbrev pub enqueue_in :
    String
    → RequestData
    → String
    → ℕ
    → FairStreamScheduler × List String
    → Result Receipt × FairStreamScheduler
enqueue_in stream_id request_data tenant now (s, queue) =
    if leb s.max_queue_per_tenant (length queue)
    then (raise (http 429), s)
    else (let after = admit stream_id request_data tenant now queue s in
        (
          ok (record {
            stream_id = stream_id;
            tenant_id = tenant;
            state = queued;
            tenant_queue_depth = length queue + 1;
            global_queue_depth = queued_total after;
          }),
          after,
        ))

unfoldable pub enqueue :
    (String → String)
    → String
    → RequestData
    → String
    → String
    → ℕ
    → FairStreamScheduler
    → Result Receipt × FairStreamScheduler
enqueue lower stream_id request_data tenant_id channel_name now s =
    let tenant = normalize_tenant_id lower tenant_id channel_name in
    if leb s.max_total_queued (queued_total s)
    then (raise (http 429), s)
    else enqueue_in stream_id request_data tenant now (open_queue s tenant)

-- `wait_until_stream_can_run` up to its loop: the deadline, and the request that is noted.
unfoldable pub wait_begin :
    String → ℕ → FairStreamScheduler → Result (Option ℕ) × FairStreamScheduler
wait_begin stream_id now s = elim (job_of s stream_id) [
  | none ↦ (raise (http 404), s)
  | some job ↦ (
    ok (if ltb 0 s.stream_wait_timeout then some (now + s.stream_wait_timeout) else none),
    if is_queued job then put_job s stream_id (record job { stream_requested = true }) else s,
  )
]

-- The job of a stream, if it is the one that runs.
unfoldable pub running_job : FairStreamScheduler → String → Option Job
running_job s stream_id = elim (job_of s stream_id) [
  | none ↦ none
  | some job ↦ elim job.state [
    | running ↦ if s.active_stream_id == some stream_id then some job else none
    | _ ↦ none
  ]
]

-- Lines 187-191: no more waiting at the deadline.
abbrev pub not_yet : ℕ → FairStreamScheduler → Option ℕ → Result (Option Job) × FairStreamScheduler
not_yet now s none = (ok none, s)
not_yet now s (some end) = if leb end now then (raise (http 408), s) else (ok none, s)

-- Lines 184-191: return if the stream runs by now, and give up at the deadline.
abbrev pub wait_checked :
    String
    → ℕ
    → Option ℕ
    → Result (Option String) × FairStreamScheduler
    → Result (Option Job) × FairStreamScheduler
wait_checked stream_id now deadline (raise e, s) = (raise e, s)
wait_checked stream_id now deadline (ok _, s) = elim (running_job s stream_id) [
  | some job ↦ (ok (some job), s)
  | none ↦ not_yet now s deadline
]

-- The second half of a round: try to start a stream, and look whether it is this one.
unfoldable pub wait_activate :
    String → ℕ → Option ℕ → FairStreamScheduler → Result (Option Job) × FairStreamScheduler
wait_activate stream_id now deadline s =
    wait_checked stream_id now deadline (try_activate_next now s)

-- Lines 173-191, by the state of the job.
abbrev pub wait_in :
    String
    → ℕ
    → Option ℕ
    → FairStreamScheduler
    → Job
    → JobState
    → Result (Option Job) × FairStreamScheduler
wait_in stream_id now deadline s job running =
    if s.active_stream_id == some stream_id
    then (ok (some job), s)
    else wait_activate stream_id now deadline s
wait_in stream_id now deadline s job cancelled = (raise (http 409), s)
wait_in stream_id now deadline s job failed = (raise (http 500), s)
wait_in stream_id now deadline s job finished = (raise (http 410), s)
wait_in stream_id now deadline s job queued = wait_activate stream_id now deadline s

-- One round of the loop: `ok (some job)` returns, and `ok none` waits on the condition.
unfoldable pub wait_round :
    String → ℕ → Option ℕ → FairStreamScheduler → Result (Option Job) × FairStreamScheduler
unfolding wait_activate running_job
wait_round stream_id now deadline s = elim (job_of s stream_id) [
  | none ↦ (raise (http 404), s)
  | some job ↦ wait_in stream_id now deadline s job job.state
]

-- What follows the wait: the timeout of `asyncio.wait_for`, or one more round.
unfoldable pub wait_resume :
    Bool → String → ℕ → Option ℕ → FairStreamScheduler → Result (Option Job) × FairStreamScheduler
unfolding wait_round
wait_resume timed_out stream_id now deadline s =
    if timed_out then (raise (http 408), s) else wait_round stream_id now deadline s

-- `job["error"] = error`, if the text is not empty.
abbrev pub note_error : Option String → Option String → Option String
note_error none old = old
note_error (some error) old = if is_empty error then old else some error

-- The job after `mark_stream_done`.
abbrev pub done_job : JobState → Option String → ℕ → Job → Job
done_job final_state error now job = record job {
  state = elim job.state [ cancelled ↦ cancelled | failed ↦ failed | _ ↦ final_state ];
  finished_at = some now;
  error = note_error error job.error;
}

-- The job's last writes and the release of the one running place.
unfoldable pub close_job :
    String → JobState → Option String → ℕ → FairStreamScheduler → FairStreamScheduler
close_job stream_id final_state error now s =
    let marked : FairStreamScheduler = elim (job_of s stream_id) [
      | none ↦ s
      | some job ↦ put_job s stream_id (done_job final_state error now job)
    ] in
    if s.active_stream_id == some stream_id
    then (record marked { active_stream_id = none })
    else marked

unfoldable pub mark_stream_done :
    String
    → JobState
    → Option String
    → ℕ
    → FairStreamScheduler
    → Result (Option String) × FairStreamScheduler
unfolding close_job
mark_stream_done stream_id final_state error now s =
    try_activate_next now (close_job stream_id final_state error now s)

-- The dictionary that `status` returns; the remaining entries are those of the job.
pub record Status : Type 0 where
  pub job : Job
  pub active : Option String
  pub tenant_queue_depth : ℕ
  pub global_queue_depth : ℕ

abbrev queue_depth : FairStreamScheduler → String → ℕ
queue_depth s tenant = elim (lookup tenant s.tenant_queues) [ none ↦ 0 | some queue ↦ length queue ]

unfoldable pub status : String → FairStreamScheduler → Result Status
status stream_id s = elim (job_of s stream_id) [
  | none ↦ raise (http 404)
  | some job ↦ ok (record {
    job = job;
    active = s.active_stream_id;
    tenant_queue_depth = queue_depth s job.tenant_id;
    global_queue_depth = queued_total s;
  })
]

-- ===== src/Streams/Turns.antt =====
-- Choosing the next stream, stream_scheduler.py lines 49-98.
use nano_qwen3tts_vllm.Common.{
  ℕ, zero, suc, String, List, [], ◌∷◌, ◌++◌, Option, none, some, length, if◌then◌else◌, string_eq,
}
use nano_qwen3tts_vllm.Common.Dict.{Dict, lookup}
use nano_qwen3tts_vllm.Streams.State.{
  running, Job, FairStreamScheduler, Result, ok, raise, index_error, key_error,
  remove_tenant_from_rr, job_of, put_job, put_queue, pop_queue, is_queued,
}

-- The `while` loop of `_prune_tenant_head_locked`: the queue without the stale streams at its
-- head, and the first job that is still queued.
unfoldable pub prune_queue : Dict String Job → List String → List String × Option Job
prune_queue jobs [] = ([], none)
prune_queue jobs (stream_id ∷ rest) =
    let pruned = prune_queue jobs rest in
    elim (lookup stream_id jobs) [
      | none ↦ pruned
      | some job ↦ if is_queued job then (stream_id ∷ rest, some job) else pruned
    ]

-- What the loop leaves is written back, and a tenant with nothing left gives up its place.
abbrev pub settle :
    FairStreamScheduler → String → List String × Option Job → FairStreamScheduler × Option Job
settle s tenant (left, none) = (remove_tenant_from_rr (pop_queue s tenant) tenant, none)
settle s tenant (left, some job) = (put_queue s tenant left, some job)

-- `_prune_tenant_head_locked`
unfoldable pub prune_tenant_head : FairStreamScheduler → String → FairStreamScheduler × Option Job
prune_tenant_head s tenant = elim (lookup tenant s.tenant_queues) [
  | none ↦ (s, none)
  | some queue ↦ settle s tenant (prune_queue s.active_streams queue)
]

-- `self.tenant_rr.append(tenant_id)`
abbrev pub append_rr : FairStreamScheduler → String → FairStreamScheduler
append_rr s tenant = record s { tenant_rr = s.tenant_rr ++ tenant ∷ [] }

abbrev pub keep_place :
    String → String → FairStreamScheduler × Option Job → Result String × FairStreamScheduler
keep_place stream_id tenant (after, none) = (ok stream_id, after)
keep_place stream_id tenant (after, some _) = (ok stream_id, append_rr after tenant)

-- Lines 76-80: the head leaves the queue, and the tenant keeps its place if a stream is left.
unfoldable pub take_head : FairStreamScheduler → String → Result String × FairStreamScheduler
take_head s tenant = elim (lookup tenant s.tenant_queues) [
  | none ↦ (raise key_error, s)
  | some [] ↦ (raise index_error, s)
  | some (stream_id ∷ rest) ↦
      keep_place stream_id tenant (prune_tenant_head (put_queue s tenant rest) tenant)
]

abbrev pub found :
    Result String × FairStreamScheduler → Result (Option String) × FairStreamScheduler
found (ok stream_id, after) = (ok (some stream_id), after)
found (raise e, after) = (raise e, after)

-- Lines 69-80 at the pruned head of the tenant's queue, with the rest of the loop handed in.
abbrev pub turn_of :
    (FairStreamScheduler → Result (Option String) × FairStreamScheduler)
    → String
    → FairStreamScheduler × Option Job
    → Result (Option String) × FairStreamScheduler
turn_of continue tenant (pruned, none) = continue pruned
turn_of continue tenant (pruned, some job) =
    if job.stream_requested
    then found (take_head pruned tenant)
    else continue (append_rr pruned tenant)

-- One round of the `for` loop.
unfoldable pub turn :
    (FairStreamScheduler → Result (Option String) × FairStreamScheduler)
    → FairStreamScheduler
    → Result (Option String) × FairStreamScheduler
turn continue s = elim s.tenant_rr [
  | [] ↦ (raise index_error, s)
  | tenant ∷ rr ↦ turn_of continue tenant (prune_tenant_head (record s { tenant_rr = rr }) tenant)
]

-- The `for` loop of `_pop_next_ready_stream_locked`, by the rounds left.
unfoldable pub pop_rounds : ℕ → FairStreamScheduler → Result (Option String) × FairStreamScheduler
unfolding turn prune_tenant_head take_head prune_queue remove_tenant_from_rr
pop_rounds zero s = (ok none, s)
pop_rounds (suc n) s = turn (pop_rounds n) s

unfoldable pub pop_next_ready_stream :
    FairStreamScheduler → Result (Option String) × FairStreamScheduler
unfolding pop_rounds
pop_next_ready_stream s = pop_rounds (length s.tenant_rr) s

-- Lines 91-98 for the stream that was popped, if there is one.
abbrev pub start :
    ℕ → Result (Option String) × FairStreamScheduler → Result (Option String) × FairStreamScheduler
start now (raise e, s) = (raise e, s)
start now (ok none, s) = (ok none, s)
start now (ok (some stream_id), s) = elim (job_of s stream_id) [
  | none ↦ (ok none, s)
  | some job ↦ (
    ok (some stream_id),
    record (put_job s stream_id (record job { state = running; started_at = some now })) {
      active_stream_id = some stream_id;
    },
  )
]

-- `_try_activate_next_locked`, at the time `now`.
unfoldable pub try_activate_next :
    ℕ → FairStreamScheduler → Result (Option String) × FairStreamScheduler
unfolding pop_next_ready_stream
try_activate_next now s = elim s.active_stream_id [
  | some _ ↦ (ok none, s)
  | none ↦ start now (pop_next_ready_stream s)
]

-- ===== src/Streams/State.antt =====
-- The state of stream_scheduler.py: its jobs, queues and round-robin order (lines 10-47, 128-138).
use Prim.Native.String.{◌++◌ as append}
use nano_qwen3tts_vllm.Common.{
  ℤ, ℕ, String, Bool, true, false, List, [], Option, none, length, is_empty, strip, if◌then◌else◌,
  contains, remove, string_eq,
}
use nano_qwen3tts_vllm.Common.Dict.{Dict, lookup, insert, erase, total}

-- The `state` of a job. `finished`, `cancelled` and `failed` are the values of `final_state`.
pub data JobState : Type 0 where
  queued running finished cancelled failed : JobState

-- The dictionary `request_data`: the flag of its `cancel_event`, where it has one, and its other
-- entries, which the scheduler does not read.
pub record RequestData : Type 0 where
  pub cancel_event : Option Bool
  pub entries : List (String × String)
  pub temperature : Option ℤ
  pub ref_audio : Option ℕ
  pub ref_sr : Option ℕ

pub record Job : Type 0 where
  pub tenant_id : String
  pub request_data : RequestData
  pub state : JobState
  pub stream_requested : Bool
  pub stream_opened : Bool
  pub error : Option String
  pub created_at : ℕ
  pub started_at : Option ℕ
  pub finished_at : Option ℕ

-- `FairStreamScheduler`. Times are whole ticks; a wait of zero ticks means that there is no limit.
pub record FairStreamScheduler : Type 0 where
  pub max_queue_per_tenant : ℕ
  pub max_total_queued : ℕ
  pub stream_wait_timeout : ℕ
  pub active_streams : Dict String Job
  pub tenant_queues : Dict String (List String)
  pub tenant_rr : List String
  pub tenant_rr_set : List String
  pub active_stream_id : Option String

-- What a call raises: an `HTTPException` by its status code, or an error of a container.
pub data Error : Type 0 where
  http : ℕ → Error
  index_error key_error : Error

pub data Result {ℓ} (A : Type ℓ) : Type ℓ where
  ok : A → Result A
  raise : Error → Result A

-- The constructor.
unfoldable pub init : ℕ → ℕ → ℕ → FairStreamScheduler
init per_tenant total_queued timeout = record {
  max_queue_per_tenant = per_tenant;
  max_total_queued = total_queued;
  stream_wait_timeout = timeout;
  active_streams = [];
  tenant_queues = [];
  tenant_rr = [];
  tenant_rr_set = [];
  active_stream_id = none;
}

-- `normalize_tenant_id`, for any `str.lower`.
unfoldable pub normalize_tenant_id : (String → String) → String → String → String
normalize_tenant_id lower tenant_id channel_name =
    let tenant = strip tenant_id in
    let channel = strip channel_name in
    if is_empty tenant
    then (if is_empty channel then "default" else append "channel:" (lower channel))
    else tenant

unfoldable pub queued_total : FairStreamScheduler → ℕ
queued_total s = total length s.tenant_queues

-- `_remove_tenant_from_rr_locked`
unfoldable pub remove_tenant_from_rr : FairStreamScheduler → String → FairStreamScheduler
remove_tenant_from_rr s tenant =
    if contains s.tenant_rr_set tenant
    then (record s {
      tenant_rr_set = remove tenant s.tenant_rr_set;
      tenant_rr = remove tenant s.tenant_rr;
    })
    else s

-- The job of a stream, its state, and a write to one of its fields.
abbrev pub job_of : FairStreamScheduler → String → Option Job
job_of s stream_id = lookup stream_id s.active_streams

abbrev pub put_job : FairStreamScheduler → String → Job → FairStreamScheduler
put_job s stream_id job = record s { active_streams = insert stream_id job s.active_streams }

abbrev pub put_queue : FairStreamScheduler → String → List String → FairStreamScheduler
put_queue s tenant queue = record s { tenant_queues = insert tenant queue s.tenant_queues }

abbrev pub pop_queue : FairStreamScheduler → String → FairStreamScheduler
pop_queue s tenant = record s { tenant_queues = erase tenant s.tenant_queues }

abbrev pub is_queued : Job → Bool
is_queued job = elim job.state [ queued ↦ true | _ ↦ false ]

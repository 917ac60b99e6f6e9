-- ===== src/Streams/Outcomes.antt =====
-- What `enqueue` returns, and what it leaves.
use nano_qwen3tts_vllm.Common.{
  ℕ, ◌+◌, ◌≤◌, ◌<◌, ◌≡◌, ◌≢◌, refl, ◌⊎◌, inl, inr, String, List, [], ◌∷◌, ◌++◌, some, length,
  length-append, leb, arith, string_eq, option_eq, Bool-cases,
}
use nano_qwen3tts_vllm.Common.Dict.{lookup, lookup-insert, lookup-insert_self, total-insert}
use nano_qwen3tts_vllm.Streams.State.{
  FairStreamScheduler, Result, ok, raise, http, RequestData, normalize_tenant_id, queued_total,
  job_of, put_job, put_queue,
}
use nano_qwen3tts_vllm.Streams.Calls.{Receipt, new_job, join_rr, admit, enqueue_in, enqueue}
use nano_qwen3tts_vllm.Streams.Keeping.{entries}
use nano_qwen3tts_vllm.Streams.Validity.{IsValid}
use nano_qwen3tts_vllm.Streams.Admission.{IsOpened, open_queue-IsOpened}

-- The outcomes of `enqueue`. A request is let in exactly when both limits leave room: then its
-- stream is the last of its tenant's queue and waits, and everything else is as it was.
pub data Enqueues (s : FairStreamScheduler) (i : String) (d : RequestData) (tenant : String)
    (now : ℕ) (r : Result Receipt × FairStreamScheduler) : Type 0 where
  refused :
      (s.max_total_queued ≤ queued_total s)
        ⊎ (s.max_queue_per_tenant ≤ length (entries (lookup tenant s.tenant_queues)))
      → r.0 ≡ raise (http 429)
      → r.1.active_streams ≡ s.active_streams
      → queued_total r.1 ≡ queued_total s
      → Enqueues s i d tenant now r
  admitted :
      queued_total s < s.max_total_queued
      → length (entries (lookup tenant s.tenant_queues)) < s.max_queue_per_tenant
      → (receipt : Receipt) → r.0 ≡ ok receipt
      → receipt.tenant_queue_depth ≡ length (entries (lookup tenant s.tenant_queues)) + 1
      → receipt.global_queue_depth ≡ queued_total s + 1
      → lookup tenant r.1.tenant_queues ≡ some (entries (lookup tenant s.tenant_queues) ++ i ∷ [])
      → ((t : String)
          → t ≢ tenant
          → entries (lookup t r.1.tenant_queues) ≡ entries (lookup t s.tenant_queues))
      → (job_of r.1 i ≡ some (new_job tenant d now))
      → Enqueues s i d tenant now r

-- The queues and the jobs of an admission, whatever becomes of the order.
join_keeps :
    (s : FairStreamScheduler) (tenant : String)
    → ((join_rr s tenant).tenant_queues ≡ s.tenant_queues)
      × ((join_rr s tenant).active_streams ≡ s.active_streams)
join_keeps s tenant = ground arith

module _ (s : FairStreamScheduler) (i : String) (d : RequestData) (tenant : String) (now : ℕ) where
  enqueue_in-Enqueues :
      (r : FairStreamScheduler × List String)
      → IsOpened s tenant r
      → queued_total s < s.max_total_queued
      → Enqueues s i d tenant now (enqueue_in i d tenant now r)
  unfolding admit queued_total
  enqueue_in-Enqueues (s', queue) o room =
      elim (Bool-cases (leb s'.max_queue_per_tenant (length queue))) [
        | inl full ↦ rw full (refused (inr (ground arith)) refl o.jobs o.queued_same)
        | inr space ↦
            let queues =
              join_keeps (put_queue (put_job s' i (new_job tenant d now)) tenant (queue ++ i ∷ []))
                tenant in
            rw space (
              admitted room (ground arith) _ refl (ground arith)
                (ground (
                  arith,
                  queues,
                  total-insert length tenant (queue ++ i ∷ []) s'.tenant_queues,
                  length-append queue (i ∷ []),
                ))
                (ground
                  (arith, queues, lookup-insert_self tenant (queue ++ i ∷ []) s'.tenant_queues))
                (λ t apart. ground (
                  arith,
                  queues,
                  lookup-insert t tenant (queue ++ i ∷ []) s'.tenant_queues,
                  o.others t apart,
                ))
                (ground
                  (arith, queues, lookup-insert_self i (new_job tenant d now) s'.active_streams)))
      ]

  -- In a valid state `enqueue`, for the tenant that the ids name, refuses with 429 where a limit is
  -- reached, and changes no job and no total; otherwise it admits the stream at the end of its
  -- tenant's queue, with the new depths in its receipt and the other queues as they were.
  pub enqueue-Enqueues :
      (lower : String → String) (tenant_id channel_name : String)
      → normalize_tenant_id lower tenant_id channel_name ≡ tenant
      → IsValid s
      → Enqueues s i d tenant now (enqueue lower i d tenant_id channel_name now s)
  unfolding enqueue
  enqueue-Enqueues lower tenant_id channel_name e v =
      elim (Bool-cases (leb s.max_total_queued (queued_total s))) [
        | inl full ↦ rw full (refused (inl (ground arith)) refl refl refl)
        | inr room ↦
            rw (room, e) (enqueue_in-Enqueues _ (open_queue-IsOpened s tenant v) (ground arith))
      ]

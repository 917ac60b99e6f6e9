-- ===== src/Streams/Cancelling.antt =====
-- `cancel`: the removal of a stream from its tenant's queue.
use nano_qwen3tts_vllm.Common.{
  ℕ, ◌<◌, ◌≡◌, refl, ◌↔◌, inl, inr, String, true, List, [], ◌∷◌, Option, some, length, arith,
  string_eq, option_eq, contains, remove, Option-cases, Bool-cases,
}
use nano_qwen3tts_vllm.Common.Dict.{
  lookup, lookup-insert, lookup-insert_self, lookup-erase, total-insert, total-erase-le,
}
use nano_qwen3tts_vllm.Common.Count.{
  count, contains-count, count-remove, count-remove_ne, length-remove-le,
}
use nano_qwen3tts_vllm.Streams.State.{
  JobState, queued, running, cancelled, Job, FairStreamScheduler, Result, ok, raise, queued_total,
  remove_tenant_from_rr, job_of, put_job, put_queue, pop_queue, is_queued,
}
use nano_qwen3tts_vllm.Streams.Calls.Cancel.{
  set_event, requeue, reply_cancelled, cancel_in, unqueue, cancel_queued, cancel,
}
use nano_qwen3tts_vllm.Streams.Rounds.{IsOrdered, places, places-le-one}
use nano_qwen3tts_vllm.Streams.Keeping.{AllWait, IsBounded}
use nano_qwen3tts_vllm.Streams.Completion.{ended_waits, ended_runs, AllWait-skip}
use nano_qwen3tts_vllm.Streams.Validity.{
  IsValid, Returns, put_job-IsValid, try_activate_next-IsValid,
}

remove_nonempty :
    (i first : String) (queue left : List String)
    → remove i queue ≡ first ∷ left
    → places (some queue) ≡ 1
unfolding remove
remove_nonempty i first [] left e = cc
remove_nonempty i first (x ∷ queue) left e = refl

module _ (s : FairStreamScheduler) (i tenant : String) (v : IsValid s) where
  record Unqueued (s' : FairStreamScheduler) : Type 0 where
    ordered : IsOrdered s'
    bounded : IsBounded s'
    others_wait : AllWait (some i) s'
    jobs : s'.active_streams ≡ s.active_streams
    active : s'.active_stream_id ≡ s.active_stream_id

  member_count : (contains s.tenant_rr_set tenant ≡ true) ↔ (0 < count tenant s.tenant_rr)
  member_count = ground (arith, contains-count s.tenant_rr_set tenant, v.ordered.in_set tenant)

  gone-IsBounded : IsBounded (pop_queue s tenant)
  unfolding queued_total
  gone-IsBounded = record {
    total_bound =
        omega (arith, v.bounded.total_bound, total-erase-le length tenant s.tenant_queues);
    tenant_bound = λ t other here.
        ground (arith, v.bounded.tenant_bound t other, lookup-erase t tenant s.tenant_queues);
  }

  gone-AllWait :
      (queue : List String)
      → lookup tenant s.tenant_queues ≡ some queue
      → remove i queue ≡ []
      → AllWait (some i) (pop_queue s tenant)
  unfolding count
  gone-AllWait queue found e j job here live apart = ground (
    arith,
    lookup-erase job.tenant_id tenant s.tenant_queues,
    v.all_wait j job here live,
    count-remove_ne j i queue,
  )

  leave-Unqueued :
      (queue : List String)
      → lookup tenant s.tenant_queues ≡ some queue
      → remove i queue ≡ []
      → Unqueued (remove_tenant_from_rr (pop_queue s tenant) tenant)
  unfolding remove_tenant_from_rr queued_total
  leave-Unqueued queue found e =
      let b = gone-IsBounded in
      let w = gone-AllWait queue found e in
      elim (Bool-cases (contains s.tenant_rr_set tenant)) [
        | inl member ↦ rw member (record {
          ordered = record {
            placed = λ t. ground (
              arith,
              member_count,
              v.ordered.placed t,
              places-le-one (lookup tenant s.tenant_queues),
              v.ordered.placed tenant,
              lookup-erase t tenant s.tenant_queues,
              count-remove t tenant s.tenant_rr,
            );
            in_set = λ t. ground (
              arith,
              member_count,
              v.ordered.in_set t,
              v.ordered.in_set tenant,
              count-remove t tenant s.tenant_rr,
              count-remove t tenant s.tenant_rr_set,
            );
          };
          bounded = record { total_bound = b.total_bound; tenant_bound = b.tenant_bound };
          others_wait = w;
          jobs = refl;
          active = refl;
        })
        | inr absent ↦ rw absent (record {
          ordered = record {
            placed = λ t. ground (
              arith,
              member_count,
              v.ordered.placed t,
              v.ordered.placed tenant,
              lookup-erase t tenant s.tenant_queues,
            );
            in_set = v.ordered.in_set;
          };
          bounded = b;
          others_wait = w;
          jobs = refl;
          active = refl;
        })
      ]

  shrink-Unqueued :
      (queue : List String) (first : String) (left : List String)
      → lookup tenant s.tenant_queues ≡ some queue
      → remove i queue ≡ first ∷ left
      → Unqueued (put_queue s tenant (first ∷ left))
  unfolding queued_total
  shrink-Unqueued queue first left found e = record {
    ordered = record {
      placed = λ t. ground (
        arith,
        v.ordered.placed t,
        v.ordered.placed tenant,
        lookup-insert t tenant (first ∷ left) s.tenant_queues,
        remove_nonempty i first queue left e,
      );
      in_set = v.ordered.in_set;
    };
    bounded = record {
      total_bound = ground (
        arith,
        v.bounded.total_bound,
        total-insert length tenant (first ∷ left) s.tenant_queues,
        length-remove-le i queue,
      );
      tenant_bound = λ t other here. ground (
        arith,
        v.bounded.tenant_bound t other,
        v.bounded.tenant_bound tenant queue,
        length-remove-le i queue,
        lookup-insert t tenant (first ∷ left) s.tenant_queues,
      );
    };
    others_wait = λ j job here live apart. ground (
      arith,
      lookup-insert job.tenant_id tenant (first ∷ left) s.tenant_queues,
      v.all_wait j job here live,
      count-remove_ne j i queue,
    );
    jobs = refl;
    active = refl;
  }

  requeue-Unqueued :
      (queue left : List String)
      → lookup tenant s.tenant_queues ≡ some queue
      → remove i queue ≡ left
      → Unqueued (requeue s tenant left)
  requeue-Unqueued queue [] found e = leave-Unqueued queue found e
  requeue-Unqueued queue (first ∷ left) found e = shrink-Unqueued queue first left found e

  unqueue-Unqueued : Unqueued (unqueue i tenant s)
  unfolding unqueue
  unqueue-Unqueued = elim (Option-cases (lookup tenant s.tenant_queues)) [
    | inl missing ↦
        rw (missing, unqueue)
          (record {
            ordered = v.ordered;
            bounded = v.bounded;
            others_wait = AllWait-skip s i v.all_wait;
            jobs = refl;
            active = refl;
          })
    | inr (queue, found) ↦ rw (found, unqueue) (requeue-Unqueued queue _ found refl)
  ]

module _ (s : FairStreamScheduler) (i : String) (job : Job) (now : ℕ) (v : IsValid s)
    (here : job_of s i ≡ some job) (waits : is_queued job ≡ true) where
  cancel_queued-IsValid : IsValid (cancel_queued i job now s)
  unfolding cancel_queued queued_total
  cancel_queued-IsValid =
      let u = unqueue-Unqueued s i job.tenant_id v in
      let s' = unqueue i job.tenant_id s in
      let job' : Job = record job { state = cancelled; finished_at = some now } in
      record {
        ordered = record { placed = u.ordered.placed; in_set = u.ordered.in_set };
        bounded = record {
          total_bound = u.bounded.total_bound;
          tenant_bound = u.bounded.tenant_bound;
        };
        all_wait = ended_waits s' i job' (refl, refl) u.others_wait;
        runs =
            ended_runs s' i job' (refl, refl) s'.active_stream_id
              (λ j apart. ground (arith, v.runs j, u.jobs, u.active))
              (λ e. ground (arith, v.runs i, u.active));
      }

reply-Returns :
    (r : Result (Option String) × FairStreamScheduler)
    → Returns (λ _ s'. IsValid s') r
    → Returns (λ _ s'. IsValid s') (reply_cancelled r)
reply-Returns (ok _, s) v = v
reply-Returns (raise e, s) v = absurd v

cancel_in-IsValid :
    (i : String) (job : Job) (now : ℕ) (s : FairStreamScheduler) (state : JobState)
    → job.state ≡ state
    → job_of s i ≡ some job
    → IsValid s
    → Returns (λ _ s'. IsValid s') (cancel_in i job now s state)
cancel_in-IsValid i job now s queued e here v =
    reply-Returns _
      (try_activate_next-IsValid now _ (cancel_queued-IsValid s i job now v here (ground arith)))
cancel_in-IsValid i job now s running e here v = v
cancel_in-IsValid i job now s _ e here v = v

-- `cancel` keeps the invariant and raises nothing.
pub cancel-IsValid :
    (i : String) (now : ℕ) (s : FairStreamScheduler)
    → IsValid s
    → Returns (λ _ s'. IsValid s') (cancel i now s)
unfolding cancel
cancel-IsValid i now s v = elim (Option-cases (job_of s i)) [
  | inl gone ↦ rw (gone, cancel) v
  | inr (old, here) ↦
      let job : Job = record old { request_data = set_event old.request_data } in
      rw (here, cancel)
        (cancel_in-IsValid i job now (put_job s i job) old.state refl
          (lookup-insert_self i job s.active_streams)
          (put_job-IsValid s i old job here refl refl v))
]

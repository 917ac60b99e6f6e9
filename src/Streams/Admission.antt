-- ===== src/Streams/Admission.antt =====
-- `enqueue` and the invariant.
use nano_qwen3tts_vllm.Common.{
  ℕ, ◌+◌, ◌<◌, ◌≡◌, ◌≢◌, refl, ◌↔◌, inl, inr, String, true, List, [], ◌∷◌, ◌++◌, none, some, length,
  length-append, leb, arith, string_eq, option_eq, ◌==◌, contains, Option-cases, Bool-cases,
  if◌then◌else◌,
}
use nano_qwen3tts_vllm.Common.Dict.{lookup, insert, lookup-insert, lookup-insert_self, total-insert}
use nano_qwen3tts_vllm.Common.Count.{count, one_if, count-append, contains-count}
use nano_qwen3tts_vllm.Streams.State.{
  FairStreamScheduler, RequestData, normalize_tenant_id, queued_total, job_of, put_job, put_queue,
}
use nano_qwen3tts_vllm.Streams.Calls.{new_job, open_queue, join_rr, admit, enqueue_in, enqueue}
use nano_qwen3tts_vllm.Streams.Rounds.{IsOrdered, places, places-le-one}
use nano_qwen3tts_vllm.Streams.Keeping.{entries, AllWait, IsBounded}
use nano_qwen3tts_vllm.Streams.Validity.{IsValid, is_running}

places_append : (queue : List String) (i : String) → places (some (queue ++ i ∷ [])) ≡ 1
places_append [] i = refl
places_append (x ∷ queue) i = refl

-- The tenant's queue and the state with it, an empty one where there was none.
pub record IsOpened (s : FairStreamScheduler) (tenant : String)
    (r : FairStreamScheduler × List String) : Type 0 where
  pub valid : IsValid r.0
  pub there : lookup tenant r.0.tenant_queues ≡ some r.1
  pub jobs : r.0.active_streams ≡ s.active_streams
  pub queued_same : queued_total r.0 ≡ queued_total s
  pub limit : r.0.max_total_queued ≡ s.max_total_queued
  pub tenant_limit : r.0.max_queue_per_tenant ≡ s.max_queue_per_tenant
  pub others :
      (t : String)
      → t ≢ tenant
      → entries (lookup t r.0.tenant_queues) ≡ entries (lookup t s.tenant_queues)
  pub content : r.1 ≡ entries (lookup tenant s.tenant_queues)

module _ (s : FairStreamScheduler) (tenant : String) (v : IsValid s) where
  put_empty-IsValid : lookup tenant s.tenant_queues ≡ none → IsValid (put_queue s tenant [])
  unfolding queued_total
  put_empty-IsValid missing = record {
    ordered = record {
      placed = λ t. ground (arith, v.ordered.placed t, lookup-insert t tenant [] s.tenant_queues);
      in_set = v.ordered.in_set;
    };
    bounded = record {
      total_bound =
          ground (arith, v.bounded.total_bound, total-insert length tenant [] s.tenant_queues);
      tenant_bound = λ t queue e.
          ground (arith, lookup-insert t tenant [] s.tenant_queues, v.bounded.tenant_bound t queue);
    };
    all_wait = λ i job here live apart. ground (
      arith,
      lookup-insert job.tenant_id tenant [] s.tenant_queues,
      v.all_wait i job here live apart,
    );
    runs = v.runs;
  }

  pub open_queue-IsOpened : IsOpened s tenant (open_queue s tenant)
  unfolding queued_total
  open_queue-IsOpened = elim (Option-cases (lookup tenant s.tenant_queues)) [
    | inl missing ↦
        rw (missing, open_queue)
          (record {
            valid = put_empty-IsValid missing;
            there = lookup-insert_self tenant [] s.tenant_queues;
            jobs = refl;
            queued_same = ground (arith, total-insert length tenant [] s.tenant_queues);
            limit = refl;
            tenant_limit = refl;
            others = λ t apart. ground (arith, lookup-insert t tenant [] s.tenant_queues);
            content = rw missing;
          })
    | inr (queue, found) ↦
        rw (found, open_queue)
          (record {
            valid = v;
            there = found;
            jobs = refl;
            queued_same = refl;
            limit = refl;
            tenant_limit = refl;
            others = λ t apart. refl;
            content = rw found;
          })
  ]

-- Joining the order matters to the order alone.
join-IsValid :
    (s : FairStreamScheduler) (tenant : String)
    → IsBounded s
    → AllWait none s
    → ((i : String) → is_running (job_of s i) ≡ (s.active_stream_id == some i))
    → IsOrdered (join_rr s tenant)
    → IsValid (join_rr s tenant)
unfolding queued_total
join-IsValid s tenant b w r o = elim (Bool-cases (contains s.tenant_rr_set tenant)) [
  | inl member ↦
      rw (member, join_rr)
        (record { ordered = rw (member, join_rr) at o; bounded = b; all_wait = w; runs = r })
  | inr absent ↦
      rw (absent, join_rr)
        (record {
          ordered = rw (absent, join_rr) at o;
          bounded = record { total_bound = b.total_bound; tenant_bound = b.tenant_bound };
          all_wait = w;
          runs = r;
        })
]

module _ (s : FairStreamScheduler) (i : String) (d : RequestData) (tenant : String) (now : ℕ)
    (queue : List String) (v : IsValid s) (fresh : job_of s i ≡ none)
    (found : lookup tenant s.tenant_queues ≡ some queue) where
  abbrev written : FairStreamScheduler
  written = put_queue (put_job s i (new_job tenant d now)) tenant (queue ++ i ∷ [])

  grown :
      (t : String)
      → lookup t (insert tenant (queue ++ i ∷ []) s.tenant_queues)
        ≡ (if t == tenant then some (queue ++ i ∷ []) else lookup t s.tenant_queues)
  grown t = lookup-insert t tenant (queue ++ i ∷ []) s.tenant_queues

  joined :
      (t : String) → count t (s.tenant_rr ++ tenant ∷ []) ≡ count t s.tenant_rr + one_if t tenant
  unfolding count
  joined t = omega (arith, count-append t s.tenant_rr (tenant ∷ []))

  tenant_member : (contains s.tenant_rr_set tenant ≡ true) ↔ (0 < count tenant s.tenant_rr)
  tenant_member = ground (arith, contains-count s.tenant_rr_set tenant, v.ordered.in_set tenant)

  admit-IsOrdered : IsOrdered (admit i d tenant now queue s)
  unfolding admit count
  admit-IsOrdered = elim (Bool-cases (contains s.tenant_rr_set tenant)) [
    | inl member ↦
        rw (member, admit)
          (record {
            placed = λ t. ground (
              arith,
              v.ordered.placed t,
              grown t,
              v.ordered.placed tenant,
              tenant_member,
              places-le-one (lookup tenant s.tenant_queues),
              places_append queue i,
            );
            in_set = v.ordered.in_set;
          })
    | inr absent ↦
        rw (absent, admit)
          (record {
            placed = λ t. ground (
              arith,
              v.ordered.placed t,
              grown t,
              v.ordered.placed tenant,
              tenant_member,
              joined t,
              places_append queue i,
            );
            in_set = λ t. ground (arith, v.ordered.in_set t, joined t);
          })
  ]

  written-IsBounded :
      queued_total s < s.max_total_queued
      → length queue < s.max_queue_per_tenant
      → IsBounded written
  unfolding queued_total
  written-IsBounded room space = record {
    total_bound = ground (
      arith,
      total-insert length tenant (queue ++ i ∷ []) s.tenant_queues,
      length-append queue (i ∷ []),
    );
    tenant_bound = λ t other here.
        ground (arith, grown t, v.bounded.tenant_bound t other, length-append queue (i ∷ []));
  }

  written-AllWait : AllWait none written
  unfolding count
  written-AllWait j job here live apart = ground (
    arith,
    lookup-insert j i (new_job tenant d now) s.active_streams,
    grown job.tenant_id,
    v.all_wait j job,
    count-append j queue (i ∷ []),
  )

  written_runs : (j : String) → is_running (job_of written j) ≡ (written.active_stream_id == some j)
  written_runs j =
      ground (arith, lookup-insert j i (new_job tenant d now) s.active_streams, v.runs j, v.runs i)

  pub admit-IsValid :
      queued_total s < s.max_total_queued
      → length queue < s.max_queue_per_tenant
      → IsValid (admit i d tenant now queue s)
  unfolding admit
  admit-IsValid room space =
      join-IsValid written tenant (written-IsBounded room space) written-AllWait written_runs
        admit-IsOrdered

-- What `enqueue_in` does at an opened queue.
enqueue_in-IsValid :
    (s : FairStreamScheduler) (i : String) (d : RequestData) (tenant : String) (now : ℕ)
    (r : FairStreamScheduler × List String)
    → IsOpened s tenant r
    → job_of s i ≡ none
    → queued_total s < s.max_total_queued
    → IsValid (enqueue_in i d tenant now r).1
enqueue_in-IsValid s i d tenant now (s', queue) o fresh room =
    elim (Bool-cases (leb s'.max_queue_per_tenant (length queue))) [
      | inl full ↦ rw full o.valid
      | inr space ↦ rw space (
          admit-IsValid s' i d tenant now queue o.valid (rw o.jobs fresh) o.there
            (omega (arith, o.queued_same, o.limit)) (ground arith))
    ]

-- `enqueue` keeps the invariant, whether it lets the new stream in or refuses it.
pub enqueue-IsValid :
    (lower : String → String) (i : String) (d : RequestData) (tenant_id channel_name : String)
    (now : ℕ) (s : FairStreamScheduler)
    → job_of s i ≡ none
    → IsValid s
    → IsValid (enqueue lower i d tenant_id channel_name now s).1
unfolding enqueue
enqueue-IsValid lower i d tenant_id channel_name now s fresh v =
    let tenant = normalize_tenant_id lower tenant_id channel_name in
    elim (Bool-cases (leb s.max_total_queued (queued_total s))) [
      | inl full ↦ rw full v
      | inr room ↦ rw room (
          enqueue_in-IsValid s i d tenant now _ (open_queue-IsOpened s tenant v) fresh
            (ground arith))
    ]

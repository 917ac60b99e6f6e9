-- ===== src/Streams/Keeping.antt =====
-- What one pop keeps: the jobs, the limits, the bounds of the queues, and every queued stream.
use nano_qwen3tts_vllm.Common.{
  ◌≤◌, ◌<◌, ◌≡◌, ◌≢◌, refl, String, true, List, [], ◌∷◌, Option, none, some, length, arith,
  string_eq,
}
use nano_qwen3tts_vllm.Common.Dict.{
  Dict, lookup, lookup-insert, lookup-erase, total-insert, total-erase-le,
}
use nano_qwen3tts_vllm.Common.Count.{count}
use nano_qwen3tts_vllm.Streams.State.{Job, FairStreamScheduler, queued_total, is_queued, job_of}
use nano_qwen3tts_vllm.Streams.Turns.{pop_next_ready_stream}
use nano_qwen3tts_vllm.Streams.Pruning.{Pruned, prune_queue-Pruned}
use nano_qwen3tts_vllm.Streams.Rounds.{IsOrdered, drop_tenant, rotate, taken}
use nano_qwen3tts_vllm.Streams.Rule.{Rule, Pops, pop_next_ind, taken-IsOrdered}

-- The streams of a tenant's queue.
abbrev pub entries : Option (List String) → List String
entries none = []
entries (some queue) = queue

-- Every stream in state `queued`, but the one left out, stands in its tenant's queue.
abbrev pub AllWait : Option String → FairStreamScheduler → Type 0
AllWait skip s =
    (i : String) (job : Job)
    → lookup i s.active_streams ≡ some job
    → is_queued job ≡ true
    → skip ≢ some i
    → 0 < count i (entries (lookup job.tenant_id s.tenant_queues))

pub record IsBounded (s : FairStreamScheduler) : Type 0 where
  pub total_bound : queued_total s ≤ s.max_total_queued
  pub tenant_bound :
      (t : String) (queue : List String)
      → lookup t s.tenant_queues ≡ some queue
      → length queue ≤ s.max_queue_per_tenant

-- The fields that a pop leaves alone.
pub record Same (s s' : FairStreamScheduler) : Type 0 where
  pub jobs : s'.active_streams ≡ s.active_streams
  pub active : s'.active_stream_id ≡ s.active_stream_id
  pub per_tenant : s'.max_queue_per_tenant ≡ s.max_queue_per_tenant
  pub limit : s'.max_total_queued ≡ s.max_total_queued
  pub timeout : s'.stream_wait_timeout ≡ s.stream_wait_timeout

pub record Kept (s₀ : FairStreamScheduler) (skip : Option String) (s : FairStreamScheduler)
    : Type 0 where
  pub same : Same s₀ s
  pub bounded : IsBounded s
  pub all_wait : AllWait skip s

module _ (s : FairStreamScheduler) (t : String) (rr queue : List String)
    (found : lookup t s.tenant_queues ≡ some queue) where
  drop-IsBounded : IsBounded s → IsBounded (drop_tenant s t rr)
  unfolding queued_total
  drop-IsBounded b = record {
    total_bound = omega (arith, b.total_bound, total-erase-le length t s.tenant_queues);
    tenant_bound =
        λ u other here. ground (arith, b.tenant_bound u other, lookup-erase u t s.tenant_queues);
  }

  rotate-IsBounded :
      (left : List String)
      → length left ≤ length queue
      → IsBounded s
      → IsBounded (rotate s t rr left)
  unfolding queued_total
  rotate-IsBounded left h b = record {
    total_bound = ground (arith, b.total_bound, total-insert length t left s.tenant_queues);
    tenant_bound = λ u other here. ground (
      arith,
      b.tenant_bound u other,
      b.tenant_bound t queue,
      lookup-insert u t left s.tenant_queues,
    );
  }

  drop-AllWait :
      (skip skip' : Option String)
      → ((i : String) (job : Job)
          → lookup i s.active_streams ≡ some job
          → is_queued job ≡ true
          → skip' ≢ some i
          → (skip ≢ some i) × (count i queue ≡ 0))
      → AllWait skip s
      → AllWait skip' (drop_tenant s t rr)
  drop-AllWait skip skip' gone w i job here live other =
      let (other', absent) = gone i job here live other in
      let waits = w i job here live other' in
      ground (arith, lookup-erase job.tenant_id t s.tenant_queues)

  rotate-AllWait :
      (skip skip' : Option String) (left : List String)
      → ((i : String) (job : Job)
          → lookup i s.active_streams ≡ some job
          → is_queued job ≡ true
          → skip' ≢ some i
          → (skip ≢ some i) × (count i left ≡ count i queue))
      → AllWait skip s
      → AllWait skip' (rotate s t rr left)
  rotate-AllWait skip skip' left as_many w i job here live other =
      let (other', equal) = as_many i job here live other in
      let waits = w i job here live other' in
      ground (arith, lookup-insert job.tenant_id t left s.tenant_queues)

-- A stream that a pop hands out: a queued job that asked for its stream.
pub record IsReady (s : FairStreamScheduler) (stream_id : String) : Type 0 where
  pub job : Job
  pub here : job_of s stream_id ≡ some job
  pub waits : is_queued job ≡ true
  pub asked : job.stream_requested ≡ true

abbrev pub Found : FairStreamScheduler → String → FairStreamScheduler → Type 0
Found s₀ stream_id s = IsOrdered s × Kept s₀ (some stream_id) s × IsReady s stream_id

abbrev pub Missed : FairStreamScheduler → FairStreamScheduler → Type 0
Missed s₀ s = IsOrdered s × Kept s₀ none s

none_is_not_some : (i : String) → none ≢ some i
none_is_not_some i e = cc

Same-queues :
    {s₀ s : FairStreamScheduler}
    → Same s₀ s
    → (rr members : List String) (queues : Dict String (List String))
    → Same s₀ (record s { tenant_rr = rr; tenant_rr_set = members; tenant_queues = queues })
Same-queues e rr members queues = record {
  jobs = e.jobs;
  active = e.active;
  per_tenant = e.per_tenant;
  limit = e.limit;
  timeout = e.timeout;
}

taken-IsReady :
    (s : FairStreamScheduler) (t : String) (rr queue : List String) (head : String)
    (rest : List String) (job : Job) (r : List String × Option Job)
    → Pruned s.active_streams queue (head ∷ rest, some job)
    → job.stream_requested ≡ true
    → IsReady (taken s t rr r) head
taken-IsReady s t rr queue head rest job (left, none) p asked = record {
  job = job;
  here = cc (p.2, p.3);
  waits = p.4;
  asked = asked;
}
taken-IsReady s t rr queue head rest job (left, some next) p asked = record {
  job = job;
  here = cc (p.2, p.3);
  waits = p.4;
  asked = asked;
}

module _ (s₀ : FairStreamScheduler) where
  taken-Kept :
      (s : FairStreamScheduler) (t : String) (rr queue : List String) (head : String)
      (rest : List String) (job : Job) (r : List String × Option Job)
      → lookup t s.tenant_queues ≡ some queue
      → Pruned s.active_streams queue (head ∷ rest, some job)
      → Pruned s.active_streams rest r
      → Kept s₀ none s
      → Kept s₀ (some head) (taken s t rr r)
  unfolding count
  taken-Kept s t rr queue head rest job (left, none) found p q k = record {
    same = Same-queues k.same _ _ _;
    bounded = drop-IsBounded s t rr queue found k.bounded;
    all_wait =
        drop-AllWait s t rr queue found none (some head)
          (λ i other here live apart.
            (none_is_not_some i, ground (arith, p.6 i other here live, q.1 i other here live)))
          k.all_wait;
  }
  taken-Kept s t rr queue head rest job (left, some next) found p q k = record {
    same = Same-queues k.same _ _ _;
    bounded = rotate-IsBounded s t rr queue found left (omega (arith, p.5, q.5)) k.bounded;
    all_wait =
        rotate-AllWait s t rr queue found none (some head) left
          (λ i other here live apart.
            (none_is_not_some i, ground (arith, p.6 i other here live, q.6 i other here live)))
          k.all_wait;
  }

  keep_rule : Rule (Kept s₀ none) (Pops (Missed s₀) (Found s₀))
  keep_rule = record {
    stop = λ s o k. (o, k);
    drop = λ s t rr queue o front found p k. record {
      same = Same-queues k.same _ _ _;
      bounded = drop-IsBounded s t rr queue found k.bounded;
      all_wait =
          drop-AllWait s t rr queue found none none
            (λ i job here live apart. (apart, p.1 i job here live)) k.all_wait;
    };
    pass = λ s t rr queue head rest job o front found p idle k. record {
      same = Same-queues k.same _ _ _;
      bounded = rotate-IsBounded s t rr queue found (head ∷ rest) p.5 k.bounded;
      all_wait =
          rotate-AllWait s t rr queue found none none (head ∷ rest)
            (λ i other here live apart. (apart, p.6 i other here live)) k.all_wait;
    };
    take = λ s t rr queue head rest job o front found p asked k. (
      taken-IsOrdered s t rr rest _ o front (prune_queue-Pruned s.active_streams rest),
      taken-Kept s t rr queue head rest job _ found p (prune_queue-Pruned s.active_streams rest) k,
      taken-IsReady s t rr queue head rest job _ p asked,
    );
  }

  pub pop_next-Kept :
      IsOrdered s₀
      → IsBounded s₀
      → AllWait none s₀
      → Pops (Missed s₀) (Found s₀) (pop_next_ready_stream s₀)
  pop_next-Kept o b w = pop_next_ind keep_rule s₀ o (record {
    same = record { jobs = refl; active = refl; per_tenant = refl; limit = refl; timeout = refl };
    bounded = b;
    all_wait = w;
  })

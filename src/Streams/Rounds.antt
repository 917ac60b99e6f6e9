-- ===== src/Streams/Rounds.antt =====
-- The round-robin order as an invariant, and a proof rule for the `for` loop of
-- `_pop_next_ready_stream_locked`.
use nano_qwen3tts_vllm.Common.{
  ℕ, ◌+◌, ◌≤◌, ◌≡◌, refl, inl, inr, String, true, false, List, [], ◌∷◌, ◌++◌, Option, none, some,
  arith, Bool-cases, string_eq, contains, remove,
}
use nano_qwen3tts_vllm.Common.Dict.{
  Dict, lookup, insert, erase, lookup-insert, lookup-insert_self, lookup-erase, insert-insert_self,
  erase-insert_self,
}
use nano_qwen3tts_vllm.Common.Count.{
  count, one_if, count-append, contains-count, count-remove, remove_absent,
}
use nano_qwen3tts_vllm.Streams.State.{
  Job, FairStreamScheduler, Result, ok, remove_tenant_from_rr, put_queue, pop_queue,
}
use nano_qwen3tts_vllm.Streams.Turns.{prune_queue, settle, prune_tenant_head, take_head, turn}
use nano_qwen3tts_vllm.Streams.Pruning.{Pruned, prune_queue-Pruned}

-- The places in the order that a tenant's queue gives a right to.
abbrev pub places : Option (List String) → ℕ
places none = 0
places (some []) = 0
places (some (x ∷ xs)) = 1

-- A tenant stands in the order once if its queue holds a stream, and not at all otherwise, and
-- `tenant_rr_set` holds the tenants of the order.
pub record IsOrdered (s : FairStreamScheduler) : Type 0 where
  pub placed : (t : String) → count t s.tenant_rr ≡ places (lookup t s.tenant_queues)
  pub in_set : (t : String) → count t s.tenant_rr_set ≡ count t s.tenant_rr

-- The tenant at the front leaves with its queue, goes to the back, or loses its first stream.
abbrev pub drop_tenant : FairStreamScheduler → String → List String → FairStreamScheduler
drop_tenant s t rr = record s {
  tenant_rr = rr;
  tenant_rr_set = remove t s.tenant_rr_set;
  tenant_queues = erase t s.tenant_queues;
}

abbrev pub rotate : FairStreamScheduler → String → List String → List String → FairStreamScheduler
rotate s t rr left = record s {
  tenant_rr = rr ++ t ∷ [];
  tenant_queues = insert t left s.tenant_queues;
}

pub places-le-one : (o : Option (List String)) → places o ≤ 1
places-le-one none = omega arith
places-le-one (some []) = omega arith
places-le-one (some (x ∷ xs)) = omega arith

places_one :
    (o : Option (List String))
    → places o ≡ 1
    → (x : String) × (rest : List String) × (o ≡ some (x ∷ rest))
places_one none h = absurd (omega arith)
places_one (some []) h = absurd (omega arith)
places_one (some (x ∷ rest)) h = (x, rest, refl)

module _ (s : FairStreamScheduler) (t : String) (rr : List String) (front : s.tenant_rr ≡ t ∷ rr)
    (o : IsOrdered s) where
  front_count : (u : String) → count u s.tenant_rr ≡ one_if u t + count u rr
  unfolding count
  front_count u = rw front

  pub front_once : count t rr ≡ 0
  front_once = ground (arith, front_count t, o.placed t, places-le-one (lookup t s.tenant_queues))

  pub front_queue :
      (x : String) × (rest : List String) × (lookup t s.tenant_queues ≡ some (x ∷ rest))
  front_queue = places_one _ (ground (arith, front_count t, front_once, o.placed t))

  pub drop-IsOrdered : IsOrdered (drop_tenant s t rr)
  drop-IsOrdered = record {
    placed = λ u.
        ground (arith, front_count u, front_once, o.placed u, lookup-erase u t s.tenant_queues);
    in_set = λ u. ground (
      arith,
      front_count u,
      front_count t,
      o.in_set u,
      o.in_set t,
      count-remove u t s.tenant_rr_set,
    );
  }

  moved : (u : String) → count u (rr ++ t ∷ []) ≡ count u rr + one_if u t
  unfolding count
  moved u = omega (arith, count-append u rr (t ∷ []))

  pub rotate-IsOrdered : (x : String) (left : List String) → IsOrdered (rotate s t rr (x ∷ left))
  rotate-IsOrdered x left = record {
    placed = λ u. ground (
      arith,
      front_count u,
      front_once,
      o.placed u,
      lookup-insert u t (x ∷ left) s.tenant_queues,
      moved u,
    );
    in_set = λ u. omega (arith, front_count u, o.in_set u, moved u);
  }

-- The state after the head of the front tenant's queue is taken and the rest pruned.
abbrev pub taken :
    FairStreamScheduler → String → List String → List String × Option Job → FairStreamScheduler
taken s t rr (left, none) = drop_tenant s t rr
taken s t rr (left, some job) = rotate s t rr left

-- The outcomes of a turn: `r` is what the turn computes, `continue` the rest of the loop.
pub data Turn (continue : FairStreamScheduler → Result (Option String) × FairStreamScheduler)
    (s : FairStreamScheduler) (t : String) (rr : List String)
    (r : Result (Option String) × FairStreamScheduler) : Type 0 where
  drops :
      (queue : List String)
      → lookup t s.tenant_queues ≡ some queue
      → prune_queue s.active_streams queue ≡ ([], none)
      → Pruned s.active_streams queue ([], none)
      → r ≡ continue (drop_tenant s t rr)
      → Turn continue s t rr r
  passes :
      (queue : List String) (head : String) (rest : List String) (job : Job)
      → lookup t s.tenant_queues ≡ some queue
      → prune_queue s.active_streams queue ≡ (head ∷ rest, some job)
      → Pruned s.active_streams queue (head ∷ rest, some job)
      → job.stream_requested ≡ false
      → r ≡ continue (rotate s t rr (head ∷ rest))
      → Turn continue s t rr r
  takes :
      (queue : List String) (head : String) (rest : List String) (job : Job)
      → lookup t s.tenant_queues ≡ some queue
      → prune_queue s.active_streams queue ≡ (head ∷ rest, some job)
      → Pruned s.active_streams queue (head ∷ rest, some job)
      → job.stream_requested ≡ true
      → r ≡ (ok (some head), taken s t rr (prune_queue s.active_streams rest))
      → Turn continue s t rr r

prune_tenant_head_eq :
    (s : FairStreamScheduler) (t : String) (queue : List String) (r : List String × Option Job)
    → lookup t s.tenant_queues ≡ some queue
    → prune_queue s.active_streams queue ≡ r
    → prune_tenant_head s t ≡ settle s t r
unfolding prune_tenant_head
prune_tenant_head_eq s t queue r found e = rw (found, prune_tenant_head) (rw e refl)

module _ (s : FairStreamScheduler) (t : String) (rr : List String) (front : s.tenant_rr ≡ t ∷ rr)
    (o : IsOrdered s) where
  abbrev begun : FairStreamScheduler
  begun = record s { tenant_rr = rr }

  -- Removing the tenant from the order after its turn has begun.
  drop_eq :
      (queues : Dict String (List String))
      → remove_tenant_from_rr (pop_queue (record s { tenant_rr = rr; tenant_queues = queues }) t) t
        ≡ record s {
          tenant_rr = rr;
          tenant_rr_set = remove t s.tenant_rr_set;
          tenant_queues = erase t queues;
        }
  unfolding remove_tenant_from_rr
  drop_eq queues =
      let member : contains s.tenant_rr_set t ≡ true =
        (contains-count s.tenant_rr_set t).1
          (ground (arith, o.in_set t, front_count s t rr front o t)) in
      rw (member, remove_absent t rr (front_once s t rr front o)) refl

  take_head_eq :
      (head : String) (rest : List String) (r : List String × Option Job)
      → prune_queue s.active_streams rest ≡ r
      → take_head (put_queue (record s { tenant_rr = rr }) t (head ∷ rest)) t
        ≡ (ok head, taken s t rr r)
  unfolding take_head
  take_head_eq head rest (left, none) e =
      rw (lookup-insert_self t (head ∷ rest) s.tenant_queues, take_head)
        (rw
          (prune_tenant_head_eq (put_queue (put_queue begun t (head ∷ rest)) t rest) t rest _
            (lookup-insert_self t rest _) e)
          (rw
            (
              insert-insert_self t rest (head ∷ rest) s.tenant_queues,
              drop_eq (insert t rest s.tenant_queues),
              erase-insert_self t rest s.tenant_queues,
            )
            refl))
  take_head_eq head rest (left, some job) e =
      rw (lookup-insert_self t (head ∷ rest) s.tenant_queues, take_head)
        (rw
          (prune_tenant_head_eq (put_queue (put_queue begun t (head ∷ rest)) t rest) t rest _
            (lookup-insert_self t rest _) e)
          (rw
            (
              insert-insert_self t rest (head ∷ rest) s.tenant_queues,
              insert-insert_self t left rest s.tenant_queues,
            )
            refl))

  turn_settled :
      (continue : FairStreamScheduler → Result (Option String) × FairStreamScheduler)
      (queue : List String) (r : List String × Option Job)
      → lookup t s.tenant_queues ≡ some queue
      → prune_queue s.active_streams queue ≡ r
      → Pruned s.active_streams queue r
      → Turn continue s t rr (turn continue s)
  unfolding turn
  turn_settled continue queue (left, none) found e p =
      drops queue found (rw p.0 at e) (rw p.0 at p) (
        rw (front, turn)
          (rw (prune_tenant_head_eq begun t queue _ found e) (rw (drop_eq s.tenant_queues) refl)))
  turn_settled continue queue (left, some job) found e p = elim (Bool-cases job.stream_requested) [
    | inl asked ↦ takes queue p.0 p.1 job found (rw p.2 at e) (rw p.2 at p) asked (
        rw (front, turn)
          (rw (prune_tenant_head_eq begun t queue _ found e)
            (rw asked (rw p.2 (rw (take_head_eq p.0 p.1 _ refl) refl)))))
    | inr idle ↦ passes queue p.0 p.1 job found (rw p.2 at e) (rw p.2 at p) idle (
        rw (front, turn)
          (rw (prune_tenant_head_eq begun t queue _ found e) (rw idle (rw p.2 refl))))
  ]

  pub turn_cases :
      (continue : FairStreamScheduler → Result (Option String) × FairStreamScheduler)
      → Turn continue s t rr (turn continue s)
  turn_cases continue =
      let (x, rest, found) = front_queue s t rr front o in
      turn_settled continue (x ∷ rest) _ found refl (prune_queue-Pruned s.active_streams (x ∷ rest))

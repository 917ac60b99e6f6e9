-- ===== src/Engine/Scheduler.antt =====
-- nano_qwen3tts_vllm/engine/scheduler.py. The queues hold the ids of sequences, which a store maps to
-- the objects that the queues of the source share.
pub mod Prefill
pub mod Endings
pub mod Fuel
mod Tests
use nano_qwen3tts_vllm.Common.{
  ℕ, zero, suc, ◌+◌, ◌-◌, Bool, true, false, not, ◌&&◌, ◌||◌, List, [], ◌∷◌, ◌++◌, Option, none,
  some, length, leb, ltb, if◌then◌else◌, ◌==◌, nat_eq, option_eq, contains, remove,
}
use nano_qwen3tts_vllm.Common.Dict.{Dict, lookup, insert}
use nano_qwen3tts_vllm.Engine.Effects.{
  Result, ok, raise, key_error, value_error, assertion_error, assert, ◌>>=◌, ◌>>◌,
}
use nano_qwen3tts_vllm.Engine.Sequence.{
  Sequence, waiting, running, finished, num_completion_tokens, append_token,
}
use nano_qwen3tts_vllm.Engine.Blocks.{
  BlockManager, make_manager, can_allocate, allocate, deallocate, can_append, may_append,
}

pub record Scheduler : Type 0 where
  pub max_num_seqs : ℕ
  pub max_num_batched_tokens : ℕ
  pub eos : ℕ
  pub block_manager : BlockManager
  pub waiting_ids : List ℕ
  pub running_ids : List ℕ
  pub seqs : Dict ℕ Sequence

unfoldable pub make_scheduler : ℕ → ℕ → ℕ → ℕ → ℕ → Scheduler
make_scheduler max_num_seqs max_num_batched_tokens eos num_blocks block_size = record {
  max_num_seqs = max_num_seqs;
  max_num_batched_tokens = max_num_batched_tokens;
  eos = eos;
  block_manager = make_manager num_blocks block_size;
  waiting_ids = [];
  running_ids = [];
  seqs = [];
}

-- The object of an id; that a queue names an id without an object does not happen in the source.
abbrev pub seq_at : Scheduler → ℕ → Result Sequence
seq_at s id = elim (lookup id s.seqs) [ none ↦ raise key_error | some q ↦ ok q ]

-- A write to a sequence, with the manager's after the same call.
abbrev pub put_seq : Scheduler → BlockManager → Sequence → Scheduler
put_seq s m q = record s { block_manager = m; seqs = insert q.seq_id q s.seqs }

abbrev pub none_left : List ℕ → Bool
none_left [] = true
none_left (_ ∷ _) = false

unfoldable pub scheduler_is_finished : Scheduler → Bool
scheduler_is_finished s = none_left s.waiting_ids && none_left s.running_ids

unfoldable pub add : Scheduler → Sequence → Scheduler
add s q = record s { waiting_ids = s.waiting_ids ++ q.seq_id ∷ []; seqs = insert q.seq_id q s.seqs }

-- `self.waiting.popleft()` and `self.running.append(seq)` for a sequence that was allocated.
abbrev pub admit_seq : List ℕ → BlockManager × Sequence → Scheduler → Scheduler
admit_seq rest (m, q) s = record (put_seq s m (record q { status = running })) {
  waiting_ids = rest;
  running_ids = s.running_ids ++ q.seq_id ∷ [];
}

-- The first condition of the loop's break, and the block manager's.
abbrev pub fits : Scheduler → ℕ → Sequence → Bool
fits s batched q =
    leb (batched + q.num_tokens) s.max_num_batched_tokens && can_allocate s.block_manager q

abbrev pub put_first : ℕ → List ℕ × Scheduler → Result (List ℕ × Scheduler)
put_first id (ids, s) = ok (id ∷ ids, s)

-- The rest of the loop, where the condition holds.
abbrev pub go_on_if : Bool → Scheduler → Result (List ℕ × Scheduler) → Result (List ℕ × Scheduler)
go_on_if true s continue = continue
go_on_if false s continue = ok ([], s)

module _ (digest : List ℕ → Option ℕ → ℕ) where
  -- The `while` loop of the prefill, lines 29-46, at the waiting queue.
  unfoldable pub prefill : List ℕ → ℕ → ℕ → Scheduler → Result (List ℕ × Scheduler)
  prefill [] num_seqs batched s = ok ([], s)
  prefill (id ∷ rest) num_seqs batched s = go_on_if (ltb num_seqs s.max_num_seqs) s (do
    q ← seq_at s id
    go_on_if (fits s batched q) s (do
      (m, q') ← allocate digest s.block_manager q
      r ←
          prefill rest (num_seqs + 1) (batched + (q'.num_tokens - q'.num_cached_tokens))
            (admit_seq rest (m, q') s)
      put_first id r))

-- `preempt`
unfoldable pub preempt : ℕ → Scheduler → Result Scheduler
preempt id s = do
  q ← seq_at s id
  (m, q') ← deallocate s.block_manager (record q { status = waiting })
  ok (record (put_seq s m q') { waiting_ids = id ∷ s.waiting_ids })

-- The list without its last element, and that element: `self.running.pop()`.
unfoldable pub pop_last : List ℕ → Option (List ℕ × ℕ)
pop_last [] = none
pop_last (x ∷ xs) = elim (pop_last xs) [ none ↦ some ([], x) | some (ys, y) ↦ some (x ∷ ys, y) ]

-- Lines 54-58 for the last running sequence, if there is one: it gives up its blocks and the loop goes
-- on, and where none is left the sequence gives up its own and the answer is false.
abbrev pub give_room :
    (Scheduler → Result (Bool × Scheduler))
    → ℕ
    → Scheduler
    → Option (List ℕ × ℕ)
    → Result (Bool × Scheduler)
give_room continue id s none = do s' ← preempt id s; ok (false, s')
give_room continue id s (some (front, last)) = do
  s' ← preempt last (record s { running_ids = front })
  continue s'

abbrev pub room_if :
    Bool → (Scheduler → Result (Bool × Scheduler)) → ℕ → Scheduler → Result (Bool × Scheduler)
room_if true continue id s = ok (true, s)
room_if false continue id s = give_room continue id s (pop_last s.running_ids)

-- A round of lines 53-58.
abbrev pub room_step :
    (Scheduler → Result (Bool × Scheduler)) → ℕ → Scheduler → Result (Bool × Scheduler)
room_step continue id s = do q ← seq_at s id; room_if (can_append s.block_manager q) continue id s

-- Lines 53-58. Each round shortens the queue, so that the fuel is its length.
unfoldable pub make_room : ℕ → ℕ → Scheduler → Result (Bool × Scheduler)
make_room zero id s = room_step (λ _. raise assertion_error) id s
make_room (suc fuel) id s = room_step (make_room fuel id) id s

-- Lines 60-62.
abbrev pub append_seq : (List ℕ → Option ℕ → ℕ) → ℕ → Scheduler → Result Scheduler
append_seq digest id s = do
  q ← seq_at s id
  (m, q') ← may_append digest s.block_manager q
  ok (put_seq s m q')

module _ (digest : List ℕ → Option ℕ → ℕ) where
  -- The loop of the decode, lines 51-62. Each round takes a sequence from the queue, so that the
  -- fuel is its length.
  unfoldable pub decode : ℕ → ℕ → Scheduler → Result (List ℕ × Scheduler)
  decode zero num_seqs s = ok ([], s)
  decode (suc fuel) num_seqs s = elim (ltb num_seqs s.max_num_seqs) [
    | false ↦ ok ([], s)
    | true ↦ elim s.running_ids [
      | [] ↦ ok ([], s)
      | id ∷ rest ↦ do
        (room, s') ← make_room (length rest) id (record s { running_ids = rest })
        elim room [
          | false ↦ decode fuel num_seqs s'
          | true ↦ do
            s'' ← append_seq digest id s'
            r ← decode fuel (num_seqs + 1) s''
            put_first id r
        ]
    ]
  ]

  -- Lines 47-66: what the prefill scheduled, or else the decode.
  abbrev pub or_decode : List ℕ × Scheduler → Result (List ℕ × Bool × Scheduler)
  or_decode (id ∷ ids, s) = ok (id ∷ ids, true, s)
  or_decode ([], s) = do
    (scheduled, s') ← decode (length s.running_ids) 0 s
    assert (not (none_left scheduled))
    ok (scheduled, false, record s' { running_ids = scheduled ++ s'.running_ids })

  unfoldable pub schedule : Scheduler → Result (List ℕ × Bool × Scheduler)
  schedule s = do r ← prefill digest s.waiting_ids 0 0 s; or_decode r

-- `self.running.remove(seq)`
abbrev pub leave_running : ℕ → Scheduler → Result Scheduler
leave_running id s =
    if contains s.running_ids id
    then ok (record s { running_ids = remove id s.running_ids })
    else raise value_error

-- Lines 77-79: a sequence that is done gives back its blocks.
abbrev pub finish_seq : Scheduler → Sequence → Result Scheduler
finish_seq s q = do
  (m, q') ← deallocate s.block_manager (record q { status = finished })
  leave_running q.seq_id (put_seq s m q')

-- The test of line 76.
abbrev pub is_done : Scheduler → Sequence → ℕ → Bool
is_done s q token =
    (not q.ignore_eos && (token == s.eos)) || leb q.max_tokens (num_completion_tokens q)

-- One round of `postprocess`, lines 75-79.
unfoldable pub postprocess_seq : ℕ → ℕ → Scheduler → Result Scheduler
postprocess_seq id token s = do
  q ← seq_at s id
  let q' = append_token q token
  if is_done s q' token then finish_seq s q' else ok (put_seq s s.block_manager q')

-- `postprocess`, over `zip`.
unfoldable pub postprocess : List ℕ → List ℕ → Scheduler → Result Scheduler
postprocess (id ∷ ids) (token ∷ tokens) s = do
  s' ← postprocess_seq id token s
  postprocess ids tokens s'
postprocess _ _ s = ok s

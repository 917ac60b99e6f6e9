-- ===== src/Engine/Talker.antt =====
-- nano_qwen3tts_vllm/engine/llm_engine/talker_llm_engine.py. Of the tensors it matters only whether they
-- are there, and of a prompt's embeddings their length. This file is the scheduler of the engine;
-- the engine's calls are in Engine/Talker/Steps.
pub mod Steps
pub mod Adding
pub mod Idle
pub mod Requests
mod Tests
use nano_qwen3tts_vllm.Common.{
  ℕ, zero, suc, ◌+◌, ◌-◌, String, Bool, true, false, not, ◌&&◌, ◌||◌, List, [], ◌∷◌, ◌++◌, Option,
  none, some, length, ltb, if◌then◌else◌, ◌==◌, nat_eq, string_eq, contains, remove, ℤ, pos, neg,
}
use nano_qwen3tts_vllm.Common.Dict.{Dict, lookup, insert, erase}
use nano_qwen3tts_vllm.Engine.Effects.{Result, ok, raise, ◌>>=◌, ◌>>◌}
use nano_qwen3tts_vllm.Engine.Sequence.{
  Sequence, SamplingParams, finished, make_sequence, append_token, is_finished,
  completion_token_ids,
}
use nano_qwen3tts_vllm.Engine.Blocks.{deallocate}
use nano_qwen3tts_vllm.Engine.Scheduler.{
  Scheduler, seq_at, put_seq, add, prefill, put_first, make_room, append_seq, is_done, finish_seq,
}

-- `TalkerScheduler` and `PredictorScheduler`: the scheduler and the sequences of the requests, by their
-- ids. `next_seq_id` is the counter of the class `Sequence`.
pub record RequestScheduler : Type 0 where
  pub base : Scheduler
  pub request_id_to_seq : Dict String ℕ
  pub next_seq_id : ℕ

-- Line 42: the sequence has no next input yet.
unfoldable pub is_ready : Sequence → Bool
is_ready q = not (ltb 0 q.num_tokens && not q.decode_input_embeds)

abbrev pub when_ready : {A : Type 0} → Bool → Result A → Result A → Result A
when_ready false rotated scheduled = rotated
when_ready true rotated scheduled = scheduled

module _ (digest : List ℕ → Option ℕ → ℕ) where
  -- The loop of lines 38-54. Its rounds are as many as the running sequences at its start.
  unfoldable pub decode_ready : ℕ → ℕ → Scheduler → Result (List ℕ × Scheduler)
  decode_ready zero num_seqs s = ok ([], s)
  decode_ready (suc rounds) num_seqs s = elim (ltb num_seqs s.max_num_seqs) [
    | false ↦ ok ([], s)
    | true ↦ elim s.running_ids [
      | [] ↦ ok ([], s)
      | id ∷ rest ↦ do
        q ← seq_at s id
        let rotated = decode_ready rounds num_seqs (record s { running_ids = rest ++ id ∷ [] })
        when_ready (is_ready q) rotated (do
          (room, s') ← make_room (length rest) id (record s { running_ids = rest })
          elim room [
            | false ↦ decode_ready rounds num_seqs s'
            | true ↦ do
              s'' ← append_seq digest id s'
              r ← decode_ready rounds (num_seqs + 1) s''
              put_first id r
          ])
    ]
  ]

  -- Lines 56-59.
  abbrev pub put_back : List ℕ × Scheduler → Result (List ℕ × Bool × Scheduler)
  put_back ([], s) = ok ([], false, s)
  put_back (id ∷ ids, s) =
      ok (id ∷ ids, false, record s { running_ids = (id ∷ ids) ++ s.running_ids })

  abbrev pub or_decode_ready : List ℕ × Scheduler → Result (List ℕ × Bool × Scheduler)
  or_decode_ready (id ∷ ids, s) = ok (id ∷ ids, true, s)
  or_decode_ready ([], s) = do r ← decode_ready (length s.running_ids) 0 s; put_back r

  -- `TalkerScheduler.schedule`
  unfoldable pub talker_schedule : Scheduler → Result (List ℕ × Bool × Scheduler)
  talker_schedule s = do r ← prefill digest s.waiting_ids 0 0 s; or_decode_ready r

-- `if seq in self.running: self.running.remove(seq)`
abbrev pub drop_running : ℕ → Scheduler → Scheduler
drop_running id s =
    if contains s.running_ids id then record s { running_ids = remove id s.running_ids } else s

-- `clear_request`
abbrev pub clear_found : String → RequestScheduler → Option ℕ → Result RequestScheduler
clear_found request_id s none = ok s
clear_found request_id s (some id) = do
  q ← seq_at s.base id
  (m, q') ← deallocate s.base.block_manager q
  ok (record s {
    base = drop_running id (put_seq s.base m q');
    request_id_to_seq = erase request_id s.request_id_to_seq;
  })

unfoldable pub clear_request : String → RequestScheduler → Result RequestScheduler
clear_request request_id s = clear_found request_id s (lookup request_id s.request_id_to_seq)

-- `self.request_id_to_seq.pop(seq.request_id, None)` for a request's sequence.
abbrev pub forget : Option String → Dict String ℕ → Dict String ℕ
forget none requests = requests
forget (some request_id) requests = erase request_id requests

-- Lines 74-77: the sequence of a request ends by its end token alone.
abbrev pub talker_is_done : Scheduler → Sequence → ℕ → Bool
talker_is_done s q token = elim q.request_id [
  | none ↦ is_done s q token
  | some request_id ↦ not q.ignore_eos && (token == s.eos)
]

-- `append_token` and the next input, which is used up.
abbrev pub take_token : Sequence → ℕ → Sequence
take_token q token = record (append_token q token) { decode_input_embeds = false }

-- A round of `postprocess`, lines 71-83.
abbrev pub finish_request : RequestScheduler → Sequence → Result RequestScheduler
finish_request s q = do
  base ← finish_seq s.base q
  ok (record s { base = base; request_id_to_seq = forget q.request_id s.request_id_to_seq })

abbrev pub store_seq : RequestScheduler → Sequence → RequestScheduler
store_seq s q = record s { base = put_seq s.base s.base.block_manager q }

unfoldable pub talker_postprocess_seq : ℕ → ℕ → RequestScheduler → Result RequestScheduler
talker_postprocess_seq id token s = do
  q ← seq_at s.base id
  let q' = take_token q token
  if talker_is_done s.base q' token then finish_request s q' else ok (store_seq s q')

unfoldable pub talker_postprocess : List ℕ → List ℕ → RequestScheduler → Result RequestScheduler
talker_postprocess (id ∷ ids) (token ∷ tokens) s = do
  s' ← talker_postprocess_seq id token s
  talker_postprocess ids tokens s'
talker_postprocess _ _ s = ok s

abbrev pub known_request : Option String → RequestScheduler → Option ℕ
known_request none s = none
known_request (some request_id) s = lookup request_id s.request_id_to_seq

abbrev pub register : Option String → ℕ → Dict String ℕ → Dict String ℕ
register none id requests = requests
register (some request_id) id requests = insert request_id id requests

-- Lines 106-109 for a new sequence.
abbrev pub enqueue_request : Option String → Sequence → RequestScheduler → RequestScheduler
enqueue_request request_id q s = record {
  base = add s.base q;
  request_id_to_seq = register request_id q.seq_id s.request_id_to_seq;
  next_seq_id = s.next_seq_id + 1;
}

-- Lines 102-105: a request that is known gets its next input.
abbrev pub feed : ℕ → RequestScheduler → Result RequestScheduler
feed id s = do q ← seq_at s.base id; ok (store_seq s (record q { decode_input_embeds = true }))

-- `TalkerLLMEngine.add_request`, for the lengths of the embeddings. A known request ends the loop.
unfoldable pub talker_add_request :
    List (ℕ × SamplingParams) → Option String → RequestScheduler → Result RequestScheduler
talker_add_request [] request_id s = ok s
talker_add_request ((embeds_length, params) ∷ inputs) request_id s =
    elim (known_request request_id s) [
      | some id ↦ feed id s
      | none ↦ do
        q ← make_sequence s.next_seq_id [] (some embeds_length) params request_id
        talker_add_request inputs request_id (enqueue_request request_id q s)
    ]

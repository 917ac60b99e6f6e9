-- ===== src/Engine/Talker/Requests.antt =====
-- What the operations on a request do.
use nano_qwen3tts_vllm.Common.{
  ℕ, ◌<◌, ◌⊎◌, ◌↔◌, ◌==◌, option_eq, Option, if◌then◌else◌, ◌≡◌, refl, sym, ap, inl, inr, String,
  true, false, none, some, Bool-cases, Option-cases, arith, nat_eq, string_eq, remove, contains,
}
use nano_qwen3tts_vllm.Common.Dict.{Dict, lookup, erase, lookup-insert, lookup-erase}
use nano_qwen3tts_vllm.Common.Count.{count, contains-count, remove_absent}
use nano_qwen3tts_vllm.Engine.Effects.{Returns}
use nano_qwen3tts_vllm.Engine.Sequence.{Sequence, append_token, num_completion_tokens}
use nano_qwen3tts_vllm.Engine.Scheduler.{Scheduler, seq_at, put_seq}
use nano_qwen3tts_vllm.Engine.Scheduler.Prefill.{IsSound}
use nano_qwen3tts_vllm.Engine.Scheduler.Endings.{
  with_token, IsEnd, IsLast, emptied, IsEnded, finish_seq-IsEnded, put_seq-IsSound,
  deallocate-IsSound,
}
use nano_qwen3tts_vllm.Engine.Talker.{
  RequestScheduler, drop_running, clear_request, forget, talker_is_done, take_token, store_seq,
  talker_postprocess_seq,
}

-- The sequence with the token, and without a next input.
abbrev pub taken : Sequence → ℕ → Sequence
taken q token = record (with_token q token) { decode_input_embeds = false }

-- The token ends the sequence: the sequence of a request at an end token alone, any other one also where
-- it has as many tokens as it may.
abbrev pub TalkerIsLast : Scheduler → Sequence → ℕ → Type 0
TalkerIsLast s q token = IsEnd s q token ⊎ ((q.request_id ≡ none) × IsLast s q token)

talker_is_done_iff :
    (s : Scheduler) (q : Sequence) (token : ℕ)
    → (talker_is_done s (take_token q token) token ≡ true) ↔ TalkerIsLast s q token
unfolding append_token num_completion_tokens
talker_is_done_iff s q token = elim (Option-cases q.request_id) [
  | inl alone ↦ (λ e. ground arith, λ last. ground arith)
  | inr (r, own) ↦ (λ e. ground arith, λ last. ground arith)
]

lookup-forget :
    (r : String) (request_id : Option String) (requests : Dict String ℕ)
    → lookup r (forget request_id requests)
      ≡ (if some r == request_id then none else lookup r requests)
lookup-forget r none requests = ground arith
lookup-forget r (some request_id) requests = ground (arith, lookup-erase r request_id requests)

-- The outcomes of a round of the talker's `postprocess` for the sequence `q`.
pub data TalkerProcesses (s : RequestScheduler) (id : ℕ) (q : Sequence) (token : ℕ)
    (s' : RequestScheduler) : Type 0 where
  finishes :
      TalkerIsLast s.base q token
      → IsEnded s.base id (taken q token) s'.base
      → ((r : String)
          → lookup r s'.request_id_to_seq
            ≡ (if some r == q.request_id then none else lookup r s.request_id_to_seq))
      → TalkerProcesses s id q token s'
  goes_on :
      ¬ TalkerIsLast s.base q token
      → IsSound s'.base
      → s'.base.running_ids ≡ s.base.running_ids
      → lookup id s'.base.seqs ≡ some (taken q token)
      → s'.request_id_to_seq ≡ s.request_id_to_seq
      → TalkerProcesses s id q token s'

-- In a sound state a round of the talker's `postprocess` for a running sequence raises nothing and leaves
-- a sound state. Where the sequence is done, which for a request's one is at its end token alone, it is
-- finished, holds no block, has left the running queue, and its request is forgotten; otherwise it has
-- one more token, goes on running, and waits for its next input.
pub talker_postprocess_seq-TalkerProcesses :
    (s : RequestScheduler) (id token : ℕ) (q : Sequence)
    → IsSound s.base
    → lookup id s.base.seqs ≡ some q
    → 0 < count id s.base.running_ids
    → Returns (TalkerProcesses s id q token) (talker_postprocess_seq id token s)
unfolding talker_postprocess_seq append_token
talker_postprocess_seq-TalkerProcesses s id token q sound here listed =
    elim (Bool-cases (talker_is_done s.base (take_token q token) token)) [
      | inr more ↦
          let sound' = put_seq-IsSound s.base id q (take_token q token) sound here refl refl in
          (
            store_seq s (take_token q token),
            rw (here, seq_at) (rw more refl),
            goes_on (λ last. ground (arith, more, (talker_is_done_iff s.base q token).1 last))
                sound' refl
                (ground (
                  arith,
                  sound.keyed id q here,
                  lookup-insert id q.seq_id (take_token q token) s.base.seqs,
                ))
                refl,
          )
      | inl done ↦
          let (base, r, ended) =
            finish_seq-IsEnded s.base id q (take_token q token) sound here refl refl listed in
          (
            record s { base = base; request_id_to_seq = forget q.request_id s.request_id_to_seq },
            rw (here, seq_at) (rw done (rw r refl)),
            finishes ((talker_is_done_iff s.base q token).0 done) ended
                (λ r. lookup-forget r q.request_id s.request_id_to_seq),
          )
    ]

-- The outcomes of `clear_request`.
pub data Cleared (s : RequestScheduler) (request_id : String) (s' : RequestScheduler) : Type 0 where
  unknown : lookup request_id s.request_id_to_seq ≡ none → s' ≡ s → Cleared s request_id s'
  cleared :
      (id : ℕ) (q : Sequence)
      → lookup request_id s.request_id_to_seq ≡ some id
      → lookup id s.base.seqs ≡ some q
      → IsSound s'.base
      → lookup id s'.base.seqs ≡ some (emptied q)
      → s'.base.running_ids ≡ remove id s.base.running_ids
      → s'.base.waiting_ids ≡ s.base.waiting_ids
      → lookup request_id s'.request_id_to_seq ≡ none
      → Cleared s request_id s'

-- The requests name sequences that are there.
abbrev pub AreKnown : RequestScheduler → Type 0
AreKnown s =
    (request_id : String) (id : ℕ)
    → lookup request_id s.request_id_to_seq ≡ some id
    → (q : Sequence) × (lookup id s.base.seqs ≡ some q)

drop_running_eq :
    (id : ℕ) (s : Scheduler)
    → drop_running id s ≡ record s { running_ids = remove id s.running_ids }
drop_running_eq id s = elim (Bool-cases (contains s.running_ids id)) [
  | inl listed ↦ rw listed refl
  | inr unlisted ↦ rw unlisted (
      ap (λ ids. record s { running_ids = ids })
        (sym (remove_absent id s.running_ids (ground (arith, contains-count s.running_ids id)))))
]

-- In a sound state whose requests name sequences that are there, `clear_request` raises nothing. It
-- leaves the state as it is where the request is unknown. Otherwise the request is forgotten and its
-- sequence has no block and no place in the running queue, but keeps one that it has in the waiting
-- queue; and the state is sound.
pub clear_request-Cleared :
    (s : RequestScheduler) (request_id : String)
    → IsSound s.base
    → AreKnown s
    → Returns (Cleared s request_id) (clear_request request_id s)
unfolding clear_request
clear_request-Cleared s request_id sound known =
    elim (Option-cases (lookup request_id s.request_id_to_seq)) [
      | inl missing ↦ (s, rw missing refl, unknown missing refl)
      | inr (id, found) ↦
          let (q, here) = known request_id id found in
          let ((m, q'), r, (sound', e)) = deallocate-IsSound s.base id q q sound here refl refl in
          (
            record s {
              base = drop_running id (put_seq s.base m q');
              request_id_to_seq = erase request_id s.request_id_to_seq;
            },
            rw found (rw (here, seq_at) (rw r refl)),
            rw (drop_running_eq id (put_seq s.base m q')) (
                cleared id q found here
                  (record { counts = sound'.counts; size = sound'.size; keyed = sound'.keyed })
                  (ground (
                    arith,
                    e,
                    ap (λ q₁. q₁.seq_id) e,
                    sound.keyed id q here,
                    lookup-insert id q'.seq_id q' s.base.seqs,
                  ))
                  refl refl
                  (ground (arith, lookup-erase request_id request_id s.request_id_to_seq))),
          )
    ]

-- ===== src/Engine/Talker/Adding.antt =====
-- What the talker's `add_request` does.
use nano_qwen3tts_vllm.Common.{
  ℕ, ◌+◌, ◌==◌, option_eq, if◌then◌else◌, ◌≡◌, refl, inl, inr, String, true, false, [], ◌∷◌, ◌++◌,
  Option, none, some, Option-cases, arith, nat_eq, string_eq,
}
use nano_qwen3tts_vllm.Common.Dict.{Dict, lookup, lookup-insert, total-insert}
use nano_qwen3tts_vllm.Common.Count.{count}
use nano_qwen3tts_vllm.Engine.Effects.{Returns}
use nano_qwen3tts_vllm.Engine.Sequence.{Sequence, SamplingParams, waiting, make_sequence}
use nano_qwen3tts_vllm.Engine.Blocks.Allocation.{Counts-ext}
use nano_qwen3tts_vllm.Engine.Scheduler.{Scheduler, seq_at, add}
use nano_qwen3tts_vllm.Engine.Scheduler.Prefill.{IsSound}
use nano_qwen3tts_vllm.Engine.Scheduler.Endings.{put_seq-IsSound}
use nano_qwen3tts_vllm.Engine.Talker.{
  RequestScheduler, store_seq, talker_add_request, enqueue_request, register, known_request,
}
use nano_qwen3tts_vllm.Engine.Talker.Requests.{AreKnown}

-- The outcomes of the talker's `add_request` for one input.
pub data Added (s : RequestScheduler) (embeds_length : ℕ) (request_id : Option String)
    (s' : RequestScheduler) : Type 0 where
  fed :
      (r : String) (id : ℕ) (q : Sequence)
      → request_id ≡ some r
      → lookup r s.request_id_to_seq ≡ some id
      → lookup id s'.base.seqs ≡ some (record q { decode_input_embeds = true })
      → lookup id s.base.seqs ≡ some q
      → s'.base.waiting_ids ≡ s.base.waiting_ids
      → s'.base.running_ids ≡ s.base.running_ids
      → IsSound s'.base
      → Added s embeds_length request_id s'
  queued :
      (q : Sequence)
      → ((r : String) → request_id ≡ some r → lookup r s.request_id_to_seq ≡ none)
      → lookup s.next_seq_id s'.base.seqs ≡ some q
      → q.num_tokens ≡ embeds_length
      → q.request_id ≡ request_id
      → s'.base.waiting_ids ≡ s.base.waiting_ids ++ s.next_seq_id ∷ []
      → s'.base.running_ids ≡ s.base.running_ids
      → s'.next_seq_id ≡ s.next_seq_id + 1
      → ((r : String)
          → lookup r s'.request_id_to_seq
            ≡ (if some r == request_id then some s.next_seq_id else lookup r s.request_id_to_seq))
      → IsSound s'.base
      → Added s embeds_length request_id s'

lookup-register :
    (r : String) (request_id : Option String) (id : ℕ) (requests : Dict String ℕ)
    → lookup r (register request_id id requests)
      ≡ (if some r == request_id then some id else lookup r requests)
lookup-register r none id requests = ground arith
lookup-register r (some request_id) id requests =
    ground (arith, lookup-insert r request_id id requests)

module _ (s : Scheduler) (sound : IsSound s) (q : Sequence) (new : lookup q.seq_id s.seqs ≡ none)
    (bare : q.block_table ≡ []) where
  -- A new sequence without blocks.
  add-IsSound : IsSound (add s q)
  unfolding add count
  add-IsSound = record {
    counts = Counts-ext s.block_manager _ _ sound.counts (λ j.
        ground (arith, new, bare, total-insert (λ q'. count j q'.block_table) q.seq_id q s.seqs));
    size = sound.size;
    keyed = λ j q' e. ground (arith, lookup-insert j q.seq_id q s.seqs, sound.keyed j q');
  }

-- In a sound state whose requests name sequences that are there and whose counter names none, the
-- talker's `add_request` of one input raises nothing. A known request's sequence gets its next input
-- and neither queue changes; otherwise a new sequence, as long as the input, is the last of the waiting
-- queue, and is the request's if there is one.
pub talker_add_request-Added :
    (s : RequestScheduler) (embeds_length : ℕ) (params : SamplingParams)
    (request_id : Option String)
    → IsSound s.base
    → AreKnown s
    → lookup s.next_seq_id s.base.seqs ≡ none
    → Returns
        (Added s embeds_length request_id)
        (talker_add_request ((embeds_length, params) ∷ []) request_id s)
unfolding talker_add_request make_sequence add
talker_add_request-Added s embeds_length params request_id sound known new =
    elim (Option-cases (known_request request_id s)) [
      | inl missing ↦
          let q : Sequence = record {
            seq_id = s.next_seq_id;
            status = waiting;
            request_id = request_id;
            decode_input_embeds = false;
            token_ids = [];
            last_token = none;
            num_tokens = embeds_length;
            num_prompt_tokens = 0;
            num_cached_tokens = 0;
            block_table = [];
            max_tokens = params.max_tokens;
            ignore_eos = params.ignore_eos;
            generation_steps = 0;
          } in
          (
            enqueue_request request_id q s,
            rw (missing, talker_add_request) refl,
            queued q (λ r e. ground arith)
                (ground (arith, lookup-insert s.next_seq_id s.next_seq_id q s.base.seqs)) refl refl
                refl refl refl (λ r. lookup-register r request_id s.next_seq_id s.request_id_to_seq)
                (add-IsSound s.base sound q new refl),
          )
      | inr (id, found) ↦
          let (r, asked, listed) = named request_id found in
          let (q, here) = known r id listed in
          let q' : Sequence = record q { decode_input_embeds = true } in
          (
            store_seq s q',
            rw (found, talker_add_request) (rw (here, seq_at) refl),
            fed r id q asked listed
                (ground (arith, sound.keyed id q here, lookup-insert id q.seq_id q' s.base.seqs))
                here refl refl (put_seq-IsSound s.base id q q' sound here refl refl),
          )
    ]
  where
    named :
        {id : ℕ} (request : Option String)
        → known_request request s ≡ some id
        → (r : String) × (request ≡ some r) × (lookup r s.request_id_to_seq ≡ some id)
    named none e = cc
    named (some request) e = (request, refl, e)

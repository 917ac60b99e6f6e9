-- ===== src/Engine/Predictor.antt =====
-- nano_qwen3tts_vllm/engine/llm_engine/base.py and predictor_llm_engine.py. The runner of the model is a
-- parameter: it gets the scheduled sequences and gives a token for each.
mod Tests
pub mod Ended
use nano_qwen3tts_vllm.Common.{
  ℕ, zero, suc, ◌+◌, String, Bool, true, false, List, [], ◌∷◌, ◌++◌, Option, none, some, length,
  if◌then◌else◌, nat_eq, string_eq, ℤ,
}
use nano_qwen3tts_vllm.Common.Dict.{Dict, lookup, insert, erase}
use nano_qwen3tts_vllm.Engine.Effects.{Result, ok, raise, ◌>>=◌}
use nano_qwen3tts_vllm.Engine.Sequence.{Sequence, SamplingParams, make_sequence, is_finished}
use nano_qwen3tts_vllm.Engine.Scheduler.{
  Scheduler, seq_at, add, schedule, postprocess, scheduler_is_finished, put_seq,
}
use nano_qwen3tts_vllm.Engine.Talker.{RequestScheduler, forget, enqueue_request, store_seq}
use nano_qwen3tts_vllm.Engine.Talker.Steps.{seqs_at, Output, finished_outputs, num_tokens_of}

-- `LLMEngine.add_request`, for the lengths of the embeddings and the next sequence's number.
unfoldable pub base_add_request : List (ℕ × SamplingParams) → ℕ → Scheduler → Result Scheduler
base_add_request [] next_seq_id s = ok s
base_add_request ((embeds_length, params) ∷ inputs) next_seq_id s = do
  q ← make_sequence next_seq_id [] (some embeds_length) params none
  base_add_request inputs (next_seq_id + 1) (add s q)

-- `LLMEngine.step`, after `schedule`: the outputs, the number of tokens and the scheduler.
abbrev pub base_run :
    (List Sequence → Bool → List ℕ)
    → List ℕ × Bool × Scheduler
    → Result (List Output × ℤ × Scheduler)
base_run runner (ids, is_prefill, s) = do
  qs ← seqs_at s ids
  s' ← postprocess ids (runner qs is_prefill) s
  qs' ← seqs_at s' ids
  ok (finished_outputs qs', num_tokens_of is_prefill qs', s')

unfoldable pub base_step :
    (List ℕ → Option ℕ → ℕ)
    → (List Sequence → Bool → List ℕ)
    → Scheduler
    → Result (List Output × ℤ × Scheduler)
base_step digest runner s = do r ← schedule digest s; base_run runner r

abbrev pub engine_is_finished : Scheduler → Bool
engine_is_finished s = scheduler_is_finished s

-- `PredictorLLMEngine.add_request`: a request that is known is queued again.
unfoldable pub predictor_add_request :
    List (ℕ × SamplingParams) → Option String → RequestScheduler → Result RequestScheduler
predictor_add_request [] request_id s = ok s
predictor_add_request ((embeds_length, params) ∷ inputs) request_id s = do
  q ← make_sequence s.next_seq_id [] (some embeds_length) params request_id
  predictor_add_request inputs request_id (enqueue_request request_id q s)

-- Lines 28-30: the requests of finished sequences are forgotten.
abbrev pub forget_if : Bool → Option String → Dict String ℕ → Dict String ℕ
forget_if false request_id requests = requests
forget_if true request_id requests = forget request_id requests

unfoldable pub forget_finished : List ℕ → RequestScheduler → Result RequestScheduler
forget_finished [] s = ok s
forget_finished (id ∷ ids) s = do
  q ← seq_at s.base id
  forget_finished ids
      (record s { request_id_to_seq = forget_if (is_finished q) q.request_id s.request_id_to_seq })

-- `PredictorScheduler.postprocess`
unfoldable pub predictor_postprocess : List ℕ → List ℕ → RequestScheduler → Result RequestScheduler
predictor_postprocess ids tokens s = do
  base ← postprocess ids tokens s.base
  forget_finished ids (record s { base = base })

-- Lines 61-62.
unfoldable pub count_steps : List ℕ → RequestScheduler → Result RequestScheduler
count_steps [] s = ok s
count_steps (id ∷ ids) s = do
  q ← seq_at s.base id
  count_steps ids (store_seq s (record q { generation_steps = q.generation_steps + 1 }))

abbrev pub predictor_run :
    (List Sequence → Bool → List ℕ)
    → RequestScheduler
    → List ℕ × Bool × Scheduler
    → Result (List Output × ℤ × RequestScheduler)
predictor_run runner s (ids, is_prefill, base) = do
  qs ← seqs_at base ids
  s' ← predictor_postprocess ids (runner qs is_prefill) (record s { base = base })
  s'' ← count_steps ids s'
  qs' ← seqs_at s''.base ids
  ok (finished_outputs qs', num_tokens_of is_prefill qs', s'')

-- `PredictorLLMEngine.step`
unfoldable pub predictor_step :
    (List ℕ → Option ℕ → ℕ)
    → (List Sequence → Bool → List ℕ)
    → RequestScheduler
    → Result (List Output × ℤ × RequestScheduler)
predictor_step digest runner s = do r ← schedule digest s.base; predictor_run runner s r

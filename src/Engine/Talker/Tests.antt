-- ===== src/Engine/Talker/Tests.antt =====
-- A talker with one request: its first input, its steps without a next one, its token and its end.
use nano_qwen3tts_vllm.Common.{
  ℕ, ◌≡◌, refl, Bool, false, List, [], ◌∷◌, Option, none, some, length, nat_eq, string_eq,
  ℕ_discrete, arith, remove, pos,
}
use nano_qwen3tts_vllm.Common.Dict.{lookup, insert, erase, total}
use nano_qwen3tts_vllm.Common.Count.{count}
use nano_qwen3tts_vllm.Engine.Effects.{ok, Returns}
use nano_qwen3tts_vllm.Engine.Sequence.{
  Sequence, SamplingParams, waiting, make_sequence, append_token, num_completion_tokens,
}
use nano_qwen3tts_vllm.Engine.Blocks.{
  make_manager, ids_from, blank_blocks, deallocate, release_blocks,
}
use nano_qwen3tts_vllm.Engine.Blocks.Allocation.{Counts-ext}
use nano_qwen3tts_vllm.Engine.Blocks.Cycle.{make_manager-Counts}
use nano_qwen3tts_vllm.Engine.Scheduler.{make_scheduler, add}
use nano_qwen3tts_vllm.Engine.Scheduler.Prefill.{IsSound}
use nano_qwen3tts_vllm.Engine.Talker.{
  RequestScheduler, is_ready, clear_request, talker_postprocess_seq, talker_add_request,
}
use nano_qwen3tts_vllm.Engine.Talker.Steps.{step_with_outputs}
use nano_qwen3tts_vllm.Engine.Talker.Idle.{step_idle}
use nano_qwen3tts_vllm.Engine.Talker.Requests.{
  TalkerProcesses, talker_postprocess_seq-TalkerProcesses, Cleared, clear_request-Cleared,
}
use nano_qwen3tts_vllm.Engine.Talker.Adding.{Added, talker_add_request-Added}

-- Names everything that a run computes with.
run : Unit {0}
unfolding make_manager ids_from blank_blocks deallocate release_blocks lookup insert erase remove
    ℕ_discrete string_eq make_sequence append_token num_completion_tokens make_scheduler add
    is_ready clear_request talker_postprocess_seq talker_add_request count total
run = tt

abbrev length_digest : List ℕ → Option ℕ → ℕ
length_digest tokens prefix = length tokens

abbrev params : SamplingParams
params = record { max_tokens = 1; ignore_eos = false }

abbrev blank : RequestScheduler
blank = record { base = make_scheduler 2 512 9 2 256; request_id_to_seq = []; next_seq_id = 4 }

blank-IsSound : IsSound blank.base
unfolding run
blank-IsSound = record {
  counts = Counts-ext _ _ _ (make_manager-Counts 2 256) (λ j. omega arith);
  size = refl;
  keyed = λ id q e. cc;
}

talker_add_request-Added_example :
    Returns (Added blank 5 (some "r")) (talker_add_request ((5, params) ∷ []) (some "r") blank)
unfolding run
talker_add_request-Added_example =
    talker_add_request-Added blank 5 params (some "r") blank-IsSound (λ request id e. cc) refl

abbrev prompt : Sequence
prompt = record {
  seq_id = 4;
  status = waiting;
  request_id = some "r";
  decode_input_embeds = false;
  token_ids = [];
  last_token = none;
  num_tokens = 5;
  num_prompt_tokens = 0;
  num_cached_tokens = 0;
  block_table = [];
  max_tokens = 1;
  ignore_eos = false;
  generation_steps = 0;
}

abbrev one_request : RequestScheduler
one_request = record {
  base = record (blank.base) { waiting_ids = 4 ∷ []; seqs = (4, prompt) ∷ [] };
  request_id_to_seq = ("r", 4) ∷ [];
  next_seq_id = 5;
}

request_added : talker_add_request ((5, params) ∷ []) (some "r") blank ≡ ok one_request
unfolding run
request_added = refl

one_request-IsSound : IsSound one_request.base
unfolding run
one_request-IsSound = record {
  counts = Counts-ext _ _ _ (make_manager-Counts 2 256) (λ j. omega arith);
  size = refl;
  keyed = λ id q e. ground arith;
}

clear_request-Cleared_example : Returns (Cleared one_request "r") (clear_request "r" one_request)
unfolding run
clear_request-Cleared_example =
    clear_request-Cleared one_request "r" one_request-IsSound
      (λ request id e. (prompt, ground arith))

-- The request is gone, and its sequence still waits to be admitted.
cleared_still_waits :
    clear_request "r" one_request ≡ ok (record one_request { request_id_to_seq = [] })
unfolding run
cleared_still_waits = refl

-- The same sequence in the running queue.
abbrev one_runs : RequestScheduler
one_runs = record one_request {
  base = record (one_request.base) { waiting_ids = []; running_ids = 4 ∷ [] };
}

one_runs-IsSound : IsSound one_runs.base
one_runs-IsSound = record {
  counts = one_request-IsSound.counts;
  size = one_request-IsSound.size;
  keyed = one_request-IsSound.keyed;
}

talker_postprocess_seq-TalkerProcesses_example :
    Returns (TalkerProcesses one_runs 4 prompt 9) (talker_postprocess_seq 4 9 one_runs)
unfolding run
talker_postprocess_seq-TalkerProcesses_example =
    talker_postprocess_seq-TalkerProcesses one_runs 4 9 prompt one_runs-IsSound refl (ground arith)

abbrev no_tokens : List Sequence → Bool → List ℕ
no_tokens seqs is_prefill = []

step_idle_example :
    step_with_outputs length_digest no_tokens one_runs
    ≡ ok (record { outputs = []; num_tokens = pos 0; outputs_all = []; later = one_runs })
unfolding run
step_idle_example = step_idle length_digest no_tokens one_runs refl ((prompt, refl, refl), tt)

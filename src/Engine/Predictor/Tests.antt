-- ===== src/Engine/Predictor/Tests.antt =====
-- A request of the predictor: it is queued and it ends.
use nano_qwen3tts_vllm.Common.{
  ◌≡◌, refl, false, [], ◌∷◌, none, some, nat_eq, string_eq, ℕ_discrete, remove,
}
use nano_qwen3tts_vllm.Common.Dict.{lookup, insert, erase}
use nano_qwen3tts_vllm.Engine.Effects.{ok, Returns}
use nano_qwen3tts_vllm.Engine.Sequence.{
  Sequence, waiting, finished, make_sequence, append_token, num_completion_tokens,
}
use nano_qwen3tts_vllm.Engine.Blocks.{
  make_manager, ids_from, blank_blocks, deallocate, release_blocks,
}
use nano_qwen3tts_vllm.Engine.Scheduler.{
  Scheduler, make_scheduler, add, postprocess_seq, postprocess,
}
use nano_qwen3tts_vllm.Engine.Talker.{RequestScheduler}
use nano_qwen3tts_vllm.Engine.Predictor.{
  predictor_add_request, predictor_postprocess, forget_finished,
}
use nano_qwen3tts_vllm.Engine.Predictor.Ended.{IsForgotten, predictor_postprocess-IsForgotten}

-- Names everything that a run computes with.
run : Unit {0}
unfolding make_manager ids_from blank_blocks deallocate release_blocks lookup insert erase remove
    ℕ_discrete string_eq make_sequence append_token num_completion_tokens make_scheduler add
    postprocess_seq postprocess predictor_add_request predictor_postprocess forget_finished
run = tt

abbrev prompt : Sequence
prompt = record {
  seq_id = 4;
  status = waiting;
  request_id = some "r";
  decode_input_embeds = false;
  token_ids = [];
  last_token = none;
  num_tokens = 5;
  num_prompt_tokens = 0;
  num_cached_tokens = 0;
  block_table = [];
  max_tokens = 1;
  ignore_eos = false;
  generation_steps = 0;
}

abbrev blank : RequestScheduler
blank = record { base = make_scheduler 2 512 9 2 256; request_id_to_seq = []; next_seq_id = 4 }

abbrev queued : RequestScheduler
queued = record {
  base = record (blank.base) { waiting_ids = 4 ∷ []; seqs = (4, prompt) ∷ [] };
  request_id_to_seq = ("r", 4) ∷ [];
  next_seq_id = 5;
}

request_queued :
    predictor_add_request ((5, record { max_tokens = 1; ignore_eos = false }) ∷ []) (some "r") blank
    ≡ ok queued
unfolding run
request_queued = refl

abbrev one_runs : RequestScheduler
one_runs = record queued { base = record (queued.base) { waiting_ids = []; running_ids = 4 ∷ [] } }

abbrev last_round : Sequence
last_round = record prompt {
  status = finished;
  token_ids = 9 ∷ [];
  last_token = some 9;
  num_tokens = 6;
}

abbrev ended : Scheduler
ended = record (blank.base) { seqs = (4, last_round) ∷ [] }

one_ends : postprocess (4 ∷ []) (9 ∷ []) one_runs.base ≡ ok ended
unfolding run
one_ends = refl

request_forgotten :
    predictor_postprocess (4 ∷ []) (9 ∷ []) one_runs
    ≡ ok (record one_runs { base = ended; request_id_to_seq = [] })
unfolding run
request_forgotten = refl

predictor_postprocess-IsForgotten_example :
    Returns
      (IsForgotten (record one_runs { base = ended }) (4 ∷ []))
      (predictor_postprocess (4 ∷ []) (9 ∷ []) one_runs)
unfolding run
predictor_postprocess-IsForgotten_example =
    predictor_postprocess-IsForgotten (4 ∷ []) (9 ∷ []) one_runs ended one_ends
      ((last_round, refl), tt)

-- ===== src/Engine/Scheduler/Tests.antt =====
-- A scheduler with one sequence: its prefill, its preemption and its end.
use nano_qwen3tts_vllm.Common.{
  ℕ, ◌<◌, ◌≡◌, refl, true, false, List, [], ◌∷◌, Option, none, some, length, nat_eq, list_eq,
  remove, ℕ_discrete, arith,
}
use nano_qwen3tts_vllm.Common.Dict.{lookup, insert, total}
use nano_qwen3tts_vllm.Common.Count.{count}
use nano_qwen3tts_vllm.Engine.Effects.{ok, Returns, Returns-at}
use nano_qwen3tts_vllm.Engine.Sequence.{
  Sequence, waiting, running, num_blocks, block, append_token, num_completion_tokens,
}
use nano_qwen3tts_vllm.Engine.Blocks.{
  make_manager, ids_from, blank_blocks, block_at, allocate_block, deallocate_block, can_allocate,
  share_block, first_free, fresh_block, record_hash, cache_hit, choose_block, allocate_round,
  allocate_rounds, allocate, release_block, release_blocks, deallocate,
}
use nano_qwen3tts_vllm.Engine.Blocks.Allocation.{Counts-ext}
use nano_qwen3tts_vllm.Engine.Blocks.Cycle.{make_manager-Counts}
use nano_qwen3tts_vllm.Engine.Scheduler.{
  make_room, Scheduler, make_scheduler, add, prefill, schedule, preempt, postprocess_seq,
}
use nano_qwen3tts_vllm.Engine.Scheduler.Prefill.{
  IsSound, AreWaiting, IsPrefilled, prefill-IsPrefilled,
}
use nano_qwen3tts_vllm.Engine.Scheduler.Fuel.{IsStored, MadeSound, make_room-Made}
use nano_qwen3tts_vllm.Engine.Scheduler.Endings.{
  IsPreempted, preempt-IsPreempted, Processes, postprocess_seq-Processes,
}

-- Names everything that a run computes with.
run : Unit {0}
unfolding make_manager ids_from blank_blocks block_at allocate_block deallocate_block can_allocate
    share_block first_free fresh_block record_hash cache_hit choose_block allocate_round
    allocate_rounds allocate release_block release_blocks deallocate num_blocks block append_token
    lookup insert remove list_eq ℕ_discrete num_completion_tokens make_scheduler add prefill
    schedule preempt postprocess_seq count total
run = tt

abbrev length_digest : List ℕ → Option ℕ → ℕ
length_digest tokens prefix = length tokens

abbrev one_token : Sequence
one_token = record {
  seq_id = 3;
  status = waiting;
  request_id = none;
  decode_input_embeds = false;
  token_ids = 5 ∷ [];
  last_token = some 5;
  num_tokens = 1;
  num_prompt_tokens = 1;
  num_cached_tokens = 0;
  block_table = [];
  max_tokens = 1;
  ignore_eos = false;
  generation_steps = 0;
}

abbrev one_waits : Scheduler
one_waits = add (make_scheduler 2 512 9 2 256) one_token

one_waits-IsSound : IsSound one_waits
unfolding run
one_waits-IsSound = record {
  counts = Counts-ext _ _ _ (make_manager-Counts 2 256) (λ j. omega arith);
  size = refl;
  keyed = λ id q e. ground arith;
}

one_waits-AreWaiting : AreWaiting one_waits (3 ∷ [])
unfolding run
one_waits-AreWaiting = record {
  bare = λ id listed. (one_token, ground arith, refl);
  once = λ id. ground arith;
}

prefill-IsPrefilled_example :
    Returns (IsPrefilled one_waits (3 ∷ []) 0) (prefill length_digest (3 ∷ []) 0 0 one_waits)
unfolding run
prefill-IsPrefilled_example =
    prefill-IsPrefilled length_digest (3 ∷ []) 0 0 one_waits one_waits-IsSound one_waits-AreWaiting
      refl (omega arith)

abbrev one_runs : Scheduler
one_runs = record {
  max_num_seqs = 2;
  max_num_batched_tokens = 512;
  eos = 9;
  block_manager = record {
    block_size = 256;
    blocks =
        record { ref_count = 1; hash = none; token_ids = [] }
        ∷ record { ref_count = 0; hash = none; token_ids = [] }
        ∷ [];
    hash_to_block_id = [];
    free_block_ids = 1 ∷ [];
    used_block_ids = 0 ∷ [];
  };
  waiting_ids = [];
  running_ids = 3 ∷ [];
  seqs = (3, record one_token { status = running; block_table = 0 ∷ [] }) ∷ [];
}

one_scheduled : schedule length_digest one_waits ≡ ok (3 ∷ [], true, one_runs)
unfolding run
one_scheduled = refl

one_prefilled : prefill length_digest (3 ∷ []) 0 0 one_waits ≡ ok (3 ∷ [], one_runs)
unfolding run
one_prefilled = refl

one_runs-IsSound : IsSound one_runs
one_runs-IsSound =
    (Returns-at _ _ (3 ∷ [], one_runs) prefill-IsPrefilled_example one_prefilled).sound

preempt-IsPreempted_example :
    Returns
      (IsPreempted one_runs 3 (record one_token { status = running; block_table = 0 ∷ [] }))
      (preempt 3 one_runs)
unfolding run
preempt-IsPreempted_example =
    preempt-IsPreempted one_runs 3 (record one_token { status = running; block_table = 0 ∷ [] })
      one_runs-IsSound refl

postprocess_seq-Processes_example :
    Returns
      (Processes one_runs 3 (record one_token { status = running; block_table = 0 ∷ [] }) 7)
      (postprocess_seq 3 7 one_runs)
unfolding run
postprocess_seq-Processes_example =
    postprocess_seq-Processes one_runs 3 7
      (record one_token { status = running; block_table = 0 ∷ [] }) one_runs-IsSound refl
      (ground arith)

-- The ids that run are those of the one sequence.
one_runs-IsStored : (j : ℕ) → 0 < count j one_runs.running_ids → IsStored one_runs j
unfolding run
one_runs-IsStored j listed = elim (nat_eq.dec j 3) [
  | yes same ↦ rw same (record one_token { status = running; block_table = 0 ∷ [] }, refl)
  | no other ↦ absurd (ground arith)
]

make_room-Made_example : Returns (MadeSound one_runs 3) (make_room 1 3 one_runs)
unfolding run
make_room-Made_example =
    make_room-Made 1 3 one_runs (omega arith) one_runs-IsSound
      (record one_token { status = running; block_table = 0 ∷ [] }, refl) one_runs-IsStored

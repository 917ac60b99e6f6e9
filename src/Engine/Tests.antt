-- ===== src/Engine/Tests.antt =====
-- The block manager and sequences at small inputs.
use nano_qwen3tts_vllm.Common.{
  ℕ, ◌+◌, ◌-◌, ◌*◌, ◌≤◌, ◌<◌, ◌≡◌, refl, false, List, [], ◌∷◌, Option, none, some, length, nat_eq,
  list_eq, remove, ℕ_discrete, arith,
}
use nano_qwen3tts_vllm.Common.Dict.{lookup, insert}
use nano_qwen3tts_vllm.Common.Count.{count}
use nano_qwen3tts_vllm.Engine.Effects.{ok, raise, assertion_error, Returns, Returns-at, ◌>>=◌}
use nano_qwen3tts_vllm.Engine.Sequence.{
  Sequence, waiting, num_blocks, last_block_num_tokens, block, append_token, get_state, set_state,
  num_completion_tokens,
}
use nano_qwen3tts_vllm.Engine.Sequence.Partition.{
  first_blocks, all_blocks, last_block_bounds, Restored, set_state-get_state,
}
use nano_qwen3tts_vllm.Engine.Blocks.{
  BlockManager, make_manager, ids_from, blank_blocks, block_at, allocate_block, deallocate_block,
  can_allocate, share_block, first_free, fresh_block, record_hash, cache_hit, choose_block,
  allocate_round, allocate_rounds, allocate, release_block, release_blocks, deallocate, can_append,
  last_id, append_block, fill_block, may_append,
}
use nano_qwen3tts_vllm.Engine.Blocks.Counts.{Counts}
use nano_qwen3tts_vllm.Engine.Blocks.Filling.{Tabled, allocate-Tabled}
use nano_qwen3tts_vllm.Engine.Blocks.Release.{Released, deallocate-Released}
use nano_qwen3tts_vllm.Engine.Blocks.Cycle.{Passed, deallocate-allocate, make_manager-Counts}
use nano_qwen3tts_vllm.Engine.Blocks.Appending.{IsMarked, Appended, may_append-Appended}
use nano_qwen3tts_vllm.Engine.Blocks.Prompts.{allocate-IsMarked, embeddings_fail}

-- Names everything that a run computes with.
run : Unit {0}
unfolding make_manager ids_from blank_blocks block_at allocate_block deallocate_block can_allocate
    share_block first_free fresh_block record_hash cache_hit choose_block allocate_round
    allocate_rounds allocate release_block release_blocks deallocate can_append last_id append_block
    fill_block may_append num_blocks block last_block_num_tokens append_token lookup insert remove
    list_eq ℕ_discrete first_blocks get_state set_state num_completion_tokens
run = tt

abbrev length_digest : List ℕ → Option ℕ → ℕ
length_digest tokens prefix = length tokens

abbrev two_tokens : Sequence
two_tokens = record {
  seq_id = 0;
  status = waiting;
  request_id = none;
  decode_input_embeds = false;
  token_ids = 5 ∷ 6 ∷ [];
  last_token = some 6;
  num_tokens = 2;
  num_prompt_tokens = 2;
  num_cached_tokens = 0;
  block_table = [];
  max_tokens = 8;
  ignore_eos = false;
  generation_steps = 0;
}

abbrev full_embeddings : Sequence
full_embeddings = record two_tokens {
  token_ids = [];
  last_token = none;
  num_tokens = 256;
  num_prompt_tokens = 0;
}

abbrev two_blocks : BlockManager
two_blocks = make_manager 2 256

two_blocks-Counts : Counts two_blocks (λ j. 0)
two_blocks-Counts = make_manager-Counts 2 256

allocate-Tabled_example :
    Returns
      (λ (m', s'). Tabled two_blocks two_tokens (λ j. 0) (num_blocks two_tokens) m' s')
      (allocate length_digest two_blocks two_tokens)
unfolding run
allocate-Tabled_example =
    allocate-Tabled length_digest two_blocks two_tokens (λ j. 0) two_blocks-Counts refl refl refl

abbrev after_allocate : BlockManager × Sequence
after_allocate = (
  record {
    block_size = 256;
    blocks =
        record { ref_count = 1; hash = none; token_ids = [] }
        ∷ record { ref_count = 0; hash = none; token_ids = [] }
        ∷ [];
    hash_to_block_id = [];
    free_block_ids = 1 ∷ [];
    used_block_ids = 0 ∷ [];
  },
  record two_tokens { block_table = 0 ∷ [] },
)

allocated : allocate length_digest two_blocks two_tokens ≡ ok after_allocate
unfolding run
allocated = refl

after_allocate-Tabled :
    Tabled two_blocks two_tokens (λ j. 0) (num_blocks two_tokens) after_allocate.0 after_allocate.1
after_allocate-Tabled = Returns-at _ _ after_allocate allocate-Tabled_example allocated

deallocate-Released_example :
    Returns
      (λ (m', s').
        Released after_allocate.0 (λ j. 0) m'
        × (s' ≡ record (after_allocate.1) { num_cached_tokens = 0; block_table = [] }))
      (deallocate after_allocate.0 after_allocate.1)
deallocate-Released_example =
    deallocate-Released after_allocate.0 after_allocate.1 (λ j. 0) after_allocate-Tabled.counts

deallocate-allocate_example :
    Returns
      (λ (m', s'). Passed two_blocks two_tokens (λ j. 0) m' s')
      (allocate length_digest two_blocks two_tokens >>= λ (m', s'). deallocate m' s')
unfolding run
deallocate-allocate_example =
    deallocate-allocate length_digest two_blocks two_tokens (λ j. 0) two_blocks-Counts refl refl
      refl

allocate-IsMarked_example :
    Returns
      (λ (m', s'). Counts m' (λ j. count j s'.block_table + 0) × IsMarked m' s')
      (allocate length_digest two_blocks two_tokens)
unfolding run
allocate-IsMarked_example =
    allocate-IsMarked length_digest two_blocks two_tokens (λ j. 0) two_blocks-Counts refl refl refl
      (omega arith) refl

after_allocate-IsMarked :
    Counts after_allocate.0 (λ j. count j (0 ∷ []) + 0) × IsMarked after_allocate.0 after_allocate.1
after_allocate-IsMarked = Returns-at _ _ after_allocate allocate-IsMarked_example allocated

may_append-Appended_example :
    Returns
      (λ (m', s'). Appended (append_token after_allocate.1 7) (λ j. 0) m' s')
      (may_append length_digest after_allocate.0 (append_token after_allocate.1 7))
unfolding run
may_append-Appended_example =
    may_append-Appended length_digest after_allocate.0 after_allocate.1 7 (λ j. 0)
      after_allocate-IsMarked.0 refl after_allocate-IsMarked.1 refl

embeddings_fail_example :
    Returns
      (λ (m', s'). may_append length_digest m' (append_token s' 7) ≡ raise assertion_error)
      (allocate length_digest two_blocks full_embeddings)
unfolding run
embeddings_fail_example =
    embeddings_fail length_digest two_blocks full_embeddings (λ j. 0) two_blocks-Counts refl refl
      refl (omega arith) 7 refl refl

all_blocks_example : first_blocks (num_blocks two_tokens) two_tokens ≡ ok (5 ∷ 6 ∷ [])
all_blocks_example = all_blocks two_tokens refl

last_block_bounds_example :
    (0 < last_block_num_tokens two_tokens)
    × (last_block_num_tokens two_tokens ≤ 256)
    × ((num_blocks two_tokens - 1) * 256 + last_block_num_tokens two_tokens ≡ 2)
last_block_bounds_example = last_block_bounds two_tokens (omega arith)

set_state-get_state_example :
    Returns (Restored two_tokens full_embeddings) (set_state (get_state two_tokens) full_embeddings)
set_state-get_state_example = set_state-get_state two_tokens full_embeddings

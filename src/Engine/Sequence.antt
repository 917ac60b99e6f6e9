-- ===== src/Engine/Sequence.antt =====
-- nano_qwen3tts_vllm/engine/sequence.py, over token ids and the length of the input embeddings.
pub mod Partition
use nano_qwen3tts_vllm.Common.{
  ℕ, zero, suc, ◌+◌, ◌-◌, ◌*◌, ◌/◌, ◌%◌, ◌≤◌, ◌<◌, ◌≡◌, refl, String, Bool, true, false, List, [],
  ◌∷◌, ◌++◌, Option, none, some, length, slice, last?, take, drop, arith, ltb, leb, if◌then◌else◌,
  ◌==◌, nat_eq,
}
use nano_qwen3tts_vllm.Engine.Effects.{
  Result, ok, raise, assertion_error, attribute_error, value_error,
}

pub data SequenceStatus : Type 0 where
  waiting running finished : SequenceStatus

-- The fields that the engine reads; `decode_input_embeds` and `last_hidden_state` are tensors, of
-- which it matters only whether they are there.
pub record Sequence : Type 0 where
  pub seq_id : ℕ
  pub status : SequenceStatus
  pub request_id : Option String
  pub decode_input_embeds : Bool
  pub token_ids : List ℕ
  pub last_token : Option ℕ
  pub num_tokens : ℕ
  pub num_prompt_tokens : ℕ
  pub num_cached_tokens : ℕ
  pub block_table : List ℕ
  pub max_tokens : ℕ
  pub ignore_eos : Bool
  pub generation_steps : ℕ

-- `Sequence.block_size`
abbrev pub block_size : ℕ
block_size = 256

pub record SamplingParams : Type 0 where
  pub max_tokens : ℕ
  pub ignore_eos : Bool

-- The constructor: the tokens, or else the second dimension of the embeddings, give the length.
unfoldable pub make_sequence :
    ℕ → List ℕ → Option ℕ → SamplingParams → Option String → Result Sequence
make_sequence seq_id [] none params request_id = raise attribute_error
make_sequence seq_id [] (some embeds_length) params request_id = ok (record {
  seq_id = seq_id;
  status = waiting;
  request_id = request_id;
  decode_input_embeds = false;
  token_ids = [];
  last_token = none;
  num_tokens = embeds_length;
  num_prompt_tokens = 0;
  num_cached_tokens = 0;
  block_table = [];
  max_tokens = params.max_tokens;
  ignore_eos = params.ignore_eos;
  generation_steps = 0;
})
make_sequence seq_id (t ∷ ts) embeds params request_id = ok (record {
  seq_id = seq_id;
  status = waiting;
  request_id = request_id;
  decode_input_embeds = false;
  token_ids = t ∷ ts;
  last_token = last? (t ∷ ts);
  num_tokens = length (t ∷ ts);
  num_prompt_tokens = length (t ∷ ts);
  num_cached_tokens = 0;
  block_table = [];
  max_tokens = params.max_tokens;
  ignore_eos = params.ignore_eos;
  generation_steps = 0;
})

abbrev pub is_finished : Sequence → Bool
is_finished s = elim s.status [ finished ↦ true | _ ↦ false ]

unfoldable pub num_completion_tokens : Sequence → ℕ
num_completion_tokens s = s.num_tokens - s.num_prompt_tokens

unfoldable pub prompt_token_ids : Sequence → List ℕ
prompt_token_ids s = take s.num_prompt_tokens s.token_ids

unfoldable pub completion_token_ids : Sequence → List ℕ
completion_token_ids s = drop s.num_prompt_tokens s.token_ids

unfoldable pub num_cached_blocks : Sequence → ℕ
num_cached_blocks s = s.num_cached_tokens / block_size

unfoldable pub num_blocks : Sequence → ℕ
num_blocks s = (s.num_tokens + block_size - 1) / block_size

-- Without tokens there are no blocks, and Python counts from block -1: 0 - (-1) * 256.
unfoldable pub last_block_num_tokens : Sequence → ℕ
last_block_num_tokens s =
    if num_blocks s == 0
    then s.num_tokens + block_size
    else s.num_tokens - (num_blocks s - 1) * block_size

unfoldable pub block : Sequence → ℕ → Result (List ℕ)
block s i =
    if ltb i (num_blocks s)
    then ok (slice (i * block_size) ((i + 1) * block_size) s.token_ids)
    else raise assertion_error

unfoldable pub append_token : Sequence → ℕ → Sequence
append_token s token_id = record s {
  token_ids = s.token_ids ++ token_id ∷ [];
  last_token = some token_id;
  num_tokens = s.num_tokens + 1;
}

-- What `__getstate__` sends: the token list before the first completion, the last token after it.
pub data Tokens : Type 0 where
  all_tokens : List ℕ → Tokens
  only_last : Option ℕ → Tokens

pub record SequenceState : Type 0 where
  pub num_tokens : ℕ
  pub num_prompt_tokens : ℕ
  pub num_cached_tokens : ℕ
  pub block_table : List ℕ
  pub tokens : Tokens

unfoldable pub get_state : Sequence → SequenceState
unfolding num_completion_tokens
get_state s = record {
  num_tokens = s.num_tokens;
  num_prompt_tokens = s.num_prompt_tokens;
  num_cached_tokens = s.num_cached_tokens;
  block_table = s.block_table;
  tokens = if num_completion_tokens s == 0 then all_tokens s.token_ids else only_last s.last_token;
}

-- `__setstate__` on a blank object `s`. It picks the field by the count, not by what was sent, and
-- a value of the other kind would go to the wrong field.
abbrev pub restore_tokens : Bool → Tokens → Sequence → Result Sequence
restore_tokens true (all_tokens ts) s = ok (record s { token_ids = ts })
restore_tokens false (only_last t) s = ok (record s { last_token = t })
restore_tokens _ _ s = raise value_error

unfoldable pub set_state : SequenceState → Sequence → Result Sequence
set_state t s = restore_tokens (t.num_tokens - t.num_prompt_tokens == 0) t.tokens (record s {
  num_tokens = t.num_tokens;
  num_prompt_tokens = t.num_prompt_tokens;
  num_cached_tokens = t.num_cached_tokens;
  block_table = t.block_table;
})

-- ===== src/Engine/Sequence/Partition.antt =====
-- The blocks of a sequence, and its state as it is sent to another process.
use nano_qwen3tts_vllm.Common.{
  ℕ, zero, suc, ◌+◌, ◌-◌, ◌*◌, ◌≤◌, ◌<◌, ◌≡◌, refl, sym, ◌∙◌, ap, inl, inr, List, [], ◌∷◌, ◌++◌,
  length, take, drop, slice, arith, ◌==◌, nat_eq, Bool-cases, lt→ltb,
}
use nano_qwen3tts_vllm.Engine.Effects.{Result, ok, Returns, ◌>>=◌}
use nano_qwen3tts_vllm.Engine.Sequence.{
  Sequence, block_size, num_blocks, last_block_num_tokens, block, num_completion_tokens, get_state,
  restore_tokens, set_state,
}

take_eq : (xs : List ℕ) (m n : ℕ) → m ≡ n → take m xs ≡ take n xs
take_eq xs m n e = ap (λ k. take k xs) e

take_none : (n : ℕ) → ◌≡◌ {A = List ℕ} (take n []) []
take_none zero = refl
take_none (suc n) = refl

take-drop : (xs : List ℕ) (i k : ℕ) → take i xs ++ take k (drop i xs) ≡ take (i + k) xs
take-drop xs zero k = ap (λ n. take n xs) (omega arith)
take-drop [] (suc i) zero = sym (take_none (suc i + 0))
take-drop [] (suc i) (suc k) = sym (take_none (suc i + suc k))
take-drop (x ∷ xs) (suc i) k =
    ap (λ ys. x ∷ ys) (take-drop xs i k) ∙ take_eq (x ∷ xs) (suc (i + k)) _ (omega arith)

take_all : (xs : List ℕ) (n : ℕ) → length xs ≤ n → take n xs ≡ xs
take_all [] zero h = refl
take_all [] (suc n) h = refl
take_all (x ∷ xs) zero h = absurd (omega arith)
take_all (x ∷ xs) (suc n) h = ap (λ ys. x ∷ ys) (take_all xs n (omega arith))

-- The first `n` blocks of a sequence, one behind the other.
unfoldable pub first_blocks : ℕ → Sequence → Result (List ℕ)
first_blocks zero s = ok []
first_blocks (suc n) s = do before ← first_blocks n s; tokens ← block s n; ok (before ++ tokens)

first_blocks_take :
    (n : ℕ) (s : Sequence)
    → n ≤ num_blocks s
    → first_blocks n s ≡ ok (take (n * block_size) s.token_ids)
unfolding first_blocks block
first_blocks_take zero s h = refl
first_blocks_take (suc n) s h =
    rw (first_blocks_take n s (omega arith))
      (rw (lt→ltb n (num_blocks s) (omega arith)) (ap ok joined))
  where
    joined :
        take (n * 256) s.token_ids ++ slice (n * 256) ((n + 1) * 256) s.token_ids
        ≡ take (suc n * 256) s.token_ids
    joined =
        ap (λ ts. take (n * 256) s.token_ids ++ ts)
          (take_eq (drop (n * 256) s.token_ids) _ 256 (omega arith))
        ∙ take-drop s.token_ids (n * 256) 256
        ∙ take_eq s.token_ids _ _ (omega arith)

enough_blocks :
    (s : Sequence)
    → length s.token_ids ≡ s.num_tokens
    → length s.token_ids ≤ num_blocks s * block_size
unfolding num_blocks
enough_blocks s whole = omega (arith, whole)

-- Where the length is that of the token ids, the blocks in their order are the token ids.
pub all_blocks :
    (s : Sequence)
    → length s.token_ids ≡ s.num_tokens
    → first_blocks (num_blocks s) s ≡ ok s.token_ids
all_blocks s whole =
    first_blocks_take (num_blocks s) s (omega arith)
    ∙ ap ok (take_all s.token_ids _ (enough_blocks s whole))

-- A sequence with tokens has a last block of 1 to `block_size` tokens, and full blocks before it.
pub last_block_bounds :
    (s : Sequence)
    → 0 < s.num_tokens
    → (0 < last_block_num_tokens s)
      × (last_block_num_tokens s ≤ block_size)
      × ((num_blocks s - 1) * block_size + last_block_num_tokens s ≡ s.num_tokens)
unfolding last_block_num_tokens num_blocks
last_block_bounds s h = ground arith

-- What arrives at the other process.
pub data Restored (s old : Sequence) : Sequence → Type 0 where
  before_completion :
      num_completion_tokens s ≡ 0
      → Restored s old (record old {
        num_tokens = s.num_tokens;
        num_prompt_tokens = s.num_prompt_tokens;
        num_cached_tokens = s.num_cached_tokens;
        block_table = s.block_table;
        token_ids = s.token_ids;
      })
  in_completion :
      0 < num_completion_tokens s
      → Restored s old (record old {
        num_tokens = s.num_tokens;
        num_prompt_tokens = s.num_prompt_tokens;
        num_cached_tokens = s.num_cached_tokens;
        block_table = s.block_table;
        last_token = s.last_token;
      })

-- The round trip of a sequence's state: it raises nothing, and restores the counters and the block
-- table, with the token ids before the first completion token and the last token from then on.
pub set_state-get_state :
    (s old : Sequence) → Returns (Restored s old) (set_state (get_state s) old)
unfolding set_state get_state num_completion_tokens
set_state-get_state s old = elim (Bool-cases (s.num_tokens - s.num_prompt_tokens == 0)) [
  | inl none_yet ↦ (_, rw (none_yet, restore_tokens) refl, before_completion (ground arith))
  | inr some_done ↦ (_, rw (some_done, restore_tokens) refl, in_completion (ground arith))
]

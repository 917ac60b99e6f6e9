-- ===== src/Engine/Blocks/Cycle.antt =====
-- A sequence's whole stay in the block manager, and the manager that the constructor makes.
use nano_qwen3tts_vllm.Common.{
  ℕ, zero, suc, ◌+◌, ◌<◌, ◌≡◌, ◌∙◌, ap, true, List, [], Option, none, some, get_elem?, arith,
  if◌then◌else◌, nat_eq, ltb, leb,
}
use nano_qwen3tts_vllm.Common.Dict.{lookup}
use nano_qwen3tts_vllm.Common.Count.{count}
use nano_qwen3tts_vllm.Engine.Effects.{Returns, ◌>>=◌}
use nano_qwen3tts_vllm.Engine.Sequence.{Sequence, block_size}
use nano_qwen3tts_vllm.Engine.Blocks.{
  BlockManager, ids_from, blank_block, blank_blocks, make_manager, allocate, can_allocate,
  deallocate,
}
use nano_qwen3tts_vllm.Engine.Blocks.Counts.{Counts, tokens_at}
use nano_qwen3tts_vllm.Engine.Blocks.Filling.{allocate-Tabled}
use nano_qwen3tts_vllm.Engine.Blocks.Release.{deallocate-Released}

-- A sequence that is allocated and then deallocated leaves the accounts of all others, and their
-- contents, as they were.
pub record Passed (m : BlockManager) (s : Sequence) (c : ℕ → ℕ) (m' : BlockManager) (s' : Sequence)
    : Type 0 where
  pub counts : Counts m' c
  pub content : (j : ℕ) → 0 < c j → tokens_at m' j ≡ tokens_at m j
  pub table : s'.block_table ≡ []
  pub tokens : s'.token_ids ≡ s.token_ids

-- Where the accounts are right, a sequence without blocks that `can_allocate` lets in is allocated
-- and then deallocated without an error: the accounts and the contents of the blocks that other
-- tables hold are as before, and so are its token ids.
pub deallocate-allocate :
    (digest : List ℕ → Option ℕ → ℕ) (m : BlockManager) (s : Sequence) (c : ℕ → ℕ)
    → Counts m c
    → m.block_size ≡ block_size
    → s.block_table ≡ []
    → can_allocate m s ≡ true
    → Returns
        (λ (m', s'). Passed m s c m' s')
        (allocate digest m s >>= λ (m', s'). deallocate m' s')
deallocate-allocate digest m s c k size empty room =
    let ((m', s'), r, t) = allocate-Tabled digest m s c k size empty room in
    let ((m'', s''), r', (done, e)) = deallocate-Released m' s' c t.counts in
    (
      (m'', s''),
      rw r r',
      record {
        counts = done.counts;
        content = λ j used. done.content j ∙ t.content j used;
        table = ap (λ s₀. s₀.block_table) e;
        tokens = ap (λ s₀. s₀.token_ids) e ∙ t.tokens;
      },
    )

blank_at : (n j : ℕ) → get_elem? (blank_blocks n) j ≡ (if ltb j n then some blank_block else none)
unfolding blank_blocks
blank_at zero j = ground arith
blank_at (suc n) zero = ground arith
blank_at (suc n) (suc j) = ground (arith, blank_at n j)

ids_count :
    (n i j : ℕ) → count j (ids_from n i) ≡ (if leb i j then (if ltb j (n + i) then 1 else 0) else 0)
unfolding ids_from count
ids_count zero i j = ground arith
ids_count (suc n) i j = ground (arith, ids_count n (suc i) j)

-- A new manager, of any size, has right accounts, in which no table holds a block.
pub make_manager-Counts : (n size : ℕ) → Counts (make_manager n size) (λ j. 0)
unfolding make_manager count lookup
make_manager-Counts n size = record {
  each_once = λ j. ground (arith, ids_count n 0 j, blank_at n j);
  used_once = λ j. ground (arith, blank_at n j);
  referred = λ j. ground (arith, blank_at n j);
  mapped = λ h j e. cc;
}

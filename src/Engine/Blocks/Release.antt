-- ===== src/Engine/Blocks/Release.antt =====
-- `deallocate`: the blocks of a table are given back, and no reference count falls below zero.
use nano_qwen3tts_vllm.Common.{
  ℕ, zero, suc, ◌+◌, ◌≤◌, ◌<◌, ◌≡◌, refl, ◌∙◌, inl, inr, true, false, List, [], ◌∷◌, ◌++◌, some,
  length, length-append, get_elem?, arith, ◌==◌, nat_eq, list_eq, contains, remove, Option-cases,
  ℕ_discrete,
}
use mathlib.Core.List.{reverse, reverse_aux}
use nano_qwen3tts_vllm.Common.Count.{count, one_if, count-append, contains-count, count-remove}
use nano_qwen3tts_vllm.Engine.Effects.{ok, Returns}
use nano_qwen3tts_vllm.Engine.Sequence.{Sequence}
use nano_qwen3tts_vllm.Engine.Blocks.{
  Block, BlockManager, block_at, put_block, deallocate_block, release_block, release_blocks,
  deallocate,
}
use nano_qwen3tts_vllm.Engine.Blocks.Counts.{
  Counts, tokens_at, block_at_eq, put_block-Counts, put_written,
}
use nano_qwen3tts_vllm.Engine.Blocks.Allocation.{Counts-ext}

-- After some references are given back: the accounts, and the contents, which nothing wrote.
pub record Released (m : BlockManager) (c : ℕ → ℕ) (m' : BlockManager) : Type 0 where
  pub counts : Counts m' c
  pub size : m'.block_size ≡ m.block_size
  pub content : (j : ℕ) → tokens_at m' j ≡ tokens_at m j
  pub free_kept : length m.free_block_ids ≤ length m'.free_block_ids

module _ (m : BlockManager) (c : ℕ → ℕ) (id : ℕ) (k : Counts m (λ j. one_if j id + c j)) (b : Block)
    (there : get_elem? m.blocks id ≡ some b) where
  abbrev lowered : ℕ → BlockManager
  lowered n = put_block m id (record b { ref_count = n })

  lowered_at : (n : ℕ) → block_at (lowered n) id ≡ ok (record b { ref_count = n })
  lowered_at n =
      block_at_eq (lowered n) id (record b { ref_count = n })
        (ground (arith, put_written m _ k id b there (record b { ref_count = n }) id))

  deallocate_block-Released :
      b.ref_count ≡ 1 → Returns (Released m c) (deallocate_block id (lowered 0))
  unfolding deallocate_block count ℕ_discrete
  deallocate_block-Released e =
      let written = put_written m _ k id b there (record b { ref_count = 0 }) in
      let in_use : 0 < count id m.used_block_ids = ground (arith, k.used_once id, k.referred id) in
      let listed : contains m.used_block_ids id ≡ true =
        (contains-count m.used_block_ids id).1 in_use in
      (
        record (lowered 0) {
          used_block_ids = remove id m.used_block_ids;
          free_block_ids = m.free_block_ids ++ id ∷ [];
        },
        rw (lowered_at 0) (rw listed refl),
        record {
          counts = record {
            each_once = λ j. ground (
              arith,
              written j,
              k.each_once j,
              count-append j m.free_block_ids (id ∷ []),
              count-remove j id m.used_block_ids in_use,
            );
            used_once = λ j. ground (
              arith,
              written j,
              k.used_once j,
              k.referred j,
              count-remove j id m.used_block_ids in_use,
            );
            referred = λ j. ground (arith, written j, k.referred j);
            mapped = λ h j e'. ground (arith, written j, k.mapped h j e');
          };
          size = refl;
          content = λ j. ground (arith, written j);
          free_kept = omega (arith, length-append m.free_block_ids (id ∷ []));
        },
      )

  lower-Released : (n : ℕ) → b.ref_count ≡ n + 2 → Released m c (lowered (suc n))
  lower-Released n e =
      let written = put_written m _ k id b there (record b { ref_count = suc n }) in
      record {
        counts =
            put_block-Counts m _ k id b there (record b { ref_count = suc n }) c (omega (arith, e))
              (λ j apart. ground arith) (ground (arith, k.referred id));
        size = refl;
        content = λ j. ground (arith, written j);
        free_kept = omega arith;
      }

  not_last : (n : ℕ) → (suc n == 0) ≡ false
  not_last n = ground arith

  by_count : (n : ℕ) → b.ref_count ≡ n → Returns (Released m c) (release_block id m)
  unfolding release_block ℕ_discrete deallocate_block
  by_count zero e = absurd (ground (arith, k.referred id))
  by_count (suc zero) e =
      let (m', r, done) = deallocate_block-Released e in
      (m', rw (block_at_eq m id b there) (rw e r), done)
  by_count (suc (suc n)) e = (
    lowered (suc n),
    rw (block_at_eq m id b there) (rw e (rw (not_last n) refl)),
    lower-Released n (omega arith),
  )

module _ (m : BlockManager) (c : ℕ → ℕ) where
  pub release_block-Released :
      (id : ℕ) → Counts m (λ j. one_if j id + c j) → Returns (Released m c) (release_block id m)
  release_block-Released id k = elim (Option-cases (get_elem? m.blocks id)) [
    | inl missing ↦ absurd (ground (arith, k.referred id))
    | inr (b, there) ↦ by_count m c id k b there b.ref_count refl
  ]

pub Released-trans :
    (m m' m'' : BlockManager) (c d : ℕ → ℕ) → Released m c m' → Released m' d m'' → Released m d m''
Released-trans m m' m'' c d r r' = record {
  counts = r'.counts;
  size = r'.size ∙ r.size;
  content = λ j. r'.content j ∙ r.content j;
  free_kept = omega (arith, r.free_kept, r'.free_kept);
}

pub release_blocks-Released :
    (ids : List ℕ) (m : BlockManager) (c : ℕ → ℕ)
    → Counts m (λ j. count j ids + c j)
    → Returns (Released m c) (release_blocks ids m)
unfolding release_blocks count
release_blocks-Released [] m c k = (
  m,
  refl,
  record {
    counts = Counts-ext m _ c k (λ j. omega arith);
    size = refl;
    content = λ j. refl;
    free_kept = omega arith;
  },
)
release_blocks-Released (id ∷ ids) m c k =
    let (m', r, first) =
      release_block-Released m (λ j. count j ids + c j) id
        (Counts-ext m _ _ k (λ j. omega arith)) in
    let (m'', r', rest) = release_blocks-Released ids m' c first.counts in
    (m'', rw r r', Released-trans m m' m'' _ c first rest)

count-reverse_aux : (j : ℕ) (xs ys : List ℕ) → count j (reverse_aux xs ys) ≡ count j xs + count j ys
unfolding count
count-reverse_aux j [] ys = omega arith
count-reverse_aux j (x ∷ xs) ys = omega (arith, count-reverse_aux j xs (x ∷ ys))

count-reverse : (j : ℕ) (ids : List ℕ) → count j (reverse ids) ≡ count j ids
unfolding count
count-reverse j ids = omega (arith, count-reverse_aux j ids [])

-- Where the accounts count the sequence's table, `deallocate` raises nothing, a count below zero
-- included: the accounts are those without the table, no content changes, no free block is lost,
-- and the sequence keeps no block.
pub deallocate-Released :
    (m : BlockManager) (s : Sequence) (c : ℕ → ℕ)
    → Counts m (λ j. count j s.block_table + c j)
    → Returns
        (λ (m', s'). Released m c m' × (s' ≡ record s { num_cached_tokens = 0; block_table = [] }))
        (deallocate m s)
unfolding deallocate
deallocate-Released m s c k =
    let (m', r, done) =
      release_blocks-Released (reverse s.block_table) m c
        (Counts-ext m _ _ k (λ j. omega (arith, count-reverse j s.block_table))) in
    ((m', record s { num_cached_tokens = 0; block_table = [] }), rw r refl, (done, refl))

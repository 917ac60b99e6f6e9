-- ===== src/Engine/Blocks/Table.antt =====
-- The rounds of `allocate`: each adds a block to the sequence's table.
use nano_qwen3tts_vllm.Common.{
  ℕ, ◌+◌, ◌*◌, ◌≤◌, ◌<◌, ◌≡◌, ◌≢◌, ◌↔◌, refl, sym, ◌∙◌, inl, inr, Bool, List, [], ◌∷◌, ◌++◌, Option,
  none, some, length, arith, if◌then◌else◌, ◌==◌, nat_eq, list_eq, Bool-cases, lt→ltb, slice,
}
use nano_qwen3tts_vllm.Common.Count.{one_if}
use nano_qwen3tts_vllm.Engine.Effects.{ok, Returns}
use nano_qwen3tts_vllm.Engine.Sequence.{Sequence, num_blocks, block, block_size}
use nano_qwen3tts_vllm.Engine.Blocks.{
  BlockManager, note_hash, cache_hit, Progress, choose_block, allocate_round,
}
use nano_qwen3tts_vllm.Engine.Blocks.Counts.{Counts, refs, tokens_at, hashed_at}
use nano_qwen3tts_vllm.Engine.Blocks.Allocation.{
  IsHit, IsChosen, Noted, note_hash-Returns, cache_hit-Returns, choose_block-Returns,
}

-- The tokens that `seq.block(i)` returns.
abbrev pub block_tokens : Sequence → ℕ → List ℕ
block_tokens s i = slice (i * block_size) ((i + 1) * block_size) s.token_ids

pub block_eq : (s : Sequence) (i : ℕ) → i < num_blocks s → block s i ≡ ok (block_tokens s i)
unfolding block
block_eq s i h = rw (lt→ltb _ _ h) refl

-- What one round does: it adds one block, keeps the contents of the blocks in use, and a full block
-- holds its tokens.
pub record Round (p : Progress) (c : ℕ → ℕ) (i : ℕ) (p' : Progress) : Type 0 where
  pub id : ℕ
  pub counts : Counts p'.manager (λ j. one_if j id + c j)
  pub size : p'.manager.block_size ≡ p.manager.block_size
  pub content : (j : ℕ) → 0 < refs p.manager j → tokens_at p'.manager j ≡ tokens_at p.manager j
  pub free_left : length p.manager.free_block_ids ≤ length p'.manager.free_block_ids + 1
  pub table : p'.seq.block_table ≡ p.seq.block_table ++ id ∷ []
  pub tokens : p'.seq.token_ids ≡ p.seq.token_ids
  pub tokens_count : p'.seq.num_tokens ≡ p.seq.num_tokens
  pub same_id : p'.seq.seq_id ≡ p.seq.seq_id
  pub full :
      length (block_tokens p.seq i) ≡ p.manager.block_size
      → tokens_at p'.manager id ≡ block_tokens p.seq i
  pub marked : hashed_at p'.manager id ≡ (length (block_tokens p.seq i) == p.manager.block_size)

abbrev hash_of : (List ℕ → Option ℕ → ℕ) → ℕ → Progress → Option ℕ
hash_of digest i p =
    if length (block_tokens p.seq i) == p.manager.block_size
    then some (digest (block_tokens p.seq i) p.h)
    else none

-- The variables after a round that chose the block `id`.
abbrev after_round : Progress → Option ℕ → Bool → ℕ → BlockManager → Progress
after_round p h miss id m = record {
  manager = m;
  seq = record p.seq {
    num_cached_tokens =
        if miss then p.seq.num_cached_tokens else p.seq.num_cached_tokens + p.manager.block_size;
    block_table = p.seq.block_table ++ id ∷ [];
  };
  h = h;
  cache_miss = miss;
}

-- The accounts and contents after the block `id` was granted and its hash noted.
granted-Round :
    (p : Progress) (c : ℕ → ℕ) (k : Counts p.manager c) (i id : ℕ) (miss : Bool)
    (m m' : BlockManager) (h : Option ℕ)
    → (h ≢ none) ↔ (length (block_tokens p.seq i) ≡ p.manager.block_size)
    → IsChosen p.manager c k (block_tokens p.seq i) h (miss, id, m)
    → Noted m (λ j. one_if j id + c j) id (block_tokens p.seq i) h m'
    → Round p c i (after_round p h miss id m')
granted-Round p c k i id miss m m' h hashed (grants, held, fresh) noted = record {
  id = id;
  counts = noted.counts;
  size = noted.size ∙ grants.same.size;
  content = λ j used. kept j used (nat_eq.dec j id);
  free_left = ground (arith, noted.free, grants.free_left);
  table = refl;
  tokens = refl;
  tokens_count = refl;
  same_id = refl;
  full = λ e. elim noted.content [ inl same ↦ same | inr (none_h, _) ↦ absurd (hashed.1 e none_h) ];
  marked = mark;
}
  where
    mark : hashed_at m' id ≡ (length (block_tokens p.seq i) == p.manager.block_size)
    mark = elim noted.mark [
      | inl (none_h, same) ↦
          elim (Bool-cases (length (block_tokens p.seq i) == p.manager.block_size)) [
            | inl full ↦ absurd (hashed.1 (ground arith) none_h)
            | inr short ↦ same ∙ fresh none_h ∙ sym short
          ]
      | inr (keyed, set) ↦ ground (arith, set, hashed.0 keyed)
    ]

    kept : (j : ℕ) → 0 < refs p.manager j → Dec (j ≡ id) → tokens_at m' j ≡ tokens_at p.manager j
    kept j used (no apart) = noted.others j apart ∙ grants.same.content j used
    kept j used (yes e) = elim noted.content [
      | inl same ↦ elim held [
        | inl unused ↦ absurd (ground (arith, e, unused, used))
        | inr cached ↦ rw e (same ∙ sym cached)
      ]
      | inr (none_h, same) ↦ rw e (same ∙ grants.same.content id (rw (sym e) used))
    ]

module _ (digest : List ℕ → Option ℕ → ℕ) where
  hash_of_full :
      (i : ℕ) (p : Progress)
      → (hash_of digest i p ≢ none) ↔ (length (block_tokens p.seq i) ≡ p.manager.block_size)
  hash_of_full i p = ground arith

  pub allocate_round-Returns :
      (i : ℕ) (p : Progress) (c : ℕ → ℕ)
      → Counts p.manager c
      → i < num_blocks p.seq
      → 0 < length p.manager.free_block_ids
      → Returns (Round p c i) (allocate_round digest i p)
  unfolding allocate_round
  allocate_round-Returns i p c k inside room =
      with_hit (cache_hit-Returns p.manager c k (hash_of digest i p) (block_tokens p.seq i))
    where
      with_hit :
          Returns
            (IsHit p.manager (block_tokens p.seq i) (hash_of digest i p))
            (cache_hit p.manager (hash_of digest i p) (block_tokens p.seq i))
          → Returns (Round p c i) (allocate_round digest i p)
      with_hit (hit, r, is_hit) = with_block hit r (
          choose_block-Returns p.manager c k digest p.cache_miss (hash_of digest i p) hit
            (block_tokens p.seq i) room is_hit)
        where
          with_block :
              (hit : Option ℕ)
              → cache_hit p.manager (hash_of digest i p) (block_tokens p.seq i) ≡ ok hit
              → Returns
                  (IsChosen p.manager c k (block_tokens p.seq i) (hash_of digest i p))
                  (choose_block digest p.cache_miss hit p.manager)
              → Returns (Round p c i) (allocate_round digest i p)
          with_block hit r ((miss, id, m), r', chosen) = with_hash (
              note_hash-Returns m (λ j. one_if j id + c j) chosen.0.counts id (block_tokens p.seq i)
                (ground (arith, chosen.0.counts.referred id)) (hash_of digest i p))
            where
              with_hash :
                  Returns
                    (Noted m
                      (λ j. one_if j id + c j)
                      id
                      (block_tokens p.seq i)
                      (hash_of digest i p))
                    (note_hash (hash_of digest i p) (block_tokens p.seq i) id m)
                  → Returns (Round p c i) (allocate_round digest i p)
              with_hash (m', r'', noted) = (
                after_round p (hash_of digest i p) miss id m',
                rw (block_eq p.seq i inside) (rw r (rw r' (rw r'' refl))),
                granted-Round p c k i id miss m m' (hash_of digest i p) (hash_of_full i p) chosen
                    noted,
              )

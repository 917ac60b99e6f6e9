-- ===== src/Engine/Blocks/Appending.antt =====
-- `may_append`: when it works, and a prompt of embeddings on which it fails.
use nano_qwen3tts_vllm.Common.{
  ℕ, ◌+◌, ◌-◌, ◌/◌, ◌%◌, ◌<◌, ◌≡◌, ◌≢◌, refl, ◌∙◌, inl, inr, true, false, List, [], ◌∷◌, ◌++◌,
  Option, none, some, length, length-append, last?, last?-append_one, get_elem?, arith, ◌==◌,
  nat_eq, leb→le, Bool-cases, Option-cases,
}
use nano_qwen3tts_vllm.Common.Count.{count, count-append}
use nano_qwen3tts_vllm.Engine.Effects.{Returns}
use nano_qwen3tts_vllm.Engine.Sequence.{Sequence, num_blocks, block_size, append_token}
use nano_qwen3tts_vllm.Engine.Blocks.{
  Block, BlockManager, can_append, second_last?, prefix_hash, last_id, is_hashed, append_block,
  fill_block, append_at, may_append,
}
use nano_qwen3tts_vllm.Engine.Blocks.Counts.{Counts, hashed_at, block_at_eq, fresh_block-Returns}
use nano_qwen3tts_vllm.Engine.Blocks.Allocation.{Counts-ext, record_hash-Returns}
use nano_qwen3tts_vllm.Engine.Blocks.Table.{block_tokens, block_eq}

-- A table in step with its sequence: it has the blocks that the length asks for, and the last block
-- has its hash exactly if it is full.
pub record IsMarked (m : BlockManager) (s : Sequence) : Type 0 where
  pub last_block : ℕ
  pub last_listed : last? s.block_table ≡ some last_block
  pub marked : hashed_at m last_block ≡ (s.num_tokens % block_size == 0)
  pub long_enough : length s.block_table ≡ num_blocks s

-- What `may_append` does for a sequence with one more token.
pub record Appended (s : Sequence) (c : ℕ → ℕ) (m' : BlockManager) (s' : Sequence) : Type 0 where
  pub counts : Counts m' (λ j. count j s'.block_table + c j)
  pub in_step : IsMarked m' s'
  pub tokens : s'.token_ids ≡ s.token_ids
  pub tokens_count : s'.num_tokens ≡ s.num_tokens

one_more : (n : ℕ) → (n + 1) % 256 ≡ 1 → n % 256 ≡ 0
one_more n e = omega (arith, e)

one_more_blocks : (n : ℕ) → n % 256 ≡ 0 → (n + 1 + 256 - 1) / 256 ≡ (n + 256 - 1) / 256 + 1
one_more_blocks n e = omega (arith, e)

same_blocks : (n : ℕ) → n % 256 ≢ 0 → (n + 1 + 256 - 1) / 256 ≡ (n + 256 - 1) / 256
same_blocks n e = omega (arith, e)

not_one_more : (n : ℕ) → (n + 1) % 256 ≢ 1 → n % 256 ≢ 0
not_one_more n e e' = e (omega (arith, e'))

count-second_last? : (table : List ℕ) (id : ℕ) → second_last? table ≡ some id → 0 < count id table
unfolding count
count-second_last? [] id e = cc
count-second_last? (x ∷ []) id e = cc
count-second_last? (x ∷ y ∷ []) id e = ground arith
count-second_last? (x ∷ y ∷ z ∷ xs) id e = ground (arith, count-second_last? (y ∷ z ∷ xs) id e)

pub count-last? : (table : List ℕ) (id : ℕ) → last? table ≡ some id → 0 < count id table
unfolding count
count-last? [] id e = cc
count-last? (x ∷ []) id e = ground arith
count-last? (x ∷ y ∷ xs) id e = ground (arith, count-last? (y ∷ xs) id e)

module _ (digest : List ℕ → Option ℕ → ℕ) (m : BlockManager) (s : Sequence) (t : ℕ) (c : ℕ → ℕ)
    (k : Counts m (λ j. count j s.block_table + c j)) (size : m.block_size ≡ block_size)
    (mark : IsMarked m s) (room : can_append m (append_token s t) ≡ true) (last : Block)
    (there : get_elem? m.blocks mark.last_block ≡ some last) where
  abbrev longer : Sequence
  longer = append_token s t

  begins_block :
      (s.num_tokens + 1) % block_size ≡ 1
      → Returns (λ (m', s'). Appended longer c m' s') (append_block last m longer)
  unfolding append_block append_token count num_blocks can_append
  begins_block e =
      let hashed : is_hashed last ≡ true = ground (arith, mark.marked, one_more s.num_tokens e) in
      let some_free : 0 < length m.free_block_ids = ground (arith, leb→le _ _ room) in
      let ((id, m'), r, (grants, unused, new)) = fresh_block-Returns m _ k some_free in
      (
        (m', record longer { block_table = s.block_table ++ id ∷ [] }),
        rw hashed (rw r refl),
        record {
          counts =
              Counts-ext m' _ _ grants.counts
                (λ j. omega (arith, count-append j s.block_table (id ∷ [])));
          in_step = record {
            last_block = id;
            last_listed = last?-append_one s.block_table id;
            marked = ground (arith, new);
            long_enough =
                length-append s.block_table (id ∷ [])
                ∙ omega (
                  arith,
                  mark.long_enough,
                  one_more_blocks s.num_tokens (one_more s.num_tokens e),
                );
          };
          tokens = refl;
          tokens_count = refl;
        },
      )

  unhashed : (s.num_tokens + 1) % block_size ≢ 1 → is_hashed last ≡ false
  unhashed e = ground (arith, mark.marked, not_one_more s.num_tokens e)

  stays : (s.num_tokens + 1) % block_size ≢ 1 → length s.block_table ≡ num_blocks longer
  unfolding num_blocks append_token
  stays e = omega (arith, mark.long_enough, same_blocks s.num_tokens (not_one_more s.num_tokens e))

  prefix_hash-Returns : Returns (λ (h : Option ℕ). Unit {0}) (prefix_hash m s.block_table)
  prefix_hash-Returns = elim (Option-cases (second_last? s.block_table)) [
    | inl single ↦ (none, rw (single, prefix_hash) refl, tt)
    | inr (id, e) ↦ elim (Option-cases (get_elem? m.blocks id)) [
      | inl missing ↦ absurd (ground (arith, k.referred id, count-second_last? s.block_table id e))
      | inr (b, found) ↦ (b.hash, rw (e, prefix_hash) (rw (block_at_eq m id b found) refl), tt)
    ]
  ]

  some_blocks : num_blocks longer - 1 < num_blocks longer
  unfolding num_blocks append_token
  some_blocks = omega arith

  fills_block :
      (s.num_tokens + 1) % block_size ≡ 0
      → Returns
          (λ (m', s'). Appended longer c m' s')
          (fill_block digest mark.last_block last m longer)
  unfolding fill_block append_token
  fills_block e =
      let (prefix, r, _) = prefix_hash-Returns in
      let tokens : List ℕ = block_tokens longer (num_blocks longer - 1) in
      let (m', r', noted) =
        record_hash-Returns m _ k mark.last_block tokens (ground arith) (digest tokens prefix) in
      (
        (m', longer),
        rw (unhashed (omega (arith, e)))
            (rw (block_eq longer (num_blocks longer - 1) some_blocks) (rw r (rw r' refl))),
        record {
          counts = noted.counts;
          in_step = record {
            last_block = mark.last_block;
            last_listed = mark.last_listed;
            marked = ground (arith, noted.mark);
            long_enough = stays (omega (arith, e));
          };
          tokens = refl;
          tokens_count = refl;
        },
      )

  at_block :
      Returns (λ (m', s'). Appended longer c m' s') (append_at digest mark.last_block last m longer)
  unfolding append_token
  at_block = elim (Bool-cases ((s.num_tokens + 1) % m.block_size == 1)) [
    | inl first ↦ rw first (begins_block (ground arith))
    | inr later ↦ elim (Bool-cases ((s.num_tokens + 1) % m.block_size == 0)) [
      | inl full ↦ rw later (rw full (fills_block (ground arith)))
      | inr inner ↦ rw later (
          rw inner (
            (m, longer),
            rw (unhashed (ground arith)) refl,
            record {
              counts = k;
              in_step = record {
                last_block = mark.last_block;
                last_listed = mark.last_listed;
                marked = ground (arith, mark.marked, unhashed (ground arith));
                long_enough = stays (ground arith);
              };
              tokens = refl;
              tokens_count = refl;
            },
          ))
    ]
  ]

-- Where a table is in step with its sequence and the manager can append, `may_append` after one more
-- token raises nothing, keeps the accounts, and leaves the table in step.
pub may_append-Appended :
    (digest : List ℕ → Option ℕ → ℕ) (m : BlockManager) (s : Sequence) (t : ℕ) (c : ℕ → ℕ)
    → Counts m (λ j. count j s.block_table + c j)
    → m.block_size ≡ block_size
    → IsMarked m s
    → can_append m (append_token s t) ≡ true
    → Returns
        (λ (m', s'). Appended (append_token s t) c m' s')
        (may_append digest m (append_token s t))
unfolding may_append last_id append_token
may_append-Appended digest m s t c k size mark room =
    elim (Option-cases (get_elem? m.blocks mark.last_block)) [
      | inl missing ↦ absurd (
          ground (
            arith,
            k.referred mark.last_block,
            count-last? s.block_table mark.last_block mark.last_listed,
          ))
      | inr (last, there) ↦
          rw (mark.last_listed, last_id)
            (rw (block_at_eq m mark.last_block last there)
              (at_block digest m s t c k size mark room last there))
    ]

-- ===== src/Engine/Blocks.antt =====
-- nano_qwen3tts_vllm/engine/block_manager.py. The digest of xxhash is a parameter; a hash of -1 is
-- `none`.
pub mod Counts
pub mod Allocation
pub mod Table
pub mod Filling
pub mod Release
pub mod Cycle
pub mod Appending
pub mod Prompts
use nano_qwen3tts_vllm.Common.{
  ℕ, zero, suc, ◌+◌, ◌-◌, ◌%◌, Bool, true, false, not, ◌||◌, List, [], ◌∷◌, ◌++◌, Option, none,
  some, length, get_elem?, set, last?, leb, ltb, if◌then◌else◌, ◌==◌, nat_eq, list_eq, contains,
  remove,
}
use mathlib.Core.List.{reverse}
use nano_qwen3tts_vllm.Common.Dict.{Dict, lookup, insert}
use nano_qwen3tts_vllm.Engine.Effects.{
  Result, ok, raise, assertion_error, index_error, value_error, key_error, negative_count, assert,
  ◌>>=◌, ◌>>◌,
}
use nano_qwen3tts_vllm.Engine.Sequence.{Sequence, num_blocks, block}

-- A block's id is its place in `blocks`.
pub record Block : Type 0 where
  pub ref_count : ℕ
  pub hash : Option ℕ
  pub token_ids : List ℕ

pub record BlockManager : Type 0 where
  pub block_size : ℕ
  pub blocks : List Block
  pub hash_to_block_id : Dict ℕ ℕ
  pub free_block_ids : List ℕ
  pub used_block_ids : List ℕ

abbrev pub blank_block : Block
blank_block = record { ref_count = 0; hash = none; token_ids = [] }

-- `range(n)` from `i` on, and `n` blank blocks.
unfoldable pub ids_from : ℕ → ℕ → List ℕ
ids_from zero i = []
ids_from (suc n) i = i ∷ ids_from n (suc i)

unfoldable pub blank_blocks : ℕ → List Block
blank_blocks zero = []
blank_blocks (suc n) = blank_block ∷ blank_blocks n

unfoldable pub make_manager : ℕ → ℕ → BlockManager
make_manager count block_size = record {
  block_size = block_size;
  blocks = blank_blocks count;
  hash_to_block_id = [];
  free_block_ids = ids_from count 0;
  used_block_ids = [];
}

-- `self.blocks[block_id]`
unfoldable pub block_at : BlockManager → ℕ → Result Block
block_at m id = elim (get_elem? m.blocks id) [ none ↦ raise index_error | some b ↦ ok b ]

abbrev pub put_block : BlockManager → ℕ → Block → BlockManager
put_block m id b = record m { blocks = set m.blocks id b }

-- `self.free_block_ids.remove(block_id)` and `self.used_block_ids.add(block_id)`
abbrev pub take_free : ℕ → BlockManager → Result BlockManager
take_free id m =
    if contains m.free_block_ids id
    then ok (record m {
      free_block_ids = remove id m.free_block_ids;
      used_block_ids =
          if contains m.used_block_ids id then m.used_block_ids else id ∷ m.used_block_ids;
    })
    else raise value_error

-- `_allocate_block`, with `Block.reset`
unfoldable pub allocate_block : ℕ → BlockManager → Result BlockManager
allocate_block id m = do
  b ← block_at m id
  assert (b.ref_count == 0)
  take_free id (put_block m id (record { ref_count = 1; hash = none; token_ids = [] }))

-- `self.used_block_ids.remove(block_id)` and `self.free_block_ids.append(block_id)`
abbrev pub give_back : ℕ → BlockManager → Result BlockManager
give_back id m =
    if contains m.used_block_ids id
    then ok (record m {
      used_block_ids = remove id m.used_block_ids;
      free_block_ids = m.free_block_ids ++ id ∷ [];
    })
    else raise key_error

-- `_deallocate_block`
unfoldable pub deallocate_block : ℕ → BlockManager → Result BlockManager
deallocate_block id m = do b ← block_at m id; assert (b.ref_count == 0); give_back id m

unfoldable pub can_allocate : BlockManager → Sequence → Bool
can_allocate m s = leb (num_blocks s) (length m.free_block_ids)

-- `block.ref_count += 1` for a block in use, and `_allocate_block` for another (lines 77-81).
unfoldable pub share_block : ℕ → BlockManager → Result BlockManager
share_block id m =
    if contains m.used_block_ids id
    then (do b ← block_at m id; ok (put_block m id (record b { ref_count = b.ref_count + 1 })))
    else allocate_block id m

-- `self.free_block_ids[0]`
unfoldable pub first_free : BlockManager → Result ℕ
first_free m = elim m.free_block_ids [ [] ↦ raise index_error | id ∷ rest ↦ ok id ]

-- `_allocate_block(self.free_block_ids[0])`, with the id
unfoldable pub fresh_block : BlockManager → Result (ℕ × BlockManager)
fresh_block m = do id ← first_free m; m' ← allocate_block id m; ok (id, m')

-- `block.update(h, token_ids)` and the entry of the hash.
unfoldable pub record_hash : ℕ → List ℕ → ℕ → BlockManager → Result BlockManager
record_hash h tokens id m = do
  b ← block_at m id
  let m' = put_block m id (record b { hash = some h; token_ids = tokens })
  ok (record m' { hash_to_block_id = insert h id m.hash_to_block_id })

-- `if h != -1: ...` (lines 82-84)
abbrev pub note_hash : Option ℕ → List ℕ → ℕ → BlockManager → Result BlockManager
note_hash none tokens id m = ok m
note_hash (some h) tokens id m = record_hash h tokens id m

-- `self.hash_to_block_id.get(h, -1)`: the hash -1 is never a key.
abbrev pub cached_id : BlockManager → Option ℕ → Option ℕ
cached_id m none = none
cached_id m (some h) = lookup h m.hash_to_block_id

-- The hit of lines 69-71: the cached block, if its tokens are the ones asked for.
unfoldable pub cache_hit : BlockManager → Option ℕ → List ℕ → Result (Option ℕ)
cache_hit m h tokens = elim (cached_id m h) [
  | none ↦ ok none
  | some id ↦ do b ← block_at m id; ok (if b.token_ids == tokens then some id else none)
]

-- The variables of the loop in `allocate`.
pub record Progress : Type 0 where
  pub manager : BlockManager
  pub seq : Sequence
  pub h : Option ℕ
  pub cache_miss : Bool

module _ (digest : List ℕ → Option ℕ → ℕ) where
  -- Lines 72-81 for a hit or a miss: the block of this round, and whether a miss has occurred.
  unfoldable pub choose_block : Bool → Option ℕ → BlockManager → Result (Bool × ℕ × BlockManager)
  choose_block false (some id) m = do m' ← share_block id m; ok (false, id, m')
  choose_block _ _ m = do (id, m') ← fresh_block m; ok (true, id, m')

  -- One round of the loop in `allocate`, lines 67-85.
  unfoldable pub allocate_round : ℕ → Progress → Result Progress
  allocate_round i p = do
    tokens ← block p.seq i
    let h = if length tokens == p.manager.block_size then some (digest tokens p.h) else none
    hit ← cache_hit p.manager h tokens
    (miss, id, m) ← choose_block p.cache_miss hit p.manager
    m' ← note_hash h tokens id m
    ok (record {
      manager = m';
      seq = record p.seq {
        num_cached_tokens =
            if miss
            then p.seq.num_cached_tokens
            else p.seq.num_cached_tokens + p.manager.block_size;
        block_table = p.seq.block_table ++ id ∷ [];
      };
      h = h;
      cache_miss = miss;
    })

  unfoldable pub allocate_rounds : ℕ → ℕ → Progress → Result Progress
  allocate_rounds zero i p = ok p
  allocate_rounds (suc n) i p = do p' ← allocate_round i p; allocate_rounds n (i + 1) p'

  abbrev pub table_empty : Sequence → Bool
  table_empty s = elim s.block_table [ [] ↦ true | _ ∷ _ ↦ false ]

  unfoldable pub allocate : BlockManager → Sequence → Result (BlockManager × Sequence)
  allocate m s = do
    assert (table_empty s)
    p ←
        allocate_rounds (num_blocks s) 0
          (record { manager = m; seq = s; h = none; cache_miss = false })
    ok (p.manager, p.seq)

-- One round of the loop in `deallocate`, lines 89-92.
unfoldable pub release_block : ℕ → BlockManager → Result BlockManager
release_block id m = do
  b ← block_at m id
  count ← elim b.ref_count [ zero ↦ raise negative_count | suc n ↦ ok n ]
  let m' = put_block m id (record b { ref_count = count })
  if count == 0 then deallocate_block id m' else ok m'

unfoldable pub release_blocks : List ℕ → BlockManager → Result BlockManager
release_blocks [] m = ok m
release_blocks (id ∷ ids) m = do m' ← release_block id m; release_blocks ids m'

unfoldable pub deallocate : BlockManager → Sequence → Result (BlockManager × Sequence)
deallocate m s = do
  m' ← release_blocks (reverse s.block_table) m
  ok (m', record s { num_cached_tokens = 0; block_table = [] })

-- `len(free) >= (len(seq) % block_size == 1)`
unfoldable pub can_append : BlockManager → Sequence → Bool
can_append m s = leb (if s.num_tokens % m.block_size == 1 then 1 else 0) (length m.free_block_ids)

-- `block_table[-2]` where the table has two entries.
abbrev pub second_last? : List ℕ → Option ℕ
second_last? [] = none
second_last? (x ∷ []) = none
second_last? (x ∷ y ∷ []) = some x
second_last? (x ∷ y ∷ z ∷ xs) = second_last? (y ∷ z ∷ xs)

-- The hash of the block before the last, -1 for a table of one block (line 110).
abbrev pub prefix_hash : BlockManager → List ℕ → Result (Option ℕ)
prefix_hash m table = elim (second_last? table) [
  | none ↦ ok none
  | some id ↦ do b ← block_at m id; ok b.hash
]

unfoldable pub last_id : List ℕ → Result ℕ
last_id table = elim (last? table) [ none ↦ raise index_error | some id ↦ ok id ]

abbrev pub is_hashed : Block → Bool
is_hashed b = elim b.hash [ none ↦ false | some _ ↦ true ]

-- Lines 103-106: the sequence begins a new block.
unfoldable pub append_block : Block → BlockManager → Sequence → Result (BlockManager × Sequence)
append_block last m s = do
  assert (is_hashed last)
  (id, m') ← fresh_block m
  ok (m', record s { block_table = s.block_table ++ id ∷ [] })

-- Lines 108-113: the last block is full, and is hashed.
unfoldable pub fill_block :
    (List ℕ → Option ℕ → ℕ) → ℕ → Block → BlockManager → Sequence → Result (BlockManager × Sequence)
fill_block digest id last m s = do
  assert (not (is_hashed last))
  tokens ← block s (num_blocks s - 1)
  prefix ← prefix_hash m s.block_table
  m' ← record_hash (digest tokens prefix) tokens id m
  ok (m', s)

-- Lines 102-115, at the last block of the table.
abbrev pub append_at :
    (List ℕ → Option ℕ → ℕ) → ℕ → Block → BlockManager → Sequence → Result (BlockManager × Sequence)
append_at digest id last m s =
    if s.num_tokens % m.block_size == 1
    then append_block last m s
    else (if s.num_tokens % m.block_size == 0
        then fill_block digest id last m s
        else (assert (not (is_hashed last)) >> ok (m, s)))

unfoldable pub may_append :
    (List ℕ → Option ℕ → ℕ) → BlockManager → Sequence → Result (BlockManager × Sequence)
may_append digest m s = do
  id ← last_id s.block_table
  last ← block_at m id
  append_at digest id last m s

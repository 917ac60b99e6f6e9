-- ===== src/Engine/Blocks/Counts.antt =====
-- The accounts of the block manager: free and used blocks and their reference counts.
use nano_qwen3tts_vllm.Common.{
  ℕ, zero, suc, ◌+◌, ◌≤◌, ◌<◌, ◌≡◌, ◌≢◌, refl, inl, inr, min, Bool, true, false, List, [], ◌∷◌,
  none, some, length, get_elem?, set, arith, if◌then◌else◌, ◌==◌, nat_eq, list_eq, contains, remove,
  Bool-cases, Option-cases, ℕ_discrete,
}
use nano_qwen3tts_vllm.Common.Dict.{lookup}
use nano_qwen3tts_vllm.Common.Count.{count, one_if, contains-count, count-remove, length-remove}
use nano_qwen3tts_vllm.Engine.Effects.{ok, Returns}
use nano_qwen3tts_vllm.Engine.Blocks.{
  Block, BlockManager, block_at, put_block, allocate_block, share_block, fresh_block, first_free,
  is_hashed,
}

-- The reference count of a block, and 1 for the id of a block.
abbrev pub refs : BlockManager → ℕ → ℕ
refs m id = elim (get_elem? m.blocks id) [ none ↦ 0 | some b ↦ b.ref_count ]

abbrev pub exists : BlockManager → ℕ → ℕ
exists m id = elim (get_elem? m.blocks id) [ none ↦ 0 | some b ↦ 1 ]

abbrev pub tokens_at : BlockManager → ℕ → List ℕ
tokens_at m id = elim (get_elem? m.blocks id) [ none ↦ [] | some b ↦ b.token_ids ]

abbrev pub hashed_at : BlockManager → ℕ → Bool
hashed_at m id = elim (get_elem? m.blocks id) [ none ↦ false | some b ↦ is_hashed b ]

-- Where block tables hold the block `id` `c id` times: that is its reference count, and each block
-- is either free, once, or used, once, and used exactly if it is referred to.
pub record Counts (m : BlockManager) (c : ℕ → ℕ) : Type 0 where
  pub each_once : (id : ℕ) → count id m.free_block_ids + count id m.used_block_ids ≡ exists m id
  pub used_once : (id : ℕ) → count id m.used_block_ids ≡ min 1 (refs m id)
  pub referred : (id : ℕ) → refs m id ≡ c id
  pub mapped : (h id : ℕ) → lookup h m.hash_to_block_id ≡ some id → exists m id ≡ 1

-- A write to a block that exists.
pub get_elem?-set {ℓ} :
    {A : Type ℓ} (xs : List A) (i j : ℕ) (old v : A)
    → get_elem? xs i ≡ some old
    → get_elem? (set xs i v) j ≡ (if j == i then some v else get_elem? xs j)
get_elem?-set [] i j old v e = cc
get_elem?-set (x ∷ xs) zero zero old v e = ground arith
get_elem?-set (x ∷ xs) zero (suc j) old v e = ground arith
get_elem?-set (x ∷ xs) (suc i) zero old v e = ground arith
get_elem?-set (x ∷ xs) (suc i) (suc j) old v e = ground (arith, get_elem?-set xs i j old v e)

pub block_at_eq :
    (m : BlockManager) (id : ℕ) (b : Block) → get_elem? m.blocks id ≡ some b → block_at m id ≡ ok b
unfolding block_at
block_at_eq m id b there = rw (there, block_at)

-- What a call leaves alone: the number of blocks, and the tokens of the blocks in use.
pub record Same (m m' : BlockManager) : Type 0 where
  pub size : m'.block_size ≡ m.block_size
  pub existing : (id : ℕ) → exists m' id ≡ exists m id
  pub content : (id : ℕ) → 0 < refs m id → tokens_at m' id ≡ tokens_at m id

module _ (m : BlockManager) (c : ℕ → ℕ) (k : Counts m c) (id : ℕ) where
  -- A block of the free list.
  free_facts :
      0 < count id m.free_block_ids
      → (b : Block) × (get_elem? m.blocks id ≡ some b) × (b.ref_count ≡ 0)
  free_facts h = elim (Option-cases (get_elem? m.blocks id)) [
    | inl none_there ↦ absurd (ground (arith, k.each_once id))
    | inr (b, there) ↦ (b, there, ground (arith, k.each_once id, k.used_once id))
  ]

  abbrev with_fresh : BlockManager
  with_fresh = record m {
    blocks = set m.blocks id (record { ref_count = 1; hash = none; token_ids = [] });
    free_block_ids = remove id m.free_block_ids;
    used_block_ids = id ∷ m.used_block_ids;
  }

  allocate_block_eq : 0 < count id m.free_block_ids → allocate_block id m ≡ ok with_fresh
  unfolding allocate_block ℕ_discrete
  allocate_block_eq h =
      let (b, there, unused) = free_facts h in
      let member : contains m.free_block_ids id ≡ true = (contains-count m.free_block_ids id).1 h in
      let absent : contains m.used_block_ids id ≡ false =
        ground (arith, contains-count m.used_block_ids id, k.each_once id) in
      rw (block_at_eq m id b there, unused, member, absent) refl

  written :
      0 < count id m.free_block_ids
      → (j : ℕ)
      → get_elem? with_fresh.blocks j ≡ (
          if j == id
          then some (record { ref_count = 1; hash = none; token_ids = [] })
          else get_elem? m.blocks j)
  written h j = let (b, there, unused) = free_facts h in get_elem?-set m.blocks id j b _ there

  with_fresh-Counts : 0 < count id m.free_block_ids → Counts with_fresh (λ j. one_if j id + c j)
  unfolding count
  with_fresh-Counts h =
      let (b, there, unused) = free_facts h in
      record {
        each_once =
            λ j. ground (arith, written h j, k.each_once j, count-remove j id m.free_block_ids h);
        used_once = λ j. ground (arith, written h j, k.used_once j, k.each_once id);
        referred = λ j. ground (arith, written h j, k.referred j);
        mapped = λ h' j e. ground (arith, written h j, k.mapped h' j e);
      }

  with_fresh-Same : 0 < count id m.free_block_ids → Same m with_fresh
  with_fresh-Same h =
      let (b, there, unused) = free_facts h in
      record {
        size = refl;
        existing = λ j. ground (arith, written h j);
        content = λ j p. ground (arith, written h j);
      }

-- One more reference to a block in use.
module _ (m : BlockManager) (c : ℕ → ℕ) (k : Counts m c) (id : ℕ) (b : Block)
    (there : get_elem? m.blocks id ≡ some b) where
  abbrev put_same : Block → BlockManager
  put_same b' = put_block m id b'

  pub put_written :
      (b' : Block) (j : ℕ)
      → get_elem? (put_same b').blocks j ≡ (if j == id then some b' else get_elem? m.blocks j)
  put_written b' j = get_elem?-set m.blocks id j b b' there

  -- A write that changes the count of a block and leaves it free or used.
  pub put_block-Counts :
      (b' : Block) (n : ℕ → ℕ)
      → min 1 b'.ref_count ≡ min 1 b.ref_count
      → ((j : ℕ) → j ≢ id → n j ≡ c j)
      → n id ≡ b'.ref_count
      → Counts (put_same b') n
  put_block-Counts b' n live others here = record {
    each_once = λ j. ground (arith, put_written b' j, k.each_once j);
    used_once = λ j. ground (arith, put_written b' j, k.used_once j);
    referred = λ j. ground (arith, put_written b' j, k.referred j, others j);
    mapped = λ h j e. ground (arith, put_written b' j, k.mapped h j e);
  }

  pub put_block-Same :
      (b' : Block) → (0 < b.ref_count → b'.token_ids ≡ b.token_ids) → Same m (put_same b')
  put_block-Same b' h = record {
    size = refl;
    existing = λ j. ground (arith, put_written b' j);
    content = λ j p. ground (arith, put_written b' j);
  }

-- What a call does to the accounts: it refers to `id` once more, and takes at most one free block.
pub record Grants (m : BlockManager) (c : ℕ → ℕ) (id : ℕ) (m' : BlockManager) : Type 0 where
  pub counts : Counts m' (λ j. one_if j id + c j)
  pub same : Same m m'
  pub free_left : length m.free_block_ids ≤ length m'.free_block_ids + 1

first_free_eq :
    (m : BlockManager) (id : ℕ) (rest : List ℕ)
    → m.free_block_ids ≡ id ∷ rest
    → first_free m ≡ ok id
unfolding first_free
first_free_eq m id rest e = rw (e, first_free)

listed_first : (id : ℕ) (rest : List ℕ) → 0 < count id (id ∷ rest)
unfolding count
listed_first id rest = ground arith

module _ (m : BlockManager) (c : ℕ → ℕ) (k : Counts m c) where
  with_fresh-Grants : (id : ℕ) → 0 < count id m.free_block_ids → Grants m c id (with_fresh m c k id)
  with_fresh-Grants id h = record {
    counts = with_fresh-Counts m c k id h;
    same = with_fresh-Same m c k id h;
    free_left = omega (arith, length-remove id m.free_block_ids h);
  }

  allocate_block-Returns :
      (id : ℕ) → 0 < count id m.free_block_ids → Returns (Grants m c id) (allocate_block id m)
  allocate_block-Returns id h =
      (with_fresh m c k id, allocate_block_eq m c k id h, with_fresh-Grants id h)

  -- A cached block is shared: its count grows if it is in use, and it is taken if it is free.
  pub share_block-Returns : (id : ℕ) → exists m id ≡ 1 → Returns (Grants m c id) (share_block id m)
  unfolding share_block
  share_block-Returns id h = elim (Bool-cases (contains m.used_block_ids id)) [
    | inl used ↦ elim (Option-cases (get_elem? m.blocks id)) [
      | inl none_there ↦ absurd (ground arith)
      | inr (b, there) ↦ (
        put_block m id (record b { ref_count = b.ref_count + 1 }),
        rw used (rw (block_at_eq m id b there) refl),
        record {
          counts =
              put_block-Counts m c k id b there _ (λ j. one_if j id + c j)
                (ground (arith, contains-count m.used_block_ids id, k.used_once id))
                (λ j apart. ground arith) (ground (arith, k.referred id));
          same = put_block-Same m c k id b there _ (λ p. refl);
          free_left = omega arith;
        },
      )
    ]
    | inr unused ↦ rw unused (
        allocate_block-Returns id
          (ground (arith, contains-count m.used_block_ids id, k.each_once id)))
  ]

  -- What a fresh block is: granted, unused before, and without a hash.
  abbrev pub IsFresh : ℕ × BlockManager → Type 0
  IsFresh (id, m') = Grants m c id m' × (refs m id ≡ 0) × (hashed_at m' id ≡ false)

  pub fresh_block-Returns : 0 < length m.free_block_ids → Returns IsFresh (fresh_block m)
  unfolding fresh_block
  fresh_block-Returns h = go m.free_block_ids refl h
    where
      go :
          (free : List ℕ)
          → m.free_block_ids ≡ free
          → 0 < length free
          → Returns IsFresh (fresh_block m)
      go [] e h' = absurd (omega arith)
      go (id ∷ rest) e h' =
          let listed : 0 < count id m.free_block_ids = ground (arith, listed_first id rest) in
          let (b, there, unused) = free_facts m c k id listed in
          (
            (id, with_fresh m c k id),
            rw (first_free_eq m id rest e, allocate_block_eq m c k id listed) refl,
            (
              with_fresh-Grants id listed,
              rw (there, refs) unused,
              ground (arith, written m c k id listed id),
            ),
          )

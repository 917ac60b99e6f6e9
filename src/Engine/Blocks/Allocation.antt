-- ===== src/Engine/Blocks/Allocation.antt =====
-- `allocate` with enough free blocks: it raises nothing, keeps the accounts, and leaves the contents
-- of the blocks in use alone.
use nano_qwen3tts_vllm.Common.{
  ℕ, ◌<◌, ◌≡◌, ◌≢◌, refl, ◌∙◌, ◌⊎◌, inl, inr, Bool, true, false, List, Option, none, some, length,
  get_elem?, arith, if◌then◌else◌, ◌==◌, nat_eq, list_eq, Bool-cases, Option-cases,
}
use nano_qwen3tts_vllm.Common.Dict.{insert, lookup-insert}
use nano_qwen3tts_vllm.Engine.Effects.{Returns}
use nano_qwen3tts_vllm.Engine.Blocks.{
  Block, BlockManager, put_block, record_hash, note_hash, cached_id, cache_hit, choose_block,
}
use nano_qwen3tts_vllm.Engine.Blocks.Counts.{
  Counts, Grants, refs, exists, tokens_at, hashed_at, get_elem?-set, block_at_eq,
  share_block-Returns, fresh_block-Returns,
}

pub Counts-ext : (m : BlockManager) (c d : ℕ → ℕ) → Counts m c → ((j : ℕ) → c j ≡ d j) → Counts m d
Counts-ext m c d k e = record {
  each_once = k.each_once;
  used_once = k.used_once;
  referred = λ j. k.referred j ∙ e j;
  mapped = k.mapped;
}

-- After a block is granted and its hash noted.
pub record Noted (m : BlockManager) (c : ℕ → ℕ) (id : ℕ) (tokens : List ℕ) (h : Option ℕ)
    (m' : BlockManager) : Type 0 where
  pub counts : Counts m' c
  pub size : m'.block_size ≡ m.block_size
  pub free : m'.free_block_ids ≡ m.free_block_ids
  pub existing : (j : ℕ) → exists m' j ≡ exists m j
  pub others : (j : ℕ) → j ≢ id → tokens_at m' j ≡ tokens_at m j
  pub mark :
      ((h ≡ none) × (hashed_at m' id ≡ hashed_at m id)) ⊎ ((h ≢ none) × (hashed_at m' id ≡ true))
  pub content : (tokens_at m' id ≡ tokens) ⊎ ((h ≡ none) × (tokens_at m' id ≡ tokens_at m id))

module _ (m : BlockManager) (c : ℕ → ℕ) (k : Counts m c) (id : ℕ) (tokens : List ℕ)
    (there : exists m id ≡ 1) where
  pub record_hash-Returns :
      (h : ℕ) → Returns (Noted m c id tokens (some h)) (record_hash h tokens id m)
  unfolding record_hash
  record_hash-Returns h = elim (Option-cases (get_elem? m.blocks id)) [
    | inl missing ↦ absurd (ground arith)
    | inr (b, found) ↦
        let b' : Block = record b { hash = some h; token_ids = tokens } in
        let written = λ (j : ℕ). get_elem?-set m.blocks id j b b' found in
        (
          record (put_block m id b') { hash_to_block_id = insert h id m.hash_to_block_id },
          rw (block_at_eq m id b found) refl,
          record {
            counts = record {
              each_once = λ j. ground (arith, written j, k.each_once j);
              used_once = λ j. ground (arith, written j, k.used_once j);
              referred = λ j. ground (arith, written j, k.referred j);
              mapped = λ h' j e.
                  ground
                    (arith, written j, lookup-insert h' h id m.hash_to_block_id, k.mapped h' j);
            };
            size = refl;
            free = refl;
            existing = λ j. ground (arith, written j);
            others = λ j apart. ground (arith, written j);
            mark = inr (λ e. cc, ground (arith, written id));
            content = inl (ground (arith, written id));
          },
        )
  ]

  pub note_hash-Returns : (h : Option ℕ) → Returns (Noted m c id tokens h) (note_hash h tokens id m)
  note_hash-Returns none = (
    m,
    refl,
    record {
      counts = k;
      size = refl;
      free = refl;
      existing = λ j. refl;
      others = λ j apart. refl;
      mark = inl (refl, refl);
      content = inr (refl, refl);
    },
  )
  note_hash-Returns (some h) = record_hash-Returns h

-- A hit names a block that exists and holds the tokens asked for, and was asked for by a hash.
abbrev pub IsHit : BlockManager → List ℕ → Option ℕ → Option ℕ → Type 0
IsHit m tokens h none = Unit
IsHit m tokens h (some id) = (exists m id ≡ 1) × (tokens_at m id ≡ tokens) × (h ≢ none)

module _ (m : BlockManager) (c : ℕ → ℕ) (k : Counts m c) where
  hit_at : (id : ℕ) (tokens : List ℕ) (h : Option ℕ) → cached_id m h ≡ some id → exists m id ≡ 1
  hit_at id tokens none e = cc
  hit_at id tokens (some h) e = k.mapped h id e

  pub cache_hit-Returns :
      (h : Option ℕ) (tokens : List ℕ) → Returns (IsHit m tokens h) (cache_hit m h tokens)
  unfolding cache_hit
  cache_hit-Returns h tokens = elim (Option-cases (cached_id m h)) [
    | inl miss ↦ (none, rw (miss, cache_hit) refl, tt)
    | inr (id, e) ↦ elim (Option-cases (get_elem? m.blocks id)) [
      | inl missing ↦ absurd (ground (arith, hit_at id tokens h e))
      | inr (b, found) ↦ (
        if b.token_ids == tokens then some id else none,
        rw (e, cache_hit) (rw (block_at_eq m id b found) refl),
        compared id b found (λ none_h. ground arith),
      )
    ]
  ]
    where
      compared :
          (id : ℕ) (b : Block)
          → get_elem? m.blocks id ≡ some b
          → h ≢ none
          → IsHit m tokens h (if b.token_ids == tokens then some id else none)
      compared id b found keyed = elim (Bool-cases (b.token_ids == tokens)) [
        | inl same ↦ rw same (ground arith, ground arith, keyed)
        | inr other ↦ rw other tt
      ]

  -- The block of a round is granted; it was unused before, or it held the tokens already, and
  -- without a hash to ask for it is a fresh one.
  abbrev pub IsChosen : List ℕ → Option ℕ → Bool × ℕ × BlockManager → Type 0
  IsChosen tokens h (miss, id, m') =
      Grants m c id m'
      × ((refs m id ≡ 0) ⊎ (tokens_at m id ≡ tokens))
      × (h ≡ none → hashed_at m' id ≡ false)

  pub choose_block-Returns :
      (digest : List ℕ → Option ℕ → ℕ) (missed : Bool) (h hit : Option ℕ) (tokens : List ℕ)
      → 0 < length m.free_block_ids
      → IsHit m tokens h hit
      → Returns (IsChosen tokens h) (choose_block digest missed hit m)
  unfolding choose_block
  choose_block-Returns digest false h (some id) tokens room p =
      let (m', r, grants) = share_block-Returns m c k id p.0 in
      ((false, id, m'), rw r refl, (grants, inr p.1, λ none_h. absurd (p.2 none_h)))
  choose_block-Returns digest false h none tokens room p =
      let ((id, m'), r, (grants, unused, new)) = fresh_block-Returns m c k room in
      ((true, id, m'), rw r refl, (grants, inl unused, λ none_h. new))
  choose_block-Returns digest true h hit tokens room p =
      let ((id, m'), r, (grants, unused, new)) = fresh_block-Returns m c k room in
      ((true, id, m'), rw r refl, (grants, inl unused, λ none_h. new))

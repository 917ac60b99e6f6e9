-- ===== src/Engine/Blocks/Filling.antt =====
-- `allocate`: the loop over the blocks of a sequence, by its invariant.
use nano_qwen3tts_vllm.Common.{
  ℕ, zero, suc, ◌+◌, ◌*◌, ◌≤◌, ◌<◌, ◌≡◌, refl, sym, ◌∙◌, ap, ◌⊎◌, inl, inr, true, false, List, [],
  ◌∷◌, ◌++◌, Option, none, some, length, length-append, get_elem?, last?, last?-append_one, arith,
  if◌then◌else◌, ◌==◌, nat_eq, list_eq, leb→le, slice,
}
use nano_qwen3tts_vllm.Common.Count.{count, count-append}
use nano_qwen3tts_vllm.Engine.Effects.{Returns}
use nano_qwen3tts_vllm.Engine.Sequence.{Sequence, num_blocks, block_size}
use nano_qwen3tts_vllm.Engine.Blocks.{
  BlockManager, Progress, allocate_rounds, table_empty, allocate, can_allocate,
}
use nano_qwen3tts_vllm.Engine.Blocks.Counts.{Counts, tokens_at, hashed_at}
use nano_qwen3tts_vllm.Engine.Blocks.Allocation.{Counts-ext}
use nano_qwen3tts_vllm.Engine.Blocks.Table.{block_tokens, Round, allocate_round-Returns}

get_elem?-append_one {ℓ} :
    {A : Type ℓ} (xs : List A) (y : A) (k : ℕ)
    → get_elem? (xs ++ y ∷ []) k ≡ (if k == length xs then some y else get_elem? xs k)
get_elem?-append_one [] y zero = ground arith
get_elem?-append_one [] y (suc k) = ground arith
get_elem?-append_one (x ∷ xs) y zero = ground arith
get_elem?-append_one (x ∷ xs) y (suc k) = ground (arith, get_elem?-append_one xs y k)

count-get_elem? : (xs : List ℕ) (k x : ℕ) → get_elem? xs k ≡ some x → 0 < count x xs
unfolding count
count-get_elem? [] k x e = cc
count-get_elem? (y ∷ ys) zero x e = ground arith
count-get_elem? (y ∷ ys) (suc k) x e = ground (arith, count-get_elem? ys k x e)

-- Each full block of the sequence that has its entry in the table holds its tokens.
abbrev pub AreFilled : BlockManager → Sequence → Type 0
AreFilled m s =
    (k id : ℕ)
    → get_elem? s.block_table k ≡ some id
    → length (block_tokens s k) ≡ block_size
    → tokens_at m id ≡ block_tokens s k

-- The last block of the table has its hash exactly if it is full.
abbrev pub LastMarked : ℕ → BlockManager → Sequence → Type 0
LastMarked zero m s = Unit
LastMarked (suc i) m s =
    (id : ℕ) × (last? s.block_table ≡ some id)
    × (hashed_at m id ≡ (length (block_tokens s i) == block_size))

-- The invariant of the loop, before round `i`.
pub record Tabled (m : BlockManager) (s : Sequence) (c : ℕ → ℕ) (i : ℕ) (m' : BlockManager)
    (s' : Sequence) : Type 0 where
  pub counts : Counts m' (λ j. count j s'.block_table + c j)
  pub size : m'.block_size ≡ block_size
  pub content : (j : ℕ) → 0 < c j → tokens_at m' j ≡ tokens_at m j
  pub table : length s'.block_table ≡ i
  pub tokens : s'.token_ids ≡ s.token_ids
  pub tokens_count : s'.num_tokens ≡ s.num_tokens
  pub same_id : s'.seq_id ≡ s.seq_id
  pub room : num_blocks s ≤ length m'.free_block_ids + i
  pub filled : AreFilled m' s'
  pub last_marked : LastMarked i m' s'

module _ (m : BlockManager) (s : Sequence) (c : ℕ → ℕ) (i : ℕ) (p p' : Progress) where
  same_block :
      Round p (λ j. count j p.seq.block_table + c j) i p'
      → (k : ℕ) → block_tokens p'.seq k ≡ block_tokens p.seq k
  same_block r k = ap (λ ts. slice (k * block_size) ((k + 1) * block_size) ts) r.tokens

  entry :
      (r : Round p (λ j. count j p.seq.block_table + c j) i p') (k id : ℕ)
      → get_elem? p'.seq.block_table k ≡ some id
      → ((k ≡ length p.seq.block_table) × (id ≡ r.id)) ⊎ (get_elem? p.seq.block_table k ≡ some id)
  entry r k id e = ground (arith, r.table, get_elem?-append_one p.seq.block_table r.id k)

  Round-AreFilled :
      Tabled m s c i p.manager p.seq
      → Round p (λ j. count j p.seq.block_table + c j) i p'
      → AreFilled p'.manager p'.seq
  Round-AreFilled t r k id e full = elim (entry r k id e) [
    | inl (last, new) ↦
        let at : block_tokens p.seq i ≡ block_tokens p.seq k =
          ap (block_tokens p.seq) (sym (last ∙ t.table)) in
        ap (tokens_at p'.manager) new
        ∙ r.full (ap length (at ∙ sym (same_block r k)) ∙ full ∙ sym t.size)
        ∙ at
        ∙ sym (same_block r k)
    | inr old ↦
        r.content id
          (omega (arith, t.counts.referred id, count-get_elem? p.seq.block_table k id old))
        ∙ t.filled k id old (ap length (sym (same_block r k)) ∙ full)
        ∙ sym (same_block r k)
  ]

  Round-LastMarked :
      Tabled m s c i p.manager p.seq
      → Round p (λ j. count j p.seq.block_table + c j) i p'
      → LastMarked (suc i) p'.manager p'.seq
  Round-LastMarked t r = (
    r.id,
    ap last? r.table ∙ last?-append_one p.seq.block_table r.id,
    rw (same_block r i) (r.marked ∙ ap (λ w. length (block_tokens p.seq i) == w) t.size),
  )

  next_round : i + 1 ≡ suc i
  next_round = omega arith

  Round-Tabled :
      Tabled m s c i p.manager p.seq
      → Round p (λ j. count j p.seq.block_table + c j) i p'
      → Tabled m s c (i + 1) p'.manager p'.seq
  unfolding count
  Round-Tabled t r = record {
    counts =
        Counts-ext p'.manager _ _ r.counts
          (λ j. rw r.table (omega (arith, count-append j p.seq.block_table (r.id ∷ []))));
    size = r.size ∙ t.size;
    content = λ j used. r.content j (omega (arith, t.counts.referred j)) ∙ t.content j used;
    table =
        ap length r.table ∙ length-append p.seq.block_table (r.id ∷ []) ∙ omega (arith, t.table);
    tokens = r.tokens ∙ t.tokens;
    tokens_count = r.tokens_count ∙ t.tokens_count;
    same_id = r.same_id ∙ t.same_id;
    room = omega (arith, t.room, r.free_left);
    filled = Round-AreFilled t r;
    last_marked = rw next_round (Round-LastMarked t r);
  }

num_blocks_eq : (s s' : Sequence) → s'.num_tokens ≡ s.num_tokens → num_blocks s' ≡ num_blocks s
unfolding num_blocks
num_blocks_eq s s' e = rw e refl

module _ (digest : List ℕ → Option ℕ → ℕ) (m : BlockManager) (s : Sequence) (c : ℕ → ℕ) where
  rounds-Tabled :
      (n i end : ℕ) (p : Progress)
      → n + i ≡ end
      → end ≤ num_blocks s
      → Tabled m s c i p.manager p.seq
      → Returns (λ p'. Tabled m s c end p'.manager p'.seq) (allocate_rounds digest n i p)
  unfolding allocate_rounds
  rounds-Tabled zero i end p e h t = (p, refl, rw at_end t)
    where
      at_end : end ≡ i
      at_end = omega arith
  rounds-Tabled (suc n) i end p e h t =
      let (p', r, round) =
        allocate_round-Returns digest i p _ t.counts
          (omega (arith, num_blocks_eq s p.seq t.tokens_count)) (omega (arith, t.room)) in
      let (p'', r', t') =
        rounds-Tabled n (i + 1) end p' (omega arith) h (Round-Tabled m s c i p p' t round) in
      (p'', rw r r', t')

  starts-Tabled :
      Counts m c
      → m.block_size ≡ block_size
      → s.block_table ≡ []
      → can_allocate m s ≡ true
      → Tabled m s c 0 m s
  unfolding can_allocate count
  starts-Tabled k size empty room = record {
    counts = Counts-ext m _ _ k (λ j. rw empty (omega arith));
    size = size;
    content = λ j used. refl;
    table = ap length empty;
    tokens = refl;
    tokens_count = refl;
    same_id = refl;
    room = ground (arith, leb→le _ _ room);
    filled = λ k' id e full. ground (arith, empty);
    last_marked = tt;
  }

  -- Where the accounts are right, `allocate` of a sequence without blocks that `can_allocate` lets in
  -- raises nothing: the accounts count its table, which has a block for each of the sequence's; the
  -- contents of blocks that other tables hold are unchanged; full blocks hold their tokens, and the
  -- last block has a hash exactly if it is full.
  pub allocate-Tabled :
      Counts m c
      → m.block_size ≡ block_size
      → s.block_table ≡ []
      → can_allocate m s ≡ true
      → Returns (λ (m', s'). Tabled m s c (num_blocks s) m' s') (allocate digest m s)
  unfolding allocate
  allocate-Tabled k size empty room =
      let (p, r, t) =
        rounds-Tabled (num_blocks s) 0 (num_blocks s)
          (record { manager = m; seq = s; h = none; cache_miss = false }) (omega arith)
          (omega arith) (starts-Tabled k size empty room) in
      ((p.manager, p.seq), rw is_empty (rw r refl), t)
    where
      is_empty : table_empty digest s ≡ true
      is_empty = ground (arith, empty)

-- ===== src/Engine/Blocks/Prompts.antt =====
-- The first token behind a prompt: `allocate`, `append_token` and `may_append` in a row.
use nano_qwen3tts_vllm.Common.{
  ℕ, zero, suc, ◌+◌, ◌-◌, ◌*◌, ◌/◌, ◌%◌, ◌<◌, ◌≡◌, refl, sym, ◌∙◌, ap, inl, inr, min, true, false,
  List, [], Option, some, length, length-take, length-drop, drop, last?, get_elem?, arith, ◌==◌,
  nat_eq, Option-cases,
}
use nano_qwen3tts_vllm.Common.Count.{count}
use nano_qwen3tts_vllm.Engine.Effects.{ok, raise, assertion_error, Returns}
use nano_qwen3tts_vllm.Engine.Sequence.{Sequence, num_blocks, block_size, append_token}
use nano_qwen3tts_vllm.Engine.Blocks.{
  BlockManager, allocate, can_allocate, last_id, is_hashed, append_block, may_append,
}
use nano_qwen3tts_vllm.Engine.Blocks.Counts.{Counts, hashed_at, block_at_eq}
use nano_qwen3tts_vllm.Engine.Blocks.Table.{block_tokens}
use nano_qwen3tts_vllm.Engine.Blocks.Filling.{LastMarked, allocate-Tabled}
use nano_qwen3tts_vllm.Engine.Blocks.Appending.{IsMarked, count-last?}

last_of :
    (n : ℕ) (m : BlockManager) (s : Sequence)
    → 0 < n
    → LastMarked n m s
    → (i : ℕ) × (i + 1 ≡ n)
      × (id : ℕ) × (last? s.block_table ≡ some id)
      × (hashed_at m id ≡ (length (block_tokens s i) == block_size))
last_of zero m s h l = absurd (omega arith)
last_of (suc i) m s h (id, last, hashed) = (i, omega arith, id, last, hashed)

length-block_tokens :
    (s : Sequence) (i : ℕ) → length (block_tokens s i) ≡ min 256 (length s.token_ids - i * 256)
length-block_tokens s i =
    length-take _ (drop (i * 256) s.token_ids) ∙ omega (arith, length-drop (i * 256) s.token_ids)

last_is_full :
    (n i : ℕ)
    → 0 < n
    → i + 1 ≡ (n + 256 - 1) / 256
    → (min 256 (n - i * 256) == 256) ≡ (n % 256 == 0)
last_is_full n i h e = ground (arith, into, back)
  where
    into : min 256 (n - i * 256) ≡ 256 → n % 256 ≡ 0
    into e' = omega (arith, e, e')

    back : n % 256 ≡ 0 → min 256 (n - i * 256) ≡ 256
    back e' = omega (arith, e, e')

last_id_eq : (table : List ℕ) (id : ℕ) → last? table ≡ some id → last_id table ≡ ok id
unfolding last_id
last_id_eq table id e = rw (e, last_id) refl

module _ (digest : List ℕ → Option ℕ → ℕ) (m : BlockManager) (s : Sequence) (c : ℕ → ℕ)
    (k : Counts m c) (size : m.block_size ≡ block_size) (empty : s.block_table ≡ [])
    (room : can_allocate m s ≡ true) (some_tokens : 0 < s.num_tokens) where
  some_blocks : 0 < num_blocks s
  unfolding num_blocks
  some_blocks = omega arith

  -- Where the accounts are right and `can_allocate` holds, a prompt of at least one token, whose
  -- length is that of its token ids, leaves `allocate` with right accounts and a table in step.
  pub allocate-IsMarked :
      length s.token_ids ≡ s.num_tokens
      → Returns
          (λ (m', s'). Counts m' (λ j. count j s'.block_table + c j) × IsMarked m' s')
          (allocate digest m s)
  unfolding num_blocks
  allocate-IsMarked whole =
      let ((m', s'), r, t) = allocate-Tabled digest m s c k size empty room in
      let (i, e, id, last, hashed) = last_of (num_blocks s) m' s' some_blocks t.last_marked in
      (
        (m', s'),
        r,
        (
          t.counts,
          record {
            last_block = id;
            last_listed = last;
            marked =
                hashed
                ∙ ap (λ l. l == 256) (length-block_tokens s' i)
                ∙ ap (λ l. min 256 (l - i * 256) == 256) (ap length t.tokens ∙ whole)
                ∙ last_is_full s.num_tokens i some_tokens e
                ∙ ap (λ l. l % 256 == 0) (sym t.tokens_count);
            long_enough = t.table ∙ ap (λ l. (l + 256 - 1) / 256) (sym t.tokens_count);
          },
        ),
      )

  -- The end of the table in a manager: the first step of `may_append`.
  may_append_first :
      (m' : BlockManager) (s' : Sequence) (t id : ℕ)
      → last? s'.block_table ≡ some id
      → Counts m' (λ j. count j s'.block_table + c j)
      → m'.block_size ≡ block_size
      → hashed_at m' id ≡ false
      → (s'.num_tokens + 1) % block_size ≡ 1
      → may_append digest m' (append_token s' t) ≡ raise assertion_error
  unfolding may_append append_block append_token
  may_append_first m' s' t id last k' size' unhashed first =
      elim (Option-cases (get_elem? m'.blocks id)) [
        | inl missing ↦ absurd (ground (arith, k'.referred id, count-last? s'.block_table id last))
        | inr (b, there) ↦
            let begins : ((s'.num_tokens + 1) % m'.block_size == 1) ≡ true =
              ground (arith, first, size') in
            let bare : is_hashed b ≡ false = ground arith in
            rw (last_id_eq s'.block_table id last)
              (rw (block_at_eq m' id b there) (rw begins (rw bare refl)))
      ]

  -- Where the accounts are right and `can_allocate` holds, a prompt without token ids, whose nonzero
  -- length is a multiple of the block size, is allocated without an error, and `may_append` after its first token
  -- raises an assertion error.
  pub embeddings_fail :
      (t : ℕ)
      → s.token_ids ≡ []
      → s.num_tokens % block_size ≡ 0
      → Returns
          (λ (m', s'). may_append digest m' (append_token s' t) ≡ raise assertion_error)
          (allocate digest m s)
  embeddings_fail t no_ids full =
      let ((m', s'), r, tabled) = allocate-Tabled digest m s c k size empty room in
      let (i, e, id, last, hashed) = last_of (num_blocks s) m' s' some_blocks tabled.last_marked in
      let short : length (block_tokens s' i) ≡ 0 =
        length-block_tokens s' i ∙ omega (arith, ap length (tabled.tokens ∙ no_ids)) in
      (
        (m', s'),
        r,
        may_append_first m' s' t id last tabled.counts tabled.size (hashed ∙ ground (arith, short))
            (omega (arith, tabled.tokens_count, full)),
      )

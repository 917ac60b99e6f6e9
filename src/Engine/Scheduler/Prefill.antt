-- ===== src/Engine/Scheduler/Prefill.antt =====
-- The prefill of `schedule`: it takes sequences from the front of the waiting queue, in their order.
use nano_qwen3tts_vllm.Common.{
  ℕ, ◌+◌, ◌-◌, ◌≤◌, ◌<◌, ◌≡◌, refl, sym, ◌∙◌, ap, inl, inr, true, List, [], ◌∷◌, ◌++◌, Option, some,
  length, ltb, arith, if◌then◌else◌, ◌==◌, nat_eq, Bool-cases,
}
use mathlib.Core.List.{append-nil, append_assoc}
use nano_qwen3tts_vllm.Common.Dict.{Dict, lookup, lookup-insert, total, total-insert}
use nano_qwen3tts_vllm.Common.Count.{count}
use nano_qwen3tts_vllm.Engine.Effects.{Returns}
use nano_qwen3tts_vllm.Engine.Sequence.{Sequence, running, block_size, num_blocks}
use nano_qwen3tts_vllm.Engine.Blocks.{BlockManager, can_allocate}
use nano_qwen3tts_vllm.Engine.Blocks.Counts.{Counts}
use nano_qwen3tts_vllm.Engine.Blocks.Allocation.{Counts-ext}
use nano_qwen3tts_vllm.Engine.Blocks.Filling.{Tabled, allocate-Tabled}
use nano_qwen3tts_vllm.Engine.Scheduler.{Scheduler, seq_at, admit_seq, fits, prefill}

-- How often the block tables of all sequences hold a block.
abbrev pub held : Dict ℕ Sequence → ℕ → ℕ
held seqs j = total (λ q. count j q.block_table) seqs

-- The block manager's accounts are those of the sequences' tables.
pub record IsSound (s : Scheduler) : Type 0 where
  pub counts : Counts s.block_manager (held s.seqs)
  pub size : s.block_manager.block_size ≡ block_size
  pub keyed : (id : ℕ) (q : Sequence) → lookup id s.seqs ≡ some q → q.seq_id ≡ id

-- The queue names sequences without blocks, each once.
pub record AreWaiting (s : Scheduler) (ids : List ℕ) : Type 0 where
  pub bare :
      (id : ℕ)
      → 0 < count id ids
      → (q : Sequence) × (lookup id s.seqs ≡ some q) × (q.block_table ≡ [])
  pub once : (id : ℕ) → count id ids ≤ 1

pub record IsPrefilled (s : Scheduler) (ids : List ℕ) (n : ℕ) (r : List ℕ × Scheduler)
    : Type 0 where
  pub left : List ℕ
  pub split : ids ≡ r.0 ++ left
  pub now_waiting : r.1.waiting_ids ≡ left
  pub now_running : r.1.running_ids ≡ s.running_ids ++ r.0
  pub few : length r.0 + n ≤ s.max_num_seqs
  pub sound : IsSound r.1
  pub waits : AreWaiting r.1 left

stop-IsPrefilled :
    (s : Scheduler) (ids : List ℕ) (n : ℕ)
    → IsSound s
    → AreWaiting s ids
    → s.waiting_ids ≡ ids
    → n ≤ s.max_num_seqs
    → IsPrefilled s ids n ([], s)
stop-IsPrefilled s ids n sound waits e h = record {
  left = ids;
  split = refl;
  now_waiting = e;
  now_running = sym (append-nil s.running_ids);
  few = omega arith;
  sound = sound;
  waits = waits;
}

module _ (s : Scheduler) (id : ℕ) (rest : List ℕ) (q q' : Sequence) (m : BlockManager)
    (sound : IsSound s) (waits : AreWaiting s (id ∷ rest)) (here : lookup id s.seqs ≡ some q)
    (empty : q.block_table ≡ [])
    (t : Tabled s.block_manager q (held s.seqs) (num_blocks q) m q') where
  abbrev admitted : Scheduler
  admitted = admit_seq rest (m, q') s

  own_id : q'.seq_id ≡ id
  own_id = t.same_id ∙ sound.keyed id q here

  written :
      (j : ℕ)
      → lookup j admitted.seqs
        ≡ (if j == id then some (record q' { status = running }) else lookup j s.seqs)
  written j =
      ground (arith, own_id, lookup-insert j q'.seq_id (record q' { status = running }) s.seqs)

  admitted-IsSound : IsSound admitted
  unfolding count
  admitted-IsSound = record {
    counts = Counts-ext m _ _ t.counts (λ j. ground (
      arith,
      own_id,
      here,
      empty,
      total-insert (λ q₀. count j q₀.block_table) q'.seq_id (record q' { status = running }) s.seqs,
    ));
    size = t.size;
    keyed = λ j q₀ e. ground (arith, own_id, written j, sound.keyed j q₀);
  }

  admitted-AreWaiting : AreWaiting admitted rest
  unfolding count
  admitted-AreWaiting = record {
    bare = λ j listed.
        let (q₀, there, bare) = waits.bare j (omega arith) in
        (q₀, ground (arith, written j, waits.once j), bare);
    once = λ j. omega (arith, waits.once j);
  }

  next-IsPrefilled :
      (n : ℕ) (r : List ℕ × Scheduler)
      → IsPrefilled admitted rest (n + 1) r
      → IsPrefilled s (id ∷ rest) n (id ∷ r.0, r.1)
  next-IsPrefilled n r p = record {
    left = p.left;
    split = ap (λ ids. id ∷ ids) p.split;
    now_waiting = p.now_waiting;
    now_running =
        p.now_running
        ∙ ap (λ i. (s.running_ids ++ i ∷ []) ++ r.0) own_id
        ∙ append_assoc s.running_ids (id ∷ []) r.0;
    few = omega (arith, p.few);
    sound = p.sound;
    waits = p.waits;
  }

fits-can_allocate :
    (s : Scheduler) (batched : ℕ) (q : Sequence)
    → fits s batched q ≡ true
    → can_allocate s.block_manager q ≡ true
fits-can_allocate s batched q e = ground arith

module _ (digest : List ℕ → Option ℕ → ℕ) where
  -- One round, with the rest of the loop as an assumption.
  round-IsPrefilled :
      (id : ℕ) (rest : List ℕ) (n batched : ℕ) (s : Scheduler) (q : Sequence)
      → IsSound s
      → AreWaiting s (id ∷ rest)
      → s.waiting_ids ≡ id ∷ rest
      → lookup id s.seqs ≡ some q
      → q.block_table ≡ []
      → n ≤ s.max_num_seqs
      → ((m : ℕ) (b : ℕ) (s' : Scheduler)
          → IsSound s'
          → AreWaiting s' rest
          → s'.waiting_ids ≡ rest
          → m ≤ s'.max_num_seqs
          → Returns (IsPrefilled s' rest m) (prefill digest rest m b s'))
      → Returns (IsPrefilled s (id ∷ rest) n) (prefill digest (id ∷ rest) n batched s)
  unfolding prefill
  round-IsPrefilled id rest n batched s q sound waits e here empty h continue =
      elim (Bool-cases (ltb n s.max_num_seqs)) [
        | inr many ↦ (([], s), rw many refl, stop-IsPrefilled s (id ∷ rest) n sound waits e h)
        | inl fewer ↦ elim (Bool-cases (fits s batched q)) [
          | inr too_long ↦ (
            ([], s),
            rw fewer (rw (here, seq_at) (rw too_long refl)),
            stop-IsPrefilled s (id ∷ rest) n sound waits e h,
          )
          | inl fit ↦
              let ((m, q'), r, t) =
                allocate-Tabled digest s.block_manager q (held s.seqs) sound.counts sound.size empty
                  (fits-can_allocate s batched q fit) in
              let ((ids', s'), r', p) =
                continue (n + 1) (batched + (q'.num_tokens - q'.num_cached_tokens))
                  (admitted s id rest q q' m sound waits here empty t)
                  (admitted-IsSound s id rest q q' m sound waits here empty t)
                  (admitted-AreWaiting s id rest q q' m sound waits here empty t) refl
                  (ground arith) in
              (
                (id ∷ ids', s'),
                rw fewer (rw (here, seq_at) (rw fit (rw r (rw r' refl)))),
                next-IsPrefilled s id rest q q' m sound waits here empty t n (ids', s') p,
              )
        ]
      ]

  -- In a sound state whose waiting queue names sequences without blocks, each once, the prefill raises
  -- nothing: it moves a front part of the waiting queue, in its order, to the end of the running one,
  -- at most `max_num_seqs` sequences with those before; the accounts still are those of the tables,
  -- and what is left waits without blocks.
  pub prefill-IsPrefilled :
      (ids : List ℕ) (n batched : ℕ) (s : Scheduler)
      → IsSound s
      → AreWaiting s ids
      → s.waiting_ids ≡ ids
      → n ≤ s.max_num_seqs
      → Returns (IsPrefilled s ids n) (prefill digest ids n batched s)
  unfolding prefill count
  prefill-IsPrefilled [] n batched s sound waits e h =
      (([], s), refl, stop-IsPrefilled s [] n sound waits e h)
  prefill-IsPrefilled (id ∷ rest) n batched s sound waits e h =
      let (q, here, empty) = waits.bare id (ground arith) in
      round-IsPrefilled id rest n batched s q sound waits e here empty h
        (λ m b s'. prefill-IsPrefilled rest m b s')

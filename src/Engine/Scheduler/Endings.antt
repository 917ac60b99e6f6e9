-- ===== src/Engine/Scheduler/Endings.antt =====
-- Sequences that give up their blocks: `preempt`, and a round of `postprocess`.
use nano_qwen3tts_vllm.Common.{
  ℕ, ◌<◌, ◌≤◌, ◌+◌, ◌-◌, ◌++◌, ◌⊎◌, ◌↔◌, ◌≡◌, ◌≢◌, refl, ◌∙◌, ap, inl, inr, true, false, [], ◌∷◌,
  some, arith, if◌then◌else◌, ◌==◌, nat_eq, remove, Bool-cases,
}
use nano_qwen3tts_vllm.Common.Dict.{lookup, insert, lookup-insert, total-insert}
use nano_qwen3tts_vllm.Common.Count.{count, contains-count}
use nano_qwen3tts_vllm.Engine.Effects.{ok, Returns}
use nano_qwen3tts_vllm.Engine.Sequence.{
  Sequence, waiting, finished, append_token, num_completion_tokens,
}
use nano_qwen3tts_vllm.Engine.Blocks.{BlockManager, deallocate}
use nano_qwen3tts_vllm.Engine.Blocks.Allocation.{Counts-ext}
use nano_qwen3tts_vllm.Engine.Blocks.Release.{Released, deallocate-Released}
use nano_qwen3tts_vllm.Engine.Scheduler.{
  Scheduler, seq_at, put_seq, preempt, leave_running, finish_seq, is_done, postprocess_seq,
}
use nano_qwen3tts_vllm.Engine.Scheduler.Prefill.{held, IsSound}

-- The sequence `q` without its blocks.
abbrev pub emptied : Sequence → Sequence
emptied q = record q { num_cached_tokens = 0; block_table = [] }

module _ (s : Scheduler) (id : ℕ) (q q₀ : Sequence) (sound : IsSound s)
    (here : lookup id s.seqs ≡ some q) (same_id : q₀.seq_id ≡ q.seq_id)
    (same_table : q₀.block_table ≡ q.block_table) where
  own_id : q₀.seq_id ≡ id
  own_id = same_id ∙ sound.keyed id q here

  written :
      (q' : Sequence) (j : ℕ)
      → lookup j (insert q₀.seq_id q' s.seqs) ≡ (if j == id then some q' else lookup j s.seqs)
  written q' j = ground (arith, own_id, lookup-insert j q₀.seq_id q' s.seqs)

  emptied-IsSound :
      (m : BlockManager)
      → Released s.block_manager (held (insert q₀.seq_id (emptied q₀) s.seqs)) m
      → IsSound (put_seq s m (emptied q₀))
  emptied-IsSound m done = record {
    counts = done.counts;
    size = done.size ∙ sound.size;
    keyed = λ j q' e. ground (arith, own_id, written (emptied q₀) j, sound.keyed j q');
  }

  pub deallocate-IsSound :
      Returns
        (λ (m, q'). IsSound (put_seq s m q') × (q' ≡ emptied q₀))
        (deallocate s.block_manager q₀)
  unfolding count
  deallocate-IsSound =
      let ((m, q'), r, (done, e)) =
        deallocate-Released s.block_manager q₀ (held (insert q₀.seq_id (emptied q₀) s.seqs)) (
          Counts-ext s.block_manager _ _ sound.counts (λ j. ground (
            arith,
            own_id,
            here,
            same_table,
            total-insert (λ q'. count j q'.block_table) q₀.seq_id (emptied q₀) s.seqs,
          ))) in
      ((m, emptied q₀), r ∙ ap (λ q'. ok (m, q')) e, (emptied-IsSound m done, refl))

  -- A write that leaves the blocks alone.
  pub put_seq-IsSound : IsSound (put_seq s s.block_manager q₀)
  put_seq-IsSound = record {
    counts = Counts-ext s.block_manager _ _ sound.counts (λ j. ground (
      arith,
      own_id,
      here,
      same_table,
      total-insert (λ q'. count j q'.block_table) q₀.seq_id q₀ s.seqs,
    ));
    size = sound.size;
    keyed = λ j q' e. ground (arith, own_id, written q₀ j, sound.keyed j q');
  }

-- A preempted sequence: it waits, without blocks, in front of the others.
pub record IsPreempted (s : Scheduler) (id : ℕ) (q : Sequence) (s' : Scheduler) : Type 0 where
  pub sound : IsSound s'
  pub first : s'.waiting_ids ≡ id ∷ s.waiting_ids
  pub others : s'.running_ids ≡ s.running_ids
  pub now : lookup id s'.seqs ≡ some (emptied (record q { status = waiting }))
  pub kept : (j : ℕ) → j ≢ id → lookup j s'.seqs ≡ lookup j s.seqs

-- In a sound state `preempt` of a sequence raises nothing: it takes all of the sequence's blocks, puts
-- it in front of the waiting queue, keeps its tokens, and leaves a sound state.
pub preempt-IsPreempted :
    (s : Scheduler) (id : ℕ) (q : Sequence)
    → IsSound s
    → lookup id s.seqs ≡ some q
    → Returns (IsPreempted s id q) (preempt id s)
unfolding preempt
preempt-IsPreempted s id q sound here =
    let q₀ : Sequence = record q { status = waiting } in
    let ((m, q'), r, (sound', e)) = deallocate-IsSound s id q q₀ sound here refl refl in
    (
      record (put_seq s m q') { waiting_ids = id ∷ s.waiting_ids },
      rw (here, seq_at) (rw r refl),
      record {
        sound = record { counts = sound'.counts; size = sound'.size; keyed = sound'.keyed };
        first = refl;
        others = refl;
        now = ground (
          arith,
          e,
          ap (λ q₁. q₁.seq_id) e,
          sound.keyed id q here,
          lookup-insert id q'.seq_id q' s.seqs,
        );
        kept = λ j other. ground (
          arith,
          e,
          ap (λ q₁. q₁.seq_id) e,
          sound.keyed id q here,
          lookup-insert j q'.seq_id q' s.seqs,
        );
      },
    )

-- The sequence with the token behind its others.
abbrev pub with_token : Sequence → ℕ → Sequence
with_token q token = record q {
  token_ids = q.token_ids ++ token ∷ [];
  last_token = some token;
  num_tokens = q.num_tokens + 1;
}

-- The token is the end token, which the sequence does not ignore.
abbrev pub IsEnd : Scheduler → Sequence → ℕ → Type 0
IsEnd s q token = (q.ignore_eos ≡ false) × (token ≡ s.eos)

-- The token ends the sequence: it is its end token, or with it the sequence has as many tokens behind its
-- prompt as it may.
abbrev pub IsLast : Scheduler → Sequence → ℕ → Type 0
IsLast s q token = IsEnd s q token ⊎ (q.max_tokens ≤ (q.num_tokens + 1) - q.num_prompt_tokens)

is_done_iff :
    (s : Scheduler) (q : Sequence) (token : ℕ)
    → (is_done s (append_token q token) token ≡ true) ↔ IsLast s q token
unfolding append_token num_completion_tokens
is_done_iff s q token = (λ e. ground arith, λ last. ground arith)

-- The outcomes of a round of `postprocess` for the sequence `q`.
pub data Processes (s : Scheduler) (id : ℕ) (q : Sequence) (token : ℕ) (s' : Scheduler)
    : Type 0 where
  finishes :
      IsLast s q token
      → IsSound s'
      → s'.running_ids ≡ remove id s.running_ids
      → lookup id s'.seqs ≡ some (emptied (record (with_token q token) { status = finished }))
      → Processes s id q token s'
  goes_on :
      ¬ IsLast s q token
      → IsSound s'
      → s'.running_ids ≡ s.running_ids
      → lookup id s'.seqs ≡ some (with_token q token)
      → Processes s id q token s'

leave_running_eq :
    (s : Scheduler) (id : ℕ)
    → 0 < count id s.running_ids
    → leave_running id s ≡ ok (record s { running_ids = remove id s.running_ids })
leave_running_eq s id listed = rw ((contains-count s.running_ids id).1 listed) refl

-- The end of a sequence that may have changed in other fields than its id and table.
pub record IsEnded (s : Scheduler) (id : ℕ) (q : Sequence) (s' : Scheduler) : Type 0 where
  pub sound : IsSound s'
  pub left : s'.running_ids ≡ remove id s.running_ids
  pub waits : s'.waiting_ids ≡ s.waiting_ids
  pub now : lookup id s'.seqs ≡ some (emptied (record q { status = finished }))

pub finish_seq-IsEnded :
    (s : Scheduler) (id : ℕ) (q q₁ : Sequence)
    → IsSound s
    → lookup id s.seqs ≡ some q
    → q₁.seq_id ≡ q.seq_id
    → q₁.block_table ≡ q.block_table
    → 0 < count id s.running_ids
    → Returns (IsEnded s id q₁) (finish_seq s q₁)
finish_seq-IsEnded s id q q₁ sound here same_id same_table listed =
    let q₀ : Sequence = record q₁ { status = finished } in
    let ((m, q'), r, (sound', e)) = deallocate-IsSound s id q q₀ sound here same_id same_table in
    let own : q₁.seq_id ≡ id = same_id ∙ sound.keyed id q here in
    (
      record (put_seq s m q') { running_ids = remove id s.running_ids },
      rw r (rw own (leave_running_eq (put_seq s m q') id listed)),
      record {
        sound = record { counts = sound'.counts; size = sound'.size; keyed = sound'.keyed };
        left = refl;
        waits = refl;
        now = ground (arith, e, own, ap (λ q₂. q₂.seq_id) e, lookup-insert id q'.seq_id q' s.seqs);
      },
    )

-- In a sound state a round of `postprocess` for a running sequence raises nothing and leaves a sound
-- state: with an end token that it does not ignore, or with its last allowed one, the sequence is finished, holds no block and has
-- left the running queue, and otherwise it has one more token.
pub postprocess_seq-Processes :
    (s : Scheduler) (id token : ℕ) (q : Sequence)
    → IsSound s
    → lookup id s.seqs ≡ some q
    → 0 < count id s.running_ids
    → Returns (Processes s id q token) (postprocess_seq id token s)
unfolding postprocess_seq append_token
postprocess_seq-Processes s id token q sound here listed =
    elim (Bool-cases (is_done s (append_token q token) token)) [
      | inr more ↦
          let sound' = put_seq-IsSound s id q (append_token q token) sound here refl refl in
          (
            put_seq s s.block_manager (append_token q token),
            rw (here, seq_at) (rw more refl),
            goes_on (λ last. ground (arith, more, (is_done_iff s q token).1 last)) sound' refl
                (ground (
                  arith,
                  sound.keyed id q here,
                  lookup-insert id q.seq_id (append_token q token) s.seqs,
                )),
          )
      | inl done ↦
          let (s', r, ended) =
            finish_seq-IsEnded s id q (append_token q token) sound here refl refl listed in
          (
            s',
            rw (here, seq_at) (rw done r),
            finishes ((is_done_iff s q token).0 done) ended.sound ended.left ended.now,
          )
    ]

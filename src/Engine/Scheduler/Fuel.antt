-- ===== src/Engine/Scheduler/Fuel.antt =====
-- The loop that makes room for a running sequence ends, and what it leaves.
use mathlib.Core.List.{append_assoc}
use nano_qwen3tts_vllm.Common.{
  ℕ, zero, suc, ◌+◌, ◌≤◌, ◌<◌, ◌≡◌, refl, sym, ap, ◌∙◌, inl, inr, Bool, true, false, List, [], ◌∷◌,
  ◌++◌, none, some, length, arith, Bool-cases, Option-cases, nat_eq,
}
use nano_qwen3tts_vllm.Common.Dict.{lookup}
use nano_qwen3tts_vllm.Common.Count.{count}
use nano_qwen3tts_vllm.Engine.Effects.{Result, Returns, raise, assertion_error}
use nano_qwen3tts_vllm.Engine.Sequence.{Sequence, waiting}
use nano_qwen3tts_vllm.Engine.Blocks.{can_append}
use nano_qwen3tts_vllm.Engine.Scheduler.{Scheduler, seq_at, pop_last, room_step, make_room}
use nano_qwen3tts_vllm.Engine.Scheduler.Prefill.{IsSound}
use nano_qwen3tts_vllm.Engine.Scheduler.Endings.{emptied, IsPreempted, preempt-IsPreempted}

pop_last-empty : (xs : List ℕ) → pop_last xs ≡ none → xs ≡ []
unfolding pop_last
pop_last-empty [] e = refl
pop_last-empty (x ∷ xs) e = elim (Option-cases (pop_last xs)) [
  | inl single ↦ absurd (ground arith)
  | inr ((ys, y), found) ↦ absurd (ground arith)
]

pop_last-append :
    (xs front : List ℕ) (last : ℕ) → pop_last xs ≡ some (front, last) → xs ≡ front ++ last ∷ []
unfolding pop_last
pop_last-append [] front last e = cc
pop_last-append (x ∷ xs) front last e = elim (Option-cases (pop_last xs)) [
  | inl single ↦ ground (arith, pop_last-empty xs single)
  | inr ((ys, y), found) ↦ ground (arith, pop_last-append xs ys y found)
]

-- A sequence of that id is stored.
abbrev pub IsStored : Scheduler → ℕ → Type 0
IsStored s id = (q : Sequence) × (lookup id s.seqs ≡ some q)

-- The outcomes of the loop for the sequence `id`. Where it has room, nothing changes. Otherwise the last
-- running sequences have gone, in their order, to the front of the waiting queue, until there is room;
-- or all of them have, and the sequence itself before them.
pub data Made (s : Scheduler) (id : ℕ) : Bool × Scheduler → Type 0 where
  at_once :
      (q : Sequence)
      → lookup id s.seqs ≡ some q
      → can_append s.block_manager q ≡ true
      → Made s id (true, s)
  made :
      {s' : Scheduler} (gone : List ℕ) (q q' : Sequence)
      → lookup id s.seqs ≡ some q
      → can_append s.block_manager q ≡ false
      → s.running_ids ≡ s'.running_ids ++ gone
      → s'.waiting_ids ≡ gone ++ s.waiting_ids
      → lookup id s'.seqs ≡ some q'
      → can_append s'.block_manager q' ≡ true
      → Made s id (true, s')
  gave_up :
      {s' : Scheduler} (q q' : Sequence)
      → lookup id s.seqs ≡ some q
      → can_append s.block_manager q ≡ false
      → s'.running_ids ≡ []
      → s'.waiting_ids ≡ id ∷ s.running_ids ++ s.waiting_ids
      → lookup id s'.seqs ≡ some q'
      → q'.block_table ≡ []
      → Made s id (false, s')

-- The loop's outcome, and a sound state.
abbrev pub MadeSound : Scheduler → ℕ → Bool × Scheduler → Type 0
MadeSound s id (room, s') = Made s id (room, s') × IsSound s'

-- One more sequence went before the rest of the loop.
Made-before :
    (s s' : Scheduler) (id last : ℕ) (q : Sequence) (r : Bool × Scheduler)
    → lookup id s.seqs ≡ some q
    → can_append s.block_manager q ≡ false
    → s.running_ids ≡ s'.running_ids ++ last ∷ []
    → s'.waiting_ids ≡ last ∷ s.waiting_ids
    → Made s' id r
    → Made s id r
Made-before s s' id last q _ here full run wait (at_once q' here' room) =
    made (last ∷ []) q q' here full run wait here' room
Made-before s s' id last q _ here full run wait
      (made {s' = t} gone q' q'' h f run' wait' here' room) =
    made (gone ++ last ∷ []) q q'' here full
      (run ∙ ap (λ ids. ids ++ last ∷ []) run' ∙ append_assoc t.running_ids gone (last ∷ []))
      (wait' ∙ ap (λ ids. gone ++ ids) wait ∙ sym (append_assoc gone (last ∷ []) s.waiting_ids))
      here' room
Made-before s s' id last q _ here full run wait (gave_up q' q'' h f run' wait' here' bare) =
    gave_up q q'' here full run'
      (wait'
        ∙ ap (λ ids. id ∷ s'.running_ids ++ ids) wait
        ∙ ap (λ ids. id ∷ ids) (sym (append_assoc s'.running_ids (last ∷ []) s.waiting_ids))
        ∙ ap (λ ids. id ∷ ids ++ s.waiting_ids) (sym run))
      here' bare

-- The states before a round of the loop.
record IsBefore (id : ℕ) (s : Scheduler) : Type 0 where
  sound : IsSound s
  own : IsStored s id
  all : (j : ℕ) → 0 < count j s.running_ids → IsStored s j

count_front : (j : ℕ) (front : List ℕ) (last : ℕ) → count j front ≤ count j (front ++ last ∷ [])
unfolding count
count_front j [] last = ground arith
count_front j (x ∷ xs) last = ground (arith, count_front j xs last)

count_last : (front : List ℕ) (last : ℕ) → 0 < count last (front ++ last ∷ [])
unfolding count
count_last [] last = ground arith
count_last (x ∷ xs) last = ground (arith, count_last xs last)

length_last : (front : List ℕ) (last : ℕ) → length (front ++ last ∷ []) ≡ length front + 1
length_last [] last = refl
length_last (x ∷ xs) last = omega (arith, length_last xs last)

IsStored-preempted :
    (s s' : Scheduler) (last j : ℕ) (q : Sequence)
    → IsPreempted s last q s'
    → IsStored s j
    → IsStored s' j
IsStored-preempted s s' last j q gone (q', here) = elim (nat_eq.dec j last) [
  | yes same ↦ (emptied (record q { status = waiting }), rw same gone.now)
  | no other ↦ (q', gone.kept j other ∙ here)
]

module _ (continue : Scheduler → Result (Bool × Scheduler)) (id : ℕ) (s : Scheduler)
    (before : IsBefore id s)
    (rest : (s' : Scheduler)
      → length s'.running_ids + 1 ≡ length s.running_ids
      → IsBefore id s'
      → Returns (MadeSound s' id) (continue s')) where
  room_step-Made : Returns (MadeSound s id) (room_step continue id s)
  room_step-Made =
      let (q, here) = before.own in
      elim (Bool-cases (can_append s.block_manager q)) [
        | inl room ↦
            ((true, s), rw (here, seq_at) (rw room refl), (at_once q here room, before.sound))
        | inr full ↦ elim (Option-cases (pop_last s.running_ids)) [
          | inl nobody ↦
              let (s', r, gone) = preempt-IsPreempted s id q before.sound here in
              let empty : s.running_ids ≡ [] = pop_last-empty s.running_ids nobody in
              (
                (false, s'),
                rw (here, seq_at) (rw full (rw nobody (rw r refl))),
                (
                  gave_up q _ here full (gone.others ∙ empty)
                      (gone.first ∙ ap (λ ids. id ∷ ids ++ s.waiting_ids) (sym empty)) gone.now
                      refl,
                  gone.sound,
                ),
              )
          | inr ((front, last), found) ↦
              let split : s.running_ids ≡ front ++ last ∷ [] =
                pop_last-append s.running_ids front last found in
              let s₀ : Scheduler = record s { running_ids = front } in
              let sound₀ : IsSound s₀ = record {
                counts = before.sound.counts;
                size = before.sound.size;
                keyed = before.sound.keyed;
              } in
              let (q₁, here₁) = before.all last (rw split (count_last front last)) in
              let (s', r, gone) = preempt-IsPreempted s₀ last q₁ sound₀ here₁ in
              let (made', e, (outcome, sound')) =
                rest s'
                  (ap (λ ids. length ids + 1) gone.others
                    ∙ sym (length_last front last)
                    ∙ sym (ap length split))
                  (record {
                    sound = gone.sound;
                    own = IsStored-preempted s₀ s' last id q₁ gone before.own;
                    all = λ j listed. IsStored-preempted s₀ s' last j q₁ gone (
                        before.all j
                          (ground (arith, split, gone.others, count_front j front last)));
                  }) in
              (
                made',
                rw (here, seq_at) (rw full (rw found (rw r e))),
                (
                  Made-before s s' id last q made' here full
                      (split ∙ ap (λ ids. ids ++ last ∷ []) (sym gone.others)) gone.first outcome,
                  sound',
                ),
              )
        ]
      ]

make_room_ind :
    (n id : ℕ) (s : Scheduler)
    → length s.running_ids ≤ n
    → IsBefore id s
    → Returns (MadeSound s id) (make_room n id s)
unfolding make_room
make_room_ind zero id s le before =
    room_step-Made (λ _. raise assertion_error) id s before (λ s' e b. absurd (omega arith))
make_room_ind (suc n) id s le before =
    room_step-Made (make_room n id) id s before (λ s' e b. make_room_ind n id s' (omega arith) b)

-- In a sound state that stores the sequence and all running ones, and with a fuel of at least the length
-- of the running queue, the loop that makes room for the sequence raises nothing and ends in a sound
-- state. Where there is room at once, nothing changes. Otherwise the last of the running sequences have
-- gone to the front of the waiting queue, in their order, until there is room; or all have, and the
-- sequence itself, without blocks, before them.
pub make_room-Made :
    (n id : ℕ) (s : Scheduler)
    → length s.running_ids ≤ n
    → IsSound s
    → IsStored s id
    → ((j : ℕ) → 0 < count j s.running_ids → IsStored s j)
    → Returns (MadeSound s id) (make_room n id s)
make_room-Made n id s le sound own all =
    make_room_ind n id s le (record { sound = sound; own = own; all = all })

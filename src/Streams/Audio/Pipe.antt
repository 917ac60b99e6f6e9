-- ===== src/Streams/Audio/Pipe.antt =====
-- The producer and the consumer of a stream as two tasks with a bounded queue between them, lines
-- 215-309 of nano_qwen3tts_vllm/stream_routes.py.
use nano_qwen3tts_vllm.Common.{
  ℕ, ◌<◌, ◌≡◌, ◌≢◌, refl, Bool, true, false, List, [], ◌∷◌, ◌++◌, map, Option, none, some, length,
  arith,
}

-- `maxsize` of `codes_queue`.
abbrev pub maxsize : ℕ
maxsize = 4

-- The producer runs its loop, was cancelled and has its `None` to put, or has ended.
pub data Producer : Type 0 where
  looping cancelled ended : Producer

-- The consumer takes items, has got the `None`, has left its loop before, or has called
-- `mark_stream_done`.
pub data Consumer : Type 0 where
  taking complete stopped closed : Consumer

abbrev pub has_left : Consumer → Bool
has_left taking = false
has_left complete = true
has_left stopped = true
has_left closed = false

-- `to_put` is what the producer still puts, with the `None` at its end.
pub record Pipe {ℓ} (Item : Type ℓ) : Type ℓ where
  pub to_put : List (Option Item)
  pub queue : List (Option Item)
  pub taken : List Item
  pub producer : Producer
  pub consumer : Consumer

unfoldable pub open_pipe {ℓ} : {Item : Type ℓ} → List Item → Pipe Item
open_pipe items = record {
  to_put = map some items ++ none ∷ [];
  queue = [];
  taken = [];
  producer = looping;
  consumer = taking;
}

-- Who takes a step: the two tasks, or the server.
pub data Actor : Type 0 where
  task server : Actor

-- A step of one of the tasks, or of the server. A put waits for room and a get for an item. The consumer may leave its
-- loop at any time: the stream is cancelled, or the decoder raises. It then cancels the producer, which
-- interrupts a put or the wait for the generator; the producer then puts its `None`, while a cancellation
-- of that last put ends it. The consumer waits for the end of the producer. Where the server cancels the
-- consumer itself while it waits, the producer is cancelled once more, which interrupts the put of its
-- `None`, and the consumer goes on.
pub data PipeStep {ℓ} {Item : Type ℓ} (p : Pipe Item) : Actor → Pipe Item → Type ℓ where
  puts :
      (i : Option Item) (rest : List (Option Item))
      → p.producer ≡ looping
      → p.to_put ≡ i ∷ rest
      → length p.queue < maxsize
      → PipeStep p task (record p { to_put = rest; queue = p.queue ++ i ∷ [] })
  returns : p.producer ≡ looping → p.to_put ≡ [] → PipeStep p task (record p { producer = ended })
  takes :
      (i : Item) (rest : List (Option Item))
      → p.consumer ≡ taking
      → p.queue ≡ some i ∷ rest
      → PipeStep p task (record p { queue = rest; taken = p.taken ++ i ∷ [] })
  takes_none :
      (rest : List (Option Item))
      → p.consumer ≡ taking
      → p.queue ≡ none ∷ rest
      → PipeStep p task (record p { queue = rest; consumer = complete })
  stops : p.consumer ≡ taking → PipeStep p task (record p { consumer = stopped })
  cancels :
      (i : Option Item) (rest : List (Option Item))
      → has_left p.consumer ≡ true
      → p.producer ≡ looping
      → p.to_put ≡ i ∷ rest
      → PipeStep p task (record p { producer = cancelled })
  cancels_last :
      (rest : List (Option Item))
      → has_left p.consumer ≡ true
      → p.producer ≡ looping
      → p.to_put ≡ none ∷ rest
      → PipeStep p task (record p { producer = ended })
  puts_none :
      p.producer ≡ cancelled
      → length p.queue < maxsize
      → PipeStep p task (record p { queue = p.queue ++ none ∷ []; producer = ended })
  closes :
      has_left p.consumer ≡ true
      → p.producer ≡ ended
      → PipeStep p task (record p { consumer = closed })
  interrupts :
      has_left p.consumer ≡ true
      → p.producer ≡ cancelled
      → PipeStep p server (record p { producer = ended })

-- Steps one after the other, with those of the server only where `interruptible`.
pub data PipeReach {ℓ} {Item : Type ℓ} (interruptible : Bool) (p : Pipe Item)
    : Pipe Item → Type ℓ where
  here : PipeReach interruptible p p
  further :
      {q r : Pipe Item}
      → PipeReach interruptible p q
      → PipeStep q task r
      → PipeReach interruptible p r
  served :
      {q r : Pipe Item}
      → interruptible ≡ true
      → PipeReach interruptible p q
      → PipeStep q server r
      → PipeReach interruptible p r

module _ {ℓ} {Item : Type ℓ} where
  -- A full queue that nobody takes from, while the producer has an item to put or was cancelled.
  data Blocks (p : Pipe Item) : Type ℓ where
    blocks_put :
        (i : Item) (rest : List (Option Item))
        → p.consumer ≡ stopped
        → length p.queue ≡ maxsize
        → p.producer ≡ looping
        → p.to_put ≡ some i ∷ rest
        → Blocks p
    blocks_none :
        p.consumer ≡ stopped → length p.queue ≡ maxsize → p.producer ≡ cancelled → Blocks p

  Blocks-Step : (p q : Pipe Item) → Blocks p → PipeStep p task q → Blocks q
  Blocks-Step p _ (blocks_put i rest c full l e) (puts j more l' e' room) = absurd (omega arith)
  Blocks-Step p _ (blocks_put i rest c full l e) (returns l' e') = cc
  Blocks-Step p _ (blocks_put i rest c full l e) (takes j more c' e') = cc
  Blocks-Step p _ (blocks_put i rest c full l e) (takes_none more c' e') = cc
  Blocks-Step p _ (blocks_put i rest c full l e) (stops c') = cc
  Blocks-Step p _ (blocks_put i rest c full l e) (cancels j more c' l' e') = blocks_none c full refl
  Blocks-Step p _ (blocks_put i rest c full l e) (cancels_last more c' l' e') = cc
  Blocks-Step p _ (blocks_put i rest c full l e) (puts_none l' room) = cc
  Blocks-Step p _ (blocks_put i rest c full l e) (closes c' l') = cc
  Blocks-Step p _ (blocks_none c full l) (puts j more l' e' room) = cc
  Blocks-Step p _ (blocks_none c full l) (returns l' e') = cc
  Blocks-Step p _ (blocks_none c full l) (takes j more c' e') = cc
  Blocks-Step p _ (blocks_none c full l) (takes_none more c' e') = cc
  Blocks-Step p _ (blocks_none c full l) (stops c') = cc
  Blocks-Step p _ (blocks_none c full l) (cancels j more c' l' e') = cc
  Blocks-Step p _ (blocks_none c full l) (cancels_last more c' l' e') = cc
  Blocks-Step p _ (blocks_none c full l) (puts_none l' room) = absurd (omega arith)
  Blocks-Step p _ (blocks_none c full l) (closes c' l') = cc

  Blocks-Reach : (p q : Pipe Item) → Blocks p → PipeReach false p q → Blocks q
  Blocks-Reach p _ b here = b
  Blocks-Reach p q b (further {q = m} r step) = Blocks-Step m q (Blocks-Reach p m b r) step
  Blocks-Reach p q b (served e r step) = cc

  Blocks-open : (p : Pipe Item) → Blocks p → p.consumer ≢ closed
  Blocks-open p (blocks_put i rest c full l e) = ground arith
  Blocks-open p (blocks_none c full l) = ground arith

  Blocks-served :
      (p : Pipe Item) → Blocks p → (q : Pipe Item) × PipeReach true p q × (q.consumer ≡ closed)
  Blocks-served p (blocks_none c full l) =
      (_, further (served refl here (interrupts (rw c refl) l)) (closes (rw c refl) refl), refl)
  Blocks-served p (blocks_put i rest c full l e) = (
    _,
    further
        (served refl (further here (cancels (some i) rest (rw c refl) l e))
          (interrupts (rw c refl) refl))
        (closes (rw c refl) refl),
    refl,
  )

  -- Where the consumer has left its loop early while the queue is full and the producer has an item to
  -- put, the steps of the two tasks alone never come to `mark_stream_done`, while from each state that
  -- they reach a cancellation of the consumer by the server leads to it.
  pub stopped_full-open :
      (p q : Pipe Item) (i : Item) (rest : List (Option Item))
      → p.consumer ≡ stopped
      → length p.queue ≡ maxsize
      → p.producer ≡ looping
      → p.to_put ≡ some i ∷ rest
      → PipeReach false p q
      → (q.consumer ≢ closed) × ((r : Pipe Item) × PipeReach true q r × (r.consumer ≡ closed))
  stopped_full-open p q i rest c full l e reach =
      let blocked = Blocks-Reach p q (blocks_put i rest c full l e) reach in
      (Blocks-open q blocked, Blocks-served q blocked)

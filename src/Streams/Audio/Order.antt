-- ===== src/Streams/Audio/Order.antt =====
-- Every interleaving of the producer and the consumer that comes to the `None`.
use nano_qwen3tts_vllm.Common.{
  ◌≡◌, ◌≢◌, refl, sym, ap, ◌∙◌, true, false, List, [], ◌∷◌, ◌++◌, map, Option, none, some, arith,
}
use mathlib.Core.Path.{subst}
use mathlib.Core.List.{append_assoc}
use nano_qwen3tts_vllm.Engine.Effects.{Result}
use nano_qwen3tts_vllm.Streams.Audio.{produce}
use nano_qwen3tts_vllm.Streams.Audio.Decoding.{Windows, produce-Windows_all}
use nano_qwen3tts_vllm.Streams.Audio.Pipe.{
  cancelled, taking, complete, stopped, closed, Pipe, open_pipe, PipeStep, puts, returns, takes,
  takes_none, stops, cancels, cancels_last, puts_none, closes, interrupts, Actor, task, server,
  PipeReach, here, further, served,
}

module _ {ℓ} {Item : Type ℓ} where
  map-append_one :
      (xs : List Item) (i : Item) → map some (xs ++ i ∷ []) ≡ map some xs ++ some i ∷ []
  map-append_one [] i = refl
  map-append_one (x ∷ xs) i = ap (λ ys. some x ∷ ys) (map-append_one xs i)

  -- Two lists of items that stand before a `None` are the same.
  before_none :
      (xs ys : List Item) (rest : List (Option Item))
      → map some xs ++ none ∷ rest ≡ map some ys ++ none ∷ []
      → xs ≡ ys
  before_none [] [] rest e = refl
  before_none [] (y ∷ ys) rest e = cc
  before_none (x ∷ xs) [] rest e = cc
  before_none (x ∷ xs) (y ∷ ys) rest e =
      let rest_same = before_none xs ys rest cc in let same : x ≡ y = cc in cc

  -- All that was taken, that is in the queue, and that is still to be put, in this order.
  abbrev flow : Pipe Item → List (Option Item)
  flow p = map some p.taken ++ (p.queue ++ p.to_put)

  data Ordered (items : List Item) (p : Pipe Item) : Type ℓ where
    flows :
        p.consumer ≡ taking
        → p.producer ≢ cancelled
        → flow p ≡ map some items ++ none ∷ []
        → Ordered items p
    got_all : p.consumer ≡ complete → p.taken ≡ items → Ordered items p
    left_early : p.consumer ≡ stopped → Ordered items p
    is_closed : p.consumer ≡ closed → Ordered items p

  flow-puts :
      (p : Pipe Item) (i : Option Item) (rest : List (Option Item))
      → p.to_put ≡ i ∷ rest
      → map some p.taken ++ ((p.queue ++ i ∷ []) ++ rest) ≡ flow p
  flow-puts p i rest e =
      ap (λ ys. map some p.taken ++ ys)
        (append_assoc p.queue (i ∷ []) rest ∙ ap (λ ys. p.queue ++ ys) (sym e))

  flow-takes :
      (p : Pipe Item) (i : Item) (rest : List (Option Item))
      → p.queue ≡ some i ∷ rest
      → map some (p.taken ++ i ∷ []) ++ (rest ++ p.to_put) ≡ flow p
  flow-takes p i rest e =
      ap (λ ys. ys ++ (rest ++ p.to_put)) (map-append_one p.taken i)
      ∙ append_assoc (map some p.taken) (some i ∷ []) (rest ++ p.to_put)
      ∙ ap (λ ys. map some p.taken ++ (ys ++ p.to_put)) (sym e)

  Ordered-Step :
      (items : List Item) (p q : Pipe Item)
      → Ordered items p
      → (a : Actor) → PipeStep p a q
      → Ordered items q
  Ordered-Step items p _ (flows c live e) _ (puts i rest l e' room) =
      flows c live (flow-puts p i rest e' ∙ e)
  Ordered-Step items p _ (flows c live e) _ (returns l e') = flows c (λ h. cc) e
  Ordered-Step items p _ (flows c live e) _ (takes i rest c' e') =
      flows c live (flow-takes p i rest e' ∙ e)
  Ordered-Step items p _ (flows c live e) _ (takes_none rest c' e') = got_all refl (
      before_none p.taken items (rest ++ p.to_put)
        (ap (λ ys. map some p.taken ++ (ys ++ p.to_put)) (sym e') ∙ e))
  Ordered-Step items p _ (flows c live e) _ (stops c') = left_early refl
  Ordered-Step items p _ (flows c live e) _ (cancels i rest left l e') = ground arith
  Ordered-Step items p _ (flows c live e) _ (cancels_last rest left l e') = ground arith
  Ordered-Step items p _ (flows c live e) _ (puts_none l room) = absurd (live l)
  Ordered-Step items p _ (flows c live e) _ (closes left l) = ground arith
  Ordered-Step items p _ (flows c live e) _ (interrupts left l) = absurd (live l)
  Ordered-Step items p _ (got_all c e) _ (puts i rest l e' room) = got_all c e
  Ordered-Step items p _ (got_all c e) _ (returns l e') = got_all c e
  Ordered-Step items p _ (got_all c e) _ (takes i rest c' e') = cc
  Ordered-Step items p _ (got_all c e) _ (takes_none rest c' e') = cc
  Ordered-Step items p _ (got_all c e) _ (stops c') = cc
  Ordered-Step items p _ (got_all c e) _ (cancels i rest left l e') = got_all c e
  Ordered-Step items p _ (got_all c e) _ (cancels_last rest left l e') = got_all c e
  Ordered-Step items p _ (got_all c e) _ (puts_none l room) = got_all c e
  Ordered-Step items p _ (got_all c e) _ (closes left l) = is_closed refl
  Ordered-Step items p _ (got_all c e) _ (interrupts left l) = got_all c e
  Ordered-Step items p _ (left_early c) _ (puts i rest l e' room) = left_early c
  Ordered-Step items p _ (left_early c) _ (returns l e') = left_early c
  Ordered-Step items p _ (left_early c) _ (takes i rest c' e') = cc
  Ordered-Step items p _ (left_early c) _ (takes_none rest c' e') = cc
  Ordered-Step items p _ (left_early c) _ (stops c') = cc
  Ordered-Step items p _ (left_early c) _ (cancels i rest left l e') = left_early c
  Ordered-Step items p _ (left_early c) _ (cancels_last rest left l e') = left_early c
  Ordered-Step items p _ (left_early c) _ (puts_none l room) = left_early c
  Ordered-Step items p _ (left_early c) _ (closes left l) = is_closed refl
  Ordered-Step items p _ (left_early c) _ (interrupts left l) = left_early c
  Ordered-Step items p _ (is_closed c) _ (puts i rest l e' room) = is_closed c
  Ordered-Step items p _ (is_closed c) _ (returns l e') = is_closed c
  Ordered-Step items p _ (is_closed c) _ (takes i rest c' e') = cc
  Ordered-Step items p _ (is_closed c) _ (takes_none rest c' e') = cc
  Ordered-Step items p _ (is_closed c) _ (stops c') = cc
  Ordered-Step items p _ (is_closed c) _ (cancels i rest left l e') = ground arith
  Ordered-Step items p _ (is_closed c) _ (cancels_last rest left l e') = ground arith
  Ordered-Step items p _ (is_closed c) _ (puts_none l room) = is_closed c
  Ordered-Step items p _ (is_closed c) _ (closes left l) = is_closed refl
  Ordered-Step items p _ (is_closed c) _ (interrupts left l) = is_closed c

  Ordered-Reach :
      (items : List Item) (p q : Pipe Item) → Ordered items p → PipeReach true p q → Ordered items q
  Ordered-Reach items p _ o here = o
  Ordered-Reach items p q o (further {q = m} r step) =
      Ordered-Step items m q (Ordered-Reach items p m o r) task step
  Ordered-Reach items p q o (served {q = m} e r step) =
      Ordered-Step items m q (Ordered-Reach items p m o r) server step

  open_pipe-Ordered : (items : List Item) → Ordered items (open_pipe items)
  unfolding open_pipe
  open_pipe-Ordered items = flows refl (λ h. cc) refl

  taken-complete :
      (items : List Item) (p : Pipe Item)
      → PipeReach true (open_pipe items) p
      → p.consumer ≡ complete
      → p.taken ≡ items
  taken-complete items p r c =
      at_end (Ordered-Reach items (open_pipe items) p (open_pipe-Ordered items) r)
    where
      at_end : Ordered items p → p.taken ≡ items
      at_end (flows c' live e) = cc
      at_end (got_all c' e) = e
      at_end (left_early c') = cc
      at_end (is_closed c') = cc

-- However the steps of the producer, of the consumer and of the server alternate: once the consumer has
-- got the `None` of a generator that ended, the items that it took have all codes in their order, from one
-- to four new ones each. For each item it decodes the last 48 codes, or all of fewer, with the new ones at
-- their end. Where the decoder raises, so does the round; where it gives a fixed positive number of
-- samples for each code, exactly the samples of the new codes are yielded.
pub complete-Windows {ℓ κ} :
    {Code : Type ℓ} {Sample : Type κ} (decode : List Code → Result (List Sample))
    (codes : List Code) (p : Pipe (List Code))
    → PipeReach true (open_pipe (produce false [] codes)) p
    → p.consumer ≡ complete
    → Windows decode codes [] p.taken
complete-Windows decode codes p r c =
    subst (λ items. Windows decode codes [] items)
      (sym (taken-complete (produce false [] codes) p r c)) (produce-Windows_all decode codes)

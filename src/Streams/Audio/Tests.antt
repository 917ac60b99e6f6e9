-- ===== src/Streams/Audio/Tests.antt =====
-- A stream of five codes, with one sample for each.
use nano_qwen3tts_vllm.Common.{
  ℕ, ◌≡◌, ◌≢◌, refl, true, false, List, [], ◌∷◌, ◌++◌, none, some, arith, ℕ_discrete,
}
use nano_qwen3tts_vllm.Engine.Effects.{Result, ok}
use nano_qwen3tts_vllm.Streams.Audio.{produce, decode_item, consume}
use nano_qwen3tts_vllm.Streams.Audio.Decoding.{Windows}
use nano_qwen3tts_vllm.Streams.Audio.Pipe.{
  looping, stopped, closed, complete, cancelled, Pipe, open_pipe, puts, takes, takes_none, cancels,
  PipeReach, here, further, stopped_full-open,
}
use nano_qwen3tts_vllm.Streams.Audio.Order.{complete-Windows}

-- Names everything that a run computes with.
run : Unit {0}
unfolding produce decode_item consume open_pipe ℕ_discrete
run = tt

-- A decoder that gives one sample for each code.
abbrev one_each : List ℕ → Result (List ℕ)
one_each codes = ok codes

abbrev five : List ℕ
five = 1 ∷ 2 ∷ 3 ∷ 4 ∷ 5 ∷ []

two_items : produce false [] five ≡ (1 ∷ 2 ∷ 3 ∷ 4 ∷ []) ∷ five ∷ []
unfolding run
two_items = refl

-- Where the generator raises after five chunks, the fifth is dropped.
fifth_dropped : produce true [] five ≡ (1 ∷ 2 ∷ 3 ∷ 4 ∷ []) ∷ []
unfolding run
fifth_dropped = refl

-- A pipe after the last item, with the `None` in the queue.
abbrev one_item : List (List ℕ)
one_item = (1 ∷ 2 ∷ 3 ∷ 4 ∷ []) ∷ []

abbrev four : List ℕ
four = 1 ∷ 2 ∷ 3 ∷ 4 ∷ []

abbrev all_taken : Pipe (List ℕ)
all_taken = record {
  to_put = [];
  queue = [];
  taken = one_item;
  producer = looping;
  consumer = complete;
}

all_taken-Reach : PipeReach true (open_pipe (produce false [] four)) all_taken
unfolding run
all_taken-Reach =
    further
      (further
        (further (further here (puts (some four) (none ∷ []) refl refl (omega arith)))
          (puts none [] refl refl (omega arith)))
        (takes four (none ∷ []) refl refl))
      (takes_none [] refl refl)

complete-Windows_example : Windows one_each four [] all_taken.taken
complete-Windows_example = complete-Windows one_each four all_taken all_taken-Reach refl

-- Of fifty codes the last 48 are decoded, and the samples of the last two are yielded.
abbrev ten : List ℕ
ten = 1 ∷ 2 ∷ 3 ∷ 4 ∷ 5 ∷ 6 ∷ 7 ∷ 8 ∷ 9 ∷ 10 ∷ []

long_item : decode_item one_each 48 (ten ++ ten ++ ten ++ ten ++ ten) ≡ ok (9 ∷ 10 ∷ [], 50)
unfolding run
long_item = refl

five_consumed : consume one_each 0 (produce false [] five) ≡ ok five
unfolding run
five_consumed = refl

-- Four items fill the queue, and the consumer leaves.
abbrev full : Pipe (List ℕ)
full = record {
  to_put = some four ∷ none ∷ [];
  queue = some four ∷ some four ∷ some four ∷ some four ∷ [];
  taken = [];
  producer = looping;
  consumer = stopped;
}

stopped_full-open_example :
    ((record full { producer = cancelled }).consumer ≢ closed)
    × ((r : Pipe (List ℕ)) × PipeReach true (record full { producer = cancelled }) r
        × (r.consumer ≡ closed))
stopped_full-open_example =
    stopped_full-open full (record full { producer = cancelled }) four (none ∷ []) refl refl refl
      refl (further here (cancels (some four) (none ∷ []) refl refl refl))

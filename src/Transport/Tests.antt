-- ===== src/Transport/Tests.antt =====
-- Outputs of two requests, of which one has a queue.
use nano_qwen3tts_vllm.Common.{
  ℕ, ◌≡◌, refl, String, List, [], ◌∷◌, map, some, none, Option, string_eq, ℕ_discrete,
}
use nano_qwen3tts_vllm.Common.Dict.{Dict, lookup, insert}
use nano_qwen3tts_vllm.Models.{starts_with}
use nano_qwen3tts_vllm.Engine.Effects.{Result, ok}
use nano_qwen3tts_vllm.Transport.Payload.{Array, Value}
use nano_qwen3tts_vllm.Transport.{
  Delivered, topic_for, publish_token, publish_done, split_topic, recv_thread, run_dispatch_loop,
}
use nano_qwen3tts_vllm.Transport.Delivery.{
  talker, predictor, Published, token, done, published, received, content_of, contents_for, grown,
  dispatch-published,
}

-- Names everything that a run computes with.
run : Unit {0}
unfolding lookup insert string_eq ℕ_discrete starts_with topic_for publish_token publish_done
    split_topic recv_thread run_dispatch_loop contents_for
run = tt

-- Dictionaries as they are, with msgpack's two functions doing nothing.
abbrev packb : Dict String Value → Dict String Value
packb obj = obj

abbrev unpackb : Dict String Value → Result (Dict String Value)
unpackb obj = ok obj

abbrev array : Array
array = record { contents = "0123"; shape = 1 ∷ []; dtype = "float32" }

abbrev outputs : List (Published (List ℕ × Option Array))
outputs =
    token talker "a/1" (5 ∷ [], some array)
    ∷ token predictor "b" (6 ∷ [], none)
    ∷ token predictor "a/1" (7 ∷ [], none)
    ∷ done talker "a/1"
    ∷ []

abbrev one_queue : Dict String (List (Delivered (Dict String Value)))
one_queue = ("a/1", []) ∷ []

dispatch-published_example :
    lookup "a/1"
      (run_dispatch_loop (map some (received unpackb (map (published packb []) outputs))) one_queue)
    ≡ grown (contents_for "a/1" (map content_of outputs)) (lookup "a/1" one_queue)
dispatch-published_example =
    dispatch-published packb unpackb [] (λ obj. refl) "a/1" outputs one_queue

first_part_is_the_engine : split_topic "talker/a/1" ≡ ("talker", "a/1")
unfolding run
first_part_is_the_engine = refl

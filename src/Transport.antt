-- ===== src/Transport.antt =====
-- The outputs' way to the requests, nano_qwen3tts_vllm/zmq: the messages that output_bridge.py publishes,
-- and what dispatcher.py makes of them. The functions for the payload of a token are those of Transport/Payload.
-- Messages that ZeroMQ drops are not modelled, and a request's queue has no bound.
pub mod Payload
pub mod Delivery
mod Tests
use Prim.Native.Char.{code}
use Prim.Native.String.{◌++◌ as append}
use nano_qwen3tts_vllm.Common.{
  ℕ, String, Bool, true, false, ◌||◌, List, [], ◌∷◌, ◌++◌, Option, none, some, if◌then◌else◌, ◌==◌,
  nat_eq, string_eq,
}
use nano_qwen3tts_vllm.Common.Dict.{Dict, lookup, insert}
use nano_qwen3tts_vllm.Engine.Effects.{Result, ok, raise, ◌>>=◌}
use nano_qwen3tts_vllm.Models.{starts_with}

-- The three parts of a message.
pub record Message {ℓ} (Bytes : Type ℓ) : Type ℓ where
  pub topic : String
  pub msg_type : String
  pub payload : Bytes

unfoldable pub topic_for : String → String → String
topic_for engine_type request_id = append engine_type (append "/" request_id)

module _ {ℓ κ} {Payload : Type ℓ} {Bytes : Type κ} (serialize : Payload → Bytes) where
  unfoldable pub publish_token : String → String → Payload → Message Bytes
  publish_token engine_type request_id token = record {
    topic = topic_for engine_type request_id;
    msg_type = "token";
    payload = serialize token;
  }

-- `publish_done`, with the payload that it is given.
unfoldable pub publish_done {κ} : {Bytes : Type κ} → Bytes → String → String → Message Bytes
publish_done payload engine_type request_id = record {
  topic = topic_for engine_type request_id;
  msg_type = "done";
  payload = payload;
}

-- The two subscriptions, which ZeroMQ takes as prefixes.
abbrev pub is_subscribed : String → Bool
is_subscribed topic = starts_with "talker/" topic || starts_with "predictor/" topic

-- `topic.split("/", 1)`: the engine and the request, which is empty where there is no `/`.
unfoldable pub split_topic : String → String × String
split_topic String.[] = (String.[], String.[])
split_topic (String.◌∷◌ c s) =
    let (engine_type, request_id) = split_topic s in
    if code c == 47 then (String.[], s) else (String.◌∷◌ c engine_type, request_id)

-- What a request's queue gets; the dictionary of a message that is no token is empty.
pub record Delivered {ℓ} (Payload : Type ℓ) : Type ℓ where
  pub engine_type : String
  pub msg_type : String
  pub payload_dict : Option Payload

-- The dictionary of a message: empty where it is no token, and read from the payload of a token.
abbrev pub dict_of {ℓ} : {Payload : Type ℓ} → Bool → Result Payload → Result (Option Payload)
dict_of true payload = do p ← payload; ok (some p)
dict_of false payload = ok none

module _ {ℓ κ} {Payload : Type ℓ} {Bytes : Type κ} (deserialize : Bytes → Result Payload) where
  -- Lines 42-52.
  abbrev pub inbox_item : Message Bytes → Result (String × Delivered Payload)
  inbox_item m = do
    payload_dict ← dict_of (m.msg_type == "token") (deserialize m.payload)
    let (engine_type, request_id) = split_topic m.topic
    ok (
      request_id,
      record { engine_type = engine_type; msg_type = m.msg_type; payload_dict = payload_dict },
    )

  -- Where reading a message raises, the thread ends.
  abbrev pub put_item :
      Result (String × Delivered Payload)
      → List (String × Delivered Payload)
      → List (String × Delivered Payload)
  put_item (ok item) rest = item ∷ rest
  put_item (raise e) rest = []

  -- The loop of `_recv_thread`.
  unfoldable pub recv_thread : List (Message Bytes) → List (String × Delivered Payload)
  recv_thread [] = []
  recv_thread (m ∷ messages) =
      let rest = recv_thread messages in
      if is_subscribed m.topic then put_item (inbox_item m) rest else rest

-- Lines 73-79.
abbrev pub put_nowait {ℓ} :
    {Payload : Type ℓ}
    → String
    → Delivered Payload
    → Dict String (List (Delivered Payload))
    → Option (List (Delivered Payload))
    → Dict String (List (Delivered Payload))
put_nowait request_id d request_queues none = request_queues
put_nowait request_id d request_queues (some q) = insert request_id (q ++ d ∷ []) request_queues

-- `run_dispatch_loop`, over what the inbox holds: it ends at a `None`.
unfoldable pub run_dispatch_loop {ℓ} :
    {Payload : Type ℓ}
    → List (Option (String × Delivered Payload))
    → Dict String (List (Delivered Payload))
    → Dict String (List (Delivered Payload))
run_dispatch_loop [] request_queues = request_queues
run_dispatch_loop (none ∷ items) request_queues = request_queues
run_dispatch_loop (some (request_id, d) ∷ items) request_queues =
    run_dispatch_loop items
      (put_nowait request_id d request_queues (lookup request_id request_queues))

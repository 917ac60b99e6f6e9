-- ===== src/Transport/Delivery.antt =====
-- What is published for a request arrives in its queue.
use Prim.Native.Char.{Char, code}
use Prim.Native.String.{◌++◌ as append}
use Prim.Native.String.append.{nil, cons}
use nano_qwen3tts_vllm.Common.{
  ℕ, ◌≡◌, refl, sym, ap, ◌∙◌, ◌||◌, inl, inr, String, Bool, true, false, List, [], ◌∷◌, ◌++◌, map,
  Option, none, some, if◌then◌else◌, ◌==◌, nat_eq, string_eq, Bool-cases, arith, ℕ_discrete,
}
use mathlib.Core.List.{append-nil, append_assoc}
use text.Mathlib.TextLemmas.{append_assoc as text_append_assoc}
use nano_qwen3tts_vllm.Common.Dict.{Dict, lookup, lookup-insert}
use nano_qwen3tts_vllm.Models.{starts_with}
use nano_qwen3tts_vllm.Engine.Effects.{Result, ok}
use nano_qwen3tts_vllm.Transport.Payload.{
  Array, Value, token_dict, serialize_token_payload, deserialize_token_payload,
  deserialize-serialize,
}
use nano_qwen3tts_vllm.Transport.{
  Message, topic_for, publish_token, publish_done, is_subscribed, split_topic, Delivered,
  inbox_item, recv_thread, put_nowait, run_dispatch_loop,
}

-- The engines of the source.
pub data Engine : Type 0 where
  talker predictor : Engine

abbrev pub name_of : Engine → String
name_of talker = "talker"
name_of predictor = "predictor"

-- A text before another one, and its characters.
append_cons : (c : Char) (s t : String) → append (String.◌∷◌ c s) t ≡ String.◌∷◌ c (append s t)
append_cons c s t = cons c s t

-- A text without `/`.
has_no_slash : String → Bool
has_no_slash String.[] = true
has_no_slash (String.◌∷◌ c s) = if code c == 47 then false else has_no_slash s

split_append :
    (s t : String) → has_no_slash s ≡ true → split_topic (append s (append "/" t)) ≡ (s, t)
unfolding split_topic has_no_slash ℕ_discrete
split_append String.[] t h = rw (nil (append "/" t)) (rw (cons "/" String.[] t) (rw (nil t) refl))
split_append (String.◌∷◌ c s) t h = elim (Bool-cases (code c == 47)) [
  | inl slash ↦ absurd (ground arith)
  | inr other ↦ rw (cons c s (append "/" t)) (rw (split_append s t (ground arith)) (rw other refl))
]

starts_append : (s t : String) → starts_with s (append s t) ≡ true
unfolding starts_with ℕ_discrete
starts_append String.[] t = refl
starts_append (String.◌∷◌ c s) t = rw (cons c s t) (ground (arith, starts_append s t))

split_topic_for :
    (e : Engine) (request_id : String)
    → split_topic (topic_for (name_of e) request_id) ≡ (name_of e, request_id)
unfolding topic_for has_no_slash ℕ_discrete
split_topic_for talker request_id = split_append "talker" request_id refl
split_topic_for predictor request_id = split_append "predictor" request_id refl

subscribed_for :
    (e : Engine) (request_id : String) → is_subscribed (topic_for (name_of e) request_id) ≡ true
unfolding topic_for
subscribed_for talker request_id =
    rw (sym (text_append_assoc "talker" "/" request_id))
      (rw (starts_append "talker/" request_id) refl)
subscribed_for predictor request_id = rw (sym (text_append_assoc "predictor" "/" request_id)) (
    rw (starts_append "predictor/" request_id)
      (or_true (starts_with "talker/" (append "predictor/" request_id))))
  where
    or_true : (b : Bool) → (b || true) ≡ true
    or_true true = refl
    or_true false = refl

-- What the engines publish.
pub data Published {ℓ} (Payload : Type ℓ) : Type ℓ where
  token : Engine → String → Payload → Published Payload
  done : Engine → String → Published Payload

module _ {ℓ κ} {Payload : Type ℓ} {Bytes : Type κ} (serialize : Payload → Bytes)
    (empty : Bytes) where
  abbrev pub message_of : Published Payload → Message Bytes
  message_of (token e request_id payload) = publish_token serialize (name_of e) request_id payload
  message_of (done e request_id) = publish_done empty (name_of e) request_id

abbrev pub content_of : Published (List ℕ × Option Array) → String × Delivered (Dict String Value)
content_of (token e request_id payload) = (
  request_id,
  record { engine_type = name_of e; msg_type = "token"; payload_dict = some (token_dict payload) },
)
content_of (done e request_id) =
    (request_id, record { engine_type = name_of e; msg_type = "done"; payload_dict = none })

-- The contents of what was published for a request, in their order.
unfoldable pub contents_for {ℓ} :
    {Payload : Type ℓ} → String → List (String × Delivered Payload) → List (Delivered Payload)
contents_for r [] = []
contents_for r ((request_id, d) ∷ rest) =
    let more = contents_for r rest in if r == request_id then d ∷ more else more

-- A queue with more at its end, where there is one.
abbrev pub grown {ℓ} : {A : Type ℓ} → List A → Option (List A) → Option (List A)
grown ds none = none
grown ds (some q) = some (q ++ ds)

module _ {ℓ} {Payload : Type ℓ} where
  put_nowait-lookup :
      (r request_id : String) (d : Delivered Payload)
      (queues : Dict String (List (Delivered Payload)))
      → lookup r (put_nowait request_id d queues (lookup request_id queues))
        ≡ (if r == request_id then grown (d ∷ []) (lookup r queues) else lookup r queues)
  put_nowait-lookup r request_id d queues = go (lookup request_id queues) refl
    where
      go :
          (o : Option (List (Delivered Payload)))
          → lookup request_id queues ≡ o
          → lookup r (put_nowait request_id d queues o)
            ≡ (if r == request_id then grown (d ∷ []) (lookup r queues) else lookup r queues)
      go none e = elim (string_eq.dec r request_id) [
        | yes same ↦ ground (arith, e, same)
        | no other ↦ ground (arith, other)
      ]
      go (some q) e = elim (string_eq.dec r request_id) [
        | yes same ↦ ground (arith, e, same, lookup-insert r request_id (q ++ d ∷ []) queues)
        | no other ↦ ground (arith, other, lookup-insert r request_id (q ++ d ∷ []) queues)
      ]

  grown_twice :
      (ds es : List (Delivered Payload)) (o : Option (List (Delivered Payload)))
      → grown es (grown ds o) ≡ grown (ds ++ es) o
  grown_twice ds es none = refl
  grown_twice ds es (some q) = ap some (append_assoc q ds es)

  dispatch-lookup :
      (r : String) (items : List (String × Delivered Payload))
      (queues : Dict String (List (Delivered Payload)))
      → lookup r (run_dispatch_loop (map some items) queues)
        ≡ grown (contents_for r items) (lookup r queues)
  unfolding run_dispatch_loop contents_for
  dispatch-lookup r [] queues = sym (grown_nil (lookup r queues))
    where
      grown_nil : (o : Option (List (Delivered Payload))) → grown [] o ≡ o
      grown_nil none = refl
      grown_nil (some q) = ap some (append-nil q)
  dispatch-lookup r ((request_id, d) ∷ items) queues =
      dispatch-lookup r items (put_nowait request_id d queues (lookup request_id queues))
      ∙ ap (λ o. grown (contents_for r items) o) (put_nowait-lookup r request_id d queues)
      ∙ merged (r == request_id)
    where
      merged :
          (b : Bool)
          → grown
              (contents_for r items)
              (if b then grown (d ∷ []) (lookup r queues) else lookup r queues)
            ≡ grown (if b then d ∷ contents_for r items else contents_for r items) (lookup r queues)
      merged true = grown_twice (d ∷ []) (contents_for r items) (lookup r queues)
      merged false = refl

-- An output as it is published, and messages as they are read.
abbrev pub published {κ} :
    {Bytes : Type κ}
    → (Dict String Value → Bytes)
    → Bytes
    → Published (List ℕ × Option Array)
    → Message Bytes
published packb empty p = message_of (serialize_token_payload packb) empty p

abbrev pub received {κ} :
    {Bytes : Type κ}
    → (Bytes → Result (Dict String Value))
    → List (Message Bytes)
    → List (String × Delivered (Dict String Value))
received unpackb messages = recv_thread (deserialize_token_payload unpackb) messages

module _ {κ} {Bytes : Type κ} (packb : Dict String Value → Bytes)
    (unpackb : Bytes → Result (Dict String Value)) (empty : Bytes)
    (law : (obj : Dict String Value) → unpackb (packb obj) ≡ ok obj) where
  inbox_item-message :
      (p : Published (List ℕ × Option Array))
      → inbox_item (deserialize_token_payload unpackb) (published packb empty p) ≡ ok (content_of p)
  unfolding publish_token publish_done string_eq
  inbox_item-message (token e request_id payload) =
      rw (deserialize-serialize packb unpackb law payload) (rw (split_topic_for e request_id) refl)
  inbox_item-message (done e request_id) = rw (split_topic_for e request_id) refl

  is_subscribed-message :
      (p : Published (List ℕ × Option Array)) → is_subscribed (published packb empty p).topic ≡ true
  unfolding publish_token publish_done
  is_subscribed-message (token e request_id payload) = subscribed_for e request_id
  is_subscribed-message (done e request_id) = subscribed_for e request_id

  recv_thread-messages :
      (outputs : List (Published (List ℕ × Option Array)))
      → received unpackb (map (published packb empty) outputs) ≡ map content_of outputs
  unfolding recv_thread
  recv_thread-messages [] = refl
  recv_thread-messages (p ∷ outputs) =
      rw (is_subscribed-message p) (
        rw (inbox_item-message p) (ap (λ rest. content_of p ∷ rest) (recv_thread-messages outputs)))

  -- Where `unpackb` undoes `packb`: when the outputs of the engines, of all requests and in any order,
  -- have been published, received and dispatched, then the queue of a request that has one got exactly
  -- the outputs for that request, in their order, and a request without a queue got none.
  pub dispatch-published :
      (r : String) (outputs : List (Published (List ℕ × Option Array)))
      (queues : Dict String (List (Delivered (Dict String Value))))
      → lookup r (
          run_dispatch_loop
            (map some (received unpackb (map (published packb empty) outputs)))
            queues)
        ≡ grown (contents_for r (map content_of outputs)) (lookup r queues)
  dispatch-published r outputs queues =
      rw (recv_thread-messages outputs) (dispatch-lookup r (map content_of outputs) queues)

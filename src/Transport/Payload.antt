-- ===== src/Transport/Payload.antt =====
-- The payload of a token, nano_qwen3tts_vllm/zmq/output_bridge.py lines 38-62. Parameters are `packb` and
-- `unpackb`, of msgpack. An array is taken to be what `tobytes`, `shape` and `dtype` say of it, and
-- `frombuffer` and `reshape` to make it again from them.
use nano_qwen3tts_vllm.Common.{
  ℕ, ◌≡◌, refl, String, List, [], ◌∷◌, Option, none, some, string_eq, ℕ_discrete,
}
use nano_qwen3tts_vllm.Common.Dict.{Dict, lookup, insert, erase}
use nano_qwen3tts_vllm.Engine.Effects.{Result, ok, raise, key_error, value_error, ◌>>=◌}

pub record Array : Type 0 where
  pub contents : String
  pub shape : List ℕ
  pub dtype : String

-- The values of the dictionaries.
pub data Value : Type 0 where
  token_list : List ℕ → Value
  raw_bytes : String → Value
  shape_list : List ℕ → Value
  dtype_name : String → Value
  hidden_array : Array → Value

abbrev pub token_obj : List ℕ → Option Array → Dict String Value
token_obj token_ids none = ("token_ids", token_list token_ids) ∷ []
token_obj token_ids (some arr) = insert "hidden_states_dtype" (dtype_name arr.dtype) (
    insert "hidden_states_shape" (shape_list arr.shape)
      (insert "hidden_states" (raw_bytes arr.contents) (("token_ids", token_list token_ids) ∷ [])))

unfoldable pub serialize_token_payload {κ} :
    {Bytes : Type κ} → (Dict String Value → Bytes) → List ℕ × Option Array → Bytes
serialize_token_payload packb (token_ids, hidden_states) = packb (token_obj token_ids hidden_states)

abbrev pub array_of : Option Value → Option Value → Value → Result Array
array_of (some (raw_bytes contents)) (some (dtype_name dtype)) (shape_list shape) =
    ok (record { contents = contents; shape = shape; dtype = dtype })
array_of none dtype shape = raise key_error
array_of contents none shape = raise key_error
array_of _ _ _ = raise value_error

abbrev pub restore_array : Dict String Value → Option Value → Result (Dict String Value)
restore_array obj none = ok obj
restore_array obj (some shape) = do
  arr ← array_of (lookup "hidden_states" obj) (lookup "hidden_states_dtype" obj) shape
  ok (
      erase "hidden_states_dtype"
        (erase "hidden_states_shape" (insert "hidden_states" (hidden_array arr) obj)))

unfoldable pub deserialize_token_payload {κ} :
    {Bytes : Type κ} → (Bytes → Result (Dict String Value)) → Bytes → Result (Dict String Value)
deserialize_token_payload unpackb payload = do
  obj ← unpackb payload
  restore_array obj (lookup "hidden_states_shape" obj)

-- What arrives for a token.
abbrev pub token_dict : List ℕ × Option Array → Dict String Value
token_dict (token_ids, none) = ("token_ids", token_list token_ids) ∷ []
token_dict (token_ids, some arr) =
    ("token_ids", token_list token_ids) ∷ ("hidden_states", hidden_array arr) ∷ []

pub deserialize-serialize {κ} :
    {Bytes : Type κ} (packb : Dict String Value → Bytes)
    (unpackb : Bytes → Result (Dict String Value))
    → ((obj : Dict String Value) → unpackb (packb obj) ≡ ok obj)
    → (token : List ℕ × Option Array)
    → deserialize_token_payload unpackb (serialize_token_payload packb token)
      ≡ ok (token_dict token)
unfolding serialize_token_payload deserialize_token_payload insert lookup erase string_eq ℕ_discrete
deserialize-serialize packb unpackb law (token_ids, none) = rw (law (token_obj token_ids none)) refl
deserialize-serialize packb unpackb law (token_ids, some arr) =
    rw (law (token_obj token_ids (some arr))) refl

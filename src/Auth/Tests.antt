-- ===== src/Auth/Tests.antt =====
-- Requests with and without a key.
use nano_qwen3tts_vllm.Common.{
  ◌≡◌, refl, String, Bool, true, List, [], ◌∷◌, none, is_space, lstrip, rstrip, strip, ◌==◌,
  if◌then◌else◌, ◌&&◌, string_eq, ℕ_discrete,
}
use nano_qwen3tts_vllm.Engine.Effects.{Result, ok, raise, type_error}
use nano_qwen3tts_vllm.Models.{split_commas, starts_with}
use nano_qwen3tts_vllm.Auth.{
  keys_of, split_keys, get_allowed_api_keys, skip, token_of, first_token, extract_api_token,
  starts_with_any, is_public_path, any_equal, is_authorized_token, Request,
  reject_unauthorized_request,
}
use nano_qwen3tts_vllm.Auth.Decision.{is_ascii, Decides, reject-Decides}

-- Names everything that a run computes with.
run : Unit {0}
unfolding is_space lstrip rstrip strip string_eq ℕ_discrete split_commas starts_with keys_of
    split_keys get_allowed_api_keys skip token_of first_token extract_api_token starts_with_any
    is_public_path any_equal is_authorized_token reject_unauthorized_request is_ascii
run = tt

abbrev same_text : String → String
same_text s = s

abbrev same : String → String → Result Bool
same a b = if is_ascii a && is_ascii b then ok (a == b) else raise type_error

abbrev with_key : Request
with_key = record {
  path = "/api/voices";
  authorization = "bearer k2";
  x_api_key = "";
  query_api_key = "";
}

abbrev two_keys : List String
two_keys = "k1" ∷ "k2" ∷ []

keys_read : get_allowed_api_keys "" "k1, k2,, " ≡ two_keys
unfolding run
keys_read = refl

key_passes : reject_unauthorized_request same_text same two_keys with_key ≡ ok none
unfolding run
key_passes = refl

health_passes : is_public_path "/health/ready" ≡ true
unfolding run
health_passes = refl

-- A token that is not ASCII is answered by an error, not by a refusal.
umlaut_raises :
    reject_unauthorized_request same_text same two_keys (record with_key { authorization = "kü" })
    ≡ raise type_error
unfolding run
umlaut_raises = refl

reject-Decides_example :
    Decides same_text two_keys with_key
      (reject_unauthorized_request same_text same two_keys with_key)
reject-Decides_example = reject-Decides same_text same two_keys with_key (λ a b. refl)

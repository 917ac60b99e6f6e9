-- ===== src/Auth.antt =====
-- nano_qwen3tts_vllm/auth.py. Parameters are `lower`, for `str.lower`, and `compare_digest`, for
-- `hmac.compare_digest`.
pub mod Decision
mod Tests
use Prim.Native.String.{◌++◌ as append}
use nano_qwen3tts_vllm.Common.{
  ℕ, zero, suc, ◌+◌, String, Bool, true, false, not, ◌||◌, List, [], ◌∷◌, Option, none, some,
  is_empty, strip, if◌then◌else◌, ◌==◌, string_eq, contains,
}
use nano_qwen3tts_vllm.Engine.Effects.{Result, ok, raise, ◌>>=◌}
use nano_qwen3tts_vllm.Models.{split_commas, starts_with}

abbrev pub public_paths : List String
public_paths = "/" ∷ "/docs" ∷ "/redoc" ∷ "/openapi.json" ∷ "/favicon.ico" ∷ []

abbrev pub public_prefixes : List String
public_prefixes = "/health" ∷ []

-- The parts that are not blank, stripped. The set's order is not used.
unfoldable pub keys_of : List String → List String
keys_of [] = []
keys_of (part ∷ parts) =
    let rest = keys_of parts in if is_empty (strip part) then rest else strip part ∷ rest

-- `_split_keys`
unfoldable pub split_keys : String → List String
split_keys raw = let (first, rest) = split_commas raw in keys_of (first ∷ rest)

abbrev pub or_keys : List String → List String → List String
or_keys [] other = other
or_keys (key ∷ keys) other = key ∷ keys

-- `get_allowed_api_keys`, for the values of API_KEYS and API_KEY; a missing one is empty.
unfoldable pub get_allowed_api_keys : String → String → List String
get_allowed_api_keys api_keys api_key = or_keys (split_keys api_keys) (split_keys api_key)

-- `text[n:]`
unfoldable pub skip : ℕ → String → String
skip zero s = s
skip (suc n) String.[] = String.[]
skip (suc n) (String.◌∷◌ c s) = skip n s

-- Lines 38-46: the token of one source; a missing one is empty.
unfoldable pub token_of : (String → String) → String → String
token_of lower raw =
    let candidate = strip raw in
    if starts_with "bearer " (lower candidate) then strip (skip 7 candidate) else candidate

-- The loop over the sources.
unfoldable pub first_token : (String → String) → List String → Option String
first_token lower [] = none
first_token lower (raw ∷ rest) =
    if is_empty (token_of lower raw) then first_token lower rest else some (token_of lower raw)

unfoldable pub extract_api_token : (String → String) → String → String → String → Option String
extract_api_token lower authorization x_api_key query_api_key =
    first_token lower (authorization ∷ x_api_key ∷ query_api_key ∷ [])

unfoldable pub starts_with_any : List String → String → Bool
starts_with_any [] text = false
starts_with_any (prefix ∷ prefixes) text = starts_with prefix text || starts_with_any prefixes text

abbrev pub or_root : String → String
or_root path = if is_empty path then "/" else path

unfoldable pub is_public_path : String → Bool
is_public_path path =
    contains public_paths (or_root (strip path))
    || starts_with_any public_prefixes (or_root (strip path))

-- `any` over the keys, which ends at the first that is equal, or where `compare_digest` raises.
abbrev pub or_later : Result Bool → Result Bool → Result Bool
or_later (ok true) rest = ok true
or_later (ok false) rest = rest
or_later (raise e) rest = raise e

unfoldable pub any_equal : (String → String → Result Bool) → String → List String → Result Bool
any_equal compare_digest token [] = ok false
any_equal compare_digest token (allowed ∷ keys) =
    or_later (compare_digest token allowed) (any_equal compare_digest token keys)

unfoldable pub is_authorized_token :
    (String → String → Result Bool) → Option String → List String → Result Bool
is_authorized_token compare_digest none keys = ok false
is_authorized_token compare_digest (some token) keys =
    if is_empty token then ok false else any_equal compare_digest token keys

-- A request, by its path and the three places of a token.
pub record Request : Type 0 where
  pub path : String
  pub authorization : String
  pub x_api_key : String
  pub query_api_key : String

abbrev pub no_keys : List String → Bool
no_keys [] = true
no_keys (_ ∷ _) = false

abbrev pub token_in : (String → String) → Request → Option String
token_in lower r = extract_api_token lower r.authorization r.x_api_key r.query_api_key

abbrev pub reject_unless : Bool → Option ℕ
reject_unless true = none
reject_unless false = some 401

-- `reject_unauthorized_request`: the status of the response, or none to let the request pass.
unfoldable pub reject_unauthorized_request :
    (String → String) → (String → String → Result Bool) → List String → Request → Result (Option ℕ)
reject_unauthorized_request lower compare_digest keys r =
    if is_public_path r.path
    then ok none
    else (if no_keys keys
        then ok none
        else (is_authorized_token compare_digest (token_in lower r) keys >>= λ known.
            ok (reject_unless known)))

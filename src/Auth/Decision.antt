-- ===== src/Auth/Decision.antt =====
-- Which requests pass.
use Prim.Native.Char.{code}
use nano_qwen3tts_vllm.Common.{
  ℕ, ◌≡◌, ◌≢◌, refl, inl, inr, String, Bool, true, false, ◌&&◌, List, [], ◌∷◌, Option, none, some,
  is_empty, ltb, if◌then◌else◌, ◌==◌, string_eq, contains, Bool-cases, arith,
}
use nano_qwen3tts_vllm.Engine.Effects.{Result, ok, raise, type_error, ◌>>=◌}
use nano_qwen3tts_vllm.Auth.{
  first_token, token_of, extract_api_token, is_public_path, any_equal, is_authorized_token, Request,
  token_in, no_keys, or_later, reject_unless, reject_unauthorized_request,
}

unfoldable pub is_ascii : String → Bool
is_ascii String.[] = true
is_ascii (String.◌∷◌ c s) = ltb (code c) 128 && is_ascii s

unfoldable pub all_ascii : List String → Bool
all_ascii [] = true
all_ascii (key ∷ keys) = is_ascii key && all_ascii keys

-- `hmac.compare_digest` of two texts: it raises a TypeError where one of them is not ASCII, and otherwise
-- tells whether they are equal.
abbrev pub Compares : (String → String → Result Bool) → Type 0
Compares compare_digest =
    (a b : String)
    → compare_digest a b ≡ (if is_ascii a && is_ascii b then ok (a == b) else raise type_error)

-- What comes of a token's comparison with the keys.
data Compared (token : String) (keys : List String) : Result Bool → Type 0 where
  found : contains keys token ≡ true → Compared token keys (ok true)
  missing : is_ascii token ≡ true → contains keys token ≡ false → Compared token keys (ok false)
  not_compared : (is_ascii token && all_ascii keys) ≡ false → Compared token keys (raise type_error)

later-Compared :
    (token key : String) (keys : List String) (r : Result Bool)
    → token == key ≡ false
    → (is_ascii token && is_ascii key) ≡ true
    → Compared token keys r
    → Compared token (key ∷ keys) r
unfolding all_ascii
later-Compared token key keys _ differs plain (found h) = found (ground arith)
later-Compared token key keys _ differs plain (missing a h) = missing a (ground arith)
later-Compared token key keys _ differs plain (not_compared h) = not_compared (ground arith)

-- The comparison with the first key, before the others.
first-Compared :
    (compare_digest : String → String → Result Bool) (token key : String) (keys : List String)
    (rest : Result Bool)
    → Compares compare_digest
    → ((token == key ≡ false)
        → (is_ascii token && is_ascii key) ≡ true
        → Compared token (key ∷ keys) rest)
    → Compared token (key ∷ keys) (or_later (compare_digest token key) rest)
unfolding all_ascii
first-Compared compare_digest token key keys rest compares later =
    elim (Bool-cases (is_ascii token && is_ascii key)) [
      | inr other ↦ rw (compares token key) (rw other (not_compared (ground arith)))
      | inl plain ↦ rw (compares token key) (
          rw plain (elim (Bool-cases (token == key)) [
            | inl same ↦ rw same (found (ground arith))
            | inr differs ↦ rw differs (later differs plain)
          ]))
    ]

any_equal-Compared :
    (compare_digest : String → String → Result Bool) (token key : String) (keys : List String)
    → Compares compare_digest
    → Compared token (key ∷ keys) (any_equal compare_digest token (key ∷ keys))
unfolding any_equal
any_equal-Compared compare_digest token key [] compares =
    first-Compared compare_digest token key [] _ compares
      (λ differs plain. missing (ground arith) (ground arith))
any_equal-Compared compare_digest token key (k ∷ ks) compares =
    let rest = any_equal-Compared compare_digest token k ks compares in
    first-Compared compare_digest token key (k ∷ ks) _ compares
      (λ differs plain. later-Compared token key (k ∷ ks) _ differs plain rest)

first_token-filled :
    (lower : String → String) (sources : List String) (token : String)
    → first_token lower sources ≡ some token
    → is_empty token ≡ false
unfolding first_token
first_token-filled lower [] token e = cc
first_token-filled lower (raw ∷ rest) token e = elim (Bool-cases (is_empty (token_of lower raw))) [
  | inl blank ↦ first_token-filled lower rest token (ground arith)
  | inr filled ↦ ground arith
]

-- The decisions on a request and why they are taken. Its token is the first that is not blank of the
-- header Authorization, the header X-API-Key and the query.
pub data Decides (lower : String → String) (keys : List String) (r : Request)
    : Result (Option ℕ) → Type 0 where
  at_public_path : is_public_path r.path ≡ true → Decides lower keys r (ok none)
  without_keys : keys ≡ [] → Decides lower keys r (ok none)
  with_key :
      (token : String)
      → token_in lower r ≡ some token
      → contains keys token ≡ true
      → Decides lower keys r (ok none)
  without_token :
      is_public_path r.path ≡ false
      → keys ≢ []
      → token_in lower r ≡ none
      → Decides lower keys r (ok (some 401))
  with_other_token :
      (token : String)
      → is_public_path r.path ≡ false
      → keys ≢ []
      → token_in lower r ≡ some token
      → is_ascii token ≡ true
      → contains keys token ≡ false
      → Decides lower keys r (ok (some 401))
  not_ascii :
      (token : String)
      → is_public_path r.path ≡ false
      → keys ≢ []
      → token_in lower r ≡ some token
      → (is_ascii token && all_ascii keys) ≡ false
      → Decides lower keys r (raise type_error)

compared-Decides :
    (lower : String → String) (keys : List String) (r : Request) (token : String)
    (compared : Result Bool)
    → is_public_path r.path ≡ false
    → keys ≢ []
    → token_in lower r ≡ some token
    → Compared token keys compared
    → Decides lower keys r (compared >>= λ known. ok (reject_unless known))
compared-Decides lower keys r token _ closed some_keys e (found h) = with_key token e h
compared-Decides lower keys r token _ closed some_keys e (missing a h) =
    with_other_token token closed some_keys e a h
compared-Decides lower keys r token _ closed some_keys e (not_compared h) =
    not_ascii token closed some_keys e h

-- A request passes at a public path, where no keys are set, and with a token that is one of the keys. At
-- another path, where keys are set, a request without a token gets status 401; so does one whose token is
-- ASCII and none of the keys; and the TypeError of `compare_digest` is raised only where the token or
-- a key is not ASCII.
pub reject-Decides :
    (lower : String → String) (compare_digest : String → String → Result Bool) (keys : List String)
    (r : Request)
    → Compares compare_digest
    → Decides lower keys r (reject_unauthorized_request lower compare_digest keys r)
unfolding reject_unauthorized_request extract_api_token is_authorized_token
reject-Decides lower compare_digest keys r compares = elim (Bool-cases (is_public_path r.path)) [
  | inl public ↦ rw public (at_public_path public)
  | inr closed ↦ rw closed (by_keys keys closed)
]
  where
    by_token :
        (key : String) (others : List String) (token : Option String)
        → is_public_path r.path ≡ false
        → token_in lower r ≡ token
        → Decides lower (key ∷ others) r (
            is_authorized_token compare_digest token (key ∷ others) >>= λ known.
            ok (reject_unless known))
    by_token key others none closed e = without_token closed (λ e'. cc) e
    by_token key others (some token) closed e =
        rw (first_token-filled lower (r.authorization ∷ r.x_api_key ∷ r.query_api_key ∷ []) token e)
          (compared-Decides lower (key ∷ others) r token _ closed (λ e'. cc) e
            (any_equal-Compared compare_digest token key others compares))

    by_keys :
        (ks : List String)
        → is_public_path r.path ≡ false
        → Decides lower ks r (
            if no_keys ks
            then ok none
            else (is_authorized_token compare_digest (token_in lower r) ks >>= λ known.
                ok (reject_unless known)))
    by_keys [] closed = without_keys refl
    by_keys (key ∷ others) closed = by_token key others (token_in lower r) closed refl

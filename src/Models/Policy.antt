-- ===== src/Models/Policy.antt =====
-- nano_qwen3tts_vllm/runtime_policy.py. `environment` gives the values of the process's variables, and the
-- empty text for one that is missing.
use nano_qwen3tts_vllm.Common.{
  ℕ, ◌≡◌, refl, inl, inr, String, true, false, List, [], ◌∷◌, Option, none, some, is_empty, strip,
  if◌then◌else◌, Bool-cases, string_eq, contains, ◌⊎◌,
}
use nano_qwen3tts_vllm.Engine.Effects.{Error, Result, Result-cases, ok, raise, ◌>>=◌}
use nano_qwen3tts_vllm.Models.Choice.{ids_of, pick-listed}
use nano_qwen3tts_vllm.Models.{Model, build_runtime_model_catalog, pick_runtime_model}

abbrev pub or_none_text : String → Option String
or_none_text text = if is_empty text then none else some text

unfoldable pub runtime_configured_model_from_env : (String → String) → Option String
runtime_configured_model_from_env environment =
    or_none_text (strip (environment "QWEN3_TTS_MODEL_PATH"))

abbrev pub env_names : List String
env_names = "QWEN_TTS_ALLOWED_MODELS" ∷ "QWEN_ALLOWED_MODELS" ∷ []

-- The two loops over the names.
unfoldable pub first_value : (String → String) → List String → Option String
first_value environment [] = none
first_value environment (env_name ∷ names) =
    if is_empty (strip (environment env_name))
    then first_value environment names
    else some (strip (environment env_name))

unfoldable pub first_name : (String → String) → List String → Option String
first_name environment [] = none
first_name environment (env_name ∷ names) =
    if is_empty (strip (environment env_name)) then first_name environment names else some env_name

unfoldable pub runtime_allowed_models_raw_from_env : (String → String) → Option String
runtime_allowed_models_raw_from_env environment = first_value environment env_names

unfoldable pub runtime_allowed_models_source_from_env : (String → String) → Option String
runtime_allowed_models_source_from_env environment = first_name environment env_names

abbrev pub or_blank : Option String → String
or_blank none = ""
or_blank (some text) = text

unfoldable pub runtime_model_catalog_from_env :
    (String → String) → (String → String) → (String → String) → Result (List Model)
runtime_model_catalog_from_env lower path_name environment =
    build_runtime_model_catalog lower path_name
      (or_blank (runtime_configured_model_from_env environment))
      (or_blank (runtime_allowed_models_raw_from_env environment))

-- A model, or an `HTTPException` with its status.
pub data Resolution : Type 0 where
  resolved_model : String → Resolution
  http_error : ℕ → Resolution

abbrev pub or_409 : Result String → Resolution
or_409 (ok id) = resolved_model id
or_409 (raise e) = http_error 409

-- The only exception of the calls in it is a ValueError.
unfoldable pub resolve_runtime_model_or_409 :
    (String → String) → (String → String) → (String → String) → String → Option String → Resolution
resolve_runtime_model_or_409 lower path_name environment model_name required_family = or_409 (do
  catalog ← runtime_model_catalog_from_env lower path_name environment
  pick_runtime_model lower model_name catalog required_family)

-- The outcomes of a resolution: a model of the environment's catalogue, or 409, where the catalogue cannot
-- be built or nothing in it is picked.
pub data IsResolved (lower path_name environment : String → String) (model_name : String)
    (required : Option String) : Resolution → Type 0 where
  served :
      (catalog : List Model) (id : String)
      → runtime_model_catalog_from_env lower path_name environment ≡ ok catalog
      → contains (ids_of catalog) id ≡ true
      → IsResolved lower path_name environment model_name required (resolved_model id)
  no_catalog :
      (e : Error)
      → runtime_model_catalog_from_env lower path_name environment ≡ raise e
      → IsResolved lower path_name environment model_name required (http_error 409)
  not_picked :
      (catalog : List Model) (e : Error)
      → runtime_model_catalog_from_env lower path_name environment ≡ ok catalog
      → pick_runtime_model lower model_name catalog required ≡ raise e
      → IsResolved lower path_name environment model_name required (http_error 409)

-- `resolve_runtime_model_or_409` gives a model that stands in the catalogue of the environment, whether a
-- model is asked for or not, or else status 409: exactly where the catalogue cannot be built or
-- `pick_runtime_model` raises on it.
pub resolve-IsResolved :
    (lower path_name environment : String → String) (model_name : String) (required : Option String)
    → IsResolved lower path_name environment model_name required
        (resolve_runtime_model_or_409 lower path_name environment model_name required)
unfolding resolve_runtime_model_or_409
resolve-IsResolved lower path_name environment model_name required =
    elim (Result-cases (runtime_model_catalog_from_env lower path_name environment)) [
      | inr (e, failed) ↦ rw failed (no_catalog e failed)
      | inl (catalog, built) ↦
          elim (Result-cases (pick_runtime_model lower model_name catalog required)) [
            | inr (e, failed) ↦ rw built (rw failed (not_picked catalog e built failed))
            | inl (id, picked) ↦ rw built (
                rw picked (
                  served catalog id built
                    (pick-listed lower model_name catalog required id picked)))
          ]
    ]

first_name-value :
    (environment : String → String) (names : List String)
    → ((first_name environment names ≡ none) × (first_value environment names ≡ none))
      ⊎ ((name : String) × (first_name environment names ≡ some name)
          × ((first_value environment names ≡ some (strip (environment name)))
              × (is_empty (strip (environment name)) ≡ false)))
unfolding first_name first_value
first_name-value environment [] = inl (refl, refl)
first_name-value environment (n ∷ names) = elim (Bool-cases (is_empty (strip (environment n)))) [
  | inl blank ↦ rw (blank, first_name, first_value) (first_name-value environment names)
  | inr filled ↦ inr (n, rw filled refl, (rw filled refl, filled))
]

-- The list of allowed models and the variable that it is read from agree: both are there or neither, and
-- the list is the stripped value of the variable, which is not blank.
pub source-raw :
    (environment : String → String)
    → ((runtime_allowed_models_source_from_env environment ≡ none)
        × (runtime_allowed_models_raw_from_env environment ≡ none))
      ⊎ ((name : String) × (runtime_allowed_models_source_from_env environment ≡ some name)
          × ((runtime_allowed_models_raw_from_env environment ≡ some (strip (environment name)))
              × (is_empty (strip (environment name)) ≡ false)))
unfolding runtime_allowed_models_source_from_env runtime_allowed_models_raw_from_env
source-raw environment = first_name-value environment env_names

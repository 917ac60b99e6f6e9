-- ===== src/Models.antt =====
-- nano_qwen3tts_vllm/runtime_models.py: the catalogue of models and the choice of one. Parameters are
-- `lower`, for `str.lower`, and `path_name`, for `Path(text.rstrip("/\\")).name`.
pub mod Choice
pub mod Policy
mod Tests
use Prim.Native.Char.{code}
use nano_qwen3tts_vllm.Common.{
  ℕ, ◌+◌, String, Bool, true, false, not, ◌&&◌, ◌||◌, List, [], ◌∷◌, ◌++◌, map, Option, none, some,
  length, is_empty, strip, if◌then◌else◌, ◌==◌, nat_eq, string_eq, contains,
}
use nano_qwen3tts_vllm.Common.Dict.{Dict, lookup, insert}
use nano_qwen3tts_vllm.Engine.Effects.{Result, ok, raise, value_error, ◌>>=◌, ◌>>◌}

pub record Model : Type 0 where
  pub id : String
  pub label : String
  pub family : String
  pub supports_voice_cloning : Bool
  pub requires_ref_audio : Bool
  pub requires_prompt : Bool

abbrev pub make_model : String → String → String → Model
make_model id label family = record {
  id = id;
  label = label;
  family = family;
  supports_voice_cloning = family == "base";
  requires_ref_audio = family == "base";
  requires_prompt = family == "voice_design";
}

-- `QWEN_MODEL_CATALOG`; its flags follow from the family.
abbrev pub qwen_model_catalog : List Model
qwen_model_catalog =
    make_model "Qwen/Qwen3-TTS-12Hz-0.6B-CustomVoice" "0.6B CustomVoice" "custom_voice"
    ∷ make_model "Qwen/Qwen3-TTS-12Hz-1.7B-CustomVoice" "1.7B CustomVoice" "custom_voice"
    ∷ make_model "Qwen/Qwen3-TTS-12Hz-1.7B-VoiceDesign" "1.7B VoiceDesign" "voice_design"
    ∷ make_model "Qwen/Qwen3-TTS-12Hz-0.6B-Base" "0.6B Base" "base"
    ∷ make_model "Qwen/Qwen3-TTS-12Hz-1.7B-Base" "1.7B Base" "base"
    ∷ []

-- `{item["id"]: item for item in catalog}`: of two entries with one id the later counts.
unfoldable pub by_id : List Model → Dict String Model → Dict String Model
by_id [] d = d
by_id (item ∷ items) d = by_id items (insert item.id item d)

abbrev pub family_aliases : Dict String String
family_aliases =
    ("base", "base")
    ∷ ("voice_design", "voice_design")
    ∷ ("voicedesign", "voice_design")
    ∷ ("prompt", "voice_design")
    ∷ ("custom_voice", "custom_voice")
    ∷ ("customvoice", "custom_voice")
    ∷ []

abbrev pub exact_model_aliases : Dict String String
exact_model_aliases =
    ("qwen/qwen3-tts-12hz-06b-base", "Qwen/Qwen3-TTS-12Hz-0.6B-Base")
    ∷ ("qwen/qwen3-tts-12hz-17b-base", "Qwen/Qwen3-TTS-12Hz-1.7B-Base")
    ∷ ("qwen/qwen3-tts-12hz-06b-customvoice", "Qwen/Qwen3-TTS-12Hz-0.6B-CustomVoice")
    ∷ ("qwen/qwen3-tts-12hz-17b-customvoice", "Qwen/Qwen3-TTS-12Hz-1.7B-CustomVoice")
    ∷ ("qwen/qwen3-tts-12hz-17b-voicedesign", "Qwen/Qwen3-TTS-12Hz-1.7B-VoiceDesign")
    ∷ ("06bbase", "Qwen/Qwen3-TTS-12Hz-0.6B-Base")
    ∷ ("17bbase", "Qwen/Qwen3-TTS-12Hz-1.7B-Base")
    ∷ ("06bcustomvoice", "Qwen/Qwen3-TTS-12Hz-0.6B-CustomVoice")
    ∷ ("17bcustomvoice", "Qwen/Qwen3-TTS-12Hz-1.7B-CustomVoice")
    ∷ ("17bvoicedesign", "Qwen/Qwen3-TTS-12Hz-1.7B-VoiceDesign")
    ∷ []

-- The characters that `_compact_token` takes out: space, `_`, `-` and `.`.
abbrev pub is_separator : ℕ → Bool
is_separator c = c == 32 || (c == 95 || (c == 45 || c == 46))

unfoldable pub without_separators : String → String
without_separators String.[] = String.[]
without_separators (String.◌∷◌ c s) =
    if is_separator (code c) then without_separators s else String.◌∷◌ c (without_separators s)

-- `_compact_token`
unfoldable pub compact_token : (String → String) → String → String
compact_token lower value = without_separators (lower (strip value))

-- `text.startswith(prefix)` and `part in text`.
unfoldable pub starts_with : String → String → Bool
starts_with String.[] text = true
starts_with (String.◌∷◌ c s) String.[] = false
starts_with (String.◌∷◌ c s) (String.◌∷◌ d t) = code c == code d && starts_with s t

unfoldable pub occurs_in : String → String → Bool
occurs_in part String.[] = starts_with part String.[]
occurs_in part (String.◌∷◌ c s) = starts_with part (String.◌∷◌ c s) || occurs_in part s

-- Lines 98-105: the family by the words in the name.
unfoldable pub family_by_words : String → Option String
family_by_words compact =
    if occurs_in "voicedesign" compact || occurs_in "prompt" compact
    then some "voice_design"
    else (if occurs_in "customvoice" compact
        then some "custom_voice"
        else (if occurs_in "base" compact then some "base" else none))

unfoldable pub infer_qwen_model_family : (String → String) → String → Option String
infer_qwen_model_family lower model_name =
    let candidate = strip model_name in
    if is_empty candidate then none else elim (lookup candidate (by_id qwen_model_catalog [])) [
      | some known ↦ some known.family
      | none ↦ family_by_words (compact_token lower candidate)
    ]

abbrev pub or_else : Option String → String → String
or_else none other = other
or_else (some s) other = if is_empty s then other else s

unfoldable pub describe_qwen_model : (String → String) → (String → String) → String → Result Model
describe_qwen_model lower path_name model_name =
    let candidate = strip model_name in
    if is_empty candidate
    then raise value_error
    else elim (lookup candidate (by_id qwen_model_catalog [])) [
      | some known ↦ ok known
      | none ↦ ok (
          make_model candidate (or_else (some (path_name candidate)) candidate)
            (or_else (infer_qwen_model_family lower candidate) "custom"))
    ]

-- The ids of the entries of a family, in their order.
unfoldable pub ids_of_family : String → List Model → List String
ids_of_family family [] = []
ids_of_family family (item ∷ items) =
    let rest = ids_of_family family items in if item.family == family then item.id ∷ rest else rest

unfoldable pub expand_model_token : (String → String) → String → List String
expand_model_token lower token =
    let candidate = strip token in
    if is_empty candidate then [] else elim (lookup candidate (by_id qwen_model_catalog [])) [
      | some _ ↦ candidate ∷ []
      | none ↦ elim (lookup (compact_token lower candidate) exact_model_aliases) [
        | some exact ↦ exact ∷ []
        | none ↦ elim (lookup (compact_token lower candidate) family_aliases) [
          | some family ↦ ids_of_family family qwen_model_catalog
          | none ↦ candidate ∷ []
        ]
      ]
    ]

-- `text.split(",")`, the first part apart.
abbrev pub extend_first : Prim.Native.Char.Char → String × List String → String × List String
extend_first c (first, rest) = (String.◌∷◌ c first, rest)

unfoldable pub split_commas : String → String × List String
split_commas String.[] = (String.[], [])
split_commas (String.◌∷◌ c s) =
    let (first, rest) = split_commas s in
    if code c == 44 then (String.[], first ∷ rest) else extend_first c (first, rest)

unfoldable pub expand_tokens : (String → String) → List String → List String
expand_tokens lower [] = []
expand_tokens lower (token ∷ tokens) = expand_model_token lower token ++ expand_tokens lower tokens

-- Lines 170-179: each model once.
unfoldable pub describe_each :
    (String → String) → (String → String) → List String → List String → Result (List Model)
describe_each lower path_name [] seen = ok []
describe_each lower path_name (model_id ∷ ids) seen = do
  described ← describe_qwen_model lower path_name model_id
  elim (contains seen described.id) [
    | true ↦ describe_each lower path_name ids seen
    | false ↦ do
      rest ← describe_each lower path_name ids (described.id ∷ seen)
      ok (described ∷ rest)
  ]

unfoldable pub build_runtime_model_catalog :
    (String → String) → (String → String) → String → String → Result (List Model)
build_runtime_model_catalog lower path_name configured_model allowed_models_raw =
    let allowed = strip allowed_models_raw in
    let configured = strip configured_model in
    let (first, rest) = split_commas allowed in
    if is_empty allowed
    then (if is_empty configured
        then ok qwen_model_catalog
        else describe_each lower path_name (configured ∷ []) [])
    else describe_each lower path_name (expand_tokens lower (first ∷ rest)) []

-- `required_family is None or family == required_family`
abbrev pub family_is : Option String → String → Bool
family_is none family = true
family_is (some required) family = family == required

-- Lines 195-200.
abbrev pub exact_choice : String → Option String → List Model → Option String
exact_choice requested required catalog =
    if is_empty requested then none else elim (lookup requested (by_id catalog [])) [
      | none ↦ none
      | some item ↦ if family_is required item.family then some requested else none
    ]

-- `required_family or infer_qwen_model_family(requested)`
abbrev pub target_family : (String → String) → String → Option String → Option String
target_family lower requested none = infer_qwen_model_family lower requested
target_family lower requested (some required) =
    if is_empty required then infer_qwen_model_family lower requested else some required

abbrev pub first_of : List String → Option String
first_of [] = none
first_of (x ∷ _) = some x

-- Lines 203-210.
abbrev pub family_choice : Option String → List Model → Option String
family_choice none catalog = none
family_choice (some family) catalog =
    if is_empty family then none else first_of (ids_of_family family catalog)

-- Lines 212-217.
abbrev pub only_choice : String → List Model → Result String
only_choice requested (item ∷ []) = if is_empty requested then ok item.id else raise value_error
only_choice requested _ = raise value_error

abbrev pub or_result : Option String → Result String → Result String
or_result none other = other
or_result (some s) other = ok s

abbrev pub pick_in : (String → String) → String → Option String → List Model → Result String
pick_in lower requested required catalog = or_result (exact_choice requested required catalog) (
    or_result (family_choice (target_family lower requested required) catalog)
      (only_choice requested catalog))

unfoldable pub pick_runtime_model :
    (String → String) → String → List Model → Option String → Result String
pick_runtime_model lower requested_model [] required_family = raise value_error
pick_runtime_model lower requested_model (item ∷ items) required_family =
    pick_in lower (strip requested_model) required_family (item ∷ items)

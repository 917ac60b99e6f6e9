-- ===== src/Models/Tests.antt =====
-- The choice of a model at work.
use nano_qwen3tts_vllm.Common.{
  ◌≡◌, ◌≢◌, refl, String, none, if◌then◌else◌, ◌==◌, [], ◌∷◌, some, strip, lstrip, rstrip, is_space,
  string_eq, arith, ℕ_discrete,
}
use nano_qwen3tts_vllm.Common.Dict.{lookup, insert}
use nano_qwen3tts_vllm.Models.{
  Model, make_model, qwen_model_catalog, by_id, without_separators, compact_token, starts_with,
  occurs_in, family_by_words, infer_qwen_model_family, ids_of_family, expand_model_token,
  pick_runtime_model,
}
use nano_qwen3tts_vllm.Models.Choice.{IsChoice, pick-IsChoice}
use nano_qwen3tts_vllm.Models.Policy.{resolve_runtime_model_or_409, IsResolved, resolve-IsResolved}
use text.Mathlib.TextEquality.{eq_iff}

-- Names everything that a run computes with.
run : Unit {0}
unfolding strip lstrip rstrip is_space lookup insert string_eq ℕ_discrete by_id without_separators
    compact_token starts_with occurs_in family_by_words infer_qwen_model_family ids_of_family
    expand_model_token pick_runtime_model
run = tt

abbrev same_text : String → String
same_text s = s

pick-IsChoice_example : IsChoice qwen_model_catalog (some "base") "Qwen/Qwen3-TTS-12Hz-0.6B-Base"
unfolding run
pick-IsChoice_example =
    pick-IsChoice same_text "voice" qwen_model_catalog (some "base") "Qwen/Qwen3-TTS-12Hz-0.6B-Base"
      refl refl

alias_expands : expand_model_token same_text " 17b-base" ≡ "Qwen/Qwen3-TTS-12Hz-1.7B-Base" ∷ []
unfolding run
alias_expands = refl

-- The compact form has no `-`, so that this alias of the table is not found.
alias_with_dashes :
    expand_model_token same_text "qwen/qwen3-tts-12hz-17b-base"
    ≡ "qwen/qwen3-tts-12hz-17b-base" ∷ []
unfolding run
alias_with_dashes = refl

abbrev design_model : Model
design_model = make_model "m" "m" "voice_design"

other_family : ◌≢◌ {A = String} "voice_design" "base"
other_family = ground (arith, eq_iff "voice_design" "base")

-- Only the model's path is set.
abbrev one_configured : String → String
one_configured name = if name == "QWEN3_TTS_MODEL_PATH" then "Qwen/Qwen3-TTS-12Hz-0.6B-Base" else ""

resolve-IsResolved_example :
    IsResolved same_text same_text one_configured "" none
      (resolve_runtime_model_or_409 same_text same_text one_configured "" none)
resolve-IsResolved_example = resolve-IsResolved same_text same_text one_configured "" none

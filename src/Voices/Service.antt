-- ===== src/Voices/Service.antt =====
-- nano_qwen3tts_vllm/voice_service.py. A handler is a function of the store and of the files in the
-- voices' directory, whose paths are relative to it; no other request runs between its steps.
-- Parameters are `inside`, which tells whether `Path(text).resolve()` is in that directory, `transcribe`,
-- for Whisper, and `read_reference`, for what `prepare_reference_audio_from_path` makes of a file: its
-- audio, as a number that stands for it, and its sample rate, or none where it raises.
use nano_qwen3tts_vllm.Common.{
  ℕ, String, Bool, true, false, not, List, [], ◌∷◌, Option, none, some, is_empty, strip,
  if◌then◌else◌, ◌==◌, string_eq, nat_eq,
}
use nano_qwen3tts_vllm.Voices.Rows.{Voice, State, is_global}
use nano_qwen3tts_vllm.Voices.Store.{list_all_voices, get_voice_by_id, Patch, update_voice_settings}
use nano_qwen3tts_vllm.Voices.Picking.{resolve_voice_record_for_user}
use nano_qwen3tts_vllm.Voices.Uploads.{Files}

-- A response, or an `HTTPException` with its status.
pub data Reply {ℓ} (A : Type ℓ) : Type ℓ where
  reply : A → Reply A
  http : ℕ → Reply A

pub record World : Type 0 where
  pub store : State
  pub files : Files

abbrev pub with_store : {A : Type 0} → World → A × State → A × World
with_store w (a, s) = (a, record w { store = s })

-- `parse_optional_user_id`, for the integer that the text is read as, none where `int` raises, and only
-- for integers that are not negative; a negative one gives none as 0 does.
abbrev pub parse_optional_user_id : Option ℕ → Option ℕ
parse_optional_user_id none = none
parse_optional_user_id (some value) = if value == 0 then none else some value

-- `serialize_voice_record`: the row and the two keys that are added.
pub record VoicePayload : Type 0 where
  pub voice : Voice
  pub type_name : String
  pub is_global_voice : Bool

abbrev pub serialize_voice_record : Voice → VoicePayload
serialize_voice_record v = record {
  voice = v;
  type_name = if is_global v then "global" else "user";
  is_global_voice = is_global v;
}

unfoldable pub serialize_all : List Voice → List VoicePayload
serialize_all [] = []
serialize_all (v ∷ vs) = serialize_voice_record v ∷ serialize_all vs

abbrev pub resolve_voice_file_path : (String → Bool) → Voice → Reply String
resolve_voice_file_path inside v =
    if is_empty (strip v.file_path)
    then http 400
    else (if inside (strip v.file_path) then reply (strip v.file_path) else http 400)

-- `unlink` of a path, which may be missing.
unfoldable pub unlink : String → Files → Files
unlink path [] = []
unlink path (file ∷ files) =
    let rest = unlink path files in if file == path then rest else file ∷ rest

abbrev pub cleanup_voice_file : (String → Bool) → Voice → Files → Files
cleanup_voice_file inside v files =
    if is_empty (strip v.file_path)
    then files
    else (if inside (strip v.file_path) then unlink (strip v.file_path) files else files)

abbrev pub updated_or : Option Voice → Voice → Voice
updated_or none v = v
updated_or (some u) v = u

abbrev pub text_patch : String → Patch
text_patch text = record {
  reference_text = some (some text);
  cfg_strength = none;
  speed_preset = none;
}

-- Lines 91-105, from the voice on.
abbrev pub store_text :
    State → ℕ → ℕ → Voice → Option String → Reply (VoicePayload × String) × State
store_text s now voice_id v none = (http 503, s)
store_text s now voice_id v (some text) = (
  reply (
    serialize_voice_record
        (updated_or (update_voice_settings s now voice_id (text_patch text)).0 v),
    text,
  ),
  (update_voice_settings s now voice_id (text_patch text)).1,
)

abbrev pub retranscribe_path :
    (String → Option String)
    → State
    → ℕ
    → ℕ
    → Voice
    → Reply String
    → Reply (VoicePayload × String) × State
retranscribe_path transcribe s now voice_id v (http status) = (http status, s)
retranscribe_path transcribe s now voice_id v (reply path) =
    store_text s now voice_id v (transcribe path)

abbrev pub retranscribe_found :
    (String → Bool)
    → (String → Option String)
    → State
    → ℕ
    → ℕ
    → Option Voice
    → Reply (VoicePayload × String) × State
retranscribe_found inside transcribe s now voice_id none = (http 404, s)
retranscribe_found inside transcribe s now voice_id (some v) =
    retranscribe_path transcribe s now voice_id v (resolve_voice_file_path inside v)

unfoldable pub retranscribe_voice_record :
    (String → Bool)
    → (String → Option String)
    → State
    → ℕ
    → ℕ
    → Reply (VoicePayload × String) × State
retranscribe_voice_record inside transcribe s now voice_id =
    retranscribe_found inside transcribe s now voice_id (get_voice_by_id s voice_id)

-- The payloads whose row is global, or is not.
unfoldable pub payloads : Bool → List VoicePayload → List VoicePayload
payloads global [] = []
payloads global (p ∷ ps) =
    let rest = payloads global ps in
    if (if is_global p.voice then global else not global) then p ∷ rest else rest

pub record VoiceGroups : Type 0 where
  pub voices : List VoicePayload
  pub global_voices : List VoicePayload
  pub user_voices : List VoicePayload

unfoldable pub admin_voice_groups : State → VoiceGroups
admin_voice_groups s = record {
  voices = serialize_all (list_all_voices s);
  global_voices = payloads true (serialize_all (list_all_voices s));
  user_voices = payloads false (serialize_all (list_all_voices s));
}

-- A file that cannot be read raises a ValueError, which no route catches.
abbrev pub or_500 : Voice → Option (ℕ × ℕ) → Reply (Voice × ℕ × ℕ)
or_500 v none = http 500
or_500 v (some (audio, sample_rate)) = reply (v, audio, sample_rate)

-- Lines 39-46: the checks of the voice that was taken.
abbrev pub reference_of :
    (String → Bool) → (String → Option (ℕ × ℕ)) → Option Voice → Reply (Voice × ℕ × ℕ)
reference_of exists read_reference none = http 400
reference_of exists read_reference (some v) =
    if is_empty (strip v.file_path)
    then http 400
    else (if exists (strip v.file_path)
        then or_500 v (read_reference (strip v.file_path))
        else http 400)

-- `resolve_base_model_reference_voice`.
unfoldable pub resolve_base_model_reference_voice :
    (String → String)
    → (String → Bool)
    → (String → Option (ℕ × ℕ))
    → ℕ
    → State
    → Option ℕ
    → String
    → Reply (Voice × ℕ × ℕ)
resolve_base_model_reference_voice lower exists read_reference draw s user_id_raw requested_voice =
    reference_of exists read_reference (
      resolve_voice_record_for_user lower exists draw s (parse_optional_user_id user_id_raw)
        requested_voice)

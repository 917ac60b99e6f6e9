-- ===== src/Voices/Routes.antt =====
-- The users' routes of nano_qwen3tts_vllm/voice_routes.py. User ids are not negative.
pub mod Admin
pub mod Untouched
pub mod Isolation
pub mod Requests
use Prim.Native.String.{◌++◌ as append}
use nano_qwen3tts_vllm.Common.{
  ℕ, String, Bool, true, false, not, ◌&&◌, ◌||◌, List, [], ◌∷◌, Option, none, some, is_empty, strip,
  if◌then◌else◌, ◌==◌, string_eq, nat_eq,
}
use nano_qwen3tts_vllm.Engine.Effects.{Result, ok, raise}
use nano_qwen3tts_vllm.Voices.Rows.{Voice, State, is_owned_by, name_word}
use nano_qwen3tts_vllm.Voices.Store.{
  list_global_voices, list_user_voices, list_available_voices, get_voice_by_id, NewVoice,
  create_voice, Patch, update_voice_settings, rename_voice, delete_voice, set_enabled_voice_ids,
}
use nano_qwen3tts_vllm.Voices.Uploads.{
  sanitize_voice_name, Upload, Files, prepare_uploaded_voice_file,
}
use nano_qwen3tts_vllm.Voices.Service.{
  Reply, reply, http, World, with_store, VoicePayload, serialize_voice_record, serialize_all,
  cleanup_voice_file, retranscribe_voice_record,
}

abbrev pub voices_global : State → List VoicePayload
voices_global s = serialize_all (list_global_voices s)

abbrev pub voices_all : State → Option ℕ → List VoicePayload
voices_all s user_id = serialize_all (list_available_voices s user_id)

abbrev pub user_voices : State → ℕ → List VoicePayload
user_voices s user_id = serialize_all (list_user_voices s user_id)

abbrev pub or_404 : Option Voice → Reply VoicePayload
or_404 none = http 404
or_404 (some v) = reply (serialize_voice_record v)

unfoldable pub get_voice_info : State → ℕ → Reply VoicePayload
get_voice_info s voice_id = or_404 (get_voice_by_id s voice_id)

-- The voice of an id, if its owner is the user; a missing owner is 0 here.
abbrev pub if_owned : ℕ → Option Voice → Option Voice
if_owned user_id none = none
if_owned user_id (some v) = if is_owned_by user_id v then some v else none

unfoldable pub owned_voice : State → ℕ → ℕ → Option Voice
owned_voice s voice_id user_id = if_owned user_id (get_voice_by_id s voice_id)

-- Whether the user has a voice of a name.
unfoldable pub has_own_voice : (String → String) → List Voice → ℕ → String → Bool
has_own_voice lower [] user_id clean_name = false
has_own_voice lower (v ∷ vs) user_id clean_name =
    (is_owned_by user_id v && (name_word lower v.name == lower clean_name))
    || has_own_voice lower vs user_id clean_name

abbrev pub first_text : String → String → String
first_text a b = if is_empty a then b else a

-- `text or None`
abbrev pub or_none : String → Option String
or_none text = if is_empty text then none else some text

abbrev pub or_400 : {A : Type 0} → Result A → Reply A
or_400 (ok a) = reply a
or_400 (raise e) = http 400

abbrev pub user_row : ℕ → String → String → String → NewVoice
user_row user_id clean_name path text = record {
  name = clean_name;
  owner_id = some user_id;
  voice_type = "user";
  file_path = path;
  is_public = false;
  reference_text = or_none text;
  cfg_strength = none;
  speed_preset = none;
}

-- Lines 155-164: the row of the new file.
abbrev pub create_user_voice :
    (String → String)
    → State
    → Files
    → ℕ
    → ℕ
    → String
    → Result (String × String)
    → Reply Voice × World
create_user_voice lower s files now user_id clean_name (raise e) =
    (http 400, record { store = s; files = files })
create_user_voice lower s files now user_id clean_name (ok (path, text)) =
    let (created, later) = create_voice lower s now (user_row user_id clean_name path text) in
    (or_400 created, record { store = later; files = files })

abbrev pub create_after :
    (String → String)
    → State
    → ℕ
    → ℕ
    → String
    → Result (String × String) × Files
    → Reply Voice × World
create_after lower s now user_id clean_name (prepared, files) =
    create_user_voice lower s files now user_id clean_name prepared

-- What a user's upload sends.
pub record UserUpload : Type 0 where
  pub file : Upload
  pub voice_name : String
  pub name : String
  pub user_id : ℕ
  pub reference_text : String
  pub sample_text : String

-- `user_{user_id}_{clean_name}`, for the decimal text of the user's id.
abbrev pub user_prefix : (ℕ → String) → ℕ → String → String
user_prefix decimal user_id clean_name =
    append "user_" (append (decimal user_id) (append "_" clean_name))

abbrev pub upload_named :
    (String → String)
    → (String → Option String)
    → (ℕ → String)
    → World
    → ℕ
    → String
    → UserUpload
    → Result String
    → Reply Voice × World
upload_named lower transcribe decimal w now unique u (raise e) = (http 400, w)
upload_named lower transcribe decimal w now unique u (ok clean_name) =
    if has_own_voice lower w.store.voices u.user_id clean_name
    then (http 400, w)
    else create_after lower w.store now u.user_id clean_name (
        prepare_uploaded_voice_file transcribe u.file (user_prefix decimal u.user_id clean_name)
          unique (first_text u.reference_text u.sample_text) w.files)

unfoldable pub upload_user_voice :
    (String → String)
    → (String → Option String)
    → (ℕ → String)
    → World
    → ℕ
    → String
    → UserUpload
    → Reply Voice × World
upload_user_voice lower transcribe decimal w now unique u =
    upload_named lower transcribe decimal w now unique u
      (sanitize_voice_name (first_text u.voice_name u.name))

abbrev pub delete_owned : (String → Bool) → World → ℕ → ℕ → Option Voice → Reply Bool × World
delete_owned inside w now voice_id none = (http 404, w)
delete_owned inside w now voice_id (some v) = (
  reply true,
  record {
    store = (delete_voice w.store now voice_id).1;
    files = cleanup_voice_file inside v w.files;
  },
)

unfoldable pub delete_user_voice : (String → Bool) → World → ℕ → ℕ → ℕ → Reply Bool × World
delete_user_voice inside w now voice_id user_id =
    delete_owned inside w now voice_id (owned_voice w.store voice_id user_id)

-- `set_enabled_voices`
unfoldable pub set_enabled_voices : World → ℕ → ℕ → List ℕ → Reply (List ℕ) × World
set_enabled_voices w now user_id voice_ids =
    let (stored, s) = set_enabled_voice_ids w.store now user_id voice_ids in
    (reply stored, record w { store = s })

abbrev pub found_or_404 : Option Voice → Reply Voice
found_or_404 none = http 404
found_or_404 (some v) = reply v

unfoldable pub update_user_voice_settings : World → ℕ → ℕ → Patch → Reply Voice × World
update_user_voice_settings w now voice_id settings =
    let (updated, s) = update_voice_settings w.store now voice_id settings in
    (found_or_404 updated, record w { store = s })

-- Lines 205-209. The name that is answered is none where the row has gone.
abbrev pub rename_clean :
    (String → String) → World → ℕ → ℕ → Result String → Reply (Option Voice) × World
rename_clean lower w now voice_id (raise e) = (http 400, w)
rename_clean lower w now voice_id (ok clean_name) =
    let (updated, s) = rename_voice lower w.store now voice_id clean_name in
    (or_400 updated, record w { store = s })

abbrev pub rename_owned :
    (String → String) → World → ℕ → ℕ → String → Option Voice → Reply (Option Voice) × World
rename_owned lower w now voice_id new_name none = (http 404, w)
rename_owned lower w now voice_id new_name (some v) =
    rename_clean lower w now voice_id (sanitize_voice_name new_name)

unfoldable pub rename_user_voice :
    (String → String) → World → ℕ → ℕ → ℕ → String → Reply (Option Voice) × World
rename_user_voice lower w now voice_id user_id new_name =
    rename_owned lower w now voice_id new_name (owned_voice w.store voice_id user_id)

abbrev pub retranscribe_owned :
    (String → Bool)
    → (String → Option String)
    → World
    → ℕ
    → ℕ
    → Option Voice
    → Reply (VoicePayload × String) × World
retranscribe_owned inside transcribe w now voice_id none = (http 404, w)
retranscribe_owned inside transcribe w now voice_id (some v) =
    with_store w (retranscribe_voice_record inside transcribe w.store now voice_id)

unfoldable pub retranscribe_user_voice :
    (String → Bool)
    → (String → Option String)
    → World
    → ℕ
    → ℕ
    → ℕ
    → Reply (VoicePayload × String) × World
retranscribe_user_voice inside transcribe w now voice_id user_id =
    retranscribe_owned inside transcribe w now voice_id (owned_voice w.store voice_id user_id)

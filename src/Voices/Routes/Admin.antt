-- ===== src/Voices/Routes/Admin.antt =====
-- The administrator's routes of nano_qwen3tts_vllm/voice_routes.py.
use Prim.Native.String.{◌++◌ as append}
use nano_qwen3tts_vllm.Common.{
  ℕ, String, Bool, true, false, Option, none, some, is_empty, strip, if◌then◌else◌,
}
use nano_qwen3tts_vllm.Engine.Effects.{Result, ok, raise}
use nano_qwen3tts_vllm.Models.Policy.{Resolution, resolved_model, http_error}
use nano_qwen3tts_vllm.Voices.Rows.{Voice, State}
use nano_qwen3tts_vllm.Voices.Store.{
  get_voice_by_id, NewVoice, create_voice, Patch, update_voice_settings, rename_voice, toggle_voice,
  delete_voice,
}
use nano_qwen3tts_vllm.Voices.Uploads.{
  sanitize_voice_name, Upload, Files, prepare_uploaded_voice_file,
}
use nano_qwen3tts_vllm.Voices.Service.{
  Reply, reply, http, World, with_store, VoicePayload, serialize_voice_record, unlink,
  cleanup_voice_file, retranscribe_voice_record, text_patch, resolve_base_model_reference_voice,
}
use nano_qwen3tts_vllm.Voices.Routes.{first_text, or_none, or_404}

-- Lines 251-256: the new file goes again if its row is refused.
abbrev pub keep_or_unlink : String → Files → Result Voice × State → Reply VoicePayload × World
keep_or_unlink path files (ok v, s) =
    (reply (serialize_voice_record v), record { store = s; files = files })
keep_or_unlink path files (raise e, s) = (http 400, record { store = s; files = unlink path files })

abbrev pub global_row : String → String → String → NewVoice
global_row clean_name path text = record {
  name = clean_name;
  owner_id = none;
  voice_type = "global";
  file_path = path;
  is_public = true;
  reference_text = or_none text;
  cfg_strength = none;
  speed_preset = none;
}

abbrev pub create_global_voice :
    (String → String)
    → State
    → Files
    → ℕ
    → String
    → Result (String × String)
    → Reply VoicePayload × World
create_global_voice lower s files now clean_name (raise e) =
    (http 400, record { store = s; files = files })
create_global_voice lower s files now clean_name (ok (path, text)) =
    keep_or_unlink path files (create_voice lower s now (global_row clean_name path text))

abbrev pub create_after_upload :
    (String → String)
    → State
    → ℕ
    → String
    → Result (String × String) × Files
    → Reply VoicePayload × World
create_after_upload lower s now clean_name (prepared, files) =
    create_global_voice lower s files now clean_name prepared

-- What an administrator's upload sends; `filename` is empty where the file has none.
pub record AdminUpload : Type 0 where
  pub file : Upload
  pub filename : String
  pub name : String
  pub voice_name : String

abbrev pub upload_global :
    (String → String)
    → (String → Option String)
    → World
    → ℕ
    → String
    → AdminUpload
    → Result String
    → Reply VoicePayload × World
upload_global lower transcribe w now unique u (raise e) = (http 400, w)
upload_global lower transcribe w now unique u (ok clean_name) =
    create_after_upload lower w.store now clean_name (
      prepare_uploaded_voice_file transcribe u.file (append "global_" clean_name) unique "" w.files)

unfoldable pub upload_admin_voice :
    (String → String)
    → (String → Option String)
    → World
    → ℕ
    → String
    → AdminUpload
    → Reply VoicePayload × World
upload_admin_voice lower transcribe w now unique u = upload_global lower transcribe w now unique u (
    sanitize_voice_name
      (first_text u.name (first_text u.voice_name (first_text u.filename "global_voice"))))

-- Lines 268-273, for what `delete_voice` returns.
abbrev pub finish_delete : (String → Bool) → World → Voice → Bool × State → Reply Bool × World
finish_delete inside w v (false, s) = (http 404, record w { store = s })
finish_delete inside w v (true, s) =
    (reply true, record { store = s; files = cleanup_voice_file inside v w.files })

abbrev pub delete_found : (String → Bool) → World → ℕ → ℕ → Option Voice → Reply Bool × World
delete_found inside w now voice_id none = (http 404, w)
delete_found inside w now voice_id (some v) =
    finish_delete inside w v (delete_voice w.store now voice_id)

unfoldable pub delete_admin_voice : (String → Bool) → World → ℕ → ℕ → Reply Bool × World
delete_admin_voice inside w now voice_id =
    delete_found inside w now voice_id (get_voice_by_id w.store voice_id)

abbrev pub reply_renamed : Result (Option Voice) → Reply VoicePayload
reply_renamed (raise e) = http 400
reply_renamed (ok updated) = or_404 updated

abbrev pub rename_admin_clean :
    (String → String) → World → ℕ → ℕ → Result String → Reply VoicePayload × World
rename_admin_clean lower w now voice_id (raise e) = (http 400, w)
rename_admin_clean lower w now voice_id (ok clean_name) =
    let (updated, s) = rename_voice lower w.store now voice_id clean_name in
    (reply_renamed updated, record w { store = s })

unfoldable pub rename_admin_voice :
    (String → String) → World → ℕ → ℕ → String → Reply VoicePayload × World
rename_admin_voice lower w now voice_id new_name =
    rename_admin_clean lower w now voice_id (sanitize_voice_name new_name)

unfoldable pub update_admin_voice_settings : World → ℕ → ℕ → Patch → Reply VoicePayload × World
update_admin_voice_settings w now voice_id settings =
    let (updated, s) = update_voice_settings w.store now voice_id settings in
    (or_404 updated, record w { store = s })

unfoldable pub toggle_admin_voice : World → ℕ → ℕ → Reply VoicePayload × World
toggle_admin_voice w now voice_id =
    let (updated, s) = toggle_voice w.store now voice_id in (or_404 updated, record w { store = s })

unfoldable pub retranscribe_admin_voice :
    (String → Bool)
    → (String → Option String)
    → World
    → ℕ
    → ℕ
    → Reply (VoicePayload × String) × World
retranscribe_admin_voice inside transcribe w now voice_id =
    with_store w (retranscribe_voice_record inside transcribe w.store now voice_id)

abbrev pub or_blank : Option String → String
or_blank none = ""
or_blank (some text) = text

-- The reference text of a preview, where the voice has none: its file is transcribed and its row gets the
-- text. An error of the transcription is not caught.
abbrev pub preview_transcribed : World → ℕ → Voice → Option String → Reply String × World
preview_transcribed w now v none = (http 500, w)
preview_transcribed w now v (some text) =
    (reply text, record w { store = (update_voice_settings w.store now v.id (text_patch text)).1 })

abbrev pub preview_text :
    (String → Option String) → World → ℕ → Reply (Voice × ℕ × ℕ) → Reply String × World
preview_text transcribe w now (http status) = (http status, w)
preview_text transcribe w now (reply (v, audio, sample_rate)) =
    if is_empty (strip (or_blank v.reference_text))
    then preview_transcribed w now v (transcribe v.file_path)
    else (reply (strip (or_blank v.reference_text)), w)

abbrev pub preview_for :
    (String → Option String) → World → ℕ → Resolution → Reply (Voice × ℕ × ℕ) → Reply String × World
preview_for transcribe w now (http_error status) voice = (http status, w)
preview_for transcribe w now (resolved_model model) voice = preview_text transcribe w now voice

-- `admin_test_voice` up to the synthesis, for the resolution of its model: the reference text.
unfoldable pub admin_test_voice :
    (String → String)
    → (String → Bool)
    → (String → Option (ℕ × ℕ))
    → (String → Option String)
    → World
    → ℕ
    → ℕ
    → Resolution
    → ℕ
    → String
    → String
    → Reply String × World
admin_test_voice lower exists read_reference transcribe w now draw resolution user_id voice_name
      test_text =
    if is_empty (strip test_text)
    then (http 400, w)
    else preview_for transcribe w now resolution (
        resolve_base_model_reference_voice lower exists read_reference draw w.store (some user_id)
          voice_name)

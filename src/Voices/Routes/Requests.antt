-- ===== src/Voices/Routes/Requests.antt =====
-- Every request that writes, and what the requests do to the store.
use nano_qwen3tts_vllm.Common.{
  ℕ, inl, inr, String, Bool, true, false, List, Option, none, some, is_empty, strip, Bool-cases,
  Option-cases,
}
use nano_qwen3tts_vllm.Engine.Effects.{Result, ok, raise}
use nano_qwen3tts_vllm.Models.Policy.{Resolution, resolved_model, http_error}
use nano_qwen3tts_vllm.Voices.Rows.{Voice, State}
use nano_qwen3tts_vllm.Voices.Store.{get_voice_by_id, create_voice, Patch, delete_voice}
use nano_qwen3tts_vllm.Voices.History.{
  Step, creates, updates, renames, toggles, deletes, enables, Reach, initial, next, Reach-IsValid,
}
use nano_qwen3tts_vllm.Voices.Validity.{IsValid}
use nano_qwen3tts_vllm.Voices.Uploads.{sanitize_voice_name, Files, prepare_uploaded_voice_file}
use nano_qwen3tts_vllm.Voices.Service.{
  Reply, reply, http, World, retranscribe_voice_record, retranscribe_path, store_text, text_patch,
  resolve_voice_file_path,
}
use nano_qwen3tts_vllm.Voices.Routes.{
  first_text, set_enabled_voices, UserUpload, user_row, user_prefix, has_own_voice, create_after,
  upload_named, upload_user_voice, owned_voice, delete_user_voice, update_user_voice_settings,
  rename_clean, rename_user_voice, retranscribe_user_voice,
}
use nano_qwen3tts_vllm.Voices.Routes.Admin.{
  or_blank, preview_transcribed, preview_text, preview_for, admin_test_voice, global_row,
  keep_or_unlink, create_after_upload, AdminUpload, upload_global, upload_admin_voice,
  finish_delete, delete_admin_voice, rename_admin_clean, rename_admin_voice,
  update_admin_voice_settings, toggle_admin_voice, retranscribe_admin_voice,
}

module _ (lower : String → String) (inside : String → Bool) (transcribe : String → Option String)
    (decimal : ℕ → String) where
  pub data Call (w : World) : World → Type 0 where
    user_uploads :
        (now : ℕ) (unique : String) (u : UserUpload)
        → Call w (upload_user_voice lower transcribe decimal w now unique u).1
    user_deletes : (now i user_id : ℕ) → Call w (delete_user_voice inside w now i user_id).1
    user_updates : (now i : ℕ) (patch : Patch) → Call w (update_user_voice_settings w now i patch).1
    user_renames :
        (now i user_id : ℕ) (name : String)
        → Call w (rename_user_voice lower w now i user_id name).1
    user_retranscribes :
        (now i user_id : ℕ) → Call w (retranscribe_user_voice inside transcribe w now i user_id).1
    user_enables :
        (now user_id : ℕ) (ids : List ℕ) → Call w (set_enabled_voices w now user_id ids).1
    admin_tests :
        (exists : String → Bool) (read_reference : String → Option (ℕ × ℕ)) (now draw : ℕ)
        (resolution : Resolution) (user_id : ℕ) (voice_name test_text : String)
        → Call w
            (admin_test_voice lower exists read_reference transcribe w now draw resolution user_id
              voice_name test_text).1
    admin_uploads :
        (now : ℕ) (unique : String) (u : AdminUpload)
        → Call w (upload_admin_voice lower transcribe w now unique u).1
    admin_deletes : (now i : ℕ) → Call w (delete_admin_voice inside w now i).1
    admin_renames : (now i : ℕ) (name : String) → Call w (rename_admin_voice lower w now i name).1
    admin_updates :
        (now i : ℕ) (patch : Patch) → Call w (update_admin_voice_settings w now i patch).1
    admin_toggles : (now i : ℕ) → Call w (toggle_admin_voice w now i).1
    admin_retranscribes :
        (now i : ℕ) → Call w (retranscribe_admin_voice inside transcribe w now i).1

  -- Requests, one after the other.
  pub data Calls (w : World) : World → Type 0 where
    none_yet : Calls w w
    one_more : {u v : World} → Calls w u → Call u v → Calls w v

  module _ (s : State) where
    one : (t : State) → Step lower s t → Reach lower s t
    one t step = next initial step

    store_text-Reach :
        (now i : ℕ) (v : Voice) (text : Option String) → Reach lower s (store_text s now i v text).1
    store_text-Reach now i v none = initial
    store_text-Reach now i v (some text) = one _ (updates now i (text_patch text))

    retranscribe_path-Reach :
        (now i : ℕ) (v : Voice) (path : Reply String)
        → Reach lower s (retranscribe_path transcribe s now i v path).1
    retranscribe_path-Reach now i v (http status) = initial
    retranscribe_path-Reach now i v (reply path) = store_text-Reach now i v (transcribe path)

    retranscribe-Reach :
        (now i : ℕ) → Reach lower s (retranscribe_voice_record inside transcribe s now i).1
    unfolding retranscribe_voice_record
    retranscribe-Reach now i = elim (Option-cases (get_voice_by_id s i)) [
      | inl missing ↦ rw missing initial
      | inr (v, found) ↦
          rw found (retranscribe_path-Reach now i v (resolve_voice_file_path inside v))
    ]

    keep_or_unlink-Reach :
        (path : String) (files : Files) (created : Result Voice × State)
        → Reach lower s created.1
        → Reach lower s (keep_or_unlink path files created).1.store
    keep_or_unlink-Reach path files (ok v, t) r = r
    keep_or_unlink-Reach path files (raise e, t) r = r

    user_upload-Reach :
        (now owner : ℕ) (name : String) (prepared : Result (String × String) × Files)
        → Reach lower s (create_after lower s now owner name prepared).1.store
    user_upload-Reach now owner name (raise e, files) = initial
    user_upload-Reach now owner name (ok (path, text), files) =
        one _ (creates now (user_row owner name path text))

    admin_upload-Reach :
        (now : ℕ) (name : String) (prepared : Result (String × String) × Files)
        → Reach lower s (create_after_upload lower s now name prepared).1.store
    admin_upload-Reach now name (raise e, files) = initial
    admin_upload-Reach now name (ok (path, text), files) =
        keep_or_unlink-Reach path files (create_voice lower s now (global_row name path text))
          (one _ (creates now (global_row name path text)))

  module _ (w : World) where
    upload_named-Reach :
        (now : ℕ) (unique : String) (u : UserUpload) (name : Result String)
        → Reach lower w.store (upload_named lower transcribe decimal w now unique u name).1.store
    upload_named-Reach now unique u (raise e) = initial
    upload_named-Reach now unique u (ok name) =
        elim (Bool-cases (has_own_voice lower w.store.voices u.user_id name)) [
          | inl taken ↦ rw taken initial
          | inr free ↦ rw free (
              user_upload-Reach w.store now u.user_id name (
                prepare_uploaded_voice_file transcribe u.file (user_prefix decimal u.user_id name)
                  unique (first_text u.reference_text u.sample_text) w.files))
        ]

    upload_global-Reach :
        (now : ℕ) (unique : String) (u : AdminUpload) (name : Result String)
        → Reach lower w.store (upload_global lower transcribe w now unique u name).1.store
    upload_global-Reach now unique u (raise e) = initial
    upload_global-Reach now unique u (ok name) = admin_upload-Reach w.store now name _

    rename_clean-Reach :
        (now i : ℕ) (name : Result String)
        → Reach lower w.store (rename_clean lower w now i name).1.store
    rename_clean-Reach now i (raise e) = initial
    rename_clean-Reach now i (ok name) = one w.store _ (renames now i name)

    rename_admin_clean-Reach :
        (now i : ℕ) (name : Result String)
        → Reach lower w.store (rename_admin_clean lower w now i name).1.store
    rename_admin_clean-Reach now i (raise e) = initial
    rename_admin_clean-Reach now i (ok name) = one w.store _ (renames now i name)

    finish_delete-Reach :
        (v : Voice) (deleted : Bool × State)
        → Reach lower w.store deleted.1
        → Reach lower w.store (finish_delete inside w v deleted).1.store
    finish_delete-Reach v (false, s) r = r
    finish_delete-Reach v (true, s) r = r

  module _ (w : World) where
    delete_user-Reach :
        (now i user_id : ℕ) → Reach lower w.store (delete_user_voice inside w now i user_id).1.store
    unfolding delete_user_voice
    delete_user-Reach now i user_id = elim (Option-cases (owned_voice w.store i user_id)) [
      | inl missing ↦ rw missing initial
      | inr (v, owned) ↦ rw owned (one w.store _ (deletes now i))
    ]

    rename_user-Reach :
        (now i user_id : ℕ) (name : String)
        → Reach lower w.store (rename_user_voice lower w now i user_id name).1.store
    unfolding rename_user_voice
    rename_user-Reach now i user_id name = elim (Option-cases (owned_voice w.store i user_id)) [
      | inl missing ↦ rw missing initial
      | inr (v, owned) ↦ rw owned (rename_clean-Reach w now i (sanitize_voice_name name))
    ]

    retranscribe_user-Reach :
        (now i user_id : ℕ)
        → Reach lower w.store (retranscribe_user_voice inside transcribe w now i user_id).1.store
    unfolding retranscribe_user_voice
    retranscribe_user-Reach now i user_id = elim (Option-cases (owned_voice w.store i user_id)) [
      | inl missing ↦ rw missing initial
      | inr (v, owned) ↦ rw owned (retranscribe-Reach w.store now i)
    ]

    delete_admin-Reach :
        (now i : ℕ) → Reach lower w.store (delete_admin_voice inside w now i).1.store
    unfolding delete_admin_voice
    delete_admin-Reach now i = elim (Option-cases (get_voice_by_id w.store i)) [
      | inl missing ↦ rw missing initial
      | inr (v, found) ↦
          rw found
            (finish_delete-Reach w v (delete_voice w.store now i) (one w.store _ (deletes now i)))
    ]

    preview_text-Reach :
        (now : ℕ) (voice : Reply (Voice × ℕ × ℕ))
        → Reach lower w.store (preview_text transcribe w now voice).1.store
    preview_text-Reach now (http status) = initial
    preview_text-Reach now (reply (v, audio, sample_rate)) =
        elim (Bool-cases (is_empty (strip (or_blank v.reference_text)))) [
          | inr filled ↦ rw filled initial
          | inl blank ↦ rw blank (transcribed (transcribe v.file_path))
        ]
      where
        transcribed :
            (text : Option String) → Reach lower w.store (preview_transcribed w now v text).1.store
        transcribed none = initial
        transcribed (some text) = one w.store _ (updates now v.id (text_patch text))

    preview_for-Reach :
        (now : ℕ) (resolution : Resolution) (voice : Reply (Voice × ℕ × ℕ))
        → Reach lower w.store (preview_for transcribe w now resolution voice).1.store
    preview_for-Reach now (http_error status) voice = initial
    preview_for-Reach now (resolved_model model) voice = preview_text-Reach now voice

    admin_test-Reach :
        (exists : String → Bool) (read_reference : String → Option (ℕ × ℕ)) (now draw : ℕ)
        (resolution : Resolution) (user_id : ℕ) (voice_name test_text : String)
        → Reach lower w.store
            (admin_test_voice lower exists read_reference transcribe w now draw resolution user_id
              voice_name test_text).1.store
    unfolding admin_test_voice
    admin_test-Reach exists read_reference now draw resolution user_id voice_name test_text =
        elim (Bool-cases (is_empty (strip test_text))) [
          | inl blank ↦ rw blank initial
          | inr filled ↦ rw filled (preview_for-Reach now resolution _)
        ]

  Call-Reach : (w w' : World) → Call w w' → Reach lower w.store w'.store
  unfolding set_enabled_voices upload_user_voice update_user_voice_settings upload_admin_voice
      rename_admin_voice update_admin_voice_settings toggle_admin_voice retranscribe_admin_voice
  Call-Reach w _ (user_uploads now unique u) =
      upload_named-Reach w now unique u (sanitize_voice_name (first_text u.voice_name u.name))
  Call-Reach w _ (user_deletes now i user_id) = delete_user-Reach w now i user_id
  Call-Reach w _ (user_updates now i patch) = one w.store _ (updates now i patch)
  Call-Reach w _ (user_renames now i user_id name) = rename_user-Reach w now i user_id name
  Call-Reach w _ (user_retranscribes now i user_id) = retranscribe_user-Reach w now i user_id
  Call-Reach w _ (user_enables now user_id ids) = one w.store _ (enables now user_id ids)
  Call-Reach w _ (admin_tests exists read_reference now draw resolution user_id voice_name text) =
      admin_test-Reach w exists read_reference now draw resolution user_id voice_name text
  Call-Reach w _ (admin_uploads now unique u) = upload_global-Reach w now unique u (
      sanitize_voice_name
        (first_text u.name (first_text u.voice_name (first_text u.filename "global_voice"))))
  Call-Reach w _ (admin_deletes now i) = delete_admin-Reach w now i
  Call-Reach w _ (admin_renames now i name) =
      rename_admin_clean-Reach w now i (sanitize_voice_name name)
  Call-Reach w _ (admin_updates now i patch) = one w.store _ (updates now i patch)
  Call-Reach w _ (admin_toggles now i) = one w.store _ (toggles now i)
  Call-Reach w _ (admin_retranscribes now i) = retranscribe-Reach w.store now i

-- Any sequence of requests to the routes of the users and of the administrator that write the store,
-- where the preview counts up to its synthesis, on a store whose ids are unique and below the next one and
-- whose voices' names do not clash, leaves such a store.
pub Calls-IsValid :
    (lower : String → String) (inside : String → Bool) (transcribe : String → Option String)
    (decimal : ℕ → String) (w w' : World)
    → Calls lower inside transcribe decimal w w'
    → IsValid lower w.store
    → IsValid lower w'.store
Calls-IsValid lower inside transcribe decimal w _ none_yet valid = valid
Calls-IsValid lower inside transcribe decimal w w' (one_more {u = u} calls call) valid =
    Reach-IsValid lower u.store w'.store
      (Calls-IsValid lower inside transcribe decimal w u calls valid)
      (Call-Reach lower inside transcribe decimal u w' call)

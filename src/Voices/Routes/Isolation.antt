-- ===== src/Voices/Routes/Isolation.antt =====
-- Which voices the users' routes can change.
use nano_qwen3tts_vllm.Common.{
  ℕ, ◌≡◌, ◌≢◌, ◌∙◌, inl, inr, String, Bool, Option, some, nat_eq, arith, Bool-cases, Option-cases,
}
use nano_qwen3tts_vllm.Engine.Effects.{Result, ok, raise}
use nano_qwen3tts_vllm.Voices.Rows.{Voice, State, or_zero}
use nano_qwen3tts_vllm.Voices.Store.{get_voice_by_id}
use nano_qwen3tts_vllm.Voices.Validity.{IsValid}
use nano_qwen3tts_vllm.Voices.Uploads.{sanitize_voice_name, Files, prepare_uploaded_voice_file}
use nano_qwen3tts_vllm.Voices.Service.{World}
use nano_qwen3tts_vllm.Voices.Routes.Untouched.{
  delete_voice-Same, rename_voice-Same, retranscribe-Same, owned_voice-found, create_voice-kept,
}
use nano_qwen3tts_vllm.Voices.Routes.{
  owned_voice, has_own_voice, create_user_voice, user_row, create_after, user_prefix, first_text,
  UserUpload, upload_named, upload_user_voice, delete_user_voice, rename_clean, rename_user_voice,
  retranscribe_user_voice,
}

-- A request that a user makes for a voice of their own.
pub data UserCall (lower : String → String) (inside : String → Bool)
    (transcribe : String → Option String) (decimal : ℕ → String) (user_id : ℕ) (w : World)
    : World → Type 0 where
  uploads :
      (now : ℕ) (unique : String) (u : UserUpload)
      → UserCall lower inside transcribe decimal user_id w
          (upload_user_voice lower transcribe decimal w now unique u).1
  deletes :
      (now voice_id : ℕ)
      → UserCall lower inside transcribe decimal user_id w
          (delete_user_voice inside w now voice_id user_id).1
  renames :
      (now voice_id : ℕ) (name : String)
      → UserCall lower inside transcribe decimal user_id w
          (rename_user_voice lower w now voice_id user_id name).1
  retranscribes :
      (now voice_id : ℕ)
      → UserCall lower inside transcribe decimal user_id w
          (retranscribe_user_voice inside transcribe w now voice_id user_id).1

module _ (user_id j : ℕ) (v : Voice) (foreign : or_zero v.owner_id ≢ user_id) where
  -- A voice of another owner stands at another id than the owned one.
  other_id :
      (s : State) (i : ℕ) (own : Voice)
      → get_voice_by_id s j ≡ some v
      → owned_voice s i user_id ≡ some own
      → j ≢ i
  other_id s i own e owned =
      let (found, owner) = owned_voice-found s i user_id own owned in ground arith

  module _ (lower : String → String) (inside : String → Bool) (transcribe : String → Option String)
      (decimal : ℕ → String) (w : World) (e : get_voice_by_id w.store j ≡ some v) where
    delete-kept :
        (now i : ℕ) → get_voice_by_id (delete_user_voice inside w now i user_id).1.store j ≡ some v
    unfolding delete_user_voice
    delete-kept now i = elim (Option-cases (owned_voice w.store i user_id)) [
      | inl missing ↦ rw missing e
      | inr (own, owned) ↦
          rw owned (delete_voice-Same w.store now i j (other_id w.store i own e owned) ∙ e)
    ]

    rename_clean-kept :
        (now i : ℕ) (name : Result String)
        → j ≢ i
        → get_voice_by_id (rename_clean lower w now i name).1.store j ≡ some v
    rename_clean-kept now i (raise error) other = e
    rename_clean-kept now i (ok name) other = rename_voice-Same lower w.store now i j name other ∙ e

    rename-kept :
        (now i : ℕ) (name : String)
        → get_voice_by_id (rename_user_voice lower w now i user_id name).1.store j ≡ some v
    unfolding rename_user_voice
    rename-kept now i name = elim (Option-cases (owned_voice w.store i user_id)) [
      | inl missing ↦ rw missing e
      | inr (own, owned) ↦
          rw owned
            (rename_clean-kept now i (sanitize_voice_name name) (other_id w.store i own e owned))
    ]

    retranscribe-kept :
        (now i : ℕ)
        → get_voice_by_id (retranscribe_user_voice inside transcribe w now i user_id).1.store j
          ≡ some v
    unfolding retranscribe_user_voice
    retranscribe-kept now i = elim (Option-cases (owned_voice w.store i user_id)) [
      | inl missing ↦ rw missing e
      | inr (own, owned) ↦
          rw owned (
            retranscribe-Same inside transcribe w.store now i j (other_id w.store i own e owned)
            ∙ e)
    ]

    module _ (valid : IsValid lower w.store) where
      create_user-kept :
          (files : Files) (now owner : ℕ) (name : String) (r : Result (String × String))
          → get_voice_by_id (create_user_voice lower w.store files now owner name r).1.store j
            ≡ some v
      create_user-kept files now owner name (raise error) = e
      create_user-kept files now owner name (ok (path, text)) =
          create_voice-kept lower w.store now (user_row owner name path text) j v valid e

      create_after-kept :
          (now owner : ℕ) (name : String) (prepared : Result (String × String) × Files)
          → get_voice_by_id (create_after lower w.store now owner name prepared).1.store j ≡ some v
      create_after-kept now owner name (r, files) = create_user-kept files now owner name r

      upload_named-kept :
          (now : ℕ) (unique : String) (u : UserUpload) (name : Result String)
          → get_voice_by_id (upload_named lower transcribe decimal w now unique u name).1.store j
            ≡ some v
      upload_named-kept now unique u (raise error) = e
      upload_named-kept now unique u (ok name) =
          elim (Bool-cases (has_own_voice lower w.store.voices u.user_id name)) [
            | inl taken ↦ rw taken e
            | inr free ↦ rw free (
                create_after-kept now u.user_id name (
                  prepare_uploaded_voice_file transcribe u.file (user_prefix decimal u.user_id name)
                    unique (first_text u.reference_text u.sample_text) w.files))
          ]

-- A user's upload, deletion, renaming or retranscription, of any voice id, leaves every voice of
-- another owner as it is. The owner of a voice without one counts as 0.
pub UserCall-kept :
    (lower : String → String) (inside : String → Bool) (transcribe : String → Option String)
    (decimal : ℕ → String) (user_id : ℕ) (w w' : World) (j : ℕ) (v : Voice)
    → IsValid lower w.store
    → UserCall lower inside transcribe decimal user_id w w'
    → get_voice_by_id w.store j ≡ some v
    → or_zero v.owner_id ≢ user_id
    → get_voice_by_id w'.store j ≡ some v
unfolding upload_user_voice
UserCall-kept lower inside transcribe decimal user_id w _ j v valid (uploads now unique u) e
      foreign =
    upload_named-kept user_id j v foreign lower inside transcribe decimal w e valid now unique u
      (sanitize_voice_name (first_text u.voice_name u.name))
UserCall-kept lower inside transcribe decimal user_id w _ j v valid (deletes now i) e foreign =
    delete-kept user_id j v foreign lower inside transcribe decimal w e now i
UserCall-kept lower inside transcribe decimal user_id w _ j v valid (renames now i name) e foreign =
    rename-kept user_id j v foreign lower inside transcribe decimal w e now i name
UserCall-kept lower inside transcribe decimal user_id w _ j v valid (retranscribes now i) e
      foreign =
    retranscribe-kept user_id j v foreign lower inside transcribe decimal w e now i

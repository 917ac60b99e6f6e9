-- ===== src/Streams/Prepare/Prepared.antt =====
-- The outcomes of `prepare_stream`.
use nano_qwen3tts_vllm.Common.{
  ℕ, suc, pos, ◌≡◌, ◌≢◌, ◌⊎◌, String, Bool, true, false, Option, none, some, is_empty, strip,
  if◌then◌else◌, string_eq,
}
use nano_qwen3tts_vllm.Models.Policy.{Resolution, resolved_model, http_error}
use nano_qwen3tts_vllm.Voices.Rows.{Voice}
use nano_qwen3tts_vllm.Voices.Picking.{resolve_voice_record_for_user}
use nano_qwen3tts_vllm.Voices.Service.{Reply, reply, http, parse_optional_user_id}
use nano_qwen3tts_vllm.Voices.History.{Reach}
use nano_qwen3tts_vllm.Streams.State.{RequestData}
use nano_qwen3tts_vllm.Streams.Calls.{Receipt, enqueue}
use nano_qwen3tts_vllm.Streams.Prepare.{RefAudio, PrepareForm, Reference, App, is_base, as_reply}
use nano_qwen3tts_vllm.Streams.Prepare.Carrying.{Carries, IsUnheard, IsReferenceText, given_text}

module _ (lower : String → String) (exists : String → Bool) (whisper : String → Option String)
    (read_reference : String → Option (ℕ × ℕ)) (to_int : String → Option ℕ) (draw : ℕ) (app : App)
    (form : PrepareForm) where
  -- The voice that the store resolves for the user and the speaker of the form.
  abbrev pub voice_for : Option Voice
  voice_for =
      resolve_voice_record_for_user lower exists draw app.store
        (parse_optional_user_id (to_int form.user_id)) form.speaker

  -- Where the reference of a request comes from: the upload of the form, or without one the voice.
  pub data IsReference (r : Reference) : Type 0 where
    of_upload :
        (upload : RefAudio)
        → form.ref_audio ≡ some upload
        → upload.audio ≡ some (r.ref_audio, r.ref_sr)
        → IsReferenceText whisper upload.tmp_path form.ref_text r.ref_text
        → r.speaker ≡ form.speaker
        → IsReference r
    of_voice :
        (v : Voice)
        → form.ref_audio ≡ none
        → voice_for ≡ some v
        → read_reference (strip v.file_path) ≡ some (r.ref_audio, r.ref_sr)
        → IsReferenceText whisper v.file_path (given_text form.ref_text v.reference_text) r.ref_text
        → r.speaker ≡ (if is_empty v.name then form.speaker else v.name)
        → IsReference r

  -- Why there is no reference.
  pub data LacksReference : ℕ → Type 0 where
    unreadable :
        (upload : RefAudio)
        → form.ref_audio ≡ some upload
        → upload.audio ≡ none
        → LacksReference 500
    no_voice : form.ref_audio ≡ none → voice_for ≡ none → LacksReference 400
    no_file :
        (v : Voice)
        → form.ref_audio ≡ none
        → voice_for ≡ some v
        → (is_empty (strip v.file_path) ≡ true) ⊎ (exists (strip v.file_path) ≡ false)
        → LacksReference 400
    unreadable_file :
        (v : Voice)
        → form.ref_audio ≡ none
        → voice_for ≡ some v
        → read_reference (strip v.file_path) ≡ none
        → LacksReference 500
    unheard : (path : String) → IsUnheard whisper path → LacksReference 400

  -- A reference that was found, with the scheduler as it was.
  data Found : Reply Reference × App → Type 0 where
    nothing_found : (status : ℕ) → LacksReference status → Found (http status, app)
    found :
        (r : Reference) (app' : App)
        → IsReference r
        → app'.scheduler ≡ app.scheduler
        → Reach lower app.store app'.store
        → Found (reply r, app')

  module _ (stream_id : String) (now : ℕ) (resolution : Resolution) where
    -- The request has a reference exactly if its model is a base model.
    abbrev pub HasReference : String → Option Reference → Type 0
    HasReference model none = is_base model ≡ false
    HasReference model (some r) = (is_base model ≡ true) × IsReference r

    -- Why a request is refused.
    pub data Refusal : ℕ → Type 0 where
      cold : ((n : ℕ) → form.temperature ≢ pos (suc n)) → Refusal 400
      unresolved : (status : ℕ) → resolution ≡ http_error status → Refusal status
      lacks :
          (status : ℕ) (model : String)
          → resolution ≡ resolved_model model
          → is_base model ≡ true
          → LacksReference status
          → Refusal status

    -- A refusal, which changes nothing, or one call of `enqueue` for a request.
    pub data Prepares : Reply Receipt × App → Type 0 where
      refuses : (status : ℕ) → Refusal status → Prepares (http status, app)
      enqueues :
          (n : ℕ) (model : String) (reference : Option Reference) (d : RequestData)
          (r : Reply Receipt) (app' : App)
          → form.temperature ≡ pos (suc n)
          → resolution ≡ resolved_model model
          → HasReference model reference
          → Carries form model reference d
          → r
            ≡ as_reply
                (enqueue lower stream_id d form.tenant_id form.channel_name now app.scheduler).0
          → app'.scheduler
            ≡ (enqueue lower stream_id d form.tenant_id form.channel_name now app.scheduler).1
          → Reach lower app.store app'.store
          → Prepares (r, app')

-- ===== src/Streams/Prepare.antt =====
-- The route `prepare_stream` of nano_qwen3tts_vllm/stream_routes.py, over the scheduler and the store of
-- voices. Parameters are `whisper`, for the text that Whisper hears in a file, none where it raises;
-- `read_reference`, for the audio of a stored voice and its rate, none where it raises; `to_int`, for `int` of a stripped text; and those of
-- Models/Policy and Voices/Store.
pub mod Carrying
pub mod Prepared
mod Tests
use nano_qwen3tts_vllm.Common.{
  ℕ, zero, suc, String, Bool, true, false, List, [], ◌∷◌, Option, none, some, is_empty, strip,
  if◌then◌else◌, ℤ, pos, negsuc,
}
use nano_qwen3tts_vllm.Models.{occurs_in}
use nano_qwen3tts_vllm.Models.Policy.{
  Resolution, resolved_model, http_error, resolve_runtime_model_or_409,
}
use nano_qwen3tts_vllm.Voices.Rows.{Voice}
use nano_qwen3tts_vllm.Voices.Store.{update_voice_settings}
use nano_qwen3tts_vllm.Voices.Service.{
  Reply, reply, http, text_patch, resolve_base_model_reference_voice,
}
use nano_qwen3tts_vllm.Streams.State.{
  RequestData, FairStreamScheduler, Result, ok, raise, index_error, key_error,
}
use nano_qwen3tts_vllm.Streams.Calls.{Receipt, enqueue}

-- The form. The temperature is in thousandths; `ref_audio` is the upload, with the audio of one channel that
-- `soundfile.read` makes of it, as a number that stands for it, and its sample rate, none where it raises,
-- and the path of its temporary copy.
pub record RefAudio : Type 0 where
  pub audio : Option (ℕ × ℕ)
  pub tmp_path : String

pub record PrepareForm : Type 0 where
  pub model : String
  pub text : String
  pub language : String
  pub temperature : ℤ
  pub instruction : String
  pub speaker : String
  pub ref_audio : Option RefAudio
  pub ref_text : String
  pub tenant_id : String
  pub channel_name : String
  pub author : String
  pub user_id : String
  pub request_id : String
  pub event_id : String

-- What the route adds to `request_data` for a base model.
pub record Reference : Type 0 where
  pub ref_audio : ℕ
  pub ref_sr : ℕ
  pub ref_text : String
  pub speaker : String

pub record App : Type 0 where
  pub scheduler : FairStreamScheduler
  pub store : nano_qwen3tts_vllm.Voices.Rows.State

abbrev pub is_positive : ℤ → Bool
is_positive (pos zero) = false
is_positive (pos (suc n)) = true
is_positive (negsuc n) = false

abbrev pub is_base : String → Bool
is_base model = occurs_in "Base" model

-- `transcribe_voice_file` of voice_uploads.py: it raises where the text is blank.
abbrev pub transcribe_voice_file : (String → Option String) → String → Option String
transcribe_voice_file whisper path = elim (whisper path) [
  | none ↦ none
  | some text ↦ if is_empty (strip text) then none else some (strip text)
]

-- Lines 376-384: the reference text of an upload.
abbrev pub uploaded_text : (String → Option String) → String → String → Option String
uploaded_text whisper tmp_path ref_text =
    if is_empty (strip ref_text)
    then transcribe_voice_file whisper tmp_path
    else some (strip ref_text)

abbrev pub or_400_text : ℕ × ℕ → String → Option String → Reply Reference
or_400_text audio speaker none = http 400
or_400_text (audio, sr) speaker (some text) =
    reply (record { ref_audio = audio; ref_sr = sr; ref_text = text; speaker = speaker })

-- Lines 369-401. An error of `soundfile.read` is not caught.
abbrev pub upload_reference :
    (String → Option String) → RefAudio → String → Option (ℕ × ℕ) → String → Reply Reference
upload_reference whisper upload ref_text none speaker = http 500
upload_reference whisper upload ref_text (some audio) speaker =
    or_400_text audio speaker (uploaded_text whisper upload.tmp_path ref_text)

-- `str(name or speaker or "")`
abbrev pub first_filled : String → String → String
first_filled a b = if is_empty a then b else a

-- `str(ref_text or voice_record.get("reference_text") or "").strip()`
abbrev pub stored_text : String → Option String → String
stored_text ref_text none = strip ref_text
stored_text ref_text (some text) = strip (first_filled ref_text text)

-- Lines 413-428, where no text is there: the voice's file is transcribed and its row gets the text.
abbrev pub retranscribed : ℕ → App → Voice → ℕ → ℕ → String → Option String → Reply Reference × App
retranscribed now app v audio sr speaker none = (http 400, app)
retranscribed now app v audio sr speaker (some text) = (
  reply (record { ref_audio = audio; ref_sr = sr; ref_text = text; speaker = speaker }),
  record app { store = (update_voice_settings app.store now v.id (text_patch text)).1 },
)

-- Lines 403-428.
abbrev pub voice_reference :
    (String → Option String) → ℕ → App → PrepareForm → Reply (Voice × ℕ × ℕ) → Reply Reference × App
voice_reference whisper now app form (http status) = (http status, app)
voice_reference whisper now app form (reply (v, audio, sr)) =
    if is_empty (stored_text form.ref_text v.reference_text)
    then retranscribed now app v audio sr (first_filled v.name form.speaker)
        (transcribe_voice_file whisper v.file_path)
    else (
      reply (record {
        ref_audio = audio;
        ref_sr = sr;
        ref_text = stored_text form.ref_text v.reference_text;
        speaker = first_filled v.name form.speaker;
      }),
      app,
    )

-- `request_data`: its flag, its entries that are texts, and the others.
abbrev pub request_data_of : PrepareForm → String → Option Reference → RequestData
request_data_of form model none = record {
  cancel_event = some false;
  entries =
      ("model", model)
      ∷ ("text", form.text)
      ∷ ("language", form.language)
      ∷ ("instruction", form.instruction)
      ∷ ("speaker", form.speaker)
      ∷ ("channel_name", form.channel_name)
      ∷ ("author", form.author)
      ∷ ("user_id", form.user_id)
      ∷ ("request_id", form.request_id)
      ∷ ("event_id", form.event_id)
      ∷ [];
  temperature = some form.temperature;
  ref_audio = none;
  ref_sr = none;
}
request_data_of form model (some r) = record {
  cancel_event = some false;
  entries =
      ("model", model)
      ∷ ("text", form.text)
      ∷ ("language", form.language)
      ∷ ("instruction", form.instruction)
      ∷ ("speaker", r.speaker)
      ∷ ("channel_name", form.channel_name)
      ∷ ("author", form.author)
      ∷ ("user_id", form.user_id)
      ∷ ("request_id", form.request_id)
      ∷ ("event_id", form.event_id)
      ∷ ("ref_text", r.ref_text)
      ∷ [];
  temperature = some form.temperature;
  ref_audio = some r.ref_audio;
  ref_sr = some r.ref_sr;
}

-- What `enqueue` returned, as a response.
abbrev pub as_reply : Result Receipt → Reply Receipt
as_reply (ok receipt) = reply receipt
as_reply (raise (nano_qwen3tts_vllm.Streams.State.http status)) = http status
as_reply (raise index_error) = http 500
as_reply (raise key_error) = http 500

module _ (lower : String → String) where
  -- Lines 430-435.
  abbrev pub hand_over :
      String → ℕ → PrepareForm → String → Option Reference → App → Reply Receipt × App
  hand_over stream_id now form model reference app =
      let (receipt, scheduler) =
        enqueue lower stream_id (request_data_of form model reference) form.tenant_id
          form.channel_name now app.scheduler in
      (as_reply receipt, record app { scheduler = scheduler })

  abbrev pub hand_over_base :
      String → ℕ → PrepareForm → String → Reply Reference × App → Reply Receipt × App
  hand_over_base stream_id now form model (http status, app) = (http status, app)
  hand_over_base stream_id now form model (reply reference, app) =
      hand_over stream_id now form model (some reference) app

  module _ (exists : String → Bool) (whisper : String → Option String)
      (read_reference : String → Option (ℕ × ℕ)) (to_int : String → Option ℕ) where
    -- Lines 368-428.
    abbrev pub reference_for : ℕ → ℕ → App → PrepareForm → Option RefAudio → Reply Reference × App
    reference_for now draw app form (some upload) =
        (upload_reference whisper upload form.ref_text upload.audio form.speaker, app)
    reference_for now draw app form none = voice_reference whisper now app form (
        resolve_base_model_reference_voice lower exists read_reference draw app.store
          (to_int form.user_id) form.speaker)

    -- Lines 350-435, for the model that was resolved.
    abbrev pub prepare_for : ℕ → ℕ → String → App → PrepareForm → Resolution → Reply Receipt × App
    prepare_for now draw stream_id app form (http_error status) = (http status, app)
    prepare_for now draw stream_id app form (resolved_model model) =
        if is_base model
        then hand_over_base stream_id now form model
            (reference_for now draw app form form.ref_audio)
        else hand_over stream_id now form model none app

    unfoldable pub prepare_stream :
        (String → String)
        → (String → String)
        → ℕ
        → ℕ
        → String
        → App
        → PrepareForm
        → Reply Receipt × App
    prepare_stream path_name environment now draw stream_id app form =
        if is_positive form.temperature
        then prepare_for now draw stream_id app form (
            resolve_runtime_model_or_409 lower path_name environment form.model
              (if is_base form.model then some "base" else none))
        else (http 400, app)

-- ===== src/Streams/Prepare/Carrying.antt =====
-- What a request of `prepare_stream` carries, and what text its reference has.
use nano_qwen3tts_vllm.Common.{
  ◌≡◌, refl, ◌⊎◌, inl, inr, String, true, false, Option, none, some, is_empty, strip, if◌then◌else◌,
  string_eq, ℕ_discrete, Bool-cases, Option-cases,
}
use nano_qwen3tts_vllm.Common.Dict.{lookup}
use nano_qwen3tts_vllm.Streams.State.{RequestData}
use nano_qwen3tts_vllm.Streams.Prepare.{
  PrepareForm, Reference, transcribe_voice_file, stored_text, request_data_of,
}

-- What a request carries: the model, the text and the temperature of the form, an event that is not set,
-- and the audio, its rate, its text and the speaker of the reference, if there is one.
pub record Carries (form : PrepareForm) (model : String) (reference : Option Reference)
    (d : RequestData) : Type 0 where
  pub has_event : d.cancel_event ≡ some false
  pub has_model : lookup "model" d.entries ≡ some model
  pub has_text : lookup "text" d.entries ≡ some form.text
  pub has_temperature : d.temperature ≡ some form.temperature
  pub has_reference :
      (r : Reference)
      → reference ≡ some r
      → (d.ref_audio ≡ some r.ref_audio)
        × (d.ref_sr ≡ some r.ref_sr)
        × (lookup "ref_text" d.entries ≡ some r.ref_text)
        × (lookup "speaker" d.entries ≡ some r.speaker)
  pub has_none : reference ≡ none → (d.ref_audio ≡ none) × (lookup "ref_text" d.entries ≡ none)

pub request_data_of-Carries :
    (form : PrepareForm) (model : String) (reference : Option Reference)
    → Carries form model reference (request_data_of form model reference)
unfolding lookup string_eq ℕ_discrete
request_data_of-Carries form model none = record {
  has_event = refl;
  has_model = refl;
  has_text = refl;
  has_temperature = refl;
  has_reference = λ r e. cc;
  has_none = λ e. (refl, refl);
}
request_data_of-Carries form model (some r) = record {
  has_event = refl;
  has_model = refl;
  has_text = refl;
  has_temperature = refl;
  has_reference = λ r' e. (cc, cc, cc, cc);
  has_none = λ e. cc;
}

-- Whisper hears no text in the file.
abbrev pub IsUnheard : (String → Option String) → String → Type 0
IsUnheard whisper path =
    (whisper path ≡ none)
    ⊎ ((heard : String) × (whisper path ≡ some heard) × (is_empty (strip heard) ≡ true))

-- The text is the given one, or if that is blank what Whisper hears in the file; it is not empty.
abbrev pub IsReferenceText : (String → Option String) → String → String → String → Type 0
IsReferenceText whisper path given text =
    (is_empty text ≡ false)
    × (((is_empty (strip given) ≡ false) × (text ≡ strip given))
        ⊎ ((is_empty (strip given) ≡ true)
            × (heard : String) × (whisper path ≡ some heard)
            × (text ≡ strip heard)))

-- The text of the form, or if that is empty the voice's.
abbrev pub given_text : String → Option String → String
given_text ref_text none = ref_text
given_text ref_text (some text) = if is_empty ref_text then text else ref_text

pub transcribe-cases :
    (whisper : String → Option String) (path : String)
    → ((transcribe_voice_file whisper path ≡ none) × IsUnheard whisper path)
      ⊎ ((heard : String) × (whisper path ≡ some heard)
          × (is_empty (strip heard) ≡ false)
          × (transcribe_voice_file whisper path ≡ some (strip heard)))
transcribe-cases whisper path = elim (Option-cases (whisper path)) [
  | inl failed ↦ inl (rw (failed, transcribe_voice_file) refl, inl failed)
  | inr (heard, e) ↦ elim (Bool-cases (is_empty (strip heard))) [
    | inl blank ↦ inl (rw (e, transcribe_voice_file) (rw blank refl), inr (heard, e, blank))
    | inr filled ↦ inr (heard, e, filled, rw (e, transcribe_voice_file) (rw filled refl))
  ]
]

pub stored_text_eq :
    (ref_text : String) (text : Option String)
    → stored_text ref_text text ≡ strip (given_text ref_text text)
stored_text_eq ref_text none = refl
stored_text_eq ref_text (some text) = refl

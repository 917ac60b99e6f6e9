-- ===== src/Voices/Prepared.antt =====
-- The outcomes of an upload's preparation.
use Prim.Native.String.{◌++◌ as append}
use nano_qwen3tts_vllm.Common.{
  ℕ, ◌*◌, ◌≤◌, ◌<◌, ◌≡◌, ◌⊎◌, refl, inl, inr, String, Bool, true, false, not, ◌∷◌, Option, none,
  some, is_empty, strip, ◌==◌, ltb, nat_eq, string_eq, contains, arith, Bool-cases, Option-cases,
}
use nano_qwen3tts_vllm.Engine.Effects.{Result, ok, raise, value_error, ◌>>◌}
use nano_qwen3tts_vllm.Voices.Uploads.{
  Upload, allowed_extensions, or_one, require, check_duration, check_decoded, check_upload, Files,
  store_upload, safe_filename_part, prepare_uploaded_voice_file,
}

-- The upload is one of the audio formats, and lasts from half a second to 90 seconds.
abbrev pub IsAudio : Upload → ℕ → ℕ → Type 0
IsAudio u samples rate =
    (contains allowed_extensions u.suffix ≡ true)
    × ((u.decoded ≡ some (samples, rate))
        × ((0 < samples) × ((or_one rate ≤ 2 * samples) × (samples ≤ 90 * or_one rate))))

-- The outcomes of the checks.
data Checked (u : Upload) : Result (ℕ × ℕ) → Type 0 where
  accepted : (samples rate : ℕ) → IsAudio u samples rate → Checked u (ok (samples, rate))
  refused : Checked u (raise value_error)

require-Checked :
    (u : Upload) (b : Bool) (r : Result (ℕ × ℕ))
    → (b ≡ true → Checked u r)
    → Checked u (require b >> r)
require-Checked u true r holds = holds refl
require-Checked u false r holds = refused

module _ (u : Upload) (known : contains allowed_extensions u.suffix ≡ true) where
  check_duration-Checked :
      (samples rate : ℕ)
      → u.decoded ≡ some (samples, rate)
      → Checked u (check_duration samples rate)
  check_duration-Checked samples rate decoded = require-Checked u (not (samples == 0)) _ (λ filled.
      require-Checked u (not (ltb (2 * samples) (or_one rate))) _ (λ long.
        require-Checked u (not (ltb (90 * or_one rate) samples)) _ (λ short.
          accepted samples rate (known, (decoded, (ground arith, (ground arith, ground arith)))))))

  check_decoded-Checked : (d : Option (ℕ × ℕ)) → u.decoded ≡ d → Checked u (check_decoded d)
  check_decoded-Checked none missing = refused
  check_decoded-Checked (some (samples, rate)) decoded = check_duration-Checked samples rate decoded

check_upload-Checked : (u : Upload) → Checked u (check_upload u)
unfolding check_upload
check_upload-Checked u = require-Checked u (contains allowed_extensions u.suffix) _ (λ known.
    require-Checked u (not (u.byte_count == 0)) _
      (λ filled. check_decoded-Checked u known u.decoded refl))

-- The path of the new file.
abbrev pub path_for : String → String → String
path_for prefix unique = append (safe_filename_part prefix) (append "_" (append unique ".wav"))

-- The text is the given one without the space around it, or if nothing else is given, what was heard.
abbrev pub IsText : (String → Option String) → String → String → String → Type 0
IsText transcribe path given text =
    ((is_empty (strip given) ≡ false) × (text ≡ strip given))
    ⊎ ((is_empty (strip given) ≡ true) × (transcribe path ≡ some text))

-- What an upload leaves: nothing where it is refused; the new file and a text for it; or the new file
-- alone, where the transcription fails.
pub data Prepared (transcribe : String → Option String) (u : Upload) (path given : String)
    (files : Files) : Result (String × String) × Files → Type 0 where
  rejected : Prepared transcribe u path given files (raise value_error, files)
  prepared :
      (samples rate : ℕ) (text : String)
      → IsAudio u samples rate
      → IsText transcribe path given text
      → Prepared transcribe u path given files (ok (path, text), path ∷ files)
  left_behind :
      (samples rate : ℕ)
      → IsAudio u samples rate
      → is_empty (strip given) ≡ true
      → transcribe path ≡ none
      → Prepared transcribe u path given files (raise value_error, path ∷ files)

store_upload-Prepared :
    (transcribe : String → Option String) (u : Upload) (path given : String) (files : Files)
    (r : Result (ℕ × ℕ))
    → Checked u r
    → Prepared transcribe u path given files (store_upload transcribe path given files r)
store_upload-Prepared transcribe u path given files _ refused = rejected
store_upload-Prepared transcribe u path given files _ (accepted samples rate audio) =
    elim (Bool-cases (is_empty (strip given))) [
      | inl blank ↦ elim (Option-cases (transcribe path)) [
        | inl failed ↦ rw (blank, failed) (left_behind samples rate audio blank failed)
        | inr (text, heard) ↦
            rw (blank, heard) (prepared samples rate text audio (inr (blank, heard)))
      ]
      | inr filled ↦ rw filled (prepared samples rate (strip given) audio (inl (filled, refl)))
    ]

-- `prepare_uploaded_voice_file` either raises and leaves the files as they are; or returns the path of
-- one new file, of an upload of an allowed format which lasts from half a second to 90 seconds, with the
-- text given or transcribed; or, where the transcription fails, raises and leaves the new file behind.
pub prepare-Prepared :
    (transcribe : String → Option String) (u : Upload) (prefix unique given : String)
    (files : Files)
    → Prepared transcribe u
        (path_for prefix unique)
        given
        files
        (prepare_uploaded_voice_file transcribe u prefix unique given files)
unfolding prepare_uploaded_voice_file
prepare-Prepared transcribe u prefix unique given files =
    store_upload-Prepared transcribe u (path_for prefix unique) given files (check_upload u)
      (check_upload-Checked u)

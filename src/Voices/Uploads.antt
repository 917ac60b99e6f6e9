-- ===== src/Voices/Uploads.antt =====
-- nano_qwen3tts_vllm/voice_uploads.py: the names of voices and the checks of an upload.
use Prim.Native.Char.{code}
use Prim.Native.String.{◌++◌ as append}
use nano_qwen3tts_vllm.Common.{
  ℕ, zero, suc, ◌*◌, String, Bool, true, false, not, ◌&&◌, ◌||◌, List, [], ◌∷◌, Option, none, some,
  is_empty, strip, if◌then◌else◌, ◌==◌, ltb, leb, nat_eq, string_eq, contains,
}
use nano_qwen3tts_vllm.Engine.Effects.{Result, ok, raise, value_error, ◌>>=◌, ◌>>◌}

-- The characters that `FILENAME_PART_RE` leaves: 0-9, A-Z, a-z, U+0400 to U+04FF, `_` and `-`.
abbrev pub is_name_char : ℕ → Bool
is_name_char c =
    (leb 48 c && leb c 57)
    || ((leb 65 c && leb c 90)
        || ((leb 97 c && leb c 122) || ((leb 0x400 c && leb c 0x4ff) || (c == 95 || c == 45))))

-- `FILENAME_PART_RE.sub("_", text)`: each run of other characters becomes one `_`. The flag tells that
-- the character before was one of them.
unfoldable pub sub_runs : Bool → String → String
sub_runs in_run String.[] = String.[]
sub_runs in_run (String.◌∷◌ c s) =
    if is_name_char (code c)
    then String.◌∷◌ c (sub_runs false s)
    else (if in_run then sub_runs true s else String.◌∷◌ "_" (sub_runs true s))

-- `text.strip("_")`
unfoldable pub lstrip_underscores : String → String
lstrip_underscores String.[] = String.[]
lstrip_underscores (String.◌∷◌ c s) = if code c == 95 then lstrip_underscores s else String.◌∷◌ c s

unfoldable pub rstrip_underscores : String → String
rstrip_underscores String.[] = String.[]
rstrip_underscores (String.◌∷◌ c s) =
    let r = rstrip_underscores s in if is_empty r && code c == 95 then String.[] else String.◌∷◌ c r

-- `text[:n]`
unfoldable pub text_take : ℕ → String → String
text_take zero s = String.[]
text_take (suc n) String.[] = String.[]
text_take (suc n) (String.◌∷◌ c s) = String.◌∷◌ c (text_take n s)

-- The lines that `sanitize_voice_name` and `_safe_filename_part` share.
unfoldable pub clean_name : String → String
clean_name raw = text_take 64 (rstrip_underscores (lstrip_underscores (sub_runs false (strip raw))))

unfoldable pub sanitize_voice_name : String → Result String
sanitize_voice_name raw =
    if is_empty (clean_name raw) then raise value_error else ok (clean_name raw)

unfoldable pub safe_filename_part : String → String
safe_filename_part raw = if is_empty (clean_name raw) then "voice" else clean_name raw

abbrev pub allowed_extensions : List String
allowed_extensions =
    ".wav" ∷ ".mp3" ∷ ".flac" ∷ ".ogg" ∷ ".m4a" ∷ ".aac" ∷ ".wma" ∷ ".aiff" ∷ ".au" ∷ []

-- The uploaded file: its name's extension in lower case, the number of its bytes, and what
-- `soundfile.read` makes of them, the number of samples and the rate, or none where it raises.
pub record Upload : Type 0 where
  pub suffix : String
  pub byte_count : ℕ
  pub decoded : Option (ℕ × ℕ)

abbrev pub or_one : ℕ → ℕ
or_one zero = 1
or_one (suc n) = suc n

abbrev pub require : Bool → Result (Unit {0})
require true = ok tt
require false = raise value_error

-- Lines 102-109. Half a second and 90 seconds are compared as whole numbers of samples.
abbrev pub check_duration : ℕ → ℕ → Result (ℕ × ℕ)
check_duration samples rate = do
  require (not (samples == 0))
  require (not (ltb (2 * samples) (or_one rate)))
  require (not (ltb (90 * or_one rate) samples))
  ok (samples, rate)

abbrev pub check_decoded : Option (ℕ × ℕ) → Result (ℕ × ℕ)
check_decoded none = raise value_error
check_decoded (some (samples, rate)) = check_duration samples rate

-- Lines 86-109: the checks, in their order.
unfoldable pub check_upload : Upload → Result (ℕ × ℕ)
check_upload u = do
  require (contains allowed_extensions u.suffix)
  require (not (u.byte_count == 0))
  check_decoded u.decoded

-- The reference text that is given, or what the transcription of the new file returns, which raises
-- where it is empty.
abbrev pub resolve_text : (String → Option String) → String → String → Result String
resolve_text transcribe path reference_text =
    if is_empty (strip reference_text)
    then (elim (transcribe path) [ none ↦ raise value_error | some text ↦ ok text ])
    else ok (strip reference_text)

-- The files in the voices' directory.
abbrev pub Files : Type 0
Files = List String

-- Lines 111-119: the new file, then the text. A file that is written stays where the text fails.
abbrev pub store_upload :
    (String → Option String)
    → String
    → String
    → Files
    → Result (ℕ × ℕ)
    → Result (String × String) × Files
store_upload transcribe path reference_text files (raise e) = (raise e, files)
store_upload transcribe path reference_text files (ok audio) =
    ((do text ← resolve_text transcribe path reference_text; ok (path, text)), path ∷ files)

-- `prepare_uploaded_voice_file`, for the hexadecimal text `unique` of the new UUID.
unfoldable pub prepare_uploaded_voice_file :
    (String → Option String)
    → Upload
    → String
    → String
    → String
    → Files
    → Result (String × String) × Files
prepare_uploaded_voice_file transcribe upload filename_prefix unique reference_text files =
    store_upload transcribe
      (append (safe_filename_part filename_prefix) (append "_" (append unique ".wav")))
      reference_text files (check_upload upload)

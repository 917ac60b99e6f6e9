-- ===== src/Voices/Naming.antt =====
-- What a sanitized name consists of.
use Prim.Native.Char.{code}
use nano_qwen3tts_vllm.Common.{
  ℕ, zero, suc, ◌+◌, ◌≤◌, ◌<◌, ◌≡◌, ◌≢◌, ◌⊎◌, refl, String, Bool, true, false, ◌&&◌, is_empty,
  strip, if◌then◌else◌, ◌==◌, nat_eq, arith, Bool-cases, inl, inr, ℕ_discrete,
}
use nano_qwen3tts_vllm.Voices.Uploads.{
  is_name_char, sub_runs, lstrip_underscores, rstrip_underscores, text_take, clean_name,
  safe_filename_part,
}

unfoldable pub text_length : String → ℕ
text_length String.[] = 0
text_length (String.◌∷◌ c s) = text_length s + 1

-- Every character is one that the pattern leaves.
abbrev pub AreNameChars : String → Type 0
AreNameChars String.[] = Unit
AreNameChars (String.◌∷◌ c s) = (is_name_char (code c) ≡ true) × AreNameChars s

sub_runs-AreNameChars : (in_run : Bool) (s : String) → AreNameChars (sub_runs in_run s)
unfolding sub_runs ℕ_discrete
sub_runs-AreNameChars in_run String.[] = tt
sub_runs-AreNameChars in_run (String.◌∷◌ c s) = elim (Bool-cases (is_name_char (code c))) [
  | inl fits ↦ rw fits (fits, sub_runs-AreNameChars false s)
  | inr other ↦ rw other (replaced in_run (sub_runs-AreNameChars true s))
]
  where
    replaced :
        (b : Bool)
        → AreNameChars (sub_runs true s)
        → AreNameChars (if b then sub_runs true s else String.◌∷◌ "_" (sub_runs true s))
    replaced true rest = rest
    replaced false rest = (refl, rest)

lstrip_underscores-AreNameChars :
    (s : String) → AreNameChars s → AreNameChars (lstrip_underscores s)
unfolding lstrip_underscores
lstrip_underscores-AreNameChars String.[] fits = tt
lstrip_underscores-AreNameChars (String.◌∷◌ c s) (head, tail) = elim (Bool-cases (code c == 95)) [
  | inl bar ↦ rw bar (lstrip_underscores-AreNameChars s tail)
  | inr other ↦ rw other (head, tail)
]

rstrip_underscores-AreNameChars :
    (s : String) → AreNameChars s → AreNameChars (rstrip_underscores s)
unfolding rstrip_underscores
rstrip_underscores-AreNameChars String.[] fits = tt
rstrip_underscores-AreNameChars (String.◌∷◌ c s) (head, tail) =
    elim (Bool-cases (is_empty (rstrip_underscores s) && code c == 95)) [
      | inl bar ↦ rw bar tt
      | inr other ↦ rw other (head, rstrip_underscores-AreNameChars s tail)
    ]

text_take-AreNameChars : (n : ℕ) (s : String) → AreNameChars s → AreNameChars (text_take n s)
unfolding text_take
text_take-AreNameChars zero s fits = tt
text_take-AreNameChars (suc n) String.[] fits = tt
text_take-AreNameChars (suc n) (String.◌∷◌ c s) (head, tail) =
    (head, text_take-AreNameChars n s tail)

text_length-take : (n : ℕ) (s : String) → text_length (text_take n s) ≤ n
unfolding text_take text_length
text_length-take zero s = omega arith
text_length-take (suc n) String.[] = omega arith
text_length-take (suc n) (String.◌∷◌ c s) = let rest = text_length-take n s in omega arith

clean_name-AreNameChars : (raw : String) → AreNameChars (clean_name raw)
unfolding clean_name
clean_name-AreNameChars raw =
    text_take-AreNameChars 64 (rstrip_underscores (lstrip_underscores (sub_runs false (strip raw))))
      (rstrip_underscores-AreNameChars (lstrip_underscores (sub_runs false (strip raw))) (
        lstrip_underscores-AreNameChars (sub_runs false (strip raw))
          (sub_runs-AreNameChars false (strip raw))))

clean_name-bounded : (raw : String) → text_length (clean_name raw) ≤ 64
unfolding clean_name
clean_name-bounded raw =
    text_length-take 64 (rstrip_underscores (lstrip_underscores (sub_runs false (strip raw))))

-- A digit, a Latin letter, a character from U+0400 to U+04FF, `_` or `-`, which is no `.`, `/` or `\`.
abbrev pub IsSafeChar : ℕ → Type 0
IsSafeChar c =
    (((48 ≤ c) × (c ≤ 57))
      ⊎ ((65 ≤ c) × (c ≤ 90))
      ⊎ ((97 ≤ c) × (c ≤ 122))
      ⊎ ((1024 ≤ c) × (c ≤ 1279))
      ⊎ (c ≡ 95)
      ⊎ (c ≡ 45))
    × (c ≢ 46)
    × (c ≢ 47)
    × (c ≢ 92)

is_name_char-IsSafeChar : (c : ℕ) → is_name_char c ≡ true → IsSafeChar c
is_name_char-IsSafeChar c fits = ground arith

abbrev pub AreSafeChars : String → Type 0
AreSafeChars String.[] = Unit
AreSafeChars (String.◌∷◌ c s) = IsSafeChar (code c) × AreSafeChars s

AreNameChars-AreSafeChars : (s : String) → AreNameChars s → AreSafeChars s
AreNameChars-AreSafeChars String.[] fits = tt
AreNameChars-AreSafeChars (String.◌∷◌ c s) (head, tail) =
    (is_name_char-IsSafeChar (code c) head, AreNameChars-AreSafeChars s tail)

-- A name that is neither empty nor longer than 64 characters, all of which are safe.
abbrev pub IsSafeName : String → Type 0
IsSafeName s = (0 < text_length s) × ((text_length s ≤ 64) × AreSafeChars s)

length-is_empty : (s : String) → is_empty s ≡ false → 0 < text_length s
unfolding text_length
length-is_empty String.[] filled = ground arith
length-is_empty (String.◌∷◌ c s) filled = omega arith

-- Whatever the text, the part of a file name that is made of it has 1 to 64 characters, all of them
-- digits, Latin letters, characters from U+0400 to U+04FF, `_` or `-`. No dot, slash or backslash is
-- among them.
pub safe_filename_part-IsSafeName : (raw : String) → IsSafeName (safe_filename_part raw)
unfolding safe_filename_part text_length
safe_filename_part-IsSafeName raw = elim (Bool-cases (is_empty (clean_name raw))) [
  | inl bare ↦ rw bare (
    omega arith,
    (omega arith, AreNameChars-AreSafeChars "voice" (refl, (refl, (refl, (refl, (refl, tt)))))),
  )
  | inr filled ↦ rw filled (
    length-is_empty (clean_name raw) filled,
    (
      clean_name-bounded raw,
      AreNameChars-AreSafeChars (clean_name raw) (clean_name-AreNameChars raw),
    ),
  )
]

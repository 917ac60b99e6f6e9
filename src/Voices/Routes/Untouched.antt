-- ===== src/Voices/Routes/Untouched.antt =====
-- What the calls of the store leave alone.
use nano_qwen3tts_vllm.Common.{
  ℕ, ◌≡◌, ◌≢◌, refl, inl, inr, String, Bool, Option, none, some, length, ◌==◌, nat_eq, arith,
  Bool-cases, Option-cases,
}
use nano_qwen3tts_vllm.Common.Count.{count}
use nano_qwen3tts_vllm.Voices.Rows.{
  Voice, State, find_id, ids_of, any_conflict, is_owned_by, or_user, or_zero,
}
use nano_qwen3tts_vllm.Voices.Store.{
  get_voice_by_id, NewVoice, make_voice, create_voice, apply_patch, write_row,
  update_voice_settings, renamed, rename_voice, without_id, delete_voice,
}
use nano_qwen3tts_vllm.Voices.Finding.{
  find_id-append_one, find_id-present, find_id-update_id, find_id-without_id,
}
use nano_qwen3tts_vllm.Voices.Validity.{IsValid}
use nano_qwen3tts_vllm.Voices.Service.{
  retranscribe_voice_record, retranscribe_path, store_text, text_patch, resolve_voice_file_path,
  Reply, reply, http,
}
use nano_qwen3tts_vllm.Voices.Routes.{owned_voice}

-- A store that answers as before at an id.
abbrev pub Same : ℕ → State → State → Type 0
Same j s t = get_voice_by_id t j ≡ get_voice_by_id s j

pub write_row-Same :
    (s : State) (now i j : ℕ) (f : Voice → Voice)
    → ((v : Voice) → (f v).id ≡ v.id)
    → j ≢ i
    → Same j s (write_row s now i f).1
unfolding get_voice_by_id write_row
write_row-Same s now i j f keeps other = elim (Option-cases (find_id i s.voices)) [
  | inl missing ↦ rw (missing, write_row) refl
  | inr (v, found) ↦
      rw (found, write_row) (ground (arith, find_id-update_id f keeps i j s.voices v found))
]

pub delete_voice-Same : (s : State) (now i j : ℕ) → j ≢ i → Same j s (delete_voice s now i).1
unfolding get_voice_by_id delete_voice
delete_voice-Same s now i j other =
    elim (Bool-cases (length (without_id i s.voices) == length s.voices)) [
      | inl same ↦ rw same refl
      | inr shorter ↦ rw shorter (ground (arith, find_id-without_id i j s.voices))
    ]

pub rename_voice-Same :
    (lower : String → String) (s : State) (now i j : ℕ) (name : String)
    → j ≢ i
    → Same j s (rename_voice lower s now i name).1
unfolding rename_voice
rename_voice-Same lower s now i j name other = elim (Option-cases (find_id i s.voices)) [
  | inl missing ↦ rw missing refl
  | inr (v, found) ↦
      rw found
        (elim (Bool-cases
          (any_conflict lower s.voices name (or_user v.voice_type) v.owner_id (some i))) [
            | inl conflict ↦ rw conflict refl
            | inr free ↦ rw free (write_row-Same s now i j (renamed name) (λ w. refl) other)
          ])
]

pub retranscribe-Same :
    (inside : String → Bool) (transcribe : String → Option String) (s : State) (now i j : ℕ)
    → j ≢ i
    → Same j s (retranscribe_voice_record inside transcribe s now i).1
unfolding retranscribe_voice_record update_voice_settings
retranscribe-Same inside transcribe s now i j other = elim (Option-cases (get_voice_by_id s i)) [
  | inl missing ↦ rw missing refl
  | inr (v, found) ↦ rw found (at_path v (resolve_voice_file_path inside v))
]
  where
    stored : (v : Voice) (text : Option String) → Same j s (store_text s now i v text).1
    stored v none = refl
    stored v (some text) =
        write_row-Same s now i j (apply_patch (text_patch text)) (λ w. refl) other

    at_path :
        (v : Voice) (path : Reply String) → Same j s (retranscribe_path transcribe s now i v path).1
    at_path v (http status) = refl
    at_path v (reply path) = stored v (transcribe path)

-- The owned voice of an id is the row of that id, and its owner is the user.
pub owned_voice-found :
    (s : State) (i user_id : ℕ) (v : Voice)
    → owned_voice s i user_id ≡ some v
    → (get_voice_by_id s i ≡ some v) × (or_zero v.owner_id ≡ user_id)
unfolding owned_voice is_owned_by
owned_voice-found s i user_id v e = elim (Option-cases (get_voice_by_id s i)) [
  | inl missing ↦ ground arith
  | inr (w, found) ↦ (ground arith, ground arith)
]

pub create_voice-kept :
    (lower : String → String) (s : State) (now : ℕ) (n : NewVoice) (j : ℕ) (v : Voice)
    → IsValid lower s
    → get_voice_by_id s j ≡ some v
    → get_voice_by_id (create_voice lower s now n).1 j ≡ some v
unfolding get_voice_by_id create_voice
create_voice-kept lower s now n j v valid e =
    elim (Bool-cases (any_conflict lower s.voices n.name n.voice_type n.owner_id none)) [
      | inl conflict ↦ rw conflict e
      | inr free ↦ rw free (
          ground (
            arith,
            find_id-append_one j s.voices (make_voice s.next_id now n) fresh,
            find_id-present j s.voices v e,
            valid.below j,
          ))
    ]
  where
    fresh : count s.next_id (ids_of s.voices) ≡ 0
    fresh = ground (arith, valid.below s.next_id)

-- ===== src/Voices/Choosing.antt =====
-- Which voice `resolve_voice_record_for_user` takes.
use nano_qwen3tts_vllm.Common.{
  ℕ, ◌≡◌, false, contains, String, Bool, true, List, ◌∷◌, Option, none, some, nat_eq, string_eq,
}
use nano_qwen3tts_vllm.Voices.Rows.{Voice, State, is_for, is_usable_voice}
use nano_qwen3tts_vllm.Voices.Store.{get_enabled_voice_ids}
use nano_qwen3tts_vllm.Voices.Picking.{named_voice, or_default, or_voice}
use nano_qwen3tts_vllm.Voices.Filtering.{In}

-- The voice is stored, it is active and has its file, and it is global or the user's own.
pub record IsOffered (exists : String → Bool) (s : State) (user_id : Option ℕ) (v : Voice)
    : Type 0 where
  pub stored : In v s.voices
  pub usable : is_usable_voice exists v ≡ true
  pub for_user : is_for user_id v ≡ true

-- The user has enabled voices; the voice is none of them, and an active one for the user is.
abbrev pub IsDisabled : State → Option ℕ → Voice → Type 0
IsDisabled s user_id v =
    (u : ℕ) × (user_id ≡ some u)
    × (contains (get_enabled_voice_ids s u) v.id ≡ false)
    × (w : Voice) × In w s.voices
    × (w.is_active ≡ true)
    × (is_for user_id w ≡ true)
    × (contains (get_enabled_voice_ids s u) w.id ≡ true)

module _ (lower : String → String) (requested : String) (x : Voice) (xs : List Voice) where
  abbrev named_or_default : Voice
  named_or_default = or_voice (named_voice lower requested (x ∷ xs)) (or_default lower x (x ∷ xs))

-- The outcomes of a choice: none where no voice is on offer but those that the user has not enabled
-- beside others, and otherwise a voice on offer.
pub data Resolves (exists : String → Bool) (s : State) (user_id : Option ℕ)
    : Option Voice → Type 0 where
  nothing_offered :
      ((v : Voice) → IsOffered exists s user_id v → IsDisabled s user_id v)
      → Resolves exists s user_id none
  resolved : (v : Voice) → IsOffered exists s user_id v → Resolves exists s user_id (some v)

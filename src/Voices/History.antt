-- ===== src/Voices/History.antt =====
-- Every sequence of calls on the store.
use nano_qwen3tts_vllm.Common.{ℕ, String, Bool, List, Option, none, some}
use nano_qwen3tts_vllm.Voices.Rows.{State, init}
use nano_qwen3tts_vllm.Voices.Store.{
  NewVoice, create_voice, Patch, update_voice_settings, rename_voice, toggle_voice, delete_voice,
  set_enabled_voice_ids, toggle_enabled_voice_id, toggle_write, toggle_read, get_enabled_voice_ids,
}
use nano_qwen3tts_vllm.Voices.Validity.{
  IsValid, init-IsValid, create_voice-IsValid, update_voice_settings-IsValid, rename_voice-IsValid,
  toggle_voice-IsValid, delete_voice-IsValid, set_enabled-IsValid,
}

-- A method that writes. The two halves of `toggle_enabled_voice_id` may see two states, `earlier` being
-- any one.
pub data Step (lower : String → String) (s : State) : State → Type 0 where
  creates : (now : ℕ) (n : NewVoice) → Step lower s (create_voice lower s now n).1
  updates :
      (now voice_id : ℕ) (patch : Patch)
      → Step lower s (update_voice_settings s now voice_id patch).1
  renames :
      (now voice_id : ℕ) (name : String) → Step lower s (rename_voice lower s now voice_id name).1
  toggles : (now voice_id : ℕ) → Step lower s (toggle_voice s now voice_id).1
  deletes : (now voice_id : ℕ) → Step lower s (delete_voice s now voice_id).1
  enables :
      (now user_id : ℕ) (ids : List ℕ) → Step lower s (set_enabled_voice_ids s now user_id ids).1
  switches :
      (earlier : State) (now user_id voice_id : ℕ) (on : Bool)
      → Step lower s (toggle_enabled_voice_id earlier s now user_id voice_id on).1

pub data Reach (lower : String → String) (s : State) : State → Type 0 where
  initial : Reach lower s s
  next : {t u : State} → Reach lower s t → Step lower t u → Reach lower s u

toggle_write-IsValid :
    (lower : String → String) (s : State) (now user_id : ℕ) (current : List ℕ)
    (read : Option (List ℕ))
    → IsValid lower s
    → IsValid lower (toggle_write s now user_id current read).1
toggle_write-IsValid lower s now user_id current none valid = valid
toggle_write-IsValid lower s now user_id current (some ids) valid =
    set_enabled-IsValid lower s valid now user_id ids

Step-IsValid :
    (lower : String → String) (s t : State) → Step lower s t → IsValid lower s → IsValid lower t
unfolding toggle_enabled_voice_id
Step-IsValid lower s t (creates now n) valid = create_voice-IsValid lower s valid now n
Step-IsValid lower s t (updates now i patch) valid =
    update_voice_settings-IsValid lower s valid now i patch
Step-IsValid lower s t (renames now i name) valid = rename_voice-IsValid lower s valid now i name
Step-IsValid lower s t (toggles now i) valid = toggle_voice-IsValid lower s valid now i
Step-IsValid lower s t (deletes now i) valid = delete_voice-IsValid lower s valid now i
Step-IsValid lower s t (enables now user_id ids) valid =
    set_enabled-IsValid lower s valid now user_id ids
Step-IsValid lower s t (switches earlier now user_id i on) valid =
    toggle_write-IsValid lower s now user_id (get_enabled_voice_ids earlier user_id)
      (toggle_read earlier user_id i on) valid

pub Reach-IsValid :
    (lower : String → String) (s t : State) → IsValid lower s → Reach lower s t → IsValid lower t
Reach-IsValid lower s t valid initial = valid
Reach-IsValid lower s t valid (next {t = u} r step) =
    Step-IsValid lower u t step (Reach-IsValid lower s u valid r)

-- After any sequence of calls on a new store, ids are unique and below the next one, and no two
-- voices' names clash.
pub store-IsValid :
    (lower : String → String) (now : ℕ) (s : State) → Reach lower (init now) s → IsValid lower s
store-IsValid lower now s = Reach-IsValid lower (init now) s (init-IsValid lower now)

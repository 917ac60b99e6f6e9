-- ===== src/Voices/Effects.antt =====
-- What each call of the store does to the map from ids to voices, by its answer.
use nano_qwen3tts_vllm.Common.{
  ℕ, ◌≡◌, ◌≢◌, String, Bool, true, false, not, Option, none, some, if◌then◌else◌, ◌==◌, nat_eq,
}
use nano_qwen3tts_vllm.Engine.Effects.{Result, ok, raise, value_error}
use nano_qwen3tts_vllm.Voices.Filtering.{In}
use nano_qwen3tts_vllm.Voices.Rows.{Voice, State, names_clash, or_user}
use nano_qwen3tts_vllm.Voices.Store.{
  get_voice_by_id, NewVoice, create_voice, Patch, update_voice_settings, rename_voice, toggle_voice,
  delete_voice,
}
use nano_qwen3tts_vllm.Voices.History.{
  Step, creates, updates, renames, toggles, deletes, enables, switches,
}

-- The abstract store.
abbrev pub VoiceMap : Type 0
VoiceMap = ℕ → Option Voice

abbrev pub map_of : State → VoiceMap
map_of s i = get_voice_by_id s i

abbrev pub Stays : VoiceMap → VoiceMap → Type 0
Stays m m' = (j : ℕ) → m' j ≡ m j

-- A stored voice other than the excluded one has a name that clashes.
abbrev pub IsTaken : (String → String) → State → String → String → Option ℕ → Option ℕ → Type 0
IsTaken lower s name voice_type owner_id exclude_id =
    (w : Voice) × In w s.voices
    × (names_clash lower w name voice_type owner_id ≡ true)
    × (exclude_id ≢ some w.id)

-- What `create_voice` does, by its answer: it adds the voice under an id that has none, or changes nothing
-- where the name is taken.
pub data Creates (lower : String → String) (s : State) (n : NewVoice) (m m' : VoiceMap)
    : Result Voice → Type 0 where
  created :
      (v : Voice)
      → m v.id ≡ none
      → v.name ≡ n.name
      → v.owner_id ≡ n.owner_id
      → v.voice_type ≡ n.voice_type
      → v.file_path ≡ n.file_path
      → v.is_active ≡ true
      → ((j : ℕ) → m' j ≡ (if j == v.id then some v else m j))
      → Creates lower s n m m' (ok v)
  refused :
      IsTaken lower s n.name n.voice_type n.owner_id none
      → Stays m m'
      → Creates lower s n m m' (raise value_error)

-- What a write does, by its answer: it puts a voice `w` in the place of the voice `v` under the id, where
-- `R v w`, or changes nothing where there is none.
pub data Writes (R : Voice → Voice → Type 0) (i : ℕ) (m m' : VoiceMap) : Option Voice → Type 0 where
  absent : m i ≡ none → Stays m m' → Writes R i m m' none
  written :
      (v w : Voice)
      → m i ≡ some v
      → R v w
      → ((j : ℕ) → m' j ≡ (if j == i then some w else m j))
      → Writes R i m m' (some w)

-- A key of a patch that is there is taken, and one that is missing leaves the field.
abbrev pub Takes : {A : Type 0} → Option A → A → A → Type 0
Takes key old now = ((new : _) → key ≡ some new → now ≡ new) × (key ≡ none → now ≡ old)

-- The settings of a voice are those of the patch, and nothing else of it changes.
abbrev pub IsPatched : Patch → Voice → Voice → Type 0
IsPatched p v w =
    Takes p.reference_text v.reference_text w.reference_text
    × Takes p.cfg_strength v.cfg_strength w.cfg_strength
    × Takes p.speed_preset v.speed_preset w.speed_preset
    × (w ≡ record v {
      reference_text = w.reference_text;
      cfg_strength = w.cfg_strength;
      speed_preset = w.speed_preset;
    })

pub data Renames (lower : String → String) (s : State) (i : ℕ) (name : String) (m m' : VoiceMap)
    : Result (Option Voice) → Type 0 where
  renamed_to :
      (r : Option Voice)
      → Writes (λ v w. w ≡ record v { name = name }) i m m' r
      → Renames lower s i name m m' (ok r)
  refused_for :
      (v : Voice)
      → m i ≡ some v
      → IsTaken lower s name (or_user v.voice_type) v.owner_id (some i)
      → Stays m m'
      → Renames lower s i name m m' (raise value_error)

pub data Removes (i : ℕ) (m m' : VoiceMap) : Bool → Type 0 where
  removed :
      (v : Voice)
      → m i ≡ some v
      → ((j : ℕ) → m' j ≡ (if j == i then none else m j))
      → Removes i m m' true
  nothing_there : m i ≡ none → Stays m m' → Removes i m m' false

-- What each call does to the map, by the answer that it gives.
abbrev pub MapStep : (lower : String → String) (s t : State) → Step lower s t → Type 0
MapStep lower s t (creates now n) =
    Creates lower s n (map_of s) (map_of t) (create_voice lower s now n).0
MapStep lower s t (updates now i patch) =
    Writes (IsPatched patch) i (map_of s) (map_of t) (update_voice_settings s now i patch).0
MapStep lower s t (renames now i name) =
    Renames lower s i name (map_of s) (map_of t) (rename_voice lower s now i name).0
MapStep lower s t (toggles now i) =
    Writes (λ v w. w ≡ record v { is_active = not v.is_active }) i (map_of s) (map_of t)
      (toggle_voice s now i).0
MapStep lower s t (deletes now i) = Removes i (map_of s) (map_of t) (delete_voice s now i).0
MapStep lower s t (enables now user_id ids) = Stays (map_of s) (map_of t)
MapStep lower s t (switches earlier now user_id i on) = Stays (map_of s) (map_of t)

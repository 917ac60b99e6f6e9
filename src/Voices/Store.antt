-- ===== src/Voices/Store.antt =====
-- The methods of `FileVoiceStore`, nano_qwen3tts_vllm/voice_store.py, but the choice of a voice, which
-- is in Voices/Picking. Each reads the state file and those that change it write it whole, under
-- the lock, so that a method is a function of the document.
use nano_qwen3tts_vllm.Common.{
  ℕ, ◌+◌, String, Bool, true, false, not, ◌&&◌, List, [], ◌∷◌, ◌++◌, Option, none, some, length,
  if◌then◌else◌, ◌==◌, ltb, string_eq, nat_eq, contains,
}
use nano_qwen3tts_vllm.Common.Dict.{lookup, insert}
use nano_qwen3tts_vllm.Engine.Effects.{Result, ok, raise, value_error}
use nano_qwen3tts_vllm.Voices.Rows.{
  Voice, State, or_user, is_global, is_owned_by, is_visible_voice, filter, find_id, update_id,
  ids_of, active_voices_for_user, or_empty, find_by_name, any_conflict,
}

unfoldable pub list_global_voices : State → List Voice
list_global_voices s = filter (λ v. is_global v && is_visible_voice v) s.voices

unfoldable pub list_user_voices : State → ℕ → List Voice
list_user_voices s user_id = filter (λ v. is_owned_by user_id v && is_visible_voice v) s.voices

abbrev pub list_available_voices : State → Option ℕ → List Voice
list_available_voices s user_id = active_voices_for_user s user_id

abbrev pub list_all_voices : State → List Voice
list_all_voices s = s.voices

unfoldable pub get_voice_by_id : State → ℕ → Option Voice
get_voice_by_id s voice_id = find_id voice_id s.voices

unfoldable pub get_voice_by_name : (String → String) → State → String → Option ℕ → Option Voice
get_voice_by_name lower s name user_id = find_by_name lower name (active_voices_for_user s user_id)

-- What `create_voice` is given.
pub record NewVoice : Type 0 where
  pub name : String
  pub owner_id : Option ℕ
  pub voice_type : String
  pub file_path : String
  pub is_public : Bool
  pub reference_text : Option String
  pub cfg_strength : Option String
  pub speed_preset : Option String

abbrev pub make_voice : ℕ → ℕ → NewVoice → Voice
make_voice voice_id now n = record {
  id = voice_id;
  name = n.name;
  file_path = n.file_path;
  voice_type = n.voice_type;
  owner_id = n.owner_id;
  is_public = n.is_public;
  is_active = true;
  reference_text = n.reference_text;
  created_at = now;
  cfg_strength = n.cfg_strength;
  speed_preset = n.speed_preset;
  enabled_user_ids = [];
}

-- Lines 101-119.
abbrev pub append_voice : State → ℕ → Voice → State
append_voice s now v = record s {
  next_id = s.next_id + 1;
  updated_at = now;
  voices = s.voices ++ v ∷ [];
}

unfoldable pub create_voice : (String → String) → State → ℕ → NewVoice → Result Voice × State
create_voice lower s now n =
    if any_conflict lower s.voices n.name n.voice_type n.owner_id none
    then (raise value_error, s)
    else (ok (make_voice s.next_id now n), append_voice s now (make_voice s.next_id now n))

-- The keys that `update_voice_settings` reads of its patch: none where the key is missing.
pub record Patch : Type 0 where
  pub reference_text : Option (Option String)
  pub cfg_strength : Option (Option String)
  pub speed_preset : Option (Option String)

abbrev pub patched : {A : Type 0} → Option A → A → A
patched none old = old
patched (some new) old = new

abbrev pub apply_patch : Patch → Voice → Voice
apply_patch p v = record v {
  reference_text = patched p.reference_text v.reference_text;
  cfg_strength = patched p.cfg_strength v.cfg_strength;
  speed_preset = patched p.speed_preset v.speed_preset;
}

-- A write to the row of an id, as the methods do it: without such a row they write nothing.
unfoldable pub write_row : State → ℕ → ℕ → (Voice → Voice) → Option Voice × State
write_row s now voice_id f = elim (find_id voice_id s.voices) [
  | none ↦ (none, s)
  | some v ↦ (some (f v), record s { updated_at = now; voices = update_id voice_id f s.voices })
]

unfoldable pub update_voice_settings : State → ℕ → ℕ → Patch → Option Voice × State
update_voice_settings s now voice_id patch = write_row s now voice_id (apply_patch patch)

abbrev pub renamed : String → Voice → Voice
renamed new_name v = record v { name = new_name }

abbrev pub toggled : Voice → Voice
toggled v = record v { is_active = not v.is_active }

abbrev pub succeed : {A : Type 0} → A × State → Result A × State
succeed (a, s) = (ok a, s)

abbrev pub rename_found :
    (String → String) → State → ℕ → ℕ → String → Option Voice → Result (Option Voice) × State
rename_found lower s now voice_id new_name none = (ok none, s)
rename_found lower s now voice_id new_name (some target) =
    if any_conflict lower s.voices new_name (or_user target.voice_type) target.owner_id
      (some voice_id)
    then (raise value_error, s)
    else succeed (write_row s now voice_id (renamed new_name))

unfoldable pub rename_voice :
    (String → String) → State → ℕ → ℕ → String → Result (Option Voice) × State
rename_voice lower s now voice_id new_name =
    rename_found lower s now voice_id new_name (find_id voice_id s.voices)

unfoldable pub toggle_voice : State → ℕ → ℕ → Option Voice × State
toggle_voice s now voice_id = write_row s now voice_id toggled

unfoldable pub without_id : ℕ → List Voice → List Voice
without_id voice_id vs = filter (λ v. not (v.id == voice_id)) vs

unfoldable pub delete_voice : State → ℕ → ℕ → Bool × State
delete_voice s now voice_id =
    if length (without_id voice_id s.voices) == length s.voices
    then (false, s)
    else (true, record s { updated_at = now; voices = without_id voice_id s.voices })

unfoldable pub get_enabled_voice_ids : State → ℕ → List ℕ
get_enabled_voice_ids s user_id = or_empty (lookup user_id s.enabled)

-- `sorted` of a set: each id once, in order.
unfoldable pub insert_sorted : ℕ → List ℕ → List ℕ
insert_sorted i [] = i ∷ []
insert_sorted i (j ∷ js) =
    if ltb i j then i ∷ j ∷ js else (if i == j then j ∷ js else j ∷ insert_sorted i js)

unfoldable pub sorted_valid : List ℕ → List ℕ → List ℕ
sorted_valid valid_ids [] = []
sorted_valid valid_ids (i ∷ is) =
    let rest = sorted_valid valid_ids is in
    if contains valid_ids i then insert_sorted i rest else rest

unfoldable pub set_enabled_voice_ids : State → ℕ → ℕ → List ℕ → List ℕ × State
set_enabled_voice_ids s now user_id voice_ids =
    let filtered = sorted_valid (ids_of s.voices) voice_ids in
    (filtered, record s { updated_at = now; enabled = insert user_id filtered s.enabled })

-- `sorted` of all ids of a list.
unfoldable pub sorted_ids : List ℕ → List ℕ
sorted_ids [] = []
sorted_ids (i ∷ is) = insert_sorted i (sorted_ids is)

-- The set `current` with or without the id.
unfoldable pub discard : ℕ → List ℕ → List ℕ
discard i [] = []
discard i (j ∷ js) = let rest = discard i js in if j == i then rest else j ∷ rest

-- The first half of `toggle_enabled_voice_id`, which holds no lock: the list to be stored, or none
-- where the voice is unknown.
unfoldable pub toggle_read : State → ℕ → ℕ → Bool → Option (List ℕ)
toggle_read s user_id voice_id is_enabled =
    let current = get_enabled_voice_ids s user_id in
    if contains (ids_of s.voices) voice_id
    then some (sorted_ids (if is_enabled then voice_id ∷ current else discard voice_id current))
    else none

-- `toggle_enabled_voice_id`, with the state `later` that its second half finds.
abbrev pub toggle_write : State → ℕ → ℕ → List ℕ → Option (List ℕ) → List ℕ × State
toggle_write later now user_id current none = (sorted_ids current, later)
toggle_write later now user_id current (some ids) = set_enabled_voice_ids later now user_id ids

unfoldable pub toggle_enabled_voice_id : State → State → ℕ → ℕ → ℕ → Bool → List ℕ × State
toggle_enabled_voice_id s later now user_id voice_id is_enabled =
    toggle_write later now user_id (get_enabled_voice_ids s user_id)
      (toggle_read s user_id voice_id is_enabled)

pub record Stats : Type 0 where
  pub total_voices : ℕ
  pub global_voices : ℕ
  pub user_voices : ℕ
  pub active_voices : ℕ
  pub updated_at : ℕ

unfoldable pub stats : State → ℕ → Stats
stats s now = record {
  total_voices = length s.voices;
  global_voices = length (filter is_global s.voices);
  user_voices = length (filter (λ v. not (is_global v)) s.voices);
  active_voices = length (filter is_visible_voice s.voices);
  updated_at = now;
}

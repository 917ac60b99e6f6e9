-- ===== src/Voices/Rows.antt =====
-- The rows of nano_qwen3tts_vllm/voice_store.py and the tests on them (lines 276-344). Parameters are
-- `lower`, for `str.lower`, and `exists`, for `Path(text).expanduser().resolve().exists()`, which is
-- false where it raises.
use nano_qwen3tts_vllm.Common.{
  ℕ, String, Bool, false, not, ◌&&◌, ◌||◌, List, [], ◌∷◌, Option, none, some, is_empty, strip,
  if◌then◌else◌, ◌==◌, string_eq, nat_eq, contains,
}
use nano_qwen3tts_vllm.Common.Dict.{Dict, lookup}

-- `cfg_strength` is a number's JSON text, and times are whole ticks.
pub record Voice : Type 0 where
  pub id : ℕ
  pub name : String
  pub file_path : String
  pub voice_type : String
  pub owner_id : Option ℕ
  pub is_public : Bool
  pub is_active : Bool
  pub reference_text : Option String
  pub created_at : ℕ
  pub cfg_strength : Option String
  pub speed_preset : Option String
  pub enabled_user_ids : List ℕ

-- The document of the state file; its user ids are numbers in place of their texts.
pub record State : Type 0 where
  pub next_id : ℕ
  pub updated_at : ℕ
  pub voices : List Voice
  pub enabled : Dict ℕ (List ℕ)

-- The document that the constructor writes.
unfoldable pub init : ℕ → State
init now = record { next_id = 1; updated_at = now; voices = []; enabled = [] }

-- `int(value or 0)`
abbrev pub or_zero : Option ℕ → ℕ
or_zero none = 0
or_zero (some n) = n

-- `str(value or "user")`
abbrev pub or_user : String → String
or_user text = if is_empty text then "user" else text

abbrev pub is_global : Voice → Bool
is_global v = v.voice_type == "global"

unfoldable pub is_owned_by : ℕ → Voice → Bool
is_owned_by user_id v = or_zero v.owner_id == user_id

-- `_is_visible_voice`
abbrev pub is_visible_voice : Voice → Bool
is_visible_voice v = v.is_active

-- `_has_reference_file`
unfoldable pub has_reference_file : (String → Bool) → Voice → Bool
has_reference_file exists v = not (is_empty (strip v.file_path)) && exists (strip v.file_path)

-- `_is_usable_voice`
unfoldable pub is_usable_voice : (String → Bool) → Voice → Bool
is_usable_voice exists v = is_visible_voice v && has_reference_file exists v

unfoldable pub filter : (Voice → Bool) → List Voice → List Voice
filter p [] = []
filter p (v ∷ vs) = let rest = filter p vs in if p v then v ∷ rest else rest

-- The first row with an id, and a write to it.
unfoldable pub find_id : ℕ → List Voice → Option Voice
find_id i [] = none
find_id i (v ∷ vs) = if v.id == i then some v else find_id i vs

unfoldable pub update_id : ℕ → (Voice → Voice) → List Voice → List Voice
update_id i f [] = []
update_id i f (v ∷ vs) = if v.id == i then f v ∷ vs else v ∷ update_id i f vs

unfoldable pub ids_of : List Voice → List ℕ
ids_of [] = []
ids_of (v ∷ vs) = v.id ∷ ids_of vs

-- Whether a user meets a voice: the global ones and those of the user.
unfoldable pub is_for : Option ℕ → Voice → Bool
is_for none v = is_global v
is_for (some user_id) v = is_global v || is_owned_by user_id v

-- `_active_voices_for_user`
unfoldable pub active_voices_for_user : State → Option ℕ → List Voice
active_voices_for_user s user_id = filter (is_for user_id) (filter is_visible_voice s.voices)

-- The list of a user in `enabled`, which is empty where there is none.
abbrev pub or_empty : Option (List ℕ) → List ℕ
or_empty none = []
or_empty (some ids) = ids

abbrev pub by_enabled : List ℕ → List Voice → List Voice
by_enabled [] voices = voices
by_enabled (i ∷ ids) voices = filter (λ v. contains (i ∷ ids) v.id) voices

-- `_filter_by_enabled`
unfoldable pub filter_by_enabled : State → Option ℕ → List Voice → List Voice
filter_by_enabled s none voices = voices
filter_by_enabled s (some user_id) voices = by_enabled (or_empty (lookup user_id s.enabled)) voices

-- The types' word for a comparison: `str(value or "user").strip().lower()`.
unfoldable pub type_word : (String → String) → String → String
type_word lower voice_type = lower (strip (or_user voice_type))

unfoldable pub name_word : (String → String) → String → String
name_word lower name = lower (strip name)

-- `_find_by_name`
unfoldable pub find_by_name : (String → String) → String → List Voice → Option Voice
find_by_name lower name [] = none
find_by_name lower name (v ∷ vs) =
    if name_word lower v.name == name_word lower name then some v else find_by_name lower name vs

abbrev pub is_excluded : Option ℕ → ℕ → Bool
is_excluded none i = false
is_excluded (some j) i = i == j

-- Lines 332-344: two voices of one name, of which one is global or which have one owner.
unfoldable pub names_clash : (String → String) → Voice → String → String → Option ℕ → Bool
names_clash lower existing candidate_name candidate_type candidate_owner_id =
    name_word lower existing.name == name_word lower candidate_name
    && (type_word lower candidate_type == "global"
        || (type_word lower existing.voice_type == "global"
            || or_zero existing.owner_id == or_zero candidate_owner_id))

-- `_is_name_conflict`
unfoldable pub is_name_conflict :
    (String → String) → Voice → String → String → Option ℕ → Option ℕ → Bool
is_name_conflict lower existing candidate_name candidate_type candidate_owner_id exclude_id =
    not (is_excluded exclude_id existing.id)
    && names_clash lower existing candidate_name candidate_type candidate_owner_id

-- The loop over the rows that looks for a conflict.
unfoldable pub any_conflict :
    (String → String) → List Voice → String → String → Option ℕ → Option ℕ → Bool
any_conflict lower [] name voice_type owner_id exclude_id = false
any_conflict lower (v ∷ vs) name voice_type owner_id exclude_id =
    is_name_conflict lower v name voice_type owner_id exclude_id
    || any_conflict lower vs name voice_type owner_id exclude_id

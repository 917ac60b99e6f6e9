-- ===== src/Voices/Tests.antt =====
-- A store with a global voice and a user's, and requests on it.
use nano_qwen3tts_vllm.Common.{
  ℕ, ◌≡◌, refl, String, Bool, true, false, [], ◌∷◌, Option, none, some, is_space, lstrip, rstrip,
  strip, string_eq, nat_eq, ℕ_discrete, arith,
}
use nano_qwen3tts_vllm.Common.Dict.{lookup, insert}
use nano_qwen3tts_vllm.Engine.Effects.{ok}
use nano_qwen3tts_vllm.Voices.Rows.{
  Voice, State, init, is_owned_by, has_reference_file, is_usable_voice, filter, find_id, update_id,
  ids_of, is_for, active_voices_for_user, filter_by_enabled, type_word, name_word, find_by_name,
  names_clash, is_name_conflict, any_conflict,
}
use nano_qwen3tts_vllm.Voices.Store.{
  get_voice_by_id, NewVoice, make_voice, create_voice, write_row, delete_voice, without_id,
  get_enabled_voice_ids, insert_sorted, sorted_valid, set_enabled_voice_ids,
}
use nano_qwen3tts_vllm.Voices.Picking.{usable_pool, resolve_voice_record_for_user}
use nano_qwen3tts_vllm.Voices.Validity.{IsValid}
use nano_qwen3tts_vllm.Voices.History.{Reach, initial, next, creates, deletes, store-IsValid}
use nano_qwen3tts_vllm.Voices.Mapping.{Step-MapStep}
use nano_qwen3tts_vllm.Voices.Effects.{MapStep}
use nano_qwen3tts_vllm.Voices.Uploads.{
  sub_runs, lstrip_underscores, rstrip_underscores, text_take, clean_name, sanitize_voice_name,
  safe_filename_part, Upload, check_upload, prepare_uploaded_voice_file,
}
use nano_qwen3tts_vllm.Voices.Naming.{IsSafeName, safe_filename_part-IsSafeName}
use nano_qwen3tts_vllm.Voices.Prepared.{Prepared, path_for, prepare-Prepared}
use nano_qwen3tts_vllm.Voices.Service.{reply, World, unlink}
use nano_qwen3tts_vllm.Voices.Routes.{owned_voice, delete_user_voice}
use nano_qwen3tts_vllm.Voices.Routes.Isolation.{UserCall-kept, deletes}
use nano_qwen3tts_vllm.Voices.Routes.Requests.{none_yet, one_more, admin_toggles, Calls-IsValid}
use nano_qwen3tts_vllm.Voices.Routes.Admin.{toggle_admin_voice}

-- Names everything that a run computes with.
run : Unit {0}
unfolding is_space lstrip rstrip strip string_eq ℕ_discrete lookup insert init is_owned_by
    has_reference_file is_usable_voice filter find_id update_id ids_of is_for active_voices_for_user
    filter_by_enabled type_word name_word find_by_name names_clash is_name_conflict any_conflict
    get_voice_by_id create_voice write_row delete_voice without_id get_enabled_voice_ids
    insert_sorted sorted_valid set_enabled_voice_ids usable_pool resolve_voice_record_for_user
    sub_runs lstrip_underscores rstrip_underscores text_take clean_name sanitize_voice_name
    safe_filename_part check_upload prepare_uploaded_voice_file unlink owned_voice delete_user_voice
    toggle_admin_voice
run = tt

abbrev same_text : String → String
same_text s = s

abbrev always : String → Bool
always s = true

abbrev hears : String → Option String
hears path = some "hello"

abbrev one_word : ℕ → String
one_word n = "7"

abbrev anna : NewVoice
anna = record {
  name = "Anna";
  owner_id = none;
  voice_type = "global";
  file_path = "global_Anna_1.wav";
  is_public = true;
  reference_text = some "hello";
  cfg_strength = none;
  speed_preset = none;
}

abbrev boris : NewVoice
boris = record anna {
  name = "Boris";
  owner_id = some 7;
  voice_type = "user";
  file_path = "user_7_Boris_1.wav";
  is_public = false;
}

-- `abbrev` would compute these stores again at each use.
unfoldable one_voice : State
one_voice = (create_voice same_text (init 0) 1 anna).1

unfoldable two_voices : State
two_voices = (create_voice same_text one_voice 2 boris).1

abbrev world : World
world = record { store = two_voices; files = "global_Anna_1.wav" ∷ "user_7_Boris_1.wav" ∷ [] }

abbrev row : ℕ → ℕ → NewVoice → Voice
row i now n = make_voice i now n

two_voices-Reach : Reach same_text (init 0) two_voices
unfolding one_voice two_voices
two_voices-Reach = next (next initial (creates 1 anna)) (creates 2 boris)

store-IsValid_example : IsValid same_text two_voices
store-IsValid_example = store-IsValid same_text 0 two_voices two_voices-Reach

-- The same for the other tests.
two_voices-IsValid : IsValid same_text two_voices
two_voices-IsValid = store-IsValid same_text 0 two_voices two_voices-Reach

boris_found : get_voice_by_id two_voices 2 ≡ some (row 2 2 boris)
unfolding run one_voice two_voices
boris_found = refl

Step-MapStep_example : MapStep same_text two_voices (delete_voice two_voices 3 2).1 (deletes 3 2)
Step-MapStep_example =
    Step-MapStep same_text two_voices (delete_voice two_voices 3 2).1 two_voices-IsValid
      (deletes 3 2)

UserCall-kept_example :
    get_voice_by_id (delete_user_voice always world 3 2 9).1.store 2 ≡ some (row 2 2 boris)
UserCall-kept_example =
    UserCall-kept same_text always hears one_word 9 world (delete_user_voice always world 3 2 9).1 2
      (row 2 2 boris) two_voices-IsValid (deletes 3 2) boris_found (ground arith)

-- A user's own voice goes, and its file with it.
own_voice_deleted :
    ((delete_user_voice always world 3 2 7).0 ≡ reply true)
    × ((delete_user_voice always world 3 2 7).1.files ≡ "global_Anna_1.wav" ∷ [])
unfolding run one_voice two_voices
own_voice_deleted = (refl, refl)

-- The user id 0 owns the global voices.
global_voice_deleted : (delete_user_voice always world 3 1 0).0 ≡ reply true
unfolding run one_voice two_voices
global_voice_deleted = refl

Calls-IsValid_example : IsValid same_text (toggle_admin_voice world 3 1).1.store
Calls-IsValid_example =
    Calls-IsValid same_text always hears one_word world (toggle_admin_voice world 3 1).1
      (one_more none_yet (admin_toggles 3 1)) two_voices-IsValid

named_is_taken :
    resolve_voice_record_for_user same_text always 0 two_voices (some 7) "Boris"
    ≡ some (row 2 2 boris)
unfolding run one_voice two_voices
named_is_taken = refl

enabled_are_read :
    get_enabled_voice_ids (set_enabled_voice_ids two_voices 3 7 (2 ∷ 5 ∷ 1 ∷ 2 ∷ [])).1 7
    ≡ 1 ∷ 2 ∷ []
unfolding run one_voice two_voices
enabled_are_read = refl

names_are_cleaned : sanitize_voice_name " ../My voice!_ " ≡ ok "My_voice"
unfolding run
names_are_cleaned = refl

safe_filename_part-IsSafeName_example : IsSafeName (safe_filename_part "../../etc/passwd")
safe_filename_part-IsSafeName_example = safe_filename_part-IsSafeName "../../etc/passwd"

abbrev two_seconds : Upload
two_seconds = record { suffix = ".wav"; byte_count = 96044; decoded = some (48000, 24000) }

upload_is_stored :
    prepare_uploaded_voice_file hears two_seconds "user_7_Boris" "ab" " " []
    ≡ (ok ("user_7_Boris_ab.wav", "hello"), "user_7_Boris_ab.wav" ∷ [])
unfolding run
upload_is_stored = refl

prepare-Prepared_example :
    Prepared hears two_seconds
      (path_for "user_7_Boris" "ab")
      " "
      []
      (prepare_uploaded_voice_file hears two_seconds "user_7_Boris" "ab" " " [])
prepare-Prepared_example = prepare-Prepared hears two_seconds "user_7_Boris" "ab" " " []

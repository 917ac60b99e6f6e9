-- ===== src/Voices/Mapping.antt =====
-- The store as a map from ids to voices, which is what its clients know of it.
use nano_qwen3tts_vllm.Common.{
  ℕ, ◌≤◌, ◌<◌, ◌≡◌, ◌≢◌, refl, inl, inr, String, true, false, not, List, [], ◌∷◌, Option, none,
  some, length, ◌==◌, nat_eq, arith, Bool-cases, Option-cases,
}
use mathlib.Core.Option.{some-injective}
use nano_qwen3tts_vllm.Voices.Filtering.{In, first, later}
use nano_qwen3tts_vllm.Common.Count.{count}
use nano_qwen3tts_vllm.Voices.Rows.{
  Voice, State, find_id, ids_of, names_clash, is_name_conflict, any_conflict, or_user, filter,
}
use nano_qwen3tts_vllm.Voices.Store.{
  get_voice_by_id, NewVoice, make_voice, create_voice, patched, apply_patch, write_row,
  update_voice_settings, renamed, toggled, rename_voice, toggle_voice, without_id, delete_voice,
  set_enabled_voice_ids, toggle_read, toggle_write, toggle_enabled_voice_id, get_enabled_voice_ids,
}
use nano_qwen3tts_vllm.Voices.Finding.{
  find_id-append_one, find_id-present, find_id-update_id, find_id-without_id,
}
use nano_qwen3tts_vllm.Voices.Validity.{IsValid}
use nano_qwen3tts_vllm.Voices.History.{
  Step, creates, updates, renames, toggles, deletes, enables, switches,
}
use nano_qwen3tts_vllm.Voices.Effects.{
  map_of, Stays, Creates, Writes, Takes, IsPatched, Renames, Removes, MapStep, created, refused,
  absent, written, renamed_to, refused_for, removed, nothing_there,
}

any_conflict-IsTaken :
    (lower : String → String) (vs : List Voice) (name voice_type : String)
    (owner_id exclude_id : Option ℕ)
    → any_conflict lower vs name voice_type owner_id exclude_id ≡ true
    → (w : Voice) × In w vs
      × (names_clash lower w name voice_type owner_id ≡ true)
      × (exclude_id ≢ some w.id)
unfolding any_conflict is_name_conflict
any_conflict-IsTaken lower [] name voice_type owner_id exclude_id e = absurd (ground arith)
any_conflict-IsTaken lower (v ∷ vs) name voice_type owner_id exclude_id e =
    elim (Bool-cases (is_name_conflict lower v name voice_type owner_id exclude_id)) [
      | inl here ↦ (v, first, ground arith, λ own. ground (arith, here, own))
      | inr other ↦
          let (w, there, clashes, apart) =
            any_conflict-IsTaken lower vs name voice_type owner_id exclude_id (ground arith) in
          (w, later there, clashes, apart)
    ]

write_row-Writes :
    (R : Voice → Voice → Type 0) (s : State) (now i : ℕ) (f : Voice → Voice)
    → ((v : Voice) → (f v).id ≡ v.id)
    → ((v : Voice) → R v (f v))
    → Writes R i (map_of s) (map_of (write_row s now i f).1) (write_row s now i f).0
unfolding get_voice_by_id write_row
write_row-Writes R s now i f keeps does = elim (Option-cases (find_id i s.voices)) [
  | inl missing ↦ rw (missing, write_row) (absent missing (λ j. refl))
  | inr (v, found) ↦
      rw (found, write_row)
        (written v (f v) found (does v) (λ j. find_id-update_id f keeps i j s.voices v found))
]

create_voice-Creates :
    (lower : String → String) (s : State)
    → IsValid lower s
    → (now : ℕ) (n : NewVoice)
    → Creates lower s n
        (map_of s)
        (map_of (create_voice lower s now n).1)
        (create_voice lower s now n).0
unfolding create_voice get_voice_by_id
create_voice-Creates lower s valid now n =
    elim (Bool-cases (any_conflict lower s.voices n.name n.voice_type n.owner_id none)) [
      | inl conflict ↦ rw conflict (
          refused (any_conflict-IsTaken lower s.voices n.name n.voice_type n.owner_id none conflict)
            (λ j. refl))
      | inr free ↦ rw free (
          created (make_voice s.next_id now n) missing refl refl refl refl refl
            (λ j. ground (arith, find_id-append_one j s.voices (make_voice s.next_id now n) fresh)))
    ]
  where
    fresh : count s.next_id (ids_of s.voices) ≡ 0
    fresh = ground (arith, valid.below s.next_id)

    missing : find_id s.next_id s.voices ≡ none
    missing = elim (Option-cases (find_id s.next_id s.voices)) [
      | inl e ↦ e
      | inr (v, e) ↦ absurd (ground (arith, fresh, find_id-present s.next_id s.voices v e))
    ]

rename_voice-Renames :
    (lower : String → String) (s : State) (now i : ℕ) (name : String)
    → Renames lower s i name
        (map_of s)
        (map_of (rename_voice lower s now i name).1)
        (rename_voice lower s now i name).0
unfolding rename_voice get_voice_by_id
rename_voice-Renames lower s now i name = elim (Option-cases (find_id i s.voices)) [
  | inl missing ↦ rw missing (renamed_to none (absent missing (λ j. refl)))
  | inr (v, found) ↦
      rw found
        (elim (Bool-cases
          (any_conflict lower s.voices name (or_user v.voice_type) v.owner_id (some i))) [
            | inl conflict ↦ rw conflict (
                refused_for v found
                  (any_conflict-IsTaken lower s.voices name (or_user v.voice_type) v.owner_id
                    (some i) conflict)
                  (λ j. refl))
            | inr free ↦ rw free (
                renamed_to (write_row s now i (renamed name)).0 (
                  write_row-Writes (λ v w. w ≡ record v { name = name }) s now i (renamed name)
                    (λ w. refl) (λ w. refl)))
          ])
]

without_id-le : (i : ℕ) (vs : List Voice) → length (without_id i vs) ≤ length vs
unfolding without_id filter
without_id-le i [] = omega arith
without_id-le i (w ∷ ws) = ground (arith, without_id-le i ws)

-- A row with the id goes, and without one none does.
without_id-shorter :
    (i : ℕ) (vs : List Voice) (v : Voice)
    → find_id i vs ≡ some v
    → length (without_id i vs) < length vs
unfolding without_id filter find_id
without_id-shorter i [] v e = absurd (ground arith)
without_id-shorter i (w ∷ ws) v e = ground (arith, without_id-le i ws, without_id-shorter i ws v)

without_id-same :
    (i : ℕ) (vs : List Voice) → find_id i vs ≡ none → length (without_id i vs) ≡ length vs
unfolding without_id filter find_id
without_id-same i [] e = refl
without_id-same i (w ∷ ws) e = ground (arith, without_id-same i ws)

delete_voice-Removes :
    (s : State) (now i : ℕ)
    → Removes i (map_of s) (map_of (delete_voice s now i).1) (delete_voice s now i).0
unfolding delete_voice get_voice_by_id
delete_voice-Removes s now i = elim (Option-cases (find_id i s.voices)) [
  | inl missing ↦
      let same : length (without_id i s.voices) == length s.voices ≡ true =
        ground (arith, without_id-same i s.voices missing) in
      rw same (nothing_there missing (λ j. refl))
  | inr (v, found) ↦
      let shorter : length (without_id i s.voices) == length s.voices ≡ false =
        ground (arith, without_id-shorter i s.voices v found) in
      rw shorter (removed v found (λ j. find_id-without_id i j s.voices))
]

toggle_write-Stays :
    (s : State) (now user_id : ℕ) (current : List ℕ) (read : Option (List ℕ))
    → Stays (map_of s) (map_of (toggle_write s now user_id current read).1)
unfolding set_enabled_voice_ids get_voice_by_id
toggle_write-Stays s now user_id current none j = refl
toggle_write-Stays s now user_id current (some ids) j = refl

patched-Takes : {A : Type 0} (key : Option A) (old : A) → Takes key old (patched key old)
patched-Takes none old = (λ new e. cc, λ e. refl)
patched-Takes (some new) old = (λ new' e. some-injective _ _ e, λ e. cc)

-- On a valid store each call does to the map from ids to voices what its answer says. A voice that is
-- created is added under an id that had none, and is refused only for a name that is taken. An update, a
-- renaming and a toggle write the voice under the id in the fields of that call alone, and change nothing
-- where there is none. A deletion removes the voice, and answers false where there is none. The lists of
-- enabled voices leave the map as it is. Under every other id the map stays.
pub Step-MapStep :
    (lower : String → String) (s t : State)
    → IsValid lower s
    → (step : Step lower s t) → MapStep lower s t step
unfolding update_voice_settings toggle_voice set_enabled_voice_ids toggle_enabled_voice_id
    get_voice_by_id
Step-MapStep lower s t valid (creates now n) = create_voice-Creates lower s valid now n
Step-MapStep lower s t valid (updates now i patch) =
    write_row-Writes (IsPatched patch) s now i (apply_patch patch) (λ w. refl)
      (λ v. (
        patched-Takes patch.reference_text v.reference_text,
        patched-Takes patch.cfg_strength v.cfg_strength,
        patched-Takes patch.speed_preset v.speed_preset,
        refl,
      ))
Step-MapStep lower s t valid (renames now i name) = rename_voice-Renames lower s now i name
Step-MapStep lower s t valid (toggles now i) =
    write_row-Writes (λ v w. w ≡ record v { is_active = not v.is_active }) s now i toggled
      (λ w. refl) (λ w. refl)
Step-MapStep lower s t valid (deletes now i) = delete_voice-Removes s now i
Step-MapStep lower s t valid (enables now user_id ids) = λ j. refl
Step-MapStep lower s t valid (switches earlier now user_id i on) =
    toggle_write-Stays s now user_id (get_enabled_voice_ids earlier user_id)
      (toggle_read earlier user_id i on)

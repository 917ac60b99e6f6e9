-- ===== src/Voices/Validity.antt =====
-- The invariant of the store: ids are unique and no two names clash.
use nano_qwen3tts_vllm.Common.{
  ℕ, ◌≤◌, ◌<◌, ◌≡◌, ◌≢◌, refl, sym, ◌∙◌, ◌⊎◌, inl, inr, String, Bool, false, List, [], ◌∷◌, ◌++◌,
  none, some, length, is_empty, ◌==◌, nat_eq, string_eq, arith, Bool-cases, Option-cases,
}
use nano_qwen3tts_vllm.Common.Count.{count}
use nano_qwen3tts_vllm.Voices.Rows.{
  Voice, State, init, or_user, find_id, update_id, ids_of, type_word, names_clash, is_name_conflict,
  any_conflict,
}
use nano_qwen3tts_vllm.Voices.Store.{
  NewVoice, make_voice, append_voice, create_voice, Patch, apply_patch, write_row,
  update_voice_settings, renamed, toggled, rename_found, rename_voice, toggle_voice, without_id,
  delete_voice, set_enabled_voice_ids,
}
use nano_qwen3tts_vllm.Voices.Finding.{
  find_id-id, find_id-append_one, ids_of-append_one, find_id-update_id, ids_of-update_id,
  find_id-without_id, count-without_id, any_conflict-none,
}

abbrev pub clash : (String → String) → Voice → Voice → Bool
clash lower v w = names_clash lower v w.name w.voice_type w.owner_id

-- Ids are unique and below the next one, and no two voices' names clash.
pub record IsValid (lower : String → String) (s : State) : Type 0 where
  pub once : (i : ℕ) → count i (ids_of s.voices) ≤ 1
  pub below : (i : ℕ) → 0 < count i (ids_of s.voices) → i < s.next_id
  pub apart :
      (i j : ℕ) (v w : Voice)
      → i ≢ j
      → find_id i s.voices ≡ some v
      → find_id j s.voices ≡ some w
      → clash lower v w ≡ false

clash_comm : (lower : String → String) (v w : Voice) → clash lower v w ≡ clash lower w v
unfolding names_clash
clash_comm lower v w = ground arith

pub init-IsValid : (lower : String → String) (now : ℕ) → IsValid lower (init now)
unfolding init ids_of count find_id
init-IsValid lower now = record {
  once = λ i. omega arith;
  below = λ i h. absurd (omega arith);
  apart = λ i j v w h e e'. cc;
}

-- A row behind the others is the last one or one of those.
append_cases :
    (vs : List Voice) (v : Voice) (i : ℕ) (w : Voice)
    → count v.id (ids_of vs) ≡ 0
    → find_id i (vs ++ v ∷ []) ≡ some w
    → ((v.id ≡ i) × (w ≡ v)) ⊎ (find_id i vs ≡ some w)
append_cases vs v i w fresh e = elim (Bool-cases (v.id == i)) [
  | inl last ↦ inl (ground arith, ground (arith, find_id-append_one i vs v fresh))
  | inr other ↦ inr (ground (arith, find_id-append_one i vs v fresh))
]

or_user_twice : (text : String) → or_user (or_user text) ≡ or_user text
or_user_twice text = elim (Bool-cases (is_empty text)) [
  | inl blank ↦ rw blank refl
  | inr filled ↦ rw filled (rw filled refl)
]

module _ (lower : String → String) (s : State) (valid : IsValid lower s) where
  -- One more row, which clashes with none.
  append-IsValid :
      (now : ℕ) (v : Voice)
      → v.id ≡ s.next_id
      → ((i : ℕ) (w : Voice) → find_id i s.voices ≡ some w → clash lower w v ≡ false)
      → IsValid lower (append_voice s now v)
  append-IsValid now v new free = record {
    once = λ i. ground (arith, ids_of-append_one i s.voices v, valid.once i, valid.below i);
    below = λ i h. ground (arith, ids_of-append_one i s.voices v, valid.below i);
    apart = λ i j w w' h e e'.
        apart i j w w' h (append_cases s.voices v i w fresh e)
          (append_cases s.voices v j w' fresh e');
  }
    where
      fresh : count v.id (ids_of s.voices) ≡ 0
      fresh = ground (arith, valid.below v.id)

      apart :
          (i j : ℕ) (w w' : Voice)
          → i ≢ j
          → ((v.id ≡ i) × (w ≡ v)) ⊎ (find_id i s.voices ≡ some w)
          → ((v.id ≡ j) × (w' ≡ v)) ⊎ (find_id j s.voices ≡ some w')
          → clash lower w w' ≡ false
      apart i j w w' h (inl (here, e)) (inl (there, e')) = absurd (h (sym here ∙ there))
      apart i j w w' h (inl (here, e)) (inr e') = rw e (clash_comm lower v w' ∙ free j w' e')
      apart i j w w' h (inr e) (inl (there, e')) = rw e' (free i w e)
      apart i j w w' h (inr e) (inr e') = valid.apart i j w w' h e e'

  -- A row that is written anew under its id, and clashes with no other.
  module _ (now voice_id : ℕ) (f : Voice → Voice) (keeps : (v : Voice) → (f v).id ≡ v.id)
      (v : Voice) (here : find_id voice_id s.voices ≡ some v)
      (free : (j : ℕ) (w : Voice)
        → j ≢ voice_id
        → find_id j s.voices ≡ some w
        → clash lower w (f v) ≡ false) where
    written_cases :
        (i : ℕ) (w : Voice)
        → find_id i (update_id voice_id f s.voices) ≡ some w
        → ((i ≡ voice_id) × (w ≡ f v)) ⊎ ((i ≢ voice_id) × (find_id i s.voices ≡ some w))
    written_cases i w e = elim (Bool-cases (i == voice_id)) [
      | inl same ↦
          inl (ground arith, ground (arith, find_id-update_id f keeps voice_id i s.voices v here))
      | inr other ↦
          inr (ground arith, ground (arith, find_id-update_id f keeps voice_id i s.voices v here))
    ]

    written_apart :
        (i j : ℕ) (w w' : Voice)
        → i ≢ j
        → ((i ≡ voice_id) × (w ≡ f v)) ⊎ ((i ≢ voice_id) × (find_id i s.voices ≡ some w))
        → ((j ≡ voice_id) × (w' ≡ f v)) ⊎ ((j ≢ voice_id) × (find_id j s.voices ≡ some w'))
        → clash lower w w' ≡ false
    written_apart i j w w' h (inl (e, _)) (inl (e', _)) = absurd (h (e ∙ sym e'))
    written_apart i j w w' h (inl (_, e)) (inr (other, e')) =
        rw e (clash_comm lower (f v) w' ∙ free j w' other e')
    written_apart i j w w' h (inr (other, e)) (inl (_, e')) = rw e' (free i w other e)
    written_apart i j w w' h (inr (_, e)) (inr (_, e')) = valid.apart i j w w' h e e'

    write_row-IsValid : IsValid lower (write_row s now voice_id f).1
    unfolding write_row
    write_row-IsValid =
        rw (here, write_row)
          (record {
            once = λ i. rw (ids_of-update_id f keeps voice_id s.voices) (valid.once i);
            below = λ i. rw (ids_of-update_id f keeps voice_id s.voices) (valid.below i);
            apart = λ i j w w' h e e'.
                written_apart i j w w' h (written_cases i w e) (written_cases j w' e');
          })

  -- A write that changes neither id, name, type nor owner.
  same_words-IsValid :
      (now voice_id : ℕ) (f : Voice → Voice)
      → ((v : Voice) → (f v).id ≡ v.id)
      → ((v w : Voice) → clash lower w (f v) ≡ clash lower w v)
      → IsValid lower (write_row s now voice_id f).1
  unfolding write_row
  same_words-IsValid now voice_id f keeps same = elim (Option-cases (find_id voice_id s.voices)) [
    | inl missing ↦ rw (missing, write_row) valid
    | inr (v, here) ↦
        write_row-IsValid now voice_id f keeps v here
          (λ j w other e. same v w ∙ valid.apart j voice_id w v other e here)
  ]

  pub update_voice_settings-IsValid :
      (now voice_id : ℕ) (patch : Patch)
      → IsValid lower (update_voice_settings s now voice_id patch).1
  unfolding update_voice_settings
  update_voice_settings-IsValid now voice_id patch =
      same_words-IsValid now voice_id (apply_patch patch) (λ v. refl) (λ v w. refl)

  pub toggle_voice-IsValid : (now voice_id : ℕ) → IsValid lower (toggle_voice s now voice_id).1
  unfolding toggle_voice
  toggle_voice-IsValid now voice_id =
      same_words-IsValid now voice_id toggled (λ v. refl) (λ v w. refl)

  pub create_voice-IsValid : (now : ℕ) (n : NewVoice) → IsValid lower (create_voice lower s now n).1
  unfolding create_voice is_name_conflict
  create_voice-IsValid now n =
      elim (Bool-cases (any_conflict lower s.voices n.name n.voice_type n.owner_id none)) [
        | inl taken ↦ rw taken valid
        | inr free ↦ rw free (
            append-IsValid now (make_voice s.next_id now n) refl (λ i w e.
              no_clash w
                (any_conflict-none lower s.voices n.name n.voice_type n.owner_id none i w free e)))
      ]
    where
      no_clash :
          (w : Voice)
          → is_name_conflict lower w n.name n.voice_type n.owner_id none ≡ false
          → clash lower w (make_voice s.next_id now n) ≡ false
      no_clash w h = h

  rename_clash :
      (voice_id : ℕ) (new_name : String) (v : Voice)
      → any_conflict lower s.voices new_name (or_user v.voice_type) v.owner_id (some voice_id)
        ≡ false
      → (j : ℕ) (w : Voice) → j ≢ voice_id
      → find_id j s.voices ≡ some w
      → clash lower w (renamed new_name v) ≡ false
  unfolding is_name_conflict names_clash type_word
  rename_clash voice_id new_name v h j w other e = ground (
    arith,
    find_id-id j s.voices w e,
    or_user_twice v.voice_type,
    any_conflict-none lower s.voices new_name (or_user v.voice_type) v.owner_id (some voice_id) j w
        h e,
  )

  pub rename_voice-IsValid :
      (now voice_id : ℕ) (new_name : String)
      → IsValid lower (rename_voice lower s now voice_id new_name).1
  unfolding rename_voice
  rename_voice-IsValid now voice_id new_name = elim (Option-cases (find_id voice_id s.voices)) [
    | inl missing ↦ rw (missing, rename_found) valid
    | inr (v, here) ↦
        elim (Bool-cases (
          any_conflict lower s.voices new_name (or_user v.voice_type) v.owner_id (some voice_id))) [
            | inl taken ↦ rw (here, rename_found) (rw taken valid)
            | inr free ↦
                rw (here, rename_found)
                  (rw free (
                    write_row-IsValid now voice_id (renamed new_name) (λ w. refl) v here
                      (rename_clash voice_id new_name v free)))
          ]
  ]

  pub delete_voice-IsValid : (now voice_id : ℕ) → IsValid lower (delete_voice s now voice_id).1
  unfolding delete_voice
  delete_voice-IsValid now voice_id =
      elim (Bool-cases (length (without_id voice_id s.voices) == length s.voices)) [
        | inl same ↦ rw same valid
        | inr fewer ↦ rw fewer (record {
          once = λ i. ground (arith, count-without_id voice_id i s.voices, valid.once i);
          below = λ i h. ground (arith, count-without_id voice_id i s.voices, valid.below i);
          apart = λ i j v w h e e'.
              valid.apart i j v w h (ground (arith, find_id-without_id voice_id i s.voices))
                (ground (arith, find_id-without_id voice_id j s.voices));
        })
      ]

  pub set_enabled-IsValid :
      (now user_id : ℕ) (ids : List ℕ) → IsValid lower (set_enabled_voice_ids s now user_id ids).1
  unfolding set_enabled_voice_ids
  set_enabled-IsValid now user_id ids = record {
    once = valid.once;
    below = valid.below;
    apart = valid.apart;
  }

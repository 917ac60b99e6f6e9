-- ===== src/Voices/Enabled.antt =====
-- The lists of enabled voices: sorted, without repetition, of known voices.
use nano_qwen3tts_vllm.Common.{
  ℕ, ◌+◌, ◌≤◌, ◌≡◌, inl, inr, ◌&&◌, ◌||◌, List, [], ◌∷◌, ◌==◌, nat_eq, ltb, contains, arith,
  Bool-cases,
}
use nano_qwen3tts_vllm.Common.Dict.{lookup-insert_self}
use nano_qwen3tts_vllm.Voices.Rows.{State, ids_of}
use nano_qwen3tts_vllm.Voices.Store.{
  insert_sorted, sorted_valid, set_enabled_voice_ids, get_enabled_voice_ids,
}

-- Every element is above the bound, and each above the ones before it.
abbrev AscendsFrom : ℕ → List ℕ → Type 0
AscendsFrom low [] = Unit
AscendsFrom low (i ∷ is) = (low ≤ i) × AscendsFrom (i + 1) is

insert_sorted-AscendsFrom :
    (low i : ℕ) (is : List ℕ) → low ≤ i → AscendsFrom low is → AscendsFrom low (insert_sorted i is)
unfolding insert_sorted
insert_sorted-AscendsFrom low i [] h a = (h, tt)
insert_sorted-AscendsFrom low i (j ∷ js) h (bound, a) = elim (Bool-cases (ltb i j)) [
  | inl below ↦ rw below (h, (ground arith, a))
  | inr above ↦ elim (Bool-cases (i == j)) [
    | inl same ↦ rw above (rw same (bound, a))
    | inr other ↦
        rw above (rw other (bound, insert_sorted-AscendsFrom (j + 1) i js (ground arith) a))
  ]
]

contains-insert_sorted :
    (i j : ℕ) (is : List ℕ) → contains (insert_sorted i is) j ≡ (j == i || contains is j)
unfolding insert_sorted
contains-insert_sorted i j [] = ground arith
contains-insert_sorted i j (k ∷ ks) = ground (arith, contains-insert_sorted i j ks)

sorted_valid-AscendsFrom : (valid ids : List ℕ) → AscendsFrom 0 (sorted_valid valid ids)
unfolding sorted_valid
sorted_valid-AscendsFrom valid [] = tt
sorted_valid-AscendsFrom valid (i ∷ is) = elim (Bool-cases (contains valid i)) [
  | inl known ↦ rw known (
      insert_sorted-AscendsFrom 0 i (sorted_valid valid is) (omega arith)
        (sorted_valid-AscendsFrom valid is))
  | inr unknown ↦ rw unknown (sorted_valid-AscendsFrom valid is)
]

contains-sorted_valid :
    (valid ids : List ℕ) (j : ℕ)
    → contains (sorted_valid valid ids) j ≡ (contains valid j && contains ids j)
unfolding sorted_valid
contains-sorted_valid valid [] j = ground arith
contains-sorted_valid valid (i ∷ is) j =
    ground
      (arith, contains-sorted_valid valid is j, contains-insert_sorted i j (sorted_valid valid is))

-- `set_enabled_voice_ids` stores and returns one list: it ascends strictly, and its elements are the
-- requested ids that some voice has. `get_enabled_voice_ids` then reads it back.
get_enabled-set_enabled :
    (s : State) (now user_id : ℕ) (ids : List ℕ)
    → (get_enabled_voice_ids (set_enabled_voice_ids s now user_id ids).1 user_id
        ≡ (set_enabled_voice_ids s now user_id ids).0)
      × AscendsFrom 0 (set_enabled_voice_ids s now user_id ids).0
      × ((j : ℕ)
          → contains (set_enabled_voice_ids s now user_id ids).0 j
            ≡ (contains (ids_of s.voices) j && contains ids j))
unfolding get_enabled_voice_ids set_enabled_voice_ids
get_enabled-set_enabled s now user_id ids = (
  ground (arith, lookup-insert_self user_id (sorted_valid (ids_of s.voices) ids) s.enabled),
  sorted_valid-AscendsFrom (ids_of s.voices) ids,
  contains-sorted_valid (ids_of s.voices) ids,
)

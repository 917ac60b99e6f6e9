-- ===== src/Voices/Finding.antt =====
-- Lookups of rows by id, after each way the store writes its rows.
use nano_qwen3tts_vllm.Common.{
  ℕ, ◌+◌, ◌<◌, ◌≡◌, refl, inl, inr, String, false, List, [], ◌∷◌, ◌++◌, Option, none, some,
  if◌then◌else◌, ◌==◌, nat_eq, arith, Bool-cases,
}
use nano_qwen3tts_vllm.Common.Count.{count, one_if}
use nano_qwen3tts_vllm.Voices.Rows.{
  Voice, filter, find_id, update_id, ids_of, any_conflict, is_name_conflict,
}
use nano_qwen3tts_vllm.Voices.Store.{without_id}

pub find_id-id : (i : ℕ) (vs : List Voice) (v : Voice) → find_id i vs ≡ some v → v.id ≡ i
unfolding find_id
find_id-id i [] v e = cc
find_id-id i (w ∷ ws) v e = ground (arith, find_id-id i ws v)

pub find_id-append_one :
    (i : ℕ) (vs : List Voice) (v : Voice)
    → count v.id (ids_of vs) ≡ 0
    → find_id i (vs ++ v ∷ []) ≡ (if v.id == i then some v else find_id i vs)
unfolding find_id ids_of count
find_id-append_one i [] v h = ground arith
find_id-append_one i (w ∷ ws) v h = ground (arith, find_id-append_one i ws v)

pub ids_of-append_one :
    (i : ℕ) (vs : List Voice) (v : Voice)
    → count i (ids_of (vs ++ v ∷ [])) ≡ count i (ids_of vs) + one_if i v.id
unfolding ids_of count
ids_of-append_one i [] v = omega arith
ids_of-append_one i (w ∷ ws) v = omega (arith, ids_of-append_one i ws v)

-- A row is found exactly if its id occurs.
pub find_id-absent : (i : ℕ) (vs : List Voice) → find_id i vs ≡ none → count i (ids_of vs) ≡ 0
unfolding find_id ids_of count
find_id-absent i [] e = refl
find_id-absent i (w ∷ ws) e = ground (arith, find_id-absent i ws)

pub find_id-present :
    (i : ℕ) (vs : List Voice) (v : Voice) → find_id i vs ≡ some v → 0 < count i (ids_of vs)
unfolding find_id ids_of count
find_id-present i [] v e = cc
find_id-present i (w ∷ ws) v e = ground (arith, find_id-present i ws v)

module _ (f : Voice → Voice) (keeps : (v : Voice) → (f v).id ≡ v.id) where
  pub find_id-update_id :
      (i j : ℕ) (vs : List Voice) (v : Voice)
      → find_id i vs ≡ some v
      → find_id j (update_id i f vs) ≡ (if j == i then some (f v) else find_id j vs)
  unfolding find_id update_id
  find_id-update_id i j [] v e = cc
  find_id-update_id i j (w ∷ ws) v e = elim (Bool-cases (w.id == i)) [
    | inl here ↦ ground (arith, keeps w)
    | inr there ↦ ground (arith, find_id-update_id i j ws v)
  ]

  pub ids_of-update_id : (i : ℕ) (vs : List Voice) → ids_of (update_id i f vs) ≡ ids_of vs
  unfolding ids_of update_id
  ids_of-update_id i [] = refl
  ids_of-update_id i (w ∷ ws) = ground (arith, keeps w, ids_of-update_id i ws)

pub find_id-without_id :
    (i j : ℕ) (vs : List Voice)
    → find_id j (without_id i vs) ≡ (if j == i then none else find_id j vs)
unfolding find_id without_id filter
find_id-without_id i j [] = ground arith
find_id-without_id i j (w ∷ ws) = ground (arith, find_id-without_id i j ws)

pub count-without_id :
    (i j : ℕ) (vs : List Voice)
    → count j (ids_of (without_id i vs)) ≡ (if j == i then 0 else count j (ids_of vs))
unfolding without_id filter ids_of count
count-without_id i j [] = ground arith
count-without_id i j (w ∷ ws) = ground (arith, count-without_id i j ws)

-- Where the loop finds no conflict, no row conflicts.
pub any_conflict-none :
    (lower : String → String) (vs : List Voice) (name voice_type : String)
    (owner_id exclude_id : Option ℕ) (i : ℕ) (v : Voice)
    → any_conflict lower vs name voice_type owner_id exclude_id ≡ false
    → find_id i vs ≡ some v
    → is_name_conflict lower v name voice_type owner_id exclude_id ≡ false
unfolding any_conflict find_id
any_conflict-none lower [] name voice_type owner_id exclude_id i v h e = cc
any_conflict-none lower (w ∷ ws) name voice_type owner_id exclude_id i v h e =
    ground (arith, any_conflict-none lower ws name voice_type owner_id exclude_id i v)

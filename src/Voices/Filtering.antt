-- ===== src/Voices/Filtering.antt =====
-- What stands in a filtered list of voices.
use nano_qwen3tts_vllm.Common.{
  ℕ, ◌≡◌, inl, inr, Bool, true, List, [], ◌∷◌, nat_eq, string_eq, Bool-cases,
}
use nano_qwen3tts_vllm.Voices.Rows.{Voice, filter, by_enabled}
use nano_qwen3tts_vllm.Voices.Picking.{or_all}

-- A row stands in a list.
pub data In (v : Voice) : List Voice → Type 0 where
  first : {vs : List Voice} → In v (v ∷ vs)
  later : {w : Voice} {vs : List Voice} → In v vs → In v (w ∷ vs)

In-kept :
    (p : Voice → Bool) (w v : Voice) (vs rest : List Voice)
    → p w ≡ true
    → (In v rest → In v vs × (p v ≡ true))
    → In v (w ∷ rest)
    → In v (w ∷ vs) × (p v ≡ true)
In-kept p w v vs rest keep more first = (first, keep)
In-kept p w v vs rest keep more (later h) = let (there, fits) = more h in (later there, fits)

pub filter-In :
    (p : Voice → Bool) (vs : List Voice) (v : Voice) → In v (filter p vs) → In v vs × (p v ≡ true)
unfolding filter
filter-In p [] v h = elim h [ ]
filter-In p (w ∷ ws) v h = elim (Bool-cases (p w)) [
  | inl keep ↦ In-kept p w v ws (filter p ws) keep (filter-In p ws v) (rw keep at h)
  | inr drop ↦ let (there, fits) = filter-In p ws v (rw drop at h) in (later there, fits)
]

pub or_all-In :
    (xs all : List Voice) (v : Voice) → (In v xs → In v all) → In v (or_all xs all) → In v all
or_all-In [] all v sub h = h
or_all-In (x ∷ xs) all v sub h = sub h

pub by_enabled-In :
    (ids : List ℕ) (vs : List Voice) (v : Voice) → In v (by_enabled ids vs) → In v vs
by_enabled-In [] vs v h = h
by_enabled-In (i ∷ ids) vs v h = (filter-In _ vs v h).0

-- ===== src/Models/Choice.antt =====
-- What `pick_runtime_model` may choose.
use nano_qwen3tts_vllm.Common.{
  ◌≡◌, ◌≢◌, ◌⊎◌, ◌==◌, inl, inr, String, true, false, List, [], ◌∷◌, Option, some, is_empty, strip,
  string_eq, contains, Bool-cases, Option-cases, arith,
}
use nano_qwen3tts_vllm.Common.Dict.{Dict, lookup, insert, lookup-nil, lookup-insert}
use nano_qwen3tts_vllm.Engine.Effects.{ok}
use nano_qwen3tts_vllm.Models.{
  Model, by_id, ids_of_family, family_is, exact_choice, target_family, first_of, family_choice,
  only_choice, pick_in, pick_runtime_model,
}

abbrev pub ids_of : List Model → List String
ids_of [] = []
ids_of (item ∷ items) = item.id ∷ ids_of items

-- An entry of the catalogue has that family and id.
abbrev pub Listed : String → String → List Model → Type 0
Listed family k [] = ⊥
Listed family k (item ∷ items) = ((item.family ≡ family) × (item.id ≡ k)) ⊎ Listed family k items

ids_of_family-Listed :
    (family k : String) (items : List Model)
    → contains (ids_of_family family items) k ≡ true
    → Listed family k items
unfolding ids_of_family
ids_of_family-Listed family k [] h = absurd (ground arith)
ids_of_family-Listed family k (x ∷ xs) h = elim (Bool-cases (x.family == family)) [
  | inr other ↦ inr (ids_of_family-Listed family k xs (ground arith))
  | inl same ↦ elim (string_eq.dec k x.id) [
    | yes e ↦ inl (ground arith, ground arith)
    | no e ↦ inr (ids_of_family-Listed family k xs (ground arith))
  ]
]

-- The id stands in the catalogue, and under the family that was required, if one was.
pub record IsChoice (catalog : List Model) (required : Option String) (chosen : String)
    : Type 0 where
  pub listed : contains (ids_of catalog) chosen ≡ true
  pub in_family :
      (family : String)
      → required ≡ some family
      → is_empty family ≡ false
      → Listed family chosen catalog

by_id_found :
    (k : String) (items : List Model) (d : Dict String Model) (item : Model)
    → lookup k (by_id items d) ≡ some item
    → ((contains (ids_of items) k ≡ true) × (contains (ids_of_family item.family items) k ≡ true))
      ⊎ (lookup k d ≡ some item)
unfolding by_id ids_of_family
by_id_found k [] d item e = inr e
by_id_found k (x ∷ xs) d item e = elim (by_id_found k xs (insert x.id x d) item e) [
  | inl (listed, in_family) ↦ inl (ground arith, ground arith)
  | inr found ↦ elim (string_eq.dec k x.id) [
    | yes same ↦ inl (ground arith, ground (arith, lookup-insert k x.id x d))
    | no other ↦ inr (ground (arith, lookup-insert k x.id x d))
  ]
]

ids_of_family-listed :
    (family k : String) (items : List Model)
    → contains (ids_of_family family items) k ≡ true
    → contains (ids_of items) k ≡ true
unfolding ids_of_family
ids_of_family-listed family k [] h = cc
ids_of_family-listed family k (x ∷ xs) h = ground (arith, ids_of_family-listed family k xs)

first_of-listed : (xs : List String) (x : String) → first_of xs ≡ some x → contains xs x ≡ true
first_of-listed [] x e = cc
first_of-listed (y ∷ ys) x e = ground arith

module _ (lower : String → String) (requested : String) (required : Option String)
    (catalog : List Model) (chosen : String) where
  exact-IsChoice :
      exact_choice requested required catalog ≡ some chosen → IsChoice catalog required chosen
  exact-IsChoice e = elim (Bool-cases (is_empty requested)) [
    | inl blank ↦ absurd (ground arith)
    | inr named ↦ elim (Option-cases (lookup requested (by_id catalog []))) [
      | inl missing ↦ absurd (ground arith)
      | inr (item, found) ↦ elim (Bool-cases (family_is required item.family)) [
        | inr other ↦ absurd (ground arith)
        | inl fits ↦
            let same : chosen ≡ requested = ground arith in
            elim (by_id_found requested catalog [] item found) [
              | inl (listed, in_family) ↦ record {
                listed = rw same listed;
                in_family = λ family e' filled.
                    ids_of_family-Listed family chosen catalog
                      (rw same (of_family item family e' fits in_family));
              }
              | inr nothing ↦ absurd (ground (arith, lookup-nil {V = Model} requested))
            ]
      ]
    ]
  ]
    where
      of_family :
          (item : Model) (family : String)
          → required ≡ some family
          → family_is required item.family ≡ true
          → contains (ids_of_family item.family catalog) requested ≡ true
          → contains (ids_of_family family catalog) requested ≡ true
      of_family item family e' fits h = ground arith

  family-IsChoice :
      family_choice (target_family lower requested required) catalog ≡ some chosen
      → IsChoice catalog required chosen
  family-IsChoice e = elim (Option-cases (target_family lower requested required)) [
    | inl unknown ↦ absurd (ground arith)
    | inr (target, e') ↦ elim (Bool-cases (is_empty target)) [
      | inl blank ↦ absurd (ground arith)
      | inr filled ↦
          let first : first_of (ids_of_family target catalog) ≡ some chosen = ground arith in
          let in_target = first_of-listed (ids_of_family target catalog) chosen first in
          record {
            listed = ids_of_family-listed target chosen catalog in_target;
            in_family = λ family e'' h. ids_of_family-Listed family chosen catalog (ground arith);
          }
    ]
  ]

  only_choice_named :
      (items : List Model) → is_empty requested ≡ false → only_choice requested items ≢ ok chosen
  only_choice_named [] named e = cc
  only_choice_named (x ∷ []) named e = ground arith
  only_choice_named (x ∷ y ∷ items) named e = cc

  picked-IsChoice :
      is_empty requested ≡ false
      → pick_in lower requested required catalog ≡ ok chosen
      → IsChoice catalog required chosen
  picked-IsChoice named e = elim (Option-cases (exact_choice requested required catalog)) [
    | inr (c, e') ↦ exact-IsChoice (ground arith)
    | inl no_exact ↦
        elim (Option-cases (family_choice (target_family lower requested required) catalog)) [
          | inr (c, e') ↦ family-IsChoice (ground arith)
          | inl no_family ↦ absurd (only_choice_named catalog named (ground arith))
        ]
  ]

  only_choice-listed :
      (items : List Model)
      → only_choice requested items ≡ ok chosen
      → contains (ids_of items) chosen ≡ true
  only_choice-listed [] e = cc
  only_choice-listed (x ∷ []) e = ground arith
  only_choice-listed (x ∷ y ∷ items) e = cc

  picked-listed :
      pick_in lower requested required catalog ≡ ok chosen → contains (ids_of catalog) chosen ≡ true
  picked-listed e = elim (Option-cases (exact_choice requested required catalog)) [
    | inr (c, e') ↦ (exact-IsChoice (ground arith)).listed
    | inl no_exact ↦
        elim (Option-cases (family_choice (target_family lower requested required) catalog)) [
          | inr (c, e') ↦ (family-IsChoice (ground arith)).listed
          | inl no_family ↦ only_choice-listed catalog (ground arith)
        ]
  ]

-- The same for every request, without the family.
pub pick-listed :
    (lower : String → String) (requested : String) (catalog : List Model) (required : Option String)
    (chosen : String)
    → pick_runtime_model lower requested catalog required ≡ ok chosen
    → contains (ids_of catalog) chosen ≡ true
unfolding pick_runtime_model
pick-listed lower requested [] required chosen e = cc
pick-listed lower requested (item ∷ items) required chosen e =
    picked-listed lower (strip requested) required (item ∷ items) chosen e

-- What `pick_runtime_model` returns for a request that is not blank stands in the catalogue, and where
-- a nonempty family is required it stands there under that family.
pub pick-IsChoice :
    (lower : String → String) (requested : String) (catalog : List Model) (required : Option String)
    (chosen : String)
    → is_empty (strip requested) ≡ false
    → pick_runtime_model lower requested catalog required ≡ ok chosen
    → IsChoice catalog required chosen
unfolding pick_runtime_model
pick-IsChoice lower requested [] required chosen named e = cc
pick-IsChoice lower requested (item ∷ items) required chosen named e =
    picked-IsChoice lower (strip requested) required (item ∷ items) chosen named e

-- A blank request to a catalogue of one model returns that model, though its family is not the one
-- that is required.
pub only_model_ignores_family :
    (lower : String → String) (requested family : String) (item : Model)
    → is_empty (strip requested) ≡ true
    → is_empty family ≡ false
    → item.family ≢ family
    → pick_runtime_model lower requested (item ∷ []) (some family) ≡ ok item.id
unfolding pick_runtime_model ids_of_family
only_model_ignores_family lower requested family item blank filled other = ground arith

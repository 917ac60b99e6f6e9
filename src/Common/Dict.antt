-- ===== src/Common/Dict.antt =====
-- Dicts as association lists in insertion order. Proofs elsewhere go by the laws.
use nano_qwen3tts_vllm.Common.Tests.{if◌then◌else◌}
use nano_qwen3tts_vllm.Common.Equality.{Eq, ◌==◌}
use Prim.Native.Nat.{ℕ, ◌+◌, ◌≤◌}
use mathlib.Core.Path.{◌≡◌, refl}
use mathlib.Core.Option.{Option, none, some}
use mathlib.Core.List.{List, [], ◌∷◌}
use native.Mathlib.Omega.{arith}

abbrev pub Dict {ℓ κ} : Type ℓ → Type κ → Type (ℓ ⊔ κ)
Dict K V = List (K × V)

-- The sum of a measure over the values.
unfoldable pub total {ℓ κ} : {K : Type ℓ} {V : Type κ} → (V → ℕ) → Dict K V → ℕ
total f [] = 0
total f ((j, w) ∷ d) = f w + total f d

-- The measure of an entry, zero where there is none.
abbrev pub measure {κ} : {V : Type κ} → (V → ℕ) → Option V → ℕ
measure f none = 0
measure f (some v) = f v

module _ {ℓ κ} {K : Type ℓ} {V : Type κ} ⦃e : Eq K⦄ where
  -- `d.get(k)`
  unfoldable pub lookup : K → Dict K V → Option V
  lookup k [] = none
  lookup k ((j, w) ∷ d) = if k == j then some w else lookup k d

  -- `d[k] = v`
  unfoldable pub insert : K → V → Dict K V → Dict K V
  insert k v [] = (k, v) ∷ []
  insert k v ((j, w) ∷ d) = if k == j then (k, v) ∷ d else (j, w) ∷ insert k v d

  -- `d.pop(k, None)`. Every entry of the key goes; a real dict has at most one.
  unfoldable pub erase : K → Dict K V → Dict K V
  erase k [] = []
  erase k ((j, w) ∷ d) = let rest = erase k d in if k == j then rest else (j, w) ∷ rest

  pub lookup-nil : (k : K) → lookup k [] ≡ none
  unfolding lookup
  lookup-nil k = refl

  pub lookup-insert :
      (j k : K) (v : V) (d : Dict K V)
      → lookup j (insert k v d) ≡ (if j == k then some v else lookup j d)
  unfolding insert lookup
  lookup-insert j k v [] = ground arith
  lookup-insert j k v (_ ∷ d) = ground (arith, lookup-insert j k v d)

  pub lookup-insert_self : (k : K) (v : V) (d : Dict K V) → lookup k (insert k v d) ≡ some v
  lookup-insert_self k v d = ground (arith, lookup-insert k k v d)

  pub lookup-erase :
      (j k : K) (d : Dict K V) → lookup j (erase k d) ≡ (if j == k then none else lookup j d)
  unfolding erase lookup
  lookup-erase j k [] = ground arith
  lookup-erase j k (_ ∷ d) = ground (arith, lookup-erase j k d)

  pub total-insert :
      (f : V → ℕ) (k : K) (v : V) (d : Dict K V)
      → total f (insert k v d) + measure f (lookup k d) ≡ total f d + f v
  unfolding insert lookup total
  total-insert f k v [] = omega arith
  total-insert f k v (_ ∷ d) = ground (arith, total-insert f k v d)

  pub total-erase-le :
      (f : V → ℕ) (k : K) (d : Dict K V) → total f (erase k d) + measure f (lookup k d) ≤ total f d
  unfolding erase lookup total
  total-erase-le f k [] = omega arith
  total-erase-le f k (_ ∷ d) = ground (arith, total-erase-le f k d)

  -- Of two writes to one key the last counts, and a removal undoes a write.
  pub insert-insert_self :
      (k : K) (v w : V) (d : Dict K V) → insert k v (insert k w d) ≡ insert k v d
  unfolding insert
  insert-insert_self k v w [] = ground arith
  insert-insert_self k v w (_ ∷ d) = ground (arith, insert-insert_self k v w d)

  pub erase-insert_self : (k : K) (v : V) (d : Dict K V) → erase k (insert k v d) ≡ erase k d
  unfolding insert erase
  erase-insert_self k v [] = ground arith
  erase-insert_self k v (_ ∷ d) = ground (arith, erase-insert_self k v d)

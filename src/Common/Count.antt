-- ===== src/Common/Count.antt =====
-- How often an element occurs in a list, and what the list operations do to that.
use nano_qwen3tts_vllm.Common.Tests.{if◌then◌else◌}
use nano_qwen3tts_vllm.Common.Equality.{Eq, ◌==◌, contains, remove}
use nano_qwen3tts_vllm.Common.Lists.{length}
use Prim.Native.Nat.{ℕ, ◌+◌, ◌≤◌, ◌<◌}
use mathlib.Core.Path.{◌≡◌, refl}
use mathlib.Core.Logic.{◌↔◌, ◌≢◌}
use mathlib.Core.Bool.{true}
use mathlib.Core.List.{List, [], ◌∷◌, ◌++◌}
use native.Mathlib.Omega.{arith}

module _ {ℓ} {A : Type ℓ} ⦃e : Eq A⦄ where
  -- 1 where two values are the same, and 0 elsewhere.
  abbrev pub one_if : A → A → ℕ
  one_if a b = if a == b then 1 else 0

  unfoldable pub count : A → List A → ℕ
  count a [] = 0
  count a (x ∷ xs) = one_if a x + count a xs

  pub count-append : (a : A) (xs ys : List A) → count a (xs ++ ys) ≡ count a xs + count a ys
  unfolding count
  count-append a [] ys = omega arith
  count-append a (x ∷ xs) ys = omega (arith, count-append a xs ys)

  pub contains-count : (xs : List A) (a : A) → (contains xs a ≡ true) ↔ (0 < count a xs)
  unfolding count
  contains-count [] a = ground arith
  contains-count (x ∷ xs) a = ground (arith, contains-count xs a)

  pub count-remove :
      (b a : A) (xs : List A) → 0 < count a xs → count b (remove a xs) + one_if b a ≡ count b xs
  unfolding count remove
  count-remove b a [] h = absurd (omega arith)
  count-remove b a (x ∷ xs) h = ground (arith, count-remove b a xs)

  pub count-remove_ne : (b a : A) (xs : List A) → b ≢ a → count b (remove a xs) ≡ count b xs
  unfolding count remove
  count-remove_ne b a [] h = refl
  count-remove_ne b a (x ∷ xs) h = ground (arith, count-remove_ne b a xs)

  pub length-remove-le : (a : A) (xs : List A) → length (remove a xs) ≤ length xs
  unfolding remove
  length-remove-le a [] = omega arith
  length-remove-le a (x ∷ xs) = ground (arith, length-remove-le a xs)

  pub remove_absent : (a : A) (xs : List A) → count a xs ≡ 0 → remove a xs ≡ xs
  unfolding count remove
  remove_absent a [] h = refl
  remove_absent a (x ∷ xs) h = ground (arith, remove_absent a xs)

  pub length-remove : (a : A) (xs : List A) → 0 < count a xs → length (remove a xs) + 1 ≡ length xs
  unfolding count remove
  length-remove a [] h = absurd (omega arith)
  length-remove a (x ∷ xs) h = ground (arith, length-remove a xs)

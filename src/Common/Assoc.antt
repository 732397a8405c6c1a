-- ===== src/Common/Assoc.antt =====
-- `Map` and plain objects as association lists: a write to a present key keeps its place.
use mathlib.Core.Path.{◌≡◌, refl}
use mathlib.Core.Bool.{Bool, true, false, ◌||◌}
use mathlib.Core.Option.{Option, none, some}
use mathlib.Core.List.{List, [], ◌∷◌, ◌++◌}
use native.Mathlib.Omega.{arith}
use ac.Common.Tests.{if◌then◌else◌, Eq, ◌==◌, string_eq, nat_eq}

module _ {ℓ} {A : Type ℓ} ⦃e : Eq A⦄ where
  -- `Set.has` and `Array.includes`.
  unfoldable pub contains : List A → A → Bool
  contains [] a = false
  contains (x ∷ xs) a = x == a || contains xs a

  -- `Set.delete`.
  unfoldable pub filter_out : A → List A → List A
  filter_out a [] = []
  filter_out a (x ∷ xs) = let rest = filter_out a xs in if x == a then rest else x ∷ rest

  -- No element stands in the list twice.
  abbrev pub IsDistinct : List A → Type 0
  IsDistinct [] = Unit
  IsDistinct (x ∷ xs) = (contains xs x ≡ false) × IsDistinct xs

  contains-append_one :
      (xs : List A) (x y : A)
      → contains xs x ≡ false
      → contains (x ∷ xs) y ≡ false
      → contains (xs ++ y ∷ []) x ≡ false
  unfolding contains
  contains-append_one [] x y h k = ground (arith, e.beq_iff x y, e.beq_iff y x)
  contains-append_one (z ∷ xs) x y h k =
      ground (arith, contains-append_one xs x y, e.beq_iff x y, e.beq_iff y x)

  pub IsDistinct-append_one :
      (xs : List A) (y : A) → IsDistinct xs → contains xs y ≡ false → IsDistinct (xs ++ y ∷ [])
  unfolding contains
  IsDistinct-append_one [] y h k = (refl, tt)
  IsDistinct-append_one (x ∷ xs) y (once, h) k =
      (contains-append_one xs x y once k, IsDistinct-append_one xs y h (ground arith))

  pub contains-last : (xs : List A) (y : A) → contains (xs ++ y ∷ []) y ≡ true
  unfolding contains
  contains-last [] y = ground (arith, e.beq_iff y y)
  contains-last (x ∷ xs) y = ground (arith, contains-last xs y)

module _ {ℓ κ} {K : Type ℓ} {V : Type κ} ⦃e : Eq K⦄ where
  -- `m.get(k)`.
  unfoldable pub lookup : K → List (K × V) → Option V
  lookup k [] = none
  lookup k ((i, w) ∷ rest) = if i == k then some w else lookup k rest

  -- `m.set(k, v)`.
  unfoldable pub insert : K → V → List (K × V) → List (K × V)
  insert k v [] = (k, v) ∷ []
  insert k v ((j, w) ∷ m) = if j == k then (k, v) ∷ m else (j, w) ∷ insert k v m

  -- `m.delete(k)`.
  unfoldable pub remove : K → List (K × V) → List (K × V)
  remove k [] = []
  remove k ((j, v) ∷ m) = if j == k then remove k m else (j, v) ∷ remove k m

  pub lookup-insert :
      (at key : K) (new : V) (m : List (K × V))
      → lookup key (insert at new m) ≡ (if at == key then some new else lookup key m)
  unfolding lookup insert
  lookup-insert at key new [] = refl
  lookup-insert at key new ((i, old) ∷ rest) =
      let below = lookup-insert at key new rest in
      ground (arith, below, e.beq_iff at key, e.beq_iff i at, e.beq_iff i key)

  pub lookup-remove :
      (k j : K) (m : List (K × V)) → lookup j (remove k m) ≡ (if k == j then none else lookup j m)
  unfolding lookup remove
  lookup-remove k j [] = ground arith
  lookup-remove k j ((i, w) ∷ m) =
      ground (arith, e.beq_iff k j, e.beq_iff i k, e.beq_iff i j, lookup-remove k j m)

-- ===== src/Common/Keyed.antt =====
-- How often a key stands in a list of pairs.
use Prim.Native.Nat.{ℕ, ◌+◌, ◌≤◌}
use mathlib.Core.Path.{◌≡◌, refl}
use mathlib.Core.Bool.{Bool}
use mathlib.Core.Option.{some, none}
use mathlib.Core.List.{List, [], ◌∷◌, ◌++◌}
use native.Mathlib.Omega.{arith}
use ac.Common.Tests.{if◌then◌else◌, nat_beq, nat_eq}
use ac.Common.Assoc.{lookup, insert, remove}

abbrev pub one_if : Bool → ℕ
one_if b = if b then 1 else 0

module _ (p : ℕ) where
  unfoldable pub keyed {ℓ} : {V : Type ℓ} → List (ℕ × V) → ℕ
  keyed [] = 0
  keyed ((q, v) ∷ m) = one_if (nat_beq q p) + keyed m

  pub keyed-append {ℓ} :
      {V : Type ℓ} (xs ys : List (ℕ × V)) → keyed (xs ++ ys) ≡ keyed xs + keyed ys
  unfolding keyed
  keyed-append [] ys = omega arith
  keyed-append ((q, v) ∷ m) ys = omega (arith, keyed-append m ys)

  pub keyed-remove {ℓ} :
      {V : Type ℓ} (q : ℕ) (m : List (ℕ × V))
      → keyed (remove q m) ≡ (if nat_beq q p then 0 else keyed m)
  unfolding keyed remove
  keyed-remove q [] = ground arith
  keyed-remove q ((r, v) ∷ m) = ground (arith, keyed-remove q m)

  pub keyed-lookup {ℓ} : {V : Type ℓ} (m : List (ℕ × V)) (v : V) → lookup p m ≡ some v → 1 ≤ keyed m
  unfolding keyed lookup
  keyed-lookup [] v h = cc
  keyed-lookup ((q, w) ∷ m) v h = ground (arith, keyed-lookup m v)

  -- A key that is absent is added.
  pub keyed-insert {ℓ} :
      {V : Type ℓ} (q : ℕ) (v : V) (m : List (ℕ × V))
      → lookup q m ≡ none
      → keyed (insert q v m) ≡ keyed m + one_if (nat_beq q p)
  unfolding keyed insert lookup
  keyed-insert q v [] h = omega arith
  keyed-insert q v ((r, w) ∷ m) h = ground (arith, keyed-insert q v m)

  pub keyed-absent {ℓ} : {V : Type ℓ} (m : List (ℕ × V)) → keyed m ≡ 0 → lookup p m ≡ none
  unfolding keyed lookup
  keyed-absent [] h = refl
  keyed-absent ((r, w) ∷ m) h = ground (arith, keyed-absent m)

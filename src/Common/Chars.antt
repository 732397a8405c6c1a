-- ===== src/Common/Chars.antt =====
-- Texts as lists of code units, where the program walks them, and tables over small ranges.
use Prim.Native.Nat.{ℕ, zero, suc, ◌<◌}
use Prim.Native.Char.{code}
use Prim.Native.String.{String}
use mathlib.Core.Path.{◌≡◌, refl, subst}
use mathlib.Core.Bool.{Bool, true, false, ◌&&◌}
use mathlib.Core.Option.{Option, none, some}
use mathlib.Core.List.{List, [], ◌∷◌}
use native.Mathlib.Omega.{arith}
use ac.Common.Tests.{if◌then◌else◌, nat_beq, nat_eq, Eq}
use ac.Common.Lists.{length}

-- A JavaScript string by its code units.
abbrev pub Text : Type 0
Text = List ℕ

-- The code units of a literal that holds ASCII only.
abbrev pub codes : String → Text
codes String.[] = []
codes (String.◌∷◌ c s) = code c ∷ codes s

abbrev pub text_beq : Text → Text → Bool
text_beq [] [] = true
text_beq (x ∷ xs) (y ∷ ys) = nat_beq x y && text_beq xs ys
text_beq _ _ = false

pub text_beq-eq : (xs ys : Text) → text_beq xs ys ≡ true → xs ≡ ys
text_beq-eq [] [] h = refl
text_beq-eq (x ∷ xs) (y ∷ ys) h = ground (arith, text_beq-eq xs ys)
text_beq-eq [] (y ∷ ys) h = ground arith
text_beq-eq (x ∷ xs) [] h = ground arith

pub text_beq_refl : (xs : Text) → text_beq xs xs ≡ true
text_beq_refl [] = refl
text_beq_refl (x ∷ xs) = ground (arith, text_beq_refl xs)

instance abbrev pub text_eq : Eq Text
text_eq = record {
  beq = text_beq;
  beq_iff =
      λ xs ys. (text_beq-eq xs ys, λ e. subst (λ zs. text_beq xs zs ≡ true) e (text_beq_refl xs));
}

-- `s.startsWith(prefix)`.
abbrev pub starts_with : Text → Text → Bool
starts_with [] s = true
starts_with (p ∷ ps) [] = false
starts_with (p ∷ ps) (c ∷ s) = nat_beq p c && starts_with ps s

-- `alphabet.indexOf(c)`, with `none` for -1.
unfoldable pub index_of : ℕ → Text → Option ℕ
index_of c [] = none
index_of c (x ∷ xs) =
    let rest = index_of c xs in
    if nat_beq x c then some 0 else elim rest [ none ↦ none | some i ↦ some (suc i) ]

unfoldable pub get_or {ℓ} : {A : Type ℓ} → List A → ℕ → A → A
get_or [] i d = d
get_or (x ∷ xs) zero d = x
get_or (x ∷ xs) (suc i) d = get_or xs i d

pub index_of-get_or :
    (c i d : ℕ) (xs : Text) → index_of c xs ≡ some i → (get_or xs i d ≡ c) × (i < length xs)
unfolding index_of get_or
index_of-get_or c i d [] h = ground arith
index_of-get_or c zero d (x ∷ xs) h = ground arith
index_of-get_or c (suc i) d (x ∷ xs) h = ground (arith, index_of-get_or c i d xs)

-- Over a small range, every value is checked by evaluation.
unfoldable pub all_below : ℕ → (ℕ → Bool) → Bool
all_below zero test = true
all_below (suc bound) test = all_below bound test && test bound

pub all_below_sound :
    (bound : ℕ) (test : ℕ → Bool) (i : ℕ) → all_below bound test ≡ true → i < bound → test i ≡ true
unfolding all_below
all_below_sound zero test i h below = absurd (omega arith)
all_below_sound (suc bound) test i h below = ground (arith, all_below_sound bound test i)

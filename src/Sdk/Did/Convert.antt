-- ===== src/Sdk/Did/Convert.antt =====
-- Change of radix of a number written most significant digit first, as both base58 loops do it:
-- leading zeros are carried over one for one.
use ac.Common.{
  ℕ, zero, suc, ◌+◌, ◌*◌, ◌≡◌, ◌<◌, ◌≤◌, refl, sym, ap, ◌∙◌, List, [], ◌∷◌, ◌++◌, reverse, arith,
  All, replicate,
}
use mathlib.Core.List.{reverse_aux, reverse-reverse}
use native.Mathlib.Nat.{add-zero}
use ac.Sdk.Did.Radix.{absorb, value, Canon, Canon-unique, absorb-value, absorb-Canon}

unfoldable pub absorb_all : ℕ → ℕ → List ℕ → List ℕ → List ℕ
absorb_all r s acc [] = acc
absorb_all r s acc (x ∷ xs) = absorb_all r s (absorb r s acc x) xs

-- The zeros at the front.
unfoldable pub zeros : List ℕ → ℕ
zeros [] = 0
zeros (zero ∷ xs) = suc (zeros xs)
zeros (suc x ∷ xs) = 0

pub strip : List ℕ → List ℕ
strip [] = []
strip (zero ∷ xs) = strip xs
strip (suc x ∷ xs) = suc x ∷ xs

unfoldable pub horner : ℕ → ℕ → List ℕ → ℕ
horner s v [] = v
horner s v (x ∷ xs) = horner s (x + s * v) xs

unfoldable pub convert : ℕ → ℕ → List ℕ → List ℕ
convert r s xs = replicate (zeros xs) 0 ++ reverse (absorb_all r s [] xs)

absorb_all-value :
    (r s : ℕ) (acc xs : List ℕ)
    → 2 ≤ r
    → value r (absorb_all r s acc xs) ≡ horner s (value r acc) xs
unfolding absorb_all horner
absorb_all-value r s acc [] h = refl
absorb_all-value r s acc (x ∷ xs) h =
    absorb_all-value r s (absorb r s acc x) xs h
    ∙ ap (λ v. horner s v xs) (absorb-value r s acc x h)

pub absorb_all-Canon :
    (r s : ℕ) (acc xs : List ℕ) → 2 ≤ r → 0 < s → Canon r acc → Canon r (absorb_all r s acc xs)
unfolding absorb_all
absorb_all-Canon r s acc [] h k v = v
absorb_all-Canon r s acc (x ∷ xs) h k v =
    absorb_all-Canon r s (absorb r s acc x) xs h k (absorb-Canon r s acc x h k v)

reverse-value : (s : ℕ) (xs acc : List ℕ) → value s (reverse_aux xs acc) ≡ horner s (value s acc) xs
unfolding horner value
reverse-value s [] acc = refl
reverse-value s (x ∷ xs) acc = reverse-value s xs (x ∷ acc)

cons-positive : (s x : ℕ) (acc : List ℕ) → 2 ≤ s → 0 < value s acc → 0 < value s (x ∷ acc)
unfolding value
cons-positive s x acc h p = grind arith

reverse-Canon :
    (s : ℕ) (xs acc : List ℕ)
    → 2 ≤ s
    → 0 < value s acc
    → Canon s acc
    → All (λ x. x < s) xs
    → Canon s (reverse_aux xs acc)
reverse-Canon s [] acc h p v a = v
reverse-Canon s (x ∷ xs) acc h p v (below, a) =
    let q = cons-positive s x acc h p in reverse-Canon s xs (x ∷ acc) h q (below, q, v) a

strip-Canon : (s : ℕ) (xs : List ℕ) → 2 ≤ s → All (λ x. x < s) xs → Canon s (reverse (strip xs))
unfolding strip
strip-Canon s [] h a = tt
strip-Canon s (zero ∷ xs) h (_, a) = strip-Canon s xs h a
strip-Canon s (suc x ∷ xs) h (below, a) =
    let p = suc-positive s x in reverse-Canon s xs (suc x ∷ []) h p (below, p, tt) a
  where
    suc-positive : (s x : ℕ) → 0 < value s (suc x ∷ [])
    suc-positive s x = unfold value in omega arith

strip-horner : (s : ℕ) (xs : List ℕ) → horner s 0 (strip xs) ≡ horner s 0 xs
unfolding strip horner
strip-horner s [] = refl
strip-horner s (zero ∷ xs) = rw (zero-add-mul s) (strip-horner s xs)
  where
    zero-add-mul : (s : ℕ) → zero + s * 0 ≡ 0
    zero-add-mul s = omega arith
strip-horner s (suc x ∷ xs) = refl

zeros-strip : (xs : List ℕ) → replicate (zeros xs) 0 ++ strip xs ≡ xs
unfolding strip zeros
zeros-strip [] = refl
zeros-strip (zero ∷ xs) = ap (◌∷◌ 0) (zeros-strip xs)
zeros-strip (suc x ∷ xs) = refl

-- Reversed canonical digits have no zero in front.
Canon-zeros : (r d : ℕ) (ds acc : List ℕ) → Canon r (d ∷ ds) → zeros (reverse_aux (d ∷ ds) acc) ≡ 0
unfolding zeros value
Canon-zeros r zero [] acc (_, p, _) = absurd (omega arith)
Canon-zeros r (suc d) [] acc (_, p, _) = refl
Canon-zeros r d (e ∷ ds) acc (_, _, v) = Canon-zeros r e ds (d ∷ acc) v

zeros-reverse : (r : ℕ) (ds : List ℕ) → Canon r ds → zeros (reverse ds) ≡ 0
unfolding zeros
zeros-reverse r [] v = refl
zeros-reverse r (d ∷ ds) v = Canon-zeros r d ds [] v

zeros-append : (n : ℕ) (xs : List ℕ) → zeros (replicate n 0 ++ xs) ≡ n + zeros xs
unfolding zeros
zeros-append zero xs = omega arith
zeros-append (suc n) xs = omega (arith, zeros-append n xs)

absorb_all-zeros :
    (r s n : ℕ) (xs : List ℕ) → absorb_all r s [] (replicate n 0 ++ xs) ≡ absorb_all r s [] xs
unfolding absorb_all absorb
absorb_all-zeros r s zero xs = refl
absorb_all-zeros r s (suc n) xs = absorb_all-zeros r s n xs

strip-value : (s : ℕ) (xs : List ℕ) → value s (reverse (strip xs)) ≡ horner s 0 xs
unfolding value
strip-value s xs = reverse-value s (strip xs) [] ∙ strip-horner s xs

-- Absorbing in the other radix what was absorbed in the first gives the digits back.
absorb_all-back :
    (r s : ℕ) (xs : List ℕ)
    → 2 ≤ r
    → 2 ≤ s
    → All (λ x. x < s) xs
    → absorb_all s r [] (reverse (absorb_all r s [] xs)) ≡ reverse (strip xs)
unfolding value
absorb_all-back r s xs h k a =
    let digits = absorb_all r s [] xs in
    Canon-unique s _ _ (absorb_all-Canon s r [] (reverse digits) k (omega arith) tt)
      (strip-Canon s xs k a)
      (absorb_all-value s r [] (reverse digits) k
        ∙ sym (reverse-value r (reverse digits) [])
        ∙ ap (value r) (reverse-reverse digits)
        ∙ absorb_all-value r s [] xs h
        ∙ sym (strip-value s xs))

-- Converting to radix `r` and back gives every digit back, leading zeros included.
pub convert-convert :
    (r s : ℕ) (xs : List ℕ)
    → 2 ≤ r
    → 2 ≤ s
    → All (λ x. x < s) xs
    → convert s r (convert r s xs) ≡ xs
unfolding convert
convert-convert r s xs h k a =
    let digits = absorb_all r s [] xs in
    let no_zeros = zeros-reverse r digits (absorb_all-Canon r s [] xs h (omega arith) tt) in
    rw
      (
        zeros-append (zeros xs) (reverse digits),
        no_zeros,
        absorb_all-zeros s r (zeros xs) (reverse digits),
        absorb_all-back r s xs h k a,
        add-zero,
        reverse-reverse (strip xs),
      )
      (zeros-strip xs)

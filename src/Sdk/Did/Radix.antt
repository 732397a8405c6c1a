-- ===== src/Sdk/Did/Radix.antt =====
-- Positional numbers, least digit first.
use ac.Common.{
  ℕ, zero, suc, ◌+◌, ◌*◌, ◌/◌, ◌%◌, ◌≡◌, refl, List, [], ◌∷◌, arith, ltb, if◌then◌else◌, ◌<◌, ◌≤◌,
  ap,
}

-- `while (carry > 0) { out.push(carry % r); carry = carry / r }`
unfoldable pub emit : ℕ → ℕ → ℕ → List ℕ
emit r zero carry = []
emit r (suc fuel) carry =
    let rest = emit r fuel (carry / r) in if ltb 0 carry then (carry % r) ∷ rest else []

unfoldable pub absorb : ℕ → ℕ → List ℕ → ℕ → List ℕ
unfolding emit
absorb r s [] carry = emit r carry carry
absorb r s (d ∷ ds) carry = let c = carry + d * s in (c % r) ∷ absorb r s ds (c / r)

unfoldable pub value : ℕ → List ℕ → ℕ
value r [] = 0
value r (d ∷ ds) = d + r * value r ds

split : (r c : ℕ) → c % r + r * (c / r) ≡ c
split r c = grind arith

quotient-lt : (r c : ℕ) → 2 ≤ r → 0 < c → c / r < c
quotient-lt r c h k = grind arith

remainder-lt : (r c : ℕ) → 2 ≤ r → c % r < r
remainder-lt r c h = grind arith

emit-value : (r fuel c : ℕ) → 2 ≤ r → c ≤ fuel → value r (emit r fuel c) ≡ c
unfolding emit value
emit-value r zero c h k = omega arith
emit-value r (suc fuel) c h k =
    ground (arith, quotient-lt r c, emit-value r fuel (c / r), split r c)

pub absorb-value :
    (r s : ℕ) (ds : List ℕ) (c : ℕ) → 2 ≤ r → value r (absorb r s ds c) ≡ c + s * value r ds
unfolding absorb value
absorb-value r s [] c h = omega (arith, emit-value r c c h)
absorb-value r s (d ∷ ds) c h =
    grind (arith, absorb-value r s ds ((c + d * s) / r) h, split r (c + d * s))

quotient-eq : (r a b v w : ℕ) → a < r → b < r → a + r * v ≡ b + r * w → v ≡ w
quotient-eq r a b v w h k e = grind arith

absorb-positive :
    (r s d : ℕ) (ds : List ℕ) (c : ℕ)
    → 2 ≤ r
    → 0 < s
    → 0 < value r (d ∷ ds)
    → 0 < value r (absorb r s (d ∷ ds) c)
absorb-positive r s d ds c h k p = grind (arith, absorb-value r s (d ∷ ds) c h)

-- Digits below the radix, with no zero at the most significant end.
abbrev pub Canon : ℕ → List ℕ → Type 0
Canon r [] = Unit {0}
Canon r (d ∷ ds) = (d < r) × (0 < value r (d ∷ ds)) × Canon r ds

digit_unique : (r a b v w : ℕ) → a < r → b < r → a + r * v ≡ b + r * w → (a ≡ b) × (v ≡ w)
digit_unique r a b v w h k e =
    let q : v ≡ w = quotient-eq r a b v w h k e in (omega (arith, ap (λ (t : ℕ). r * t) q), q)

-- A number has one canonical form.
pub Canon-unique :
    (r : ℕ) (xs ys : List ℕ) → Canon r xs → Canon r ys → value r xs ≡ value r ys → xs ≡ ys
unfolding value
Canon-unique r [] [] h k e = refl
Canon-unique r [] (y ∷ ys) h k e = absurd (omega arith)
Canon-unique r (x ∷ xs) [] h k e = absurd (omega arith)
Canon-unique r (x ∷ xs) (y ∷ ys) (hx, _, h) (ky, _, k) e =
    let (same, rest) = digit_unique r x y (value r xs) (value r ys) hx ky e in
    cc (same, Canon-unique r xs ys h k rest)

emit-Canon : (r fuel c : ℕ) → 2 ≤ r → c ≤ fuel → Canon r (emit r fuel c)
unfolding emit value
emit-Canon r zero c h k = tt
emit-Canon r (suc fuel) c h k = ground (
  arith,
  quotient-lt r c,
  remainder-lt r c h,
  emit-Canon r fuel (c / r),
  emit-value r fuel (c / r),
  split r c,
)

pub absorb-Canon :
    (r s : ℕ) (ds : List ℕ) (c : ℕ) → 2 ≤ r → 0 < s → Canon r ds → Canon r (absorb r s ds c)
unfolding absorb
absorb-Canon r s [] c h k v = emit-Canon r c c h (omega arith)
absorb-Canon r s (d ∷ ds) c h k (below, positive, v) = (
  remainder-lt r _ h,
  absorb-positive r s d ds c h k positive,
  absorb-Canon r s ds ((c + d * s) / r) h k v,
)

-- ===== src/Sdk/Did/Base58.antt =====
-- base58btc: `base58btcEncode` and `base58btcDecode`.
use ac.Common.{
  ℕ, zero, suc, ◌≡◌, ◌<◌, ◌≤◌, refl, sym, ap, ◌∙◌, List, [], ◌∷◌, ◌++◌, reverse, map, arith, All,
  replicate, if◌then◌else◌, nat_beq, Option, none, some, Text, codes, index_of, get_or,
  index_of-get_or, all_below, all_below_sound, true, false, inl, inr, Option-cases, All-append,
  All-reverse,
}
use mathlib.Core.List.{append-nil, reverse-append, reverse_aux}
use ac.Sdk.Did.Radix.{absorb, Canon}
use ac.Sdk.Did.Convert.{absorb_all, absorb_all-Canon, zeros, convert, convert-convert}

abbrev alphabet58 : Text
alphabet58 = codes "123456789ABCDEFGHJKLMNPQRSTUVWXYZabcdefghijkmnopqrstuvwxyz"

abbrev char58 : ℕ → ℕ
char58 d = get_or alphabet58 d 0

unfoldable pub encode58 : List ℕ → Text
unfolding absorb_all zeros
encode58 bytes = replicate (zeros bytes) b'1' ++ map char58 (reverse (absorb_all 58 256 [] bytes))

-- The loop over the characters; the bytes are kept least significant first.
decode58_from : List ℕ → Text → Option (List ℕ)
decode58_from bytes [] = some bytes
decode58_from bytes (c ∷ str) = elim (index_of c alphabet58) [
  | none ↦ none
  | some val ↦ decode58_from (absorb 256 58 bytes val) str
]

-- The `1`s at the front.
ones : Text → ℕ
ones [] = 0
ones (c ∷ str) = let rest = ones str in if nat_beq c b'1' then suc rest else 0

unfoldable pub decode58 : Text → Option (List ℕ)
unfolding decode58_from ones
decode58 str = elim (decode58_from [] str) [
  | none ↦ none
  | some bytes ↦ some (reverse (bytes ++ replicate (ones str) 0))
]

char58_table :
    all_below 58
      (λ d. elim (index_of (char58 d) alphabet58) [ none ↦ false | some i ↦ nat_beq i d ])
    ≡ true
unfolding all_below index_of get_or
char58_table = refl

index_of-char58 : (d : ℕ) → d < 58 → index_of (char58 d) alphabet58 ≡ some d
index_of-char58 d h = ground (
  arith,
  all_below_sound 58
      (λ d. elim (index_of (char58 d) alphabet58) [ none ↦ false | some i ↦ nat_beq i d ]) d
      char58_table h,
)

one_table : all_below 57 (λ d. if nat_beq (char58 (suc d)) b'1' then false else true) ≡ true
unfolding all_below get_or
one_table = refl

decode58_from-map :
    (bytes ds : List ℕ)
    → All (λ d. d < 58) ds
    → decode58_from bytes (map char58 ds) ≡ some (absorb_all 256 58 bytes ds)
unfolding decode58_from absorb_all
decode58_from-map bytes [] h = refl
decode58_from-map bytes (d ∷ ds) (below, h) =
    rw (index_of-char58 d below, decode58_from) (decode58_from-map (absorb 256 58 bytes d) ds h)

ones-map : (ds : List ℕ) → All (λ d. d < 58) ds → ones (map char58 ds) ≡ zeros ds
unfolding ones zeros get_or
ones-map [] h = refl
ones-map (zero ∷ ds) (below, h) = ap suc (ones-map ds h)
ones-map (suc d ∷ ds) (below, h) = ground (
  arith,
  all_below_sound 57 (λ d. if nat_beq (char58 (suc d)) b'1' then false else true) d one_table,
)

reverse-replicate {ℓ} :
    {A : Type ℓ} (n : ℕ) (a : A) (xs : List A)
    → reverse (xs ++ replicate n a) ≡ replicate n a ++ reverse xs
reverse-replicate n a xs =
    reverse-append xs (replicate n a) ∙ ap (λ l. l ++ reverse xs) (flip n [] ∙ append-nil _)
  where
    push : (n : ℕ) (acc : List _) → replicate n a ++ a ∷ acc ≡ a ∷ replicate n a ++ acc
    push zero acc = refl
    push (suc n) acc = ap (◌∷◌ a) (push n acc)

    flip : (n : ℕ) (acc : List _) → reverse_aux (replicate n a) acc ≡ replicate n a ++ acc
    flip zero acc = refl
    flip (suc n) acc = flip n (a ∷ acc) ∙ push n acc

-- On the characters of digits, decoding changes the radix from 58 to 256.
decode58-map :
    (ds : List ℕ) → All (λ d. d < 58) ds → decode58 (map char58 ds) ≡ some (convert 256 58 ds)
unfolding decode58 convert
decode58-map ds h =
    rw (decode58_from-map [] ds h, ones-map ds h, decode58)
      (ap some (reverse-replicate (zeros ds) 0 (absorb_all 256 58 [] ds)))

map-replicate_one :
    (n : ℕ) (xs : List ℕ) → map char58 (replicate n 0 ++ xs) ≡ replicate n b'1' ++ map char58 xs
unfolding get_or
map-replicate_one zero xs = refl
map-replicate_one (suc n) xs = ap (◌∷◌ b'1') (map-replicate_one n xs)

encode58-convert : (bytes : List ℕ) → encode58 bytes ≡ map char58 (convert 58 256 bytes)
unfolding encode58 convert
encode58-convert bytes = sym (map-replicate_one (zeros bytes) _)

Canon-below : (r : ℕ) (ds : List ℕ) → Canon r ds → All (λ d. d < r) ds
Canon-below r [] h = tt
Canon-below r (d ∷ ds) (below, _, h) = (below, Canon-below r ds h)

replicate-below : (r n : ℕ) → 0 < r → All (λ d. d < r) (replicate n 0)
replicate-below r zero h = tt
replicate-below r (suc n) h = (h, replicate-below r n h)

convert-below : (r s : ℕ) (xs : List ℕ) → 2 ≤ r → 0 < s → All (λ d. d < r) (convert r s xs)
unfolding convert
convert-below r s xs h k =
    All-append (λ d. d < r) (replicate (zeros xs) 0) _ (replicate-below r (zeros xs) (omega arith))
      (All-reverse (λ d. d < r) (absorb_all r s [] xs)
        (Canon-below r _ (absorb_all-Canon r s [] xs h k tt)))

-- Decoding the base58 text of any byte string, leading zero bytes included, gives the bytes back.
pub decode58-encode58 :
    (bytes : List ℕ) → All (λ b. b < 256) bytes → decode58 (encode58 bytes) ≡ some bytes
decode58-encode58 bytes h = rw (encode58-convert bytes) (
    decode58-map _ (convert-below 58 256 bytes (omega arith) (omega arith))
    ∙ ap some (convert-convert 58 256 bytes (omega arith) (omega arith) h))

-- A text is decoded only if each of its characters is in the alphabet.
decode58_from-digits :
    (acc : List ℕ) (str : Text) (bytes : List ℕ)
    → decode58_from acc str ≡ some bytes
    → (ds : List ℕ) × (map char58 ds ≡ str) × All (λ d. d < 58) ds
unfolding decode58_from
decode58_from-digits acc [] bytes h = ([], refl, tt)
decode58_from-digits acc (c ∷ str) bytes h = elim (Option-cases (index_of c alphabet58)) [
  | inl unknown ↦ absurd (no_digit unknown)
  | inr (v, found) ↦
      let (same, below) = index_of-get_or c v 0 alphabet58 found in
      let (ds, text, small) =
        decode58_from-digits (absorb 256 58 acc v) str bytes (rw (found, decode58_from) at h) in
      (v ∷ ds, ground (arith, same, text), (below, small))
]
  where
    no_digit : index_of c alphabet58 ≡ none → ⊥
    no_digit e = let k = rw (e, decode58_from) at h in cc

decode58-digits :
    (str : Text) (bytes : List ℕ)
    → decode58 str ≡ some bytes
    → (ds : List ℕ) × (map char58 ds ≡ str) × All (λ d. d < 58) ds
unfolding decode58
decode58-digits str bytes h = elim (Option-cases (decode58_from [] str)) [
  | inl e ↦ absurd (let k = rw (e, decode58) at h in cc)
  | inr (b, e) ↦ decode58_from-digits [] str b e
]

-- Every text that decodes is the one base58 text of its bytes, and these are bytes.
pub encode58-decode58 :
    (str : Text) (bytes : List ℕ)
    → decode58 str ≡ some bytes
    → (encode58 bytes ≡ str) × All (λ b. b < 256) bytes
encode58-decode58 str bytes h =
    let (ds, text, small) = decode58-digits str bytes h in
    let e : some (convert 256 58 ds) ≡ some bytes =
      sym (decode58-map ds small) ∙ ap decode58 text ∙ h in
    let same : convert 256 58 ds ≡ bytes = cc e in
    (
      rw (← same) (
          encode58-convert _
          ∙ ap (map char58) (convert-convert 256 58 ds (omega arith) (omega arith) small)
          ∙ text),
      rw same at (convert-below 256 58 ds (omega arith) (omega arith)),
    )

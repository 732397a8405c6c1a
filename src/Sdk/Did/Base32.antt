-- ===== src/Sdk/Did/Base32.antt =====
-- `base32Decode`: five bits at a time through a 32-bit shift register.
use ac.Common.{
  ℕ, zero, suc, ◌+◌, ◌-◌, ◌*◌, ◌/◌, ◌%◌, ◌^◌, ◌≡◌, ◌<◌, ◌≤◌, refl, List, [], ◌∷◌, ◌++◌, arith, All,
  All-append, if◌then◌else◌, nat_beq, leb, Option, none, some, Text, codes, index_of, length, ◌&&◌,
  inl, inr, Option-cases, length-append, map, Bool-cases, all_below, all_below_sound, get_or, true,
  false, not, nat_beq_iff, Bool,
}
use native.Mathlib.Nat.{add-zero, mod-lt, one-le-pow}
use ac.Sdk.Did.Convert.{horner}

abbrev pub alphabet32 : Text
alphabet32 = codes "ABCDEFGHIJKLMNOPQRSTUVWXYZ234567"

-- `toUpperCase` on ASCII.
upper : ℕ → ℕ
upper c = if leb b'a' c && leb c b'z' then c - 32 else c

-- `s.replace(/=+$/, '')`.
strip_pad : Text → Text
strip_pad [] = []
strip_pad (c ∷ s) = pad c (strip_pad s)
  where
    pad : ℕ → Text → Text
    pad c [] = if nat_beq c b'=' then [] else c ∷ []
    pad c (d ∷ s) = c ∷ d ∷ s

-- `(value << 5) | idx` in 32 bits: the five low bits of the shifted value are free.
abbrev shift_in : ℕ → ℕ → ℕ
shift_in value idx = value * 32 % 2 ^ 32 + idx

-- The variables of the loop; `bits` is below 8 between rounds.
pub record Shift : Type 0 where
  pub value : ℕ
  pub bits : ℕ
  pub out : List ℕ

-- One round, with the character's index.
shift_round : Shift → ℕ → Shift
shift_round st idx =
    let v = shift_in st.value idx in
    if leb 8 (st.bits + 5)
    then record {
      value = v;
      bits = st.bits + 5 - 8;
      out = st.out ++ (v / 2 ^ (st.bits + 5 - 8) % 256) ∷ [];
    }
    else record { value = v; bits = st.bits + 5; out = st.out }

decode32_from : Shift → Text → Option (List ℕ)
decode32_from st [] = some st.out
decode32_from st (c ∷ s) = elim (index_of c alphabet32) [
  | none ↦ none
  | some idx ↦ decode32_from (shift_round st idx) s
]

unfoldable pub decode32 : Text → Option (List ℕ)
unfolding decode32_from upper strip_pad shift_round
decode32 str = decode32_from (record { value = 0; bits = 0; out = [] }) (strip_pad (map upper str))

abbrev AreBytes : List ℕ → Type 0
AreBytes = All (λ b. b < 256)

mod-lt_byte : (n : ℕ) → n % 256 < 256
mod-lt_byte n = omega arith

shift_round-bytes : (st : Shift) (idx : ℕ) → AreBytes st.out → AreBytes (shift_round st idx).out
unfolding shift_round
shift_round-bytes st idx h = elim (Bool-cases (leb 8 (st.bits + 5))) [
  | inl full ↦ rw full (
      All-append (λ b. b < 256) st.out _ h
        (mod-lt_byte (shift_in st.value idx / 2 ^ (st.bits + 5 - 8)), tt))
  | inr short ↦ rw short h
]

decode32_from-bytes :
    (st : Shift) (s : Text) (bytes : List ℕ)
    → AreBytes st.out
    → decode32_from st s ≡ some bytes
    → AreBytes bytes
unfolding decode32_from
decode32_from-bytes st [] bytes h e = let same : st.out ≡ bytes = cc in rw (← same) h
decode32_from-bytes st (c ∷ s) bytes h e = elim (Option-cases (index_of c alphabet32)) [
  | inl missing ↦ absurd (let k = rw (missing, decode32_from) at e in cc)
  | inr (idx, found) ↦
      decode32_from-bytes (shift_round st idx) s bytes (shift_round-bytes st idx h)
        (rw (found, decode32_from) at e)
]

-- What is decoded is bytes.
pub decode32-bytes : (s : Text) (bytes : List ℕ) → decode32 s ≡ some bytes → AreBytes bytes
unfolding decode32
decode32-bytes s bytes e = decode32_from-bytes _ _ bytes tt e

decode32_test : decode32 (codes "mzxw6ytboi======") ≡ some (codes "foobar")
unfolding decode32 index_of
decode32_test = refl

-- What has been read so far, as a number, is what has been written and the bits that are left.
record Tracks (st : Shift) (n k : ℕ) : Type 0 where
  short : st.bits < 8
  number : n ≡ horner 256 0 st.out * 2 ^ st.bits + st.value % 2 ^ st.bits
  written : length st.out * 8 + st.bits ≡ 5 * k

horner-append : (r v b : ℕ) (xs : List ℕ) → horner r v (xs ++ b ∷ []) ≡ b + r * horner r v xs
unfolding horner
horner-append r v b [] = refl
horner-append r v b (x ∷ xs) = horner-append r (x + r * v) b xs

-- The arithmetic of one round, at each number of bits left over from the last one.
carry_on :
    (bits o value idx n : ℕ)
    → bits < 3
    → idx < 32
    → n ≡ o * 2 ^ bits + value % 2 ^ bits
    → idx + 32 * n ≡ o * 2 ^ (bits + 5) + shift_in value idx % 2 ^ (bits + 5)
carry_on zero o value idx n h k e = omega arith
carry_on (suc zero) o value idx n h k e = omega arith
carry_on (suc (suc zero)) o value idx n h k e = omega arith
carry_on (suc (suc (suc b))) o value idx n h k e = absurd (omega arith)

write_byte :
    (bits o value idx n : ℕ)
    → 3 ≤ bits
    → bits < 8
    → idx < 32
    → n ≡ o * 2 ^ bits + value % 2 ^ bits
    → idx + 32 * n
      ≡ (shift_in value idx / 2 ^ (bits + 5 - 8) % 256 + 256 * o) * 2 ^ (bits + 5 - 8)
        + shift_in value idx % 2 ^ (bits + 5 - 8)
write_byte zero o value idx n h h' k e = absurd (omega arith)
write_byte (suc zero) o value idx n h h' k e = absurd (omega arith)
write_byte (suc (suc zero)) o value idx n h h' k e = absurd (omega arith)
write_byte (suc (suc (suc zero))) o value idx n h h' k e = omega arith
write_byte (suc (suc (suc (suc zero)))) o value idx n h h' k e = omega arith
write_byte (suc (suc (suc (suc (suc zero))))) o value idx n h h' k e = omega arith
write_byte (suc (suc (suc (suc (suc (suc zero)))))) o value idx n h h' k e = omega arith
write_byte (suc (suc (suc (suc (suc (suc (suc zero))))))) o value idx n h h' k e = omega arith
write_byte (suc (suc (suc (suc (suc (suc (suc (suc b)))))))) o value idx n h h' k e =
    absurd (omega arith)

shift_round-Tracks :
    (st : Shift) (idx n k : ℕ)
    → idx < 32
    → Tracks st n k
    → Tracks (shift_round st idx) (idx + 32 * n) (suc k)
unfolding shift_round
shift_round-Tracks st idx n k h t = elim (Bool-cases (leb 8 (st.bits + 5))) [
  | inl full ↦
      let byte = shift_in st.value idx / 2 ^ (st.bits + 5 - 8) % 256 in
      let enough : 3 ≤ st.bits = ground arith in
      rw full (record {
        short = omega (arith, t.short);
        number =
            rw (horner-append 256 0 byte st.out)
              (write_byte st.bits (horner 256 0 st.out) st.value idx n enough t.short h t.number);
        written = omega (arith, t.written, length-append st.out (byte ∷ []));
      })
  | inr few ↦
      let fits : st.bits < 3 = ground arith in
      rw few (record {
        short = omega arith;
        number = carry_on st.bits (horner 256 0 st.out) st.value idx n fits h t.number;
        written = omega (arith, t.written);
      })
]

abbrev pub char32 : ℕ → ℕ
char32 d = get_or alphabet32 d 0

abbrev finds : Option ℕ → ℕ → Bool
finds none d = false
finds (some i) d = nat_beq i d

upper-char32_table : all_below 32 (λ d. nat_beq (upper (char32 d)) (char32 d)) ≡ true
unfolding all_below get_or upper
upper-char32_table = refl

char32-pad_table : all_below 32 (λ d. not (nat_beq (char32 d) b'=')) ≡ true
unfolding all_below get_or
char32-pad_table = refl

index_of-char32_table : all_below 32 (λ d. finds (index_of (char32 d) alphabet32) d) ≡ true
unfolding all_below index_of get_or
index_of-char32_table = refl

upper-char32 : (d : ℕ) → d < 32 → upper (char32 d) ≡ char32 d
upper-char32 d h = (nat_beq_iff _ _).0 (all_below_sound 32 _ d upper-char32_table h)

char32-pad : (d : ℕ) → d < 32 → nat_beq (char32 d) b'=' ≡ false
char32-pad d h =
    ground (arith, all_below_sound 32 (λ d. not (nat_beq (char32 d) b'=')) d char32-pad_table h)

finds-eq : (o : Option ℕ) (d : ℕ) → finds o d ≡ true → o ≡ some d
finds-eq o d h = ground arith

index_of-char32 : (d : ℕ) → d < 32 → index_of (char32 d) alphabet32 ≡ some d
index_of-char32 d h = finds-eq _ d (all_below_sound 32 _ d index_of-char32_table h)

strip_pad-map :
    (ds : List ℕ) → All (λ d. d < 32) ds → strip_pad (map upper (map char32 ds)) ≡ map char32 ds
unfolding strip_pad
strip_pad-map [] h = refl
strip_pad-map (d ∷ []) (below, _) = rw (upper-char32 d below, char32-pad d below) refl
strip_pad-map (d ∷ e ∷ ds) (below, h) = rw (upper-char32 d below, strip_pad-map (e ∷ ds) h) refl

decode32_from-Tracks :
    (st : Shift) (ds : List ℕ) (n k : ℕ)
    → All (λ d. d < 32) ds
    → Tracks st n k
    → (end : Shift) × (decode32_from st (map char32 ds) ≡ some end.out)
      × Tracks end (horner 32 n ds) (k + length ds)
unfolding decode32_from horner
decode32_from-Tracks st [] n k h t = (st, refl, rw add-zero t)
decode32_from-Tracks st (d ∷ ds) n k (below, h) t =
    let (end, run, tracks) =
      decode32_from-Tracks (shift_round st d) ds (d + 32 * n) (suc k) h
        (shift_round-Tracks st d n k below t) in
    let same : k + length (d ∷ ds) ≡ suc k + length ds = omega arith in
    (end, rw (index_of-char32 d below, decode32_from) run, rw same tracks)

-- The bytes that a text of base32 digits decodes to are its number in base 256, most significant
-- byte first, up to a remainder of fewer than eight bits, at any length of the text.
pub decode32_positional :
    (ds : List ℕ)
    → All (λ d. d < 32) ds
    → (bytes : List ℕ) × (left : ℕ) × (rest : ℕ) × (decode32 (map char32 ds) ≡ some bytes)
      × (left < 8)
      × (length bytes * 8 + left ≡ 5 * length ds)
      × (rest < 2 ^ left)
      × (horner 32 0 ds ≡ horner 256 0 bytes * 2 ^ left + rest)
unfolding decode32
decode32_positional ds h =
    let (end, run, t) =
      decode32_from-Tracks (record { value = 0; bits = 0; out = [] }) ds 0 0 h start in
    (
      end.out,
      end.bits,
      end.value % 2 ^ end.bits,
      rw (strip_pad-map ds h) run,
      t.short,
      omega (arith, t.written),
      rest_small end.bits end.value t.short,
      t.number,
    )
  where
    start : Tracks (record { value = 0; bits = 0; out = [] }) 0 0
    start =
        unfold horner in record { short = omega arith; number = omega arith; written = omega arith }

    rest_small : (b v : ℕ) → b < 8 → v % 2 ^ b < 2 ^ b
    rest_small b v h = mod-lt v (one-le-pow b 2 (omega arith))

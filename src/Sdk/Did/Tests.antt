-- ===== src/Sdk/Did/Tests.antt =====
-- The theorems on `did:key` values and their encodings at small inputs.
use ac.Common.{
  ℕ, ◌≡◌, ◌<◌, ◌*◌, ◌+◌, ◌^◌, ◌↔◌, refl, some, List, [], ◌∷◌, arith, All, Text, length, replicate,
  map, suc, zero,
}
use ac.Sdk.Did.Convert.{horner}
use ac.Sdk.Did.Base58.{decode58, encode58, decode58-encode58, encode58-decode58}
use ac.Sdk.Did.Base32.{decode32, char32, decode32_positional}
use ac.Sdk.Did.Key.{public_key_to_did_key, normalize_did_key}
use ac.Sdk.Did.Key.Normal.{IsKey, extract-public_key, normalize-eq_iff}

abbrev some_bytes : List ℕ
some_bytes = 0 ∷ 255 ∷ 1 ∷ []

some_bytes-below : All (λ b. b < 256) some_bytes
some_bytes-below = (omega arith, (omega arith, (omega arith, tt)))

decode58-encode58_example : decode58 (encode58 some_bytes) ≡ some some_bytes
decode58-encode58_example = decode58-encode58 some_bytes some_bytes-below

abbrev some_text : Text
some_text = encode58 (0 ∷ 1 ∷ [])

some_text-decodes : decode58 some_text ≡ some (0 ∷ 1 ∷ [])
some_text-decodes = decode58-encode58 (0 ∷ 1 ∷ []) (omega arith, (omega arith, tt))

encode58-decode58_example : (encode58 (0 ∷ 1 ∷ []) ≡ some_text) × All (λ b. b < 256) (0 ∷ 1 ∷ [])
encode58-decode58_example = encode58-decode58 some_text (0 ∷ 1 ∷ []) some_text-decodes

abbrev some_digits : List ℕ
some_digits = 12 ∷ 25 ∷ 23 ∷ []

some_digits-below : All (λ d. d < 32) some_digits
some_digits-below = (omega arith, (omega arith, (omega arith, tt)))

decode32_positional_example :
    (bytes : List ℕ) × (left : ℕ) × (rest : ℕ) × (decode32 (map char32 some_digits) ≡ some bytes)
    × (left < 8)
    × (length bytes * 8 + left ≡ 5 * length some_digits)
    × (rest < 2 ^ left)
    × (horner 32 0 some_digits ≡ horner 256 0 bytes * 2 ^ left + rest)
decode32_positional_example = decode32_positional some_digits some_digits-below

-- A base64 decoder that never yields a byte.
abbrev no_bytes : Text → List ℕ
no_bytes s = []

abbrev some_key : List ℕ
some_key = replicate 32 7

replicate-below : (n b : ℕ) → b < 256 → All (λ b. b < 256) (replicate n b)
replicate-below zero b h = tt
replicate-below (suc n) b h = (h, replicate-below n b h)

some_key-IsKey : IsKey some_key
some_key-IsKey = record { size = refl; bytes = replicate-below 32 7 (omega arith) }

abbrev some_did : Text
some_did = public_key_to_did_key some_key

normalize-eq_iff_example :
    (normalize_did_key no_bytes some_did ≡ normalize_did_key no_bytes some_did)
    ↔ (some_key ≡ some_key)
normalize-eq_iff_example =
    normalize-eq_iff no_bytes (λ s. tt) some_did some_did some_key some_key
      (extract-public_key no_bytes some_key some_key-IsKey)
      (extract-public_key no_bytes some_key some_key-IsKey)

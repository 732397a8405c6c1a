-- ===== src/Sdk/Did/Key.antt =====
-- `did:key` values: `publicKeyToDidKey`, `extractEd25519PublicKey`, `normalizeDidKey`.
-- A text is its code units. `Buffer.from(s, 'base64')` is the parameter `buffer_from`.
pub mod Normal
use ac.Common.{
  ℕ, List, [], ◌∷◌, ◌++◌, if◌then◌else◌, nat_beq, leb, Bool, true, false, ◌&&◌, ◌||◌, Option, none,
  some, Text, codes, index_of, length, is_some, all, take, drop, starts_with, map,
}
use ac.Sdk.Did.Base58.{encode58, decode58}
use ac.Sdk.Did.Base32.{alphabet32, decode32}

abbrev did_key_prefix : Text
did_key_prefix = codes "did:key:"

unfoldable pub public_key_to_did_key : List ℕ → Text
public_key_to_did_key key = did_key_prefix ++ (b'z' ∷ encode58 (0xed ∷ 0x01 ∷ key))

-- `[A-Za-z0-9+/]`.
is_base64 : ℕ → Bool
is_base64 c =
    (leb b'A' c && leb c b'Z')
    || (leb b'a' c && leb c b'z')
    || (leb b'0' c && leb c b'9')
    || nat_beq c b'+'
    || nat_beq c b'/'

-- What is left after the longest run of base64 characters is `=*`.
padding_left : Text → Bool
padding_left [] = true
padding_left (c ∷ s) =
    let rest = padding_left s in if is_base64 c then rest else all (λ d. nat_beq d b'=') (c ∷ s)

-- `/^[A-Za-z0-9+/]+=*$/.test(s)`.
looks_base64 : Text → Bool
looks_base64 [] = false
looks_base64 (c ∷ s) = is_base64 c && padding_left s

-- `s.replace(/-/g, '+').replace(/_/g, '/')`.
url_safe : ℕ → ℕ
url_safe c = if nat_beq c b'-' then b'+' else if nat_beq c b'_' then b'/' else c

-- `/^[A-Z2-7]{58}$/.test(id)`.
looks_address : Text → Bool
looks_address id = nat_beq (length id) 58 && all (λ c. is_some (index_of c alphabet32)) id

-- `decoded[0] === 0xed && decoded[1] === 0x01`.
has_multicodec : List ℕ → Bool
has_multicodec (a ∷ b ∷ _) = nat_beq a 0xed && nat_beq b 0x01
has_multicodec _ = false

-- The branch for `z…`, on the decoded bytes.
key_of_base58 : List ℕ → Option (List ℕ)
unfolding has_multicodec
key_of_base58 decoded =
    if nat_beq (length decoded) 34 && has_multicodec decoded
    then some (drop 2 decoded)
    else if nat_beq (length decoded) 32
    then some decoded
    else none

-- The branch for an Algorand address, on the decoded bytes.
key_of_base32 : List ℕ → Option (List ℕ)
key_of_base32 decoded = if leb 32 (length decoded) then some (take 32 decoded) else none

-- The branch for base64, on the decoded bytes.
key_of_base64 : List ℕ → Option (List ℕ)
key_of_base64 decoded = if nat_beq (length decoded) 32 then some decoded else none

infixl 5 ◌>>=◌
abbrev ◌>>=◌ {ℓ κ} : {A : Type ℓ} {B : Type κ} → Option A → (A → Option B) → Option B
none >>= k = none
some a >>= k = k a

-- `value.startsWith(DID_KEY_PREFIX) ? value.slice(DID_KEY_PREFIX.length) : value`.
strip_prefix : Text → Text
strip_prefix value = if starts_with did_key_prefix value then drop 8 value else value

module _ (buffer_from : Text → List ℕ) where
  try_base64_decode : Text → Option (List ℕ)
  unfolding looks_base64 padding_left is_base64 url_safe
  try_base64_decode s =
      let norm = map url_safe s in if looks_base64 norm then some (buffer_from norm) else none

  -- The three encodings, in the order of their tests.
  key_of_id : Text → Option (List ℕ)
  unfolding key_of_base58 key_of_base32 key_of_base64 looks_address try_base64_decode
  key_of_id [] = none
  key_of_id (c ∷ id) =
      if nat_beq c b'z'
      then (decode58 id >>= key_of_base58)
      else if looks_address (c ∷ id)
      then (decode32 (c ∷ id) >>= key_of_base32)
      else (try_base64_decode (c ∷ id) >>= key_of_base64)

  unfoldable pub extract_ed25519_public_key : Text → Option (List ℕ)
  unfolding key_of_id strip_prefix
  extract_ed25519_public_key value = key_of_id (strip_prefix value)

  unfoldable pub normalize_did_key : Text → Text
  normalize_did_key value = elim (extract_ed25519_public_key value) [
    | none ↦ value
    | some key ↦ public_key_to_did_key key
  ]

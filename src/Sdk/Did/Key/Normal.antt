-- ===== src/Sdk/Did/Key/Normal.antt =====
-- A key and its canonical `did:key` text.
use ac.Common.{
  ℕ, ◌≡◌, ◌<◌, ◌↔◌, refl, sym, ap, ◌∙◌, List, [], ◌∷◌, arith, All, All-take, All-drop, nat_beq,
  Option, none, some, Text, length, inl, inr, Option-cases, Bool-cases, map, length-take,
  length-drop,
}
use ac.Sdk.Did.Base58.{decode58, decode58-encode58, encode58-decode58}
use ac.Sdk.Did.Base32.{decode32, decode32-bytes}
use ac.Sdk.Did.Key.{
  public_key_to_did_key, strip_prefix, key_of_base58, key_of_base32, key_of_base64, key_of_id,
  try_base64_decode, looks_base64, looks_address, extract_ed25519_public_key, normalize_did_key,
  ◌>>=◌, url_safe,
}

-- A 32-byte key.
pub record IsKey (key : List ℕ) : Type 0 where
  pub size : length key ≡ 32
  pub bytes : All (λ b. b < 256) key

key_of_base58_multicodec :
    (key : List ℕ) → length key ≡ 32 → key_of_base58 (0xed ∷ 0x01 ∷ key) ≡ some key
unfolding key_of_base58
key_of_base58_multicodec key h = ground arith

key_of_base58-IsKey :
    (bytes key : List ℕ) → All (λ b. b < 256) bytes → key_of_base58 bytes ≡ some key → IsKey key
unfolding key_of_base58
key_of_base58-IsKey bytes key h e =
    ground (arith, length-drop 2 bytes, All-drop (λ b. b < 256) 2 bytes h)

key_of_base32-IsKey :
    (bytes key : List ℕ) → All (λ b. b < 256) bytes → key_of_base32 bytes ≡ some key → IsKey key
unfolding key_of_base32
key_of_base32-IsKey bytes key h e =
    ground (arith, length-take 32 bytes, All-take (λ b. b < 256) 32 bytes h)

key_of_base64-IsKey :
    (bytes key : List ℕ) → All (λ b. b < 256) bytes → key_of_base64 bytes ≡ some key → IsKey key
unfolding key_of_base64
key_of_base64-IsKey bytes key h e = ground arith

bind-some {ℓ κ} :
    {A : Type ℓ} {B : Type κ} (o : Option A) (k : A → Option B) {b : B}
    → (o >>= k) ≡ some b
    → (a : A) × (o ≡ some a) × (k a ≡ some b)
bind-some none k h = cc
bind-some (some a) k h = (a, refl, h)

module _ (buffer_from : Text → List ℕ) where
  -- A key of 32 bytes comes back from its `did:key` text.
  pub extract-public_key :
      (key : List ℕ)
      → IsKey key
      → extract_ed25519_public_key buffer_from (public_key_to_did_key key) ≡ some key
  unfolding extract_ed25519_public_key public_key_to_did_key key_of_id
  extract-public_key key k =
      rw (decode58-encode58 (0xed ∷ 0x01 ∷ key) (omega arith, (omega arith, k.bytes)))
        (key_of_base58_multicodec key k.size)

module _ (buffer_from : Text → List ℕ)
    (bytes : (s : Text) → All (λ b. b < 256) (buffer_from s)) where
  try_base64-bytes :
      (s : Text) (decoded : List ℕ)
      → try_base64_decode buffer_from s ≡ some decoded
      → All (λ b. b < 256) decoded
  unfolding try_base64_decode
  try_base64-bytes s decoded e = elim (Bool-cases (looks_base64 (map url_safe s))) [
    | inl ok ↦
        let k = rw (ok, try_base64_decode) at e in
        let same : buffer_from (map url_safe s) ≡ decoded = cc in
        rw same at (bytes (map url_safe s))
    | inr bad ↦ absurd (let k = rw (bad, try_base64_decode) at e in cc)
  ]

  key_of_id-IsKey : (id : Text) (key : List ℕ) → key_of_id buffer_from id ≡ some key → IsKey key
  unfolding key_of_id
  key_of_id-IsKey [] key h = cc
  key_of_id-IsKey (c ∷ id) key h = elim (Bool-cases (nat_beq c b'z')) [
    | inl z ↦
        let (decoded, e, k) = bind-some (decode58 id) key_of_base58 (rw (z, key_of_id) at h) in
        key_of_base58-IsKey decoded key (encode58-decode58 id decoded e).1 k
    | inr other ↦ elim (Bool-cases (looks_address (c ∷ id))) [
      | inl address ↦
          let (decoded, e, k) =
            bind-some (decode32 (c ∷ id)) key_of_base32 (rw (other, address, key_of_id) at h) in
          key_of_base32-IsKey decoded key (decode32-bytes (c ∷ id) decoded e) k
      | inr neither ↦
          let (decoded, e, k) =
            bind-some (try_base64_decode buffer_from (c ∷ id)) key_of_base64
              (rw (other, neither, key_of_id) at h) in
          key_of_base64-IsKey decoded key (try_base64-bytes (c ∷ id) decoded e) k
    ]
  ]

  -- What is extracted from a value, in any of the encodings, is 32 bytes, if the base64 decoder
  -- yields bytes.
  pub extract-IsKey :
      (value : Text) (key : List ℕ)
      → extract_ed25519_public_key buffer_from value ≡ some key
      → IsKey key
  unfolding extract_ed25519_public_key
  extract-IsKey value key h = key_of_id-IsKey (strip_prefix value) key h

  -- Normalising twice is normalising once, for every value, if the base64 decoder yields bytes.
  pub normalize_idem :
      (value : Text)
      → normalize_did_key buffer_from (normalize_did_key buffer_from value)
        ≡ normalize_did_key buffer_from value
  unfolding normalize_did_key
  normalize_idem value = elim (Option-cases (extract_ed25519_public_key buffer_from value)) [
    | inl e ↦ ap (normalize_did_key buffer_from) (rw (e, normalize_did_key) refl)
    | inr (key, e) ↦
        rw (e, normalize_did_key)
          (rw (extract-public_key buffer_from key (extract-IsKey value key e), normalize_did_key)
            refl)
  ]

  -- Two values that both hold a key are the same once normalised exactly when the keys are the
  -- same, if the base64 decoder yields bytes.
  pub normalize-eq_iff :
      (v w : Text) (p q : List ℕ)
      → extract_ed25519_public_key buffer_from v ≡ some p
      → extract_ed25519_public_key buffer_from w ≡ some q
      → (normalize_did_key buffer_from v ≡ normalize_did_key buffer_from w) ↔ (p ≡ q)
  unfolding normalize_did_key
  normalize-eq_iff v w p q hp hq =
      rw (hp, hq, normalize_did_key) (did_injective, ap public_key_to_did_key)
    where
      did_injective : public_key_to_did_key p ≡ public_key_to_did_key q → p ≡ q
      did_injective e =
          let back : some p ≡ some q =
            sym (extract-public_key buffer_from p (extract-IsKey v p hp))
            ∙ ap (extract_ed25519_public_key buffer_from) e
            ∙ extract-public_key buffer_from q (extract-IsKey w q hq) in
          cc back

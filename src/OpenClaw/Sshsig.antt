-- ===== src/OpenClaw/Sshsig.antt =====
-- packages/ac2-open-claw-reference/src/git/sshsig.ts: the SSHSIG blob, without base64 and its armor.
-- A buffer is a list of bytes, and an offset into it is what is left of it.
mod Tests
use ac.Common.{
  take-append, drop-append, ◌>>=◌, ℕ, suc, ◌+◌, ◌*◌, ◌/◌, ◌%◌, ◌≡◌, ◌<◌, ◌≤◌, refl, sym, ap, ◌∙◌,
  Option, none, some, List, [], ◌∷◌, ◌++◌, if◌then◌else◌, Bool, true, false, not, ◌==◌, nat_beq,
  nat_eq, leb, Text, codes, text_beq, text_beq_refl, length, length-append, take, drop, arith,
}
use mathlib.Core.List.{append-nil, append_assoc}

abbrev pub magic_preamble : Text
magic_preamble = codes "SSHSIG"

abbrev pub key_type : Text
key_type = codes "ssh-ed25519"

abbrev pub hash_algorithm : Text
hash_algorithm = codes "sha512"

unfoldable pub u32 : ℕ → Text
u32 n = n / 16777216 % 256 ∷ n / 65536 % 256 ∷ n / 256 % 256 ∷ n % 256 ∷ []

unfoldable pub ssh_string : Text → Text
unfolding u32
ssh_string value = u32 (length value) ++ value

unfoldable pub read_u32 : Text → Option (ℕ × Text)
read_u32 (a ∷ b ∷ c ∷ d ∷ rest) = some (((a * 256 + b) * 256 + c) * 256 + d, rest)
read_u32 [] = none
read_u32 (a ∷ []) = none
read_u32 (a ∷ b ∷ []) = none
read_u32 (a ∷ b ∷ c ∷ []) = none

-- `none` where the source throws.
unfoldable pub read_body : ℕ → Text → Option (Text × Text)
read_body count rest =
    if leb count (length rest) then some (take count rest, drop count rest) else none

unfoldable pub read_ssh_string : Text → Option (Text × Text)
unfolding read_u32 read_body
read_ssh_string blob = do (count, rest) ← read_u32 blob; read_body count rest

unfoldable pub encode_ssh_ed25519_public_key : Text → Option Text
encode_ssh_ed25519_public_key key =
    if length key == 32 then some (ssh_string key_type ++ ssh_string key) else none

abbrev pub guard : Bool → Option (Unit {0})
guard true = some tt
guard false = none

-- The blob of `assembleSshSigArmor`.
unfoldable pub assemble_ssh_sig : Text → Text → Text → Option Text
assemble_ssh_sig public_key signature namespace = do
  sized ← guard (length signature == 64)
  key ← encode_ssh_ed25519_public_key public_key
  some (
      magic_preamble
      ++ (u32 1
          ++ (ssh_string key
              ++ (ssh_string namespace
                  ++ (ssh_string []
                      ++ (ssh_string hash_algorithm
                          ++ ssh_string (ssh_string key_type ++ ssh_string signature)))))))

pub record DecodedSshSig : Type 0 where
  pub version : ℕ
  pub public_key : Text
  pub namespace : Text
  pub hash_algorithm : Text
  pub signature : Text

-- What follows the preamble, if the blob has it.
unfoldable pub after_preamble : Text → Option Text
after_preamble blob = if text_beq (take 6 blob) magic_preamble then some (drop 6 blob) else none

-- A string of a type and a string, of an Ed25519 key or signature.
unfoldable pub read_typed : Text → Option Text
read_typed wire = do
  (type, rest) ← read_ssh_string wire
  same ← guard (text_beq type key_type)
  (value, end) ← read_ssh_string rest
  some value

-- The blob of `decodeSshSigArmor`.
unfoldable pub decode_ssh_sig : Text → Option DecodedSshSig
decode_ssh_sig blob = do
  start ← after_preamble blob
  (version, at_key) ← read_u32 start
  (key_wire, at_namespace) ← read_ssh_string at_key
  (namespace, at_reserved) ← read_ssh_string at_namespace
  (reserved, at_hash) ← read_ssh_string at_reserved
  (hash, at_signature) ← read_ssh_string at_hash
  (sig_wire, end) ← read_ssh_string at_signature
  key ← read_typed key_wire
  signature ← read_typed sig_wire
  some (record {
    version = version;
    public_key = key;
    namespace = namespace;
    hash_algorithm = hash;
    signature = signature;
  })

bytes_value :
    (n : ℕ)
    → n < 4294967296
    → ((n / 16777216 % 256 * 256 + n / 65536 % 256) * 256 + n / 256 % 256) * 256 + n % 256 ≡ n
bytes_value n h = omega arith

read_ssh_string-ssh_string :
    (s rest : Text)
    → length s < 4294967296
    → read_ssh_string (ssh_string s ++ rest) ≡ some (s, rest)
unfolding read_ssh_string ssh_string u32 read_u32 read_body
read_ssh_string-ssh_string s rest h =
    let fits : leb (length s) (length (s ++ rest)) ≡ true = ground (arith, length-append s rest) in
    rw (bytes_value (length s) h, fits, take-append s rest, drop-append s rest) refl

read_typed-typed :
    (s : Text) → length s < 4294967296 → read_typed (ssh_string key_type ++ ssh_string s) ≡ some s
unfolding read_typed
read_typed-typed s h =
    let inner : read_ssh_string (ssh_string s) ≡ some (s, []) =
      ap read_ssh_string (sym (append-nil (ssh_string s))) ∙ read_ssh_string-ssh_string s [] h in
    rw (read_ssh_string-ssh_string key_type (ssh_string s) (omega arith), inner) refl

read_ssh_string-last :
    (s : Text) → length s < 4294967296 → read_ssh_string (ssh_string s) ≡ some (s, [])
read_ssh_string-last s h =
    ap read_ssh_string (sym (append-nil (ssh_string s))) ∙ read_ssh_string-ssh_string s [] h

length-typed :
    (s : Text) → length s ≤ 64 → length (ssh_string key_type ++ ssh_string s) < 4294967296
unfolding ssh_string u32
length-typed s h = omega arith

pub decode-assemble_ssh_sig :
    (public_key signature namespace : Text)
    → length public_key ≡ 32
    → length signature ≡ 64
    → length namespace < 4294967296
    → (assemble_ssh_sig public_key signature namespace >>= decode_ssh_sig)
      ≡ some (record {
        version = 1;
        public_key = public_key;
        namespace = namespace;
        hash_algorithm = hash_algorithm;
        signature = signature;
      })
unfolding assemble_ssh_sig encode_ssh_ed25519_public_key decode_ssh_sig after_preamble read_u32 u32
decode-assemble_ssh_sig public_key signature namespace k s n =
    let key = ssh_string key_type ++ ssh_string public_key in
    let sig = ssh_string key_type ++ ssh_string signature in
    let last = ssh_string hash_algorithm ++ ssh_string sig in
    let rest = ssh_string [] ++ last in
    let key_fits : length key < 4294967296 = length-typed public_key (omega arith) in
    let sig_fits : length sig < 4294967296 = length-typed signature (omega arith) in
    rw
      (
        k,
        s,
        read_ssh_string-ssh_string key (ssh_string namespace ++ rest) key_fits,
        read_ssh_string-ssh_string namespace rest n,
        read_ssh_string-ssh_string [] last (omega arith),
        read_ssh_string-ssh_string hash_algorithm (ssh_string sig) (omega arith),
        read_ssh_string-last sig sig_fits,
        read_typed-typed public_key (omega arith),
        read_typed-typed signature (omega arith),
      )
      refl

-- ===== src/Cli/Gateway/Threads/Keys.antt =====
-- packages/ac2-cli/src/runtime/gateway/adapter.ts and wallet-frames.ts: session keys back to threads.
use ac.Common.{
  ◌+◌, ◌≡◌, refl, sym, ap, ◌∙◌, none, some, [], ◌∷◌, ◌++◌, text_beq, text_beq-eq, text_eq, Text,
  codes, length, length-append, drop, drop-append, arith, Bool-cases, inl, inr,
}
use mathlib.Core.List.{append-nil, append_assoc}
use ac.Cli.Gateway.Frames.{channel_id, default_thid, build_ac2_session_key}
use ac.Cli.Gateway.Threads.{index_of_text, thid_of_rest, marker_of, thread_of_key}

-- The default thread goes by its name.
abbrev pub thread_name : Text → Text
thread_name [] = default_thid
thread_name (c ∷ thid) = c ∷ thid

thid_of_rest-key :
    (base thid : Text)
    → (rest : Text) × (build_ac2_session_key base thid ≡ (channel_id ++ codes ":" ++ base) ++ rest)
      × (thid_of_rest rest ≡ thread_name thid)
unfolding build_ac2_session_key
thid_of_rest-key base [] = ([], sym (append-nil _), refl)
thid_of_rest-key base (c ∷ thid) = elim (Bool-cases (text_beq (c ∷ thid) default_thid)) [
  | inl e ↦ rw e ([], sym (append-nil _), sym (text_beq-eq (c ∷ thid) default_thid e))
  | inr e ↦ rw e (codes ":" ++ c ∷ thid, refl, refl)
]

pub thread_of_key-build :
    (lower : Text → Text) (prefix did thid : Text)
    → length (lower did) ≡ length did
    → let key = prefix ++ (codes ":" ++ build_ac2_session_key did thid) in
      index_of_text (codes ":subagent:") (lower key) ≡ none
      → index_of_text (marker_of lower did) (lower key) ≡ some (length prefix)
      → thread_of_key lower did key ≡ some (thread_name thid)
unfolding thread_of_key
thread_of_key-build lower prefix did thid same own found =
    let (rest, built, named) = thid_of_rest-key did thid in
    let key = prefix ++ (codes ":" ++ build_ac2_session_key did thid) in
    let base = codes ":" ++ (channel_id ++ (codes ":" ++ did)) in
    let split : key ≡ (prefix ++ base) ++ rest =
      ap (λ k. prefix ++ (codes ":" ++ k)) built ∙ sym (append_assoc prefix base rest) in
    let size : length prefix + length (marker_of lower did) ≡ length (prefix ++ base) =
      omega (arith, length-append prefix base) in
    rw (own, found)
      (ap some (
        ap thid_of_rest (
          ap (λ n. drop n key) size
          ∙ ap (drop (length (prefix ++ base))) split
          ∙ drop-append (prefix ++ base) rest)
        ∙ named))

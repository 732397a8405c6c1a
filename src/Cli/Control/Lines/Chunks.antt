-- ===== src/Cli/Control/Lines/Chunks.antt =====
-- However the bytes of a socket are cut into chunks, the same lines come out.
use ac.Common.{
  ℕ, zero, suc, ◌≡◌, ◌≤◌, ◌<◌, refl, sym, ◌∙◌, List, [], ◌∷◌, ◌++◌, none, some, join, false,
  nat_beq, length, Text, arith, Option-cases, Bool-cases, inl, inr, All, map,
}
use mathlib.Core.List.{append-nil, append_assoc}
use ac.Cli.Control.Lines.{newline, trim, break_line, keep, drain, on_data, on_chunks}

break_line-length : (s line rest : Text) → break_line s ≡ some (line, rest) → length rest < length s
unfolding break_line
break_line-length [] line rest h = cc
break_line-length (c ∷ s) line rest h = elim (Bool-cases (nat_beq c newline)) [
  | inl e ↦ ground arith
  | inr e ↦ elim (Option-cases (break_line s)) [
    | inl f ↦ absurd (let k = rw (e, f, break_line) at h in cc)
    | inr ((l, r), f) ↦ ground (arith, break_line-length s l r f)
  ]
]

-- Enough fuel is enough.
drain_fuel : (n m : ℕ) (s : Text) → length s < n → length s < m → drain n s ≡ drain m s
unfolding drain
drain_fuel zero m s h k = absurd (omega arith)
drain_fuel (suc n) zero s h k = absurd (omega arith)
drain_fuel (suc n) (suc m) s h k = elim (Option-cases (break_line s)) [
  | inl e ↦ rw (e, drain) refl
  | inr ((line, rest), e) ↦
      let shorter = break_line-length s line rest e in
      rw (e, drain) (rw (drain_fuel n m rest (omega arith) (omega arith)) refl)
]

drain-stop : (n : ℕ) (s : Text) → length s < n → break_line (drain n s).1 ≡ none
unfolding drain
drain-stop zero s h = absurd (omega arith)
drain-stop (suc n) s h = elim (Option-cases (break_line s)) [
  | inl e ↦ rw (e, drain) e
  | inr ((line, rest), e) ↦
      let shorter = break_line-length s line rest e in
      rw (e, drain) (drain-stop n rest (omega arith))
]

-- The loop of the data callback ends: it leaves no newline in the buffer, and more rounds than the
-- buffer has code units give the same lines and the same rest.
pub on_data_ends :
    (buffer chunk : Text) (rounds : ℕ)
    → length (buffer ++ chunk) < rounds
    → (break_line (on_data buffer chunk).1 ≡ none)
      × (drain rounds (buffer ++ chunk) ≡ on_data buffer chunk)
unfolding on_data
on_data_ends buffer chunk rounds h =
    let s = buffer ++ chunk in
    (
      drain-stop (suc (length s)) s (omega arith),
      drain_fuel rounds (suc (length s)) s h (omega arith),
    )

break_line-append :
    (s t line rest : Text)
    → break_line s ≡ some (line, rest)
    → break_line (s ++ t) ≡ some (line, rest ++ t)
unfolding break_line
break_line-append [] t line rest h = cc
break_line-append (c ∷ s) t line rest h = elim (Bool-cases (nat_beq c newline)) [
  | inl e ↦ ground arith
  | inr e ↦ elim (Option-cases (break_line s)) [
    | inl f ↦ absurd (let k = rw (e, f, break_line) at h in cc)
    | inr ((l, r), f) ↦
        let more = break_line-append s t l r f in
        rw (e, more, break_line) (let k = rw (e, f, break_line) at h in cc)
  ]
]

-- All that a buffer holds.
drain_all : Text → List Text × Text
drain_all s = drain (suc (length s)) s

keep-append : (line : Text) (xs ys : List Text) → keep line (xs ++ ys) ≡ keep line xs ++ ys
unfolding keep
keep-append [] xs ys = refl
keep-append (c ∷ line) xs ys = refl

drain-none : (n : ℕ) (s : Text) → break_line s ≡ none → drain (suc n) s ≡ ([], s)
unfolding drain
drain-none n s e = rw (e, drain) refl

drain-some :
    (n : ℕ) (s line rest : Text)
    → break_line s ≡ some (line, rest)
    → length s ≤ n
    → drain (suc n) s ≡ (keep (trim line) (drain_all rest).0, (drain_all rest).1)
unfolding drain drain_all
drain-some n s line rest e h =
    let shorter = break_line-length s line rest e in
    rw (e, drain) (rw (drain_fuel n (suc (length rest)) rest (omega arith) (omega arith)) refl)

drain_all-none : (s : Text) → break_line s ≡ none → drain_all s ≡ ([], s)
unfolding drain_all
drain_all-none s e = drain-none (length s) s e

drain_all-some :
    (s line rest : Text)
    → break_line s ≡ some (line, rest)
    → drain_all s ≡ (keep (trim line) (drain_all rest).0, (drain_all rest).1)
unfolding drain_all
drain_all-some s line rest e = drain-some (length s) s line rest e (omega arith)

-- Text that comes after is drained after. The number bounds the length.
drain_all-append :
    (n : ℕ) (s t : Text)
    → length s < n
    → drain_all (s ++ t) ≡ (
      (drain_all s).0 ++ (drain_all ((drain_all s).1 ++ t)).0,
      (drain_all ((drain_all s).1 ++ t)).1,
    )
drain_all-append zero s t h = absurd (omega arith)
drain_all-append (suc n) s t h = elim (Option-cases (break_line s)) [
  | inl e ↦ rw (drain_all-none s e) refl
  | inr ((line, rest), e) ↦
      let shorter = break_line-length s line rest e in
      let after = drain_all-append n rest t (omega arith) in
      rw (drain_all-some s line rest e) (
        drain_all-some (s ++ t) line (rest ++ t) (break_line-append s t line rest e)
        ∙ rw (after, keep-append (trim line)) refl)
]

on_data-drain_all : (buffer chunk : Text) → on_data buffer chunk ≡ drain_all (buffer ++ chunk)
unfolding on_data drain_all
on_data-drain_all buffer chunk = refl

drain_all-stop : (s : Text) → break_line (drain_all s).1 ≡ none
unfolding drain_all
drain_all-stop s = drain-stop (suc (length s)) s (omega arith)

-- From a buffer that holds no newline, as the callback leaves it, the chunks give the lines and the
-- buffer that their text as one chunk gives.
pub on_chunks-join :
    (buffer : Text) (chunks : List Text)
    → break_line buffer ≡ none
    → on_chunks buffer chunks ≡ on_data buffer (join chunks)
unfolding on_chunks join
on_chunks-join buffer [] h =
    rw (on_data-drain_all buffer [], append-nil) (sym (drain_all-none buffer h))
on_chunks-join buffer (chunk ∷ chunks) h =
    let later =
      on_chunks-join (drain_all (buffer ++ chunk)).1 chunks (drain_all-stop (buffer ++ chunk)) in
    rw
      (
        on_data-drain_all buffer chunk,
        later,
        on_data-drain_all _ (join chunks),
        on_data-drain_all buffer (chunk ++ join chunks),
        ← append_assoc buffer chunk (join chunks),
      )
      (sym (
        drain_all-append (suc (length (buffer ++ chunk))) (buffer ++ chunk) (join chunks)
          (omega arith)))

-- A frame as it is written to the socket.
abbrev pub IsFrame : Text → Type 0
IsFrame frame =
    (trim frame ≡ frame) × (0 < length frame) × All (λ c. nat_beq c newline ≡ false) frame

abbrev pub write_frame : Text → Text
write_frame frame = frame ++ newline ∷ []

break_line-frame :
    (frame rest : Text)
    → All (λ c. nat_beq c newline ≡ false) frame
    → break_line (frame ++ newline ∷ rest) ≡ some (frame, rest)
unfolding break_line
break_line-frame [] rest h = refl
break_line-frame (c ∷ frame) rest (e, h) = rw (e, break_line-frame frame rest h, break_line) refl

keep-nonblank :
    (frame : Text) (lines : List Text) → 0 < length frame → keep frame lines ≡ frame ∷ lines
unfolding keep
keep-nonblank [] lines h = absurd (omega arith)
keep-nonblank (c ∷ frame) lines h = refl

drain_all-frames :
    (frames : List Text)
    → All IsFrame frames
    → drain_all (join (map write_frame frames)) ≡ (frames, [])
unfolding join
drain_all-frames [] h = drain_all-none [] (unfold break_line in refl)
drain_all-frames (frame ∷ frames) ((trimmed, nonblank, single), h) =
    rw (append_assoc frame (newline ∷ []) (join (map write_frame frames))) (
      drain_all-some _ frame _ (break_line-frame frame _ single)
      ∙ rw (drain_all-frames frames h, trimmed, keep-nonblank frame frames nonblank) refl)

-- Frames that are written one after the other come out as they were, in order and with nothing left,
-- however the socket cuts their text into chunks, if a frame is trimmed, not empty and holds no
-- newline.
pub on_chunks-frames :
    (chunks frames : List Text)
    → All IsFrame frames
    → join chunks ≡ join (map write_frame frames)
    → on_chunks [] chunks ≡ (frames, [])
on_chunks-frames chunks frames h cut =
    on_chunks-join [] chunks (unfold break_line in refl)
    ∙ (on_data-drain_all [] (join chunks) ∙ rw cut (drain_all-frames frames h))

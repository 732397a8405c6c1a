-- ===== src/Cli/Control/Lines.antt =====
-- The line buffer that packages/ac2-cli/src/control/server.ts and client.ts keep for a socket.
pub mod Chunks
use ac.Common.{
  ℕ, zero, suc, ◌+◌, List, [], ◌∷◌, ◌++◌, reverse, Option, none, some, if◌then◌else◌, Bool, true,
  false, ◌&&◌, ◌||◌, nat_beq, leb, length, Text,
}

abbrev pub newline : ℕ
newline = 10

-- The white space and line terminators that `trim` takes off.
unfoldable pub is_space : ℕ → Bool
is_space c =
    (leb 9 c && leb c 13)
    || nat_beq c 32
    || nat_beq c 160
    || nat_beq c 0x1680
    || (leb 0x2000 c && leb c 0x200a)
    || nat_beq c 0x2028
    || nat_beq c 0x2029
    || nat_beq c 0x202f
    || nat_beq c 0x205f
    || nat_beq c 0x3000
    || nat_beq c 0xfeff

unfoldable pub trim_start : Text → Text
unfolding is_space
trim_start [] = []
trim_start (c ∷ s) = let rest = trim_start s in if is_space c then rest else c ∷ s

unfoldable pub trim : Text → Text
unfolding trim_start
trim s = reverse (trim_start (reverse (trim_start s)))

-- The text before the first newline and the text after it, if there is one.
unfoldable pub break_line : Text → Option (Text × Text)
break_line [] = none
break_line (c ∷ s) =
    if nat_beq c newline
    then some ([], s)
    else elim (break_line s) [ none ↦ none | some (line, rest) ↦ some (c ∷ line, rest) ]

-- A blank line is passed over.
unfoldable pub keep : Text → List Text → List Text
keep [] lines = lines
keep (c ∷ line) lines = (c ∷ line) ∷ lines

-- The `while` of the data callback: the lines that it handles, and the buffer that it leaves.
unfoldable pub drain : ℕ → Text → List Text × Text
unfolding break_line keep trim
drain zero buffer = ([], buffer)
drain (suc fuel) buffer = elim (break_line buffer) [
  | none ↦ ([], buffer)
  | some (line, rest) ↦ let (lines, left) = drain fuel rest in (keep (trim line) lines, left)
]

-- The data callback. Each round takes a newline from the buffer.
unfoldable pub on_data : Text → Text → List Text × Text
unfolding drain
on_data buffer chunk = drain (suc (length (buffer ++ chunk))) (buffer ++ chunk)

-- Chunks as they come.
unfoldable pub on_chunks : Text → List Text → List Text × Text
unfolding on_data
on_chunks buffer [] = ([], buffer)
on_chunks buffer (chunk ∷ chunks) =
    let (lines, left) = on_data buffer chunk in
    let (more, end) = on_chunks left chunks in (lines ++ more, end)

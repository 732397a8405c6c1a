-- ===== src/Cli/Gateway/Tools.antt =====
-- packages/ac2-cli/src/runtime/gateway/adapter.ts: the live text of a run and the output of a tool.
use ac.Common.{
  ℕ, zero, suc, ◌+◌, ◌-◌, ◌/◌, ◌%◌, Option, none, some, [], ◌∷◌, ◌++◌, if◌then◌else◌, Bool, ltb,
  leb, Text, codes, starts_with, length, take, drop, reverse,
}

-- `none` where the committed text is no prefix.
unfoldable pub compute_tail : Text → Text → Option Text
compute_tail snapshot committed =
    if starts_with committed snapshot then some (drop (length committed) snapshot) else none

abbrev pub tool_card_id : Text → Text
tool_card_id tool_call_id = codes "tool-" ++ tool_call_id

abbrev pub max_tool_output_chars : ℕ
max_tool_output_chars = 8000

unfoldable pub ends_with : Text → Text → Bool
ends_with suffix s = starts_with (reverse suffix) (reverse s)

-- `String(n)`, where a number has fewer digits than the fuel.
unfoldable pub digits_onto : ℕ → ℕ → Text → Text
digits_onto zero n acc = acc
digits_onto (suc fuel) n acc =
    let digit = b'0' + n % 10 in
    let more = digits_onto fuel (n / 10) (digit ∷ acc) in if ltb n 10 then digit ∷ acc else more

unfoldable pub decimal : ℕ → Text
unfolding digits_onto
decimal n = digits_onto (suc n) n []

-- A text that is too long, cut, with the number of code units that were left out.
unfoldable pub cap : Text → Text
unfolding decimal
cap merged =
    if leb (length merged) max_tool_output_chars
    then merged
    else take max_tool_output_chars merged
      ++ 0x2026 ∷ codes " ("
      ++ decimal (length merged - max_tool_output_chars)
      ++ codes " more chars)"

unfoldable pub merged_output : Text → Text → Text
unfolding ends_with
merged_output [] chunk = chunk
merged_output (c ∷ prev) chunk =
    if starts_with (c ∷ prev) chunk
    then chunk
    else if ends_with chunk (c ∷ prev)
    then c ∷ prev
    else (c ∷ prev) ++ chunk

unfoldable pub merge_tool_output : Text → Text → Text
unfolding cap merged_output
merge_tool_output prev chunk = cap (merged_output prev chunk)

-- ===== src/Cli/Gateway/Values.antt =====
-- packages/ac2-cli/src/runtime/gateway/adapter.ts: what the adapter reads of a JSON value. A string of
-- a value is by code units. `stringify` and `parse` are `JSON.stringify` and `JSON.parse`.
use ac.Common.{
  ℕ, String, Option, none, some, List, [], ◌∷◌, ◌++◌, if◌then◌else◌, Bool, true, false, ◌==◌,
  string_eq, text_eq, Text, codes, ◌>>=◌, first_of, or_else, when, not, text_beq,
}

mutual
  pub data Value : Type 0 where
    null : Value
    bool : Bool → Value
    num : ℕ → Value
    str : Text → Value
    arr : Values → Value
    obj : Members → Value

  pub data Values : Type 0 where
    nil : Values
    item : Value → Values → Values

  pub data Members : Type 0 where
    end : Members
    member : String → Value → Members → Members

abbrev pub find : String → Members → Option Value
find key end = none
find key (member name value rest) = if name == key then some value else find key rest

-- `value[key]`, `none` where it is undefined.
abbrev pub get : String → Value → Option Value
get key (obj members) = find key members
get key null = none
get key (bool b) = none
get key (num n) = none
get key (str s) = none
get key (arr items) = none

-- A property that is a string.
abbrev pub as_text : Option Value → Option Text
as_text (some (str s)) = some s
as_text (some null) = none
as_text (some (bool b)) = none
as_text (some (num n)) = none
as_text (some (arr items)) = none
as_text (some (obj members)) = none
as_text none = none

abbrev pub as_num : Option Value → Option ℕ
as_num (some (num n)) = some n
as_num (some null) = none
as_num (some (bool b)) = none
as_num (some (str s)) = none
as_num (some (arr items)) = none
as_num (some (obj members)) = none
as_num none = none

-- `typeof value === 'object' && value !== null`.
abbrev pub as_object : Option Value → Option Value
as_object (some (obj members)) = some (obj members)
as_object (some (arr items)) = some (arr items)
as_object (some null) = none
as_object (some (bool b)) = none
as_object (some (num n)) = none
as_object (some (str s)) = none
as_object none = none

abbrev pub nonempty_text : Option Text → Option Text
nonempty_text (some (c ∷ s)) = some (c ∷ s)
nonempty_text (some []) = none
nonempty_text none = none

-- `x === word`, for a word of the source.
abbrev pub text_is : String → Option Text → Bool
text_is word none = false
text_is word (some s) = text_beq s (codes word)

-- The text of a part, and nothing of one of another type.
abbrev pub part_text : Value → Text
part_text part =
    if text_is "text" (as_text (get "type" part))
    then or_else (as_text (get "text" part)) []
    else []

abbrev pub joined : Values → Text
joined nil = []
joined (item part parts) = part_text part ++ joined parts

-- `extractMessageText`: a message's `content` comes before its `text`.
unfoldable mutual
  pub extract_message_text : Value → Option Text
  extract_message_text (str s) = some s
  extract_message_text (arr parts) = nonempty_text (some (joined parts))
  extract_message_text (obj members) =
      first_of (content_text members) (as_text (find "text" members))
  extract_message_text null = none
  extract_message_text (bool b) = none
  extract_message_text (num n) = none

  pub content_text : Members → Option Text
  content_text end = none
  content_text (member name value rest) =
      let later = content_text rest in
      let own = extract_message_text value in if name == "content" then own else later

abbrev pub extract_text : Option Value → Option Text
extract_text none = none
extract_text (some value) = extract_message_text value

-- Each item, if all are strings.
abbrev pub all_texts : Values → Option (List Text)
all_texts nil = some []
all_texts (item value rest) = do s ← as_text (some value); words ← all_texts rest; some (s ∷ words)

abbrev pub join_words : List Text → Text
join_words [] = []
join_words (word ∷ []) = word
join_words (word ∷ next ∷ words) = word ++ 32 ∷ join_words (next ∷ words)

abbrev pub command_words : Option Value → Option Text
command_words (some (arr (item value rest))) = do
  words ← all_texts (item value rest)
  some (join_words words)
command_words (some (arr nil)) = none
command_words (some null) = none
command_words (some (bool b)) = none
command_words (some (num n)) = none
command_words (some (str s)) = none
command_words (some (obj members)) = none
command_words none = none

-- `Object.keys(x).length === 0`, or an empty array.
abbrev pub is_empty : Value → Bool
is_empty (obj end) = true
is_empty (obj (member name value rest)) = false
is_empty (arr nil) = true
is_empty (arr (item value rest)) = false
is_empty null = false
is_empty (bool b) = false
is_empty (num n) = false
is_empty (str s) = false

-- The first of the keys whose value is a string that is not empty.
abbrev pub first_key : List String → Value → Option Text
first_key [] value = none
first_key (key ∷ keys) value =
    first_of (nonempty_text (as_text (get key value))) (first_key keys value)

module _ (stringify : Value → Text) where
  unfoldable pub command_of : Value → Option Text
  command_of args = first_of (nonempty_text (as_text (get "command" args))) (
      first_of (command_words (get "command" args)) (
        first_of (first_key ("cmd" ∷ "script" ∷ "path" ∷ "file" ∷ []) args)
          (when (not (is_empty args)) (some (stringify args)))))

  unfoldable pub format_tool_command : Option Value → Option Text
  unfolding command_of
  format_tool_command args = do object ← as_object args; command_of object

  abbrev pub other_text : Value → Option Text
  other_text null = none
  other_text value = when (not (is_empty value)) (some (stringify value))

  unfoldable pub extract_tool_chunk_text : Option Value → Option Text
  extract_tool_chunk_text none = none
  extract_tool_chunk_text (some value) = first_of (extract_message_text value) (other_text value)

pub record SpawnAccepted : Type 0 where
  pub run_id : Text
  pub child_session_key : Text
  pub task_name : Option Text

-- An acceptance payload.
unfoldable pub accepted_of : Value → Option SpawnAccepted
accepted_of details = do
  run_id ← as_text (get "runId" details)
  child_session_key ← as_text (get "childSessionKey" details)
  when (text_is "accepted" (as_text (get "status" details))) (
      some (record {
        run_id = run_id;
        child_session_key = child_session_key;
        task_name = as_text (get "taskName" details);
      }))

module _ (parse : Text → Option Value) where
  -- `details`, or what the text of the value parses to.
  unfoldable pub details_of : Value → Option Value
  details_of value = elim (as_object (get "details" value)) [
    | some details ↦ some details
    | none ↦
        extract_message_text value >>= λ text. parse text >>= λ details. as_object (some details)
  ]

  unfoldable pub parse_spawn_accepted : Option Value → Option SpawnAccepted
  unfolding details_of accepted_of
  parse_spawn_accepted value = do
    object ← as_object value
    details ← details_of object
    accepted_of details

unfoldable pub extract_history_at : Value → Option ℕ
extract_history_at message =
    first_of
      (as_object (get "__openclaw" message) >>= λ nested. as_num (get "recordTimestampMs" nested))
      (first_of (as_num (get "recordTimestampMs" message)) (as_num (get "timestamp" message)))

-- ===== src/Cli/Gateway/History.antt =====
-- packages/ac2-cli/src/runtime/gateway/adapter.ts: `mapHistoryMessages`, a transcript as the wallet shows it.
pub mod Chats
use ac.Common.{
  ℕ, zero, suc, String, Option, none, some, List, [], ◌∷◌, ◌++◌, if◌then◌else◌, Bool, true, false,
  not, text_beq, text_eq, Text, codes, ◌>>=◌, first_of, or_else, lookup, insert, length,
}
use ac.Cli.Control.Lines.{trim}
use ac.Cli.Gateway.Values.{
  Value, Values, null, bool, num, str, arr, obj, nil, item, get, as_text, as_object, nonempty_text,
  text_is, extract_text, extract_history_at, SpawnAccepted, parse_spawn_accepted,
  format_tool_command, extract_tool_chunk_text,
}
use ac.Cli.Gateway.Tools.{tool_card_id, merge_tool_output}
use ac.Cli.Gateway.Frames.{
  HistoryMessage, says, tool_entry, task_entry, Speaker, user, assistant, ToolCard, completed,
}
use ac.Cli.Gateway.Events.{TrackedSpawnArgs}
use ac.Cli.Gateway.Runs.{spawn_args_of, spawn_title, task_card_id}

pub record Mapping : Type 0 where
  pub mapped : List HistoryMessage
  pub tool_call_index : List (Text × ℕ)
  pub spawn_args_by_tool_call_id : List (Text × TrackedSpawnArgs)

abbrev pub new_mapping : Mapping
new_mapping = record { mapped = []; tool_call_index = []; spawn_args_by_tool_call_id = [] }

abbrev pub push : Mapping → HistoryMessage → Mapping
push m entry = record m { mapped = m.mapped ++ entry ∷ [] }

abbrev pub speaker_of : Option Text → Option Speaker
speaker_of none = none
speaker_of (some role) =
    if text_beq role (codes "user")
    then some user
    else if text_beq role (codes "assistant")
    then some assistant
    else none

-- The text of a message, unless it is blank.
unfoldable pub told : Value → Option Text
unfolding trim
told message = do
  text ← first_of (extract_text (get "content" message)) (extract_text (get "text" message))
  if text_beq (trim text) [] then none else some text

abbrev pub push_told : Mapping → Speaker → Option ℕ → Option Text → Mapping
push_told m role at none = m
push_told m role at (some text) = push m (says role text at)

-- `{ ...existing, output }`, on a tool's entry.
abbrev pub with_chunk : HistoryMessage → Text → HistoryMessage
with_chunk (tool_entry card at) chunk =
    tool_entry (record card { output = some (merge_tool_output (or_else card.output []) chunk) }) at
with_chunk (says role text at) chunk = says role text at
with_chunk (task_entry card at) chunk = task_entry card at

unfoldable pub set_output : List HistoryMessage → ℕ → Text → List HistoryMessage
set_output [] index chunk = []
set_output (entry ∷ entries) zero chunk = with_chunk entry chunk ∷ entries
set_output (entry ∷ entries) (suc index) chunk = entry ∷ set_output entries index chunk

module _ (parse : Text → Option Value) (stringify : Value → Text) where
  abbrev pub named_call : Mapping → Value → Option ℕ → Text → Option Text → Mapping
  named_call m part at tool_call_id name =
      if text_is "sessions_spawn" name
      then record m {
        spawn_args_by_tool_call_id =
            insert tool_call_id (spawn_args_of (get "arguments" part)) m.spawn_args_by_tool_call_id;
      }
      else if text_is "sessions_yield" name
      then m
      else push
          (record m { tool_call_index = insert tool_call_id (length m.mapped) m.tool_call_index })
          (tool_entry
            (record {
              id = tool_card_id tool_call_id;
              name = nonempty_text name;
              command = nonempty_text (format_tool_command stringify (get "arguments" part));
              output = none;
            })
            at)

  abbrev pub call_with : Mapping → Value → Option ℕ → Option Text → Mapping
  call_with m part at none = m
  call_with m part at (some tool_call_id) =
      named_call m part at tool_call_id (as_text (get "name" part))

  -- A part of a message's content: a tool call becomes an entry.
  unfoldable pub map_part : Mapping → Option ℕ → Value → Mapping
  unfolding insert
  map_part m at part =
      if text_is "toolCall" (as_text (get "type" part))
      then call_with m part at (as_text (get "id" part))
      else m

  unfoldable pub map_parts : Mapping → Option ℕ → Values → Mapping
  unfolding map_part
  map_parts m at nil = m
  map_parts m at (item part parts) = map_parts (map_part m at part) at parts

  abbrev pub map_content : Mapping → Option ℕ → Option Value → Mapping
  map_content m at (some (arr parts)) = map_parts m at parts
  map_content m at (some null) = m
  map_content m at (some (bool b)) = m
  map_content m at (some (num n)) = m
  map_content m at (some (str s)) = m
  map_content m at (some (obj members)) = m
  map_content m at none = m

  abbrev pub push_task : Mapping → Option ℕ → TrackedSpawnArgs → Option SpawnAccepted → Mapping
  push_task m at args none = m
  push_task m at args (some accepted) = push m (
      task_entry
        (record {
          id = task_card_id accepted;
          title = spawn_title args;
          status = completed;
          prompt = args.task;
          result = none;
        })
        at)

  abbrev pub output_at : Mapping → Option ℕ → Option Text → Mapping
  output_at m none chunk = m
  output_at m (some index) none = m
  output_at m (some index) (some chunk) = record m { mapped = set_output m.mapped index chunk }

  abbrev pub tool_result : Mapping → Value → Text → Option TrackedSpawnArgs → Mapping
  tool_result m message tool_call_id (some args) =
      push_task m (extract_history_at message) args (parse_spawn_accepted parse (some message))
  tool_result m message tool_call_id none =
      output_at m (lookup tool_call_id m.tool_call_index)
        (extract_tool_chunk_text stringify (get "content" message))

  abbrev pub result_for : Mapping → Value → Option Text → Mapping
  result_for m message none = m
  result_for m message (some tool_call_id) =
      tool_result m message tool_call_id (lookup tool_call_id m.spawn_args_by_tool_call_id)

  abbrev pub map_role : Mapping → Value → Option Speaker → Mapping
  map_role m message (some role) =
      let at = extract_history_at message in
      push_told (map_content m at (get "content" message)) role at (told message)
  map_role m message none =
      if text_is "toolResult" (as_text (get "role" message))
      then result_for m message (nonempty_text (as_text (get "toolCallId" message)))
      else m

  -- An entry that is no object has no role.
  unfoldable pub map_message : Mapping → Value → Mapping
  unfolding map_parts told set_output lookup
  map_message m message = map_role m message (speaker_of (as_text (get "role" message)))

  unfoldable pub map_messages : Mapping → Values → Mapping
  unfolding map_message
  map_messages m nil = m
  map_messages m (item message messages) = map_messages (map_message m message) messages

  unfoldable pub map_history_messages : Values → List HistoryMessage
  unfolding map_messages
  map_history_messages raw = (map_messages new_mapping raw).mapped

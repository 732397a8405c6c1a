-- ===== src/Cli/Gateway/Events.antt =====
-- packages/ac2-cli/src/runtime/gateway/adapter.ts: an active run, and what a gateway event means for it.
pub mod Scope
use ac.Common.{
  ℕ, String, Option, none, some, List, [], ◌∷◌, ◌++◌, if◌then◌else◌, Bool, true, false, ◌==◌,
  string_eq, text_eq, Text, codes, ◌>>=◌, first_of, or_else, when, not, text_beq, ◌&&◌, ◌||◌,
  is_some, length,
}
use ac.Cli.Control.Lines.{trim}
use ac.Cli.Gateway.Values.{
  Value, null, bool, num, str, arr, obj, get, as_text, as_num, as_object, nonempty_text, text_is,
  extract_text,
}
use ac.Cli.Gateway.Tools.{decimal}

pub record TrackedToolCard : Type 0 where
  pub name : Option Text
  pub command : Option Text
  pub output : Option Text

pub record TrackedSpawnArgs : Type 0 where
  pub task : Option Text
  pub task_name : Option Text
  pub label : Option Text

pub record ActiveRun : Type 0 where
  pub run_id : Text
  pub thid : Text
  pub session_key : Text
  pub text : Text
  pub committed_text : Text
  pub started_at : ℕ
  pub committed_message_ids : List Text
  pub tool_cards : List (Text × TrackedToolCard)
  pub spawn_args : List (Text × TrackedSpawnArgs)

pub data ToolPhase : Type 0 where
  start update result : ToolPhase

pub record ToolEvent : Type 0 where
  pub phase : ToolPhase
  pub tool_call_id : Text
  pub name : Text
  pub args : Option Value
  pub partial_result : Option Value
  pub final_result : Option Value

pub data InterpretedEvent : Type 0 where
  types : Text → InterpretedEvent
  commits : Text → Text → InterpretedEvent
  runs_tool : ToolEvent → InterpretedEvent

abbrev pub text_matches : Option Text → Text → Bool
text_matches none own = false
text_matches (some s) own = text_beq s own

-- A payload that names a session or a run must name the active one.
unfoldable pub has_correlation : Value → Bool
has_correlation payload =
    is_some (as_text (get "sessionKey" payload))
    || is_some (as_text (get "session" payload))
    || is_some (as_text (get "runId" payload))

unfoldable pub matches_active : Value → ActiveRun → Bool
matches_active payload run =
    text_matches (as_text (get "runId" payload)) run.run_id
    || text_matches (as_text (get "sessionKey" payload)) run.session_key
    || text_matches (as_text (get "session" payload)) run.session_key

abbrev pub is_true : Option Value → Bool
is_true (some (bool b)) = b
is_true (some null) = false
is_true (some (num n)) = false
is_true (some (str s)) = false
is_true (some (arr items)) = false
is_true (some (obj members)) = false
is_true none = false

abbrev pub delta_snapshot : Value → ActiveRun → Text → Text
delta_snapshot payload run delta =
    if is_true (get "replace" payload) then delta else run.text ++ delta

-- `chat`.
unfoldable pub typing_of : Value → ActiveRun → Option InterpretedEvent
typing_of payload run = elim (extract_text (get "message" payload)) [
  | some snapshot ↦ some (types snapshot)
  | none ↦ do
    delta ← as_text (get "deltaText" payload)
    some (types (delta_snapshot payload run delta))
]

abbrev pub message_id_of : Value → Text → Text
message_id_of payload text =
    or_else
      (first_of (nonempty_text (as_text (get "messageId" payload)))
        (as_num (get "messageSeq" payload) >>= λ seq. some (codes "seq-" ++ decimal seq)))
      (codes "anon-" ++ decimal (length text))

-- `session.message`, of the agent.
unfoldable pub commit_of : Value → Option InterpretedEvent
unfolding trim
commit_of payload = do
  message ← as_object (get "message" payload)
  text ← extract_text (some message)
  when (text_is "assistant" (as_text (get "role" message)) && not (text_beq (trim text) []))
      (some (commits (message_id_of payload text) text))

abbrev pub tool_phase : Option Text → Option ToolPhase
tool_phase none = none
tool_phase (some s) =
    if text_beq s (codes "start")
    then some start
    else if text_beq s (codes "update")
    then some update
    else if text_beq s (codes "result")
    then some result
    else none

-- `session.tool`.
unfoldable pub tool_of : Value → Option InterpretedEvent
tool_of payload = do
  data_part ← as_object (get "data" payload)
  phase ← tool_phase (as_text (get "phase" data_part))
  name ← nonempty_text (as_text (get "name" data_part))
  tool_call_id ← nonempty_text (as_text (get "toolCallId" data_part))
  some (
      runs_tool (record {
        phase = phase;
        tool_call_id = tool_call_id;
        name = name;
        args = get "args" data_part;
        partial_result = get "partialResult" data_part;
        final_result = get "result" data_part;
      }))

unfoldable pub interpret_known : String → Value → ActiveRun → Option InterpretedEvent
unfolding typing_of commit_of tool_of
interpret_known event payload run =
    if event == "chat"
    then typing_of payload run
    else if event == "session.message"
    then commit_of payload
    else if event == "session.tool"
    then tool_of payload
    else none

unfoldable pub interpret_gateway_event : String → Value → ActiveRun → Option InterpretedEvent
unfolding has_correlation matches_active interpret_known
interpret_gateway_event event payload run = do
  object ← as_object (some payload)
  if has_correlation object && not (matches_active object run)
      then none
      else interpret_known event object run

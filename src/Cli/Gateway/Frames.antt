-- ===== src/Cli/Gateway/Frames.antt =====
-- packages/ac2-cli/src/runtime/gateway/wallet-frames.ts: the frames that the wallet renders, session
-- keys and inbound chat. A frame is the object that is printed; an empty name or detail is left out
-- of it.
use ac.Common.{
  ℕ, String, Option, none, some, List, [], ◌∷◌, ◌++◌, if◌then◌else◌, Bool, false, text_eq, Text,
  codes, nat_beq, ◌>>=◌, first_of, or_else, text_beq, is_some,
}
use ac.Cli.Control.Lines.{trim}
use ac.Cli.Gateway.Values.{
  Value, Values, Members, num, str, arr, obj, nil, item, end, member, get, as_text, nonempty_text,
}

abbrev pub channel_id : Text
channel_id = codes "ac2"

abbrev pub default_thid : Text
default_thid = codes "default"

pub data Phase : Type 0 where
  thinking tool typing : Phase

pub data Level : Type 0 where
  info warning error : Level

pub data Status : Type 0 where
  running completed failed stopped : Status

pub record ToolCard : Type 0 where
  pub id : Text
  pub name : Option Text
  pub command : Option Text
  pub output : Option Text

pub record TaskCard : Type 0 where
  pub id : Text
  pub title : Text
  pub status : Status
  pub prompt : Option Text
  pub result : Option Text

pub data Speaker : Type 0 where
  user assistant : Speaker

-- A history entry with its time.
pub data HistoryMessage : Type 0 where
  says : Speaker → Text → Option ℕ → HistoryMessage
  tool_entry : ToolCard → Option ℕ → HistoryMessage
  task_entry : TaskCard → Option ℕ → HistoryMessage

pub record Thread : Type 0 where
  pub thid : Text
  pub title : Option Text
  pub updated_at : Option ℕ

-- The arguments of the `build…Frame` functions.
pub data Frame : Type 0 where
  preview : Text → Phase → Option Text → Option Text → Frame
  finalize : Text → Text → Text → Frame
  discard : Text → Frame
  notice : String → Level → Text → Frame
  tool_frame : Text → ToolCard → Frame
  task_frame : Text → TaskCard → Frame
  history : Text → List HistoryMessage → Frame
  conversations : List Thread → Frame

abbrev pub words : String → Value
words s = str (codes s)

abbrev pub member_if : String → Option Text → Members → Members
member_if key none rest = rest
member_if key (some s) rest = member key (str s) rest

abbrev pub time_if : String → Option ℕ → Members → Members
time_if key none rest = rest
time_if key (some n) rest = member key (num n) rest

abbrev pub phase_word : Phase → Value
phase_word thinking = words "thinking"
phase_word tool = words "tool"
phase_word typing = words "typing"

abbrev pub level_word : Level → Value
level_word info = words "info"
level_word warning = words "warning"
level_word error = words "error"

abbrev pub status_word : Status → Value
status_word running = words "running"
status_word completed = words "completed"
status_word failed = words "failed"
status_word stopped = words "stopped"

abbrev pub speaker_word : Speaker → Value
speaker_word user = words "user"
speaker_word assistant = words "assistant"

abbrev pub tool_members : ToolCard → Members → Members
tool_members card rest = member "id" (str card.id) (
    member_if "name" (nonempty_text card.name)
      (member_if "command" (nonempty_text card.command) (member_if "output" card.output rest)))

abbrev pub task_members : TaskCard → Members → Members
task_members card rest = member "id" (str card.id) (
    member "title" (str card.title) (
      member "status" (status_word card.status)
        (member_if "prompt" card.prompt (member_if "result" card.result rest))))

abbrev pub history_value : HistoryMessage → Value
history_value (says role text at) =
    obj (member "role" (speaker_word role) (member "text" (str text) (time_if "at" at end)))
history_value (tool_entry card at) =
    obj (member "role" (words "tool") (tool_members card (time_if "at" at end)))
history_value (task_entry card at) =
    obj (member "role" (words "task") (task_members card (time_if "at" at end)))

abbrev pub history_values : List HistoryMessage → Values
history_values [] = nil
history_values (m ∷ ms) = item (history_value m) (history_values ms)

abbrev pub thread_values : List Thread → Values
thread_values [] = nil
thread_values (t ∷ ts) =
    item
      (obj (
        member "thid" (str t.thid)
          (member_if "title" t.title (time_if "updatedAt" t.updated_at end))))
      (thread_values ts)

abbrev pub thread_frame : String → Text → Members → Value
thread_frame kind thid rest = obj (member "t" (words kind) (member "thid" (str thid) rest))

-- What `JSON.stringify` is given.
unfoldable pub frame_value : Frame → Value
frame_value (preview thid phase text detail) = thread_frame "preview" thid (
    member "phase" (phase_word phase)
      (member_if "text" text (member_if "detail" (nonempty_text detail) end)))
frame_value (finalize thid mid text) =
    thread_frame "finalize" thid (member "mid" (str mid) (member "text" (str text) end))
frame_value (discard thid) = thread_frame "discard" thid end
frame_value (notice code level text) = obj (
    member "t" (words "notice") (
      member "code" (words code)
        (member "level" (level_word level) (member "text" (str text) end))))
frame_value (tool_frame thid card) = thread_frame "tool" thid (tool_members card end)
frame_value (task_frame thid card) = thread_frame "task" thid (task_members card end)
frame_value (history thid messages) =
    thread_frame "history" thid (member "messages" (arr (history_values messages)) end)
frame_value (conversations threads) =
    obj (member "t" (words "conversations") (member "threads" (arr (thread_values threads)) end))

-- The default thread has the bare key.
unfoldable pub build_ac2_session_key : Text → Text → Text
build_ac2_session_key controller_did thid =
    let base = channel_id ++ b':' ∷ controller_did in
    if text_beq thid []
    then base
    else if text_beq thid default_thid
    then base
    else base ++ b':' ∷ thid

pub record InboundChat : Type 0 where
  pub thid : Text
  pub text : Text
  pub explicit_thid : Bool

abbrev pub plain_chat : Text → InboundChat
plain_chat text = record { thid = default_thid; text = text; explicit_thid = false }

-- `parsed.body ?? {}`, and its text, or that of the frame, or all that came.
unfoldable pub chat_text : Value → Text → Text
chat_text parsed raw =
    or_else
      (first_of (get "body" parsed >>= λ body. as_text (get "content" body)) (
        first_of (get "body" parsed >>= λ body. as_text (get "text" body))
          (as_text (get "text" parsed))))
      raw

unfoldable pub chat_of : Value → Text → InboundChat
unfolding chat_text
chat_of parsed raw =
    let thid = nonempty_text (as_text (get "thid" parsed)) in
    record {
      thid = or_else thid default_thid;
      text = chat_text parsed raw;
      explicit_thid = is_some thid;
    }

module _ (parse : Text → Option Value) where
  abbrev pub parse_chat : Text → Text → InboundChat
  parse_chat raw [] = plain_chat []
  parse_chat raw (c ∷ rest) =
      if nat_beq c b'{'
      then elim (parse (c ∷ rest)) [ none ↦ plain_chat raw | some parsed ↦ chat_of parsed raw ]
      else plain_chat raw

  unfoldable pub parse_inbound_chat : Text → InboundChat
  unfolding trim
  parse_inbound_chat raw = parse_chat raw (trim raw)

-- ===== src/Cli/Control/Frames.antt =====
-- packages/ac2-cli/src/control/protocol.ts: the frames, and what the two ends read of a JSON value.
use ac.Common.{
  ℕ, String, Option, none, some, List, [], ◌∷◌, if◌then◌else◌, Bool, ◌==◌, nat_beq, string_eq,
  contains,
}
pub use ac.Sdk.Message.Reads.{get_field, property, as_string}
use ac.Sdk.Message.{Json, null, bool, num, str, arr, obj, end, field}

-- `CONTROL_METHODS`.
abbrev pub control_methods : List String
control_methods =
    "daemon.status" ∷ "daemon.stop" ∷ "pair.start" ∷ "pair.cancel" ∷ "connections.list"
    ∷ "connections.forget" ∷ "agent.hello" ∷ "agent.send" ∷ "agent.request" ∷ "subscribe" ∷ []

unfoldable pub is_control_method : String → Bool
unfolding contains
is_control_method value = contains control_methods value

-- `CONTROL_EVENTS`.
abbrev pub control_events : List String
control_events =
    "connection.pairing" ∷ "connection.connected" ∷ "connection.disconnected"
    ∷ "connection.presence" ∷ "message.inbound" ∷ "conversation.changed" ∷ "agent.registered"
    ∷ "agent.unregistered" ∷ []

-- `typeof x === 'number'`.
abbrev pub as_number : Option Json → Option ℕ
as_number (some (num n)) = some n
as_number (some null) = none
as_number (some (bool b)) = none
as_number (some (str s)) = none
as_number (some (arr items)) = none
as_number (some (obj fields)) = none
as_number none = none

-- A value that is falsy counts as absent.
abbrev pub truthy : Option Json → Option Json
truthy (some null) = none
truthy (some (bool b)) = if b then some (bool b) else none
truthy (some (num n)) = if nat_beq n 0 then none else some (num n)
truthy (some (str s)) = if s == "" then none else some (str s)
truthy (some (arr items)) = some (arr items)
truthy (some (obj fields)) = some (obj fields)
truthy none = none

abbrev pub request_frame : ℕ → String → Json → Json
request_frame id method params =
    obj (field "id" (num id) (field "method" (str method) (field "params" params end)))

abbrev pub result_frame : ℕ → Json → Json
result_frame id result = obj (field "id" (num id) (field "result" result end))

abbrev pub error_frame : ℕ → String → String → Json
error_frame id code message = obj (
    field "id" (num id)
      (field "error" (obj (field "code" (str code) (field "message" (str message) end))) end))

abbrev pub event_frame : String → Json → Json
event_frame event value = obj (field "event" (str event) (field "data" value end))

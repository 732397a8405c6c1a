-- ===== src/Cli/Control/Server.antt =====
-- packages/ac2-cli/src/control/server.ts: the clients of the control socket. What is written to a
-- client's socket is recorded with the client. `parse` is `JSON.parse`, with `none` if it throws.
pub mod Broadcast
use ac.Common.{
  ◌>>=◌, first_of, ℕ, zero, suc, ◌+◌, ◌*◌, ◌-◌, String, Option, none, some, List, [], ◌∷◌, ◌++◌,
  if◌then◌else◌, Bool, true, false, ◌==◌, ◌&&◌, nat_beq, leb, nat_eq, string_eq, contains, lookup,
  insert, remove, Text, codes, map,
}
use ac.Sdk.Message.{Json, Fields, null, bool, num, str, arr, obj, end, field}
use ac.Cli.Control.Lines.{is_space, trim_start}
use ac.Cli.Control.Frames.{
  property, as_string, as_number, is_control_method, result_frame, error_frame, event_frame,
}

pub record ServerClient : Type 0 where
  pub subscriptions : List String
  pub agent : Option String
  pub writable : Bool
  pub written : List Json

pub record ControlServer : Type 0 where
  pub clients : List (ℕ × ServerClient)
  pub next_client_id : ℕ

abbrev pub new_server : ControlServer
new_server = record { clients = []; next_client_id = 1 }

unfoldable pub write_frame : ServerClient → Json → ServerClient
write_frame client frame =
    if client.writable then record client { written = client.written ++ frame ∷ [] } else client

unfoldable pub write_to : ControlServer → ℕ → Json → ControlServer
unfolding write_frame
write_to s id frame = elim (lookup id s.clients) [
  | none ↦ s
  | some client ↦ record s { clients = insert id (write_frame client frame) s.clients }
]

unfoldable pub on_connection : ControlServer → ControlServer
on_connection s = record s {
  clients =
      insert s.next_client_id
        (record { subscriptions = []; agent = none; writable = true; written = [] }) s.clients;
  next_client_id = suc s.next_client_id;
}

-- `cleanup`, up to the call of `onClientClosed`.
unfoldable pub cleanup : ControlServer → ℕ → ControlServer
cleanup s id = record s { clients = remove id s.clients }

unfoldable pub close : ControlServer → ControlServer
close s = record s { clients = [] }

-- A client that is subscribed and passes the filter.
unfoldable pub takes_event : String → (ℕ → Bool) → ℕ → ServerClient → Bool
unfolding contains
takes_event event filter id client = contains client.subscriptions event && filter id

unfoldable pub broadcast_to :
    String → Json → (ℕ → Bool) → List (ℕ × ServerClient) → List (ℕ × ServerClient)
unfolding takes_event write_frame
broadcast_to event value filter [] = []
broadcast_to event value filter ((id, client) ∷ rest) =
    (
      id,
      if takes_event event filter id client
          then write_frame client (event_frame event value)
          else client,
    )
    ∷ broadcast_to event value filter rest

unfoldable pub broadcast : ControlServer → String → Json → (ℕ → Bool) → ControlServer
unfolding broadcast_to
broadcast s event value filter = record s { clients = broadcast_to event value filter s.clients }

unfoldable pub send_event : ControlServer → ℕ → String → Json → ControlServer
unfolding write_to
send_event s id event value = write_to s id (event_frame event value)

-- `/"id"\s*:\s*(\d+)/`, which recovers an id from a line that is not JSON.
abbrev pub is_digit : ℕ → Bool
is_digit c = leb b'0' c && leb c b'9'

unfoldable pub read_digits : ℕ → Text → ℕ
read_digits n [] = n
read_digits n (c ∷ s) =
    let more = read_digits (n * 10 + (c - b'0')) s in if is_digit c then more else n

unfoldable pub digits_at : Text → Option ℕ
unfolding read_digits
digits_at [] = none
digits_at (c ∷ s) = if is_digit c then some (read_digits 0 (c ∷ s)) else none

unfoldable pub after : Text → Text → Option Text
after [] s = some s
after (p ∷ ps) [] = none
after (p ∷ ps) (c ∷ s) = if nat_beq p c then after ps s else none

unfoldable pub id_at : Text → Option ℕ
unfolding after digits_at
id_at s = do
  rest ← after (b'"' ∷ b'i' ∷ b'd' ∷ b'"' ∷ []) s
  value ← after (b':' ∷ []) (trim_start rest)
  digits_at (trim_start value)

unfoldable pub recover_id : Text → Option ℕ
unfolding id_at
recover_id [] = none
recover_id (c ∷ s) = first_of (id_at (c ∷ s)) (recover_id s)

-- What a line makes the server do: nothing, answer at once, or call the handler.
pub data Action : Type 0 where
  ignores : Action
  answers : Json → Action
  calls : ℕ → String → Json → Action

abbrev pub or_value : Option Json → Json → Json
or_value none default = default
or_value (some null) default = default
or_value (some (bool b)) default = bool b
or_value (some (num n)) default = num n
or_value (some (str s)) default = str s
or_value (some (arr items)) default = arr items
or_value (some (obj fields)) default = obj fields

-- `unknown method: ${String(frame.method)}`; `shown` is the text that `String` gives.
unfoldable pub dispatch_call : ℕ → Option String → Json → String → Action
unfolding is_control_method
dispatch_call id none params shown = answers (error_frame id "bad_request" shown)
dispatch_call id (some method) params shown =
    if is_control_method method
    then calls id method params
    else answers (error_frame id "bad_request" shown)

unfoldable pub dispatch_frame : Json → String → Action
unfolding dispatch_call
dispatch_frame frame shown = elim (as_number (property "id" frame)) [
  | none ↦ ignores
  | some id ↦
      dispatch_call id (as_string (property "method" frame))
        (or_value (property "params" frame) (obj end)) shown
]

-- `dispatch`, up to the call of the handler.
unfoldable pub dispatch : (Text → Option Json) → Text → String → Action
unfolding recover_id dispatch_frame
dispatch parse line shown = elim (parse line) [
  | none ↦ elim (recover_id line) [
    | none ↦ ignores
    | some id ↦ answers (error_frame id "bad_request" "malformed JSON frame")
  ]
  | some frame ↦ dispatch_frame frame shown
]

-- How the handler ends; an error has a code if it is a string, and a message.
pub data Handled : Type 0 where
  returned : Option Json → Handled
  threw : Option String → String → Handled

abbrev pub known_error_codes : List String
known_error_codes =
    "bad_request" ∷ "not_connected" ∷ "pairing_active" ∷ "agent_taken" ∷ "not_found" ∷ "internal"
    ∷ []

unfoldable pub to_error_code : Option String → String
unfolding contains
to_error_code none = "internal"
to_error_code (some code) = if contains known_error_codes code then code else "internal"

-- The rest of `dispatch`: the frame that answers the request.
unfoldable pub reply : ℕ → Handled → Json
unfolding to_error_code
reply id (returned result) = result_frame id (or_value result (obj end))
reply id (threw code message) = error_frame id (to_error_code code) message

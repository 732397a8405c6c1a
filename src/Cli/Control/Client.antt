-- ===== src/Cli/Control/Client.antt =====
-- packages/ac2-cli/src/control/client.ts: `connectControl`, once the socket is connected. A request's
-- promise is the request's id. `settled`, `called` and `written` record what the client does.
pub mod Settle
use ac.Common.{
  or_else, ℕ, suc, String, Option, none, some, List, [], ◌∷◌, ◌++◌, if◌then◌else◌, Bool, true,
  false, ◌==◌, nat_eq, string_eq, contains, lookup, insert, remove, filter_out,
}
use ac.Sdk.Message.{Json, Fields, null, bool, num, str, arr, obj, end, field}
use ac.Cli.Control.Frames.{property, as_string, as_number, truthy, request_frame}

pub data Outcome : Type 0 where
  resolved : Option Json → Outcome
  failed : String → String → Outcome
  dropped : String → Outcome

pub record ControlClient : Type 0 where
  pub writable : Bool
  pub next_id : ℕ
  pub pending : List (ℕ × Unit {0})
  pub listeners : List (String × List ℕ)
  pub settled : List (ℕ × Outcome)
  pub called : List (ℕ × Option Json)
  pub written : List Json
  pub refused : List String

abbrev pub connected_client : ControlClient
connected_client = record {
  writable = true;
  next_id = 1;
  pending = [];
  listeners = [];
  settled = [];
  called = [];
  written = [];
  refused = [];
}

unfoldable pub request : ControlClient → String → Json → ControlClient
request c method params =
    if c.writable
    then record c {
      next_id = suc c.next_id;
      pending = insert c.next_id tt c.pending;
      written = c.written ++ request_frame c.next_id method params ∷ [];
    }
    else record c { refused = c.refused ++ method ∷ [] }

-- The handlers of an event, called in order.
abbrev pub call_all : List ℕ → Option Json → List (ℕ × Option Json)
call_all [] value = []
call_all (h ∷ hs) value = (h, value) ∷ call_all hs value

abbrev pub handlers_of : Option (List ℕ) → List ℕ
handlers_of none = []
handlers_of (some hs) = hs

-- What a reply settles its promise with.
unfoldable pub outcome_of : Json → Outcome
outcome_of frame = elim (truthy (property "error" frame)) [
  | none ↦ resolved (property "result" frame)
  | some error ↦
      failed (or_else (as_string (property "code" error)) "internal")
        (or_else (as_string (property "message" error)) "control request failed")
]

unfoldable pub settle : ControlClient → ℕ → Json → ControlClient
unfolding outcome_of
settle c id frame = elim (lookup id c.pending) [
  | none ↦ c
  | some entry ↦ record c {
    pending = remove id c.pending;
    settled = c.settled ++ (id, outcome_of frame) ∷ [];
  }
]

-- `handleFrame`; a value that is no object has no properties.
unfoldable pub handle_frame : ControlClient → Json → ControlClient
unfolding settle
handle_frame c frame = elim (as_string (property "event" frame)) [
  | some event ↦ record c {
    called = c.called ++ call_all (handlers_of (lookup event c.listeners)) (property "data" frame);
  }
  | none ↦ elim (as_number (property "id" frame)) [ none ↦ c | some id ↦ settle c id frame ]
]

abbrev fail_all : List (ℕ × Unit {0}) → String → List (ℕ × Outcome)
fail_all [] reason = []
fail_all ((id, entry) ∷ rest) reason = (id, dropped reason) ∷ fail_all rest reason

unfoldable pub fail_pending : ControlClient → String → ControlClient
fail_pending c reason = record c { settled = c.settled ++ fail_all c.pending reason; pending = [] }

-- The `error` and `close` callbacks of the socket.
unfoldable pub on_error : ControlClient → String → ControlClient
unfolding fail_pending
on_error c reason = fail_pending c reason

unfoldable pub on_close : ControlClient → ControlClient
unfolding fail_pending
on_close c = record (fail_pending c "control socket closed") { writable = false }

-- `close` destroys the socket, whose callback comes later.
unfoldable pub close : ControlClient → ControlClient
close c = record c { writable = false }

-- `on` and `off`: a `Set` keeps one copy.
unfoldable pub on : ControlClient → String → ℕ → ControlClient
unfolding contains
on c event handler =
    let handlers = handlers_of (lookup event c.listeners) in
    record c {
      listeners =
          insert event (if contains handlers handler then handlers else handlers ++ handler ∷ [])
            c.listeners;
    }

unfoldable pub off : ControlClient → String → ℕ → ControlClient
unfolding filter_out
off c event handler = elim (lookup event c.listeners) [
  | none ↦ c
  | some handlers ↦ record c { listeners = insert event (filter_out handler handlers) c.listeners }
]

-- ===== src/Cli/State.antt =====
-- packages/ac2-cli/src/identity/state.ts: connections, identities and thread history on disk.
-- `Text` is a string by its code units, for the titles that the source cuts.
pub mod Cards
pub mod History
pub mod Unique
pub mod Grants
pub mod Runtime
pub mod Listing
mod Tests
use ac.Common.{
  ℕ, String, Option, none, some, List, [], ◌∷◌, ◌++◌, if◌then◌else◌, Bool, true, false, ◌==◌, ◌&&◌,
  not, Text, string_eq, lookup, insert, is_some, take,
}
use ac.Sdk.Message.{Json}

pub record Identity : Type 0 where
  pub agent_did : String
  pub controller_did : String
  pub public_key : String
  pub material : Option String

pub data Role : Type 0 where
  user agent tool task : Role

pub record ChatMessage : Type 0 where
  pub role : Role
  pub text : Text
  pub at : ℕ
  pub id : Option String
  pub tool_name : Option String
  pub command : Option String
  pub output : Option String
  pub title : Option Text
  pub prompt : Option String
  pub status : Option String
  pub result : Option String

pub record Conversation : Type 0 where
  pub thid : String
  pub title : Option Text
  pub created_at : ℕ
  pub updated_at : ℕ
  pub messages : List ChatMessage

pub record Connection : Type 0 where
  pub request_id : String
  pub identity : Option Identity
  pub session_cookie : Option String
  pub created_at : ℕ
  pub last_active_at : ℕ
  pub conversations : List (String × Conversation)

pub record RuntimeSelection : Type 0 where
  pub adapter : Text
  pub config : Option (List (String × Json))

pub record State : Type 0 where
  pub request_id : Option String
  pub identity : Option Identity
  pub active_request_id : Option String
  pub connections : List (String × Connection)
  pub runtime : Option RuntimeSelection

-- The state file, which a process may be unable to write.
pub record Disk : Type 0 where
  pub writable : Bool
  pub state : State

abbrev pub empty_state : State
empty_state = record {
  request_id = none;
  identity = none;
  active_request_id = none;
  connections = [];
  runtime = none;
}

-- A write is best effort: when it fails the file keeps its state.
unfoldable pub save : Disk → State → Disk
save d next = if d.writable then record d { state = next } else d

unfoldable pub clear_state : Disk → Disk
unfolding save
clear_state d = save d empty_state

unfoldable pub get_connection : Disk → String → Option Connection
get_connection d request_id = lookup request_id d.state.connections

unfoldable pub new_connection : String → ℕ → Connection
new_connection request_id now = record {
  request_id = request_id;
  identity = none;
  session_cookie = none;
  created_at = now;
  last_active_at = now;
  conversations = [];
}

-- `connections[requestId] ?? { … }`.
unfoldable pub connection_or_new : Disk → String → ℕ → Connection
unfolding get_connection
connection_or_new d request_id now = elim (get_connection d request_id) [
  | none ↦ new_connection request_id now
  | some c ↦ c
]

-- `saveAc2State({ connections, activeRequestId: requestId, requestId })`.
unfoldable pub save_connection : Disk → String → Connection → Disk
unfolding save
save_connection d request_id c = save d (record d.state {
  connections = insert request_id c d.state.connections;
  active_request_id = some request_id;
  request_id = some request_id;
})

unfoldable pub touch_connection : Disk → String → ℕ → Disk
unfolding save_connection connection_or_new
touch_connection d request_id now =
    save_connection d request_id
      (record (connection_or_new d request_id now) { last_active_at = now })

unfoldable pub get_session_cookie : Disk → String → Option String
unfolding get_connection
get_session_cookie d request_id = elim (get_connection d request_id) [
  | none ↦ none
  | some c ↦ c.session_cookie
]

unfoldable pub set_session_cookie : Disk → String → String → ℕ → Disk
unfolding save_connection connection_or_new get_session_cookie
set_session_cookie d request_id cookie now =
    let written = save_connection d request_id (record (connection_or_new d request_id now) {
      session_cookie = some cookie;
      last_active_at = now;
    }) in
    elim (get_session_cookie d request_id) [
      | none ↦ written
      | some old ↦ if old == cookie then d else written
    ]

unfoldable pub set_connection_identity : Disk → String → Identity → ℕ → Disk
unfolding save connection_or_new
set_connection_identity d request_id identity now =
    let c = record (connection_or_new d request_id now) {
      identity = some identity;
      last_active_at = now;
    } in
    save d (record d.state {
      connections = insert request_id c d.state.connections;
      identity = some identity;
      active_request_id = some request_id;
      request_id = some request_id;
    })

unfoldable pub new_conversation : String → Option Text → List ChatMessage → ℕ → Conversation
new_conversation thid title messages now = record {
  thid = thid;
  title = title;
  created_at = now;
  updated_at = now;
  messages = messages;
}

abbrev pub is_user : Role → Bool
is_user user = true
is_user agent = false
is_user tool = false
is_user task = false

-- The first user message gives the title, cut to 80 code units.
unfoldable pub seeded_title : Option Text → ChatMessage → Option Text
seeded_title (some title) message = some title
seeded_title none message = if is_user message.role then some (take 80 message.text) else none

unfoldable pub with_message : Option Conversation → String → ChatMessage → ℕ → Conversation
unfolding new_conversation seeded_title
with_message none thid message now =
    new_conversation thid (seeded_title none message) (message ∷ []) now
with_message (some existing) thid message now = record existing {
  updated_at = now;
  messages = existing.messages ++ message ∷ [];
  title = seeded_title existing.title message;
}

-- What ends each of the `record…` functions and `ensureConversation`.
unfoldable pub save_conversation : Disk → String → String → Conversation → ℕ → Disk
unfolding save_connection connection_or_new
save_conversation d request_id thid conversation now =
    let c = connection_or_new d request_id now in
    save_connection d request_id
      (record c { last_active_at = now; conversations = insert thid conversation c.conversations })

unfoldable pub find_conversation : Disk → String → String → ℕ → Option Conversation
unfolding connection_or_new
find_conversation d request_id thid now =
    lookup thid (connection_or_new d request_id now).conversations

unfoldable pub record_conversation_message : Disk → String → String → ChatMessage → ℕ → Disk
unfolding save_conversation find_conversation with_message
record_conversation_message d request_id thid message now =
    save_conversation d request_id thid
      (with_message (find_conversation d request_id thid now) thid message now) now

unfoldable pub ensured : Option Conversation → String → Option Text → ℕ → Conversation
unfolding new_conversation
ensured none thid title now = new_conversation thid title [] now
ensured (some existing) thid title now = elim existing.title [
  | none ↦ record existing { title = title }
  | some old ↦ existing
]

unfoldable pub ensure_conversation : Disk → String → String → Option Text → ℕ → Disk
unfolding save_conversation find_conversation ensured
ensure_conversation d request_id thid title now =
    save_conversation d request_id thid
      (ensured (find_conversation d request_id thid now) thid title now) now

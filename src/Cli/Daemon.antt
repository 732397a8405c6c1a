-- ===== src/Cli/Daemon.antt =====
-- packages/ac2-cli/src/daemon/run.ts: `runDaemon`, as a state over the control server, the broker
-- and the state file, with one function for each request. The agent identities of the keystore and
-- the log are left out.
pub mod Agents
pub mod Events
pub mod Arming
pub mod Forget
mod Tests
use ac.Common.{
  first_of, ℕ, suc, String, Option, none, some, List, [], ◌∷◌, ◌++◌, if◌then◌else◌, Bool, true,
  false, not, ◌==◌, ◌&&◌, ◌||◌, nat_beq, nat_eq, string_eq, contains, lookup, insert, remove, Text,
  is_some,
}
use ac.Sdk.Message.{Json, str, obj, end, field}
use ac.Cli.Control.Frames.{control_events}
use ac.Cli.Control.Server.{ControlServer, ServerClient, new_server, broadcast, cleanup, send_event}
use ac.Cli.State.{
  Disk, State, Connection, Identity, RuntimeSelection, get_connection, clear_state, save,
  empty_state,
}
use ac.Cli.State.Runtime.{load_runtime_selection, save_runtime_selection, GivenConfig}
use ac.Cli.State.Listing.{list_connections}
use ac.Cli.Broker.{
  Broker, Channel, Link, RequestParams, Brokered, init, send, request, connected, is_connected,
}

-- `pair_starts` counts the calls of `broker.startPairing` that `armPairing` makes.
pub record Daemon : Type 0 where
  pub server : ControlServer
  pub broker : Broker
  pub disk : Disk
  pub agent_clients : List (String × ℕ)
  pub agent_hosts : List (String × Option String)
  pub auto_pair : Bool
  pub resume_connections : Bool
  pub pairing_armed : Bool
  pub arm_on_agent_hello : Bool
  pub waiting_for_runtime : Bool
  pub pair_starts : ℕ
  pub armings : ℕ

abbrev pub new_daemon : Disk → Daemon
new_daemon disk = record {
  server = new_server;
  broker = init;
  disk = disk;
  agent_clients = [];
  agent_hosts = [];
  auto_pair = false;
  resume_connections = true;
  pairing_armed = false;
  arm_on_agent_hello = false;
  waiting_for_runtime = false;
  pair_starts = 0;
  armings = 0;
}

-- `ControlError`, by its code.
pub data ErrorCode : Type 0 where
  bad_request not_found agent_taken not_connected : ErrorCode

-- What a request is answered with.
pub data Answer : Type 0 where
  refused : ErrorCode → Answer
  stopping cancelled : Answer
  connections : List Connection → Answer
  forgotten_all : Answer
  forgotten : String → Answer
  welcomed : Option Identity → Answer
  delivered : Bool → Answer
  brokered : Brokered → Answer
  subscribed : List String → Answer

-- `!firstNonEmpty(x)` and `!x`, on a stored id; blanks around an id are not modelled.
abbrev pub filled : Option String → Option String
filled none = none
filled (some s) = if s == "" then none else some s

abbrev pub first_connection : List Connection → Option String
first_connection [] = none
first_connection (c ∷ rest) = some c.request_id

unfoldable pub resolve_resume_request_id : Disk → Option String
unfolding list_connections
resolve_resume_request_id disk =
    first_of (filled disk.state.request_id) (first_connection (list_connections disk))

-- Older state carries the connection only under `connections`.
unfoldable pub mirror_request_id : Disk → String → Disk
unfolding save
mirror_request_id disk request_id = elim (filled disk.state.request_id) [
  | some old ↦ disk
  | none ↦ save disk (record disk.state { request_id = some request_id })
]

unfoldable pub resume : Daemon → Option String → Daemon
unfolding mirror_request_id
resume d none = d
resume d (some request_id) = record d {
  disk = mirror_request_id d.disk request_id;
  pair_starts = suc d.pair_starts;
}

unfoldable pub arm_pairing : Daemon → Daemon
unfolding resume resolve_resume_request_id
arm_pairing d =
    if d.auto_pair
    then record d { pair_starts = suc d.pair_starts }
    else if d.resume_connections
    then resume d (filled (resolve_resume_request_id d.disk))
    else d

unfoldable pub arm_unless : Bool → Daemon → Daemon
unfolding arm_pairing
arm_unless true d = d
arm_unless false d =
    arm_pairing
      (record d { pairing_armed = true; waiting_for_runtime = false; armings = suc d.armings })

unfoldable pub arm_pairing_once : Daemon → Daemon
unfolding arm_unless
arm_pairing_once d = arm_unless d.pairing_armed d

-- The end of `runDaemon`: whether it waits for a runtime, and whether the adapter manages its own
-- readiness.
unfoldable pub startup_gate : Daemon → Bool → Bool → Daemon
unfolding arm_pairing_once
startup_gate d wait manages =
    if not wait
    then arm_pairing_once d
    else if d.pairing_armed
    then d
    else if manages
    then record d { waiting_for_runtime = true }
    else record d { arm_on_agent_hello = true; waiting_for_runtime = true }

-- `reportRuntimeReady`.
unfoldable pub runtime_ready : Daemon → Daemon
unfolding arm_pairing_once
runtime_ready d = arm_pairing_once d

abbrev pub everyone : ℕ → Bool
everyone id = true

unfoldable pub announce : Daemon → String → String → Daemon
unfolding broadcast
announce d event agent = record d {
  server = broadcast d.server event (obj (field "agent" (str agent) end)) everyone;
}

-- `client.agent = agent; client.subscriptions.add('message.inbound')`.
unfoldable pub enrol : ServerClient → String → ServerClient
unfolding contains
enrol client agent = record client {
  agent = some agent;
  subscriptions =
      if contains client.subscriptions "message.inbound"
      then client.subscriptions
      else client.subscriptions ++ "message.inbound" ∷ [];
}

unfoldable pub enrol_at : ControlServer → ℕ → String → ControlServer
unfolding enrol
enrol_at s id agent = elim (lookup id s.clients) [
  | none ↦ s
  | some client ↦ record s { clients = insert id (enrol client agent) s.clients }
]

-- Another client than the caller holds the agent.
abbrev pub held_by_other : Option ℕ → ℕ → Bool
held_by_other none id = false
held_by_other (some other) id = not (nat_beq other id)

-- `agent.hello` past its guards: the tables, and then the signal that a runtime is alive.
unfoldable pub enrolled : Daemon → ℕ → String → Option String → Daemon
unfolding enrol_at announce
enrolled d id agent host =
    announce
      (record d {
        server = enrol_at d.server id agent;
        agent_clients = insert agent id d.agent_clients;
        agent_hosts = insert agent host d.agent_hosts;
      })
      "agent.registered" agent

unfoldable pub arm_if : Bool → Daemon → Daemon
unfolding arm_pairing_once
arm_if true d = arm_pairing_once d
arm_if false d = d

unfoldable pub register_agent : Daemon → ℕ → String → Option String → Daemon
unfolding enrolled arm_if
register_agent d id agent host = arm_if d.arm_on_agent_hello (enrolled d id agent host)

unfoldable pub agent_hello : Daemon → ℕ → String → Option String → Daemon × Answer
unfolding register_agent
agent_hello d id agent host =
    if agent == ""
    then (d, refused bad_request)
    else if held_by_other (lookup agent d.agent_clients) id
    then (d, refused agent_taken)
    else (register_agent d id agent host, welcomed d.disk.state.identity)

-- `onClientClosed`.
unfoldable pub client_closed : Daemon → Option String → Daemon
unfolding announce
client_closed d none = d
client_closed d (some agent) =
    if agent == ""
    then d
    else announce
        (record d {
          agent_clients = remove agent d.agent_clients;
          agent_hosts = remove agent d.agent_hosts;
        })
        "agent.unregistered" agent

abbrev pub agent_of : Option ServerClient → Option String
agent_of none = none
agent_of (some client) = client.agent

-- The `close` callback of a client's socket.
unfoldable pub socket_closes : Daemon → ℕ → Daemon
unfolding cleanup client_closed
socket_closes d id = elim (lookup id d.server.clients) [
  | none ↦ d
  | some client ↦ client_closed (record d { server = cleanup d.server id }) client.agent
]

-- `deliverInboundToAgentSocket`, to the client that registered the default agent.
unfoldable pub deliver_inbound : Daemon → String → Json → Daemon
unfolding send_event
deliver_inbound d default_agent message = elim (lookup default_agent d.agent_clients) [
  | none ↦ d
  | some id ↦ record d { server = send_event d.server id "message.inbound" message }
]

abbrev pub unless_is : String → Option String → Option String
unless_is id none = none
unless_is id (some s) = if s == id then none else some s

-- The file is cleared first, since a save keeps what it does not name.
unfoldable pub forget_connection : Disk → String → Disk
unfolding save clear_state
forget_connection disk request_id = save (clear_state disk) (record disk.state {
  connections = remove request_id disk.state.connections;
  active_request_id = unless_is request_id disk.state.active_request_id;
  request_id = unless_is request_id disk.state.request_id;
})

-- A config that was stored holds no function.
abbrev pub given : List (String × Json) → GivenConfig
given [] = []
given ((key, value) ∷ rest) = (key, some value) ∷ given rest

abbrev pub given_option : Option (List (String × Json)) → GivenConfig
given_option none = []
given_option (some config) = given config

-- `connections.forget` of all: the runtime that was chosen is remembered.
unfoldable pub forget_all : Disk → Disk
unfolding load_runtime_selection save_runtime_selection clear_state
forget_all disk = elim (load_runtime_selection disk) [
  | none ↦ clear_state disk
  | some r ↦ save_runtime_selection (clear_state disk) r.adapter (given_option r.config)
]

unfoldable pub connections_forget : Daemon → Option String → Bool → Daemon × Answer
unfolding forget_all forget_connection get_connection
connections_forget d request_id all =
    if all
    then (record d { disk = forget_all d.disk }, forgotten_all)
    else elim (filled request_id) [
      | none ↦ (d, refused bad_request)
      | some id ↦
          if is_some (get_connection d.disk id)
          then (record d { disk = forget_connection d.disk id }, forgotten id)
          else (d, refused not_found)
    ]

unfoldable pub agent_request : Daemon → RequestParams → Bool → Answer
unfolding request
agent_request d params well_formed =
    if not well_formed
    then refused bad_request
    else if is_connected d.broker.state
    then brokered (request d.broker params)
    else refused not_connected

abbrev pub add_all : List String → List String → List String
add_all known [] = known
add_all known (event ∷ rest) =
    add_all (if contains known event then known else known ++ event ∷ []) rest

abbrev pub events_or_all : List String → List String
events_or_all [] = control_events
events_or_all (event ∷ rest) = event ∷ rest

unfoldable pub subscribe_as : Daemon → ℕ → List String → Option ServerClient → Daemon × Answer
unfolding contains
subscribe_as d id events none = (d, subscribed (add_all [] (events_or_all events)))
subscribe_as d id events (some client) =
    let all = add_all client.subscriptions (events_or_all events) in
    (
      record d {
        server = record d.server {
          clients = insert id (record client { subscriptions = all }) d.server.clients;
        };
      },
      subscribed all,
    )

unfoldable pub subscribe : Daemon → ℕ → List String → Daemon × Answer
unfolding subscribe_as
subscribe d id events = subscribe_as d id events (lookup id d.server.clients)

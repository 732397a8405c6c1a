-- ===== src/Cli/Daemon/Tests.antt =====
-- The theorems on the daemon at two clients and one connection.
use ac.Common.{
  ◌≡◌, ◌≢◌, refl, String, none, some, List, [], ◌∷◌, true, false, ◌==◌, if◌then◌else◌, string_eq,
  nat_eq, lookup, insert, codes, Text, arith, one_if,
}
use text.Mathlib.TextEquality.{eq_iff}
use ac.Sdk.Message.{str}
use ac.Cli.State.{Disk, empty_state, get_connection, new_connection}
use ac.Cli.State.Runtime.{GivenConfig}
use ac.Cli.Control.Lines.{trim, trim_start, is_space}
use ac.Cli.Control.Server.{ServerClient, new_server, on_connection}
use ac.Cli.Daemon.{
  Daemon, new_daemon, agent_hello, socket_closes, startup_gate, refused, agent_taken,
  forget_connection,
}
use ac.Cli.Daemon.Events.{DaemonEvent, connects, ready, hellos, closes, passes_gate, daemon_run}
use ac.Cli.Daemon.Agents.Renamed.{renamed_agent-stuck}
use ac.Cli.Daemon.Arming.{armed_once, early_agent-not_heard}
use ac.Cli.Daemon.Forget.{forget_connection_lem}

abbrev disk : Disk
disk = record { writable = true; state = empty_state }

abbrev openclaw : String
openclaw = "openclaw"

abbrev hermes : String
hermes = "hermes"

abbrev r1 : String
r1 = "r1"

abbrev two_clients : Daemon
two_clients = record (new_daemon disk) { server = on_connection (on_connection new_server) }

abbrev first_client : ServerClient
first_client = record { subscriptions = []; agent = none; writable = true; written = [] }

first_client-found : lookup 1 two_clients.server.clients ≡ some first_client
unfolding on_connection lookup insert
first_client-found = refl

openclaw_named : openclaw ≢ ""
openclaw_named = ground (arith, eq_iff openclaw "")

hermes_named : hermes ≢ ""
hermes_named = ground (arith, eq_iff hermes "")

names_apart : openclaw ≢ hermes
names_apart = ground (arith, eq_iff openclaw hermes)

renamed_agent-stuck_example :
    (agent_hello
      (socket_closes
        (agent_hello (agent_hello two_clients 1 "openclaw" none).0 1 "hermes" none).0
        1)
      2
      "openclaw"
      none).1
    ≡ refused agent_taken
unfolding lookup
renamed_agent-stuck_example =
    renamed_agent-stuck two_clients 1 2 first_client "openclaw" "hermes" none first_client-found
      openclaw_named hermes_named names_apart (omega arith) refl refl

abbrev busy : List DaemonEvent
busy = connects ∷ passes_gate true false ∷ hellos 1 "openclaw" none ∷ ready ∷ closes 1 ∷ ready ∷ []

armed_once_example :
    (daemon_run (new_daemon disk) busy).armings
    ≡ one_if (daemon_run (new_daemon disk) busy).pairing_armed
armed_once_example = armed_once disk busy

early_agent-not_heard_example :
    (lookup "openclaw"
        (startup_gate (agent_hello two_clients 1 "openclaw" none).0 true false).agent_clients
      ≡ some 1)
    × ((startup_gate (agent_hello two_clients 1 "openclaw" none).0 true false).waiting_for_runtime
        ≡ true)
    × ((startup_gate (agent_hello two_clients 1 "openclaw" none).0 true false).pair_starts ≡ 0)
unfolding lookup
early_agent-not_heard_example =
    early_agent-not_heard two_clients 1 "openclaw" none refl refl openclaw_named refl

abbrev paired : Disk
paired = record {
  writable = true;
  state = record empty_state {
    request_id = some "r1";
    connections = ("r1", new_connection "r1" 3) ∷ ("r2", new_connection "r2" 4) ∷ [];
  };
}

forget_connection_lem_example :
    (get_connection (forget_connection paired "r1") "r2"
      ≡ (if r1 == "r2" then none else get_connection paired "r2"))
    × ((forget_connection paired "r1").state.request_id ≢ some "r1")
    × ((forget_connection paired "r1").state.active_request_id ≢ some "r1")
    × ((forget_connection paired "r1").state.identity ≡ none)
    × ((forget_connection paired "r1").state.runtime ≡ none)
forget_connection_lem_example = forget_connection_lem paired "r1" "r2" refl

abbrev gateway : Text
gateway = codes "openclaw"

abbrev gateway_config : GivenConfig
gateway_config = ("token", some (str "t")) ∷ ("log", none) ∷ ("__env", some (str "x")) ∷ []

gateway-trimmed : trim gateway ≡ gateway
unfolding trim trim_start is_space
gateway-trimmed = refl

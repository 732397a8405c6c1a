-- ===== src/Cli/Daemon/Events.antt =====
-- packages/ac2-cli/src/daemon/run.ts: what can happen to a daemon.
use ac.Common.{ℕ, String, Option, List, [], ◌∷◌, Bool}
use ac.Cli.Control.Server.{on_connection}
use ac.Cli.Daemon.{
  Daemon, agent_hello, socket_closes, subscribe, runtime_ready, startup_gate, connections_forget,
}

pub data DaemonEvent : Type 0 where
  connects ready : DaemonEvent
  hellos : ℕ → String → Option String → DaemonEvent
  closes : ℕ → DaemonEvent
  subscribes : ℕ → List String → DaemonEvent
  passes_gate : Bool → Bool → DaemonEvent
  forgets : Option String → Bool → DaemonEvent

unfoldable pub daemon_step : Daemon → DaemonEvent → Daemon
daemon_step d connects = record d { server = on_connection d.server }
daemon_step d ready = runtime_ready d
daemon_step d (hellos id agent host) = (agent_hello d id agent host).0
daemon_step d (closes id) = socket_closes d id
daemon_step d (subscribes id events) = (subscribe d id events).0
daemon_step d (passes_gate wait manages) = startup_gate d wait manages
daemon_step d (forgets id all) = (connections_forget d id all).0

unfoldable pub daemon_run : Daemon → List DaemonEvent → Daemon
unfolding daemon_step
daemon_run d [] = d
daemon_run d (e ∷ es) = daemon_run (daemon_step d e) es

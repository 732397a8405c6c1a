-- ===== src/Cli/Daemon/Arming.antt =====
-- packages/ac2-cli/src/daemon/run.ts: when the daemon starts to await a wallet.
use ac.Common.{
  ℕ, suc, ◌≡◌, ◌≢◌, refl, ◌∙◌, String, Option, none, some, List, [], ◌∷◌, Bool, true, false, nat_eq,
  string_eq, lookup, lookup-insert, one_if, Option-cases, inl, inr, arith,
}
use text.Mathlib.TextEquality.{eq_iff}
use ac.Cli.State.{Disk}
use ac.Cli.Daemon.{
  Daemon, new_daemon, resume, arm_pairing, arm_unless, arm_pairing_once, arm_if, enrolled, announce,
  register_agent, agent_hello, socket_closes, client_closed, subscribe, subscribe_as,
  connections_forget, startup_gate, runtime_ready, filled, resolve_resume_request_id, held_by_other,
}
use ac.Cli.Daemon.Agents.{agent_clients-register}
use ac.Cli.Daemon.Agents.Renamed.{hello-register}
use ac.Cli.Control.Server.{cleanup, ServerClient}
use ac.Cli.Daemon.Events.{
  DaemonEvent, connects, ready, hellos, closes, subscribes, passes_gate, forgets, daemon_step,
  daemon_run,
}

-- The daemon has armed as often as its flag says.
abbrev IsArmed : Daemon → Type 0
IsArmed d = d.armings ≡ one_if d.pairing_armed

resume-IsArmed : (d : Daemon) (id : Option String) → IsArmed d → IsArmed (resume d id)
unfolding resume
resume-IsArmed d none h = h
resume-IsArmed d (some id) h = h

arm_pairing-IsArmed : (d : Daemon) → IsArmed d → IsArmed (arm_pairing d)
unfolding arm_pairing
arm_pairing-IsArmed d h =
    ground (arith, resume-IsArmed d (filled (resolve_resume_request_id d.disk)))

arm_unless-IsArmed :
    (armed : Bool) (d : Daemon) → d.pairing_armed ≡ armed → IsArmed d → IsArmed (arm_unless armed d)
unfolding arm_unless
arm_unless-IsArmed true d e h = h
arm_unless-IsArmed false d e h =
    arm_pairing-IsArmed
      (record d { pairing_armed = true; waiting_for_runtime = false; armings = suc d.armings })
      (ground arith)

arm_pairing_once-IsArmed : (d : Daemon) → IsArmed d → IsArmed (arm_pairing_once d)
unfolding arm_pairing_once
arm_pairing_once-IsArmed d h = arm_unless-IsArmed d.pairing_armed d refl h

register-IsArmed :
    (d : Daemon) (id : ℕ) (agent : String) (host : Option String) (alive : Bool)
    → IsArmed d
    → IsArmed (arm_if alive (enrolled d id agent host))
unfolding arm_if enrolled announce
register-IsArmed d id agent host true h = arm_pairing_once-IsArmed (enrolled d id agent host) h
register-IsArmed d id agent host false h = h

closed-IsArmed : (d : Daemon) (agent : Option String) → IsArmed d → IsArmed (client_closed d agent)
unfolding client_closed announce
closed-IsArmed d none h = h
closed-IsArmed d (some agent) h = ground arith

subscribe_as-IsArmed :
    (d : Daemon) (id : ℕ) (events : List String) (client : Option ServerClient)
    → IsArmed d
    → IsArmed (subscribe_as d id events client).0
unfolding subscribe_as
subscribe_as-IsArmed d id events none h = h
subscribe_as-IsArmed d id events (some client) h = h

daemon_step-IsArmed : (d : Daemon) (e : DaemonEvent) → IsArmed d → IsArmed (daemon_step d e)
unfolding daemon_step runtime_ready agent_hello register_agent socket_closes subscribe startup_gate
    connections_forget
daemon_step-IsArmed d connects h = h
daemon_step-IsArmed d ready h = arm_pairing_once-IsArmed d h
daemon_step-IsArmed d (hellos id agent host) h =
    ground (arith, register-IsArmed d id agent host d.arm_on_agent_hello)
daemon_step-IsArmed d (closes id) h = elim (Option-cases (lookup id d.server.clients)) [
  | inl e ↦ rw (e, socket_closes) h
  | inr (client, e) ↦
      rw (e, socket_closes)
        (closed-IsArmed (record d { server = cleanup d.server id }) client.agent h)
]
daemon_step-IsArmed d (subscribes id events) h =
    subscribe_as-IsArmed d id events (lookup id d.server.clients) h
daemon_step-IsArmed d (passes_gate wait manages) h = ground (arith, arm_pairing_once-IsArmed d)
daemon_step-IsArmed d (forgets id all) h = ground arith

daemon_run-IsArmed : (d : Daemon) (es : List DaemonEvent) → IsArmed d → IsArmed (daemon_run d es)
unfolding daemon_run
daemon_run-IsArmed d [] h = h
daemon_run-IsArmed d (e ∷ es) h =
    daemon_run-IsArmed (daemon_step d e) es (daemon_step-IsArmed d e h)

-- However often a runtime reports that it is alive, and whatever else happens, the daemon arms
-- pairing at most once, and has armed it exactly if its flag is set.
pub armed_once :
    (disk : Disk) (es : List DaemonEvent)
    → (daemon_run (new_daemon disk) es).armings
      ≡ one_if (daemon_run (new_daemon disk) es).pairing_armed
armed_once disk es = daemon_run-IsArmed (new_daemon disk) es refl

arm_if-deaf :
    (d : Daemon) (id : ℕ) (agent : String) (host : Option String) (alive : Bool)
    → alive ≡ false
    → (arm_if alive (enrolled d id agent host)).pairing_armed ≡ d.pairing_armed
unfolding arm_if enrolled announce
arm_if-deaf d id agent host true e = cc
arm_if-deaf d id agent host false e = refl

arm_if-starts :
    (d : Daemon) (id : ℕ) (agent : String) (host : Option String) (alive : Bool)
    → alive ≡ false
    → (arm_if alive (enrolled d id agent host)).pair_starts ≡ d.pair_starts
unfolding arm_if enrolled announce
arm_if-starts d id agent host true e = cc
arm_if-starts d id agent host false e = refl

-- An agent that registers before the daemon has passed its startup gate is not heard: with an adapter
-- that does not manage its own readiness the daemon then waits for an agent, although one is
-- registered, and has not started to pair.
pub early_agent-not_heard :
    (d : Daemon) (id : ℕ) (agent : String) (host : Option String)
    → d.pairing_armed ≡ false
    → d.arm_on_agent_hello ≡ false
    → agent ≢ ""
    → held_by_other (lookup agent d.agent_clients) id ≡ false
    → let e = startup_gate (agent_hello d id agent host).0 true false in
      (lookup agent e.agent_clients ≡ some id)
      × (e.waiting_for_runtime ≡ true)
      × (e.pair_starts ≡ d.pair_starts)
unfolding startup_gate register_agent
early_agent-not_heard d id agent host armed deaf named free =
    let unarmed = arm_if-deaf d id agent host d.arm_on_agent_hello deaf ∙ armed in
    rw (hello-register d id agent host named free, unarmed)
      (
        rw (agent_clients-register d id agent host)
            (ground (arith, lookup-insert agent agent id d.agent_clients, eq_iff agent agent)),
        refl,
        arm_if-starts d id agent host d.arm_on_agent_hello deaf,
      )

-- ===== src/Cli/Daemon/Agents.antt =====
-- packages/ac2-cli/src/daemon/run.ts: which client of the control socket stands for which agent.
pub mod Renamed
use ac.Common.{
  ℕ, suc, ◌≡◌, ◌≢◌, ◌≤◌, refl, sym, ap, ◌∙◌, String, Option, none, some, List, [], ◌∷◌, ◌++◌,
  if◌then◌else◌, Bool, true, false, nat_beq, nat_beq_iff, nat_eq, string_eq, lookup, insert, remove,
  lookup-insert, lookup-remove, Option-cases, Bool-cases, inl, inr, arith, ◌==◌, leb,
}
use text.Mathlib.TextEquality.{eq_iff}
use ac.Sdk.Message.{Json, str, obj, end, field}
use ac.Cli.Control.Server.{ControlServer, ServerClient, broadcast, write_frame, takes_event}
use ac.Cli.Control.Server.Broadcast.{told, broadcast_lem}
use ac.Cli.State.{Disk}
use ac.Cli.Daemon.{
  Daemon, resume, arm_pairing, arm_pairing_once, announce, enrol, enrol_at, register_agent,
  enrolled, arm_if, arm_unless, agent_hello, agent_of, everyone, filled, resolve_resume_request_id,
}

-- The parts of the daemon that arming leaves alone.
abbrev pub SameAgents : Daemon → Daemon → Type 0
SameAgents d e = (e.server ≡ d.server) × (e.agent_clients ≡ d.agent_clients)

resume-SameAgents : (d : Daemon) (id : Option String) → SameAgents d (resume d id)
unfolding resume
resume-SameAgents d none = (refl, refl)
resume-SameAgents d (some id) = (refl, refl)

arm_pairing-SameAgents : (d : Daemon) → SameAgents d (arm_pairing d)
unfolding arm_pairing
arm_pairing-SameAgents d =
    ground (arith, resume-SameAgents d (filled (resolve_resume_request_id d.disk)))

arm_unless-SameAgents : (armed : Bool) (d : Daemon) → SameAgents d (arm_unless armed d)
unfolding arm_unless
arm_unless-SameAgents true d = (refl, refl)
arm_unless-SameAgents false d =
    arm_pairing-SameAgents
      (record d { pairing_armed = true; waiting_for_runtime = false; armings = suc d.armings })

pub arm_pairing_once-SameAgents : (d : Daemon) → SameAgents d (arm_pairing_once d)
unfolding arm_pairing_once
arm_pairing_once-SameAgents d = arm_unless-SameAgents d.pairing_armed d

arm_if-SameAgents : (alive : Bool) (d : Daemon) → SameAgents d (arm_if alive d)
unfolding arm_if
arm_if-SameAgents true d = arm_pairing_once-SameAgents d
arm_if-SameAgents false d = (refl, refl)

-- A client's agent, by the client's id.
abbrev pub agent_at : Daemon → ℕ → Option String
agent_at d id = agent_of (lookup id d.server.clients)

agent_of-told :
    (event : String) (value : Json) (id : ℕ) (found : Option ServerClient)
    → agent_of (told event value everyone id found) ≡ agent_of found
unfolding write_frame
agent_of-told event value id none = refl
agent_of-told event value id (some client) = ground arith

pub agent_at-announce :
    (d : Daemon) (event agent : String) (id : ℕ)
    → agent_at (announce d event agent) id ≡ agent_at d id
unfolding announce
agent_at-announce d event agent id =
    ap agent_of (broadcast_lem d.server event (obj (field "agent" (str agent) end)) everyone id)
    ∙ agent_of-told event (obj (field "agent" (str agent) end)) id (lookup id d.server.clients)

agent_of-enrol :
    (s : ControlServer) (id j : ℕ) (agent : String) (client : ServerClient)
    → lookup id s.clients ≡ some client
    → agent_of (lookup j (enrol_at s id agent).clients)
      ≡ (if nat_beq id j then some agent else agent_of (lookup j s.clients))
unfolding enrol_at enrol
agent_of-enrol s id j agent client found =
    rw (found, enrol_at) (ground (arith, lookup-insert id j (enrol client agent) s.clients))

-- What registering an agent leaves in the two tables.
pub agent_clients-register :
    (d : Daemon) (id : ℕ) (agent : String) (host : Option String)
    → (register_agent d id agent host).agent_clients ≡ insert agent id d.agent_clients
unfolding register_agent enrolled announce
agent_clients-register d id agent host =
    (arm_if-SameAgents d.arm_on_agent_hello (enrolled d id agent host)).1

pub agent_at-register :
    (d : Daemon) (id j : ℕ) (agent : String) (host : Option String) (client : ServerClient)
    → lookup id d.server.clients ≡ some client
    → agent_at (register_agent d id agent host) j
      ≡ (if nat_beq id j then some agent else agent_at d j)
unfolding register_agent enrolled
agent_at-register d id j agent host client found =
    ap (λ s. agent_of (lookup j s.clients))
      (arm_if-SameAgents d.arm_on_agent_hello (enrolled d id agent host)).0
    ∙ agent_at-announce
        (record d {
          server = enrol_at d.server id agent;
          agent_clients = insert agent id d.agent_clients;
          agent_hosts = insert agent host d.agent_hosts;
        })
        "agent.registered" agent j
    ∙ agent_of-enrol d.server id j agent client found

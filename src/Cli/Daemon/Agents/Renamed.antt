-- ===== src/Cli/Daemon/Agents/Renamed.antt =====
-- packages/ac2-cli/src/daemon/run.ts: a client that registers a second agent.
use ac.Common.{
  ℕ, ◌≡◌, ◌≢◌, refl, ◌∙◌, String, Option, none, some, ◌==◌, false, nat_eq, string_eq, lookup,
  insert, remove, lookup-insert, lookup-remove, Option-cases, inl, inr, arith,
}
use text.Mathlib.TextEquality.{eq_iff}
use ac.Cli.Control.Server.{ServerClient}
use ac.Cli.Daemon.{
  Daemon, refused, agent_taken, agent_hello, register_agent, held_by_other, socket_closes,
  client_closed, announce,
}
use ac.Cli.Daemon.Agents.{agent_at, agent_clients-register, agent_at-register}

-- A client that may have the agent gets it.
pub hello-register :
    (d : Daemon) (id : ℕ) (agent : String) (host : Option String)
    → agent ≢ ""
    → held_by_other (lookup agent d.agent_clients) id ≡ false
    → (agent_hello d id agent host).0 ≡ register_agent d id agent host
unfolding agent_hello
hello-register d id agent host named free = ground (arith, eq_iff agent "", named)

-- The close of a client's socket takes away the agent that the client registered last.
pub closes-agent_clients :
    (d : Daemon) (id : ℕ) (agent : String)
    → agent_at d id ≡ some agent
    → agent ≢ ""
    → (socket_closes d id).agent_clients ≡ remove agent d.agent_clients
unfolding socket_closes client_closed announce
closes-agent_clients d id agent h named = elim (Option-cases (lookup id d.server.clients)) [
  | inl e ↦ absurd (let k = rw e at h in cc)
  | inr (client, e) ↦
      let own : client.agent ≡ some agent = rw e at h in
      let filled : (agent == "") ≡ false = ground (arith, eq_iff agent "", named) in
      rw (e, socket_closes) (rw (own, client_closed) (rw filled refl))
]

taken-refused :
    (d : Daemon) (id other : ℕ) (agent : String) (host : Option String)
    → agent ≢ ""
    → lookup agent d.agent_clients ≡ some id
    → id ≢ other
    → (agent_hello d other agent host).1 ≡ refused agent_taken
unfolding agent_hello
taken-refused d id other agent host named held apart =
    rw held (ground (arith, eq_iff agent "", named, apart))

-- A client that registers an agent and then a second one leaves the first behind: after its socket
-- has closed, no other client can register the first agent.
pub renamed_agent-stuck :
    (d : Daemon) (id other : ℕ) (client : ServerClient) (a b : String) (host : Option String)
    → lookup id d.server.clients ≡ some client
    → a ≢ ""
    → b ≢ ""
    → a ≢ b
    → id ≢ other
    → held_by_other (lookup a d.agent_clients) id ≡ false
    → held_by_other (lookup b d.agent_clients) id ≡ false
    → let e = (agent_hello (agent_hello d id a host).0 id b host).0 in
      (agent_hello (socket_closes e id) other a host).1 ≡ refused agent_taken
renamed_agent-stuck d id other client a b host found na nb apart others free_a free_b =
    let first = hello-register d id a host na free_a in
    let e = register_agent d id a host in
    let tables = agent_clients-register d id a host in
    let still : lookup id e.server.clients ≢ none = λ gone.
      let own = agent_at-register d id id a host client found in
      let k = rw gone at own in ground arith in
    elim (Option-cases (lookup id e.server.clients)) [
      | inl gone ↦ absurd (still gone)
      | inr (client', found') ↦
          let may : held_by_other (lookup b e.agent_clients) id ≡ false =
            rw tables (ground (arith, lookup-insert a b id d.agent_clients, eq_iff a b, apart)) in
          let second = hello-register e id b host nb may in
          let f = register_agent e id b host in
          let own : agent_at f id ≡ some b =
            agent_at-register e id id b host client' found' ∙ ground arith in
          let left : lookup a (socket_closes f id).agent_clients ≡ some id =
            rw (closes-agent_clients f id b own nb, agent_clients-register e id b host, tables)
              (ground (
                arith,
                eq_iff a b,
                eq_iff b a,
                eq_iff a a,
                apart,
                lookup-remove b a (insert b id (insert a id d.agent_clients)),
                lookup-insert b a id (insert a id d.agent_clients),
                lookup-insert a a id d.agent_clients,
              )) in
          rw (first, second) (taken-refused (socket_closes f id) id other a host na left others)
    ]

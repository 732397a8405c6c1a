-- ===== src/Cli/Control/Server/Broadcast.antt =====
-- Who receives an event of the control server.
use ac.Common.{
  ℕ, ◌≡◌, refl, String, Option, none, some, List, [], ◌∷◌, Bool, if◌then◌else◌, nat_beq,
  nat_beq_iff, Bool-cases, inl, inr, nat_eq, lookup,
}
use ac.Sdk.Message.{Json}
use ac.Cli.Control.Frames.{event_frame}
use ac.Cli.Control.Server.{
  ControlServer, ServerClient, broadcast, broadcast_to, takes_event, write_frame,
}

-- What an event does to one client.
abbrev pub told : String → Json → (ℕ → Bool) → ℕ → Option ServerClient → Option ServerClient
told event value filter id none = none
told event value filter id (some client) = some (
    if takes_event event filter id client
    then write_frame client (event_frame event value)
    else client)

lookup-broadcast_to :
    (event : String) (value : Json) (filter : ℕ → Bool) (id : ℕ) (m : List (ℕ × ServerClient))
    → lookup id (broadcast_to event value filter m) ≡ told event value filter id (lookup id m)
unfolding lookup broadcast_to
lookup-broadcast_to event value filter id [] = refl
lookup-broadcast_to event value filter id ((j, client) ∷ m) = elim (Bool-cases (nat_beq j id)) [
  | inl e ↦ let same : j ≡ id = (nat_beq_iff j id).0 e in rw (e, same) refl
  | inr e ↦ rw e (lookup-broadcast_to event value filter id m)
]

-- An event reaches the clients that are subscribed to it and pass the filter, once each, and is
-- written to no other; nothing else of a client changes, and no client comes or goes.
pub broadcast_lem :
    (s : ControlServer) (event : String) (value : Json) (filter : ℕ → Bool) (id : ℕ)
    → lookup id (broadcast s event value filter).clients
      ≡ told event value filter id (lookup id s.clients)
unfolding broadcast
broadcast_lem s event value filter id = lookup-broadcast_to event value filter id s.clients

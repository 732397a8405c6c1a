-- ===== src/Cli/Control/Client/Settle.antt =====
-- Every request of the control client is settled once, or waits.
use ac.Common.{
  ℕ, ◌+◌, ◌≡◌, ◌≤◌, ◌<◌, refl, String, some, List, [], ◌∷◌, nat_beq, nat_eq, string_eq, arith,
  lookup, remove, keyed, one_if, keyed-append, keyed-insert, keyed-remove, keyed-lookup,
  keyed-absent, Option-cases, inl, inr, if◌then◌else◌, ltb,
}
use ac.Sdk.Message.{Json}
use ac.Cli.Control.Frames.{property, as_string, as_number}
use ac.Cli.Control.Client.{
  ControlClient, connected_client, request, handle_frame, settle, outcome_of, fail_pending,
  fail_all, on_error, on_close, close, on, off,
}

-- What happens to a client: a call, or a callback of the socket.
pub data ClientEvent : Type 0 where
  requests : String → Json → ClientEvent
  receives : Json → ClientEvent
  breaks : String → ClientEvent
  socket_closes closes : ClientEvent
  listens unlistens : String → ℕ → ClientEvent

unfoldable pub client_step : ControlClient → ClientEvent → ControlClient
client_step c (requests method params) = request c method params
client_step c (receives frame) = handle_frame c frame
client_step c (breaks reason) = on_error c reason
client_step c socket_closes = on_close c
client_step c closes = close c
client_step c (listens event handler) = on c event handler
client_step c (unlistens event handler) = off c event handler

unfoldable pub client_run : ControlClient → List ClientEvent → ControlClient
unfolding client_step
client_run c [] = c
client_run c (e ∷ es) = client_run (client_step c e) es

-- Each id that was given out, from 1, is settled or waits, once; no other id is known.
abbrev pub given : ℕ → ℕ → ℕ
given next id = if nat_beq id 0 then 0 else if ltb id next then 1 else 0

abbrev Settles : ControlClient → Type 0
Settles c =
    (0 < c.next_id) × ((id : ℕ) → keyed id c.settled + keyed id c.pending ≡ given c.next_id id)

keyed-fail_all :
    (id : ℕ) (m : List (ℕ × Unit {0})) (reason : String) → keyed id (fail_all m reason) ≡ keyed id m
unfolding keyed
keyed-fail_all id [] reason = refl
keyed-fail_all id ((q, u) ∷ m) reason = omega (arith, keyed-fail_all id m reason)

-- A key is taken out once.
keyed-take :
    (p q : ℕ) (m : List (ℕ × Unit {0})) (u : Unit {0})
    → lookup q m ≡ some u
    → keyed q m ≤ 1
    → keyed p (remove q m) + one_if (nat_beq q p) ≡ keyed p m
keyed-take p q m u found once = ground (arith, keyed-remove p q m, keyed-lookup q m u found)

request-Settles :
    (c : ControlClient) (method : String) (params : Json)
    → Settles c
    → Settles (request c method params)
unfolding request keyed
request-Settles c method params (pos, h) =
    let absent = keyed-absent c.next_id c.pending (ground (arith, h c.next_id)) in
    (ground arith, λ p. ground (arith, h p, keyed-insert p c.next_id tt c.pending absent))

settle-Settles :
    (c : ControlClient) (id : ℕ) (frame : Json) → Settles c → Settles (settle c id frame)
unfolding settle keyed
settle-Settles c id frame (pos, h) = elim (Option-cases (lookup id c.pending)) [
  | inl e ↦ rw (e, settle) (pos, h)
  | inr (u, e) ↦
      rw (e, settle)
        (
          pos,
          λ p. ground (
            arith,
            h p,
            h id,
            keyed-append p c.settled ((id, outcome_of frame) ∷ []),
            keyed-take p id c.pending u,
          ),
        )
]

handle_frame-Settles :
    (c : ControlClient) (frame : Json) → Settles c → Settles (handle_frame c frame)
unfolding handle_frame
handle_frame-Settles c frame h = elim (Option-cases (as_string (property "event" frame))) [
  | inr (event, e) ↦ rw (e, handle_frame) h
  | inl e ↦ elim (Option-cases (as_number (property "id" frame))) [
    | inl f ↦ rw (e, f, handle_frame) h
    | inr (id, f) ↦ rw (e, f, handle_frame) (settle-Settles c id frame h)
  ]
]

fail_pending-Settles :
    (c : ControlClient) (reason : String) → Settles c → Settles (fail_pending c reason)
unfolding fail_pending keyed
fail_pending-Settles c reason (pos, h) = (
  pos,
  λ p. ground (
    arith,
    h p,
    keyed-append p c.settled (fail_all c.pending reason),
    keyed-fail_all p c.pending reason,
  ),
)

client_step-Settles : (c : ControlClient) (e : ClientEvent) → Settles c → Settles (client_step c e)
unfolding client_step on_error on_close close on off
client_step-Settles c (requests method params) h = request-Settles c method params h
client_step-Settles c (receives frame) h = handle_frame-Settles c frame h
client_step-Settles c (breaks reason) h = fail_pending-Settles c reason h
client_step-Settles c socket_closes h = fail_pending-Settles c "control socket closed" h
client_step-Settles c closes h = h
client_step-Settles c (listens event handler) h = h
client_step-Settles c (unlistens event handler) h = elim (Option-cases (lookup event c.listeners)) [
  | inl e ↦ rw (e, off) h
  | inr (handlers, e) ↦ rw (e, off) h
]

client_run-Settles :
    (c : ControlClient) (es : List ClientEvent) → Settles c → Settles (client_run c es)
unfolding client_run
client_run-Settles c [] h = h
client_run-Settles c (e ∷ es) h =
    client_run-Settles (client_step c e) es (client_step-Settles c e h)

connected-Settles : Settles connected_client
unfolding keyed
connected-Settles = (omega arith, λ id. ground arith)

-- Whatever happens to a control client, each request that was sent is settled exactly once or still
-- waits, and no other id is ever settled; and the close of the socket settles exactly once
-- every request that was sent.
pub requests_settled :
    (es : List ClientEvent) (id : ℕ)
    → let c = client_run connected_client es in
      (keyed id c.settled + keyed id c.pending ≡ given c.next_id id)
      × (keyed id (on_close c).settled ≡ given c.next_id id)
      × ((on_close c).pending ≡ [])
unfolding on_close fail_pending keyed
requests_settled es id =
    let c = client_run connected_client es in
    let (pos, h) = client_run-Settles connected_client es connected-Settles in
    let (_, k) = fail_pending-Settles c "control socket closed" (pos, h) in
    (h id, ground (arith, k id), refl)

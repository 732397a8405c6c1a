-- ===== src/Cli/Control/Hub/Bounded.antt =====
-- packages/ac2-cli/src/control/agent.ts: how much the hub keeps.
use ac.Common.{
  ℕ, ◌≤◌, String, Option, List, [], ◌∷◌, ◌==◌, length, string_eq, lookup, insert, lookup-insert,
  lookup-remove, Bool-cases, Option-cases, inl, inr, arith,
}
use ac.Sdk.Message.{Json}
use ac.Cli.Control.Client.{handlers_of}
use ac.Cli.Control.Hub.{
  Hub, new_hub, push_bounded, dispatch, dispatch_to, replay, add_handler, on, off,
}
use ac.Cli.Control.Hub.Replay.{buffered, push_bounded-length}

-- What happens to a hub: an event comes, or a listener comes or goes.
pub data HubEvent : Type 0 where
  dispatches : String → Option Json → HubEvent
  listens leaves : String → ℕ → HubEvent

unfoldable pub hub_step : Hub → HubEvent → Hub
unfolding dispatch on off
hub_step h (dispatches event value) = dispatch h event value
hub_step h (listens event handler) = on h event handler
hub_step h (leaves event handler) = off h event handler

unfoldable pub hub_run : Hub → List HubEvent → Hub
unfolding hub_step
hub_run h [] = h
hub_run h (e ∷ es) = hub_run (hub_step h e) es

-- No buffer holds more than fifty events.
abbrev IsBounded : Hub → Type 0
IsBounded h = (other : String) → length (buffered h other) ≤ 50

dispatch_to-IsBounded :
    (h : Hub) (event : String) (value : Option Json) (set : List ℕ)
    → IsBounded h
    → IsBounded (dispatch_to h event value set)
unfolding dispatch_to
dispatch_to-IsBounded h event value [] k other =
    let next = push_bounded (buffered h event) value in
    let found = lookup-insert event other next h.buffers in
    elim (Bool-cases (event == other)) [
      | inl e ↦ rw (found, e) (push_bounded-length (buffered h event) value (k event))
      | inr e ↦ rw (found, e) (k other)
    ]
dispatch_to-IsBounded h event value (handler ∷ set) k other = k other

replay-IsBounded :
    (h : Hub) (event : String) (handler : ℕ) (b : List (Option Json))
    → IsBounded h
    → IsBounded (replay h event handler b)
unfolding replay
replay-IsBounded h event handler [] k other = k other
replay-IsBounded h event handler (value ∷ b) k other =
    let found = lookup-remove event other h.buffers in
    elim (Bool-cases (event == other)) [
      | inl e ↦ rw (found, e) (omega arith)
      | inr e ↦ rw (found, e) (k other)
    ]

hub_step-IsBounded : (h : Hub) (e : HubEvent) → IsBounded h → IsBounded (hub_step h e)
unfolding hub_step dispatch on off
hub_step-IsBounded h (dispatches event value) k other =
    dispatch_to-IsBounded h event value (handlers_of (lookup event h.handlers)) k other
hub_step-IsBounded h (listens event handler) k other =
    replay-IsBounded
      (record h {
        handlers =
            insert event (add_handler (handlers_of (lookup event h.handlers)) handler) h.handlers;
      })
      event handler (buffered h event) k other
hub_step-IsBounded h (leaves event handler) k other =
    elim (Option-cases (lookup event h.handlers)) [
      | inl e ↦ rw (e, off) (k other)
      | inr (set, e) ↦ rw (e, off) (k other)
    ]

hub_run-IsBounded : (h : Hub) (es : List HubEvent) → IsBounded h → IsBounded (hub_run h es)
unfolding hub_run
hub_run-IsBounded h [] k = k
hub_run-IsBounded h (e ∷ es) k = hub_run-IsBounded (hub_step h e) es (hub_step-IsBounded h e k)

-- Whatever events come and whichever listeners come and go, the hub buffers no more than fifty events
-- of a type.
pub hub_bounded :
    (es : List HubEvent) (event : String) → length (buffered (hub_run new_hub es) event) ≤ 50
unfolding lookup
hub_bounded es event = hub_run-IsBounded new_hub es (λ other. omega arith) event

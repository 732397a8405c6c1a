-- ===== src/Cli/Control/Hub.antt =====
-- packages/ac2-cli/src/control/agent.ts: `createEventHub`. A handler is a number, and `called` records
-- each call of a handler and what it got.
pub mod Replay
pub mod Bounded
use ac.Common.{
  ℕ, String, Option, none, some, List, [], ◌∷◌, ◌++◌, if◌then◌else◌, Bool, true, false, leb, length,
  drop, string_eq, nat_eq, contains, lookup, insert, remove, filter_out,
}
use ac.Sdk.Message.{Json}
use ac.Cli.Control.Client.{call_all, handlers_of}

abbrev pub max_buffered_events_per_type : ℕ
max_buffered_events_per_type = 50

pub record Hub : Type 0 where
  pub buffers : List (String × List (Option Json))
  pub handlers : List (String × List ℕ)
  pub called : List (ℕ × Option Json)

abbrev pub new_hub : Hub
new_hub = record { buffers = []; handlers = []; called = [] }

abbrev pub buffer_of : Option (List (Option Json)) → List (Option Json)
buffer_of none = []
buffer_of (some buffered) = buffered

-- `push`, and `shift` when there are too many.
unfoldable pub push_bounded : List (Option Json) → Option Json → List (Option Json)
push_bounded buffered value =
    let all = buffered ++ value ∷ [] in
    if leb (length all) max_buffered_events_per_type then all else drop 1 all

unfoldable pub dispatch_to : Hub → String → Option Json → List ℕ → Hub
unfolding push_bounded
dispatch_to h event value [] = record h {
  buffers = insert event (push_bounded (buffer_of (lookup event h.buffers)) value) h.buffers;
}
dispatch_to h event value (handler ∷ set) = record h {
  called = h.called ++ call_all (handler ∷ set) value;
}

unfoldable pub dispatch : Hub → String → Option Json → Hub
unfolding dispatch_to
dispatch h event value = dispatch_to h event value (handlers_of (lookup event h.handlers))

-- One handler on each of the buffered events.
abbrev pub each : ℕ → List (Option Json) → List (ℕ × Option Json)
each handler [] = []
each handler (value ∷ values) = (handler, value) ∷ each handler values

unfoldable pub replay : Hub → String → ℕ → List (Option Json) → Hub
replay h event handler [] = h
replay h event handler (value ∷ values) = record h {
  buffers = remove event h.buffers;
  called = h.called ++ each handler (value ∷ values);
}

abbrev pub add_handler : List ℕ → ℕ → List ℕ
add_handler set handler = if contains set handler then set else set ++ handler ∷ []

unfoldable pub on : Hub → String → ℕ → Hub
unfolding replay contains
on h event handler =
    replay
      (record h {
        handlers =
            insert event (add_handler (handlers_of (lookup event h.handlers)) handler) h.handlers;
      })
      event handler (buffer_of (lookup event h.buffers))

unfoldable pub off : Hub → String → ℕ → Hub
unfolding filter_out
off h event handler = elim (lookup event h.handlers) [
  | none ↦ h
  | some set ↦ record h { handlers = insert event (filter_out handler set) h.handlers }
]

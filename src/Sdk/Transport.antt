-- ===== src/Sdk/Transport.antt =====
-- packages/ac2-sdk/src/transport/index.ts: what a transport does with a payload, and the two connected
-- transports of `createInMemoryTransportPair`; isAc2Message is of schema/decoder.ts. `JSON.parse` is a
-- parameter, `none` where it throws. A payload is a list of code units. `accepted`, `received` and
-- `close_calls` record what an end does, with all its handlers set.
pub mod Order
mod Tests
use ac.Common.{
  ℕ, suc, String, Option, none, some, List, [], ◌∷◌, ◌++◌, if◌then◌else◌, Bool, true, false, not,
  ◌&&◌, ◌||◌, ◌==◌, string_eq, nat_beq, nat_eq, leb, Text, contains, all,
}
use ac.Sdk.Message.{Json, Items, Fields, null, bool, num, str, arr, obj, nil, cons}
use ac.Sdk.Message.Reads.{property, as_string}

-- A text that is there and is not empty.
abbrev pub is_named : Option String → Bool
is_named none = false
is_named (some s) = not (s == "")

abbrev pub all_strings : Items → Bool
all_strings nil = true
all_strings (cons (str s) rest) = all_strings rest
all_strings (cons null rest) = false
all_strings (cons (bool b) rest) = false
all_strings (cons (num n) rest) = false
all_strings (cons (arr items) rest) = false
all_strings (cons (obj fields) rest) = false

-- `Array.isArray(m.to)`, with strings only.
abbrev pub is_address_list : Option Json → Bool
is_address_list (some (arr items)) = all_strings items
is_address_list (some null) = false
is_address_list (some (bool b)) = false
is_address_list (some (num n)) = false
is_address_list (some (str s)) = false
is_address_list (some (obj fields)) = false
is_address_list none = false

-- `typeof m.body === 'object'` and not null; an array is an object.
abbrev pub is_object : Option Json → Bool
is_object (some (obj fields)) = true
is_object (some (arr items)) = true
is_object (some null) = false
is_object (some (bool b)) = false
is_object (some (num n)) = false
is_object (some (str s)) = false
is_object none = false

unfoldable pub is_ac2_message : Json → Bool
is_ac2_message x =
    is_named (as_string (property "id" x))
    && is_named (as_string (property "type" x))
    && is_named (as_string (property "from" x))
    && is_address_list (property "to" x)
    && is_object (property "body" x)

-- The white space that `trim` takes off, below code unit 256.
abbrev pub is_blank : ℕ → Bool
is_blank c = (leb 9 c && leb c 13) || nat_beq c 32 || nat_beq c 160

-- What a handler gets: a message, or the payload as it is.
pub data Routed : Type 0 where
  message : Json → Routed
  raw : Text → Routed

abbrev pub route_parsed : Text → Option Json → Routed
route_parsed payload none = raw payload
route_parsed payload (some value) = if is_ac2_message value then message value else raw payload

pub record End : Type 0 where
  pub is_open : Bool
  pub closed : Bool
  pub peer : Bool
  pub close_calls : ℕ
  pub accepted : List Text
  pub received : List Routed

-- `queue` holds the microtasks, `true` for one that delivers to the second end.
pub record TransportPair : Type 0 where
  pub first : End
  pub second : End
  pub queue : List (Bool × Text)

abbrev pub open_end : End
open_end = record {
  is_open = true;
  closed = false;
  peer = true;
  close_calls = 0;
  accepted = [];
  received = [];
}

abbrev pub create_in_memory_transport_pair : TransportPair
create_in_memory_transport_pair = record { first = open_end; second = open_end; queue = [] }

-- `send` throws if this end is closed, not open or has no peer.
abbrev pub may_send : End → Bool
may_send e = not e.closed && e.is_open && e.peer

abbrev pub accept : End → Text → End
accept e payload = record e { accepted = e.accepted ++ payload ∷ [] }

abbrev pub send_if : Bool → Bool → TransportPair → Text → TransportPair
send_if false to_second p payload = p
send_if true true p payload = record p {
  first = accept p.first payload;
  queue = p.queue ++ (true, payload) ∷ [];
}
send_if true false p payload = record p {
  second = accept p.second payload;
  queue = p.queue ++ (false, payload) ∷ [];
}

unfoldable pub send : TransportPair → Bool → Text → TransportPair
send p true payload = send_if (may_send p.first) true p payload
send p false payload = send_if (may_send p.second) false p payload

abbrev pub close_end : End → End
close_end e = record e {
  closed = true;
  is_open = false;
  peer = false;
  close_calls = suc e.close_calls;
}

abbrev pub close_unless : Bool → End → End
close_unless true e = e
close_unless false e = close_end e

-- `close` of one end; it closes its peer, whose own `close` finds this end closed already.
abbrev pub close_both : Bool → Bool → End → End → End × End
close_both true peer e other = (e, other)
close_both false true e other = (close_end e, close_unless other.closed other)
close_both false false e other = (close_end e, other)

unfoldable pub close : TransportPair → Bool → TransportPair
close p true =
    let (e, other) = close_both p.first.closed p.first.peer p.first p.second in
    record p { first = e; second = other }
close p false =
    let (e, other) = close_both p.second.closed p.second.peer p.second p.first in
    record p { first = other; second = e }

module _ (parse : Text → Option Json) where
  -- `_deliver`: a blank payload is a heartbeat and is dropped.
  unfoldable pub deliver : Text → List Routed → List Routed
  unfolding is_ac2_message
  deliver payload received =
      if all is_blank payload
      then received
      else received ++ route_parsed payload (parse payload) ∷ []

  abbrev pub run_task : List (Bool × Text) → TransportPair → TransportPair
  run_task [] p = p
  run_task ((true, payload) ∷ rest) p = record p {
    queue = rest;
    second = record p.second { received = deliver payload p.second.received };
  }
  run_task ((false, payload) ∷ rest) p = record p {
    queue = rest;
    first = record p.first { received = deliver payload p.first.received };
  }

  -- The next microtask runs.
  unfoldable pub next_task : TransportPair → TransportPair
  unfolding deliver
  next_task p = run_task p.queue p

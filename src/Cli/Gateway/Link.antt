-- ===== src/Cli/Gateway/Link.antt =====
-- packages/ac2-cli/src/runtime/gateway/adapter.ts: the connection to the gateway. A connection is a
-- number, `open` are those whose close was not heard yet, and `closed` those that were asked to close:
-- a WebSocket says that it is closed later. `delays` records the timers that were set.
pub mod Alive
pub mod Done
pub mod Late
use ac.Common.{
  ℕ, suc, ◌+◌, Option, none, some, List, [], ◌∷◌, ◌++◌, if◌then◌else◌, Bool, true, false, nat_eq,
  nat_beq, leb, Text, text_eq, contains, filter_out, get_or, min, length,
}

abbrev pub reconnect_delays_ms : List ℕ
reconnect_delays_ms = 1000 ∷ 2000 ∷ 5000 ∷ 10000 ∷ 30000 ∷ []

pub record Link : Type 0 where
  pub client : Option ℕ
  pub next_connection : ℕ
  pub open_connections : List ℕ
  pub closed : List ℕ
  pub stopped : Bool
  pub reconnect_attempt : ℕ
  pub reconnect_timer : Option ℕ
  pub delays : List ℕ
  pub session_events_subscribed : Bool
  pub subscribed_session_keys : List Text
  pub has_run : Bool

abbrev pub new_link : Link
new_link = record {
  client = none;
  next_connection = 0;
  open_connections = [];
  closed = [];
  stopped = false;
  reconnect_attempt = 0;
  reconnect_timer = none;
  delays = [];
  session_events_subscribed = false;
  subscribed_session_keys = [];
  has_run = false;
}

abbrev pub open_next : Link → Link
open_next l = record l {
  client = some l.next_connection;
  open_connections = l.next_connection ∷ l.open_connections;
  next_connection = suc l.next_connection;
}

abbrev pub connect_unless : Bool → Link → Link
connect_unless true l = l
connect_unless false l = open_next l

unfoldable pub connect : Link → Link
connect l = connect_unless l.stopped l

-- `RECONNECT_DELAYS_MS[min(attempt, length - 1)]`.
unfoldable pub delay_of : ℕ → ℕ
unfolding get_or
delay_of attempt = get_or reconnect_delays_ms (min attempt 4) 0

abbrev pub arm_timer : Link → Link
arm_timer l = record l {
  reconnect_attempt = suc l.reconnect_attempt;
  reconnect_timer = some (delay_of l.reconnect_attempt);
  delays = l.delays ++ delay_of l.reconnect_attempt ∷ [];
}

abbrev pub schedule_unless : Bool → Option ℕ → Link → Link
schedule_unless true timer l = l
schedule_unless false (some delay) l = l
schedule_unless false none l = arm_timer l

unfoldable pub schedule_reconnect : Link → Link
unfolding delay_of
schedule_reconnect l = schedule_unless l.stopped l.reconnect_timer l

abbrev pub timer_runs : Option ℕ → Link → Link
timer_runs none l = l
timer_runs (some delay) l = connect (record l { reconnect_timer = none })

-- The timer's callback, if one is set.
unfoldable pub fire_timer : Link → Link
unfolding connect
fire_timer l = timer_runs l.reconnect_timer l

-- The handshake succeeds.
unfoldable pub handshake : Link → Link
handshake l = record l { reconnect_attempt = 0 }

abbrev pub is_client : Option ℕ → ℕ → Bool
is_client none id = false
is_client (some own) id = nat_beq own id

abbrev pub drop_client : Bool → ℕ → Link → Link
drop_client false id l = l
drop_client true id l = schedule_reconnect (record l { client = none; closed = id ∷ l.closed })

-- The handshake fails.
unfoldable pub handshake_fails : Link → ℕ → Link
unfolding schedule_reconnect
handshake_fails l id = drop_client (is_client l.client id) id l

abbrev pub without_client : Bool → Option ℕ → Option ℕ
without_client true client = none
without_client false client = client

-- The close of a connection is heard once.
unfoldable pub connection_closes : Link → ℕ → Link
unfolding schedule_reconnect filter_out
connection_closes l id = schedule_reconnect (record l {
  client = without_client (is_client l.client id) l.client;
  open_connections = filter_out id l.open_connections;
  subscribed_session_keys = [];
  session_events_subscribed = false;
  has_run = false;
})

abbrev pub close_client : Option ℕ → List ℕ → List ℕ
close_client none closed = closed
close_client (some id) closed = id ∷ closed

unfoldable pub stop : Link → Link
stop l = record l {
  stopped = true;
  reconnect_timer = none;
  closed = close_client l.client l.closed;
  client = none;
}

abbrev pub subscribes_if : Bool → Option ℕ → Bool → Link → Text → Link
subscribes_if true client answered l session_key = l
subscribes_if false none answered l session_key = l
subscribes_if false (some id) false l session_key = l
subscribes_if false (some id) true l session_key = record l {
  subscribed_session_keys = l.subscribed_session_keys ++ session_key ∷ [];
}

-- `answered`: the gateway grants the subscription.
unfoldable pub ensure_subscribed : Link → Text → Bool → Link
unfolding contains
ensure_subscribed l session_key answered =
    subscribes_if (contains l.subscribed_session_keys session_key) l.client answered l session_key

abbrev pub session_events_if : Bool → Option ℕ → Bool → Link → Link
session_events_if true client answered l = l
session_events_if false none answered l = l
session_events_if false (some id) false l = l
session_events_if false (some id) true l = record l { session_events_subscribed = true }

unfoldable pub ensure_session_events_subscribed : Link → Bool → Link
ensure_session_events_subscribed l answered =
    session_events_if l.session_events_subscribed l.client answered l

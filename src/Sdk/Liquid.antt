-- ===== src/Sdk/Liquid.antt =====
-- packages/ac2-sdk/src/providers/liquid-auth.ts: the link to a wallet, from `startPairing`. A peer with
-- its data channels is a number; `emitted` lists the links whose consumer was told that they closed.
-- Device counts and times in milliseconds are natural numbers.
pub mod Settlement
pub mod Steps
pub mod Phases
pub mod Sound
pub mod Blips
pub mod Waits
pub mod Silence
pub mod Stale
mod Tests
use ac.Common.{
  ℕ, suc, ◌+◌, ◌-◌, ◌*◌, String, Option, none, some, List, [], ◌∷◌, ◌++◌, if◌then◌else◌, Bool, true,
  false, not, ◌&&◌, ◌||◌, ltb, leb, ◌==◌, nat_eq, string_eq, contains,
}

abbrev pub heartbeat_ms : ℕ
heartbeat_ms = 20000

-- 2.5 times the heartbeat.
abbrev pub default_heartbeat_timeout_ms : ℕ
default_heartbeat_timeout_ms = 50000

abbrev pub heartbeat_hard_timeout_factor : ℕ
heartbeat_hard_timeout_factor = 4

abbrev pub wake_jump_threshold_ms : ℕ
wake_jump_threshold_ms = 30000

unfoldable pub sanitize_heartbeat_timeout_ms : ℕ → ℕ
sanitize_heartbeat_timeout_ms value =
    if leb (heartbeat_ms * 2) value then value else default_heartbeat_timeout_ms

-- The arguments are the device count and the state's fields.
unfoldable pub should_teardown_on_presence : ℕ → Bool → Bool → Bool → Bool → Bool → Bool
should_teardown_on_presence device_count peer_linked closed connected signaling_stable negotiating =
    if not peer_linked || closed
    then false
    else if ltb 1 device_count
    then false
    else if negotiating && not connected
    then false
    else if connected && not signaling_stable
    then false
    else true

unfoldable pub should_close_on_heartbeat_timeout : Bool → Bool → Bool → Bool
should_close_on_heartbeat_timeout stale_for_too_long signaling_connected stale_for_far_too_long =
    if stale_for_far_too_long then true else stale_for_too_long && not signaling_connected

unfoldable pub should_teardown_on_remote_offer : Bool → Bool → Bool → Bool
should_teardown_on_remote_offer connected negotiating closed =
    if closed then false else if negotiating then false else connected

-- `armed`: the signal client waits for an answer. `close` is the link that the provider's own `close`
-- belongs to. `listening`: the provider's listeners are on the socket.
pub record Link : Type 0 where
  pub heartbeat_timeout_ms : ℕ
  pub peer_linked : Bool
  pub closed : Bool
  pub connected : Bool
  pub negotiating : Bool
  pub signaling_connected : Bool
  pub signaling_stable : Bool
  pub signaling_grace_timer : Bool
  pub listening : Bool
  pub wake_timer : Bool
  pub reconnects : ℕ
  pub armed : Bool
  pub peer : Option ℕ
  pub next_peer : ℕ
  pub heartbeat : Bool
  pub now : ℕ
  pub last_inbound_at : ℕ
  pub pings : ℕ
  pub close : Option ℕ
  pub emitted : List ℕ
  pub linked_wallet : Option String

-- `startPairing`, on a socket that is not connected yet.
abbrev pub start_pairing : ℕ → Link
start_pairing timeout_ms = record {
  heartbeat_timeout_ms = sanitize_heartbeat_timeout_ms timeout_ms;
  peer_linked = false;
  closed = false;
  connected = false;
  negotiating = false;
  signaling_connected = false;
  signaling_stable = false;
  signaling_grace_timer = false;
  listening = true;
  wake_timer = true;
  reconnects = 0;
  armed = false;
  peer = none;
  next_peer = 0;
  heartbeat = false;
  now = 0;
  last_inbound_at = 0;
  pings = 0;
  close = none;
  emitted = [];
  linked_wallet = none;
}

-- The channels are closed, and the signal client forgets its peer.
abbrev pub teardown_peer : Link → Link
teardown_peer l = record l { heartbeat = false; peer = none; armed = false }

-- The socket is closed too.
abbrev pub full_teardown : Link → Link
full_teardown l = record l {
  heartbeat = false;
  peer = none;
  armed = false;
  wake_timer = false;
  signaling_grace_timer = false;
  signaling_stable = false;
  listening = false;
  signaling_connected = false;
}

abbrev pub emit_unless : Bool → ℕ → List ℕ → List ℕ
emit_unless true id emitted = emitted
emit_unless false id emitted = emitted ++ id ∷ []

-- `emitClose` of a link.
unfoldable pub emit_close : ℕ → List ℕ → List ℕ
unfolding contains
emit_close id emitted = emit_unless (contains emitted id) id emitted

abbrev pub close_unless : Bool → ℕ → Link → Link
close_unless true id l = l
close_unless false id l = record (teardown_peer l) {
  closed = true;
  connected = false;
  emitted = emit_close id l.emitted;
}

-- `close` of the channel that `connect` returned for a link.
unfoldable pub close_channel : Link → ℕ → Link
unfolding emit_close
close_channel l id = close_unless l.closed id l

abbrev pub close_of : Option ℕ → Link → Link
close_of none l = l
close_of (some id) l = close_channel l id

-- The provider calls its own `close`.
unfoldable pub close_if : Bool → Link → Link
unfolding close_channel
close_if false l = l
close_if true l = close_of l.close l

unfoldable pub dispose : Link → Link
dispose l = record (full_teardown l) { closed = true; connected = false }

abbrev pub connect_unless : Bool → Link → Option Link
connect_unless true l = none
connect_unless false l = some (record (teardown_peer l) {
  closed = false;
  connected = false;
  negotiating = true;
  armed = true;
})

-- `connect` up to the wait for the wallet; `none` where it throws.
unfoldable pub connect : Link → Option Link
connect l = connect_unless l.negotiating l

abbrev pub negotiated_if : Bool → Link → Link
negotiated_if false l = l
negotiated_if true l = record l {
  armed = false;
  peer = some l.next_peer;
  next_peer = suc l.next_peer;
}

-- The channels of a new peer are there, if the signal client still waits for it.
unfoldable pub negotiated : Link → Link
negotiated l = negotiated_if l.armed l

abbrev pub rearm_if : Bool → Link → Link
rearm_if false l = l
rearm_if true l = record (teardown_peer l) { armed = true }

-- The signaling dropped during the handshake: `connect` waits until it is back, and tries again.
unfoldable pub rearm : Link → Link
rearm l = rearm_if (l.negotiating && l.listening) l

abbrev pub established_with : Option ℕ → Bool → Link → Link
established_with none negotiating l = l
established_with (some id) false l = l
established_with (some id) true l = record l {
  connected = true;
  last_inbound_at = l.now;
  heartbeat = true;
  close = some id;
  negotiating = false;
}

-- The control channel is open: the end of `connect`.
unfoldable pub established : Link → Link
established l = established_with l.peer l.negotiating l

-- `connect` throws, for a reason after which the socket stays.
unfoldable pub connect_fails : Link → Link
connect_fails l = record l { negotiating = false }

abbrev pub give_up_if : Bool → Link → Link
give_up_if false l = l
give_up_if true l = record (full_teardown l) { negotiating = false }

-- `connect` throws and its health guard tears all down.
unfoldable pub connect_fails_for_good : Link → Link
connect_fails_for_good l = give_up_if l.negotiating l

abbrev pub wallet_of : Option String → Option String → Option String
wallet_of none known = known
wallet_of (some wallet) known = if wallet == "" then known else some wallet

unfoldable pub link_message : Link → Option String → Link
link_message l wallet = record l {
  peer_linked = true;
  linked_wallet = wallet_of wallet l.linked_wallet;
}

unfoldable pub on_presence : Link → ℕ → Link
unfolding close_if should_teardown_on_presence
on_presence l device_count =
    close_if
      (should_teardown_on_presence device_count l.peer_linked l.closed l.connected
        l.signaling_stable l.negotiating)
      l

abbrev pub offer_if : Bool → Link → Link
offer_if false l = l
offer_if true l = close_if (should_teardown_on_remote_offer l.connected l.negotiating l.closed) l

unfoldable pub on_remote_offer : Link → Link
unfolding close_if should_teardown_on_remote_offer
on_remote_offer l = offer_if l.listening l

abbrev pub unstable_if : Bool → Link → Link
unstable_if false l = l
unstable_if true l = record l { signaling_stable = false; signaling_grace_timer = false }

unfoldable pub signaling_drops : Link → Link
signaling_drops l = unstable_if l.listening (record l { signaling_connected = false })

abbrev pub returns_if : Bool → Link → Link
returns_if false l = l
returns_if true l = record l { signaling_connected = true; signaling_grace_timer = true }

-- A socket that was closed does not come back.
unfoldable pub signaling_returns : Link → Link
signaling_returns l = returns_if l.listening l

abbrev pub stable_if : Bool → Link → Link
stable_if false l = l
stable_if true l = record l { signaling_stable = true; signaling_grace_timer = false }

unfoldable pub grace_ends : Link → Link
grace_ends l = stable_if l.signaling_grace_timer l

-- A message on the heartbeat channel of the current peer.
unfoldable pub hears : Link → Link
hears l = record l { last_inbound_at = l.now }

abbrev pub ping_if : Bool → Link → Link
ping_if false l = l
ping_if true l = record l { pings = suc l.pings }

abbrev pub silence_step : Bool → Link → Link
silence_step true l = close_if true l
silence_step false l = ping_if true l

abbrev pub beat_if : Bool → Bool → Link → Link
beat_if false channel_open l = l
beat_if true false l = l
beat_if true true l =
    silence_step
      (should_close_on_heartbeat_timeout (ltb l.heartbeat_timeout_ms (l.now - l.last_inbound_at))
        l.signaling_connected
        (ltb (l.heartbeat_timeout_ms * heartbeat_hard_timeout_factor) (l.now - l.last_inbound_at)))
      l

-- The heartbeat's interval, if it is set; `channel_open`: the heartbeat channel is there and open.
unfoldable pub beat : Link → Bool → Link
unfolding close_if should_close_on_heartbeat_timeout
beat l channel_open = beat_if l.heartbeat channel_open l

abbrev pub reconnect_if : Bool → Link → Link
reconnect_if false l = l
reconnect_if true l = record l { reconnects = suc l.reconnects }

unfoldable pub wake_check : Link → ℕ → Link
wake_check l elapsed =
    reconnect_if (l.wake_timer && leb wake_jump_threshold_ms elapsed && not l.signaling_connected) l

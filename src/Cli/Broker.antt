-- ===== src/Cli/Broker.antt =====
-- packages/ac2-cli/src/daemon/broker.ts and identity/binding.ts: the daemon's wallet connection as a
-- state with one function for each step between two `await`s. What a step awaits is its
-- argument, and what it emits goes to `events`. The DIDs that come in are normalized.
pub mod Backoff
pub mod Locked
mod Tests
use ac.Common.{
  ℕ, suc, ◌*◌, String, Option, none, some, List, [], ◌∷◌, ◌++◌, if◌then◌else◌, Bool, true, false,
  not, ◌&&◌, ◌||◌, ltb, leb, nat_beq, ◌==◌, string_eq, min, is_some,
}

pub data ConnectionState : Type 0 where
  idle pairing connected reconnecting : ConnectionState

pub data Decision : Type 0 where
  register reuse lock_out : Decision

-- `decideControllerBinding`: the bound controller, the connected account, and whether an identity is
-- stored.
unfoldable pub decide_controller_binding : Option String → Option String → Bool → Decision
decide_controller_binding (some bound) (some account) stored =
    if account == bound then (if stored then reuse else register) else lock_out
decide_controller_binding none account stored = if stored then reuse else register
decide_controller_binding (some bound) none stored = if stored then reuse else register

pub data Channel : Type 0 where
  control stream : Channel

pub record Pairing : Type 0 where
  pub request_id : String
  pub qr_payload : String

pub data Emitted : Type 0 where
  pairing_began : Pairing → Emitted
  session_connected : Option String → Bool → Bool → Option String → Emitted
  inbound : Channel → String → Option String → Emitted
  disconnected : Option String → String → Emitted

pub record Broker : Type 0 where
  pub state : ConnectionState
  pub request_id : Option String
  pub controller_did : Option String
  pub wallet_address : Option String
  pub stopped : Bool
  pub cycle_token : ℕ
  pub cycle_active : Bool
  pub active_pairing : Option Pairing
  pub has_handle : Bool
  pub has_channel : Bool
  pub has_client : Bool
  pub locked : Bool
  pub identity_granted : Bool
  pub agent_did : Option String
  pub reached_connected : Bool
  pub events : List Emitted

abbrev pub init : Broker
init = record {
  state = idle;
  request_id = none;
  controller_did = none;
  wallet_address = none;
  stopped = false;
  cycle_token = 0;
  cycle_active = false;
  active_pairing = none;
  has_handle = false;
  has_channel = false;
  has_client = false;
  locked = false;
  identity_granted = false;
  agent_did = none;
  reached_connected = false;
  events = [];
}

abbrev pub is_connected : ConnectionState → Bool
is_connected connected = true
is_connected idle = false
is_connected pairing = false
is_connected reconnecting = false

unfoldable pub set_state : Broker → ConnectionState → Broker
set_state b next = record b {
  state = next;
  reached_connected = is_connected next || b.reached_connected;
}

abbrev pub emit : Broker → Emitted → Broker
emit b e = record b { events = b.events ++ e ∷ [] }

-- `usedRequestId || null`.
abbrev pub nonblank : String → Option String
nonblank id = if id == "" then none else some id

-- `beginPairing` once the provider has answered.
unfoldable pub begin_pairing : Broker → Pairing → Broker
unfolding set_state
begin_pairing b p =
    emit
      (set_state (record b { request_id = nonblank p.request_id; active_pairing = some p }) pairing)
      (pairing_began p)

-- `runConnectedSession` once the wallet has connected, up to the decision.
unfoldable pub session_opens : Broker → Option String → Option String → Broker
session_opens b account wallet = record b {
  has_channel = true;
  has_client = true;
  locked = false;
  identity_granted = false;
  agent_did = none;
  wallet_address = wallet;
  controller_did = account;
}

-- How the branch of `runConnectedSession` that the decision takes ends.
pub data Bound : Type 0 where
  -- A stored identity: the controller's stable DID and the agent's DID.
  reused : String → String → Bound
  -- A bootstrap that the wallet grants: the controller's and the agent's DID.
  granted : String → String → Bound
  -- A bootstrap that ends in a `BootstrapError`.
  refused : Bound

unfoldable pub bind : Broker → Bound → Broker
bind b (reused controller agent) = record b {
  controller_did = some controller;
  identity_granted = true;
  agent_did = some agent;
}
bind b (granted controller agent) = record b {
  controller_did = some (elim b.controller_did [ none ↦ controller | some account ↦ account ]);
  identity_granted = true;
  agent_did = some agent;
}
bind b refused = record b { identity_granted = false; agent_did = none }

unfoldable pub lock : Broker → Broker
lock b = record b { locked = true; identity_granted = false; agent_did = none }

-- The three branches.
unfoldable pub apply_decision : Broker → Decision → Bound → Broker
unfolding bind lock
apply_decision b lock_out outcome = lock b
apply_decision b reuse outcome = bind b outcome
apply_decision b register outcome = bind b outcome

unfoldable pub session_connects : Broker → Broker
unfolding set_state
session_connects b =
    let c = set_state b connected in
    emit c (session_connected c.controller_did c.locked c.identity_granted c.agent_did)

-- The raw and the stream callbacks: `blank` is whether the payload is blank.
unfoldable pub receive : Broker → Channel → String → Bool → Broker
receive b control payload blank =
    if b.locked then b else emit b (inbound control payload b.controller_did)
receive b stream payload blank =
    if b.locked || blank then b else emit b (inbound stream payload b.controller_did)

-- The `finally` of `runConnectedSession`.
unfoldable pub session_ends : Broker → Broker
session_ends b = record b {
  has_channel = false;
  has_client = false;
  locked = false;
  identity_granted = false;
  agent_did = none;
}

unfoldable pub teardown_cycle : Broker → Broker
unfolding set_state
teardown_cycle b =
    set_state
      (record b {
        cycle_token = suc b.cycle_token;
        cycle_active = false;
        active_pairing = none;
        locked = false;
        identity_granted = false;
        agent_did = none;
        has_channel = false;
        has_handle = false;
      })
      idle

unfoldable pub stop : Broker → Broker
unfolding teardown_cycle
stop b = teardown_cycle (record b { stopped = true })

-- The channel to the wallet at a call of `send`: whether each side is open, and whether it throws.
pub record Link : Type 0 where
  pub transport_open : Bool
  pub stream_open : Bool
  pub throws : Bool

unfoldable pub send : Broker → Channel → Link → Bool
send b control link =
    b.has_channel && (is_connected b.state && (link.transport_open && not link.throws))
send b stream link =
    b.has_channel && (is_connected b.state && (link.stream_open && not link.throws))

pub record RequestParams : Type 0 where
  pub type_name : String
  pub expires_in_seconds : Option ℕ

-- What `request` does: it throws, answers itself, or sends an envelope from and to.
pub data Brokered : Type 0 where
  not_connected : Brokered
  unavailable_locked unavailable_no_identity : Brokered
  forwarded : String → String → String → Brokered

unfoldable pub request_ready : Option String → Option String → Bool → String → Brokered
request_ready (some agent) (some controller) ready type_name =
    if ready then forwarded agent controller type_name else unavailable_no_identity
request_ready none controller ready type_name = unavailable_no_identity
request_ready (some agent) none ready type_name = unavailable_no_identity

unfoldable pub request : Broker → RequestParams → Brokered
unfolding request_ready
request b params =
    if is_connected b.state && b.has_client
    then if b.locked
      then unavailable_locked
      else request_ready b.agent_did b.controller_did b.identity_granted params.type_name
    else not_connected

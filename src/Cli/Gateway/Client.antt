-- ===== src/Cli/Gateway/Client.antt =====
-- packages/ac2-cli/src/runtime/gateway/client.ts: the client of the gateway's RPC protocol. The id of a
-- request is its counter, 1 for `connect`; the random rest of the text is left out. A frame of the
-- gateway is what the client reads of it. `connects` and `settled` record what the client does.
pub mod Connects
pub mod Scopes
mod Tests
use ac.Common.{
  ℕ, suc, String, Option, none, some, List, [], ◌∷◌, ◌++◌, if◌then◌else◌, Bool, true, false, not,
  ◌&&◌, ◌||◌, ◌==◌, nat_beq, nat_eq, string_eq, contains, insert, remove, lookup, is_some,
}

abbrev pub operator_admin_scope : String
operator_admin_scope = "operator.admin"

abbrev pub read_scope : String
read_scope = "operator.read"

abbrev pub write_scope : String
write_scope = "operator.write"

abbrev pub required_operator_scopes : List String
required_operator_scopes = read_scope ∷ write_scope ∷ []

unfoldable pub is_missing : List String → String → Bool
unfolding contains
is_missing granted scope =
    if contains granted scope
    then false
    else not (scope == read_scope && contains granted write_scope)

unfoldable pub keep_missing : List String → List String → List String
unfolding is_missing
keep_missing granted [] = []
keep_missing granted (scope ∷ scopes) =
    let rest = keep_missing granted scopes in
    if is_missing granted scope then scope ∷ rest else rest

unfoldable pub missing_scopes : List String → List String → List String
unfolding keep_missing contains
missing_scopes granted required =
    if contains granted operator_admin_scope then [] else keep_missing granted required

-- The promise `ready`.
pub data Ready : Type 0 where
  waiting ready refused : Ready

pub data RpcOutcome : Type 0 where
  resolved rejected timed_out closed : RpcOutcome

-- `auth` holds the scopes that a `hello-ok` grants, if it reports any; `nonce` is that of a challenge.
pub data GatewayFrame : Type 0 where
  hello_ok : Option (List String) → GatewayFrame
  res : ℕ → Bool → Option (List String) → GatewayFrame
  challenge : Option String → GatewayFrame
  event other unparsable : GatewayFrame

-- `signing` holds the nonce that the keystore signs; `connects` holds for each `connect` request the
-- nonce that its device signature covers.
pub record GatewayClient : Type 0 where
  pub device_identity : Bool
  pub required_scopes : List String
  pub readiness : Ready
  pub connect_timer : Bool
  pub connect_sent : Bool
  pub challenge_timer : Bool
  pub signing : Option String
  pub connects : List (Option String)
  pub granted_scopes : List String
  pub next_id : ℕ
  pub pending : List (ℕ × Unit {0})
  pub settled : List (ℕ × RpcOutcome)

abbrev pub connect_id : ℕ
connect_id = 1

unfoldable pub create_gateway_client : Bool → List String → GatewayClient
create_gateway_client device_identity required_scopes = record {
  device_identity = device_identity;
  required_scopes = required_scopes;
  readiness = waiting;
  connect_timer = true;
  connect_sent = false;
  challenge_timer = false;
  signing = none;
  connects = [];
  granted_scopes = [];
  next_id = suc connect_id;
  pending = [];
  settled = [];
}

abbrev pub settle_ready : Ready → Ready → GatewayClient → GatewayClient
settle_ready waiting result c = record c { readiness = result; connect_timer = false }
settle_ready ready result c = c
settle_ready refused result c = c

-- `settleReadyOk` and `settleReadyErr`.
unfoldable pub settle_ready_with : Ready → GatewayClient → GatewayClient
settle_ready_with result c = settle_ready c.readiness result c

abbrev pub write_unless_settled : Ready → Option String → GatewayClient → GatewayClient
write_unless_settled waiting device_nonce c = record c {
  connects = c.connects ++ device_nonce ∷ [];
}
write_unless_settled ready device_nonce c = c
write_unless_settled refused device_nonce c = c

-- The rest of `sendConnect`, with a device signature or without.
unfoldable pub write_connect : Option String → GatewayClient → GatewayClient
write_connect device_nonce c = write_unless_settled c.readiness device_nonce c

abbrev pub sign_or_write : Bool → Option String → GatewayClient → GatewayClient
sign_or_write true (some device_nonce) c = record c { signing = some device_nonce }
sign_or_write true none c = write_connect none c
sign_or_write false device_nonce c = write_connect none c

abbrev pub send_unless : Bool → Option String → GatewayClient → GatewayClient
send_unless true device_nonce c = c
send_unless false device_nonce c =
    sign_or_write c.device_identity device_nonce
      (record c { connect_sent = true; challenge_timer = false })

unfoldable pub send_connect : GatewayClient → Option String → GatewayClient
unfolding write_connect
send_connect c device_nonce = send_unless c.connect_sent device_nonce c

abbrev pub signed_for : Option String → Bool → GatewayClient → GatewayClient
signed_for none done c = c
signed_for (some device_nonce) true c =
    write_connect (some device_nonce) (record c { signing = none })
signed_for (some device_nonce) false c = write_connect none (record c { signing = none })

-- The keystore has signed the challenge, or could not.
unfoldable pub signed : GatewayClient → Bool → GatewayClient
unfolding write_connect
signed c done = signed_for c.signing done c

abbrev pub open_with : Bool → GatewayClient → GatewayClient
open_with false c = send_connect c none
open_with true c = record c { challenge_timer = true }

unfoldable pub on_open : GatewayClient → GatewayClient
unfolding send_connect
on_open c = open_with c.device_identity c

abbrev pub challenge_over : Bool → GatewayClient → GatewayClient
challenge_over false c = c
challenge_over true c = send_connect (record c { challenge_timer = false }) none

-- The timer of the challenge, if it is set.
unfoldable pub challenge_timeout : GatewayClient → GatewayClient
unfolding send_connect
challenge_timeout c = challenge_over c.challenge_timer c

abbrev pub refuse_if : Bool → GatewayClient → GatewayClient
refuse_if false c = c
refuse_if true c = settle_ready_with refused c

unfoldable pub connect_timeout : GatewayClient → GatewayClient
unfolding settle_ready_with
connect_timeout c = refuse_if c.connect_timer c

abbrev pub verify : List String → GatewayClient → GatewayClient
verify [] c = settle_ready_with ready c
verify (scope ∷ missing) c = settle_ready_with refused c

unfoldable pub complete_handshake : GatewayClient → Option (List String) → GatewayClient
unfolding missing_scopes settle_ready_with
complete_handshake c none = settle_ready_with ready (record c { granted_scopes = [] })
complete_handshake c (some scopes) =
    verify (missing_scopes scopes c.required_scopes) (record c { granted_scopes = scopes })

abbrev pub rpc_result : Bool → RpcOutcome
rpc_result true = resolved
rpc_result false = rejected

abbrev pub settle_rpc : Option (Unit {0}) → ℕ → RpcOutcome → GatewayClient → GatewayClient
settle_rpc none id result c = c
settle_rpc (some waiter) id result c = record c {
  pending = remove id c.pending;
  settled = c.settled ++ (id, result) ∷ [];
}

abbrev pub response_for : Bool → ℕ → Bool → Option (List String) → GatewayClient → GatewayClient
response_for true id true auth c = complete_handshake c auth
response_for true id false auth c = settle_ready_with refused c
response_for false id done auth c = settle_rpc (lookup id c.pending) id (rpc_result done) c

abbrev pub challenge_unless : Bool → Option String → GatewayClient → GatewayClient
challenge_unless true device_nonce c = c
challenge_unless false device_nonce c = send_connect c device_nonce

-- `connection.onMessage`. A challenge carries no nonce if its nonce is no text or is empty.
unfoldable pub on_message : GatewayClient → GatewayFrame → GatewayClient
unfolding complete_handshake settle_ready_with send_connect lookup remove
on_message c unparsable = c
on_message c (hello_ok auth) = complete_handshake c auth
on_message c (res id done auth) = response_for (nat_beq id connect_id) id done auth c
on_message c (challenge device_nonce) = challenge_unless c.connect_sent device_nonce c
on_message c event = c
on_message c other = settle_ready_with refused c

abbrev pub reject_each : List (ℕ × Unit {0}) → List (ℕ × RpcOutcome)
reject_each [] = []
reject_each ((id, waiter) ∷ rest) = (id, closed) ∷ reject_each rest

unfoldable pub on_close : GatewayClient → GatewayClient
unfolding settle_ready_with
on_close c =
    let d = settle_ready_with refused (record c { challenge_timer = false }) in
    record d { pending = []; settled = c.settled ++ reject_each c.pending }

unfoldable pub request : GatewayClient → GatewayClient
unfolding insert
request c = record c { next_id = suc c.next_id; pending = insert c.next_id tt c.pending }

-- The timer of a request that still waits.
unfoldable pub request_timeout : GatewayClient → ℕ → GatewayClient
unfolding lookup remove
request_timeout c id = settle_rpc (lookup id c.pending) id timed_out c

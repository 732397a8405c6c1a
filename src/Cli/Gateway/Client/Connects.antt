-- ===== src/Cli/Gateway/Client/Connects.antt =====
-- packages/ac2-cli/src/runtime/gateway/client.ts: one `connect` request for a connection.
use ac.Common.{
  ℕ, ◌+◌, ◌≤◌, ◌≡◌, ◌⊎◌, inl, inr, refl, String, Option, none, some, List, [], ◌∷◌, Bool, true,
  false, is_some, arith, length, length-append, one_if, lookup, nat_beq, nat_eq,
}
use ac.Cli.Gateway.Client.{
  GatewayClient, GatewayFrame, hello_ok, res, challenge, event, other, unparsable, Ready, waiting,
  ready, refused, RpcOutcome, create_gateway_client, settle_ready, settle_ready_with,
  write_unless_settled, write_connect, sign_or_write, send_unless, send_connect, signed_for, signed,
  open_with, on_open, challenge_over, challenge_timeout, refuse_if, connect_timeout, verify,
  complete_handshake, missing_scopes, settle_rpc, response_for, challenge_unless, on_message,
  on_close, request, request_timeout, rpc_result, connect_id,
}

pub data ClientEvent : Type 0 where
  opens challenge_ends connect_ends closes requests : ClientEvent
  signs : Bool → ClientEvent
  receives : GatewayFrame → ClientEvent
  expires : ℕ → ClientEvent

unfoldable pub client_step : GatewayClient → ClientEvent → GatewayClient
unfolding on_open challenge_timeout connect_timeout on_close request signed on_message
    request_timeout
client_step c opens = on_open c
client_step c challenge_ends = challenge_timeout c
client_step c connect_ends = connect_timeout c
client_step c closes = on_close c
client_step c requests = request c
client_step c (signs done) = signed c done
client_step c (receives frame) = on_message c frame
client_step c (expires id) = request_timeout c id

unfoldable pub client_run : GatewayClient → List ClientEvent → GatewayClient
unfolding client_step
client_run c [] = c
client_run c (e ∷ es) = client_run (client_step c e) es

-- None was sent, one is being signed, or at most one was sent.
abbrev IsOnce : GatewayClient → Type 0
IsOnce c =
    ((c.connect_sent ≡ false) × (length c.connects ≡ 0) × (is_some c.signing ≡ false))
    ⊎ ((c.connect_sent ≡ true) × (length c.connects + one_if (is_some c.signing) ≤ 1))

settle_ready-IsOnce :
    (r result : Ready) (c : GatewayClient) → IsOnce c → IsOnce (settle_ready r result c)
settle_ready-IsOnce waiting result c h = h
settle_ready-IsOnce ready result c h = h
settle_ready-IsOnce refused result c h = h

write-IsOnce :
    (r : Ready) (answer : Option String) (c : GatewayClient)
    → c.connect_sent ≡ true
    → length c.connects ≡ 0
    → is_some c.signing ≡ false
    → IsOnce (write_unless_settled r answer c)
write-IsOnce waiting answer c s n g = ground (arith, length-append c.connects (answer ∷ []))
write-IsOnce ready answer c s n g = ground arith
write-IsOnce refused answer c s n g = ground arith

sign-IsOnce :
    (b : Bool) (answer : Option String) (c : GatewayClient)
    → c.connect_sent ≡ true
    → length c.connects ≡ 0
    → is_some c.signing ≡ false
    → IsOnce (sign_or_write b answer c)
unfolding write_connect
sign-IsOnce true (some asked) c s n g = ground arith
sign-IsOnce true none c s n g = write-IsOnce c.readiness none c s n g
sign-IsOnce false answer c s n g = write-IsOnce c.readiness none c s n g

send-IsOnce :
    (b : Bool) (answer : Option String) (c : GatewayClient)
    → c.connect_sent ≡ b
    → IsOnce c
    → IsOnce (send_unless b answer c)
send-IsOnce true answer c e h = h
send-IsOnce false answer c e (inl (s, n, g)) =
    sign-IsOnce c.device_identity answer (record c { connect_sent = true; challenge_timer = false })
      refl n g
send-IsOnce false answer c e (inr (s, n)) = absurd (ground arith)

signed-IsOnce :
    (g : Option String) (done : Bool) (c : GatewayClient)
    → c.signing ≡ g
    → IsOnce c
    → IsOnce (signed_for g done c)
unfolding write_connect
signed-IsOnce none done c e h = h
signed-IsOnce (some asked) true c e (inr (s, n)) =
    write-IsOnce c.readiness (some asked) (record c { signing = none }) s (ground arith) refl
signed-IsOnce (some asked) false c e (inr (s, n)) =
    write-IsOnce c.readiness none (record c { signing = none }) s (ground arith) refl
signed-IsOnce (some asked) done c e (inl (s, n, g)) = absurd (ground arith)

open-IsOnce : (b : Bool) (c : GatewayClient) → IsOnce c → IsOnce (open_with b c)
unfolding send_connect
open-IsOnce false c h = send-IsOnce c.connect_sent none c refl h
open-IsOnce true c h = h

challenge_over-IsOnce : (b : Bool) (c : GatewayClient) → IsOnce c → IsOnce (challenge_over b c)
unfolding send_connect
challenge_over-IsOnce false c h = h
challenge_over-IsOnce true c h =
    send-IsOnce c.connect_sent none (record c { challenge_timer = false }) refl h

refuse-IsOnce : (b : Bool) (c : GatewayClient) → IsOnce c → IsOnce (refuse_if b c)
unfolding settle_ready_with
refuse-IsOnce false c h = h
refuse-IsOnce true c h = settle_ready-IsOnce c.readiness refused c h

verify-IsOnce : (missing : List String) (c : GatewayClient) → IsOnce c → IsOnce (verify missing c)
unfolding settle_ready_with
verify-IsOnce [] c h = settle_ready-IsOnce c.readiness ready c h
verify-IsOnce (scope ∷ missing) c h = settle_ready-IsOnce c.readiness refused c h

handshake-IsOnce :
    (auth : Option (List String)) (c : GatewayClient)
    → IsOnce c
    → IsOnce (complete_handshake c auth)
unfolding complete_handshake settle_ready_with
handshake-IsOnce none c h =
    settle_ready-IsOnce c.readiness ready (record c { granted_scopes = [] }) h
handshake-IsOnce (some scopes) c h =
    verify-IsOnce (missing_scopes scopes c.required_scopes) (record c { granted_scopes = scopes }) h

rpc-IsOnce :
    (w : Option (Unit {0})) (id : ℕ) (result : RpcOutcome) (c : GatewayClient)
    → IsOnce c
    → IsOnce (settle_rpc w id result c)
rpc-IsOnce none id result c h = h
rpc-IsOnce (some waiter) id result c h = h

response-IsOnce :
    (b : Bool) (id : ℕ) (done : Bool) (auth : Option (List String)) (c : GatewayClient)
    → IsOnce c
    → IsOnce (response_for b id done auth c)
unfolding settle_ready_with
response-IsOnce true id true auth c h = handshake-IsOnce auth c h
response-IsOnce true id false auth c h = settle_ready-IsOnce c.readiness refused c h
response-IsOnce false id done auth c h = rpc-IsOnce (lookup id c.pending) id (rpc_result done) c h

challenge-IsOnce :
    (b : Bool) (answer : Option String) (c : GatewayClient)
    → IsOnce c
    → IsOnce (challenge_unless b answer c)
unfolding send_connect
challenge-IsOnce true answer c h = h
challenge-IsOnce false answer c h = send-IsOnce c.connect_sent answer c refl h

message-IsOnce : (frame : GatewayFrame) (c : GatewayClient) → IsOnce c → IsOnce (on_message c frame)
unfolding on_message settle_ready_with
message-IsOnce unparsable c h = h
message-IsOnce event c h = h
message-IsOnce other c h = settle_ready-IsOnce c.readiness refused c h
message-IsOnce (hello_ok auth) c h = handshake-IsOnce auth c h
message-IsOnce (res id done auth) c h = response-IsOnce (nat_beq id connect_id) id done auth c h
message-IsOnce (challenge answer) c h = challenge-IsOnce c.connect_sent answer c h

step-IsOnce : (c : GatewayClient) (e : ClientEvent) → IsOnce c → IsOnce (client_step c e)
unfolding client_step on_open challenge_timeout connect_timeout on_close request signed
    request_timeout settle_ready_with
step-IsOnce c opens h = open-IsOnce c.device_identity c h
step-IsOnce c challenge_ends h = challenge_over-IsOnce c.challenge_timer c h
step-IsOnce c connect_ends h = refuse-IsOnce c.connect_timer c h
step-IsOnce c closes h =
    settle_ready-IsOnce c.readiness refused (record c { challenge_timer = false }) h
step-IsOnce c requests h = h
step-IsOnce c (signs done) h = signed-IsOnce c.signing done c refl h
step-IsOnce c (receives frame) h = message-IsOnce frame c h
step-IsOnce c (expires id) h = rpc-IsOnce (lookup id c.pending) id RpcOutcome.timed_out c h

run-IsOnce : (c : GatewayClient) (es : List ClientEvent) → IsOnce c → IsOnce (client_run c es)
unfolding client_run
run-IsOnce c [] h = h
run-IsOnce c (e ∷ es) h = run-IsOnce (client_step c e) es (step-IsOnce c e h)

count_once : (c : GatewayClient) → IsOnce c → length c.connects + one_if (is_some c.signing) ≤ 1
count_once c h = ground arith

-- Whatever the gateway sends, challenges repeated or late included, whenever the keystore answers and
-- whichever timers fire: the `connect` requests that were written and the one whose signature is being
-- made are no more than one.
pub connects_once :
    (device_identity : Bool) (required : List String) (es : List ClientEvent)
    → let c = client_run (create_gateway_client device_identity required) es in
      length c.connects + one_if (is_some c.signing) ≤ 1
unfolding create_gateway_client
connects_once device_identity required es =
    count_once (client_run (create_gateway_client device_identity required) es)
      (run-IsOnce (create_gateway_client device_identity required) es (inl (refl, refl, refl)))

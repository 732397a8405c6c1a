-- ===== src/Cli/Gateway/Client/Scopes.antt =====
-- packages/ac2-cli/src/runtime/gateway/client.ts: the handshake succeeds only with the scopes it needs.
use ac.Common.{
  ℕ, ◌≡◌, ◌⊎◌, inl, inr, refl, String, Option, none, some, List, [], ◌∷◌, Bool, true, false, arith,
  All, Bool-cases, contains, string_eq, lookup, nat_beq, nat_eq, subst, nat_beq_iff,
}
use ac.Cli.Gateway.Client.{
  GatewayClient, GatewayFrame, hello_ok, res, challenge, event, other, unparsable, Ready, waiting,
  ready, refused, RpcOutcome, create_gateway_client, settle_ready, settle_ready_with,
  write_unless_settled, write_connect, sign_or_write, send_unless, send_connect, signed_for, signed,
  open_with, on_open, challenge_over, challenge_timeout, refuse_if, connect_timeout, verify,
  complete_handshake, missing_scopes, keep_missing, is_missing, settle_rpc, response_for,
  challenge_unless, on_message, on_close, request, request_timeout, rpc_result, connect_id,
  operator_admin_scope, read_scope, write_scope,
}
use ac.Cli.Gateway.Client.Connects.{
  ClientEvent, opens, challenge_ends, connect_ends, closes, requests, signs, receives, expires,
  client_step, client_run,
}

-- The scope itself, or one that stands above it.
abbrev pub Covered : List String → String → Type 0
Covered granted scope =
    (contains granted operator_admin_scope ≡ true)
    ⊎ (contains granted scope ≡ true)
    ⊎ ((scope ≡ read_scope) × (contains granted write_scope ≡ true))

missing-Covered :
    (granted : List String) (scope : String)
    → is_missing granted scope ≡ false
    → Covered granted scope
unfolding is_missing
missing-Covered granted scope h = elim (Bool-cases (contains granted scope)) [
  | inl e ↦ inr (inl e)
  | inr e ↦ inr (inr (ground (arith, string_eq.beq_iff scope read_scope), ground arith))
]

keep_missing-Covered :
    (granted required : List String)
    → keep_missing granted required ≡ []
    → All (Covered granted) required
unfolding keep_missing
keep_missing-Covered granted [] h = tt
keep_missing-Covered granted (scope ∷ scopes) h = (
  missing-Covered granted scope (ground arith),
  keep_missing-Covered granted scopes (ground arith),
)

admin-Covered :
    (granted required : List String)
    → contains granted operator_admin_scope ≡ true
    → All (Covered granted) required
admin-Covered granted [] h = tt
admin-Covered granted (scope ∷ scopes) h = (inl h, admin-Covered granted scopes h)

none_missing :
    (granted required : List String)
    → missing_scopes granted required ≡ []
    → All (Covered granted) required
unfolding missing_scopes
none_missing granted required h = elim (Bool-cases (contains granted operator_admin_scope)) [
  | inl e ↦ admin-Covered granted required e
  | inr e ↦ keep_missing-Covered granted required (ground arith)
]

-- A `hello-ok` that reports no scopes is trusted.
abbrev pub Authorises : List String → Option (List String) → Type 0
Authorises required none = Unit {0}
Authorises required (some scopes) = All (Covered scopes) required

abbrev pub Grants : List String → ClientEvent → Type 0
Grants required (receives (hello_ok auth)) = Authorises required auth
Grants required (receives (res id true auth)) = (id ≡ connect_id) × Authorises required auth
Grants required _ = ⊥

abbrev pub Granted : List String → List ClientEvent → Type 0
Granted required [] = ⊥
Granted required (e ∷ es) = Grants required e ⊎ Granted required es

abbrev pub is_ready : Ready → Bool
is_ready waiting = false
is_ready ready = true
is_ready refused = false

-- From one client to the next, with no success of the handshake between them.
abbrev IsTame : GatewayClient → GatewayClient → Type 0
IsTame c d =
    (d.required_scopes ≡ c.required_scopes)
    × ((d.readiness ≡ c.readiness) ⊎ (is_ready d.readiness ≡ false))

refuse-IsTame :
    (r : Ready) (c : GatewayClient) → c.readiness ≡ r → IsTame c (settle_ready r refused c)
refuse-IsTame waiting c e = (refl, inr refl)
refuse-IsTame ready c e = (refl, inl refl)
refuse-IsTame refused c e = (refl, inl refl)

write-IsTame :
    (r : Ready) (answer : Option String) (c : GatewayClient)
    → ((write_unless_settled r answer c).required_scopes ≡ c.required_scopes)
      × ((write_unless_settled r answer c).readiness ≡ c.readiness)
write-IsTame waiting answer c = (refl, refl)
write-IsTame ready answer c = (refl, refl)
write-IsTame refused answer c = (refl, refl)

sign-IsTame :
    (b : Bool) (answer : Option String) (c : GatewayClient)
    → ((sign_or_write b answer c).required_scopes ≡ c.required_scopes)
      × ((sign_or_write b answer c).readiness ≡ c.readiness)
unfolding write_connect
sign-IsTame true (some asked) c = (refl, refl)
sign-IsTame true none c = write-IsTame c.readiness none c
sign-IsTame false answer c = write-IsTame c.readiness none c

send-IsTame :
    (b : Bool) (answer : Option String) (c : GatewayClient)
    → ((send_unless b answer c).required_scopes ≡ c.required_scopes)
      × ((send_unless b answer c).readiness ≡ c.readiness)
send-IsTame true answer c = (refl, refl)
send-IsTame false answer c =
    sign-IsTame c.device_identity answer (record c { connect_sent = true; challenge_timer = false })

signed-IsTame :
    (g : Option String) (done : Bool) (c : GatewayClient)
    → ((signed_for g done c).required_scopes ≡ c.required_scopes)
      × ((signed_for g done c).readiness ≡ c.readiness)
unfolding write_connect
signed-IsTame none done c = (refl, refl)
signed-IsTame (some asked) true c =
    write-IsTame c.readiness (some asked) (record c { signing = none })
signed-IsTame (some asked) false c = write-IsTame c.readiness none (record c { signing = none })

open-IsTame :
    (b : Bool) (c : GatewayClient)
    → ((open_with b c).required_scopes ≡ c.required_scopes)
      × ((open_with b c).readiness ≡ c.readiness)
unfolding send_connect
open-IsTame false c = send-IsTame c.connect_sent none c
open-IsTame true c = (refl, refl)

challenge_over-IsTame :
    (b : Bool) (c : GatewayClient)
    → ((challenge_over b c).required_scopes ≡ c.required_scopes)
      × ((challenge_over b c).readiness ≡ c.readiness)
unfolding send_connect
challenge_over-IsTame false c = (refl, refl)
challenge_over-IsTame true c =
    send-IsTame c.connect_sent none (record c { challenge_timer = false })

timeout-IsTame : (b : Bool) (c : GatewayClient) → IsTame c (refuse_if b c)
unfolding settle_ready_with
timeout-IsTame false c = (refl, inl refl)
timeout-IsTame true c = refuse-IsTame c.readiness c refl

rpc-IsTame :
    (w : Option (Unit {0})) (id : ℕ) (result : RpcOutcome) (c : GatewayClient)
    → IsTame c (settle_rpc w id result c)
rpc-IsTame none id result c = (refl, inl refl)
rpc-IsTame (some waiter) id result c = (refl, inl refl)

challenge-IsTame :
    (b : Bool) (answer : Option String) (c : GatewayClient)
    → ((challenge_unless b answer c).required_scopes ≡ c.required_scopes)
      × ((challenge_unless b answer c).readiness ≡ c.readiness)
unfolding send_connect
challenge-IsTame true answer c = (refl, refl)
challenge-IsTame false answer c = send-IsTame c.connect_sent answer c

-- Tame, or granted by what was received.
abbrev Turns : Type 0 → GatewayClient → GatewayClient → Type 0
Turns Granting c d =
    (d.required_scopes ≡ c.required_scopes)
    × (((d.readiness ≡ c.readiness) ⊎ (is_ready d.readiness ≡ false)) ⊎ Granting)

ready-keeps :
    (r result : Ready) (c : GatewayClient)
    → (settle_ready r result c).required_scopes ≡ c.required_scopes
ready-keeps waiting result c = refl
ready-keeps ready result c = refl
ready-keeps refused result c = refl

verify-Turns :
    (missing scopes : List String) (c : GatewayClient)
    → missing_scopes scopes c.required_scopes ≡ missing
    → Turns (All (Covered scopes) c.required_scopes) c (verify missing c)
unfolding settle_ready_with
verify-Turns [] scopes c e =
    (ready-keeps c.readiness ready c, inr (none_missing scopes c.required_scopes e))
verify-Turns (scope ∷ missing) scopes c e =
    let (s, r) = refuse-IsTame c.readiness c refl in (s, inl r)

handshake-Turns :
    (auth : Option (List String)) (c : GatewayClient)
    → Turns (Authorises c.required_scopes auth) c (complete_handshake c auth)
unfolding complete_handshake settle_ready_with
handshake-Turns none c = (ready-keeps c.readiness ready (record c { granted_scopes = [] }), inr tt)
handshake-Turns (some scopes) c =
    verify-Turns (missing_scopes scopes c.required_scopes) scopes
      (record c { granted_scopes = scopes }) refl

response-Turns :
    (b : Bool) (id : ℕ) (done : Bool) (auth : Option (List String)) (c : GatewayClient)
    → nat_beq id connect_id ≡ b
    → Turns
        (Grants c.required_scopes (receives (res id done auth)))
        c
        (response_for b id done auth c)
unfolding settle_ready_with
response-Turns true id true auth c e = elim (handshake-Turns auth c).1 [
  | inl r ↦ ((handshake-Turns auth c).0, inl r)
  | inr g ↦ ((handshake-Turns auth c).0, inr ((nat_beq_iff id connect_id).0 e, g))
]
response-Turns true id false auth c e = let t = refuse-IsTame c.readiness c refl in (t.0, inl t.1)
response-Turns false id done auth c e =
    let t = rpc-IsTame (lookup id c.pending) id (rpc_result done) c in (t.0, inl t.1)

message-Turns :
    (frame : GatewayFrame) (c : GatewayClient)
    → Turns (Grants c.required_scopes (receives frame)) c (on_message c frame)
unfolding on_message settle_ready_with
message-Turns unparsable c = (refl, inl (inl refl))
message-Turns event c = (refl, inl (inl refl))
message-Turns other c = let t = refuse-IsTame c.readiness c refl in (t.0, inl t.1)
message-Turns (hello_ok auth) c = handshake-Turns auth c
message-Turns (res id done auth) c = response-Turns (nat_beq id connect_id) id done auth c refl
message-Turns (challenge answer) c =
    let t = challenge-IsTame c.connect_sent answer c in (t.0, inl (inl t.1))

step-Turns :
    (c : GatewayClient) (e : ClientEvent) → Turns (Grants c.required_scopes e) c (client_step c e)
unfolding client_step on_open challenge_timeout connect_timeout on_close request signed
    request_timeout settle_ready_with
step-Turns c opens = let t = open-IsTame c.device_identity c in (t.0, inl (inl t.1))
step-Turns c challenge_ends =
    let t = challenge_over-IsTame c.challenge_timer c in (t.0, inl (inl t.1))
step-Turns c connect_ends = let t = timeout-IsTame c.connect_timer c in (t.0, inl t.1)
step-Turns c closes =
    let t = refuse-IsTame c.readiness (record c { challenge_timer = false }) refl in (t.0, inl t.1)
step-Turns c requests = (refl, inl (inl refl))
step-Turns c (signs done) = let t = signed-IsTame c.signing done c in (t.0, inl (inl t.1))
step-Turns c (receives frame) = message-Turns frame c
step-Turns c (expires id) =
    let t = rpc-IsTame (lookup id c.pending) id RpcOutcome.timed_out c in (t.0, inl t.1)

was_ready :
    (r s : Ready) (G : Type 0)
    → ((s ≡ r) ⊎ (is_ready s ≡ false)) ⊎ G
    → is_ready s ≡ true
    → (is_ready r ≡ true) ⊎ G
was_ready r s G (inl (inl e)) h = inl (subst (λ t. is_ready t ≡ true) e h)
was_ready r s G (inl (inr e)) h = absurd (ground arith)
was_ready r s G (inr g) h = inr g

run-Granted :
    (c : GatewayClient) (es : List ClientEvent)
    → is_ready (client_run c es).readiness ≡ true
    → (is_ready c.readiness ≡ true) ⊎ Granted c.required_scopes es
unfolding client_run
run-Granted c [] h = inl h
run-Granted c (e ∷ es) h =
    let t = step-Turns c e in
    elim (run-Granted (client_step c e) es h) [
      | inl r ↦
          elim (was_ready c.readiness (client_step c e).readiness (Grants c.required_scopes e) t.1
            r) [ inl before ↦ inl before | inr granted ↦ inr (inl granted) ]
      | inr later ↦ inr (inr (subst (λ required. Granted required es) t.0 later))
    ]

unready :
    (required : List String) (es : List ClientEvent)
    → (false ≡ true) ⊎ Granted required es
    → Granted required es
unready required es (inl e) = absurd (ground arith)
unready required es (inr g) = g

-- If `ready` resolves, whatever was received and whichever timers fired: some `hello-ok`, sent as such
-- or in the answer to this client's `connect`, reported no scopes at all or covers each scope that is
-- required, by itself, by `operator.admin`, or for `operator.read` by `operator.write`.
pub ready-Granted :
    (device_identity : Bool) (required : List String) (es : List ClientEvent)
    → is_ready (client_run (create_gateway_client device_identity required) es).readiness ≡ true
    → Granted required es
unfolding create_gateway_client
ready-Granted device_identity required es h =
    unready required es (run-Granted (create_gateway_client device_identity required) es h)

-- ===== src/Cli/Broker/Locked.antt =====
-- packages/ac2-cli/src/daemon/broker.ts: a wallet that is not the one the agent is bound to.
use ac.Common.{
  ◌≡◌, ◌≢◌, refl, String, Option, none, some, List, [], ◌∷◌, Bool, true, false, string_eq, arith,
  ◌↔◌,
}
use text.Mathlib.TextEquality.{eq_iff}
use ac.Cli.Broker.{
  Broker, Bound, Channel, control, stream, lock_out, RequestParams, unavailable_locked,
  decide_controller_binding, session_opens, session_connects, apply_decision, lock, set_state,
  receive, request,
}

locked_apart :
    (b a : String) (stored : Bool)
    → decide_controller_binding (some b) (some a) stored ≡ lock_out
    → a ≢ b
unfolding decide_controller_binding
locked_apart b a stored h same = ground (arith, eq_iff a b, same)

apart_locked :
    (b a : String) (stored : Bool)
    → a ≢ b
    → decide_controller_binding (some b) (some a) stored ≡ lock_out
unfolding decide_controller_binding
apart_locked b a stored apart = ground (arith, eq_iff a b, apart)

-- A connection is locked out exactly when the agent is bound and the wallet has another account,
-- whether or not an identity is stored.
pub decide-lock_out_iff :
    (bound account : Option String) (stored : Bool)
    → (decide_controller_binding bound account stored ≡ lock_out)
      ↔ ((b : String) × (a : String) × (bound ≡ some b) × (account ≡ some a) × (a ≢ b))
unfolding decide_controller_binding
decide-lock_out_iff none none true = ((λ h. cc), λ (b, a, e, f, n). cc)
decide-lock_out_iff none none false = ((λ h. cc), λ (b, a, e, f, n). cc)
decide-lock_out_iff none (some a) true = ((λ h. cc), λ (b, a, e, f, n). cc)
decide-lock_out_iff none (some a) false = ((λ h. cc), λ (b, a, e, f, n). cc)
decide-lock_out_iff (some b) none true = ((λ h. cc), λ (b, a, e, f, n). cc)
decide-lock_out_iff (some b) none false = ((λ h. cc), λ (b, a, e, f, n). cc)
decide-lock_out_iff (some b) (some a) stored = (
  λ h. (b, a, refl, refl, locked_apart b a stored h),
  λ (c, d, e, f, apart). apart_locked b a stored (λ same. apart (let p : d ≡ c = cc in p)),
)

-- A list of messages that come in, each with whether its payload is blank.
unfoldable pub receive_all : Broker → List (Channel × (String × Bool)) → Broker
receive_all b [] = b
receive_all b ((channel, (payload, blank)) ∷ rest) =
    receive_all (receive b channel payload blank) rest

locked-receive :
    (b : Broker) (channel : Channel) (payload : String) (blank : Bool)
    → b.locked ≡ true
    → receive b channel payload blank ≡ b
unfolding receive
locked-receive b control payload blank h = rw h refl
locked-receive b stream payload blank h = rw h refl

locked-receive_all :
    (b : Broker) (ms : List (Channel × (String × Bool))) → b.locked ≡ true → receive_all b ms ≡ b
unfolding receive_all
locked-receive_all b [] h = refl
locked-receive_all b ((channel, (payload, blank)) ∷ rest) h =
    rw (locked-receive b channel payload blank h) (locked-receive_all b rest h)

pub foreign_session_locked :
    (b : Broker) (bound account : String) (wallet : Option String) (stored : Bool) (outcome : Bound)
    (ms : List (Channel × (String × Bool))) (params : RequestParams)
    → account ≢ bound
    → let c = session_connects (
        apply_decision
          (session_opens b (some account) wallet)
          (decide_controller_binding (some bound) (some account) stored)
          outcome) in
      (receive_all c ms ≡ c)
      × (request c params ≡ unavailable_locked)
      × (c.identity_granted ≡ false)
      × (c.agent_did ≡ none)
unfolding session_connects apply_decision lock session_opens set_state request
foreign_session_locked b bound account wallet stored outcome ms params h =
    let e : decide_controller_binding (some bound) (some account) stored ≡ lock_out =
      (decide-lock_out_iff (some bound) (some account) stored).1 (bound, account, refl, refl, h) in
    rw e (locked-receive_all _ ms refl, refl, refl, refl)

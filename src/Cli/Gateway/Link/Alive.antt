-- ===== src/Cli/Gateway/Link/Alive.antt =====
-- packages/ac2-cli/src/runtime/gateway/adapter.ts: the adapter goes on until it is stopped.
use ac.Common.{
  ℕ, ◌≡◌, ◌≤◌, refl, Option, none, some, List, [], ◌∷◌, Bool, true, false, ◌||◌, is_some, Text, All,
  arith,
}
use ac.Cli.Gateway.Link.{
  Link, new_link, connect, connect_unless, schedule_reconnect, schedule_unless, fire_timer,
  timer_runs, handshake, handshake_fails, drop_client, is_client, connection_closes, stop,
  ensure_subscribed, subscribes_if, ensure_session_events_subscribed, session_events_if,
}

pub data LinkEvent : Type 0 where
  starts fires succeeds stops : LinkEvent
  rejects closes : ℕ → LinkEvent
  subscribes : Text → Bool → LinkEvent
  listens : Bool → LinkEvent

unfoldable pub link_step : Link → LinkEvent → Link
unfolding connect fire_timer handshake handshake_fails connection_closes stop ensure_subscribed
    ensure_session_events_subscribed
link_step l starts = connect l
link_step l fires = fire_timer l
link_step l succeeds = handshake l
link_step l stops = stop l
link_step l (rejects id) = handshake_fails l id
link_step l (closes id) = connection_closes l id
link_step l (subscribes session_key answered) = ensure_subscribed l session_key answered
link_step l (listens answered) = ensure_session_events_subscribed l answered

unfoldable pub link_run : Link → List LinkEvent → Link
unfolding link_step
link_run l [] = l
link_run l (e ∷ es) = link_run (link_step l e) es

-- Stopped, connected, or about to connect.
abbrev IsAlive : Link → Type 0
IsAlive l = (l.stopped || is_some l.client || is_some l.reconnect_timer) ≡ true

-- Stopped, with no client and no timer.
abbrev IsDone : Link → Type 0
IsDone l = (l.stopped ≡ true) × (l.client ≡ none) × (l.reconnect_timer ≡ none)

-- Every delay is one of the table's.
abbrev IsPaced : Link → Type 0
IsPaced l = All (λ ms. (1000 ≤ ms) × (ms ≤ 30000)) l.delays

schedule_unless-IsAlive :
    (stopped : Bool) (timer : Option ℕ) (l : Link)
    → l.stopped ≡ stopped
    → l.reconnect_timer ≡ timer
    → IsAlive (schedule_unless stopped timer l)
schedule_unless-IsAlive true timer l s t = ground arith
schedule_unless-IsAlive false (some delay) l s t = ground arith
schedule_unless-IsAlive false none l s t = ground arith

schedule-IsAlive : (l : Link) → IsAlive (schedule_reconnect l)
unfolding schedule_reconnect
schedule-IsAlive l = schedule_unless-IsAlive l.stopped l.reconnect_timer l refl refl

connect_unless-IsAlive :
    (stopped : Bool) (l : Link) → l.stopped ≡ stopped → IsAlive (connect_unless stopped l)
connect_unless-IsAlive true l s = ground arith
connect_unless-IsAlive false l s = ground arith

connect-IsAlive : (l : Link) → IsAlive (connect l)
unfolding connect
connect-IsAlive l = connect_unless-IsAlive l.stopped l refl

timer_runs-IsAlive : (timer : Option ℕ) (l : Link) → IsAlive l → IsAlive (timer_runs timer l)
timer_runs-IsAlive none l h = h
timer_runs-IsAlive (some delay) l h = connect-IsAlive (record l { reconnect_timer = none })

drop_client-IsAlive : (own : Bool) (id : ℕ) (l : Link) → IsAlive l → IsAlive (drop_client own id l)
drop_client-IsAlive false id l h = h
drop_client-IsAlive true id l h =
    schedule-IsAlive (record l { client = none; closed = id ∷ l.closed })

subscribes_if-IsAlive :
    (known : Bool) (client : Option ℕ) (answered : Bool) (l : Link) (key : Text)
    → IsAlive l
    → IsAlive (subscribes_if known client answered l key)
subscribes_if-IsAlive true client answered l key h = h
subscribes_if-IsAlive false none answered l key h = h
subscribes_if-IsAlive false (some id) true l key h = h
subscribes_if-IsAlive false (some id) false l key h = h

session_events_if-IsAlive :
    (known : Bool) (client : Option ℕ) (answered : Bool) (l : Link)
    → IsAlive l
    → IsAlive (session_events_if known client answered l)
session_events_if-IsAlive true client answered l h = h
session_events_if-IsAlive false none answered l h = h
session_events_if-IsAlive false (some id) true l h = h
session_events_if-IsAlive false (some id) false l h = h

link_step-IsAlive : (l : Link) (e : LinkEvent) → IsAlive l → IsAlive (link_step l e)
unfolding link_step fire_timer handshake handshake_fails connection_closes stop ensure_subscribed
    ensure_session_events_subscribed
link_step-IsAlive l starts h = connect-IsAlive l
link_step-IsAlive l fires h = timer_runs-IsAlive l.reconnect_timer l h
link_step-IsAlive l succeeds h = h
link_step-IsAlive l stops h = refl
link_step-IsAlive l (rejects id) h = drop_client-IsAlive (is_client l.client id) id l h
link_step-IsAlive l (closes id) h = schedule-IsAlive _
link_step-IsAlive l (subscribes key answered) h = subscribes_if-IsAlive _ l.client answered l key h
link_step-IsAlive l (listens answered) h =
    session_events_if-IsAlive l.session_events_subscribed l.client answered l h

link_run-IsAlive : (l : Link) (es : List LinkEvent) → IsAlive l → IsAlive (link_run l es)
unfolding link_run
link_run-IsAlive l [] h = h
link_run-IsAlive l (e ∷ es) h = link_run-IsAlive (link_step l e) es (link_step-IsAlive l e h)

-- Once it has started, the adapter never waits for nothing: whatever happens to its connections, it
-- is stopped, or it has a client, or a timer runs that gets it one.
pub link_alive :
    (es : List LinkEvent)
    → let l = link_run (connect new_link) es in
      (l.stopped || is_some l.client || is_some l.reconnect_timer) ≡ true
link_alive es = link_run-IsAlive (connect new_link) es (connect-IsAlive new_link)

-- ===== src/Cli/Gateway/Link/Done.antt =====
-- packages/ac2-cli/src/runtime/gateway/adapter.ts: a stopped adapter stays stopped, and how long it waits.
use ac.Common.{
  ℕ, ◌≡◌, refl, Option, none, some, List, [], ◌∷◌, Bool, true, false, Text, arith, contains,
  text_eq,
}
use ac.Cli.Gateway.Link.{
  Link, connect, connect_unless, schedule_reconnect, schedule_unless, fire_timer, timer_runs,
  handshake, handshake_fails, drop_client, is_client, connection_closes, without_client, stop,
  ensure_subscribed, subscribes_if, ensure_session_events_subscribed, session_events_if,
}
use ac.Cli.Gateway.Link.Alive.{
  LinkEvent, starts, fires, succeeds, stops, rejects, closes, subscribes, listens, link_step,
  link_run,
}

-- Stopped, with no client and no timer, having opened so many connections.
abbrev IsDone : ℕ → Link → Type 0
IsDone n l =
    (l.stopped ≡ true) × (l.client ≡ none) × (l.reconnect_timer ≡ none) × (l.next_connection ≡ n)

connect-IsDone :
    (n : ℕ) (stopped : Bool) (l : Link)
    → stopped ≡ true
    → IsDone n l
    → IsDone n (connect_unless stopped l)
connect-IsDone n true l e h = h
connect-IsDone n false l e h = absurd (ground arith)

schedule-IsDone :
    (n : ℕ) (stopped : Bool) (timer : Option ℕ) (l : Link)
    → stopped ≡ true
    → IsDone n l
    → IsDone n (schedule_unless stopped timer l)
schedule-IsDone n true timer l e h = h
schedule-IsDone n false timer l e h = absurd (ground arith)

timer-IsDone :
    (n : ℕ) (timer : Option ℕ) (l : Link)
    → timer ≡ none
    → IsDone n l
    → IsDone n (timer_runs timer l)
timer-IsDone n none l e h = h
timer-IsDone n (some delay) l e h = absurd (ground arith)

own-IsDone :
    (n id : ℕ) (client : Option ℕ) (l : Link)
    → client ≡ none
    → IsDone n l
    → IsDone n (drop_client (is_client client id) id l)
own-IsDone n id none l e h = h
own-IsDone n id (some own) l e h = absurd (ground arith)

without-none : (own : Bool) (client : Option ℕ) → client ≡ none → without_client own client ≡ none
without-none true client e = refl
without-none false client e = e

subscribes-IsDone :
    (n : ℕ) (known : Bool) (client : Option ℕ) (answered : Bool) (l : Link) (key : Text)
    → IsDone n l
    → IsDone n (subscribes_if known client answered l key)
subscribes-IsDone n true client answered l key h = h
subscribes-IsDone n false none answered l key h = h
subscribes-IsDone n false (some id) true l key h = h
subscribes-IsDone n false (some id) false l key h = h

listens-IsDone :
    (n : ℕ) (known : Bool) (client : Option ℕ) (answered : Bool) (l : Link)
    → IsDone n l
    → IsDone n (session_events_if known client answered l)
listens-IsDone n true client answered l h = h
listens-IsDone n false none answered l h = h
listens-IsDone n false (some id) true l h = h
listens-IsDone n false (some id) false l h = h

link_step-IsDone : (n : ℕ) (l : Link) (e : LinkEvent) → IsDone n l → IsDone n (link_step l e)
unfolding link_step connect fire_timer handshake handshake_fails connection_closes
    schedule_reconnect stop ensure_subscribed ensure_session_events_subscribed
link_step-IsDone n l starts (s, c, t, k) = connect-IsDone n l.stopped l s (s, c, t, k)
link_step-IsDone n l fires (s, c, t, k) = timer-IsDone n l.reconnect_timer l t (s, c, t, k)
link_step-IsDone n l succeeds h = h
link_step-IsDone n l stops (s, c, t, k) = (refl, refl, refl, k)
link_step-IsDone n l (rejects id) (s, c, t, k) = own-IsDone n id l.client l c (s, c, t, k)
link_step-IsDone n l (closes id) (s, c, t, k) =
    schedule-IsDone n l.stopped l.reconnect_timer _ s
      (s, without-none (is_client l.client id) l.client c, t, k)
link_step-IsDone n l (subscribes key answered) h =
    subscribes-IsDone n (contains l.subscribed_session_keys key) l.client answered l key h
link_step-IsDone n l (listens answered) h =
    listens-IsDone n l.session_events_subscribed l.client answered l h

link_run-IsDone : (n : ℕ) (l : Link) (es : List LinkEvent) → IsDone n l → IsDone n (link_run l es)
unfolding link_run
link_run-IsDone n l [] h = h
link_run-IsDone n l (e ∷ es) h = link_run-IsDone n (link_step l e) es (link_step-IsDone n l e h)

-- After it was stopped the adapter has no client and no timer, and opens no connection any more,
-- whatever is heard late of the connections that it had.
pub stop_final :
    (l : Link) (es : List LinkEvent)
    → let m = link_run (stop l) es in
      (m.client ≡ none) × (m.reconnect_timer ≡ none) × (m.next_connection ≡ l.next_connection)
unfolding stop
stop_final l es =
    let (s, c, t, k) = link_run-IsDone l.next_connection (stop l) es (refl, refl, refl, refl) in
    (c, t, k)

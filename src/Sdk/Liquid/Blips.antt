-- ===== src/Sdk/Liquid/Blips.antt =====
-- packages/ac2-sdk/src/providers/liquid-auth.ts: when the presence of the wallet ends a link that is up,
-- and that a signaling server which comes and goes does not.
use ac.Common.{
  ℕ, ◌≡◌, refl, some, List, [], ◌∷◌, Bool, true, false, not, ◌&&◌, All, arith, is_some, leb, ap,
  ◌∙◌,
}
use ac.Sdk.Liquid.{
  Link, close_channel, close_if, link_message, on_presence, should_teardown_on_presence,
  unstable_if, signaling_drops, returns_if, signaling_returns, hears, reconnect_if, wake_check,
}
use ac.Sdk.Liquid.Steps.{
  LinkEvent, connects, meets, rearms, establishes, fails, gives_up, disposes, links, counts, offers,
  drops, returns, settles_down, hears_peer, passes, wakes, closes, beats, step, run,
}
use ac.Sdk.Liquid.Phases.{idle, parked, met, gone, up, IsSound}

decision_up :
    (count : ℕ) (linked stable : Bool)
    → should_teardown_on_presence count linked false true stable false
      ≡ (linked && leb count 1 && stable)
unfolding should_teardown_on_presence
decision_up count linked stable = ground arith

ends_if :
    (id : ℕ) (b : Bool) (l : Link)
    → l.peer ≡ some id
    → l.closed ≡ false
    → l.close ≡ some id
    → is_some (close_if b l).peer ≡ not b
unfolding close_if close_channel
ends_if id true l p c k = rw (k, c) refl
ends_if id false l p c k = rw p refl

presence_decision :
    (count : ℕ) (l : Link)
    → l.connected ≡ true
    → l.negotiating ≡ false
    → l.closed ≡ false
    → should_teardown_on_presence count l.peer_linked l.closed l.connected l.signaling_stable
        l.negotiating
      ≡ (l.peer_linked && leb count 1 && l.signaling_stable)
presence_decision count l c n d = rw (c, n, d) (decision_up count l.peer_linked l.signaling_stable)

-- On a link that is up, a presence event ends it exactly when the wallet had linked, no more than one
-- device is left, and the agent's own signaling connection has been stable.
pub presence-ends :
    (l : Link) (count : ℕ)
    → IsSound l
    → l.connected ≡ true
    → is_some (on_presence l count).peer ≡ not (l.peer_linked && leb count 1 && l.signaling_stable)
unfolding on_presence
presence-ends l count (idle c m b) e = absurd (ground arith)
presence-ends l count (parked c m b d p) e = absurd (ground arith)
presence-ends l count (met id c m b d p a) e = absurd (ground arith)
presence-ends l count (gone c m b s p a) e = absurd (ground arith)
presence-ends l count (up id c m b d p a k) e =
    ends_if id _ l p d k ∙ ap not (presence_decision count l c m d)

-- What a signaling server that comes and goes can bring about, the wallet being silent or not.
abbrev pub IsBlip : LinkEvent → Type 0
IsBlip drops = Unit {0}
IsBlip returns = Unit {0}
IsBlip (counts device_count) = Unit {0}
IsBlip (links wallet) = Unit {0}
IsBlip (wakes elapsed) = Unit {0}
IsBlip (passes ms) = Unit {0}
IsBlip hears_peer = Unit {0}
IsBlip _ = ⊥

-- Up, with the signaling not stable.
record IsUp (id : ℕ) (l : Link) : Type 0 where
  there : l.peer ≡ some id
  live : l.connected ≡ true
  idle : l.negotiating ≡ false
  kept : l.closed ≡ false
  unstable : l.signaling_stable ≡ false

module _ (id : ℕ) where
  unstable_if-IsUp : (b : Bool) (l : Link) → IsUp id l → IsUp id (unstable_if b l)
  unstable_if-IsUp true l u = ground arith
  unstable_if-IsUp false l u = u

  returns_if-IsUp : (b : Bool) (l : Link) → IsUp id l → IsUp id (returns_if b l)
  returns_if-IsUp true l u = ground arith
  returns_if-IsUp false l u = u

  reconnect_if-IsUp : (b : Bool) (l : Link) → IsUp id l → IsUp id (reconnect_if b l)
  reconnect_if-IsUp true l u = ground arith
  reconnect_if-IsUp false l u = u

  close_if-IsUp : (b : Bool) (l : Link) → b ≡ false → IsUp id l → IsUp id (close_if b l)
  unfolding close_if
  close_if-IsUp false l e u = u
  close_if-IsUp true l e u = absurd (ground arith)

  no_departure :
      (count : ℕ) (l : Link)
      → IsUp id l
      → should_teardown_on_presence count l.peer_linked l.closed l.connected l.signaling_stable
          l.negotiating
        ≡ false
  unfolding should_teardown_on_presence
  no_departure count l u = ground arith

  step-IsUp : (l : Link) (e : LinkEvent) → IsBlip e → IsUp id l → IsUp id (step l e)
  unfolding step link_message on_presence signaling_drops signaling_returns hears wake_check
  step-IsUp l drops q u =
      unstable_if-IsUp l.listening (record l { signaling_connected = false }) (ground arith)
  step-IsUp l returns q u = returns_if-IsUp l.listening l u
  step-IsUp l (counts device_count) q u = close_if-IsUp _ l (no_departure device_count l u) u
  step-IsUp l (links wallet) q u = ground arith
  step-IsUp l (wakes elapsed) q u = reconnect_if-IsUp _ l u
  step-IsUp l (passes ms) q u = ground arith
  step-IsUp l hears_peer q u = ground arith
  step-IsUp l connects q u = absurd q
  step-IsUp l meets q u = absurd q
  step-IsUp l rearms q u = absurd q
  step-IsUp l establishes q u = absurd q
  step-IsUp l fails q u = absurd q
  step-IsUp l gives_up q u = absurd q
  step-IsUp l disposes q u = absurd q
  step-IsUp l offers q u = absurd q
  step-IsUp l settles_down q u = absurd q
  step-IsUp l (closes k) q u = absurd q
  step-IsUp l (beats channel_open) q u = absurd q

  run-IsUp : (l : Link) (es : List LinkEvent) → All IsBlip es → IsUp id l → IsUp id (run l es)
  unfolding run
  run-IsUp l [] q u = u
  run-IsUp l (e ∷ es) (q, qs) u = run-IsUp (step l e) es qs (step-IsUp l e q u)

dropped-IsUp :
    (id : ℕ) (b : Bool) (l : Link)
    → b ≡ true
    → l.peer ≡ some id
    → l.connected ≡ true
    → l.negotiating ≡ false
    → l.closed ≡ false
    → IsUp id (unstable_if b l)
dropped-IsUp id true l e p c n d = ground arith
dropped-IsUp id false l e p c n d = absurd (ground arith)

pub blip-keeps :
    (l : Link) (id : ℕ) (es : List LinkEvent)
    → IsSound l
    → l.connected ≡ true
    → l.peer ≡ some id
    → l.listening ≡ true
    → All IsBlip es
    → ((run l (drops ∷ es)).peer ≡ some id) × ((run l (drops ∷ es)).connected ≡ true)
unfolding run step signaling_drops
blip-keeps l id es (up k c m b d p a e) live there listens q =
    let u = run-IsUp id (unstable_if l.listening (record l { signaling_connected = false })) es q (
      dropped-IsUp id l.listening (record l { signaling_connected = false }) listens there live m
        d) in
    (u.there, u.live)
blip-keeps l id es (idle c m b) live there listens q = absurd (ground arith)
blip-keeps l id es (parked c m b d p) live there listens q = absurd (ground arith)
blip-keeps l id es (met k c m b d p a) live there listens q = absurd (ground arith)
blip-keeps l id es (gone c m b s p a) live there listens q = absurd (ground arith)

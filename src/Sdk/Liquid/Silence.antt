-- ===== src/Sdk/Liquid/Silence.antt =====
-- packages/ac2-sdk/src/providers/liquid-auth.ts: the heartbeat's second tier. A peer that stays silent
-- is given up, whatever the signaling server says of it.
use ac.Common.{
  ℕ, ◌+◌, ◌-◌, ◌*◌, ◌<◌, ◌≡◌, inl, inr, refl, some, List, [], ◌∷◌, ◌++◌, All, Bool, true, false,
  ltb, arith,
}
use ac.Sdk.Liquid.{
  Link, start_pairing, close_channel, close_if, negotiated_if, negotiated, established_with,
  established, silence_step, beat_if, beat, should_close_on_heartbeat_timeout,
  heartbeat_hard_timeout_factor,
}
use ac.Sdk.Liquid.Steps.{LinkEvent, beats, step, run}
use ac.Sdk.Liquid.Phases.{
  idle, parked, met, gone, up, IsSound, negotiated_if-IsSound, established-IsSound,
}
use ac.Sdk.Liquid.Sound.{ArePrompt, run-IsSound, start-IsSound}
use ac.Sdk.Liquid.Waits.{holds, elapsed, IsSilent, Waits, run-Waits}

run-last :
    (l : Link) (es : List LinkEvent) (e : LinkEvent) → run l (es ++ e ∷ []) ≡ step (run l es) e
unfolding run
run-last l [] e = refl
run-last l (d ∷ es) e = run-last (step l d) es e

-- The second tier closes whatever the signaling says.
hard_timeout_closes :
    (stale down far : Bool) → far ≡ true → should_close_on_heartbeat_timeout stale down far ≡ true
unfolding should_close_on_heartbeat_timeout
hard_timeout_closes stale down far e = ground arith

closed_peer :
    (id : ℕ) (b : Bool) (k : ℕ) (l : Link)
    → l.closed ≡ false
    → l.close ≡ some k
    → b ≡ true
    → holds id (silence_step b l).peer ≡ false
unfolding close_if close_channel
closed_peer id b k l d c e = rw (e, c, d) refl

lost_peer :
    (id : ℕ) (b : Bool) (k : ℕ) (l : Link)
    → l.closed ≡ false
    → l.close ≡ some k
    → holds id l.peer ≡ false
    → holds id (silence_step b l).peer ≡ false
unfolding close_if close_channel
lost_peer id true k l d c e = rw (c, d) refl
lost_peer id false k l d c e = e

is_late :
    (since timeout n : ℕ) (l : Link)
    → timeout * heartbeat_hard_timeout_factor + since < n
    → l.heartbeat_timeout_ms ≡ timeout
    → l.now ≡ n
    → l.last_inbound_at ≡ since
    → ltb (l.heartbeat_timeout_ms * heartbeat_hard_timeout_factor) (l.now - l.last_inbound_at)
      ≡ true
is_late since timeout n l late t c s = ground arith

beat_up :
    (id : ℕ) (b : Bool) (l : Link)
    → b ≡ true
    → holds id (beat_if true true l).peer ≡ false
    → holds id (beat_if b true l).peer ≡ false
beat_up id b l e h = rw e h

lost_of :
    (id since timeout n : ℕ) (l : Link)
    → l.connected ≡ false
    → Waits id since timeout n l
    → holds id l.peer ≡ false
lost_of id since timeout n l c w = ground arith

-- With no interval set, nothing is sent or closed.
beat_down :
    (id : ℕ) (b : Bool) (l : Link)
    → b ≡ false
    → holds id l.peer ≡ false
    → holds id (beat_if b true l).peer ≡ false
beat_down id false l e h = h
beat_down id true l e h = absurd (ground arith)

last_beat :
    (id since timeout n : ℕ) (l : Link)
    → timeout * heartbeat_hard_timeout_factor + since < n
    → IsSound l
    → Waits id since timeout n l
    → holds id (beat l true).peer ≡ false
unfolding beat
last_beat id since timeout n l late (idle c m b) w =
    beat_down id l.heartbeat l b (lost_of id since timeout n l c w)
last_beat id since timeout n l late (parked c m b d p) w =
    beat_down id l.heartbeat l b (lost_of id since timeout n l c w)
last_beat id since timeout n l late (met k c m b d p a) w =
    beat_down id l.heartbeat l b (lost_of id since timeout n l c w)
last_beat id since timeout n l late (gone c m b s p a) w =
    beat_down id l.heartbeat l b (lost_of id since timeout n l c w)
last_beat id since timeout n l late (up k c m b d p a e) w =
    beat_up id l.heartbeat l b (elim w.silent [
      | inl lost ↦ lost_peer id _ k l d e lost
      | inr still ↦ closed_peer id _ k l d e (
          hard_timeout_closes _ l.signaling_connected _
            (is_late since timeout n l late w.timed w.clock still.0))
    ])

-- A link as it comes up.
come_up :
    (id : ℕ) (b : Bool) (l : Link)
    → b ≡ true
    → id < l.next_peer
    → l.peer ≡ some id
    → let m = established_with (some id) b l in
      (m.peer ≡ some id) × Waits id l.now l.heartbeat_timeout_ms l.now m
come_up id true l e known p = (p, ground arith)
come_up id false l e known p = absurd (ground arith)

comes_up :
    (armed : Bool) (l : Link)
    → armed ≡ true
    → l.negotiating ≡ true
    → let m = negotiated_if armed l in
      let u = established_with m.peer m.negotiating m in
      (u.peer ≡ some l.next_peer) × Waits l.next_peer l.now l.heartbeat_timeout_ms l.now u
comes_up true l a n = come_up l.next_peer l.negotiating (negotiated_if true l) n (omega arith) refl
comes_up false l a n = absurd (ground arith)

up-IsSound : (l : Link) → IsSound l → IsSound (established (negotiated l))
unfolding established negotiated
up-IsSound l h =
    established-IsSound (negotiated_if l.armed l).peer (negotiated_if l.armed l).negotiating
      (negotiated_if l.armed l) refl refl (negotiated_if-IsSound l.armed l refl h)

-- From any state in which the wallet is awaited.
silent_from :
    (m : Link) (es : List LinkEvent)
    → let l = established (negotiated m) in
      m.armed ≡ true
      → m.negotiating ≡ true
      → IsSound m
      → ArePrompt l es
      → All IsSilent es
      → m.heartbeat_timeout_ms * heartbeat_hard_timeout_factor < elapsed es
      → (l.peer ≡ some m.next_peer)
        × (holds m.next_peer (run l (es ++ beats true ∷ [])).peer ≡ false)
unfolding established negotiated step
silent_from m es armed under_way h q s late =
    let l = established (negotiated m) in
    let (p, w) = comes_up m.armed m armed under_way in
    (
      p,
      rw (run-last l es (beats true)) (
          last_beat m.next_peer m.now m.heartbeat_timeout_ms (m.now + elapsed es) (run l es)
            (omega arith) (run-IsSound l es q (up-IsSound m h))
            (run-Waits m.next_peer m.now m.heartbeat_timeout_ms m.now l es q s (up-IsSound m h) w)),
    )

-- A wallet that came up and was not heard of for more than four heartbeat timeouts is given up by the
-- next beat of a heartbeat channel that is still open, whatever the signaling server said of it
-- meanwhile and whatever else happened to the link, if no consumer closed a channel while `connect`
-- was in flight.
pub silent_peer_ends :
    (timeout_ms : ℕ) (before es : List LinkEvent)
    → let m = run (start_pairing timeout_ms) before in
      let l = established (negotiated m) in
      m.armed ≡ true
      → m.negotiating ≡ true
      → ArePrompt (start_pairing timeout_ms) before
      → ArePrompt l es
      → All IsSilent es
      → m.heartbeat_timeout_ms * heartbeat_hard_timeout_factor < elapsed es
      → (l.peer ≡ some m.next_peer)
        × (holds m.next_peer (run l (es ++ beats true ∷ [])).peer ≡ false)
silent_peer_ends timeout_ms before es armed under_way q qs s late =
    silent_from (run (start_pairing timeout_ms) before) es armed under_way
      (run-IsSound (start_pairing timeout_ms) before q (start-IsSound timeout_ms)) qs s late

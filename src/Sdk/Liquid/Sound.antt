-- ===== src/Sdk/Liquid/Sound.antt =====
-- packages/ac2-sdk/src/providers/liquid-auth.ts: the phases are kept, so that the heartbeat's interval
-- runs exactly while the link is up.
use ac.Common.{ℕ, ◌≡◌, ◌⊎◌, inl, inr, refl, List, [], ◌∷◌, Bool, true, false, ◌&&◌, arith, is_some}
use ac.Sdk.Liquid.{
  Link, start_pairing, close_channel, connect, negotiated, rearm, established,
  connect_fails_for_good, link_message, on_presence, should_teardown_on_presence, offer_if,
  on_remote_offer, should_teardown_on_remote_offer, unstable_if, signaling_drops, returns_if,
  signaling_returns, stable_if, grace_ends, hears, silence_step, beat_if, beat, reconnect_if,
  wake_check,
}
use ac.Sdk.Liquid.Steps.{
  LinkEvent, connects, meets, rearms, establishes, fails, gives_up, disposes, links, counts, offers,
  drops, returns, settles_down, hears_peer, passes, wakes, closes, beats, step, run,
}
use ac.Sdk.Liquid.Phases.{
  idle, parked, met, gone, up, IsSound, connect_unless-IsSound, negotiated_if-IsSound,
  rearm_if-IsSound, established-IsSound, fails-IsSound, give_up-IsSound, dispose-IsSound,
  close_unless-IsSound, close_if-IsSound,
}

-- A presence event while `connect` is in flight is left alone.
presence_waits :
    (count : ℕ) (linked closed stable : Bool)
    → should_teardown_on_presence count linked closed false stable true ≡ false
unfolding should_teardown_on_presence
presence_waits count linked closed stable = ground arith

presence_in_flight :
    (count : ℕ) (l : Link) (b : Bool)
    → l.connected ≡ false
    → l.negotiating ≡ true
    → should_teardown_on_presence count l.peer_linked l.closed l.connected l.signaling_stable
        l.negotiating
      ≡ false
presence_in_flight count l b c n =
    rw (c, n) (presence_waits count l.peer_linked l.closed l.signaling_stable)

presence-IsSound : (l : Link) (count : ℕ) → IsSound l → IsSound (on_presence l count)
unfolding on_presence
presence-IsSound l count (idle c n b) = close_if-IsSound _ l (inr n) (idle c n b)
presence-IsSound l count (parked c n b d p) =
    close_if-IsSound _ l (inl (presence_in_flight count l true c n)) (parked c n b d p)
presence-IsSound l count (met id c n b d p a) =
    close_if-IsSound _ l (inl (presence_in_flight count l true c n)) (met id c n b d p a)
presence-IsSound l count (gone c n b s p a) =
    close_if-IsSound _ l (inl (presence_in_flight count l true c n)) (gone c n b s p a)
presence-IsSound l count (up id c n b d p a k) = close_if-IsSound _ l (inr n) (up id c n b d p a k)

offer_in_flight :
    (l : Link)
    → ((should_teardown_on_remote_offer l.connected l.negotiating l.closed) ≡ false)
      ⊎ (l.negotiating ≡ false)
unfolding should_teardown_on_remote_offer
offer_in_flight l = ground arith

offer_if-IsSound : (b : Bool) (l : Link) → IsSound l → IsSound (offer_if b l)
offer_if-IsSound false l h = h
offer_if-IsSound true l h = close_if-IsSound _ l (offer_in_flight l) h

silence-IsSound :
    (b : Bool) (l : Link) → l.negotiating ≡ false → IsSound l → IsSound (silence_step b l)
silence-IsSound true l n h = close_if-IsSound true l (inr n) h
silence-IsSound false l n h = h

beat_if-IsSound :
    (b channel_open : Bool) (l : Link)
    → l.heartbeat ≡ b
    → IsSound l
    → IsSound (beat_if b channel_open l)
beat_if-IsSound false channel_open l e h = h
beat_if-IsSound true false l e h = h
beat_if-IsSound true true l e (idle c n b) = absurd (ground arith)
beat_if-IsSound true true l e (parked c n b d p) = absurd (ground arith)
beat_if-IsSound true true l e (met id c n b d p a) = absurd (ground arith)
beat_if-IsSound true true l e (gone c n b s p a) = absurd (ground arith)
beat_if-IsSound true true l e (up id c n b d p a k) = silence-IsSound _ l n (up id c n b d p a k)

unstable_if-IsSound : (b : Bool) (l : Link) → IsSound l → IsSound (unstable_if b l)
unstable_if-IsSound false l h = h
unstable_if-IsSound true l h = h

returns_if-IsSound : (b : Bool) (l : Link) → IsSound l → IsSound (returns_if b l)
returns_if-IsSound false l h = h
returns_if-IsSound true l h = h

stable_if-IsSound : (b : Bool) (l : Link) → IsSound l → IsSound (stable_if b l)
stable_if-IsSound false l h = h
stable_if-IsSound true l h = h

reconnect_if-IsSound : (b : Bool) (l : Link) → IsSound l → IsSound (reconnect_if b l)
reconnect_if-IsSound false l h = h
reconnect_if-IsSound true l h = h

-- No channel is closed by its consumer while `connect` is in flight.
abbrev pub IsPrompt : Link → LinkEvent → Type 0
IsPrompt l (closes id) = l.negotiating ≡ false
IsPrompt l _ = Unit {0}

abbrev pub ArePrompt : Link → List LinkEvent → Type 0
ArePrompt l [] = Unit {0}
ArePrompt l (e ∷ es) = IsPrompt l e × ArePrompt (step l e) es

pub step-IsSound : (l : Link) (e : LinkEvent) → IsPrompt l e → IsSound l → IsSound (step l e)
unfolding step connect negotiated rearm established connect_fails_for_good link_message
    on_remote_offer signaling_drops signaling_returns grace_ends hears close_channel beat wake_check
step-IsSound l connects q h = connect_unless-IsSound l.negotiating l h
step-IsSound l meets q h = negotiated_if-IsSound l.armed l refl h
step-IsSound l rearms q h = rearm_if-IsSound (l.negotiating && l.listening) l refl h
step-IsSound l establishes q h = established-IsSound l.peer l.negotiating l refl refl h
step-IsSound l fails q h = fails-IsSound l h
step-IsSound l gives_up q h = give_up-IsSound l.negotiating l refl h
step-IsSound l disposes q h = dispose-IsSound l h
step-IsSound l (links wallet) q h = h
step-IsSound l (counts device_count) q h = presence-IsSound l device_count h
step-IsSound l offers q h = offer_if-IsSound l.listening l h
step-IsSound l drops q h = unstable_if-IsSound l.listening _ h
step-IsSound l returns q h = returns_if-IsSound l.listening l h
step-IsSound l settles_down q h = stable_if-IsSound l.signaling_grace_timer l h
step-IsSound l hears_peer q h = h
step-IsSound l (passes ms) q h = h
step-IsSound l (wakes elapsed) q h = reconnect_if-IsSound _ l h
step-IsSound l (closes id) q h = close_unless-IsSound l.closed id l q h
step-IsSound l (beats channel_open) q h = beat_if-IsSound l.heartbeat channel_open l refl h

pub run-IsSound : (l : Link) (es : List LinkEvent) → ArePrompt l es → IsSound l → IsSound (run l es)
unfolding run
run-IsSound l [] q h = h
run-IsSound l (e ∷ es) (q, qs) h = run-IsSound (step l e) es qs (step-IsSound l e q h)

pub start-IsSound : (timeout_ms : ℕ) → IsSound (start_pairing timeout_ms)
start-IsSound timeout_ms = idle refl refl refl

timers_of :
    (l : Link)
    → IsSound l
    → (l.heartbeat ≡ l.connected)
      × ((l.connected ≡ false)
          ⊎ ((l.closed ≡ false) × (is_some l.peer ≡ true) × (l.close ≡ l.peer)))
timers_of l (idle c n b) = (rw (b, c), inl c)
timers_of l (parked c n b d p) = (rw (b, c), inl c)
timers_of l (met id c n b d p a) = (rw (b, c), inl c)
timers_of l (gone c n b s p a) = (rw (b, c), inl c)
timers_of l (up id c n b d p a k) = (rw (b, c), inr (d, rw p, rw (p, k)))

-- Whatever happens to a link, in any order, if no consumer closes a channel while `connect` is in
-- flight: the heartbeat's interval runs exactly while the link is up, and a link that is up is not
-- marked closed, has a peer, and the provider's own `close` is that of this peer.
pub heartbeat-connected :
    (timeout_ms : ℕ) (es : List LinkEvent)
    → ArePrompt (start_pairing timeout_ms) es
    → let l = run (start_pairing timeout_ms) es in
      (l.heartbeat ≡ l.connected)
      × ((l.connected ≡ false)
          ⊎ ((l.closed ≡ false) × (is_some l.peer ≡ true) × (l.close ≡ l.peer)))
heartbeat-connected timeout_ms es q =
    timers_of (run (start_pairing timeout_ms) es)
      (run-IsSound (start_pairing timeout_ms) es q (start-IsSound timeout_ms))

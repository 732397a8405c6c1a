-- ===== src/Sdk/Liquid/Stale.antt =====
-- packages/ac2-sdk/src/providers/liquid-auth.ts: the channel of an earlier link is closed late. All the
-- `close` functions of a provider share one flag and one peer.
use ac.Common.{
  ℕ, ◌≡◌, refl, Option, none, some, List, [], ◌∷◌, Bool, true, false, ◌&&◌, All, arith, nat_eq,
}
use ac.Sdk.Liquid.{
  Link, close_unless, close_channel, close_of, close_if, negotiated_if, negotiated, rearm_if, rearm,
  established_with, established, connect_fails, give_up_if, connect_fails_for_good, link_message,
  on_presence, offer_if, on_remote_offer, unstable_if, signaling_drops, returns_if,
  signaling_returns, stable_if, grace_ends, hears, silence_step, beat_if, beat, reconnect_if,
  wake_check,
}
use ac.Sdk.Liquid.Steps.{
  LinkEvent, connects, meets, rearms, establishes, fails, gives_up, disposes, links, counts, offers,
  drops, returns, settles_down, hears_peer, passes, wakes, closes, beats, step, run,
}

-- Up, and marked closed.
record IsStuck (id : ℕ) (l : Link) : Type 0 where
  up : l.peer ≡ some id
  marked : l.closed ≡ true
  idle : l.negotiating ≡ false
  taken : l.armed ≡ false

-- All but a new `connect` and the end of the provider.
abbrev pub IsHandled : LinkEvent → Type 0
IsHandled connects = ⊥
IsHandled disposes = ⊥
IsHandled _ = Unit {0}

module _ (id : ℕ) where
  close_unless-IsStuck :
      (b : Bool) (k : ℕ) (l : Link) → l.closed ≡ b → IsStuck id l → IsStuck id (close_unless b k l)
  close_unless-IsStuck true k l e s = s
  close_unless-IsStuck false k l e s = absurd (ground arith)

  close_of-IsStuck : (k : Option ℕ) (l : Link) → IsStuck id l → IsStuck id (close_of k l)
  unfolding close_channel
  close_of-IsStuck none l s = s
  close_of-IsStuck (some k) l s = close_unless-IsStuck l.closed k l refl s

  close_if-IsStuck : (b : Bool) (l : Link) → IsStuck id l → IsStuck id (close_if b l)
  unfolding close_if
  close_if-IsStuck false l s = s
  close_if-IsStuck true l s = close_of-IsStuck l.close l s

  meets-IsStuck :
      (b : Bool) (l : Link) → l.armed ≡ b → IsStuck id l → IsStuck id (negotiated_if b l)
  meets-IsStuck false l e s = s
  meets-IsStuck true l e s = absurd (ground arith)

  rearm-IsStuck :
      (b c : Bool) (l : Link) → l.negotiating ≡ b → IsStuck id l → IsStuck id (rearm_if (b && c) l)
  rearm-IsStuck false c l e s = s
  rearm-IsStuck true c l e s = absurd (ground arith)

  give_up-IsStuck :
      (b : Bool) (l : Link) → l.negotiating ≡ b → IsStuck id l → IsStuck id (give_up_if b l)
  give_up-IsStuck false l e s = s
  give_up-IsStuck true l e s = absurd (ground arith)

  establishes-IsStuck :
      (peer : Option ℕ) (b : Bool) (l : Link)
      → l.negotiating ≡ b
      → IsStuck id l
      → IsStuck id (established_with peer b l)
  establishes-IsStuck none b l e s = s
  establishes-IsStuck (some k) false l e s = s
  establishes-IsStuck (some k) true l e s = absurd (ground arith)

  offer-IsStuck : (b : Bool) (l : Link) → IsStuck id l → IsStuck id (offer_if b l)
  offer-IsStuck false l s = s
  offer-IsStuck true l s = close_if-IsStuck _ l s

  silence-IsStuck : (b : Bool) (l : Link) → IsStuck id l → IsStuck id (silence_step b l)
  silence-IsStuck true l s = close_if-IsStuck true l s
  silence-IsStuck false l s = ground arith

  beat-IsStuck :
      (b channel_open : Bool) (l : Link) → IsStuck id l → IsStuck id (beat_if b channel_open l)
  beat-IsStuck false channel_open l s = s
  beat-IsStuck true false l s = s
  beat-IsStuck true true l s = silence-IsStuck _ l s

  signals-IsStuck :
      (b : Bool) (l : Link)
      → IsStuck id l
      → IsStuck id (unstable_if b l)
        × IsStuck id (returns_if b l)
        × IsStuck id (stable_if b l)
        × IsStuck id (reconnect_if b l)
  signals-IsStuck true l s = (ground arith, ground arith, ground arith, ground arith)
  signals-IsStuck false l s = (s, s, s, s)

  step-IsStuck : (l : Link) (e : LinkEvent) → IsHandled e → IsStuck id l → IsStuck id (step l e)
  unfolding step negotiated rearm established connect_fails connect_fails_for_good link_message
      on_presence on_remote_offer signaling_drops signaling_returns grace_ends hears close_channel
      beat wake_check
  step-IsStuck l connects q s = absurd q
  step-IsStuck l disposes q s = absurd q
  step-IsStuck l meets q s = meets-IsStuck l.armed l refl s
  step-IsStuck l rearms q s = rearm-IsStuck l.negotiating l.listening l refl s
  step-IsStuck l establishes q s = establishes-IsStuck l.peer l.negotiating l refl s
  step-IsStuck l fails q s = ground arith
  step-IsStuck l gives_up q s = give_up-IsStuck l.negotiating l refl s
  step-IsStuck l (links wallet) q s = ground arith
  step-IsStuck l (counts device_count) q s = close_if-IsStuck _ l s
  step-IsStuck l offers q s = offer-IsStuck l.listening l s
  step-IsStuck l drops q s =
      (signals-IsStuck l.listening (record l { signaling_connected = false }) (ground arith)).0
  step-IsStuck l returns q s = (signals-IsStuck l.listening l s).1
  step-IsStuck l settles_down q s = (signals-IsStuck l.signaling_grace_timer l s).2
  step-IsStuck l hears_peer q s = ground arith
  step-IsStuck l (passes ms) q s = ground arith
  step-IsStuck l (wakes elapsed) q s = (signals-IsStuck _ l s).3
  step-IsStuck l (closes k) q s = close_unless-IsStuck l.closed k l refl s
  step-IsStuck l (beats channel_open) q s = beat-IsStuck l.heartbeat channel_open l s

  run-IsStuck :
      (l : Link) (es : List LinkEvent) → All IsHandled es → IsStuck id l → IsStuck id (run l es)
  unfolding run
  run-IsStuck l [] q s = s
  run-IsStuck l (e ∷ es) (q, qs) s = run-IsStuck (step l e) es qs (step-IsStuck l e q s)

established-IsStuck :
    (id : ℕ) (b : Bool) (l : Link)
    → b ≡ true
    → l.peer ≡ some id
    → l.closed ≡ true
    → l.armed ≡ false
    → IsStuck id (established_with (some id) b l)
established-IsStuck id true l e p c a = ground arith
established-IsStuck id false l e p c a = absurd (ground arith)

-- A handshake under way is taken up again, and succeeds.
rearmed-IsStuck :
    (b : Bool) (l : Link)
    → b ≡ true
    → l.negotiating ≡ true
    → l.closed ≡ true
    → IsStuck l.next_peer (established (negotiated (rearm_if b l)))
unfolding established negotiated
rearmed-IsStuck true l e n c =
    established-IsStuck l.next_peer l.negotiating (negotiated_if true (rearm_if true l)) n refl c
      refl
rearmed-IsStuck false l e n c = absurd (ground arith)

closed-IsStuck :
    (k : ℕ) (b : Bool) (l : Link)
    → b ≡ false
    → l.negotiating ≡ true
    → l.listening ≡ true
    → IsStuck l.next_peer (established (negotiated (rearm (close_unless b k l))))
unfolding rearm
closed-IsStuck k false l e n h =
    rearmed-IsStuck (l.negotiating && l.listening) (close_unless false k l) (ground arith) n refl
closed-IsStuck k true l e n h = absurd (ground arith)

-- While a wallet is awaited, the channel of an earlier link is closed; then the signaling drops, and
-- `connect` takes the handshake up again and succeeds. The link that comes up can be ended by nothing
-- but a new `connect` or the end of the provider: neither the presence of the wallet, nor its new
-- offers, nor any silence, nor its own `close`, whatever the order of these.
pub late_close-sticks :
    (m : Link) (k : ℕ) (es : List LinkEvent)
    → m.closed ≡ false
    → m.negotiating ≡ true
    → m.listening ≡ true
    → All IsHandled es
    → (run m (closes k ∷ rearms ∷ meets ∷ establishes ∷ es)).peer ≡ some m.next_peer
unfolding run step close_channel
late_close-sticks m k es c n h q =
    (run-IsStuck m.next_peer (established (negotiated (rearm (close_unless m.closed k m)))) es q
      (closed-IsStuck k m.closed m c n h)).up

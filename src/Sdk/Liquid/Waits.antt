-- ===== src/Sdk/Liquid/Waits.antt =====
-- packages/ac2-sdk/src/providers/liquid-auth.ts: how long a peer has been silent.
use ac.Common.{
  or_else, ℕ, ◌+◌, ◌<◌, ◌≡◌, ◌⊎◌, inl, inr, refl, Option, none, some, List, [], ◌∷◌, All, Bool,
  true, false, ◌&&◌, nat_beq, arith,
}
use ac.Sdk.Liquid.{
  Link, close_unless, close_channel, close_of, close_if, dispose, connect_unless, connect,
  negotiated_if, negotiated, rearm_if, rearm, established_with, established, connect_fails,
  give_up_if, connect_fails_for_good, link_message, on_presence, offer_if, on_remote_offer,
  unstable_if, signaling_drops, returns_if, signaling_returns, stable_if, grace_ends, hears,
  silence_step, beat_if, beat, reconnect_if, wake_check,
}
use ac.Sdk.Liquid.Steps.{
  LinkEvent, connects, meets, rearms, establishes, fails, gives_up, disposes, links, counts, offers,
  drops, returns, settles_down, hears_peer, passes, wakes, closes, beats, step, run,
}
use ac.Sdk.Liquid.Phases.{idle, parked, met, gone, up, IsSound}
use ac.Sdk.Liquid.Sound.{ArePrompt, step-IsSound}

abbrev pub holds : ℕ → Option ℕ → Bool
holds id none = false
holds id (some k) = nat_beq k id

-- The milliseconds that pass.
abbrev pub elapsed : List LinkEvent → ℕ
elapsed [] = 0
elapsed (passes ms ∷ es) = ms + elapsed es
elapsed (_ ∷ es) = elapsed es

-- Nothing comes in on the heartbeat channel.
abbrev pub IsSilent : LinkEvent → Type 0
IsSilent hears_peer = ⊥
IsSilent _ = Unit {0}

-- At the time `n`, the peer `id` is gone or silent since `since`.
pub record Waits (id since timeout n : ℕ) (l : Link) : Type 0 where
  pub known : id < l.next_peer
  pub timed : l.heartbeat_timeout_ms ≡ timeout
  pub clock : l.now ≡ n
  pub silent : (holds id l.peer ≡ false) ⊎ ((l.last_inbound_at ≡ since) × (l.connected ≡ true))

module _ (id since timeout n : ℕ) where
  close_unless-Waits :
      (b : Bool) (k : ℕ) (l : Link)
      → Waits id since timeout n l
      → Waits id since timeout n (close_unless b k l)
  close_unless-Waits true k l w = w
  close_unless-Waits false k l w = ground arith

  negotiated_if-Waits :
      (b : Bool) (l : Link)
      → Waits id since timeout n l
      → (b ≡ false) ⊎ (l.connected ≡ false)
      → Waits id since timeout n (negotiated_if b l)
  negotiated_if-Waits b l w s = ground arith

  connect_unless-Waits :
      (b : Bool) (l : Link)
      → Waits id since timeout n l
      → Waits id since timeout n (or_else (connect_unless b l) l)
  connect_unless-Waits b l w = ground arith

  rearm_if-Waits :
      (b : Bool) (l : Link) → Waits id since timeout n l → Waits id since timeout n (rearm_if b l)
  rearm_if-Waits b l w = ground arith

  established-Waits :
      (peer : Option ℕ) (b : Bool) (l : Link)
      → l.peer ≡ peer
      → Waits id since timeout n l
      → (b ≡ false) ⊎ (l.connected ≡ false)
      → Waits id since timeout n (established_with peer b l)
  established-Waits none b l p w s = w
  established-Waits (some k) b l p w s = ground arith

  give_up_if-Waits :
      (b : Bool) (l : Link) → Waits id since timeout n l → Waits id since timeout n (give_up_if b l)
  give_up_if-Waits b l w = ground arith

  close_of-Waits :
      (k : Option ℕ) (l : Link)
      → Waits id since timeout n l
      → Waits id since timeout n (close_of k l)
  unfolding close_channel
  close_of-Waits none l w = w
  close_of-Waits (some k) l w = close_unless-Waits l.closed k l w

  close_if-Waits :
      (b : Bool) (l : Link) → Waits id since timeout n l → Waits id since timeout n (close_if b l)
  unfolding close_if
  close_if-Waits false l w = w
  close_if-Waits true l w = close_of-Waits l.close l w

  offer_if-Waits :
      (b : Bool) (l : Link) → Waits id since timeout n l → Waits id since timeout n (offer_if b l)
  offer_if-Waits false l w = w
  offer_if-Waits true l w = close_if-Waits _ l w

  silence-Waits :
      (b : Bool) (l : Link)
      → Waits id since timeout n l
      → Waits id since timeout n (silence_step b l)
  silence-Waits true l w = close_if-Waits true l w
  silence-Waits false l w = ground arith

  beat_if-Waits :
      (b channel_open : Bool) (l : Link)
      → Waits id since timeout n l
      → Waits id since timeout n (beat_if b channel_open l)
  beat_if-Waits false channel_open l w = w
  beat_if-Waits true false l w = w
  beat_if-Waits true true l w = silence-Waits _ l w

  signals-Waits :
      (b : Bool) (l : Link)
      → Waits id since timeout n l
      → Waits id since timeout n (unstable_if b l)
        × Waits id since timeout n (returns_if b l)
        × Waits id since timeout n (stable_if b l)
        × Waits id since timeout n (reconnect_if b l)
  signals-Waits true l w = (ground arith, ground arith, ground arith, ground arith)
  signals-Waits false l w = (w, w, w, w)

-- Of the link's phases, none takes up a second peer.
armed_of : (l : Link) → IsSound l → (l.armed ≡ false) ⊎ (l.connected ≡ false)
armed_of l (idle c m b) = inr c
armed_of l (parked c m b d p) = inr c
armed_of l (met k c m b d p a) = inr c
armed_of l (gone c m b s p a) = inr c
armed_of l (up k c m b d p a e) = inl a

negotiating_of : (l : Link) → IsSound l → (l.negotiating ≡ false) ⊎ (l.connected ≡ false)
negotiating_of l (idle c m b) = inr c
negotiating_of l (parked c m b d p) = inr c
negotiating_of l (met k c m b d p a) = inr c
negotiating_of l (gone c m b s p a) = inr c
negotiating_of l (up k c m b d p a e) = inl m

abbrev pub after : LinkEvent → ℕ → ℕ
after (passes ms) n = n + ms
after _ n = n

step-Waits :
    (id since timeout n : ℕ) (l : Link) (e : LinkEvent)
    → IsSilent e
    → IsSound l
    → Waits id since timeout n l
    → Waits id since timeout (after e n) (step l e)
unfolding step connect negotiated rearm established connect_fails connect_fails_for_good dispose
    link_message on_presence on_remote_offer signaling_drops signaling_returns grace_ends hears
    close_channel beat wake_check
step-Waits id since timeout n l connects q h w =
    connect_unless-Waits id since timeout n l.negotiating l w
step-Waits id since timeout n l meets q h w =
    negotiated_if-Waits id since timeout n l.armed l w (armed_of l h)
step-Waits id since timeout n l rearms q h w =
    rearm_if-Waits id since timeout n (l.negotiating && l.listening) l w
step-Waits id since timeout n l establishes q h w =
    established-Waits id since timeout n l.peer l.negotiating l refl w (negotiating_of l h)
step-Waits id since timeout n l fails q h w = ground arith
step-Waits id since timeout n l gives_up q h w =
    give_up_if-Waits id since timeout n l.negotiating l w
step-Waits id since timeout n l disposes q h w = ground arith
step-Waits id since timeout n l (links wallet) q h w = ground arith
step-Waits id since timeout n l (counts device_count) q h w =
    close_if-Waits id since timeout n _ l w
step-Waits id since timeout n l offers q h w = offer_if-Waits id since timeout n l.listening l w
step-Waits id since timeout n l drops q h w =
    (signals-Waits id since timeout n l.listening (record l { signaling_connected = false })
      (ground arith)).0
step-Waits id since timeout n l returns q h w = (signals-Waits id since timeout n l.listening l w).1
step-Waits id since timeout n l settles_down q h w =
    (signals-Waits id since timeout n l.signaling_grace_timer l w).2
step-Waits id since timeout n l hears_peer q h w = absurd q
step-Waits id since timeout n l (passes ms) q h w = ground arith
step-Waits id since timeout n l (wakes elapsed) q h w = (signals-Waits id since timeout n _ l w).3
step-Waits id since timeout n l (closes k) q h w =
    close_unless-Waits id since timeout n l.closed k l w
step-Waits id since timeout n l (beats channel_open) q h w =
    beat_if-Waits id since timeout n l.heartbeat channel_open l w

sum_none : (n : ℕ) → n + 0 ≡ n
sum_none n = omega arith

sum_elapsed :
    (e : LinkEvent) (es : List LinkEvent) (n : ℕ) → n + elapsed (e ∷ es) ≡ after e n + elapsed es
sum_elapsed (passes ms) es n = omega arith
sum_elapsed _ es n = refl

pub run-Waits :
    (id since timeout n : ℕ) (l : Link) (es : List LinkEvent)
    → ArePrompt l es
    → All IsSilent es
    → IsSound l
    → Waits id since timeout n l
    → Waits id since timeout (n + elapsed es) (run l es)
unfolding run
run-Waits id since timeout n l [] q s h w = rw (sum_none n) w
run-Waits id since timeout n l (e ∷ es) (q, qs) (s, ss) h w = rw (sum_elapsed e es n) (
    run-Waits id since timeout (after e n) (step l e) es qs ss (step-IsSound l e q h)
      (step-Waits id since timeout n l e s h w))

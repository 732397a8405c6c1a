-- ===== src/Sdk/Liquid/Steps.antt =====
-- packages/ac2-sdk/src/providers/liquid-auth.ts: all that can happen to a link.
use ac.Common.{or_else, ℕ, ◌+◌, String, Option, List, [], ◌∷◌, Bool}
use ac.Sdk.Liquid.{
  Link, close_channel, dispose, connect, negotiated, rearm, established, connect_fails,
  connect_fails_for_good, link_message, on_presence, on_remote_offer, signaling_drops,
  signaling_returns, grace_ends, hears, beat, wake_check,
}

pub data LinkEvent : Type 0 where
  connects meets rearms establishes fails gives_up disposes : LinkEvent
  links : Option String → LinkEvent
  counts : ℕ → LinkEvent
  offers drops returns settles_down hears_peer : LinkEvent
  passes wakes closes : ℕ → LinkEvent
  beats : Bool → LinkEvent

unfoldable pub step : Link → LinkEvent → Link
unfolding connect negotiated rearm established connect_fails connect_fails_for_good dispose
    link_message on_presence on_remote_offer signaling_drops signaling_returns grace_ends hears
    close_channel beat wake_check
step l connects = or_else (connect l) l
step l meets = negotiated l
step l rearms = rearm l
step l establishes = established l
step l fails = connect_fails l
step l gives_up = connect_fails_for_good l
step l disposes = dispose l
step l (links wallet) = link_message l wallet
step l (counts device_count) = on_presence l device_count
step l offers = on_remote_offer l
step l drops = signaling_drops l
step l returns = signaling_returns l
step l settles_down = grace_ends l
step l hears_peer = hears l
step l (passes ms) = record l { now = l.now + ms }
step l (wakes elapsed) = wake_check l elapsed
step l (closes id) = close_channel l id
step l (beats channel_open) = beat l channel_open

unfoldable pub run : Link → List LinkEvent → Link
unfolding step
run l [] = l
run l (e ∷ es) = run (step l e) es

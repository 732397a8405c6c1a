-- ===== src/Sdk/Liquid/Settlement.antt =====
-- packages/ac2-sdk/src/providers/liquid-auth.ts: the three promises that wait for the signaling socket,
-- `awaitSignalConnect`, `awaitSignalingUp` and `withSignalingHealthGuard`. `failures` counts the calls
-- of `onFailure`.
use ac.Common.{
  first_of, when, ℕ, suc, ◌≡◌, refl, ap, String, Option, none, some, List, [], ◌∷◌, if◌then◌else◌,
  Bool, true, false, not, ◌&&◌, string_eq, contains,
}

-- `SignalingConnectError`, by its code and `reconnectable`.
pub data Refusal : Type 0 where
  timeout aborted : Refusal
  signaling_dropped : Bool → Refusal

-- `failed`: the promise that is guarded was rejected.
pub data Outcome : Type 0 where
  resolved failed : Outcome
  refused : Refusal → Outcome

pub record Settlement : Type 0 where
  pub outcome : Option Outcome
  pub failures : ℕ

abbrev pub unsettled : Settlement
unsettled = record { outcome = none; failures = 0 }

pub data SignalEvent : Type 0 where
  connects aborts times_out fulfils rejects : SignalEvent
  disconnects : Option String → SignalEvent

abbrev pub terminal_disconnect_reasons : List String
terminal_disconnect_reasons = "io server disconnect" ∷ "io client disconnect" ∷ []

unfoldable pub reconnectable : Option String → Bool
unfolding contains
reconnectable none = true
reconnectable (some reason) = not (contains terminal_disconnect_reasons reason)

-- Whether `onFailure` is called.
abbrev pub tears : Outcome → Bool
tears resolved = false
tears failed = false
tears (refused timeout) = true
tears (refused aborted) = true
tears (refused (signaling_dropped again)) = not again

abbrev pub settle_with : Option Outcome → Outcome → Settlement → Settlement
settle_with (some old) o s = s
settle_with none o s = record s {
  outcome = some o;
  failures = if tears o then suc s.failures else s.failures;
}

-- The first settles; the listeners of a promise that is settled do nothing.
unfoldable pub settle : Settlement → Outcome → Settlement
settle s o = settle_with s.outcome o s

abbrev pub settle_if : Option Outcome → Settlement → Settlement
settle_if none s = s
settle_if (some o) s = settle s o

-- `awaitSignalConnect`; `timed`: the timeout is a positive number.
unfoldable pub await_signal_connect : Bool → SignalEvent → Option Outcome
await_signal_connect timed connects = some resolved
await_signal_connect timed aborts = some (refused aborted)
await_signal_connect timed times_out = when timed (some (refused timeout))
await_signal_connect timed _ = none

-- `awaitSignalingUp`.
unfoldable pub await_signaling_up : SignalEvent → Option Outcome
await_signaling_up connects = some resolved
await_signaling_up aborts = some (refused aborted)
await_signaling_up times_out = some (refused timeout)
await_signaling_up _ = none

-- `withSignalingHealthGuard`.
unfoldable pub with_signaling_health_guard : SignalEvent → Option Outcome
unfolding reconnectable
with_signaling_health_guard fulfils = some resolved
with_signaling_health_guard rejects = some failed
with_signaling_health_guard aborts = some (refused aborted)
with_signaling_health_guard (disconnects reason) =
    some (refused (signaling_dropped (reconnectable reason)))
with_signaling_health_guard _ = none

-- What the promise settles with before it listens.
abbrev pub at_once : Bool → Option Outcome
at_once aborted_before = when aborted_before (some (refused aborted))

abbrev pub at_once_up : Bool → Bool → Option Outcome
at_once_up aborted_before up =
    if up && not aborted_before then some resolved else at_once aborted_before

-- `down`: the socket says that it is not connected.
abbrev pub at_once_guard : Bool → Bool → Option Outcome
at_once_guard aborted_before down =
    first_of (at_once aborted_before) (when down (some (refused (signaling_dropped true))))

unfoldable pub settles : (SignalEvent → Option Outcome) → List SignalEvent → Settlement → Settlement
unfolding settle
settles verdict [] s = s
settles verdict (e ∷ es) s = settles verdict es (settle_if (verdict e) s)

unfoldable pub signal_connect : Bool → Bool → List SignalEvent → Settlement
unfolding settles settle
signal_connect aborted_before timed es =
    settles (await_signal_connect timed) es (settle_if (at_once aborted_before) unsettled)

unfoldable pub signaling_up : Bool → Bool → List SignalEvent → Settlement
unfolding settles settle
signaling_up aborted_before up es =
    settles await_signaling_up es (settle_if (at_once_up aborted_before up) unsettled)

unfoldable pub health_guard : Bool → Bool → List SignalEvent → Settlement
unfolding settles settle
health_guard aborted_before down es =
    settles with_signaling_health_guard es (settle_if (at_once_guard aborted_before down) unsettled)

-- The first event that decides.
abbrev pub first_verdict : (SignalEvent → Option Outcome) → List SignalEvent → Option Outcome
first_verdict verdict [] = none
first_verdict verdict (e ∷ es) = first_of (verdict e) (first_verdict verdict es)

-- How often `onFailure` is due.
abbrev pub calls : Option Outcome → ℕ
calls none = 0
calls (some o) = if tears o then 1 else 0

-- What is due after an outcome, or none yet.
abbrev due : Option Outcome → Settlement
due o = record { outcome = o; failures = calls o }

settle_due : (v : Option Outcome) (o : Outcome) → settle_if v (due (some o)) ≡ due (some o)
unfolding settle
settle_due none o = refl
settle_due (some p) o = refl

settle_first : (o : Outcome) → settle unsettled o ≡ due (some o)
unfolding settle
settle_first o = refl

module _ (verdict : SignalEvent → Option Outcome) where
  settles_kept :
      (es : List SignalEvent) (o : Outcome) → settles verdict es (due (some o)) ≡ due (some o)
  unfolding settles
  settles_kept [] o = refl
  settles_kept (e ∷ es) o = rw (settle_due (verdict e) o) (settles_kept es o)

  settles_after :
      (v : Option Outcome) (es : List SignalEvent)
      → settles verdict es unsettled ≡ due (first_verdict verdict es)
      → settles verdict es (settle_if v unsettled) ≡ due (first_of v (first_verdict verdict es))
  settles_after none es h = h
  settles_after (some o) es h = rw (settle_first o) (settles_kept es o)

  settles-first :
      (es : List SignalEvent) → settles verdict es unsettled ≡ due (first_verdict verdict es)
  unfolding settles
  settles-first [] = refl
  settles-first (e ∷ es) = settles_after (verdict e) es (settles-first es)

  settled_by :
      (v : Option Outcome) (es : List SignalEvent)
      → let s = settles verdict es (settle_if v unsettled) in
        let o = first_of v (first_verdict verdict es) in (s.outcome ≡ o) × (s.failures ≡ calls o)
  settled_by v es =
      let h = settles_after v es (settles-first es) in
      (ap (λ (s : Settlement). s.outcome) h, ap (λ (s : Settlement). s.failures) h)

pub promises-first :
    (aborted_before up timed : Bool) (es : List SignalEvent)
    → let a = first_of (at_once aborted_before) (first_verdict (await_signal_connect timed) es) in
      let u = first_of (at_once_up aborted_before up) (first_verdict await_signaling_up es) in
      let g =
        first_of
          (at_once_guard aborted_before (not up))
          (first_verdict with_signaling_health_guard es) in
      (((signal_connect aborted_before timed es).outcome ≡ a)
        × ((signal_connect aborted_before timed es).failures ≡ calls a))
      × (((signaling_up aborted_before up es).outcome ≡ u)
          × ((signaling_up aborted_before up es).failures ≡ calls u))
      × (((health_guard aborted_before (not up) es).outcome ≡ g)
          × ((health_guard aborted_before (not up) es).failures ≡ calls g))
unfolding signal_connect signaling_up health_guard
promises-first aborted_before up timed es = (
  settled_by (await_signal_connect timed) (at_once aborted_before) es,
  settled_by await_signaling_up (at_once_up aborted_before up) es,
  settled_by with_signaling_health_guard (at_once_guard aborted_before (not up)) es,
)

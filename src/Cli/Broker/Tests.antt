-- ===== src/Cli/Broker/Tests.antt =====
-- The theorems on the broker at runs of its loop and at a foreign wallet.
use ac.Common.{
  ◌≡◌, ◌≢◌, ◌≤◌, String, none, some, List, [], ◌∷◌, true, false, arith, All, leb, if◌then◌else◌,
}
use text.Mathlib.TextEquality.{eq_iff}
use ac.Cli.Broker.{
  Broker, init, refused, control, stream, unavailable_locked, decide_controller_binding,
  session_opens, session_connects, apply_decision, request,
}
use ac.Cli.Broker.Backoff.{
  Pass, Throttled, session, rebuild_fails, first_ramp, ramp_after, delays, delays-Throttled,
  cooling_iff,
}
use ac.Cli.Broker.Locked.{receive_all, foreign_session_locked}

abbrev bad_night : List Pass
bad_night = session true false ∷ rebuild_fails ∷ session false false ∷ session false true ∷ []

delays-Throttled_example : All Throttled (delays first_ramp bad_night)
delays-Throttled_example = delays-Throttled bad_night

cooling_iff_example :
    (leb 8 (ramp_after first_ramp bad_night).consecutive_failures
      ≡ (ramp_after first_ramp bad_night).cooling)
    × ((if (ramp_after first_ramp bad_night).cooling then 300000 else 2000)
        ≤ (ramp_after first_ramp bad_night).backoff_ms)
    × ((ramp_after first_ramp bad_night).backoff_ms
        ≤ (if (ramp_after first_ramp bad_night).cooling then 300000 else 30000))
cooling_iff_example = cooling_iff bad_night

abbrev first_wallet : String
first_wallet = "did:key:zfirst"

abbrev other_wallet : String
other_wallet = "did:key:zother"

wallets_apart : other_wallet ≢ first_wallet
wallets_apart e = ground (arith, eq_iff other_wallet first_wallet, e)

abbrev foreign : Broker
foreign = session_connects (
    apply_decision (session_opens init (some other_wallet) none)
      (decide_controller_binding (some first_wallet) (some other_wallet) true) refused)

foreign_session_locked_example :
    (receive_all foreign ((control, ("hi", false)) ∷ (stream, ("hi", false)) ∷ []) ≡ foreign)
    × (request foreign (record { type_name = "ac2/KeyRequest"; expires_in_seconds = none })
        ≡ unavailable_locked)
    × (foreign.identity_granted ≡ false)
    × (foreign.agent_did ≡ none)
foreign_session_locked_example =
    foreign_session_locked init first_wallet other_wallet none true refused
      ((control, ("hi", false)) ∷ (stream, ("hi", false)) ∷ [])
      (record { type_name = "ac2/KeyRequest"; expires_in_seconds = none }) wallets_apart

-- ===== src/Cli/Broker/Backoff.antt =====
-- packages/ac2-cli/src/daemon/broker.ts: the delays of `runCycleLoop`.
use ac.Common.{
  ℕ, suc, ◌*◌, ◌≤◌, ◌≡◌, refl, List, [], ◌∷◌, ◌++◌, if◌then◌else◌, Bool, true, false, not, ◌&&◌,
  leb, min, arith, All, All-append,
}

abbrev pub backoff_initial_ms : ℕ
backoff_initial_ms = 2000

abbrev pub backoff_max_ms : ℕ
backoff_max_ms = 30000

abbrev pub failures_before_cooldown : ℕ
failures_before_cooldown = 8

abbrev pub cooldown_retry_ms : ℕ
cooldown_retry_ms = 300000

-- The loop's variables.
pub record Ramp : Type 0 where
  pub backoff_ms : ℕ
  pub consecutive_failures : ℕ
  pub cooling : Bool

abbrev pub first_ramp : Ramp
first_ramp = record { backoff_ms = backoff_initial_ms; consecutive_failures = 0; cooling = false }

abbrev pub ceiling_ms : Ramp → ℕ
ceiling_ms r = if r.cooling then cooldown_retry_ms else backoff_max_ms

abbrev pub enter_cooldown : Ramp → Ramp
enter_cooldown r = record r { cooling = true; backoff_ms = cooldown_retry_ms }

unfoldable pub note_failure : Ramp → Ramp
note_failure r =
    let counted : Ramp = record r { consecutive_failures = suc r.consecutive_failures } in
    if not r.cooling && leb failures_before_cooldown (suc r.consecutive_failures)
    then enter_cooldown counted
    else counted

abbrev pub note_success : Ramp → Ramp
note_success r = first_ramp

-- `backoffMs = Math.min(backoffMs * 2, ceilingMs())`, after a sleep.
unfoldable pub doubled : Ramp → Ramp
doubled r = record r { backoff_ms = min (r.backoff_ms * 2) (ceiling_ms r) }

-- A pass of the loop, by whether the session reached `connected` and whether signaling survived it,
-- or a failed rebuild of the pairing.
pub data Pass : Type 0 where
  session : Bool → Bool → Pass
  rebuild_fails : Pass

unfoldable pub pass : Ramp → Pass → Ramp
unfolding note_failure doubled
pass r (session true true) = note_success r
pass r (session true false) = doubled (note_success r)
pass r (session false alive) = doubled (note_failure r)
pass r rebuild_fails = doubled (note_failure r)

-- How long the pass sleeps.
unfoldable pub sleeps : Ramp → Pass → List ℕ
unfolding note_failure
sleeps r (session true true) = []
sleeps r (session true false) = (note_success r).backoff_ms ∷ []
sleeps r (session false alive) = (note_failure r).backoff_ms ∷ []
sleeps r rebuild_fails = (note_failure r).backoff_ms ∷ []

unfoldable pub ramp_after : Ramp → List Pass → Ramp
unfolding pass
ramp_after r [] = r
ramp_after r (p ∷ ps) = ramp_after (pass r p) ps

unfoldable pub delays : Ramp → List Pass → List ℕ
unfolding pass sleeps
delays r [] = []
delays r (p ∷ ps) = sleeps r p ++ delays (pass r p) ps

abbrev IsRamp : Ramp → Type 0
IsRamp r =
    (2000 ≤ r.backoff_ms)
    × (r.backoff_ms ≤ ceiling_ms r)
    × ((if r.cooling then 300000 else 2000) ≤ r.backoff_ms)
    × (leb 8 r.consecutive_failures ≡ r.cooling)

pass-IsRamp : (r : Ramp) (p : Pass) → IsRamp r → IsRamp (pass r p)
unfolding pass note_failure doubled
pass-IsRamp r (session true true) h = (omega arith, omega arith, omega arith, refl)
pass-IsRamp r (session true false) h = (omega arith, omega arith, omega arith, refl)
pass-IsRamp r (session false alive) h = (ground arith, ground arith, ground arith, ground arith)
pass-IsRamp r rebuild_fails h = (ground arith, ground arith, ground arith, ground arith)

abbrev pub Throttled : ℕ → Type 0
Throttled ms = (2000 ≤ ms) × (ms ≤ 300000)

sleeps-Throttled : (r : Ramp) (p : Pass) → IsRamp r → All Throttled (sleeps r p)
unfolding sleeps note_failure
sleeps-Throttled r (session true true) h = tt
sleeps-Throttled r (session true false) h = ((omega arith, omega arith), tt)
sleeps-Throttled r (session false alive) h = ((ground arith, ground arith), tt)
sleeps-Throttled r rebuild_fails h = ((ground arith, ground arith), tt)

delays-Throttled_from : (r : Ramp) (ps : List Pass) → IsRamp r → All Throttled (delays r ps)
unfolding delays
delays-Throttled_from r [] h = tt
delays-Throttled_from r (p ∷ ps) h =
    All-append Throttled (sleeps r p) _ (sleeps-Throttled r p h)
      (delays-Throttled_from (pass r p) ps (pass-IsRamp r p h))

first-IsRamp : IsRamp first_ramp
first-IsRamp = (omega arith, omega arith, omega arith, refl)

pub delays-Throttled : (ps : List Pass) → All Throttled (delays first_ramp ps)
delays-Throttled ps = delays-Throttled_from first_ramp ps first-IsRamp

ramp_after-IsRamp : (r : Ramp) (ps : List Pass) → IsRamp r → IsRamp (ramp_after r ps)
unfolding ramp_after
ramp_after-IsRamp r [] h = h
ramp_after-IsRamp r (p ∷ ps) h = ramp_after-IsRamp (pass r p) ps (pass-IsRamp r p h)

pub cooling_iff :
    (ps : List Pass)
    → let r = ramp_after first_ramp ps in
      (leb 8 r.consecutive_failures ≡ r.cooling)
      × ((if r.cooling then 300000 else 2000) ≤ r.backoff_ms)
      × (r.backoff_ms ≤ (if r.cooling then 300000 else 30000))
cooling_iff ps =
    let (_, most, least, counted) = ramp_after-IsRamp first_ramp ps first-IsRamp in
    (counted, least, most)

-- ===== src/Cli/Control/Restart.antt =====
-- packages/ac2-cli/src/control/agent.ts: what `ensureDaemonRunning` does about the daemon that it finds.
use ac.Common.{
  ℕ, ◌≡◌, ◌≢◌, String, Option, none, some, if◌then◌else◌, Bool, true, false, not, ◌==◌, ◌||◌,
  nat_beq, nat_beq_iff, string_eq, arith,
}

-- `FALLBACK_DAEMON_VERSION`.
abbrev pub fallback_daemon_version : String
fallback_daemon_version = "0.0.0-unknown"

-- A version that is known and differs; an empty one is not known.
unfoldable pub is_stale_daemon_version : Option String → Option String → Bool
is_stale_daemon_version none expected = false
is_stale_daemon_version (some running) none = false
is_stale_daemon_version (some running) (some expected) =
    not (running == "" || expected == fallback_daemon_version || running == expected)

unfoldable pub is_runtime_adapter_mismatch : Option String → Option String → Bool
is_runtime_adapter_mismatch running none = false
is_runtime_adapter_mismatch none (some expected) = false
is_runtime_adapter_mismatch (some running) (some expected) =
    not (expected == "" || running == "" || running == expected)

abbrev pub is_pid : Option ℕ → ℕ → Bool
is_pid none self = false
is_pid (some pid) self = nat_beq pid self

unfoldable pub is_self_hosted_daemon : Option ℕ → Option ℕ → ℕ → Bool
is_self_hosted_daemon reported pidfile self = is_pid reported self || is_pid pidfile self

-- What `daemonLiveness` reports.
pub record Liveness : Type 0 where
  pub control_socket : Bool
  pub running : Bool
  pub version : Option String
  pub runtime_adapter : Option String
  pub pid : Option ℕ

-- Return, log that it is left alone, stop a process and spawn, spawn, or poll.
pub data Course : Type 0 where
  uses embedded supervised spawns polls : Course
  restarts : ℕ → Course

abbrev pub stopped_pid : Option ℕ → ℕ → ℕ
stopped_pid none managed = managed
stopped_pid (some reported) managed = reported

abbrev pub managed_course : Option ℕ → Option ℕ → Course
managed_course reported none = supervised
managed_course reported (some managed) = restarts (stopped_pid reported managed)

unfoldable pub course : Liveness → Option String → Option String → Option ℕ → ℕ → Course
unfolding is_stale_daemon_version is_runtime_adapter_mismatch is_self_hosted_daemon
course found version adapter managed self =
    if not found.control_socket
    then if found.running then polls else spawns
    else if not (
        is_stale_daemon_version found.version version
        || is_runtime_adapter_mismatch found.runtime_adapter adapter)
    then uses
    else if is_self_hosted_daemon found.pid managed self
    then embedded
    else managed_course found.pid managed

managed_course-pid :
    (reported managed : Option ℕ) (self pid : ℕ)
    → is_self_hosted_daemon reported managed self ≡ false
    → managed_course reported managed ≡ restarts pid
    → (pid ≢ self) × (managed ≢ none)
unfolding is_self_hosted_daemon
managed_course-pid reported none self pid h e = absurd (cc)
managed_course-pid none (some managed) self pid h e =
    (ground (arith, nat_beq_iff managed self), ground arith)
managed_course-pid (some reported) (some managed) self pid h e =
    (ground (arith, nat_beq_iff reported self), ground arith)

-- A daemon is stopped only if it answers on the control socket, runs another known version or another
-- adapter than the caller expects, and has a pidfile; and the process that is stopped is never the
-- caller's own.
pub course-restarts :
    (found : Liveness) (version adapter : Option String) (managed : Option ℕ) (self pid : ℕ)
    → course found version adapter managed self ≡ restarts pid
    → (pid ≢ self)
      × (managed ≢ none)
      × (found.control_socket ≡ true)
      × ((is_stale_daemon_version found.version version
            || is_runtime_adapter_mismatch found.runtime_adapter adapter)
          ≡ true)
unfolding course
course-restarts found version adapter managed self pid e =
    ground (arith, managed_course-pid found.pid managed self pid)

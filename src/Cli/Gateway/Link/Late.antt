-- ===== src/Cli/Gateway/Link/Late.antt =====
-- packages/ac2-cli/src/runtime/gateway/adapter.ts: a close that is heard late.
use ac.Common.{
  ℕ, suc, ◌≡◌, ◌<◌, refl, none, some, true, false, nat_beq, nat_beq_iff, nat_eq, contains,
  filter_out, arith,
}
use ac.Cli.Gateway.Link.{
  Link, connect, schedule_reconnect, delay_of, fire_timer, handshake_fails, connection_closes,
}

-- A handshake fails, its connection is asked to close, and the timer gets the adapter a new client
-- before the close is heard. Then the late close sets the timer again, and the adapter replaces the
-- client that it has, which is still open and is never asked to close.
pub late_close-replaces_client :
    (l : Link) (a : ℕ)
    → l.client ≡ some a
    → l.stopped ≡ false
    → l.reconnect_timer ≡ none
    → a < l.next_connection
    → let b = l.next_connection in
      let m = fire_timer (connection_closes (fire_timer (handshake_fails l a)) a) in
      (m.client ≡ some (suc b))
      × (contains m.open_connections b ≡ true)
      × (contains m.closed b ≡ contains l.closed b)
unfolding connect schedule_reconnect delay_of fire_timer handshake_fails connection_closes contains
    filter_out
late_close-replaces_client l a own running idle older =
    let b = l.next_connection in
    let same : nat_beq a a ≡ true = ground (arith, nat_beq_iff a a) in
    let apart : nat_beq b a ≡ false = ground (arith, nat_beq_iff b a) in
    let apart' : nat_beq a b ≡ false = ground (arith, nat_beq_iff a b) in
    let again : nat_beq b b ≡ true = ground (arith, nat_beq_iff b b) in
    let lower : nat_beq (suc b) b ≡ false = ground (arith, nat_beq_iff (suc b) b) in
    rw (own, running, idle) (rw (same, apart, apart', again, lower) (refl, refl, refl))

-- ===== src/Sdk/Liquid/Tests.antt =====
-- A link that comes up, one that is awaited again, and the theorems at these.
use ac.Common.{
  none, first_of, ◌≡◌, ◌⊎◌, refl, some, List, [], ◌∷◌, ◌++◌, true, false, is_some, arith,
}
use ac.Sdk.Liquid.{Link, sanitize_heartbeat_timeout_ms, start_pairing, negotiated, established}
use ac.Sdk.Liquid.Steps.{
  LinkEvent, connects, meets, rearms, establishes, links, counts, drops, returns, passes, closes,
  beats, run,
}
use ac.Sdk.Liquid.Sound.{heartbeat-connected, run-IsSound, start-IsSound}
use ac.Sdk.Liquid.Silence.{silent_peer_ends}
use ac.Sdk.Liquid.Waits.{holds}
use ac.Sdk.Liquid.Stale.{late_close-sticks}
use ac.Sdk.Liquid.Settlement.{
  aborts, disconnects, fulfils, first_verdict, calls, with_signaling_health_guard, health_guard,
  await_signal_connect, signal_connect, await_signaling_up, signaling_up, at_once, at_once_up,
  at_once_guard, promises-first,
}
use ac.Sdk.Liquid.Blips.{blip-keeps}

abbrev first_link : List LinkEvent
first_link = returns ∷ links (some "wallet") ∷ connects ∷ meets ∷ establishes ∷ []

abbrev linked : Link
linked = run (start_pairing 0) first_link

-- Its wallet is gone, and is awaited again.
abbrev awaited : Link
awaited = run (start_pairing 0) (first_link ++ closes 0 ∷ connects ∷ [])

heartbeat-connected_example :
    let l = run (start_pairing 0) first_link in
    (l.heartbeat ≡ l.connected)
    × ((l.connected ≡ false) ⊎ ((l.closed ≡ false) × (is_some l.peer ≡ true) × (l.close ≡ l.peer)))
heartbeat-connected_example = heartbeat-connected 0 first_link (tt, (tt, (tt, (tt, (tt, tt)))))

silent_peer_ends_example :
    let m = run (start_pairing 0) (connects ∷ []) in
    let l = established (negotiated m) in
    (l.peer ≡ some m.next_peer)
    × (holds m.next_peer
          (run l ((passes 200000 ∷ counts 2 ∷ passes 1 ∷ []) ++ beats true ∷ [])).peer
        ≡ false)
unfolding run sanitize_heartbeat_timeout_ms
silent_peer_ends_example =
    silent_peer_ends 0 (connects ∷ []) (passes 200000 ∷ counts 2 ∷ passes 1 ∷ []) refl refl (tt, tt)
      (tt, (tt, (tt, tt))) (tt, (tt, (tt, tt))) (omega arith)

late_close-sticks_example :
    (run awaited
      (closes 0 ∷ rearms ∷ meets ∷ establishes ∷ passes 900000 ∷ beats true ∷ closes 1 ∷ [])).peer
    ≡ some awaited.next_peer
unfolding run
late_close-sticks_example =
    late_close-sticks awaited 0 (passes 900000 ∷ beats true ∷ closes 1 ∷ []) refl refl refl
      (tt, (tt, (tt, tt)))

blip-keeps_example :
    ((run linked (drops ∷ counts 1 ∷ returns ∷ [])).peer ≡ some 0)
    × ((run linked (drops ∷ counts 1 ∷ returns ∷ [])).connected ≡ true)
unfolding run
blip-keeps_example =
    blip-keeps linked 0 (counts 1 ∷ returns ∷ [])
      (run-IsSound (start_pairing 0) first_link (tt, (tt, (tt, (tt, (tt, tt))))) (start-IsSound 0))
      refl refl refl (tt, (tt, tt))

promises-first_example :
    let es = disconnects none ∷ aborts ∷ fulfils ∷ [] in
    let a = first_of (at_once false) (first_verdict (await_signal_connect true) es) in
    let u = first_of (at_once_up false true) (first_verdict await_signaling_up es) in
    let g = first_of (at_once_guard false false) (first_verdict with_signaling_health_guard es) in
    (((signal_connect false true es).outcome ≡ a)
      × ((signal_connect false true es).failures ≡ calls a))
    × (((signaling_up false true es).outcome ≡ u)
        × ((signaling_up false true es).failures ≡ calls u))
    × (((health_guard false false es).outcome ≡ g)
        × ((health_guard false false es).failures ≡ calls g))
promises-first_example = promises-first false true true (disconnects none ∷ aborts ∷ fulfils ∷ [])

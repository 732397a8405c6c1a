-- ===== src/Sdk/Transport/Order.antt =====
-- packages/ac2-sdk/src/transport/index.ts: what is sent on one end of a pair arrives at the other, once
-- and in order, and the two ends close together.
use mathlib.Core.List.{append_assoc}
use ac.Common.{
  ◌≡◌, refl, sym, ap, ◌∙◌, Option, List, [], ◌∷◌, ◌++◌, if◌then◌else◌, Bool, true, false, not,
  Bool-cases, inl, inr, arith, Text, all, one_if,
}
use ac.Sdk.Message.{Json}
use ac.Sdk.Transport.{
  End, TransportPair, create_in_memory_transport_pair, may_send, send_if, send, close_end,
  close_unless, close_both, close, deliver, run_task, next_task, Routed, route_parsed, is_blank,
}

-- `true` is the first end.
pub data PairEvent : Type 0 where
  sends : Bool → Text → PairEvent
  closes : Bool → PairEvent
  runs : PairEvent

abbrev pub bound : Bool → List (Bool × Text) → List Text
bound side [] = []
bound true ((true, payload) ∷ rest) = payload ∷ bound true rest
bound true ((false, payload) ∷ rest) = bound true rest
bound false ((true, payload) ∷ rest) = bound false rest
bound false ((false, payload) ∷ rest) = payload ∷ bound false rest

bound_same :
    (side : Bool) (q : List (Bool × Text)) (payload : Text)
    → bound side (q ++ (side, payload) ∷ []) ≡ bound side q ++ payload ∷ []
bound_same true [] payload = refl
bound_same false [] payload = refl
bound_same true ((true, x) ∷ q) payload = ap (λ xs. x ∷ xs) (bound_same true q payload)
bound_same true ((false, x) ∷ q) payload = bound_same true q payload
bound_same false ((true, x) ∷ q) payload = bound_same false q payload
bound_same false ((false, x) ∷ q) payload = ap (λ xs. x ∷ xs) (bound_same false q payload)

bound_other :
    (side : Bool) (q : List (Bool × Text)) (payload : Text)
    → bound side (q ++ (not side, payload) ∷ []) ≡ bound side q
bound_other true [] payload = refl
bound_other false [] payload = refl
bound_other true ((true, x) ∷ q) payload = ap (λ xs. x ∷ xs) (bound_other true q payload)
bound_other true ((false, x) ∷ q) payload = bound_other true q payload
bound_other false ((true, x) ∷ q) payload = bound_other false q payload
bound_other false ((false, x) ∷ q) payload = ap (λ xs. x ∷ xs) (bound_other false q payload)

module _ (parse : Text → Option Json) where
  -- What payloads come to, blank ones being dropped.
  abbrev pub routes : List Text → List Routed
  routes [] = []
  routes (payload ∷ rest) =
      (if all is_blank payload then [] else route_parsed payload (parse payload) ∷ [])
      ++ routes rest

  unfoldable pub pair_step : TransportPair → PairEvent → TransportPair
  unfolding send close next_task
  pair_step p (sends side payload) = send p side payload
  pair_step p (closes side) = close p side
  pair_step p runs = next_task parse p

  unfoldable pub pair_run : TransportPair → List PairEvent → TransportPair
  unfolding pair_step
  pair_run p [] = p
  pair_run p (e ∷ es) = pair_run (pair_step p e) es

  routes-append : (ps qs : List Text) → routes (ps ++ qs) ≡ routes ps ++ routes qs
  routes-append [] qs = refl
  routes-append (p ∷ ps) qs = simp (routes-append ps qs, append_assoc)

  deliver_lem :
      (payload : Text) (received : List Routed) (rest : List Text)
      → deliver parse payload received ++ routes rest ≡ received ++ routes (payload ∷ rest)
  unfolding deliver
  deliver_lem payload received rest = elim (Bool-cases (all is_blank payload)) [
    | inl e ↦ rw e refl
    | inr e ↦ rw e (append_assoc received (route_parsed payload (parse payload) ∷ []) (routes rest))
  ]

  -- Received, and on the way, is what was accepted; the ends are closed both or neither.
  record Ordered (p : TransportPair) : Type 0 where
    forth : p.second.received ++ routes (bound true p.queue) ≡ routes p.first.accepted
    back : p.first.received ++ routes (bound false p.queue) ≡ routes p.second.accepted
    both : p.first.closed ≡ p.second.closed
    peers : (p.first.peer ≡ not p.first.closed) × (p.second.peer ≡ not p.second.closed)
    calls :
        (p.first.close_calls ≡ one_if p.first.closed)
        × (p.second.close_calls ≡ one_if p.second.closed)

  queued :
      (received : List Routed) (q : List (Bool × Text)) (sent : List Text) (side : Bool)
      (payload : Text)
      → received ++ routes (bound side q) ≡ routes sent
      → received ++ routes (bound side (q ++ (side, payload) ∷ [])) ≡ routes (sent ++ payload ∷ [])
  queued received q sent side payload h =
      rw
        (
          bound_same side q payload,
          routes-append (bound side q) (payload ∷ []),
          routes-append sent (payload ∷ []),
        )
        (sym (append_assoc received (routes (bound side q)) (routes (payload ∷ [])))
          ∙ ap (λ rs. rs ++ routes (payload ∷ [])) h)

  send_if-Ordered :
      (b side : Bool) (p : TransportPair) (payload : Text)
      → Ordered p
      → Ordered (send_if b side p payload)
  send_if-Ordered false side p payload o = o
  send_if-Ordered true true p payload o = record {
    forth = queued p.second.received p.queue p.first.accepted true payload o.forth;
    back = rw (bound_other false p.queue payload) o.back;
    both = o.both;
    peers = o.peers;
    calls = o.calls;
  }
  send_if-Ordered true false p payload o = record {
    forth = rw (bound_other true p.queue payload) o.forth;
    back = queued p.first.received p.queue p.second.accepted false payload o.back;
    both = o.both;
    peers = o.peers;
    calls = o.calls;
  }

  run_task-Ordered :
      (q : List (Bool × Text)) (p : TransportPair)
      → p.queue ≡ q
      → Ordered p
      → Ordered (run_task parse q p)
  run_task-Ordered [] p e o = o
  run_task-Ordered ((true, payload) ∷ rest) p e o = record {
    forth =
        deliver_lem payload p.second.received (bound true rest)
        ∙ ap (λ q. p.second.received ++ routes (bound true q)) (sym e)
        ∙ o.forth;
    back = ap (λ q. p.first.received ++ routes (bound false q)) (sym e) ∙ o.back;
    both = o.both;
    peers = o.peers;
    calls = o.calls;
  }
  run_task-Ordered ((false, payload) ∷ rest) p e o = record {
    forth = ap (λ q. p.second.received ++ routes (bound true q)) (sym e) ∙ o.forth;
    back =
        deliver_lem payload p.first.received (bound false rest)
        ∙ ap (λ q. p.first.received ++ routes (bound false q)) (sym e)
        ∙ o.back;
    both = o.both;
    peers = o.peers;
    calls = o.calls;
  }

  close_unless_open : (b : Bool) (e : End) → b ≡ false → close_unless b e ≡ close_end e
  close_unless_open false e h = refl
  close_unless_open true e h = absurd (ground arith)

  first-Ordered :
      (b peer : Bool) (p : TransportPair)
      → p.first.closed ≡ b
      → p.first.peer ≡ peer
      → Ordered p
      → let (e, other) = close_both b peer p.first p.second in
        Ordered (record p { first = e; second = other })
  first-Ordered true peer p c q o = o
  first-Ordered false false p c q o = absurd (ground (arith, o.peers.0))
  first-Ordered false true p c q o =
      rw (close_unless_open p.second.closed p.second (sym o.both ∙ c)) (record {
        forth = o.forth;
        back = o.back;
        both = refl;
        peers = (refl, refl);
        calls = (ground (arith, o.calls.0), ground (arith, o.calls.1, o.both));
      })

  second-Ordered :
      (b peer : Bool) (p : TransportPair)
      → p.second.closed ≡ b
      → p.second.peer ≡ peer
      → Ordered p
      → let (e, other) = close_both b peer p.second p.first in
        Ordered (record p { first = other; second = e })
  second-Ordered true peer p c q o = o
  second-Ordered false false p c q o = absurd (ground (arith, o.peers.1))
  second-Ordered false true p c q o =
      rw (close_unless_open p.first.closed p.first (o.both ∙ c)) (record {
        forth = o.forth;
        back = o.back;
        both = refl;
        peers = (refl, refl);
        calls = (ground (arith, o.calls.0, o.both), ground (arith, o.calls.1));
      })

  step-Ordered : (p : TransportPair) (e : PairEvent) → Ordered p → Ordered (pair_step p e)
  unfolding pair_step send close next_task
  step-Ordered p (sends true payload) o = send_if-Ordered (may_send p.first) true p payload o
  step-Ordered p (sends false payload) o = send_if-Ordered (may_send p.second) false p payload o
  step-Ordered p (closes true) o = first-Ordered p.first.closed p.first.peer p refl refl o
  step-Ordered p (closes false) o = second-Ordered p.second.closed p.second.peer p refl refl o
  step-Ordered p runs o = run_task-Ordered p.queue p refl o

  run-Ordered : (p : TransportPair) (es : List PairEvent) → Ordered p → Ordered (pair_run p es)
  unfolding pair_run
  run-Ordered p [] o = o
  run-Ordered p (e ∷ es) o = run-Ordered (pair_step p e) es (step-Ordered p e o)

  -- Whatever the two ends of a pair send, in any order, whenever their payloads are delivered and
  -- whichever end closes: what an end has received, and what is on the way to it, is what the other
  -- end's `send` accepted, once, in order, as messages or as they are, heartbeats left out. The ends
  -- are both closed or both not, and each has called its close handler once if so and else never.
  pub pair-ordered :
      (es : List PairEvent)
      → let p = pair_run create_in_memory_transport_pair es in
        (p.second.received ++ routes (bound true p.queue) ≡ routes p.first.accepted)
        × (p.first.received ++ routes (bound false p.queue) ≡ routes p.second.accepted)
        × (p.first.closed ≡ p.second.closed)
        × (p.first.close_calls ≡ one_if p.first.closed)
        × (p.second.close_calls ≡ one_if p.second.closed)
  pair-ordered es =
      let o = run-Ordered create_in_memory_transport_pair es (record {
        forth = refl;
        back = refl;
        both = refl;
        peers = (refl, refl);
        calls = (refl, refl);
      }) in
      (o.forth, o.back, o.both, o.calls.0, o.calls.1)

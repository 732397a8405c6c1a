-- ===== src/Sdk/Client/Keep.antt =====
-- No promise is lost: while request ids are not reused, every promise is settled or has a waiter.
use ac.Common.{
  ℕ, ◌≡◌, ◌≤◌, ◌<◌, refl, String, Option, none, some, List, [], ◌∷◌, true, false, nat_beq, arith,
  string_eq, nat_eq, lookup, insert, inl, inr, lookup-insert, Bool-cases,
}
use text.Mathlib.TextEquality.{eq_iff}
use ac.Sdk.Message.{Message, create_signing_request, create_key_request}
use ac.Sdk.Client.{
  Client, HandlerMap, Pending, init, wait_for, arm, deadline, is_timed, await_thread_response,
  request_signature, request_key, request, build_request_envelope, on_transport_close, reject_all,
  clear_all, clear_timer,
}
use ac.Sdk.Client.Counts.{
  waiting, keyed, keyed-append, keyed-lookup, keyed-reject_all, keyed-clear_all, keyed-clear_timer,
}
use ac.Sdk.Client.Settle.{init-Once, run-Once, on_transport_close-Once}
use ac.Sdk.Client.Steps.{
  Event, sets_handlers, updates_handlers, registers_signing, registers_key, closes,
  transport_closes, sends, inbound, requests_signature, requests_key, requests, timer_fires,
  transport_fails, signing_responds, key_responds, step, run, step-Keeps, send-cases,
}
use ac.Sdk.Client.Held.{
  clear_timer-Clears, Keeps-Kept, refuse-Kept, dispatch-Kept, fire-Kept, init-Kept, lookup-append,
  Waits-insert, Waits, Held, Kept, IsFresh, AllFresh,
}

waiting_of_lookup :
    (p : ℕ) (id : String) (w : Pending) (m : List (String × Pending))
    → lookup id m ≡ some w
    → w.promise ≡ p
    → 1 ≤ waiting p m
unfolding lookup waiting
waiting_of_lookup p id w [] e own = cc
waiting_of_lookup p id w ((j, v) ∷ m) e own = ground (arith, waiting_of_lookup p id w m)

clear_all-lookup :
    (q : ℕ) (v : String × ℕ) (m : List (String × Pending)) (ts : List (ℕ × (String × ℕ)))
    → lookup q (clear_all m ts) ≡ some v
    → lookup q ts ≡ some v
unfolding clear_all
clear_all-lookup q v [] ts e = e
clear_all-lookup q v ((j, w) ∷ m) ts e =
    (clear_timer-Clears w ts q v (clear_all-lookup q v m (clear_timer w ts) e)).0

-- A waiter's timer does not outlive the close.
clear_all-timed :
    (q : ℕ) (id : String) (w : Pending) (m : List (String × Pending)) (ts : List (ℕ × (String × ℕ)))
    → lookup id m ≡ some w
    → w.promise ≡ q
    → w.timed ≡ true
    → keyed q (clear_all m ts) ≡ 0
unfolding clear_all lookup
clear_all-timed q id w [] ts e own timed = cc
clear_all-timed q id w ((j, v) ∷ m) ts e own timed = ground (
  arith,
  clear_all-timed q id w m (clear_timer v ts),
  keyed-clear_all q m (clear_timer v ts),
  keyed-clear_timer q v ts,
)

on_transport_close-Kept : (c : Client) → Kept c → Kept (on_transport_close c)
unfolding on_transport_close
on_transport_close-Kept c k = record {
  held = λ p h.
      let more = keyed-append p c.settled (reject_all c.pending) in
      let all = keyed-reject_all p c.pending in
      elim (k.held p h) [
        | inl done ↦ inl (omega (arith, more))
        | inr w ↦
            inl
              (omega (arith, more, all, waiting_of_lookup p w.id w.waiter c.pending w.found w.own))
      ];
  aims = λ q id ms e.
      let (w, found, own, timed) =
        k.aims q id ms (clear_all-lookup q (id, ms) c.pending c.timers e) in
      absurd (
        omega (
          arith,
          clear_all-timed q id w c.pending c.timers found own timed,
          keyed-lookup q (clear_all c.pending c.timers) (id, ms) e,
        ));
}

old-aims :
    (c : Client) (id : String) (new : Pending)
    → lookup id c.pending ≡ none
    → Kept c
    → (q : ℕ) (j : String) (n : ℕ) → lookup q c.timers ≡ some (j, n)
    → (w : Pending) × (lookup j (insert id new c.pending) ≡ some w)
      × (w.promise ≡ q)
      × (w.timed ≡ true)
old-aims c id new fresh k q j n e =
    let (w, found, own, timed) = k.aims q j n e in
    (w, ground (arith, lookup-insert id j new c.pending, eq_iff id j), own, timed)

arm-aims :
    (c : Client) (id : String) (types : List String) (ms : Option ℕ)
    → lookup id c.pending ≡ none
    → Kept c
    → (q : ℕ) (j : String) (n : ℕ) → lookup q (arm c id ms) ≡ some (j, n)
    → (w : Pending) × (lookup j (
          insert id
            (record { response_types = types; promise = c.next; timed = is_timed ms })
            c.pending)
        ≡ some w)
      × (w.promise ≡ q)
      × (w.timed ≡ true)
unfolding arm
arm-aims c id types none fresh k q j n e =
    old-aims c id (record { response_types = types; promise = c.next; timed = false }) fresh k q j n
      e
arm-aims c id types (some ms) fresh k q j n e =
    let new : Pending = record { response_types = types; promise = c.next; timed = true } in
    elim (lookup-append q c.next (id, ms) (j, n) c.timers e) [
      | inl old ↦ old-aims c id new fresh k q j n old
      | inr (own, same) ↦
          (new, ground (arith, lookup-insert id j new c.pending, eq_iff id j, same), own, refl)
    ]

wait_for-Kept :
    (c : Client) (id : String) (types : List String) (ms : Option ℕ)
    → lookup id c.pending ≡ none
    → Kept c
    → Kept (wait_for c id types ms)
unfolding wait_for
wait_for-Kept c id types ms fresh k =
    let w : Pending = record { response_types = types; promise = c.next; timed = is_timed ms } in
    record {
      held = λ p h. elim (Bool-cases (nat_beq p c.next)) [
        | inl new ↦ inr (record {
          id = id;
          waiter = w;
          found = ground (arith, lookup-insert id id w c.pending, eq_iff id id);
          own = ground arith;
        })
        | inr old ↦ elim (k.held p (ground arith)) [
          | inl done ↦ inl done
          | inr waits ↦ inr (Waits-insert p id w c.pending fresh waits)
        ]
      ];
      aims = arm-aims c id types ms fresh k;
    }

await-Kept :
    (c : Client) (msg : Message) (types : List String) (timeout : Option ℕ)
    → lookup msg.id c.pending ≡ none
    → Kept c
    → Kept (await_thread_response c msg types timeout)
unfolding await_thread_response
await-Kept c msg types timeout fresh k = elim (send-cases c msg) [
  | inl (e, refused, _) ↦ rw (refused, await_thread_response) (refuse-Kept c e k)
  | inr (sent, _, _) ↦
      rw (sent, await_thread_response)
        (wait_for-Kept _ msg.id types (deadline timeout) fresh (
          Keeps-Kept c _ (record { settled = refl; pending = refl; timers = refl; next = refl }) k))
]

step-Kept : (c : Client) (e : Event) → IsFresh c e → Kept c → Kept (step c e)
unfolding step request_signature request_key request build_request_envelope create_signing_request
    create_key_request
step-Kept c (requests_signature args body timeout) f k = await-Kept c _ _ timeout f k
step-Kept c (requests_key args body timeout) f k = await-Kept c _ _ timeout f k
step-Kept c (requests message types timeout) f k = await-Kept c message types timeout f k
step-Kept c (inbound msg) f k = dispatch-Kept c msg k
step-Kept c (timer_fires q) f k = fire-Kept c q k
step-Kept c transport_closes f k = on_transport_close-Kept c k
step-Kept c (sets_handlers h) f k = Keeps-Kept c _ (step-Keeps c (sets_handlers h) tt) k
step-Kept c (updates_handlers h) f k = Keeps-Kept c _ (step-Keeps c (updates_handlers h) tt) k
step-Kept c registers_signing f k = Keeps-Kept c _ (step-Keeps c registers_signing tt) k
step-Kept c registers_key f k = Keeps-Kept c _ (step-Keeps c registers_key tt) k
step-Kept c closes f k = Keeps-Kept c _ (step-Keeps c closes tt) k
step-Kept c (sends m) f k = Keeps-Kept c _ (step-Keeps c (sends m) tt) k
step-Kept c (transport_fails e) f k = Keeps-Kept c _ (step-Keeps c (transport_fails e) tt) k
step-Kept c (signing_responds a r) f k = Keeps-Kept c _ (step-Keeps c (signing_responds a r) tt) k
step-Kept c (key_responds a b) f k = Keeps-Kept c _ (step-Keeps c (key_responds a b) tt) k

run-Kept : (c : Client) (es : List Event) → AllFresh c es → Kept c → Kept (run c es)
unfolding run
run-Kept c [] f k = k
run-Kept c (e ∷ es) (f, fs) k = run-Kept (step c e) es fs (step-Kept c e f k)

-- While no request reuses the id of one that still waits, every promise that the client has handed
-- out is settled or has a waiter under its id.
pub run-Held :
    (handlers : HandlerMap) (es : List Event) (p : ℕ)
    → AllFresh (init handlers) es
    → p < (run (init handlers) es).next
    → Held p (run (init handlers) es)
run-Held handlers es p f h = (run-Kept (init handlers) es f (init-Kept handlers)).held p h

-- While no request reuses the id of one that still waits, the close of the transport leaves every
-- promise that the client has handed out settled, exactly once, and no waiter, and the client is
-- closed.
pub close_settles_all :
    (handlers : HandlerMap) (es : List Event) (p : ℕ)
    → AllFresh (init handlers) es
    → p < (run (init handlers) es).next
    → let c = on_transport_close (run (init handlers) es) in
      (keyed p c.settled ≡ 1) × (c.pending ≡ []) × (c.closed ≡ true)
unfolding on_transport_close
close_settles_all handlers es p f h =
    let c = run (init handlers) es in
    let o = on_transport_close-Once p c (run-Once p _ es (init-Once p handlers)) in
    let k = on_transport_close-Kept c (run-Kept _ es f (init-Kept handlers)) in
    (
      elim (k.held p h) [
        | inl done ↦ omega (arith, o.waits)
        | inr waits ↦ absurd (no_waiter waits)
      ],
      refl,
      refl,
    )
  where
    no_waiter : Waits p [] → ⊥
    no_waiter w = let e = w.found in unfold lookup in cc e

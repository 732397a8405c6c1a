-- ===== src/Sdk/Client/Settle.antt =====
-- No promise is settled twice, whatever the order of events.
use ac.Common.{
  or_else, ℕ, suc, ◌+◌, ◌≡◌, ◌≤◌, refl, String, Option, none, some, List, [], ◌∷◌, ◌++◌,
  if◌then◌else◌, true, false, nat_beq, ◌&&◌, arith, string_eq, nat_eq, lookup, insert, remove, inl,
  inr, lookup-remove, Option-cases, Bool-cases,
}
use text.Mathlib.TextEquality.{eq_iff}
use ac.Sdk.Message.{Message}
use ac.Sdk.Client.{
  Client, HandlerMap, Pending, Error, init, wait_for, deadline, await_thread_response,
  request_signature, request_key, request, fire, handle, waiter, dispatch, on_transport_close,
  clear_timer, reject_all, failed, resolved, timed_out, settle,
}
use ac.Sdk.Client.Counts.{
  waiting, untimed, keyed, keyed-append, keyed-remove, keyed-lookup, waiting-lookup, untimed-lookup,
  waiting-insert-le, untimed-insert-le, waiting-remove-le, untimed-remove-le, keyed-reject_all,
  keyed-clear_timer, keyed-clear_all, waiting-remove-insert, waiting-remove-remove,
  lookup-append_fresh, lookup-append_other,
}
use ac.Sdk.Client.Steps.{
  Event, sets_handlers, updates_handlers, registers_signing, registers_key, closes,
  transport_closes, sends, inbound, requests_signature, requests_key, requests, timer_fires,
  transport_fails, signing_responds, key_responds, step, run, Keeps, step-Keeps, send-cases,
}

-- Promise `p` is settled at most once, and then nothing is left that could settle it.
pub record Once (p : ℕ) (c : Client) : Type 0 where
  pub waits : keyed p c.settled + waiting p c.pending ≤ 1
  pub ticks : keyed p c.settled + keyed p c.timers ≤ 1
  pub quiet : untimed p c.pending + keyed p c.timers ≤ 1
  pub fresh :
      c.next ≤ p
      → keyed p c.settled + waiting p c.pending + untimed p c.pending + keyed p c.timers ≡ 0
  -- Its timer deletes its own waiter.
  pub aimed :
      (id : String) (ms : ℕ)
      → lookup p c.timers ≡ some (id, ms)
      → waiting p (remove id c.pending) ≡ 0

-- The waiter for a message stands under the message's thread id.
pub waiter-lookup :
    (c : Client) (msg : Message) (w : Pending)
    → waiter c msg ≡ some w
    → lookup (or_else msg.thid "") c.pending ≡ some w
unfolding waiter
waiter-lookup c msg w e = ground arith

module _ (p : ℕ) where
  lookup-clear_timer :
      (w : Pending) (ts : List (ℕ × (String × ℕ)))
      → lookup p (clear_timer w ts) ≡ (if nat_beq w.promise p && w.timed then none else lookup p ts)
  unfolding clear_timer
  lookup-clear_timer w ts = ground (arith, lookup-remove w.promise p ts)

  pub init-Once : (handlers : HandlerMap) → Once p (init handlers)
  unfolding init keyed waiting untimed remove
  init-Once handlers = record {
    waits = omega arith;
    ticks = omega arith;
    quiet = omega arith;
    fresh = λ _. omega arith;
    aimed = λ id ms h. cc;
  }

  armed-aimed :
      (c : Client) (id : String) (types : List String) (ms : ℕ)
      → Once p c
      → (j : String) (n : ℕ) → lookup p (c.timers ++ (c.next, (id, ms)) ∷ []) ≡ some (j, n)
      → waiting p (
          remove j (
            insert id
              (record { response_types = types; promise = c.next; timed = true })
              c.pending))
        ≡ 0
  armed-aimed c id types ms o j n h =
      let w : Pending = record { response_types = types; promise = c.next; timed = true } in
      elim (Bool-cases (nat_beq c.next p)) [
        | inl own ↦
            let first = lookup-append_fresh p c.timers c.next (id, ms) (ground (arith, o.fresh)) in
            ground (
              arith,
              first,
              eq_iff id j,
              waiting-remove-insert p j id w c.pending,
              waiting-remove-le p j c.pending,
              o.fresh,
            )
        | inr other ↦ ground (
          arith,
          lookup-append_other p c.timers c.next (id, ms) other,
          waiting-remove-insert p j id w c.pending,
          o.aimed j n,
        )
      ]

  wait_for-Once :
      (c : Client) (id : String) (types : List String) (ms : Option ℕ)
      → Once p c
      → Once p (wait_for c id types ms)
  unfolding wait_for keyed
  wait_for-Once c id types none o =
      let w : Pending = record { response_types = types; promise = c.next; timed = false } in
      record {
        waits = ground (arith, waiting-insert-le p id w c.pending);
        ticks = o.ticks;
        quiet = ground (arith, untimed-insert-le p id w c.pending);
        fresh = λ h.
            ground (arith, waiting-insert-le p id w c.pending, untimed-insert-le p id w c.pending);
        aimed = λ j ms h. ground (
          arith,
          o.aimed j ms h,
          waiting-remove-insert p j id w c.pending,
          keyed-lookup p c.timers (j, ms) h,
        );
      }
  wait_for-Once c id types (some ms) o =
      let w : Pending = record { response_types = types; promise = c.next; timed = true } in
      let more = keyed-append p c.timers ((c.next, (id, ms)) ∷ []) in
      record {
        waits = ground (arith, waiting-insert-le p id w c.pending);
        ticks = ground (arith, more);
        quiet = ground (arith, more, untimed-insert-le p id w c.pending);
        fresh = λ h.
            ground
              (arith, more, waiting-insert-le p id w c.pending, untimed-insert-le p id w c.pending);
        aimed = λ j n h. armed-aimed c id types ms o j n h;
      }

  fire-Once : (c : Client) (q : ℕ) → Once p c → Once p (fire c q)
  unfolding fire keyed
  fire-Once c q o = elim (Option-cases (lookup q c.timers)) [
    | inl e ↦ rw (e, fire) o
    | inr ((id, ms), e) ↦
        let here = keyed-remove p q c.timers in
        let more = keyed-append p c.settled ((q, failed (timed_out id ms)) ∷ []) in
        let held = keyed-lookup q c.timers (id, ms) e in
        rw (e, fire)
          (record {
            waits =
                ground (arith, here, more, held, waiting-remove-le p id c.pending, o.aimed id ms);
            ticks = ground (arith, here, more, held);
            quiet = ground (arith, here, untimed-remove-le p id c.pending);
            fresh = λ h. ground (
              arith,
              here,
              more,
              held,
              untimed-remove-le p id c.pending,
              waiting-remove-le p id c.pending,
            );
            aimed = λ j n h. ground (
              arith,
              lookup-remove q p c.timers,
              o.aimed j n,
              waiting-remove-remove p j id c.pending,
            );
          })
  ]

  handle-Once : (c : Client) (msg : Message) → Once p c → Once p (handle c msg)
  unfolding handle
  handle-Once c msg o = ground arith

  dispatch-Once : (c : Client) (msg : Message) → Once p c → Once p (dispatch c msg)
  unfolding dispatch keyed
  dispatch-Once c msg o = elim (Option-cases (waiter c msg)) [
    | inl e ↦ rw (e, dispatch) (handle-Once c msg o)
    | inr (w, e) ↦
        let found = waiter-lookup c msg w e in
        let id = or_else msg.thid "" in
        let more = keyed-append p c.settled ((w.promise, resolved msg) ∷ []) in
        let cleared = keyed-clear_timer p w c.timers in
        let gone = waiting-lookup p id w c.pending found in
        let calm = untimed-lookup p id w c.pending found in
        rw (e, dispatch)
          (record {
            waits = ground (arith, more, gone);
            ticks = ground (arith, more, gone, calm, cleared);
            quiet = ground (arith, calm, cleared);
            fresh = λ h. ground (arith, more, gone, calm, cleared);
            aimed = λ j n h. ground (
              arith,
              lookup-clear_timer w c.timers,
              o.aimed j n,
              waiting-remove-remove p j id c.pending,
            );
          })
  ]

  pub on_transport_close-Once : (c : Client) → Once p c → Once p (on_transport_close c)
  unfolding on_transport_close keyed waiting untimed remove
  on_transport_close-Once c o =
      let more = keyed-append p c.settled (reject_all c.pending) in
      let all = keyed-reject_all p c.pending in
      let left = keyed-clear_all p c.pending c.timers in
      record {
        waits = ground (arith, more, all);
        ticks = ground (arith, more, all, left);
        quiet = ground (arith, left);
        fresh = λ h. ground (arith, more, all, left);
        aimed = λ j n h. refl;
      }

  Keeps-Once : (c d : Client) → Keeps c d → Once p c → Once p d
  Keeps-Once c d k o = record {
    waits = ground arith;
    ticks = ground arith;
    quiet = ground arith;
    fresh = λ h. ground (arith, o.fresh);
    aimed = λ j n h. rw k.pending (o.aimed j n (rw k.timers at h));
  }

  -- A request that cannot be sent fails at once.
  refuse-Once :
      (c : Client) (e : Error)
      → Once p c
      → Once p (record c { settled = settle c c.next (failed e); next = suc c.next })
  unfolding keyed
  refuse-Once c e o =
      let more = keyed-append p c.settled ((c.next, failed e) ∷ []) in
      record {
        waits = ground (arith, more, o.fresh);
        ticks = ground (arith, more, o.fresh);
        quiet = o.quiet;
        fresh = λ h. ground (arith, more, o.fresh);
        aimed = o.aimed;
      }

  await-Once :
      (c : Client) (msg : Message) (types : List String) (timeout : Option ℕ)
      → Once p c
      → Once p (await_thread_response c msg types timeout)
  unfolding await_thread_response
  await-Once c msg types timeout o = elim (send-cases c msg) [
    | inl (e, refused, _) ↦ rw (refused, await_thread_response) (refuse-Once c e o)
    | inr (sent, _, _) ↦
        rw (sent, await_thread_response)
          (wait_for-Once _ msg.id types (deadline timeout) (
            Keeps-Once c _ (record { settled = refl; pending = refl; timers = refl; next = refl })
              o))
  ]

  step-Once : (c : Client) (e : Event) → Once p c → Once p (step c e)
  unfolding step request_signature request_key request
  step-Once c (requests_signature args body timeout) o = await-Once c _ _ timeout o
  step-Once c (requests_key args body timeout) o = await-Once c _ _ timeout o
  step-Once c (requests message types timeout) o = await-Once c message types timeout o
  step-Once c (inbound msg) o = dispatch-Once c msg o
  step-Once c (timer_fires q) o = fire-Once c q o
  step-Once c transport_closes o = on_transport_close-Once c o
  step-Once c (sets_handlers h) o = Keeps-Once c _ (step-Keeps c (sets_handlers h) tt) o
  step-Once c (updates_handlers h) o = Keeps-Once c _ (step-Keeps c (updates_handlers h) tt) o
  step-Once c registers_signing o = Keeps-Once c _ (step-Keeps c registers_signing tt) o
  step-Once c registers_key o = Keeps-Once c _ (step-Keeps c registers_key tt) o
  step-Once c closes o = Keeps-Once c _ (step-Keeps c closes tt) o
  step-Once c (sends m) o = Keeps-Once c _ (step-Keeps c (sends m) tt) o
  step-Once c (transport_fails e) o = Keeps-Once c _ (step-Keeps c (transport_fails e) tt) o
  step-Once c (signing_responds a r) o = Keeps-Once c _ (step-Keeps c (signing_responds a r) tt) o
  step-Once c (key_responds a b) o = Keeps-Once c _ (step-Keeps c (key_responds a b) tt) o

  pub run-Once : (c : Client) (es : List Event) → Once p c → Once p (run c es)
  unfolding run
  run-Once c [] o = o
  run-Once c (e ∷ es) o = run-Once (step c e) es (step-Once c e o)

-- Whatever happens to a client, in any order, no promise is settled more than once, and a promise
-- that is settled has no waiter and no timer left.
pub settled_once :
    (handlers : HandlerMap) (es : List Event) (p : ℕ)
    → let c = run (init handlers) es in
      (keyed p c.settled + waiting p c.pending ≤ 1) × (keyed p c.settled + keyed p c.timers ≤ 1)
settled_once handlers es p =
    let o = run-Once p (init handlers) es (init-Once p handlers) in (o.waits, o.ticks)

-- ===== src/Sdk/Client/Pairing.antt =====
-- Which message settles which request.
use ac.Common.{
  or_else, ℕ, ◌≡◌, ◌≢◌, refl, ap, ◌∙◌, String, Option, none, some, List, [], ◌∷◌, ◌++◌, true, false,
  arith, string_eq, nat_eq, lookup, remove, contains, inl, inr, lookup-remove, lookup-insert,
  Option-cases,
}
use text.Mathlib.TextEquality.{eq_iff}
use ac.Sdk.Message.{
  Message, ReplyArgs, SigningRequestBody, create_signing_request, signing_response_type,
  signing_rejected_type, build_signing_response, build_signing_rejected,
}
use ac.Sdk.Message.{signing_response, signing_rejected, create_base_message}
use ac.Sdk.Message.Reply.{build_reply_lem}
use ac.Sdk.Client.{
  Client, Pending, RequestArgs, SigningReply, approve, reject, SigningOutcome, response, rejection,
  signing_outcome, wait_for, deadline, is_timed, await_thread_response, request_signature,
  build_request_envelope, handle, waiter, dispatch, resolved,
}
use ac.Sdk.Client.Settle.{waiter-lookup}
use ac.Sdk.Client.Steps.{send-cases}

-- The message carries the id of a request that waits, and its type is one that the request takes.
pub record Matches (c : Client) (msg : Message) : Type 0 where
  pub thid : String
  pub waiter : Pending
  pub threaded : msg.thid ≡ some thid
  pub named : thid ≢ ""
  pub waits : lookup thid c.pending ≡ some waiter
  pub expected : contains waiter.response_types msg.kind ≡ true

waiter-Matches : (c : Client) (msg : Message) (m : Matches c msg) → waiter c msg ≡ some m.waiter
unfolding waiter
waiter-Matches c msg m =
    rw (m.threaded, waiter) (ground (arith, eq_iff m.thid "", m.named, m.waits, m.expected))

waiter-found : (c : Client) (msg : Message) (w : Pending) → waiter c msg ≡ some w → Matches c msg
unfolding waiter
waiter-found c msg w e = record {
  thid = or_else msg.thid "";
  waiter = w;
  threaded = ground arith;
  named = λ empty. ground (arith, eq_iff (or_else msg.thid "") "", empty);
  waits = waiter-lookup c msg w e;
  expected = ground arith;
}

waiter-none : (c : Client) (msg : Message) → (Matches c msg → ⊥) → waiter c msg ≡ none
waiter-none c msg unmatched = elim (Option-cases (waiter c msg)) [
  | inl e ↦ e
  | inr (w, e) ↦ absurd (unmatched (waiter-found c msg w e))
]

-- A message that matches a waiter settles the waiter's promise with the message and takes the
-- waiter away, and neither a handler nor `onUnknown` sees it.
pub dispatch-matched :
    (c : Client) (msg : Message) (m : Matches c msg)
    → ((dispatch c msg).settled ≡ c.settled ++ (m.waiter.promise, resolved msg) ∷ [])
      × ((dispatch c msg).pending ≡ remove m.thid c.pending)
      × ((dispatch c msg).handled ≡ c.handled)
      × ((dispatch c msg).unknown ≡ c.unknown)
unfolding dispatch
dispatch-matched c msg m =
    rw (waiter-Matches c msg m, m.threaded, dispatch) (refl, refl, refl, refl)

-- A message that matches no waiter settles nothing: all that the client does with it is what
-- `handle` does.
pub dispatch-unmatched :
    (c : Client) (msg : Message) → (Matches c msg → ⊥) → dispatch c msg ≡ handle c msg
unfolding dispatch
dispatch-unmatched c msg other = rw (waiter-none c msg other, dispatch)

wait_for-waiter :
    (c : Client) (id : String) (types : List String) (ms : Option ℕ) (reply : Message)
    → reply.thid ≡ some id
    → id ≢ ""
    → contains types reply.kind ≡ true
    → waiter (wait_for c id types ms) reply
      ≡ some (record { response_types = types; promise = c.next; timed = is_timed ms })
unfolding wait_for
wait_for-waiter c id types ms reply threaded named expected =
    let w : Pending = record { response_types = types; promise = c.next; timed = is_timed ms } in
    waiter-Matches _ reply (record {
      thid = id;
      waiter = w;
      threaded = threaded;
      named = named;
      waits = ground (arith, lookup-insert id id w c.pending, eq_iff id id);
      expected = expected;
    })

-- A waiter is gone once its reply has come: the same message does not match again.
dispatch-gone :
    (c : Client) (msg : Message) (id : String) (w : Pending)
    → waiter c msg ≡ some w
    → msg.thid ≡ some id
    → lookup id (dispatch c msg).pending ≡ none
unfolding dispatch
dispatch-gone c msg id w found threaded =
    rw (found, threaded, dispatch) (ground (arith, lookup-remove id id c.pending, eq_iff id id))

gone-unmatched :
    (c : Client) (msg : Message) (id : String)
    → msg.thid ≡ some id
    → lookup id c.pending ≡ none
    → Matches c msg
    → ⊥
gone-unmatched c msg id threaded gone m =
    let same : m.thid ≡ id = let e = m.threaded in cc in
    let e = m.waits in let e2 = rw same at e in cc

-- A reply to a request that was just made: it carries the request's id and a type that it takes.
module _ (c : Client) (args : RequestArgs) (body : SigningRequestBody) (timeout : Option ℕ)
    (up : c.closed ≡ false) (ready : c.transport_open ≡ true) where
  abbrev waiting_for : Pending
  waiting_for = record {
    response_types = signing_response_type ∷ signing_rejected_type ∷ [];
    promise = c.next;
    timed = is_timed (deadline timeout);
  }

  abbrev request_id : String
  request_id = or_else args.id args.fresh_id

  request-sent :
      request_signature c args body timeout
      ≡ wait_for
          (record c {
            sent = c.sent ++ create_signing_request (build_request_envelope args) body ∷ [];
          })
          request_id
          (signing_response_type ∷ signing_rejected_type ∷ [])
          (deadline timeout)
  unfolding request_signature build_request_envelope create_signing_request
  request-sent = elim (send-cases c (create_signing_request (build_request_envelope args) body)) [
    | inl (e, _, bad) ↦ ground arith
    | inr (sent, _, _) ↦ rw (sent, await_thread_response) refl
  ]

  waiter-request :
      (reply : Message)
      → reply.thid ≡ some request_id
      → request_id ≢ ""
      → contains waiting_for.response_types reply.kind ≡ true
      → waiter (request_signature c args body timeout) reply ≡ some waiting_for
  waiter-request reply threaded named expected =
      rw request-sent
        (wait_for-waiter _ request_id _ (deadline timeout) reply threaded named expected)

  request-settled : (request_signature c args body timeout).settled ≡ c.settled
  request-settled = rw request-sent (unfold wait_for in refl)

  reply_settles :
      (reply : Message)
      → reply.thid ≡ some request_id
      → request_id ≢ ""
      → contains waiting_for.response_types reply.kind ≡ true
      → let d = dispatch (request_signature c args body timeout) reply in
        (d.settled ≡ c.settled ++ (c.next, resolved reply) ∷ [])
        × (lookup request_id d.pending ≡ none)
        × (dispatch d reply ≡ handle d reply)
  unfolding dispatch
  reply_settles reply threaded named expected =
      let c' = request_signature c args body timeout in
      let found = waiter-request reply threaded named expected in
      let gone = dispatch-gone c' reply request_id waiting_for found threaded in
      (
        rw (found, dispatch) (ap (λ l. l ++ (c.next, resolved reply) ∷ []) request-settled),
        gone,
        dispatch-unmatched _ reply (gone-unmatched _ reply request_id threaded gone),
      )

-- The message that the controller's responder builds for a request.
abbrev pub build_signing_reply : ReplyArgs → SigningReply → Option Message
build_signing_reply args (approve body) = build_signing_response args body
build_signing_reply args (reject reason) = build_signing_rejected args reason

abbrev pub outcome_of : SigningReply → Message → SigningOutcome
outcome_of (approve body) reply = response reply
outcome_of (reject reason) reply = rejection reply

build_signing_reply-facts :
    (rargs : ReplyArgs) (answer : SigningReply) (reply : Message)
    → build_signing_reply rargs answer ≡ some reply
    → (reply.thid ≡ some rargs.request.id)
      × (contains (signing_response_type ∷ signing_rejected_type ∷ []) reply.kind ≡ true)
      × (signing_outcome reply ≡ outcome_of answer reply)
unfolding build_signing_response build_signing_rejected contains signing_outcome create_base_message
build_signing_reply-facts rargs (approve body) reply e =
    let facts = build_reply_lem rargs signing_response_type (signing_response body) reply e in
    (facts.0, rw facts.4 refl, rw (facts.4, signing_outcome) refl)
build_signing_reply-facts rargs (reject reason) reply e =
    let facts =
      build_reply_lem rargs signing_rejected_type (signing_rejected (record { reason = reason }))
        reply e in
    (facts.0, rw facts.4 refl, rw (facts.4, signing_outcome) refl)

-- A signing request makes the full round trip. On an open client and with an id that is not empty,
-- the message that the controller builds from the request settles the request's promise with that
-- message, as a response if it approves and as a rejection if it rejects; no waiter is left under
-- the id, and the same message goes to the handlers if it comes again.
pub signing_round_trip :
    (c : Client) (args : RequestArgs) (body : SigningRequestBody) (timeout : Option ℕ)
    (rargs : ReplyArgs) (answer : SigningReply) (reply : Message)
    → c.closed ≡ false
    → c.transport_open ≡ true
    → or_else args.id args.fresh_id ≢ ""
    → rargs.request ≡ create_signing_request (build_request_envelope args) body
    → build_signing_reply rargs answer ≡ some reply
    → let d = dispatch (request_signature c args body timeout) reply in
      (d.settled ≡ c.settled ++ (c.next, resolved reply) ∷ [])
      × (signing_outcome reply ≡ outcome_of answer reply)
      × (lookup (or_else args.id args.fresh_id) d.pending ≡ none)
      × (dispatch d reply ≡ handle d reply)
unfolding create_signing_request build_request_envelope
signing_round_trip c args body timeout rargs answer reply up ready named asked built =
    let (threaded, expected, outcome) = build_signing_reply-facts rargs answer reply built in
    let thread : reply.thid ≡ some (or_else args.id args.fresh_id) =
      threaded ∙ ap (λ m. some m.id) asked in
    let (settled, gone, again) =
      reply_settles c args body timeout up ready reply thread named expected in
    (settled, outcome, gone, again)

-- ===== src/Sdk/Client.antt =====
-- packages/ac2-sdk/src/client.ts: `Ac2Client` as a state with one function for each method and each
-- callback. A promise is the number of the request that made it, and a timer goes by its promise.
-- What the client hands out is recorded in lists: the messages it sends, the settling of
-- promises, the handlers that it calls.
pub mod Steps
pub mod Counts
pub mod Settle
pub mod Held
pub mod Keep
pub mod Pairing
mod Tests
use ac.Common.{
  or_else, ℕ, suc, ◌<◌, String, Option, none, some, List, [], ◌∷◌, ◌++◌, if◌then◌else◌, Bool, true,
  false, ltb, ◌==◌, string_eq, nat_eq, lookup, insert, remove, contains,
}
use ac.Sdk.Message.{
  Message, Envelope, SigningRequestBody, SigningResponseBody, KeyRequestBody, KeyResponseBody,
  ReplyArgs, create_signing_request, create_key_request, build_signing_response,
  build_signing_rejected, build_key_response, signing_request_type, signing_response_type,
  signing_rejected_type, key_request_type, key_response_type,
}

pub data Error : Type 0 where
  client_closed transport_closed transport_not_open from_not_inferred responder_failed : Error
  timed_out : String → ℕ → Error

pub data Outcome : Type 0 where
  resolved : Message → Outcome
  failed : Error → Outcome

-- A `MessageHandler`: the default that logs, one of the consumer's, or a responder's.
pub data Handler : Type 0 where
  logs signing_responder key_responder : Handler
  custom : ℕ → Handler

abbrev pub HandlerMap : Type 0
HandlerMap = List (String × Handler)

pub record Pending : Type 0 where
  pub response_types : List String
  pub promise : ℕ
  pub timed : Bool

pub record Client : Type 0 where
  pub closed : Bool
  pub transport_open : Bool
  pub handlers : HandlerMap
  pub pending : List (String × Pending)
  pub timers : List (ℕ × (String × ℕ))
  pub next : ℕ
  pub sent : List Message
  pub settled : List (ℕ × Outcome)
  pub handled : List (Handler × Message)
  pub unknown : List Message
  pub errors : List Error

abbrev pub default_message_handlers : HandlerMap
default_message_handlers =
    (signing_request_type, logs)
    ∷ (signing_response_type, logs)
    ∷ (signing_rejected_type, logs)
    ∷ (key_request_type, logs)
    ∷ (key_response_type, logs)
    ∷ []

-- `{ ...base, ...patch }`.
unfoldable pub merge : HandlerMap → HandlerMap → HandlerMap
merge base [] = base
merge base ((k, h) ∷ patch) = merge (insert k h base) patch

-- The constructor, on a transport that is open.
unfoldable pub init : HandlerMap → Client
unfolding merge
init handlers = record {
  closed = false;
  transport_open = true;
  handlers = merge default_message_handlers handlers;
  pending = [];
  timers = [];
  next = 0;
  sent = [];
  settled = [];
  handled = [];
  unknown = [];
  errors = [];
}

unfoldable pub set_handlers : Client → HandlerMap → Client
set_handlers c handlers = record c { handlers = merge default_message_handlers handlers }

unfoldable pub update_handlers : Client → HandlerMap → Client
update_handlers c patch = record c { handlers = merge c.handlers patch }

unfoldable pub on_signing_request : Client → Client
unfolding update_handlers
on_signing_request c = update_handlers c ((signing_request_type, signing_responder) ∷ [])

unfoldable pub on_key_request : Client → Client
unfolding update_handlers
on_key_request c = update_handlers c ((key_request_type, key_responder) ∷ [])

pub data Sent : Type 0 where
  delivered : Client → Sent
  thrown : Error → Sent

-- `send`: the transport throws unless it is open.
unfoldable pub send : Client → Message → Sent
send c message =
    if c.closed
    then thrown client_closed
    else if c.transport_open
    then delivered (record c { sent = c.sent ++ message ∷ [] })
    else thrown transport_not_open

-- `opts.timeoutMs && opts.timeoutMs > 0`.
abbrev pub deadline : Option ℕ → Option ℕ
deadline none = none
deadline (some ms) = if ltb 0 ms then some ms else none

abbrev pub is_timed : Option ℕ → Bool
is_timed none = false
is_timed (some ms) = true

arm : Client → String → Option ℕ → List (ℕ × (String × ℕ))
arm c id none = c.timers
arm c id (some ms) = c.timers ++ (c.next, (id, ms)) ∷ []

-- The executor of the promise.
unfoldable pub wait_for : Client → String → List String → Option ℕ → Client
unfolding arm
wait_for c id response_types ms = record c {
  pending =
      insert id (record { response_types = response_types; promise = c.next; timed = is_timed ms })
        c.pending;
  timers = arm c id ms;
  next = suc c.next;
}

abbrev settle : Client → ℕ → Outcome → List (ℕ × Outcome)
settle c promise outcome = c.settled ++ (promise, outcome) ∷ []

-- `awaitThreadResponse`, called by an `async` method: an error that is thrown rejects its promise.
unfoldable pub await_thread_response : Client → Message → List String → Option ℕ → Client
unfolding send wait_for
await_thread_response c message response_types timeout = elim (send c message) [
  | thrown e ↦ record c { settled = settle c c.next (failed e); next = suc c.next }
  | delivered c' ↦ wait_for c' message.id response_types (deadline timeout)
]

-- `string | readonly string[]`.
pub data Recipients : Type 0 where
  one : String → Recipients
  many : List String → Recipients

abbrev recipients : Recipients → List String
recipients (one to) = to ∷ []
recipients (many to) = to

-- `BuildSigningRequestArgs` and `BuildKeyRequestArgs` without the body, with what
-- `generateMessageId` and the clock return in this call.
pub record RequestArgs : Type 0 where
  pub from : String
  pub to : Recipients
  pub id : Option String
  pub created_time : Option ℕ
  pub expires_time : Option ℕ
  pub fresh_id : String
  pub now : ℕ

unfoldable pub build_request_envelope : RequestArgs → Envelope
build_request_envelope args = record {
  id = or_else args.id args.fresh_id;
  from = args.from;
  to = recipients args.to;
  created_time = or_else args.created_time args.now;
  expires_time = args.expires_time;
  thid = none;
  pthid = none;
  attachments = none;
}

unfoldable pub request_signature : Client → RequestArgs → SigningRequestBody → Option ℕ → Client
unfolding await_thread_response build_request_envelope create_signing_request
request_signature c args body timeout =
    await_thread_response c (create_signing_request (build_request_envelope args) body)
      (signing_response_type ∷ signing_rejected_type ∷ []) timeout

-- `SigningOutcome`, of the reply that settles the promise.
pub data SigningOutcome : Type 0 where
  response rejection : Message → SigningOutcome

unfoldable pub signing_outcome : Message → SigningOutcome
signing_outcome reply =
    if reply.kind == signing_response_type then response reply else rejection reply

unfoldable pub request_key : Client → RequestArgs → KeyRequestBody → Option ℕ → Client
unfolding await_thread_response build_request_envelope create_key_request
request_key c args body timeout =
    await_thread_response c (create_key_request (build_request_envelope args) body)
      (key_response_type ∷ []) timeout

unfoldable pub request : Client → Message → List String → Option ℕ → Client
unfolding await_thread_response
request c message response_types timeout = await_thread_response c message response_types timeout

-- The callback of a timer; one that was cleared does not fire.
unfoldable pub fire : Client → ℕ → Client
fire c promise = elim (lookup promise c.timers) [
  | none ↦ c
  | some (id, ms) ↦ record c {
    timers = remove promise c.timers;
    pending = remove id c.pending;
    settled = settle c promise (failed (timed_out id ms));
  }
]

-- `if (p.timer) clearTimeout(p.timer)`.
unfoldable pub clear_timer : Pending → List (ℕ × (String × ℕ)) → List (ℕ × (String × ℕ))
clear_timer p timers = if p.timed then remove p.promise timers else timers

-- The type-keyed handlers, and `onUnknown`.
unfoldable pub handle : Client → Message → Client
handle c msg = elim (lookup msg.kind c.handlers) [
  | none ↦ record c { unknown = c.unknown ++ msg ∷ [] }
  | some fn ↦ record c { handled = c.handled ++ (fn, msg) ∷ [] }
]

-- A waiter that the message settles.
abbrev takes : Option Pending → String → Option Pending
takes none kind = none
takes (some p) kind = if contains p.response_types kind then some p else none

-- The waiter for the message's thread, if it carries a thread id that is not empty.
unfoldable pub waiter : Client → Message → Option Pending
waiter c msg = elim msg.thid [
  | none ↦ none
  | some thid ↦ if thid == "" then none else takes (lookup thid c.pending) msg.kind
]

unfoldable pub dispatch : Client → Message → Client
unfolding handle waiter clear_timer
dispatch c msg = elim (waiter c msg) [
  | none ↦ handle c msg
  | some p ↦ record c {
    pending = remove (or_else msg.thid "") c.pending;
    timers = clear_timer p c.timers;
    settled = settle c p.promise (resolved msg);
  }
]

-- The loop of the transport's close callback.
unfoldable pub reject_all : List (String × Pending) → List (ℕ × Outcome)
reject_all [] = []
reject_all ((id, p) ∷ rest) = (p.promise, failed transport_closed) ∷ reject_all rest

unfoldable pub clear_all :
    List (String × Pending) → List (ℕ × (String × ℕ)) → List (ℕ × (String × ℕ))
unfolding clear_timer
clear_all [] timers = timers
clear_all ((id, p) ∷ rest) timers = clear_all rest (clear_timer p timers)

unfoldable pub on_transport_close : Client → Client
unfolding reject_all clear_all
on_transport_close c = record c {
  closed = true;
  transport_open = false;
  timers = clear_all c.pending c.timers;
  settled = c.settled ++ reject_all c.pending;
  pending = [];
}

-- `close`: the transport's close callback comes as an event of its own.
unfoldable pub close : Client → Client
close c = if c.closed then c else record c { closed = true; transport_open = false }

unfoldable pub report_error : Client → Error → Client
report_error c e = record c { errors = c.errors ++ e ∷ [] }

pub data SigningReply : Type 0 where
  approve : SigningResponseBody → SigningReply
  reject : String → SigningReply

-- The rest of a responder after its `await`: the reply is built and sent, or the error is reported.
send_reply : Client → Option Message → Client
unfolding send report_error
send_reply c none = report_error c from_not_inferred
send_reply c (some out) = elim (send c out) [ thrown e ↦ report_error c e | delivered c' ↦ c' ]

-- `none` is a responder that throws.
unfoldable pub signing_replied : Client → ReplyArgs → Option SigningReply → Client
unfolding send_reply
signing_replied c args none = report_error c responder_failed
signing_replied c args (some (approve body)) = send_reply c (build_signing_response args body)
signing_replied c args (some (reject reason)) = send_reply c (build_signing_rejected args reason)

unfoldable pub key_replied : Client → ReplyArgs → Option KeyResponseBody → Client
unfolding send_reply
key_replied c args none = report_error c responder_failed
key_replied c args (some body) = send_reply c (build_key_response args body)

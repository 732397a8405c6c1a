-- ===== src/Sdk/Client/Steps.antt =====
-- What can happen to a client: a call of a method, or a callback of the transport or of a timer.
use ac.Common.{
  ℕ, String, Option, none, some, List, [], ◌∷◌, ◌≡◌, arith, ◌⊎◌, inl, inr, true, false, ◌++◌,
  Bool-cases,
}
use ac.Sdk.Message.{Message, SigningRequestBody, KeyRequestBody, KeyResponseBody, ReplyArgs}
use ac.Sdk.Client.{
  Client, Error, HandlerMap, RequestArgs, SigningReply, Sent, delivered, thrown, set_handlers,
  update_handlers, on_signing_request, on_key_request, send, request_signature, request_key,
  request, fire, dispatch, on_transport_close, close, report_error, signing_replied, key_replied,
  handle, send_reply, approve, reject, client_closed, transport_not_open,
}

pub data Event : Type 0 where
  sets_handlers updates_handlers : HandlerMap → Event
  registers_signing registers_key closes transport_closes : Event
  sends inbound : Message → Event
  requests_signature : RequestArgs → SigningRequestBody → Option ℕ → Event
  requests_key : RequestArgs → KeyRequestBody → Option ℕ → Event
  requests : Message → List String → Option ℕ → Event
  timer_fires : ℕ → Event
  transport_fails : Error → Event
  signing_responds : ReplyArgs → Option SigningReply → Event
  key_responds : ReplyArgs → Option KeyResponseBody → Event

-- A `send` that throws leaves the client as it was.
abbrev after_send : Client → Sent → Client
after_send c (delivered c') = c'
after_send c (thrown e) = c

unfoldable pub step : Client → Event → Client
step c (sets_handlers handlers) = set_handlers c handlers
step c (updates_handlers patch) = update_handlers c patch
step c registers_signing = on_signing_request c
step c registers_key = on_key_request c
step c (sends message) = after_send c (send c message)
step c (requests_signature args body timeout) = request_signature c args body timeout
step c (requests_key args body timeout) = request_key c args body timeout
step c (requests message types timeout) = request c message types timeout
step c (inbound msg) = dispatch c msg
step c (timer_fires promise) = fire c promise
step c (transport_fails e) = report_error c e
step c transport_closes = on_transport_close c
step c closes = close c
step c (signing_responds args reply) = signing_replied c args reply
step c (key_responds args body) = key_replied c args body

unfoldable pub run : Client → List Event → Client
unfolding step
run c [] = c
run c (e ∷ es) = run (step c e) es

-- The waiters, the timers and what is settled stay as they are.
pub record Keeps (c d : Client) : Type 0 where
  pub settled : d.settled ≡ c.settled
  pub pending : d.pending ≡ c.pending
  pub timers : d.timers ≡ c.timers
  pub next : d.next ≡ c.next

send-Keeps : (c : Client) (message : Message) → Keeps c (after_send c (send c message))
unfolding send
send-Keeps c message = ground arith

pub handle-Keeps : (c : Client) (msg : Message) → Keeps c (handle c msg)
unfolding handle
handle-Keeps c msg = ground arith

-- So they do for every call and callback but a request, a message, a timer and the close.
abbrev pub IsQuiet : Event → Type 0
IsQuiet (requests_signature args body timeout) = ⊥
IsQuiet (requests_key args body timeout) = ⊥
IsQuiet (requests message types timeout) = ⊥
IsQuiet (inbound msg) = ⊥
IsQuiet (timer_fires promise) = ⊥
IsQuiet transport_closes = ⊥
IsQuiet _ = Unit {0}

send_reply-Keeps : (c : Client) (reply : Option Message) → Keeps c (send_reply c reply)
unfolding send_reply send report_error
send_reply-Keeps c none = ground arith
send_reply-Keeps c (some out) = ground arith

pub step-Keeps : (c : Client) (e : Event) → IsQuiet e → Keeps c (step c e)
unfolding step set_handlers update_handlers on_signing_request on_key_request close report_error
    signing_replied key_replied
step-Keeps c (sends message) q = send-Keeps c message
step-Keeps c (signing_responds args none) q = ground arith
step-Keeps c (signing_responds args (some (approve body))) q = send_reply-Keeps c _
step-Keeps c (signing_responds args (some (reject reason))) q = send_reply-Keeps c _
step-Keeps c (key_responds args none) q = ground arith
step-Keeps c (key_responds args (some body)) q = send_reply-Keeps c _
step-Keeps c (requests_signature args body timeout) q = absurd q
step-Keeps c (requests_key args body timeout) q = absurd q
step-Keeps c (requests message types timeout) q = absurd q
step-Keeps c (inbound msg) q = absurd q
step-Keeps c (timer_fires promise) q = absurd q
step-Keeps c transport_closes q = absurd q
step-Keeps c (sets_handlers handlers) q = ground arith
step-Keeps c (updates_handlers handlers) q = ground arith
step-Keeps c registers_signing q = ground arith
step-Keeps c registers_key q = ground arith
step-Keeps c closes q = ground arith
step-Keeps c (transport_fails e) q = ground arith

-- `send` throws, or the client and the transport are open and the message goes out.
pub send-cases :
    (c : Client) (m : Message)
    → ((e : Error) × (send c m ≡ thrown e) × ((c.closed ≡ true) ⊎ (c.transport_open ≡ false)))
      ⊎ ((send c m ≡ delivered (record c { sent = c.sent ++ m ∷ [] }))
          × (c.closed ≡ false)
          × (c.transport_open ≡ true))
unfolding send
send-cases c m = elim (Bool-cases c.closed) [
  | inl shut ↦ inl (client_closed, simp shut, inl shut)
  | inr up ↦ elim (Bool-cases c.transport_open) [
    | inl ready ↦ inr (simp (up, ready), up, ready)
    | inr lost ↦ inl (transport_not_open, simp (up, lost), inr lost)
  ]
]

-- ===== src/Cli/Control/Exchange.antt =====
-- The two ends of the control socket together.
use ac.Common.{
  ℕ, ◌≡◌, refl, sym, ◌∙◌, String, Option, none, some, List, [], ◌∷◌, ◌++◌, true, nat_eq,
  lookup-insert, Text, join, arith,
}
use mathlib.Core.List.{append-nil}
use ac.Sdk.Message.{Json, Fields, obj, end}
use ac.Cli.Control.Lines.{on_chunks}
use ac.Cli.Control.Lines.Chunks.{IsFrame, write_frame, on_chunks-frames}
use ac.Cli.Control.Frames.{request_frame, is_control_method}
use ac.Cli.Control.Client.{
  ControlClient, Outcome, resolved, failed, request, handle_frame, settle, outcome_of,
}
use ac.Cli.Control.Server.{
  calls, dispatch, dispatch_frame, dispatch_call, Handled, returned, threw, reply, to_error_code,
  or_value,
}

-- How the handler's end reaches the caller of `request`.
abbrev pub answer_of : Handled → Outcome
answer_of (returned result) = resolved (some (or_value result (obj end)))
answer_of (threw code message) = failed (to_error_code code) message

module _ (parse : Text → Option Json) where
  -- The client's data callback; a line that is not JSON is passed over.
  unfoldable pub receive_line : ControlClient → Text → ControlClient
  receive_line c line = elim (parse line) [ none ↦ c | some frame ↦ handle_frame c frame ]

  unfoldable pub receive_lines : ControlClient → List Text → ControlClient
  unfolding receive_line
  receive_lines c [] = c
  receive_lines c (line ∷ lines) = receive_lines (receive_line c line) lines

outcome_of-reply : (id : ℕ) (h : Handled) → outcome_of (reply id h) ≡ answer_of h
unfolding outcome_of reply
outcome_of-reply id (returned result) = refl
outcome_of-reply id (threw code message) = refl

handle_frame-reply :
    (c : ControlClient) (id : ℕ) (h : Handled)
    → handle_frame c (reply id h) ≡ settle c id (reply id h)
unfolding handle_frame reply
handle_frame-reply c id (returned result) = refl
handle_frame-reply c id (threw code message) = refl

request-settle :
    (c : ControlClient) (method : String) (params : Json) (h : Handled)
    → c.writable ≡ true
    → (settle (request c method params) c.next_id (reply c.next_id h)).settled
      ≡ c.settled ++ (c.next_id, answer_of h) ∷ []
unfolding settle request
request-settle c method params h up =
    ground (arith, lookup-insert c.next_id c.next_id tt c.pending, outcome_of-reply c.next_id h)

module _ (parse : Text → Option Json) (stringify : Json → Text) where
  dispatch-request :
      (id : ℕ) (method shown : String) (params : Fields)
      → is_control_method method ≡ true
      → let frame = request_frame id method (obj params) in
        parse (stringify frame) ≡ some frame
        → dispatch parse (stringify frame) shown ≡ calls id method (obj params)
  unfolding dispatch dispatch_frame dispatch_call
  dispatch-request id method shown params known back = rw (back, dispatch) (rw known refl)

  receive-reply :
      (c : ControlClient) (id : ℕ) (h : Handled) (chunks : List Text)
      → parse (stringify (reply id h)) ≡ some (reply id h)
      → IsFrame (stringify (reply id h))
      → join chunks ≡ write_frame (stringify (reply id h))
      → receive_lines parse c (on_chunks [] chunks).0 ≡ settle c id (reply id h)
  unfolding receive_lines join
  receive-reply c id h chunks back framed cut =
      let got =
        on_chunks-frames chunks (stringify (reply id h) ∷ []) (framed, tt)
          (cut ∙ sym (append-nil (write_frame (stringify (reply id h))))) in
      rw (got, back, receive_line) (handle_frame-reply c id h)

  -- A request over the control socket makes the full round trip, if its method is one of the
  -- protocol's, the socket can be written, and `JSON.parse` undoes `JSON.stringify` on the request
  -- and on the reply, which is on one line. The line that it writes makes the server call the handler
  -- with its id, method and parameters; and the reply that the handler's end makes, in whatever
  -- chunks it comes, settles the request's promise, and no other, with the result or with the
  -- error's code and message.
  pub request_round_trip :
      (c : ControlClient) (method shown : String) (params : Fields) (h : Handled)
      (chunks : List Text)
      → c.writable ≡ true
      → is_control_method method ≡ true
      → let frame = request_frame c.next_id method (obj params) in
        parse (stringify frame) ≡ some frame
        → parse (stringify (reply c.next_id h)) ≡ some (reply c.next_id h)
        → IsFrame (stringify (reply c.next_id h))
        → join chunks ≡ write_frame (stringify (reply c.next_id h))
        → let d = request c method (obj params) in
          (d.written ≡ c.written ++ frame ∷ [])
          × (dispatch parse (stringify frame) shown ≡ calls c.next_id method (obj params))
          × ((receive_lines parse d (on_chunks [] chunks).0).settled
              ≡ c.settled ++ (c.next_id, answer_of h) ∷ [])
  unfolding request
  request_round_trip c method shown params h chunks up known asked back framed cut = (
    ground arith,
    dispatch-request c.next_id method shown params known asked,
    rw (receive-reply (request c method (obj params)) c.next_id h chunks back framed cut)
        (request-settle c method (obj params) h up),
  )

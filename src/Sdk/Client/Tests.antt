-- ===== src/Sdk/Client/Tests.antt =====
-- The theorems on `Ac2Client` at a client with a signing request and its replies.
use ac.Common.{
  ◌+◌, ◌≡◌, ◌≤◌, refl, String, none, some, List, [], ◌∷◌, ◌++◌, arith, string_eq, nat_eq, lookup,
  remove, true, false, insert, contains, ◌<◌, ◌≢◌,
}
use text.Mathlib.TextEquality.{eq_iff}
use ac.Sdk.Message.{
  Message, SigningRequestBody, SigningResponseBody, ReplyArgs, create_signing_request,
  signing_response_type, signing_rejected_type, build_signing_response, build_reply,
  infer_reply_from, build_reply_envelope, create_signing_response, create_base_message,
}
use ac.Sdk.Client.{
  Client, RequestArgs, many, approve, init, build_request_envelope, request_signature, dispatch,
  handle, signing_outcome, resolved, on_transport_close, await_thread_response, send, wait_for, arm,
  merge, Pending, waiter, clear_timer,
}
use ac.Sdk.Client.Counts.{keyed, waiting}
use ac.Sdk.Client.Steps.{Event, requests_signature, inbound, run, step}
use ac.Sdk.Client.Settle.{settled_once}
use ac.Sdk.Client.Held.{AllFresh}
use ac.Sdk.Client.Keep.{close_settles_all}
use ac.Sdk.Client.Pairing.{Matches, signing_round_trip, outcome_of}

abbrev signing_body : SigningRequestBody
signing_body = record {
  description = "a login";
  payload = "aGk=";
  schema = none;
  key_type = none;
  display_hint = none;
  sig_hint = none;
}

abbrev signing_args : RequestArgs
signing_args = record {
  from = "did:key:agent";
  to = many ("did:key:wallet" ∷ []);
  id = some "m1";
  created_time = none;
  expires_time = none;
  fresh_id = "m0";
  now = 7;
}

abbrev approval : SigningResponseBody
approval = record { signature = "c2ln"; public_key = "a2V5"; address = none; key_type = none }

abbrev reply_args : ReplyArgs
reply_args = record {
  request = create_signing_request (build_request_envelope signing_args) signing_body;
  from = none;
  id = none;
  created_time = none;
  expires_time = none;
  fresh_id = "m2";
  now = 8;
}

abbrev signing_reply : Message
signing_reply = create_signing_response (build_reply_envelope reply_args "did:key:wallet") approval

abbrev asks_twice : List Event
asks_twice =
    requests_signature signing_args signing_body (some 500)
    ∷ inbound signing_reply
    ∷ inbound signing_reply
    ∷ requests_signature signing_args signing_body none
    ∷ []

abbrev asked : Client
asked = request_signature (init []) signing_args signing_body none

settled_once_example :
    (keyed 0 (run (init []) asks_twice).settled + waiting 0 (run (init []) asks_twice).pending ≤ 1)
    × (keyed 0 (run (init []) asks_twice).settled + keyed 0 (run (init []) asks_twice).timers ≤ 1)
settled_once_example = settled_once [] asks_twice 0

asks_twice-fresh : AllFresh (init []) asks_twice
unfolding run step init merge request_signature await_thread_response send wait_for arm dispatch
    waiter clear_timer handle build_request_envelope build_reply_envelope create_signing_request
    create_signing_response create_base_message lookup insert remove contains
asks_twice-fresh = (refl, (tt, (tt, (refl, tt))))

asks_twice-next : 1 < (run (init []) asks_twice).next
unfolding run step init merge request_signature await_thread_response send wait_for arm dispatch
    waiter clear_timer handle build_request_envelope build_reply_envelope create_signing_request
    create_signing_response create_base_message lookup insert remove contains
asks_twice-next = omega arith

close_settles_all_example :
    (keyed 1 (on_transport_close (run (init []) asks_twice)).settled ≡ 1)
    × ((on_transport_close (run (init []) asks_twice)).pending ≡ [])
    × ((on_transport_close (run (init []) asks_twice)).closed ≡ true)
close_settles_all_example = close_settles_all [] asks_twice 1 asks_twice-fresh asks_twice-next

abbrev signing_pending : Pending
signing_pending = record {
  response_types = signing_response_type ∷ signing_rejected_type ∷ [];
  promise = 0;
  timed = false;
}

signing_reply-Matches : Matches asked signing_reply
unfolding init merge request_signature await_thread_response send wait_for arm
    build_request_envelope build_reply_envelope create_signing_request create_signing_response
    create_base_message lookup insert contains
signing_reply-Matches = record {
  thid = "m1";
  waiter = signing_pending;
  threaded = refl;
  named = λ e. ground (arith, eq_iff "m1" "", e);
  waits = refl;
  expected = refl;
}

unasked : Matches (init []) signing_reply → ⊥
unfolding init lookup
unasked m = let e = m.waits in cc

abbrev signing_id : String
signing_id = "m1"

signing_id-named : signing_id ≢ ""
signing_id-named e = ground (arith, eq_iff "m1" "", e)

signing_reply-built : build_signing_response reply_args approval ≡ some signing_reply
unfolding build_signing_response build_reply infer_reply_from create_signing_request
    create_base_message build_request_envelope
signing_reply-built = refl

asked-up : (init []).closed ≡ false
unfolding init
asked-up = refl

asked-open : (init []).transport_open ≡ true
unfolding init
asked-open = refl

signing_round_trip_example :
    ((dispatch asked signing_reply).settled
      ≡ (init []).settled ++ ((init []).next, resolved signing_reply) ∷ [])
    × (signing_outcome signing_reply ≡ outcome_of (approve approval) signing_reply)
    × (lookup "m1" (dispatch asked signing_reply).pending ≡ none)
    × (dispatch (dispatch asked signing_reply) signing_reply
        ≡ handle (dispatch asked signing_reply) signing_reply)
signing_round_trip_example =
    signing_round_trip (init []) signing_args signing_body none reply_args (approve approval)
      signing_reply asked-up asked-open signing_id-named refl signing_reply-built

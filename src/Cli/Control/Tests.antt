-- ===== src/Cli/Control/Tests.antt =====
-- The theorems on the control socket at small frames.
use ac.Common.{
  ◌+◌, ◌≡◌, refl, Option, none, some, List, [], ◌∷◌, true, nat_eq, string_eq, lookup, contains,
  Text, codes, join, map, keyed, arith, nat_beq, if◌then◌else◌, All,
}
use ac.Common.{ℕ, String, ◌++◌, ◌≢◌, ◌||◌}
use ac.Cli.Control.Lines.{drain}
use ac.Cli.Control.Client.{handlers_of}
use ac.Cli.Control.Hub.{new_hub, each, on}
use ac.Cli.Control.Hub.Replay.{buffered, dispatch_all, last_events, late_listener_hears}
use ac.Cli.Control.Hub.Bounded.{HubEvent, dispatches, listens, leaves}
use ac.Cli.Control.Restart.{
  Liveness, course, restarts, is_stale_daemon_version, is_runtime_adapter_mismatch, course-restarts,
}
use ac.Sdk.Message.{Json, null, num, obj, end}
use ac.Cli.Control.Lines.{on_chunks, on_data, break_line, trim, trim_start, is_space}
use ac.Cli.Control.Lines.Chunks.{IsFrame, write_frame, on_chunks-frames, on_data_ends}
use ac.Cli.Control.Frames.{property, request_frame, result_frame, is_control_method}
use ac.Cli.Control.Client.{connected_client, request, on_close}
use ac.Cli.Control.Client.Settle.{
  ClientEvent, requests, receives, client_run, given, requests_settled,
}
use ac.Cli.Control.Server.{
  calls, dispatch, recover_id, id_at, after, digits_at, read_digits, Handled, returned, reply,
}
use ac.Cli.Control.Exchange.{answer_of, receive_lines, request_round_trip}

recover_id_test : recover_id (codes "{id: 1, \"id\" : 42,") ≡ some 42
unfolding recover_id id_at after digits_at read_digits trim_start is_space
recover_id_test = refl

abbrev two_frames : List Text
two_frames = codes "{1}" ∷ codes "{2}" ∷ []

two_frames-IsFrame : All IsFrame two_frames
unfolding trim trim_start is_space
two_frames-IsFrame = (
  (refl, omega arith, (refl, (refl, (refl, tt)))),
  ((refl, omega arith, (refl, (refl, (refl, tt)))), tt),
)

abbrev three_chunks : List Text
three_chunks = codes "{1" ∷ codes "}\n{" ∷ codes "2}\n" ∷ []

three_chunks-join : join three_chunks ≡ join (map write_frame two_frames)
unfolding join
three_chunks-join = refl

on_chunks-frames_example : on_chunks [] three_chunks ≡ (two_frames, [])
on_chunks-frames_example =
    on_chunks-frames three_chunks two_frames two_frames-IsFrame three_chunks-join

half_line : break_line (codes "{0") ≡ none
unfolding break_line
half_line = refl

abbrev one_call : List ClientEvent
one_call =
    requests "daemon.status" (obj end)
    ∷ requests "daemon.stop" (obj end)
    ∷ receives (result_frame 2 null)
    ∷ []

requests_settled_example :
    (keyed 1 (client_run connected_client one_call).settled
        + keyed 1 (client_run connected_client one_call).pending
      ≡ given (client_run connected_client one_call).next_id 1)
    × (keyed 1 (on_close (client_run connected_client one_call)).settled
        ≡ given (client_run connected_client one_call).next_id 1)
    × ((on_close (client_run connected_client one_call)).pending ≡ [])
requests_settled_example = requests_settled one_call 1

abbrev status_request : Json
status_request = request_frame 1 "daemon.status" (obj end)

abbrev status_reply : Json
status_reply = result_frame 1 (num 5)

-- A notation that has these two values only.
abbrev write_two : Json → Text
write_two j = elim (property "method" j) [ none ↦ codes "a" | some m ↦ codes "q" ]

abbrev read_two : Text → Option Json
read_two [] = none
read_two (c ∷ s) = if nat_beq c b'q' then some status_request else some status_reply

status_known : is_control_method "daemon.status" ≡ true
unfolding is_control_method contains
status_known = refl

abbrev five : Handled
five = returned (some (num 5))

status_back : read_two (write_two (reply 1 five)) ≡ some (reply 1 five)
unfolding reply
status_back = refl

status_framed : IsFrame (write_two (reply 1 five))
unfolding reply trim trim_start is_space
status_framed = (refl, omega arith, (refl, tt))

reply_chunks : join (codes "a\n" ∷ []) ≡ write_frame (write_two (reply 1 five))
unfolding join reply
reply_chunks = refl

request_round_trip_example :
    ((request connected_client "daemon.status" (obj end)).written ≡ status_request ∷ [])
    × (dispatch read_two (write_two status_request) "" ≡ calls 1 "daemon.status" (obj end))
    × ((receive_lines read_two
          (request connected_client "daemon.status" (obj end))
          (on_chunks [] (codes "a\n" ∷ [])).0).settled
        ≡ (1, answer_of five) ∷ [])
request_round_trip_example =
    request_round_trip read_two write_two connected_client "daemon.status" "" end five
      (codes "a\n" ∷ []) refl status_known refl status_back status_framed reply_chunks

on_data_ends_example :
    (break_line (on_data (codes "{1") (codes "}\n{")).1 ≡ none)
    × (drain 9 (codes "{1" ++ codes "}\n{") ≡ on_data (codes "{1") (codes "}\n{"))
on_data_ends_example = on_data_ends (codes "{1") (codes "}\n{") 9 (omega arith)

abbrev registered : String
registered = "agent.registered"

abbrev two_values : List (Option Json)
two_values = some (num 1) ∷ some (num 2) ∷ []

no_handlers : handlers_of (lookup registered new_hub.handlers) ≡ []
unfolding lookup
no_handlers = refl

no_events : buffered new_hub registered ≡ []
unfolding lookup
no_events = refl

late_listener_hears_example :
    (dispatch_all
      (on (dispatch_all new_hub registered two_values) registered 7)
      registered
      two_values).called
    ≡ each 7 (last_events (buffered new_hub registered ++ two_values) ++ two_values)
late_listener_hears_example =
    late_listener_hears new_hub registered 7 two_values two_values no_handlers
      (rw no_events (omega arith))

abbrev hub_session : List HubEvent
hub_session =
    dispatches registered none
    ∷ listens registered 7
    ∷ leaves registered 7
    ∷ dispatches registered none
    ∷ []

abbrev older : Liveness
older = record {
  control_socket = true;
  running = true;
  version = some "1.0.0";
  runtime_adapter = some "socket";
  pid = some 41;
}

older-restarted : course older (some "1.1.0") none (some 41) 40 ≡ restarts 41
unfolding course is_stale_daemon_version
older-restarted = refl

course-restarts_example :
    (◌≢◌ {A = ℕ} 41 40)
    × (◌≢◌ {A = Option ℕ} (some 41) none)
    × (older.control_socket ≡ true)
    × ((is_stale_daemon_version older.version (some "1.1.0")
          || is_runtime_adapter_mismatch older.runtime_adapter none)
        ≡ true)
course-restarts_example = course-restarts older (some "1.1.0") none (some 41) 40 41 older-restarted

-- ===== src/Cli/Gateway/Tests.antt =====
-- The theorems on the gateway adapter at a short conversation.
use ac.Common.{
  ◌≡◌, ◌||◌, ◌++◌, refl, String, Option, none, some, List, [], ◌∷◌, true, false, is_some, Text,
  codes, text_beq, text_eq, nat_eq, contains, IsDistinct, All, arith,
}
use ac.Cli.Control.Lines.{trim, trim_start, is_space}
use ac.Cli.Gateway.Values.{Value, Values, str, num, obj, arr, end, member, nil, item}
use ac.Cli.Gateway.Frames.{Frame, preview, thinking, parse_inbound_chat}
use ac.Cli.Gateway.Frames.{build_ac2_session_key}
use ac.Cli.Gateway.Threads.{index_of_text, thread_of_key, marker_of}
use ac.Cli.Gateway.Threads.Keys.{thread_name, thread_of_key-build}
use ac.Cli.Gateway.Events.Scope.{segment}
use ac.Cli.Gateway.Runs.{Turn, on_event, on_events}
use ac.Cli.Gateway.Runs.Commits.{segments, names, texts, segments_committed_once}
use ac.Cli.Gateway.Runs.Anonymous.{anonymous_segment-lost}
use ac.Cli.Gateway.Turns.{Answers, ok, new_turn, effective_thid, handle_inbound}
use ac.Cli.Gateway.Turns.Ends.{IsOf, is_end, turn_ends}
use ac.Cli.Gateway.Link.{
  Link, new_link, connect, stop, fire_timer, handshake_fails, connection_closes,
}
use ac.Cli.Gateway.Link.Alive.{LinkEvent, succeeds, rejects, closes, fires, link_run, link_alive}
use ac.Cli.Gateway.Link.Done.{stop_final}
use ac.Cli.Gateway.Link.Late.{late_close-replaces_client}
use ac.Cli.Gateway.History.{map_history_messages}
use ac.Cli.Gateway.History.Chats.{chats, raw_chats, history_keeps_chats}

abbrev no_parse : Text → Option Value
no_parse s = none

abbrev no_text : Value → Text
no_text v = []

abbrev thread_id : Text
thread_id = codes "t1"

abbrev fresh_turn : Turn
fresh_turn = new_turn thread_id (codes "ac2:did:t1") 5000

abbrev hello : Text
hello = codes "hello"

abbrev there : Text
there = codes "there"

abbrev two_segments : List (String × Value)
two_segments =
    ("session.message", segment hello)
    ∷ ("chat", obj (member "message" (str (codes "hello the")) end))
    ∷ ("session.message", segment (codes "there, you"))
    ∷ []

segments_committed_once_example :
    (names (segments (on_events no_parse no_text fresh_turn two_segments).sent)
      ≡ (on_events no_parse no_text fresh_turn two_segments).run.committed_message_ids)
    × (texts (segments (on_events no_parse no_text fresh_turn two_segments).sent)
        ≡ (on_events no_parse no_text fresh_turn two_segments).run.committed_text)
    × IsDistinct (on_events no_parse no_text fresh_turn two_segments).run.committed_message_ids
segments_committed_once_example =
    segments_committed_once no_parse no_text fresh_turn two_segments refl refl refl

hello-said : text_beq (trim hello) [] ≡ false
unfolding trim trim_start is_space
hello-said = refl

there-said : text_beq (trim there) [] ≡ false
unfolding trim trim_start is_space
there-said = refl

anonymous_segment-lost_example :
    on_event no_parse no_text
      (on_event no_parse no_text fresh_turn ("session.message", segment hello))
      ("session.message", segment there)
    ≡ on_event no_parse no_text fresh_turn ("session.message", segment hello)
anonymous_segment-lost_example =
    anonymous_segment-lost no_parse no_text fresh_turn hello there hello-said there-said refl

abbrev answers : Answers
answers = record {
  client = true;
  ready = true;
  now = 5000;
  accepted = some (record { run_id = codes "run"; session_key = none });
  events = two_segments;
  waited = ok;
  history = [];
  fresh_id = codes "m1";
}

chat-said : text_beq (trim (parse_inbound_chat no_parse hello).text) [] ≡ false
unfolding parse_inbound_chat trim trim_start is_space
chat-said = refl

turn_ends_example :
    (middle : List Frame) × (last : Frame) × (handle_inbound no_parse no_text
        (some (codes "did"))
        hello
        thread_id
        answers
      ≡ preview
          (effective_thid no_parse no_text (parse_inbound_chat no_parse hello) thread_id)
          thinking
          none
          none
        ∷ (middle ++ last ∷ []))
    × All
        (IsOf (effective_thid no_parse no_text (parse_inbound_chat no_parse hello) thread_id))
        middle
    × (is_end (effective_thid no_parse no_text (parse_inbound_chat no_parse hello) thread_id) last
        ≡ true)
turn_ends_example = turn_ends no_parse no_text (codes "did") hello thread_id answers refl chat-said

abbrev failures : List LinkEvent
failures = rejects 0 ∷ fires ∷ succeeds ∷ closes 0 ∷ closes 1 ∷ []

link_alive_example :
    ((link_run (connect new_link) failures).stopped
      || is_some (link_run (connect new_link) failures).client
      || is_some (link_run (connect new_link) failures).reconnect_timer)
    ≡ true
link_alive_example = link_alive failures

stop_final_example :
    ((link_run (stop (connect new_link)) failures).client ≡ none)
    × ((link_run (stop (connect new_link)) failures).reconnect_timer ≡ none)
    × ((link_run (stop (connect new_link)) failures).next_connection
        ≡ (connect new_link).next_connection)
stop_final_example = stop_final (connect new_link) failures

abbrev linked : Link
linked = record new_link { client = some 0; open_connections = 0 ∷ []; next_connection = 1 }

late_close-replaces_client_example :
    ((fire_timer (connection_closes (fire_timer (handshake_fails linked 0)) 0)).client ≡ some 2)
    × (contains
          (fire_timer
            (connection_closes (fire_timer (handshake_fails linked 0)) 0)).open_connections
          1
        ≡ true)
    × (contains (fire_timer (connection_closes (fire_timer (handshake_fails linked 0)) 0)).closed 1
        ≡ contains linked.closed 1)
late_close-replaces_client_example =
    late_close-replaces_client linked 0 refl refl refl (omega arith)

abbrev transcript : Values
transcript =
    item
      (obj (
        member "role" (str (codes "user"))
          (member "content" (str hello) (member "timestamp" (num 3) end))))
      (item
        (obj (
          member "role" (str (codes "assistant")) (
            member "content"
              (arr (
                item
                  (obj (
                    member "type" (str (codes "toolCall"))
                      (member "id" (str (codes "c1")) (member "name" (str (codes "exec")) end))))
                  nil))
              end)))
        (item (obj (member "role" (str (codes "assistant")) (member "content" (str there) end)))
          nil))

history_keeps_chats_example :
    chats (map_history_messages no_parse no_text transcript) ≡ raw_chats transcript
history_keeps_chats_example = history_keeps_chats no_parse no_text transcript

-- The identifiers of the test are in lower case.
abbrev same_case : Text → Text
same_case s = s

abbrev controller : Text
controller = codes "did:key:z6"

abbrev agent_key_prefix : Text
agent_key_prefix = codes "agent:main"

no_subagent :
    index_of_text
      (codes ":subagent:")
      (same_case (agent_key_prefix ++ (codes ":" ++ build_ac2_session_key controller thread_id)))
    ≡ none
unfolding index_of_text build_ac2_session_key
no_subagent = refl

marker_found :
    index_of_text
      (marker_of same_case controller)
      (same_case (agent_key_prefix ++ (codes ":" ++ build_ac2_session_key controller thread_id)))
    ≡ some 10
unfolding index_of_text build_ac2_session_key
marker_found = refl

thread_of_key-build_example :
    thread_of_key same_case controller
      (agent_key_prefix ++ (codes ":" ++ build_ac2_session_key controller thread_id))
    ≡ some (thread_name thread_id)
thread_of_key-build_example =
    thread_of_key-build same_case agent_key_prefix controller thread_id refl no_subagent
      marker_found

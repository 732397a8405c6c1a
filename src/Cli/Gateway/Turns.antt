-- ===== src/Cli/Gateway/Turns.antt =====
-- packages/ac2-cli/src/runtime/gateway/adapter.ts: `handleInbound`, one turn of a conversation. What the
-- turn awaits comes as an argument, and so do the events that come while it is the active run.
pub mod Ends
use ac.Common.{
  ℕ, ◌-◌, String, Option, none, some, List, [], ◌∷◌, ◌++◌, if◌then◌else◌, Bool, true, false, not,
  text_beq, Text, codes, or_else,
}
use ac.Cli.Control.Lines.{trim}
use ac.Cli.Gateway.Values.{Value, nonempty_text}
use ac.Cli.Gateway.Frames.{
  Frame, preview, finalize, discard, notice, thinking, error, HistoryMessage, InboundChat,
  parse_inbound_chat, build_ac2_session_key,
}
use ac.Cli.Gateway.Events.{ActiveRun}
use ac.Cli.Gateway.Runs.{Turn, send, on_events, finalize_run}

-- The answer to the `agent` request.
pub record Accepted : Type 0 where
  pub run_id : Text
  pub session_key : Option Text

-- The answer to `agent.wait`; `breaks` is a request that throws.
pub data Waited : Type 0 where
  ok timeout failed breaks : Waited

-- What a turn finds: whether there is a client and its handshake succeeds, what it is answered, the
-- events for it and the history that it may ask for.
pub record Answers : Type 0 where
  pub client : Bool
  pub ready : Bool
  pub now : ℕ
  pub accepted : Option Accepted
  pub events : List (String × Value)
  pub waited : Waited
  pub history : List HistoryMessage
  pub fresh_id : Text

abbrev pub run_start_skew_ms : ℕ
run_start_skew_ms = 2000

abbrev pub unreachable_text : Text
unreachable_text = codes "The OpenClaw gateway is not reachable right now."

abbrev pub error_text : Text
error_text = codes "The agent ran into an error and could not complete your request."

abbrev pub timeout_text : Text
timeout_text = codes "The agent did not respond in time."

abbrev pub unavailable : Turn → Text → Turn
unavailable t thid =
    send (send t (notice "gateway_unavailable" error unreachable_text)) (discard thid)

-- The `catch` of the run.
abbrev pub run_fails : Turn → Text → Text → Turn
run_fails t thid mid =
    send (send t (notice "agent_error" error error_text)) (finalize thid mid error_text)

abbrev pub new_run : Text → Text → ℕ → ActiveRun
new_run thid session_key now = record {
  run_id = [];
  thid = thid;
  session_key = session_key;
  text = [];
  committed_text = [];
  started_at = now - run_start_skew_ms;
  committed_message_ids = [];
  tool_cards = [];
  spawn_args = [];
}

abbrev pub new_turn : Text → Text → ℕ → Turn
new_turn thid session_key now = record {
  run = new_run thid session_key now;
  sent = preview thid thinking none none ∷ [];
  watched = [];
}

-- The key that the gateway gives is the one that events carry.
abbrev pub adopt : Turn → Accepted → Turn
adopt t accepted = record t {
  run = record t.run {
    run_id = accepted.run_id;
    session_key = or_else (nonempty_text accepted.session_key) t.run.session_key;
  };
}

abbrev pub after_wait : Waited → Turn → Text → Answers → Turn
after_wait ok t thid a = finalize_run t a.fresh_id a.history
after_wait timeout t thid a = send t (finalize thid a.fresh_id timeout_text)
after_wait failed t thid a = run_fails t thid a.fresh_id
after_wait breaks t thid a = run_fails t thid a.fresh_id

module _ (parse : Text → Option Value) (stringify : Value → Text) where
  -- From the `agent` request on.
  unfoldable pub run_turn : Turn → Text → Answers → Turn
  unfolding on_events finalize_run
  run_turn t thid a = elim a.accepted [
    | none ↦ run_fails t thid a.fresh_id
    | some accepted ↦
        after_wait a.waited (on_events parse stringify (adopt t accepted) a.events) thid a
  ]

  -- Whether there is a client, and whether its handshake succeeds.
  unfoldable pub if_reached : Bool → Bool → Turn → Text → Answers → Turn
  unfolding run_turn
  if_reached false ready t thid a = unavailable t thid
  if_reached true false t thid a = unavailable t thid
  if_reached true true t thid a = run_turn t thid a

  unfoldable pub start_turn : Text → Text → Answers → Turn
  unfolding if_reached
  start_turn thid session_key a =
      if_reached a.client a.ready (new_turn thid session_key a.now) thid a

  abbrev pub effective_thid : InboundChat → Text → Text
  effective_thid chat active_thid = if chat.explicit_thid then chat.thid else active_thid

  -- The frames of the turn, none if nobody sends or the text is blank.
  unfoldable pub handle_inbound : Option Text → Text → Text → Answers → List Frame
  unfolding start_turn parse_inbound_chat build_ac2_session_key trim
  handle_inbound controller payload active_thid a = elim (nonempty_text controller) [
    | none ↦ []
    | some did ↦
        let chat = parse_inbound_chat parse payload in
        let thid = effective_thid chat active_thid in
        if text_beq (trim chat.text) []
        then []
        else (start_turn thid (build_ac2_session_key did thid) a).sent
  ]

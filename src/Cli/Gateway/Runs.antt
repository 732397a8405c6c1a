-- ===== src/Cli/Gateway/Runs.antt =====
-- packages/ac2-cli/src/runtime/gateway/adapter.ts: what a run sends to the wallet. `sent` records the
-- frames that go out on the stream channel, and `watched` the background tasks that are awaited.
pub mod Commits
pub mod Anonymous
use ac.Common.{
  ℕ, String, Option, none, some, List, [], ◌∷◌, ◌++◌, if◌then◌else◌, Bool, true, false, ◌==◌,
  string_eq, text_eq, Text, codes, ◌>>=◌, first_of, or_else, when, not, text_beq, ◌&&◌, ◌||◌, leb,
  contains, lookup, insert, take, reverse,
}
use ac.Cli.Control.Lines.{trim}
use ac.Cli.Gateway.Values.{
  Value, as_text, as_object, get, nonempty_text, SpawnAccepted, parse_spawn_accepted,
  format_tool_command, extract_tool_chunk_text,
}
use ac.Cli.Gateway.Tools.{compute_tail, tool_card_id, merge_tool_output}
use ac.Cli.Gateway.Frames.{
  Frame, preview, finalize, discard, notice, tool_frame, task_frame, ToolCard, TaskCard, thinking,
  tool, typing, running, HistoryMessage, says, tool_entry, task_entry, user, assistant,
}
use ac.Cli.Gateway.Events.{
  ActiveRun, TrackedToolCard, TrackedSpawnArgs, ToolEvent, ToolPhase, start, update, result,
  InterpretedEvent, types, commits, runs_tool, interpret_gateway_event,
}

-- `watchSpawnedTask`'s argument.
pub record Watch : Type 0 where
  pub card_id : Text
  pub title : Text
  pub prompt : Option Text
  pub thid : Text
  pub child_run_id : Text
  pub child_session_key : Text

pub record Turn : Type 0 where
  pub run : ActiveRun
  pub sent : List Frame
  pub watched : List Watch

abbrev pub send : Turn → Frame → Turn
send t frame = record t { sent = t.sent ++ frame ∷ [] }

unfoldable pub commit_segment : Turn → Text → Text → Turn
unfolding contains
commit_segment t message_id text =
    if contains t.run.committed_message_ids message_id
    then t
    else send
        (record t {
          run = record t.run {
            committed_message_ids = t.run.committed_message_ids ++ message_id ∷ [];
            committed_text = t.run.committed_text ++ text;
          };
        })
        (finalize t.run.thid message_id text)

abbrev pub preview_tail : Turn → Option Text → Turn
preview_tail t none = send t (preview t.run.thid typing none none)
preview_tail t (some tail) =
    if text_beq (trim tail) [] then t else send t (preview t.run.thid typing (some tail) none)

-- The live text, as far as it is not committed.
unfoldable pub type_snapshot : Turn → Text → Turn
unfolding compute_tail trim
type_snapshot t snapshot =
    preview_tail (record t { run = record t.run { text = snapshot } })
      (compute_tail snapshot t.run.committed_text)

abbrev pub spawn_args_of : Option Value → TrackedSpawnArgs
spawn_args_of args = record {
  task = as_object args >>= λ a. as_text (get "task" a);
  task_name = as_object args >>= λ a. as_text (get "taskName" a);
  label = as_object args >>= λ a. as_text (get "label" a);
}

abbrev pub no_spawn_args : TrackedSpawnArgs
no_spawn_args = record { task = none; task_name = none; label = none }

abbrev pub spawn_title : TrackedSpawnArgs → Text
spawn_title args =
    or_else
      (first_of args.task_name (first_of args.label (args.task >>= λ task. some (take 60 task))))
      (codes "Background task")

abbrev pub task_card_id : SpawnAccepted → Text
task_card_id accepted = codes "task-" ++ accepted.child_session_key

unfoldable pub start_task : Turn → TrackedSpawnArgs → SpawnAccepted → Turn
start_task t args accepted = record t {
  sent =
      t.sent
      ++ task_frame t.run.thid (record {
        id = task_card_id accepted;
        title = spawn_title args;
        status = running;
        prompt = args.task;
        result = none;
      })
        ∷ [];
  watched =
      t.watched
      ++ (record {
        card_id = task_card_id accepted;
        title = spawn_title args;
        prompt = args.task;
        thid = t.run.thid;
        child_run_id = accepted.run_id;
        child_session_key = accepted.child_session_key;
      })
        ∷ [];
}

module _ (parse : Text → Option Value) (stringify : Value → Text) where
  abbrev pub spawn_phase : ToolPhase → Turn → ToolEvent → Turn
  spawn_phase start t e = record t {
    run = record t.run {
      spawn_args = insert e.tool_call_id (spawn_args_of e.args) t.run.spawn_args;
    };
  }
  spawn_phase update t e = t
  spawn_phase result t e = elim (parse_spawn_accepted parse e.final_result) [
    | none ↦ t
    | some accepted ↦
        start_task t (or_else (lookup e.tool_call_id t.run.spawn_args) no_spawn_args) accepted
  ]

  unfoldable pub handle_spawn_result : Turn → ToolEvent → Turn
  unfolding start_task parse_spawn_accepted
  handle_spawn_result t e = spawn_phase e.phase t e

  abbrev pub yield_phase : ToolPhase → Turn → ToolEvent → Turn
  yield_phase start t e = send (send t (preview t.run.thid thinking none none)) (
      tool_frame t.run.thid (record {
        id = tool_card_id e.tool_call_id;
        name = some (0x23f3 ∷ codes " awaiting background task");
        command = none;
        output = some (codes "Delegated work is running; results will post here when ready.");
      }))
  yield_phase update t e = t
  yield_phase result t e = t

  abbrev pub card_frame : Turn → ToolEvent → TrackedToolCard → Frame
  card_frame t e card = tool_frame t.run.thid (record {
    id = tool_card_id e.tool_call_id;
    name = card.name;
    command = card.command;
    output = card.output;
  })

  abbrev pub keep_card : Turn → ToolEvent → TrackedToolCard → Turn
  keep_card t e card =
      send
        (record t {
          run = record t.run { tool_cards = insert e.tool_call_id card t.run.tool_cards };
        })
        (card_frame t e card)

  abbrev pub with_output : TrackedToolCard → Option Text → TrackedToolCard
  with_output card none = card
  with_output card (some chunk) = record card {
    output = some (merge_tool_output (or_else card.output []) chunk);
  }

  abbrev pub tracked_card : Turn → ToolEvent → TrackedToolCard
  tracked_card t e =
      or_else (lookup e.tool_call_id t.run.tool_cards)
        (record { name = some e.name; command = none; output = none })

  abbrev pub tool_phase_step : ToolPhase → Turn → ToolEvent → Turn
  tool_phase_step start t e =
      keep_card (send t (preview t.run.thid tool none (some e.name))) e (record {
        name = some e.name;
        command = nonempty_text (format_tool_command stringify e.args);
        output = none;
      })
  tool_phase_step update t e =
      keep_card t e
        (with_output (tracked_card t e) (extract_tool_chunk_text stringify e.partial_result))
  tool_phase_step result t e =
      keep_card t e
        (with_output (tracked_card t e) (extract_tool_chunk_text stringify e.final_result))

  unfoldable pub handle_tool_event : Turn → ToolEvent → Turn
  unfolding handle_spawn_result
  handle_tool_event t e =
      if text_beq e.name (codes "sessions_spawn")
      then handle_spawn_result t e
      else if text_beq e.name (codes "sessions_yield")
      then yield_phase e.phase t e
      else tool_phase_step e.phase t e

  -- The event callback, on the active run.
  unfoldable pub take_event : Turn → InterpretedEvent → Turn
  unfolding commit_segment type_snapshot handle_tool_event
  take_event t (commits message_id text) = commit_segment t message_id text
  take_event t (types snapshot) = type_snapshot t snapshot
  take_event t (runs_tool e) = handle_tool_event t e

  unfoldable pub on_event : Turn → String × Value → Turn
  unfolding take_event
  on_event t (event, payload) = elim (interpret_gateway_event event payload t.run) [
    | none ↦ t
    | some e ↦ take_event t e
  ]

  unfoldable pub on_events : Turn → List (String × Value) → Turn
  unfolding on_event
  on_events t [] = t
  on_events t (e ∷ es) = on_events (on_event t e) es

-- The last of the agent's own messages, with its time.
abbrev pub last_from : List HistoryMessage → Option (Text × Option ℕ)
last_from [] = none
last_from (says assistant text at ∷ rest) = some (text, at)
last_from (says user text at ∷ rest) = last_from rest
last_from (tool_entry card at ∷ rest) = last_from rest
last_from (task_entry card at ∷ rest) = last_from rest

abbrev pub last_assistant : List HistoryMessage → Option (Text × Option ℕ)
last_assistant messages = last_from (reverse messages)

abbrev pub not_before : ℕ → Option ℕ → Bool
not_before started none = true
not_before started (some at) = leb started at

-- The reply that the run's history has, if it is of this run.
unfoldable pub finalize_history : Turn → Text → Option (Text × Option ℕ) → Turn
unfolding trim
finalize_history t mid none = send t (discard t.run.thid)
finalize_history t mid (some (text, at)) =
    if not (text_beq (trim text) []) && not_before t.run.started_at at
    then send t (finalize t.run.thid mid text)
    else send t (discard t.run.thid)

abbrev pub finalize_streamed : Turn → Text → Text → List HistoryMessage → Turn
finalize_streamed t mid [] history = finalize_history t mid (last_assistant history)
finalize_streamed t mid (c ∷ streamed) history =
    send (record t { run = record t.run { committed_text = t.run.committed_text ++ c ∷ streamed } })
      (finalize t.run.thid mid (c ∷ streamed))

abbrev pub finalize_committed : Turn → Text → List Text → List HistoryMessage → Turn
finalize_committed t mid [] history = finalize_streamed t mid (trim t.run.text) history
finalize_committed t mid (id ∷ ids) history = send t (discard t.run.thid)

-- `finalizeRun`; `history` is what the gateway answers, if it is asked.
unfoldable pub finalize_run : Turn → Text → List HistoryMessage → Turn
unfolding finalize_history trim
finalize_run t mid history = finalize_committed t mid t.run.committed_message_ids history

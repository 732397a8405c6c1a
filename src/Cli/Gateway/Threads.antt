-- ===== src/Cli/Gateway/Threads.antt =====
-- packages/ac2-cli/src/runtime/gateway/adapter.ts: the threads of a controller, the conversation that the
-- wallet is in, and background tasks. `lower` is `toLowerCase`.
pub mod Keys
use ac.Common.{
  nat_beq, ℕ, suc, ◌+◌, ◌≡◌, ◌≢◌, refl, sym, ap, ◌∙◌, Option, none, some, List, [], ◌∷◌, ◌++◌,
  if◌then◌else◌, Bool, true, false, not, ◌&&◌, ◌||◌, text_beq, text_beq_refl, text_eq, Text, codes,
  starts_with, is_some, length, length-append, drop, drop-append, ◌>>=◌, first_of, or_else, when,
  arith, Bool-cases, inl, inr,
}
use mathlib.Core.List.{append-nil, append_assoc}
use ac.Cli.Control.Lines.{trim}
use ac.Cli.State.Listing.{latest_first}
use ac.Cli.Gateway.Values.{
  Value, Values, null, bool, num, str, arr, obj, nil, item, get, as_text, as_num, nonempty_text,
}
use ac.Cli.Gateway.Frames.{
  Frame, notice, warning, task_frame, history, conversations, Thread, HistoryMessage, running,
  completed, failed, Status, channel_id, default_thid, build_ac2_session_key,
}
use ac.Cli.Gateway.Runs.{Watch, last_assistant}

-- `s.indexOf(word)`, `none` for -1.
unfoldable pub index_of_text : Text → Text → Option ℕ
index_of_text word [] = if text_beq word [] then some 0 else none
index_of_text word (c ∷ s) =
    let later = index_of_text word s in
    if starts_with word (c ∷ s) then some 0 else elim later [ none ↦ none | some i ↦ some (suc i) ]

abbrev pub thid_of_rest : Text → Text
thid_of_rest [] = default_thid
thid_of_rest (c ∷ []) = default_thid
thid_of_rest (c ∷ d ∷ rest) = if starts_with (codes ":") (c ∷ []) then d ∷ rest else default_thid

-- A value that is neither missing nor falsy.
abbrev pub is_truthy : Option Value → Bool
is_truthy none = false
is_truthy (some null) = false
is_truthy (some (bool b)) = b
is_truthy (some (num n)) = not (nat_beq n 0)
is_truthy (some (str s)) = not (text_beq s [])
is_truthy (some (arr items)) = true
is_truthy (some (obj members)) = true

module _ (lower : Text → Text) where
  abbrev pub marker_of : Text → Text
  marker_of controller_did = codes ":ac2:" ++ lower controller_did

  -- The thread that a session key is of, if it is one of the controller's.
  unfoldable pub thread_of_key : Text → Text → Option Text
  unfolding index_of_text
  thread_of_key controller_did key =
      if is_some (index_of_text (codes ":subagent:") (lower key)) then none else do
        at ← index_of_text (marker_of controller_did) (lower key)
        some (thid_of_rest (drop (at + length (marker_of controller_did)) key))

  unfoldable pub thread_of_entry : Text → Value → Option Thread
  unfolding thread_of_key
  thread_of_entry controller_did entry = do
    key ← as_text (get "key" entry)
    thid ← thread_of_key controller_did key
    when (not (is_truthy (get "spawnedBy" entry))) (
        some (record {
          thid = thid;
          title = as_text (get "derivedTitle" entry);
          updated_at =
              first_of (as_num (get "updatedAt" entry)) (as_num (get "lastActivityAt" entry));
        }))

  abbrev pub threads_of : Text → Values → List Thread
  threads_of controller_did nil = []
  threads_of controller_did (item entry entries) = elim (thread_of_entry controller_did entry) [
    | none ↦ threads_of controller_did entries
    | some thread ↦ thread ∷ threads_of controller_did entries
  ]

  -- What `sessions.list` answers, the latest first.
  unfoldable pub list_controller_threads : Text → Values → List Thread
  unfolding latest_first
  list_controller_threads controller_did sessions =
      latest_first (λ (t : Thread). or_else t.updated_at 0) (threads_of controller_did sessions)

pub record Session : Type 0 where
  pub controller_did : Option Text
  pub locked : Bool
  pub active_thid : Text

abbrev pub new_session : Session
new_session = record { controller_did = none; locked = false; active_thid = default_thid }

-- `replayHistory`, with the history that is fetched.
abbrev pub replay_history : Text → List HistoryMessage → List Frame
replay_history thid [] = []
replay_history thid (m ∷ ms) = history thid (m ∷ ms) ∷ []

abbrev pub identity_notice : Bool → List Frame
identity_notice true = []
identity_notice false =
    notice "identity_missing" warning
      (codes "No agent identity has been granted for this connection yet.")
    ∷ []

abbrev pub greet : Option Text → Text → List Thread → List HistoryMessage → List Frame
greet none thid threads messages = []
greet (some did) thid threads messages = conversations threads ∷ replay_history thid messages

-- The frames that a connection is greeted with; the notice goes first, since the others are awaited.
unfoldable pub on_connected :
    Session → Option Text → Bool → Bool → List Thread → List HistoryMessage → Session × List Frame
on_connected s did locked granted threads messages = (
  record s { controller_did = did; locked = locked },
  if locked
      then []
      else identity_notice granted ++ greet (nonempty_text did) s.active_thid threads messages,
)

unfoldable pub conversation_closes : Session → Text → Session
conversation_closes s thid =
    if text_beq s.active_thid thid then record s { active_thid = default_thid } else s

abbrev pub hydrate : Option Text → Bool → Bool → Text → List HistoryMessage → List Frame
hydrate none locked ready thid messages = []
hydrate (some did) locked ready thid messages =
    if not locked && ready then replay_history thid messages else []

-- `ready`: there is a client, and its handshake succeeds.
unfoldable pub conversation_opens :
    Session → Text → Option Text → Bool → List HistoryMessage → Session × List Frame
conversation_opens s thid did ready messages = (
  record s { active_thid = thid },
  hydrate (nonempty_text (first_of did s.controller_did)) s.locked ready thid messages,
)

unfoldable pub on_disconnected : Session → Session
on_disconnected s = record s { active_thid = default_thid }

-- How a background task ends: with the child's history, or not well.
pub data TaskEnd : Type 0 where
  done : List HistoryMessage → TaskEnd
  timed_out errored breaks : TaskEnd

abbrev pub task_error : Text
task_error = codes "Background task ran into an error."

abbrev pub reply_text : Option (Text × Option ℕ) → Text
reply_text none = codes "(no reply)"
reply_text (some (text, at)) = if text_beq (trim text) [] then codes "(no reply)" else text

abbrev pub task_status : TaskEnd → Status
task_status (done messages) = completed
task_status timed_out = failed
task_status errored = failed
task_status breaks = failed

abbrev pub task_result : TaskEnd → Text
task_result (done messages) = reply_text (last_assistant messages)
task_result timed_out = codes "Background task timed out."
task_result errored = task_error
task_result breaks = task_error

-- What `watchSpawnedTask` sends at the end, unless the adapter was stopped.
unfoldable pub finish_task : Watch → Bool → TaskEnd → List Frame
finish_task w stopped end =
    if stopped
    then []
    else task_frame w.thid (record {
      id = w.card_id;
      title = w.title;
      status = task_status end;
      prompt = w.prompt;
      result = some (task_result end);
    })
      ∷ []

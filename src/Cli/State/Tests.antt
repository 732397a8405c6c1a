-- ===== src/Cli/State/Tests.antt =====
-- The theorems on the state file at a session with a tool card, a message and a grant.
use ac.Common.{
  Text, ◌≡◌, ◌≤◌, refl, none, some, List, [], ◌∷◌, true, string_eq, lookup, insert, codes,
}
use ac.Cli.State.{
  Disk, ChatMessage, Conversation, Identity, user, tool, task, empty_state, save, save_connection,
  save_conversation, find_conversation, get_connection, connection_or_new, new_connection,
  new_conversation, record_conversation_message, with_message, seeded_title,
  set_connection_identity,
}
use ac.Cli.State.Cards.{
  ToolActivity, record_tool_activity, with_card, conversation_or_new, upsert, cards, is_card, blank,
  patch_tool, over, nonempty,
}
use ac.Cli.State.History.{
  Write, grants, says, runs_tool, apply, apply_all, thread, threads_isolated,
}
use ac.Cli.State.Unique.{cards_unique}
use ac.Sdk.Message.{str}
use ac.Cli.Control.Lines.{trim, trim_start, is_space}
use ac.Cli.State.Runtime.{GivenConfig}
use ac.Cli.State.Grants.{identity_granted_last, last_grant}

abbrev disk : Disk
disk = record { writable = true; state = empty_state }

abbrev hello : ChatMessage
hello = record {
  role = user;
  text = codes "hello";
  at = 3;
  id = none;
  tool_name = none;
  command = none;
  output = none;
  title = none;
  prompt = none;
  status = none;
  result = none;
}

abbrev runs : ToolActivity
runs = record { id = "c1"; name = some "exec"; command = some "ls"; output = none }

abbrev wallet_identity : Identity
wallet_identity = record {
  agent_did = "did:key:agent";
  controller_did = "did:key:wallet";
  public_key = "a2V5";
  material = none;
}

abbrev session : List Write
session =
    grants "r1" wallet_identity 1
    ∷ runs_tool "r1" "t1" runs 2
    ∷ says "r1" "t1" hello 3
    ∷ runs_tool "r1" "t1" runs 4
    ∷ []

abbrev left_thread : Conversation
left_thread = record {
  thid = "t1";
  title = some (codes "hello");
  created_at = 2;
  updated_at = 4;
  messages =
      record {
        role = tool;
        text = [];
        at = 4;
        id = some "c1";
        tool_name = some "exec";
        command = some "ls";
        output = none;
        title = none;
        prompt = none;
        status = none;
        result = none;
      }
      ∷ hello
      ∷ [];
}

session-thread : thread (apply_all disk session) "r1" "t1" ≡ some left_thread
unfolding thread apply_all apply record_tool_activity record_conversation_message
    set_connection_identity save save_connection save_conversation find_conversation get_connection
    connection_or_new new_connection new_conversation with_message seeded_title with_card
    conversation_or_new upsert is_card blank patch_tool over nonempty lookup insert
session-thread = refl

cards_unique_example :
    (cards tool "c1" left_thread.messages ≤ 1) × (cards task "c1" left_thread.messages ≤ 1)
unfolding thread lookup
cards_unique_example =
    cards_unique disk session "r1" "t1" "c1" left_thread (tt, (tt, (refl, (tt, tt)))) (λ j u. tt)
      session-thread

threads_isolated_example : thread (apply_all disk session) "r1" "t2" ≡ thread disk "r1" "t2"
threads_isolated_example =
    threads_isolated disk session "r1" "t2" (refl, (refl, (refl, (refl, tt))))

identity_granted_last_example : (apply_all disk session).state.identity ≡ last_grant none session
identity_granted_last_example = identity_granted_last disk session refl

abbrev gateway : Text
gateway = codes "openclaw"

abbrev gateway_config : GivenConfig
gateway_config = ("token", some (str "t")) ∷ ("log", none) ∷ ("__env", some (str "x")) ∷ []

gateway-trimmed : trim gateway ≡ gateway
unfolding trim trim_start is_space
gateway-trimmed = refl

abbrev two_connections : Disk
two_connections = record {
  writable = true;
  state = record empty_state {
    connections = ("r1", new_connection "r1" 3) ∷ ("r2", new_connection "r2" 4) ∷ [];
  };
}

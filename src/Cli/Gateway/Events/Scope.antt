-- ===== src/Cli/Gateway/Events/Scope.antt =====
-- packages/ac2-cli/src/runtime/gateway/adapter.ts: segments without an id.
use ac.Common.{◌≡◌, refl, some, [], ◌++◌, false, text_beq, Text, codes, length, text_eq}
use ac.Cli.Control.Lines.{trim}
use ac.Cli.Gateway.Values.{Value, str, obj, end, member, extract_message_text, content_text}
use ac.Cli.Gateway.Tools.{decimal}
use ac.Cli.Gateway.Events.{
  ActiveRun, commits, has_correlation, matches_active, commit_of, interpret_known,
  interpret_gateway_event,
}

-- A transcript segment of the agent that carries its text only.
abbrev pub segment : Text → Value
segment text = obj (
    member "message" (obj (member "role" (str (codes "assistant")) (member "text" (str text) end)))
      end)

pub segment-commits :
    (text : Text) (run : ActiveRun)
    → text_beq (trim text) [] ≡ false
    → interpret_gateway_event "session.message" (segment text) run
      ≡ some (commits (codes "anon-" ++ decimal (length text)) text)
unfolding interpret_gateway_event has_correlation matches_active interpret_known commit_of
    extract_message_text content_text
segment-commits text run said = rw said refl

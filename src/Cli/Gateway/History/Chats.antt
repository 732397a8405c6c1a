-- ===== src/Cli/Gateway/History/Chats.antt =====
-- packages/ac2-cli/src/runtime/gateway/adapter.ts: what is said in a transcript.
use ac.Common.{
  ℕ, zero, suc, ◌≡◌, refl, sym, ap, ◌∙◌, Option, none, some, List, [], ◌∷◌, ◌++◌, Text, text_eq,
  lookup, Bool-cases, inl, inr,
}
use mathlib.Core.List.{append-nil, append_assoc}
use ac.Cli.Gateway.Values.{
  Value, Values, null, bool, num, str, arr, obj, nil, item, get, as_text, nonempty_text, text_is,
  extract_history_at, SpawnAccepted, parse_spawn_accepted, extract_tool_chunk_text,
}
use ac.Cli.Gateway.Frames.{HistoryMessage, says, tool_entry, task_entry, Speaker}
use ac.Cli.Gateway.Events.{TrackedSpawnArgs}
use ac.Cli.Gateway.History.{
  Mapping, new_mapping, push_told, speaker_of, told, with_chunk, set_output, named_call, call_with,
  map_part, map_parts, map_content, push_task, output_at, tool_result, result_for, map_role,
  map_message, map_messages, map_history_messages,
}

-- What is said in an entry of the wallet's history.
abbrev pub said : HistoryMessage → List (Speaker × Text × Option ℕ)
said (says role text at) = (role, text, at) ∷ []
said (tool_entry card at) = []
said (task_entry card at) = []

abbrev pub chats : List HistoryMessage → List (Speaker × Text × Option ℕ)
chats [] = []
chats (entry ∷ entries) = said entry ++ chats entries

-- What is said in a message of the gateway's transcript.
abbrev pub raw_said : Option Speaker → Option Text → Option ℕ → List (Speaker × Text × Option ℕ)
raw_said none text at = []
raw_said (some role) none at = []
raw_said (some role) (some text) at = (role, text, at) ∷ []

abbrev pub raw_chats : Values → List (Speaker × Text × Option ℕ)
raw_chats nil = []
raw_chats (item message messages) =
    raw_said (speaker_of (as_text (get "role" message))) (told message) (extract_history_at message)
    ++ raw_chats messages

chats-append : (xs ys : List HistoryMessage) → chats (xs ++ ys) ≡ chats xs ++ chats ys
chats-append [] ys = refl
chats-append (x ∷ xs) ys =
    ap (λ rest. said x ++ rest) (chats-append xs ys)
    ∙ sym (append_assoc (said x) (chats xs) (chats ys))

-- An entry that says nothing.
silent :
    (xs : List HistoryMessage) (x : HistoryMessage) → said x ≡ [] → chats (xs ++ x ∷ []) ≡ chats xs
silent xs x quiet = chats-append xs (x ∷ []) ∙ rw quiet (append-nil (chats xs))

said-with_chunk :
    (entry : HistoryMessage) (chunk : Text) → said (with_chunk entry chunk) ≡ said entry
said-with_chunk (says role text at) chunk = refl
said-with_chunk (tool_entry card at) chunk = refl
said-with_chunk (task_entry card at) chunk = refl

chats-set_output :
    (entries : List HistoryMessage) (index : ℕ) (chunk : Text)
    → chats (set_output entries index chunk) ≡ chats entries
unfolding set_output
chats-set_output [] index chunk = refl
chats-set_output (entry ∷ entries) zero chunk =
    ap (λ s. s ++ chats entries) (said-with_chunk entry chunk)
chats-set_output (entry ∷ entries) (suc index) chunk =
    ap (λ rest. said entry ++ rest) (chats-set_output entries index chunk)

module _ (parse : Text → Option Value) (stringify : Value → Text) where
  chats-call :
      (m : Mapping) (part : Value) (at : Option ℕ) (id : Option Text)
      → chats (call_with parse stringify m part at id).mapped ≡ chats m.mapped
  chats-call m part at none = refl
  chats-call m part at (some id) =
      elim (Bool-cases (text_is "sessions_spawn" (as_text (get "name" part)))) [
        | inl e ↦ rw (e, named_call) refl
        | inr e ↦ elim (Bool-cases (text_is "sessions_yield" (as_text (get "name" part)))) [
          | inl f ↦ rw (e, f, named_call) refl
          | inr f ↦ rw (e, f, named_call) (silent m.mapped _ refl)
        ]
      ]

  chats-part :
      (m : Mapping) (at : Option ℕ) (part : Value)
      → chats (map_part parse stringify m at part).mapped ≡ chats m.mapped
  unfolding map_part
  chats-part m at part = elim (Bool-cases (text_is "toolCall" (as_text (get "type" part)))) [
    | inl e ↦ rw e (chats-call m part at (as_text (get "id" part)))
    | inr e ↦ rw e refl
  ]

  chats-parts :
      (m : Mapping) (at : Option ℕ) (parts : Values)
      → chats (map_parts parse stringify m at parts).mapped ≡ chats m.mapped
  unfolding map_parts
  chats-parts m at nil = refl
  chats-parts m at (item part parts) =
      chats-parts (map_part parse stringify m at part) at parts ∙ chats-part m at part

  chats-content :
      (m : Mapping) (at : Option ℕ) (content : Option Value)
      → chats (map_content parse stringify m at content).mapped ≡ chats m.mapped
  chats-content m at (some (arr parts)) = chats-parts m at parts
  chats-content m at (some null) = refl
  chats-content m at (some (bool b)) = refl
  chats-content m at (some (num n)) = refl
  chats-content m at (some (str s)) = refl
  chats-content m at (some (obj members)) = refl
  chats-content m at none = refl

  chats-task :
      (m : Mapping) (at : Option ℕ) (args : TrackedSpawnArgs) (accepted : Option SpawnAccepted)
      → chats (push_task parse stringify m at args accepted).mapped ≡ chats m.mapped
  chats-task m at args none = refl
  chats-task m at args (some accepted) = silent m.mapped _ refl

  chats-output :
      (m : Mapping) (index : Option ℕ) (chunk : Option Text)
      → chats (output_at parse stringify m index chunk).mapped ≡ chats m.mapped
  chats-output m none chunk = refl
  chats-output m (some index) none = refl
  chats-output m (some index) (some chunk) = chats-set_output m.mapped index chunk

  chats-tool_result :
      (m : Mapping) (message : Value) (id : Text) (args : Option TrackedSpawnArgs)
      → chats (tool_result parse stringify m message id args).mapped ≡ chats m.mapped
  chats-tool_result m message id (some args) =
      chats-task m (extract_history_at message) args (parse_spawn_accepted parse (some message))
  chats-tool_result m message id none =
      chats-output m (lookup id m.tool_call_index)
        (extract_tool_chunk_text stringify (get "content" message))

  chats-result_for :
      (m : Mapping) (message : Value) (id : Option Text)
      → chats (result_for parse stringify m message id).mapped ≡ chats m.mapped
  chats-result_for m message none = refl
  chats-result_for m message (some id) =
      chats-tool_result m message id (lookup id m.spawn_args_by_tool_call_id)

  chats-told :
      (m : Mapping) (role : Speaker) (text : Option Text) (at : Option ℕ)
      → chats (push_told m role at text).mapped ≡ chats m.mapped ++ raw_said (some role) text at
  chats-told m role none at = sym (append-nil (chats m.mapped))
  chats-told m role (some text) at = chats-append m.mapped (says role text at ∷ [])

  chats-role :
      (m : Mapping) (message : Value) (role : Option Speaker)
      → chats (map_role parse stringify m message role).mapped
        ≡ chats m.mapped ++ raw_said role (told message) (extract_history_at message)
  chats-role m message (some role) =
      let at = extract_history_at message in
      let n = map_content parse stringify m at (get "content" message) in
      chats-told n role (told message) at
      ∙ ap (λ said_before. said_before ++ raw_said (some role) (told message) at)
          (chats-content m at (get "content" message))
  chats-role m message none =
      elim (Bool-cases (text_is "toolResult" (as_text (get "role" message)))) [
        | inl e ↦
            rw (e, map_role)
              (chats-result_for m message (nonempty_text (as_text (get "toolCallId" message)))
                ∙ sym (append-nil (chats m.mapped)))
        | inr e ↦ rw (e, map_role) (sym (append-nil (chats m.mapped)))
      ]

  chats-messages :
      (m : Mapping) (messages : Values)
      → chats (map_messages parse stringify m messages).mapped
        ≡ chats m.mapped ++ raw_chats messages
  unfolding map_messages map_message
  chats-messages m nil = sym (append-nil (chats m.mapped))
  chats-messages m (item message messages) =
      let role = speaker_of (as_text (get "role" message)) in
      let own = raw_said role (told message) (extract_history_at message) in
      chats-messages (map_message parse stringify m message) messages
      ∙ ap (λ said_before. said_before ++ raw_chats messages) (chats-role m message role)
      ∙ append_assoc (chats m.mapped) own (raw_chats messages)

  pub history_keeps_chats :
      (raw : Values) → chats (map_history_messages parse stringify raw) ≡ raw_chats raw
  unfolding map_history_messages
  history_keeps_chats raw = chats-messages new_mapping raw

-- ===== src/Cli/Gateway/Turns/Ends.antt =====
-- packages/ac2-cli/src/runtime/gateway/adapter.ts: every turn ends.
use ac.Common.{
  ℕ, ◌≡◌, refl, sym, ap, ◌∙◌, subst, String, Option, none, some, List, [], ◌∷◌, ◌++◌, Bool, true,
  false, not, text_beq, text_beq_refl, text_eq, Text, All, All-append, Bool-cases, Option-cases,
  inl, inr, contains, ◌&&◌,
}
use mathlib.Core.List.{append-nil, append_assoc}
use ac.Cli.Control.Lines.{trim}
use ac.Cli.Gateway.Values.{Value, nonempty_text}
use ac.Cli.Gateway.Frames.{
  Frame, preview, finalize, discard, notice, tool_frame, task_frame, history, conversations,
  thinking, error, HistoryMessage, parse_inbound_chat, build_ac2_session_key,
}
use ac.Cli.Gateway.Events.{InterpretedEvent, types, commits, runs_tool, interpret_gateway_event}
use ac.Cli.Gateway.Runs.{
  Turn, send, commit_segment, type_snapshot, handle_tool_event, take_event, on_event, on_events,
  finalize_run, finalize_committed, finalize_streamed, finalize_history, not_before, last_assistant,
}
use ac.Cli.Gateway.Runs.Commits.{
  frame_thid, IsLive, IsLiveStep, type_snapshot-IsLiveStep, handle_tool_event-IsLiveStep,
}
use ac.Cli.Gateway.Turns.{
  Answers, Waited, ok, timeout, failed, breaks, error_text, unreachable_text, new_turn, unavailable,
  run_fails, adopt, after_wait, run_turn, if_reached, start_turn, effective_thid, handle_inbound,
}

-- A frame for the thread, or for none.
abbrev pub is_of : Text → Option Text → Bool
is_of thid none = true
is_of thid (some other) = text_beq other thid

abbrev pub IsOf : Text → Frame → Type 0
IsOf thid f = is_of thid (frame_thid f) ≡ true

-- A frame that takes the live preview of the thread away.
abbrev pub is_end : Text → Frame → Bool
is_end thid (finalize other mid text) = text_beq other thid
is_end thid (discard other) = text_beq other thid
is_end thid (preview other phase text detail) = false
is_end thid (notice code level text) = false
is_end thid (tool_frame other card) = false
is_end thid (task_frame other card) = false
is_end thid (history other messages) = false
is_end thid (conversations threads) = false

-- More frames, all for the thread of the run.
abbrev IsScoped : Turn → Turn → Type 0
IsScoped t u =
    (fs : List Frame) × (u.sent ≡ t.sent ++ fs)
    × (u.run.thid ≡ t.run.thid)
    × All (IsOf t.run.thid) fs

live-IsOf : (thid : Text) (fs : List Frame) → All (IsLive thid) fs → All (IsOf thid) fs
live-IsOf thid [] h = tt
live-IsOf thid (f ∷ fs) ((scoped, quiet), h) = (rw scoped (text_beq_refl thid), live-IsOf thid fs h)

live-IsScoped : (t u : Turn) → IsLiveStep t u → IsScoped t u
live-IsScoped t u (fs, sent, thid, ids, text, live) = (fs, sent, thid, live-IsOf t.run.thid fs live)

commit-IsScoped : (t : Turn) (mid text : Text) → IsScoped t (commit_segment t mid text)
unfolding commit_segment
commit-IsScoped t mid text = elim (Bool-cases (contains t.run.committed_message_ids mid)) [
  | inl e ↦ rw e ([], sym (append-nil t.sent), refl, tt)
  | inr e ↦ rw e (_, refl, refl, (text_beq_refl t.run.thid, tt))
]

then_IsScoped : (t u v : Turn) → IsScoped t u → IsScoped u v → IsScoped t v
then_IsScoped t u v (fs, sent, thid, h) (gs, more, same, k) = (
  fs ++ gs,
  more ∙ ap (λ s. s ++ gs) sent ∙ append_assoc t.sent fs gs,
  same ∙ thid,
  All-append (IsOf t.run.thid) fs gs h (subst (λ name. All (IsOf name) gs) thid k),
)

module _ (parse : Text → Option Value) (stringify : Value → Text) where
  take_event-IsScoped :
      (t : Turn) (e : InterpretedEvent) → IsScoped t (take_event parse stringify t e)
  unfolding take_event
  take_event-IsScoped t (commits mid text) = commit-IsScoped t mid text
  take_event-IsScoped t (types s) =
      live-IsScoped t (type_snapshot t s) (type_snapshot-IsLiveStep t s)
  take_event-IsScoped t (runs_tool e) =
      live-IsScoped t (handle_tool_event parse stringify t e)
        (handle_tool_event-IsLiveStep parse stringify t e)

  on_event-IsScoped : (t : Turn) (e : String × Value) → IsScoped t (on_event parse stringify t e)
  unfolding on_event
  on_event-IsScoped t (event, payload) =
      elim (Option-cases (interpret_gateway_event event payload t.run)) [
        | inl e ↦ rw (e, on_event) ([], sym (append-nil t.sent), refl, tt)
        | inr (i, e) ↦ rw (e, on_event) (take_event-IsScoped t i)
      ]

  on_events-IsScoped :
      (t : Turn) (es : List (String × Value)) → IsScoped t (on_events parse stringify t es)
  unfolding on_events
  on_events-IsScoped t [] = ([], sym (append-nil t.sent), refl, tt)
  on_events-IsScoped t (e ∷ es) =
      let next = on_event parse stringify t e in
      then_IsScoped t next (on_events parse stringify next es) (on_event-IsScoped t e)
        (on_events-IsScoped next es)

-- One more frame, which ends the thread's preview.
abbrev IsEnded : Turn → Turn → Type 0
IsEnded t u = (f : Frame) × (u.sent ≡ t.sent ++ f ∷ []) × (is_end t.run.thid f ≡ true)

finalize_history-IsEnded :
    (t : Turn) (mid : Text) (last : Option (Text × Option ℕ))
    → IsEnded t (finalize_history t mid last)
unfolding finalize_history
finalize_history-IsEnded t mid none = (_, refl, text_beq_refl t.run.thid)
finalize_history-IsEnded t mid (some (text, at)) =
    elim (Bool-cases (not (text_beq (trim text) []) && not_before t.run.started_at at)) [
      | inl e ↦ rw e (_, refl, text_beq_refl t.run.thid)
      | inr e ↦ rw e (_, refl, text_beq_refl t.run.thid)
    ]

finalize_streamed-IsEnded :
    (t : Turn) (mid streamed : Text) (messages : List HistoryMessage)
    → IsEnded t (finalize_streamed t mid streamed messages)
finalize_streamed-IsEnded t mid [] messages =
    finalize_history-IsEnded t mid (last_assistant messages)
finalize_streamed-IsEnded t mid (c ∷ streamed) messages = (_, refl, text_beq_refl t.run.thid)

finalize_committed-IsEnded :
    (t : Turn) (mid : Text) (ids : List Text) (messages : List HistoryMessage)
    → IsEnded t (finalize_committed t mid ids messages)
finalize_committed-IsEnded t mid [] messages =
    finalize_streamed-IsEnded t mid (trim t.run.text) messages
finalize_committed-IsEnded t mid (id ∷ ids) messages = (_, refl, text_beq_refl t.run.thid)

-- Frames for the thread, the last of which ends its preview.
abbrev EndsTurn : Turn → Turn → Type 0
EndsTurn t u =
    (middle : List Frame) × (last : Frame) × (u.sent ≡ t.sent ++ (middle ++ last ∷ []))
    × All (IsOf t.run.thid) middle
    × (is_end t.run.thid last ≡ true)

notice-EndsTurn :
    (t : Turn) (n f : Frame)
    → is_of t.run.thid (frame_thid n) ≡ true
    → is_end t.run.thid f ≡ true
    → EndsTurn t (send (send t n) f)
notice-EndsTurn t n f scoped ends =
    (n ∷ [], f, append_assoc t.sent (n ∷ []) (f ∷ []), (scoped, tt), ends)

ended-EndsTurn : (t u v : Turn) → IsScoped t u → IsEnded u v → EndsTurn t v
ended-EndsTurn t u v (fs, sent, thid, scoped) (f, more, ends) = (
  fs,
  f,
  more ∙ ap (λ s. s ++ f ∷ []) sent ∙ append_assoc t.sent fs (f ∷ []),
  scoped,
  subst (λ name. is_end name f ≡ true) thid ends,
)

fails-EndsTurn : (t u : Turn) (mid : Text) → IsScoped t u → EndsTurn t (run_fails u t.run.thid mid)
fails-EndsTurn t u mid scoped =
    let n = notice "agent_error" error error_text in
    let (fs, sent, thid, all) = scoped in
    ended-EndsTurn t (send u n) (run_fails u t.run.thid mid)
      (then_IsScoped t u (send u n) scoped (n ∷ [], refl, refl, (refl, tt)))
      (_, refl, rw thid (text_beq_refl t.run.thid))

after_wait-EndsTurn :
    (t u : Turn) (w : Waited) (a : Answers)
    → IsScoped t u
    → EndsTurn t (after_wait w u t.run.thid a)
unfolding finalize_run
after_wait-EndsTurn t u ok a h =
    ended-EndsTurn t u (finalize_run u a.fresh_id a.history) h
      (finalize_committed-IsEnded u a.fresh_id u.run.committed_message_ids a.history)
after_wait-EndsTurn t u timeout a (fs, sent, thid, all) =
    ended-EndsTurn t u (after_wait timeout u t.run.thid a) (fs, sent, thid, all)
      (_, refl, rw thid (text_beq_refl t.run.thid))
after_wait-EndsTurn t u failed a h = fails-EndsTurn t u a.fresh_id h
after_wait-EndsTurn t u breaks a h = fails-EndsTurn t u a.fresh_id h

-- The notice that the gateway cannot be reached.
unavailable-EndsTurn : (t : Turn) → EndsTurn t (unavailable t t.run.thid)
unavailable-EndsTurn t =
    notice-EndsTurn t (notice "gateway_unavailable" error unreachable_text) (discard t.run.thid)
      refl (text_beq_refl t.run.thid)

module _ (parse : Text → Option Value) (stringify : Value → Text) where
  run_turn-EndsTurn :
      (t : Turn) (a : Answers) → EndsTurn t (run_turn parse stringify t t.run.thid a)
  unfolding run_turn
  run_turn-EndsTurn t a = elim (Option-cases a.accepted) [
    | inl e ↦
        rw (e, run_turn) (fails-EndsTurn t t a.fresh_id ([], sym (append-nil t.sent), refl, tt))
    | inr (accepted, e) ↦
        let u = on_events parse stringify (adopt t accepted) a.events in
        rw (e, run_turn)
          (after_wait-EndsTurn t u a.waited a
            (on_events-IsScoped parse stringify (adopt t accepted) a.events))
  ]

  if_reached-EndsTurn :
      (client ready : Bool) (t : Turn) (a : Answers)
      → EndsTurn t (if_reached parse stringify client ready t t.run.thid a)
  unfolding if_reached
  if_reached-EndsTurn false ready t a = unavailable-EndsTurn t
  if_reached-EndsTurn true false t a = unavailable-EndsTurn t
  if_reached-EndsTurn true true t a = run_turn-EndsTurn t a

  pub turn_ends :
      (did payload active_thid : Text) (a : Answers)
      → nonempty_text (some did) ≡ some did
      → text_beq (trim (parse_inbound_chat parse payload).text) [] ≡ false
      → let thid = effective_thid parse stringify (parse_inbound_chat parse payload) active_thid in
        (middle : List Frame) × (last : Frame) × (handle_inbound parse stringify
            (some did)
            payload
            active_thid
            a
          ≡ preview thid thinking none none ∷ (middle ++ last ∷ []))
        × All (IsOf thid) middle
        × (is_end thid last ≡ true)
  unfolding handle_inbound start_turn
  turn_ends did payload active_thid a named said =
      let chat = parse_inbound_chat parse payload in
      let thid = effective_thid parse stringify chat active_thid in
      rw (named, handle_inbound)
        (rw said (
          if_reached-EndsTurn a.client a.ready
            (new_turn thid (build_ac2_session_key did thid) a.now) a))

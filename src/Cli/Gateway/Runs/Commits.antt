-- ===== src/Cli/Gateway/Runs/Commits.antt =====
-- packages/ac2-cli/src/runtime/gateway/adapter.ts: the segments that a run commits.
use ac.Common.{
  ◌≡◌, refl, sym, ap, subst, ◌∙◌, String, Option, none, some, List, [], ◌∷◌, ◌++◌, text_eq, Text,
  codes, text_beq, contains, IsDistinct, IsDistinct-append_one, All, Bool-cases, Option-cases, inl,
  inr,
}
use mathlib.Core.Path.{ap₂}
use mathlib.Core.List.{append-nil, append_assoc}
use ac.Cli.Control.Lines.{trim}
use ac.Cli.Gateway.Values.{Value, parse_spawn_accepted}
use ac.Cli.Gateway.Tools.{compute_tail}
use ac.Cli.Gateway.Frames.{
  Frame, preview, finalize, discard, notice, tool_frame, task_frame, history, conversations,
}
use ac.Cli.Gateway.Events.{
  ToolEvent, ToolPhase, start, update, result, InterpretedEvent, types, commits, runs_tool,
  interpret_gateway_event,
}
use ac.Cli.Gateway.Runs.{
  Turn, commit_segment, preview_tail, type_snapshot, spawn_phase, handle_spawn_result, start_task,
  yield_phase, tool_phase_step, handle_tool_event, take_event, on_event, on_events,
}

-- The thread of a frame, and the message that it finalizes.
abbrev pub frame_thid : Frame → Option Text
frame_thid (preview thid phase text detail) = some thid
frame_thid (finalize thid mid text) = some thid
frame_thid (discard thid) = some thid
frame_thid (notice code level text) = none
frame_thid (tool_frame thid card) = some thid
frame_thid (task_frame thid card) = some thid
frame_thid (history thid messages) = some thid
frame_thid (conversations threads) = none

abbrev pub segment_of : Frame → List (Text × Text)
segment_of (preview thid phase text detail) = []
segment_of (finalize thid mid text) = (mid, text) ∷ []
segment_of (discard thid) = []
segment_of (notice code level text) = []
segment_of (tool_frame thid card) = []
segment_of (task_frame thid card) = []
segment_of (history thid messages) = []
segment_of (conversations threads) = []

abbrev pub segments : List Frame → List (Text × Text)
segments [] = []
segments (f ∷ fs) = segment_of f ++ segments fs

abbrev pub texts : List (Text × Text) → Text
texts [] = []
texts ((mid, text) ∷ rest) = text ++ texts rest

pub segments-append : (fs gs : List Frame) → segments (fs ++ gs) ≡ segments fs ++ segments gs
segments-append [] gs = refl
segments-append (f ∷ fs) gs =
    ap (λ rest. segment_of f ++ rest) (segments-append fs gs)
    ∙ sym (append_assoc (segment_of f) (segments fs) (segments gs))

abbrev pub names : List (Text × Text) → List Text
names [] = []
names ((mid, text) ∷ rest) = mid ∷ names rest

names-append : (xs ys : List (Text × Text)) → names (xs ++ ys) ≡ names xs ++ names ys
names-append [] ys = refl
names-append ((mid, text) ∷ xs) ys = ap (λ rest. mid ∷ rest) (names-append xs ys)

texts-append : (xs ys : List (Text × Text)) → texts (xs ++ ys) ≡ texts xs ++ texts ys
texts-append [] ys = refl
texts-append ((mid, text) ∷ xs) ys =
    ap (λ rest. text ++ rest) (texts-append xs ys) ∙ sym (append_assoc text (texts xs) (texts ys))

-- A frame for a thread that finalizes nothing.
abbrev pub IsLive : Text → Frame → Type 0
IsLive thid f = (frame_thid f ≡ some thid) × (segment_of f ≡ [])

-- A step that sends live frames and commits nothing.
abbrev pub IsLiveStep : Turn → Turn → Type 0
IsLiveStep t u =
    (fs : List Frame) × (u.sent ≡ t.sent ++ fs)
    × (u.run.thid ≡ t.run.thid)
    × (u.run.committed_message_ids ≡ t.run.committed_message_ids)
    × (u.run.committed_text ≡ t.run.committed_text)
    × All (IsLive t.run.thid) fs

stays :
    (t u : Turn)
    → u.sent ≡ t.sent
    → u.run.thid ≡ t.run.thid
    → u.run.committed_message_ids ≡ t.run.committed_message_ids
    → u.run.committed_text ≡ t.run.committed_text
    → IsLiveStep t u
stays t u same thid ids text = ([], same ∙ sym (append-nil t.sent), thid, ids, text, tt)

preview_tail-IsLiveStep : (t : Turn) (tail : Option Text) → IsLiveStep t (preview_tail t tail)
preview_tail-IsLiveStep t none = (_, refl, refl, refl, refl, ((refl, refl), tt))
preview_tail-IsLiveStep t (some tail) = elim (Bool-cases (text_beq (trim tail) [])) [
  | inl e ↦ rw e (stays t t refl refl refl refl)
  | inr e ↦ rw e (_, refl, refl, refl, refl, ((refl, refl), tt))
]

pub type_snapshot-IsLiveStep :
    (t : Turn) (snapshot : Text) → IsLiveStep t (type_snapshot t snapshot)
unfolding type_snapshot
type_snapshot-IsLiveStep t snapshot =
    preview_tail-IsLiveStep (record t { run = record t.run { text = snapshot } })
      (compute_tail snapshot t.run.committed_text)

module _ (parse : Text → Option Value) (stringify : Value → Text) where
  spawn-IsLiveStep :
      (t : Turn) (e : ToolEvent) (phase : ToolPhase)
      → IsLiveStep t (spawn_phase parse stringify phase t e)
  unfolding start_task
  spawn-IsLiveStep t e start = stays t (spawn_phase parse stringify start t e) refl refl refl refl
  spawn-IsLiveStep t e update = stays t t refl refl refl refl
  spawn-IsLiveStep t e result = elim (Option-cases (parse_spawn_accepted parse e.final_result)) [
    | inl h ↦ rw (h, spawn_phase) (stays t t refl refl refl refl)
    | inr (accepted, h) ↦ rw (h, spawn_phase) (_, refl, refl, refl, refl, ((refl, refl), tt))
  ]

  yield-IsLiveStep :
      (t : Turn) (e : ToolEvent) (phase : ToolPhase)
      → IsLiveStep t (yield_phase parse stringify phase t e)
  yield-IsLiveStep t e start =
      (_, append_assoc t.sent _ _, refl, refl, refl, ((refl, refl), ((refl, refl), tt)))
  yield-IsLiveStep t e update = stays t t refl refl refl refl
  yield-IsLiveStep t e result = stays t t refl refl refl refl

  tool-IsLiveStep :
      (t : Turn) (e : ToolEvent) (phase : ToolPhase)
      → IsLiveStep t (tool_phase_step parse stringify phase t e)
  tool-IsLiveStep t e start =
      (_, append_assoc t.sent _ _, refl, refl, refl, ((refl, refl), ((refl, refl), tt)))
  tool-IsLiveStep t e update = (_, refl, refl, refl, refl, ((refl, refl), tt))
  tool-IsLiveStep t e result = (_, refl, refl, refl, refl, ((refl, refl), tt))

  pub handle_tool_event-IsLiveStep :
      (t : Turn) (e : ToolEvent) → IsLiveStep t (handle_tool_event parse stringify t e)
  unfolding handle_tool_event handle_spawn_result
  handle_tool_event-IsLiveStep t e = elim (Bool-cases (text_beq e.name (codes "sessions_spawn"))) [
    | inl h ↦ rw h (spawn-IsLiveStep t e e.phase)
    | inr h ↦ elim (Bool-cases (text_beq e.name (codes "sessions_yield"))) [
      | inl k ↦ rw (h, k) (yield-IsLiveStep t e e.phase)
      | inr k ↦ rw (h, k) (tool-IsLiveStep t e e.phase)
    ]
  ]

-- What the wallet was sent as messages is what the run has committed.
abbrev IsCommitted : Turn → Type 0
IsCommitted t =
    (names (segments t.sent) ≡ t.run.committed_message_ids)
    × (texts (segments t.sent) ≡ t.run.committed_text)
    × IsDistinct t.run.committed_message_ids

live-segments : (thid : Text) (fs : List Frame) → All (IsLive thid) fs → segments fs ≡ []
live-segments thid [] h = refl
live-segments thid (f ∷ fs) ((scoped, quiet), h) = rw (quiet, live-segments thid fs h) refl

live-IsCommitted : (t u : Turn) → IsLiveStep t u → IsCommitted t → IsCommitted u
live-IsCommitted t u (fs, sent, thid, ids, text, live) (named, told, distinct) =
    let same : segments u.sent ≡ segments t.sent =
      ap segments sent
      ∙ segments-append t.sent fs
      ∙ ap (λ rest. segments t.sent ++ rest) (live-segments t.run.thid fs live)
      ∙ append-nil (segments t.sent) in
    (
      ap names same ∙ named ∙ sym ids,
      ap texts same ∙ told ∙ sym text,
      subst IsDistinct (sym ids) distinct,
    )

commit-IsCommitted :
    (t : Turn) (mid text : Text) → IsCommitted t → IsCommitted (commit_segment t mid text)
unfolding commit_segment
commit-IsCommitted t mid text (named, told, distinct) =
    elim (Bool-cases (contains t.run.committed_message_ids mid)) [
      | inl e ↦ rw e (named, told, distinct)
      | inr e ↦
          let one = finalize t.run.thid mid text ∷ [] in
          let more = segments-append t.sent one in
          rw e (
            ap names more
                ∙ names-append (segments t.sent) (segments one)
                ∙ ap (λ ids. ids ++ mid ∷ []) named,
            ap texts more
                ∙ texts-append (segments t.sent) (segments one)
                ∙ ap₂ ◌++◌ told (append-nil text),
            IsDistinct-append_one t.run.committed_message_ids mid distinct e,
          )
    ]

module _ (parse : Text → Option Value) (stringify : Value → Text) where
  take_event-IsCommitted :
      (t : Turn) (e : InterpretedEvent)
      → IsCommitted t
      → IsCommitted (take_event parse stringify t e)
  unfolding take_event
  take_event-IsCommitted t (commits mid text) h = commit-IsCommitted t mid text h
  take_event-IsCommitted t (types s) h =
      live-IsCommitted t (type_snapshot t s) (type_snapshot-IsLiveStep t s) h
  take_event-IsCommitted t (runs_tool e) h =
      live-IsCommitted t (handle_tool_event parse stringify t e)
        (handle_tool_event-IsLiveStep parse stringify t e) h

  on_event-IsCommitted :
      (t : Turn) (e : String × Value) → IsCommitted t → IsCommitted (on_event parse stringify t e)
  unfolding on_event
  on_event-IsCommitted t (event, payload) h =
      elim (Option-cases (interpret_gateway_event event payload t.run)) [
        | inl e ↦ rw (e, on_event) h
        | inr (i, e) ↦ rw (e, on_event) (take_event-IsCommitted t i h)
      ]

  on_events-IsCommitted :
      (t : Turn) (es : List (String × Value))
      → IsCommitted t
      → IsCommitted (on_events parse stringify t es)
  unfolding on_events
  on_events-IsCommitted t [] h = h
  on_events-IsCommitted t (e ∷ es) h =
      on_events-IsCommitted (on_event parse stringify t e) es (on_event-IsCommitted t e h)

  -- Whatever events come for a run that has sent no message yet, in any order and however often each:
  -- the messages that the wallet gets are the segments that the run has committed, in their order, no
  -- segment twice, and the committed text is theirs, one after another.
  pub segments_committed_once :
      (t : Turn) (es : List (String × Value))
      → segments t.sent ≡ []
      → t.run.committed_message_ids ≡ []
      → t.run.committed_text ≡ []
      → let u = on_events parse stringify t es in
        (names (segments u.sent) ≡ u.run.committed_message_ids)
        × (texts (segments u.sent) ≡ u.run.committed_text)
        × IsDistinct u.run.committed_message_ids
  segments_committed_once t es quiet none_yet no_text = on_events-IsCommitted t es (
    ap names quiet ∙ sym none_yet,
    ap texts quiet ∙ sym no_text,
    subst IsDistinct (sym none_yet) tt,
  )

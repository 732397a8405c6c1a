-- ===== src/Cli/Gateway/Runs/Anonymous.antt =====
-- packages/ac2-cli/src/runtime/gateway/adapter.ts: two segments without an id.
use ac.Common.{
  ◌≡◌, refl, ap, ◌∙◌, Option, [], ◌++◌, false, text_beq, Text, codes, length, text_eq, contains,
  contains-last, Bool-cases, inl, inr,
}
use ac.Cli.Control.Lines.{trim}
use ac.Cli.Gateway.Values.{Value}
use ac.Cli.Gateway.Tools.{decimal}
use ac.Cli.Gateway.Events.Scope.{segment, segment-commits}
use ac.Cli.Gateway.Runs.{Turn, commit_segment, take_event, on_event}

commit-twice :
    (t : Turn) (mid x y : Text)
    → commit_segment (commit_segment t mid x) mid y ≡ commit_segment t mid x
unfolding commit_segment
commit-twice t mid x y = elim (Bool-cases (contains t.run.committed_message_ids mid)) [
  | inl e ↦ rw (e, e) refl
  | inr e ↦ rw e (rw (contains-last t.run.committed_message_ids mid) refl)
]

module _ (parse : Text → Option Value) (stringify : Value → Text) where
  on_event-segment :
      (t : Turn) (text : Text)
      → text_beq (trim text) [] ≡ false
      → on_event parse stringify t ("session.message", segment text)
        ≡ commit_segment t (codes "anon-" ++ decimal (length text)) text
  unfolding on_event take_event
  on_event-segment t text said = rw (segment-commits text t.run said, on_event) refl

  pub anonymous_segment-lost :
      (t : Turn) (x y : Text)
      → text_beq (trim x) [] ≡ false
      → text_beq (trim y) [] ≡ false
      → length x ≡ length y
      → let u = on_event parse stringify t ("session.message", segment x) in
        on_event parse stringify u ("session.message", segment y) ≡ u
  anonymous_segment-lost t x y said heard same =
      let mid = codes "anon-" ++ decimal (length y) in
      let first : on_event parse stringify t ("session.message", segment x)
          ≡ commit_segment t mid x =
        on_event-segment t x said
        ∙ ap (λ n. commit_segment t (codes "anon-" ++ decimal n) x) same in
      rw (first, on_event-segment (commit_segment t mid x) y heard) (commit-twice t mid x y)

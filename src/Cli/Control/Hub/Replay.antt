-- ===== src/Cli/Control/Hub/Replay.antt =====
-- packages/ac2-cli/src/control/agent.ts: what the hub keeps for a listener that comes late.
use ac.Common.{
  ℕ, suc, ◌-◌, ◌≡◌, ◌≤◌, refl, sym, ap, ◌∙◌, String, Option, List, [], ◌∷◌, ◌++◌, leb, length,
  length-append, drop, string_eq, nat_eq, contains, lookup, insert, lookup-insert, Bool-cases, inl,
  inr, arith,
}
use mathlib.Core.List.{append-nil, append_assoc}
use text.Mathlib.TextEquality.{eq_iff}
use ac.Sdk.Message.{Json}
use ac.Cli.Control.Client.{handlers_of}
use ac.Cli.Control.Hub.{
  Hub, buffer_of, push_bounded, dispatch, dispatch_to, each, replay, add_handler, on,
  max_buffered_events_per_type,
}

-- Events of one type that come one after another.
abbrev pub dispatch_all : Hub → String → List (Option Json) → Hub
dispatch_all h event [] = h
dispatch_all h event (value ∷ values) = dispatch_all (dispatch h event value) event values

-- The last of a list that a buffer has room for.
abbrev pub last_events : List (Option Json) → List (Option Json)
last_events values = drop (length values - max_buffered_events_per_type) values

abbrev pub buffered : Hub → String → List (Option Json)
buffered h event = buffer_of (lookup event h.buffers)

last_events-short : (l : List (Option Json)) → length l ≤ 50 → last_events l ≡ l
last_events-short l h = let none_over : length l - 50 ≡ 0 = omega arith in rw none_over refl

pub push_bounded-length :
    (b : List (Option Json)) (value : Option Json)
    → length b ≤ 50
    → length (push_bounded b value) ≤ 50
unfolding push_bounded
push_bounded-length [] value h = omega arith
push_bounded-length (c ∷ b) value h = elim (Bool-cases (leb (length ((c ∷ b) ++ value ∷ [])) 50)) [
  | inl e ↦ rw e (ground arith)
  | inr e ↦ rw e (omega (arith, length-append b (value ∷ [])))
]

push_bounded-last :
    (b rest : List (Option Json)) (value : Option Json)
    → length b ≤ 50
    → last_events (push_bounded b value ++ rest) ≡ last_events (b ++ value ∷ rest)
unfolding push_bounded
push_bounded-last [] rest value h = refl
push_bounded-last (c ∷ b) rest value h =
    elim (Bool-cases (leb (length ((c ∷ b) ++ value ∷ [])) 50)) [
      | inl e ↦ rw e (ap last_events (append_assoc (c ∷ b) (value ∷ []) rest))
      | inr e ↦
          let room = length-append b (value ∷ []) in
          let taken : 50 ≤ length (b ++ value ∷ []) = ground arith in
          let full : 50 ≤ length (b ++ value ∷ rest) =
            omega (arith, length-append b (value ∷ rest)) in
          let more : suc (length (b ++ value ∷ rest)) - 50 ≡ suc (length (b ++ value ∷ rest) - 50) =
            omega arith in
          rw e (rw (append_assoc b (value ∷ []) rest, more) refl)
    ]

dispatch-buffered :
    (h : Hub) (event : String) (value : Option Json)
    → handlers_of (lookup event h.handlers) ≡ []
    → buffered (dispatch h event value) event ≡ push_bounded (buffered h event) value
unfolding dispatch dispatch_to
dispatch-buffered h event value deaf =
    rw (deaf, dispatch_to)
      (rw (lookup-insert event event (push_bounded (buffered h event) value) h.buffers)
        (ground (arith, eq_iff event event)))

dispatch-called :
    (h : Hub) (event : String) (value : Option Json)
    → handlers_of (lookup event h.handlers) ≡ []
    → (dispatch h event value).called ≡ h.called
unfolding dispatch dispatch_to
dispatch-called h event value deaf = rw (deaf, dispatch_to) refl

dispatch-handlers :
    (h : Hub) (event : String) (value : Option Json) (set : List ℕ)
    → (dispatch_to h event value set).handlers ≡ h.handlers
unfolding dispatch_to
dispatch-handlers h event value [] = refl
dispatch-handlers h event value (handler ∷ set) = refl

each-append :
    (handler : ℕ) (xs ys : List (Option Json))
    → each handler (xs ++ ys) ≡ each handler xs ++ each handler ys
each-append handler [] ys = refl
each-append handler (x ∷ xs) ys = ap (λ rest. (handler, x) ∷ rest) (each-append handler xs ys)

-- While nobody listens, the buffer keeps the last events.
deaf-buffered :
    (h : Hub) (event : String) (xs : List (Option Json))
    → handlers_of (lookup event h.handlers) ≡ []
    → length (buffered h event) ≤ 50
    → (buffered (dispatch_all h event xs) event ≡ last_events (buffered h event ++ xs))
      × ((dispatch_all h event xs).called ≡ h.called)
      × ((dispatch_all h event xs).handlers ≡ h.handlers)
unfolding dispatch
deaf-buffered h event [] deaf room = (
  rw (append-nil (buffered h event)) (sym (last_events-short (buffered h event) room)),
  refl,
  refl,
)
deaf-buffered h event (x ∷ xs) deaf room =
    let next = dispatch h event x in
    let kept = dispatch-buffered h event x deaf in
    let same = dispatch-handlers h event x (handlers_of (lookup event h.handlers)) in
    let still : handlers_of (lookup event next.handlers) ≡ [] = rw same deaf in
    let (held, quiet, others) =
      deaf-buffered next event xs still (rw kept (push_bounded-length (buffered h event) x room)) in
    (
      rw (held, kept) (push_bounded-last (buffered h event) xs x room),
      quiet ∙ dispatch-called h event x deaf,
      others ∙ same,
    )

heard :
    (h : Hub) (event : String) (handler : ℕ) (ys : List (Option Json))
    → handlers_of (lookup event h.handlers) ≡ handler ∷ []
    → (dispatch_all h event ys).called ≡ h.called ++ each handler ys
unfolding dispatch dispatch_to
heard h event handler [] alone = sym (append-nil h.called)
heard h event handler (y ∷ ys) alone =
    let next = record h { called = h.called ++ (handler, y) ∷ [] } in
    let spoken : dispatch h event y ≡ next = rw (alone, dispatch_to) refl in
    rw (spoken, dispatch_all)
      (heard next event handler ys alone
        ∙ append_assoc h.called ((handler, y) ∷ []) (each handler ys))

replay-called :
    (h : Hub) (event : String) (handler : ℕ) (b : List (Option Json))
    → (replay h event handler b).called ≡ h.called ++ each handler b
unfolding replay
replay-called h event handler [] = sym (append-nil h.called)
replay-called h event handler (value ∷ b) = refl

replay-handlers :
    (h : Hub) (event : String) (handler : ℕ) (b : List (Option Json))
    → (replay h event handler b).handlers ≡ h.handlers
unfolding replay
replay-handlers h event handler [] = refl
replay-handlers h event handler (value ∷ b) = refl

on-alone :
    (h : Hub) (event : String) (handler : ℕ)
    → handlers_of (lookup event h.handlers) ≡ []
    → handlers_of (lookup event (on h event handler).handlers) ≡ handler ∷ []
unfolding on contains
on-alone h event handler deaf =
    let set = add_handler (handlers_of (lookup event h.handlers)) handler in
    let alone : set ≡ handler ∷ [] = rw deaf refl in
    let same =
      replay-handlers (record h { handlers = insert event set h.handlers }) event handler
        (buffered h event) in
    ap (λ m. handlers_of (lookup event m)) same
    ∙ ground (arith, lookup-insert event event set h.handlers, eq_iff event event, alone)

on-called :
    (h : Hub) (event : String) (handler : ℕ)
    → (on h event handler).called ≡ h.called ++ each handler (buffered h event)
unfolding on
on-called h event handler =
    replay-called
      (record h {
        handlers =
            insert event (add_handler (handlers_of (lookup event h.handlers)) handler) h.handlers;
      })
      event handler (buffered h event)

-- A listener that comes after some events of a type, with no other listener before it, gets the last
-- fifty of them in order, those that were buffered before included, and then each later event: with
-- no more than fifty events before it, it misses none.
pub late_listener_hears :
    (h : Hub) (event : String) (handler : ℕ) (xs ys : List (Option Json))
    → handlers_of (lookup event h.handlers) ≡ []
    → length (buffered h event) ≤ 50
    → (dispatch_all (on (dispatch_all h event xs) event handler) event ys).called
      ≡ h.called ++ each handler (last_events (buffered h event ++ xs) ++ ys)
late_listener_hears h event handler xs ys deaf room =
    let (held, quiet, others) = deaf-buffered h event xs deaf room in
    let before = dispatch_all h event xs in
    let still : handlers_of (lookup event before.handlers) ≡ [] = rw others deaf in
    rw
      (
        heard (on before event handler) event handler ys (on-alone before event handler still),
        on-called before event handler,
        held,
        quiet,
        each-append handler (last_events (buffered h event ++ xs)) ys,
      )
      (append_assoc h.called (each handler (last_events (buffered h event ++ xs)))
        (each handler ys))

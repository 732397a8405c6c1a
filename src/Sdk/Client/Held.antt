-- ===== src/Sdk/Client/Held.antt =====
-- Each promise of the client has its waiter, and each timer its own: what replies and timeouts keep.
use ac.Common.{
  or_else, ℕ, suc, ◌≡◌, ◌≤◌, ◌<◌, String, none, some, List, [], ◌∷◌, ◌++◌, ◌⊎◌, true, nat_beq,
  arith, string_eq, nat_eq, lookup, insert, remove, inl, inr, lookup-remove, lookup-insert,
  Option-cases, Bool-cases,
}
use text.Mathlib.TextEquality.{eq_iff}
use ac.Sdk.Message.{Message}
use ac.Sdk.Client.{
  Client, HandlerMap, Pending, Error, init, fire, waiter, dispatch, failed, resolved, timed_out,
  settle, clear_timer, Outcome,
}
use ac.Sdk.Client.Counts.{keyed, keyed-append}
use ac.Sdk.Client.Settle.{waiter-lookup}
use ac.Sdk.Client.Steps.{
  Event, requests_signature, requests_key, requests, step, Keeps, handle-Keeps,
}

-- The waiter of promise `p`.
pub record Waits (p : ℕ) (m : List (String × Pending)) : Type 0 where
  pub id : String
  pub waiter : Pending
  pub found : lookup id m ≡ some waiter
  pub own : waiter.promise ≡ p

abbrev pub Held : ℕ → Client → Type 0
Held p c = (1 ≤ keyed p c.settled) ⊎ Waits p c.pending

-- Every promise is held, and each timer is its waiter's.
pub record Kept (c : Client) : Type 0 where
  pub held : (p : ℕ) → p < c.next → Held p c
  pub aims :
      (q : ℕ) (id : String) (ms : ℕ)
      → lookup q c.timers ≡ some (id, ms)
      → (w : Pending) × (lookup id c.pending ≡ some w) × (w.promise ≡ q) × (w.timed ≡ true)

-- A request's id is not that of a request that still waits.
abbrev pub IsFresh : Client → Event → Type 0
IsFresh c (requests_signature args body timeout) =
    lookup (or_else args.id args.fresh_id) c.pending ≡ none
IsFresh c (requests_key args body timeout) = lookup (or_else args.id args.fresh_id) c.pending ≡ none
IsFresh c (requests message types timeout) = lookup message.id c.pending ≡ none
IsFresh c _ = Unit {0}

abbrev pub AllFresh : Client → List Event → Type 0
AllFresh c [] = Unit {0}
AllFresh c (e ∷ es) = IsFresh c e × AllFresh (step c e) es

pub lookup-append {ℓ} :
    {V : Type ℓ} (p q : ℕ) (v u : V) (m : List (ℕ × V))
    → lookup p (m ++ (q, v) ∷ []) ≡ some u
    → (lookup p m ≡ some u) ⊎ ((q ≡ p) × (v ≡ u))
unfolding lookup
lookup-append p q v u [] h = ground arith
lookup-append p q v u ((r, w) ∷ m) h = ground (arith, lookup-append p q v u m)

pub Waits-insert :
    (p : ℕ) (id : String) (w : Pending) (m : List (String × Pending))
    → lookup id m ≡ none
    → Waits p m
    → Waits p (insert id w m)
Waits-insert p id w m h k = record {
  id = k.id;
  waiter = k.waiter;
  found = ground (arith, lookup-insert id k.id w m, eq_iff id k.id, k.found);
  own = k.own;
}

-- The waiter that a removal takes away is the one under the key.
Waits-remove :
    (p : ℕ) (id : String) (w : Pending) (m : List (String × Pending))
    → lookup id m ≡ some w
    → Waits p m
    → (w.promise ≡ p) ⊎ Waits p (remove id m)
Waits-remove p id w m h k = elim (Bool-cases (string_eq.beq id k.id)) [
  | inl same ↦ inl (ground (arith, eq_iff id k.id, k.found, k.own))
  | inr other ↦ inr (record {
    id = k.id;
    waiter = k.waiter;
    found = ground (arith, lookup-remove id k.id m, k.found);
    own = k.own;
  })
]

pub init-Kept : (handlers : HandlerMap) → Kept (init handlers)
unfolding init lookup
init-Kept handlers = record { held = λ p h. absurd (omega arith); aims = λ q id ms h. cc }

-- What a reply and a timeout do alike: the waiter under `id` goes, and its promise is settled.
abbrev Settles : Client → String → Pending → Outcome → List (ℕ × (String × ℕ)) → Client
Settles c id w outcome ts = record c {
  pending = remove id c.pending;
  timers = ts;
  settled = settle c w.promise outcome;
}

-- The timers that are left were there, and none is that of a waiter that goes with its timer.
abbrev Clears : Pending → List (ℕ × (String × ℕ)) → List (ℕ × (String × ℕ)) → Type 0
Clears w before after =
    (q : ℕ) (v : String × ℕ)
    → lookup q after ≡ some v
    → (lookup q before ≡ some v) × (w.promise ≡ q → w.timed ≡ true → ⊥)

module _ (c : Client) (id : String) (w : Pending) (outcome : Outcome) (ts : List (ℕ × (String × ℕ)))
    (k : Kept c) (found : lookup id c.pending ≡ some w) (clears : Clears w c.timers ts) where
  Settles-Held : (p : ℕ) → p < c.next → Held p (Settles c id w outcome ts)
  unfolding keyed
  Settles-Held p h =
      let more = keyed-append p c.settled ((w.promise, outcome) ∷ []) in
      elim (k.held p h) [
        | inl done ↦ inl (omega (arith, more))
        | inr waits ↦ elim (Waits-remove p id w c.pending found waits) [
          | inl own ↦ inl (ground (arith, more))
          | inr still ↦ inr still
        ]
      ]

  Settles-aims :
      (q : ℕ) (j : String) (ms : ℕ)
      → lookup q ts ≡ some (j, ms)
      → (v : Pending) × (lookup j (remove id c.pending) ≡ some v)
        × (v.promise ≡ q)
        × (v.timed ≡ true)
  Settles-aims q j ms e =
      let (was, not_own) = clears q (j, ms) e in
      let (v, at, own, timed) = k.aims q j ms was in
      elim (Bool-cases (string_eq.beq id j)) [
        | inl same ↦
            let eq : id ≡ j = (eq_iff id j).0 same in
            let is : w ≡ v = let e2 = rw eq at found in cc in
            absurd (not_own (rw is own) (rw is timed))
        | inr other ↦ (v, ground (arith, lookup-remove id j c.pending), own, timed)
      ]

  Settles-Kept : Kept (Settles c id w outcome ts)
  Settles-Kept = record { held = Settles-Held; aims = Settles-aims }

pub clear_timer-Clears :
    (w : Pending) (ts : List (ℕ × (String × ℕ))) → Clears w ts (clear_timer w ts)
unfolding clear_timer
clear_timer-Clears w ts q v e = elim (Bool-cases w.timed) [
  | inl timed ↦ ground (arith, lookup-remove w.promise q ts)
  | inr idle ↦ ground arith
]

remove-Clears : (w : Pending) (ts : List (ℕ × (String × ℕ))) → Clears w ts (remove w.promise ts)
remove-Clears w ts q v e = ground (arith, lookup-remove w.promise q ts)

pub Keeps-Kept : (c d : Client) → Keeps c d → Kept c → Kept d
Keeps-Kept c d s k = record {
  held = λ p h. elim (k.held p (rw s.next at h)) [
    | inl done ↦ inl (rw s.settled done)
    | inr waits ↦ inr (rw s.pending waits)
  ];
  aims = λ q id ms e. rw s.pending (k.aims q id ms (rw s.timers at e));
}

pub refuse-Kept :
    (c : Client) (e : Error)
    → Kept c
    → Kept (record c { settled = settle c c.next (failed e); next = suc c.next })
unfolding keyed
refuse-Kept c e k =
    let more = λ (p : ℕ). keyed-append p c.settled ((c.next, failed e) ∷ []) in
    record {
      held = λ p h. elim (Bool-cases (nat_beq p c.next)) [
        | inl new ↦ inl (ground (arith, more p))
        | inr old ↦ elim (k.held p (ground arith)) [
          | inl done ↦ inl (ground (arith, more p))
          | inr waits ↦ inr waits
        ]
      ];
      aims = k.aims;
    }

pub dispatch-Kept : (c : Client) (msg : Message) → Kept c → Kept (dispatch c msg)
unfolding dispatch
dispatch-Kept c msg k = elim (Option-cases (waiter c msg)) [
  | inl e ↦ rw (e, dispatch) (Keeps-Kept c _ (handle-Keeps c msg) k)
  | inr (w, e) ↦
      rw (e, dispatch)
        (Settles-Kept c (or_else msg.thid "") w (resolved msg) (clear_timer w c.timers) k
          (waiter-lookup c msg w e) (clear_timer-Clears w c.timers))
]

pub fire-Kept : (c : Client) (q : ℕ) → Kept c → Kept (fire c q)
unfolding fire
fire-Kept c q k = elim (Option-cases (lookup q c.timers)) [
  | inl e ↦ rw (e, fire) k
  | inr ((id, ms), e) ↦
      let (w, found, own, timed) = k.aims q id ms e in
      rw (e, fire, ← own)
        (Settles-Kept c id w (failed (timed_out id ms)) (remove w.promise c.timers) k found
          (remove-Clears w c.timers))
]

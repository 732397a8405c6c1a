-- ===== src/Cli/State/Listing.antt =====
-- packages/ac2-cli/src/identity/state.ts: `listConnections` and `listConversations`. `sort` is stable,
-- and its comparator orders by a time, latest first.
use ac.Common.{
  ℕ, ◌≤◌, String, none, some, List, [], ◌∷◌, if◌then◌else◌, leb, arith, All, Bool-cases, inl, inr,
  string_eq,
}
use mathlib.Core.List.{Perm}
use mathlib.Core.List.Perm
use ac.Cli.State.{Disk, Connection, Conversation, get_connection}

module _ {ℓ} {A : Type ℓ} (time : A → ℕ) where
  -- Before the first entry that is earlier.
  unfoldable pub place : A → List A → List A
  place a [] = a ∷ []
  place a (b ∷ rest) = if leb (time b) (time a) then a ∷ b ∷ rest else b ∷ place a rest

  unfoldable pub latest_first : List A → List A
  unfolding place
  latest_first [] = []
  latest_first (a ∷ rest) = place a (latest_first rest)

  -- Each entry is as late as all that follow.
  abbrev pub IsLatestFirst : List A → Type 0
  IsLatestFirst [] = Unit {0}
  IsLatestFirst (a ∷ rest) = All (λ b. time b ≤ time a) rest × IsLatestFirst rest

  All-place :
      (n : ℕ) (a : A) (l : List A)
      → time a ≤ n
      → All (λ b. time b ≤ n) l
      → All (λ b. time b ≤ n) (place a l)
  unfolding place
  All-place n a [] h k = (h, tt)
  All-place n a (b ∷ rest) h (p, k) = elim (Bool-cases (leb (time b) (time a))) [
    | inl e ↦ rw e (h, (p, k))
    | inr e ↦ rw e (p, All-place n a rest h k)
  ]

  All-later : (n m : ℕ) (l : List A) → n ≤ m → All (λ b. time b ≤ n) l → All (λ b. time b ≤ m) l
  All-later n m [] h k = tt
  All-later n m (b ∷ rest) h (p, k) = (omega arith, All-later n m rest h k)

  place-IsLatestFirst : (a : A) (l : List A) → IsLatestFirst l → IsLatestFirst (place a l)
  unfolding place
  place-IsLatestFirst a [] h = (tt, tt)
  place-IsLatestFirst a (b ∷ rest) (p, h) = elim (Bool-cases (leb (time b) (time a))) [
    | inl e ↦ rw e ((ground arith, All-later (time b) (time a) rest (ground arith) p), (p, h))
    | inr e ↦ rw e (All-place (time b) a rest (ground arith) p, place-IsLatestFirst a rest h)
  ]

  pub latest_first-IsLatestFirst : (l : List A) → IsLatestFirst (latest_first l)
  unfolding latest_first
  latest_first-IsLatestFirst [] = tt
  latest_first-IsLatestFirst (a ∷ rest) =
      place-IsLatestFirst a (latest_first rest) (latest_first-IsLatestFirst rest)

  place-perm : (a : A) (l : List A) → Perm (place a l) (a ∷ l)
  unfolding place
  place-perm a [] = Perm.refl _
  place-perm a (b ∷ rest) = elim (Bool-cases (leb (time b) (time a))) [
    | inl e ↦ rw e (Perm.refl _)
    | inr e ↦ rw e (Perm.trans (Perm.cons b (place-perm a rest)) (Perm.swap a b rest))
  ]

  pub latest_first-perm : (l : List A) → Perm (latest_first l) l
  unfolding latest_first
  latest_first-perm [] = Perm.refl _
  latest_first-perm (a ∷ rest) =
      Perm.trans (place-perm a (latest_first rest)) (Perm.cons a (latest_first-perm rest))

-- `Object.values`.
abbrev pub values {ℓ} : {V : Type ℓ} → List (String × V) → List V
values [] = []
values ((k, v) ∷ m) = v ∷ values m

unfoldable pub list_connections : Disk → List Connection
unfolding latest_first
list_connections d =
    latest_first (λ (c : Connection). c.last_active_at) (values d.state.connections)

unfoldable pub list_conversations : Disk → String → List Conversation
unfolding latest_first get_connection
list_conversations d request_id = elim (get_connection d request_id) [
  | none ↦ []
  | some c ↦ latest_first (λ (v : Conversation). v.updated_at) (values c.conversations)
]

-- The list of connections holds each of them, and the latest active stand first.
pub list_connections_lem :
    (d : Disk)
    → IsLatestFirst (λ (c : Connection). c.last_active_at) (list_connections d)
      × Perm (list_connections d) (values d.state.connections)
unfolding list_connections
list_connections_lem d = (
  latest_first-IsLatestFirst (λ (c : Connection). c.last_active_at) (values d.state.connections),
  latest_first-perm (λ (c : Connection). c.last_active_at) (values d.state.connections),
)

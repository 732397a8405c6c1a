-- ===== src/Cli/State/Unique.antt =====
-- packages/ac2-cli/src/identity/state.ts: a restored history has one card for each activity.
use ac.Common.{
  ℕ, ◌≡◌, ◌≤◌, refl, subst, lookup, String, Option, none, some, List, [], ◌∷◌, ◌++◌, Bool, true,
  false, ◌==◌, ◌&&◌, Text, string_eq, arith, All, Option-cases, Bool-cases, inl, inr,
}
use text.Mathlib.TextEquality.{eq_iff}
use ac.Cli.State.{
  Disk, ChatMessage, Conversation, Role, user, agent, tool, task, new_conversation, save,
  save_conversation, find_conversation, with_message, ensure_conversation, ensured, clear_state,
  record_conversation_message, get_connection,
}
use ac.Cli.State.Cards.{
  record_tool_activity, record_task_activity, with_card, conversation_or_new, upsert, cards,
  cards-upsert, cards-upsert_other, patch_tool, patch_task, is_card, role_beq, role_beq_eq,
  KeepsCard, patch_tool-KeepsCard, patch_task-KeepsCard,
}
use ac.Cli.State.History.{
  Write, touches, cookies, grants, says, runs_tool, runs_task, opens, forgets, apply, apply_all,
  thread, thread-save_conversation, thread-find_conversation, touch-thread, cookie-thread,
  grant-thread,
}

abbrev pub is_activity : Role → Bool
is_activity user = false
is_activity agent = false
is_activity tool = true
is_activity task = true

-- No activity has two cards.
abbrev pub IsUnique : Conversation → Type 0
IsUnique v = (k : Role) (i : String) → is_activity k ≡ true → cards k i v.messages ≤ 1

abbrev pub IsUniqueOption : Option Conversation → Type 0
IsUniqueOption none = Unit {0}
IsUniqueOption (some v) = IsUnique v

abbrev pub HasUniqueCards : Disk → Type 0
HasUniqueCards d = (j u : String) → IsUniqueOption (thread d j u)

-- A recorded message is a user's or an agent's.
abbrev pub IsPlain : Write → Type 0
IsPlain (says r t m now) = is_activity m.role ≡ false
IsPlain _ = Unit {0}

save-IsUnique :
    (d : Disk) (r t : String) (v : Conversation) (now : ℕ)
    → HasUniqueCards d
    → IsUnique v
    → HasUniqueCards (save_conversation d r t v now)
save-IsUnique d r t v now h k j u = elim (Bool-cases (d.writable && (r == j && t == u))) [
  | inl e ↦
      let f : thread (save_conversation d r t v now) j u ≡ some v =
        ground (arith, thread-save_conversation d r t j u v now) in
      rw f k
  | inr e ↦
      let f : thread (save_conversation d r t v now) j u ≡ thread d j u =
        ground (arith, thread-save_conversation d r t j u v now) in
      rw f (h j u)
]

upsert-IsUnique :
    (role : Role) (id : String) (now : ℕ) (patch : ChatMessage → ChatMessage)
    → KeepsCard patch
    → (ms : List ChatMessage) → ((k : Role) (i : String) → is_activity k ≡ true → cards k i ms ≤ 1)
    → (k : Role) (i : String) → is_activity k ≡ true
    → cards k i (upsert role id now patch ms) ≤ 1
upsert-IsUnique role id now patch keeps ms h k i a =
    elim (Bool-cases (role_beq role k && id == i)) [
      | inl e ↦
          let same : role ≡ k = role_beq_eq role k (ground arith) in
          let alike : id ≡ i = ground (arith, eq_iff id i) in
          let one = cards-upsert patch keeps role id now ms (rw (same, alike) (h k i a)) in
          ground (arith, one)
      | inr e ↦ ground (arith, cards-upsert_other patch keeps role k id i now ms e, h k i a)
    ]

with_card-IsUnique :
    (found : Option Conversation) (t : String) (role : Role) (id : String)
    → (patch : ChatMessage → ChatMessage) (now : ℕ) → KeepsCard patch
    → IsUniqueOption found
    → IsUnique (with_card found t role id patch now)
unfolding with_card conversation_or_new new_conversation cards
with_card-IsUnique none t role id patch now keeps h =
    upsert-IsUnique role id now patch keeps [] (λ k i a. omega arith)
with_card-IsUnique (some v) t role id patch now keeps h =
    upsert-IsUnique role id now patch keeps v.messages h

cards-append :
    (k : Role) (i : String) (m : ChatMessage) (ms : List ChatMessage)
    → is_activity k ≡ true
    → is_activity m.role ≡ false
    → cards k i (ms ++ m ∷ []) ≡ cards k i ms
unfolding cards is_card
cards-append k i m [] a b =
    let apart : role_beq m.role k ≡ false = elim (Bool-cases (role_beq m.role k)) [
      | inl e ↦ absurd (let f = role_beq_eq m.role k e in let g = rw f at b in cc)
      | inr e ↦ e
    ] in
    ground arith
cards-append k i m (n ∷ ms) a b = ground (arith, cards-append k i m ms)

with_message-IsUnique :
    (found : Option Conversation) (t : String) (m : ChatMessage) (now : ℕ)
    → is_activity m.role ≡ false
    → IsUniqueOption found
    → IsUnique (with_message found t m now)
unfolding with_message new_conversation cards
with_message-IsUnique none t m now b h = λ k i a. ground (arith, cards-append k i m [])
with_message-IsUnique (some v) t m now b h =
    λ k i a. ground (arith, cards-append k i m v.messages, h k i a)

ensured-IsUnique :
    (found : Option Conversation) (t : String) (title : Option Text) (now : ℕ)
    → IsUniqueOption found
    → IsUnique (ensured found t title now)
unfolding ensured new_conversation cards
ensured-IsUnique none t title now h = λ k i a. omega arith
ensured-IsUnique (some v) t title now h = elim (Option-cases v.title) [
  | inl e ↦ rw (e, ensured) h
  | inr (old, e) ↦ rw (e, ensured) h
]

clear-IsUnique : (d : Disk) → HasUniqueCards d → HasUniqueCards (clear_state d)
unfolding clear_state save thread get_connection lookup
clear-IsUnique d h j u = elim (Bool-cases d.writable) [
  | inl e ↦ rw (e, clear_state) tt
  | inr e ↦ rw (e, clear_state) (h j u)
]

apply-IsUnique : (d : Disk) (w : Write) → IsPlain w → HasUniqueCards d → HasUniqueCards (apply d w)
unfolding apply record_conversation_message record_tool_activity record_task_activity
    ensure_conversation
apply-IsUnique d (touches r now) b h = λ j u. rw (touch-thread d r j u now) (h j u)
apply-IsUnique d (cookies r cookie now) b h = λ j u. rw (cookie-thread d r cookie j u now) (h j u)
apply-IsUnique d (grants r identity now) b h = λ j u. rw (grant-thread d r j u identity now) (h j u)
apply-IsUnique d (says r t m now) b h = save-IsUnique d r t _ now h (
    with_message-IsUnique (find_conversation d r t now) t m now b
      (rw (thread-find_conversation d r t now) (h r t)))
apply-IsUnique d (runs_tool r t a now) b h = save-IsUnique d r t _ now h (
    with_card-IsUnique (find_conversation d r t now) t tool a.id (patch_tool a now) now
      (patch_tool-KeepsCard a now) (rw (thread-find_conversation d r t now) (h r t)))
apply-IsUnique d (runs_task r t a now) b h = save-IsUnique d r t _ now h (
    with_card-IsUnique (find_conversation d r t now) t task a.id (patch_task a now) now
      (patch_task-KeepsCard a now) (rw (thread-find_conversation d r t now) (h r t)))
apply-IsUnique d (opens r t title now) b h = save-IsUnique d r t _ now h (
    ensured-IsUnique (find_conversation d r t now) t title now
      (rw (thread-find_conversation d r t now) (h r t)))
apply-IsUnique d forgets b h = clear-IsUnique d h

pub apply_all-IsUnique :
    (d : Disk) (ws : List Write)
    → All IsPlain ws
    → HasUniqueCards d
    → HasUniqueCards (apply_all d ws)
unfolding apply_all
apply_all-IsUnique d [] b h = h
apply_all-IsUnique d (w ∷ ws) b h = apply_all-IsUnique (apply d w) ws b.1 (apply-IsUnique d w b.0 h)

-- Whatever is written to the state file, in any order, no thread gets two `tool` cards or two
-- `task` cards of one id, if the messages recorded are a user's or an agent's and no thread had
-- two such cards before.
pub cards_unique :
    (d : Disk) (ws : List Write) (r t i : String) (v : Conversation)
    → All IsPlain ws
    → HasUniqueCards d
    → thread (apply_all d ws) r t ≡ some v
    → (cards tool i v.messages ≤ 1) × (cards task i v.messages ≤ 1)
cards_unique d ws r t i v b h e =
    let k : IsUnique v = subst IsUniqueOption e (apply_all-IsUnique d ws b h r t) in
    (k tool i refl, k task i refl)

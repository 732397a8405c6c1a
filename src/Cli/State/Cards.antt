-- ===== src/Cli/State/Cards.antt =====
-- packages/ac2-cli/src/identity/state.ts: `recordToolActivity` and `recordTaskActivity`, which keep
-- one card for each id.
use ac.Common.{
  ℕ, suc, ◌≡◌, ◌≤◌, refl, String, Option, none, some, List, [], ◌∷◌, if◌then◌else◌, Bool, true,
  false, ◌==◌, ◌&&◌, Text, string_eq, arith,
}
use text.Mathlib.TextEquality.{eq_iff}
use ac.Cli.State.{
  Disk, ChatMessage, Conversation, Role, user, agent, tool, task, new_conversation,
  save_conversation, find_conversation,
}

-- The `tool` argument of `recordToolActivity`.
pub record ToolActivity : Type 0 where
  pub id : String
  pub name : Option String
  pub command : Option String
  pub output : Option String

-- The `task` argument of `recordTaskActivity`.
pub record TaskActivity : Type 0 where
  pub id : String
  pub title : Option Text
  pub prompt : Option String
  pub status : Option String
  pub result : Option String

abbrev pub role_beq : Role → Role → Bool
role_beq user user = true
role_beq agent agent = true
role_beq tool tool = true
role_beq task task = true
role_beq _ _ = false

-- `m.role === role && m.id === id`.
abbrev pub has_id : String → Option String → Bool
has_id id none = false
has_id id (some i) = i == id

unfoldable pub is_card : Role → String → ChatMessage → Bool
is_card role id m = role_beq m.role role && has_id id m.id

-- `{ ...prev, ...(x !== undefined ? { x } : {}) }` at one field.
unfoldable pub over {ℓ} : {A : Type ℓ} → Option A → Option A → Option A
over old none = old
over old (some a) = some a

-- A field that the source drops when it is empty.
unfoldable pub nonempty : Option String → Option String
nonempty none = none
nonempty (some s) = if s == "" then none else some s

unfoldable pub blank : Role → String → ℕ → ChatMessage
blank role id now = record {
  role = role;
  text = [];
  at = now;
  id = some id;
  tool_name = none;
  command = none;
  output = none;
  title = none;
  prompt = none;
  status = none;
  result = none;
}

unfoldable pub patch_tool : ToolActivity → ℕ → ChatMessage → ChatMessage
unfolding over nonempty
patch_tool t now m = record m {
  at = now;
  tool_name = over m.tool_name (nonempty t.name);
  command = over m.command (nonempty t.command);
  output = over m.output t.output;
}

unfoldable pub patch_task : TaskActivity → ℕ → ChatMessage → ChatMessage
unfolding over
patch_task t now m = record m {
  at = now;
  title = over m.title t.title;
  prompt = over m.prompt t.prompt;
  status = over m.status t.status;
  result = over m.result t.result;
}

-- The first card found takes the patch, else a patched blank one goes to the end.
unfoldable pub upsert :
    Role → String → ℕ → (ChatMessage → ChatMessage) → List ChatMessage → List ChatMessage
unfolding is_card blank
upsert role id now patch [] = patch (blank role id now) ∷ []
upsert role id now patch (m ∷ ms) =
    if is_card role id m then patch m ∷ ms else m ∷ upsert role id now patch ms

unfoldable pub conversation_or_new : Option Conversation → String → ℕ → Conversation
unfolding new_conversation
conversation_or_new none thid now = new_conversation thid none [] now
conversation_or_new (some existing) thid now = existing

unfoldable pub with_card :
    Option Conversation → String → Role → String → (ChatMessage → ChatMessage) → ℕ → Conversation
unfolding conversation_or_new upsert
with_card found thid role id patch now =
    let existing = conversation_or_new found thid now in
    record existing { updated_at = now; messages = upsert role id now patch existing.messages }

unfoldable pub record_tool_activity : Disk → String → String → ToolActivity → ℕ → Disk
unfolding save_conversation find_conversation with_card patch_tool
record_tool_activity d request_id thid t now =
    save_conversation d request_id thid
      (with_card (find_conversation d request_id thid now) thid tool t.id (patch_tool t now) now)
      now

unfoldable pub record_task_activity : Disk → String → String → TaskActivity → ℕ → Disk
unfolding save_conversation find_conversation with_card patch_task
record_task_activity d request_id thid t now =
    save_conversation d request_id thid
      (with_card (find_conversation d request_id thid now) thid task t.id (patch_task t now) now)
      now

-- How many cards of a kind have an id.
unfoldable pub cards : Role → String → List ChatMessage → ℕ
unfolding is_card
cards role id [] = 0
cards role id (m ∷ ms) = if is_card role id m then suc (cards role id ms) else cards role id ms

-- A patch that leaves a card its kind and its id.
abbrev pub KeepsCard : (ChatMessage → ChatMessage) → Type 0
KeepsCard patch = (m : ChatMessage) → ((patch m).role ≡ m.role) × ((patch m).id ≡ m.id)

is_card-patch :
    (role : Role) (id : String) (patch : ChatMessage → ChatMessage) (m : ChatMessage)
    → KeepsCard patch
    → is_card role id (patch m) ≡ is_card role id m
unfolding is_card
is_card-patch role id patch m k = rw ((k m).0, (k m).1) refl

pub patch_tool-KeepsCard : (t : ToolActivity) (now : ℕ) → KeepsCard (patch_tool t now)
unfolding patch_tool
patch_tool-KeepsCard t now m = (refl, refl)

pub patch_task-KeepsCard : (t : TaskActivity) (now : ℕ) → KeepsCard (patch_task t now)
unfolding patch_task
patch_task-KeepsCard t now m = (refl, refl)

pub role_beq_eq : (a b : Role) → role_beq a b ≡ true → a ≡ b
role_beq_eq user user h = refl
role_beq_eq user agent h = cc
role_beq_eq user tool h = cc
role_beq_eq user task h = cc
role_beq_eq agent user h = cc
role_beq_eq agent agent h = refl
role_beq_eq agent tool h = cc
role_beq_eq agent task h = cc
role_beq_eq tool user h = cc
role_beq_eq tool agent h = cc
role_beq_eq tool tool h = refl
role_beq_eq tool task h = cc
role_beq_eq task user h = cc
role_beq_eq task agent h = cc
role_beq_eq task tool h = cc
role_beq_eq task task h = refl

role_beq_refl : (a : Role) → role_beq a a ≡ true
role_beq_refl user = refl
role_beq_refl agent = refl
role_beq_refl tool = refl
role_beq_refl task = refl

has_id_eq :
    (id i : String) (found : Option String)
    → has_id id found ≡ true
    → has_id i found ≡ true
    → id ≡ i
has_id_eq id i none h k = cc
has_id_eq id i (some j) h k = ground (arith, eq_iff j id, eq_iff j i)

-- A message is a card of one kind with one id.
is_card_unique :
    (role k : Role) (id i : String) (m : ChatMessage)
    → is_card role id m ≡ true
    → is_card k i m ≡ true
    → (role ≡ k) × (id ≡ i)
unfolding is_card
is_card_unique role k id i m h g = (
  ground (arith, role_beq_eq m.role role, role_beq_eq m.role k),
  has_id_eq id i m.id (ground arith) (ground arith),
)

is_card-blank : (role : Role) (id : String) (now : ℕ) → is_card role id (blank role id now) ≡ true
unfolding is_card blank
is_card-blank role id now = ground (arith, role_beq_refl role, eq_iff id id)

module _ (patch : ChatMessage → ChatMessage) (keeps : KeepsCard patch) where
  pub cards-upsert :
      (role : Role) (id : String) (now : ℕ) (ms : List ChatMessage)
      → cards role id ms ≤ 1
      → cards role id (upsert role id now patch ms) ≡ 1
  unfolding cards upsert blank
  cards-upsert role id now [] h =
      ground
        (arith, is_card-patch role id patch (blank role id now) (keeps), is_card-blank role id now)
  cards-upsert role id now (m ∷ ms) h =
      ground (arith, is_card-patch role id patch m (keeps), cards-upsert role id now ms)

  pub cards-upsert_other :
      (role k : Role) (id i : String) (now : ℕ) (ms : List ChatMessage)
      → (role_beq role k && id == i) ≡ false
      → cards k i (upsert role id now patch ms) ≡ cards k i ms
  unfolding cards upsert
  cards-upsert_other role k id i now [] h = ground (
    arith,
    is_card-patch k i patch (blank role id now) (keeps),
    is_card-blank role id now,
    is_card_unique role k id i (blank role id now),
    role_beq_refl role,
    eq_iff id i,
  )
  cards-upsert_other role k id i now (m ∷ ms) h = ground (
    arith,
    is_card-patch k i patch m (keeps),
    is_card_unique role k id i m,
    cards-upsert_other role k id i now ms h,
    role_beq_refl role,
    eq_iff id i,
  )

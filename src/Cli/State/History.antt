-- ===== src/Cli/State/History.antt =====
-- packages/ac2-cli/src/identity/state.ts: what sequences of writes leave in the state file.
use ac.Common.{
  ℕ, ◌≡◌, ◌⊎◌, refl, ◌∙◌, String, Option, none, some, List, [], ◌∷◌, if◌then◌else◌, Bool, true,
  false, ◌==◌, ◌&&◌, Text, string_eq, arith, lookup, insert, lookup-insert, All, Option-cases, inl,
  inr,
}
use text.Mathlib.TextEquality.{eq_iff}
use ac.Cli.State.{
  Disk, ChatMessage, Conversation, Connection, Identity, save, save_connection, save_conversation,
  find_conversation, get_connection, connection_or_new, new_connection, touch_connection,
  get_session_cookie, set_session_cookie, set_connection_identity, record_conversation_message,
  ensure_conversation, clear_state,
}
use ac.Cli.State.Cards.{ToolActivity, TaskActivity, record_tool_activity, record_task_activity}

pub data Write : Type 0 where
  touches : String → ℕ → Write
  cookies : String → String → ℕ → Write
  grants : String → Identity → ℕ → Write
  says : String → String → ChatMessage → ℕ → Write
  runs_tool : String → String → ToolActivity → ℕ → Write
  runs_task : String → String → TaskActivity → ℕ → Write
  opens : String → String → Option Text → ℕ → Write
  forgets : Write

unfoldable pub apply : Disk → Write → Disk
unfolding touch_connection
apply d (touches r now) = touch_connection d r now
apply d (cookies r cookie now) = set_session_cookie d r cookie now
apply d (grants r identity now) = set_connection_identity d r identity now
apply d (says r t m now) = record_conversation_message d r t m now
apply d (runs_tool r t a now) = record_tool_activity d r t a now
apply d (runs_task r t a now) = record_task_activity d r t a now
apply d (opens r t title now) = ensure_conversation d r t title now
apply d forgets = clear_state d

unfoldable pub apply_all : Disk → List Write → Disk
apply_all d [] = d
apply_all d (w ∷ ws) = apply_all (apply d w) ws

abbrev pub conversation_of : Option Connection → String → Option Conversation
conversation_of none t = none
conversation_of (some c) t = lookup t c.conversations

-- The thread `t` of the connection `r`.
unfoldable pub thread : Disk → String → String → Option Conversation
unfolding get_connection
thread d r t = conversation_of (get_connection d r) t

abbrev pub identity_of : Option Connection → Option Identity
identity_of none = none
identity_of (some c) = c.identity

unfoldable pub granted : Disk → String → Option Identity
unfolding get_connection
granted d r = identity_of (get_connection d r)

-- The thread that a write is for.
abbrev pub addresses : Write → String → String → Bool
addresses (says r t m now) j u = r == j && t == u
addresses (runs_tool r t a now) j u = r == j && t == u
addresses (runs_task r t a now) j u = r == j && t == u
addresses (opens r t title now) j u = r == j && t == u
addresses forgets j u = true
addresses _ j u = false

get_connection-save_connection :
    (d : Disk) (r j : String) (c : Connection)
    → get_connection (save_connection d r c) j
      ≡ (if d.writable && r == j then some c else get_connection d j)
unfolding get_connection save_connection save
get_connection-save_connection d r j c = ground (arith, lookup-insert r j c d.state.connections)

new-cases :
    (d : Disk) (r : String) (now : ℕ)
    → ((get_connection d r ≡ none) × (connection_or_new d r now ≡ new_connection r now))
      ⊎ (get_connection d r ≡ some (connection_or_new d r now))
unfolding connection_or_new
new-cases d r now = elim (Option-cases (get_connection d r)) [
  | inl e ↦ inl (e, rw (e, connection_or_new) refl)
  | inr (c, e) ↦ inr (rw (e, connection_or_new) refl)
]

conversations-new :
    (d : Disk) (r t : String) (now : ℕ)
    → lookup t (connection_or_new d r now).conversations ≡ thread d r t
unfolding thread new_connection lookup
conversations-new d r t now = elim (new-cases d r now) [
  | inl (e, f) ↦ rw (e, f) refl
  | inr e ↦ rw e refl
]

identity-new :
    (d : Disk) (r : String) (now : ℕ) → (connection_or_new d r now).identity ≡ granted d r
unfolding granted new_connection
identity-new d r now = elim (new-cases d r now) [ inl (e, f) ↦ rw (e, f) refl | inr e ↦ rw e refl ]

pub thread-find_conversation :
    (d : Disk) (r t : String) (now : ℕ) → find_conversation d r t now ≡ thread d r t
unfolding find_conversation
thread-find_conversation d r t now = conversations-new d r t now

-- A connection that keeps its threads.
thread-save_connection :
    (d : Disk) (r j u : String) (c : Connection)
    → ((t : String) → lookup t c.conversations ≡ thread d r t)
    → thread (save_connection d r c) j u ≡ thread d j u
unfolding thread
thread-save_connection d r j u c h =
    ground (arith, get_connection-save_connection d r j c, eq_iff r j, h u)

pub thread-save_conversation :
    (d : Disk) (r t j u : String) (v : Conversation) (now : ℕ)
    → thread (save_conversation d r t v now) j u
      ≡ (if d.writable && (r == j && t == u) then some v else thread d j u)
unfolding thread save_conversation
thread-save_conversation d r t j u v now =
    let c = connection_or_new d r now in
    ground (
      arith,
      get_connection-save_connection d r j
          (record c { last_active_at = now; conversations = insert t v c.conversations }),
      lookup-insert t u v c.conversations,
      conversations-new d r u now,
      eq_iff r j,
    )

save_conversation-elsewhere :
    (d : Disk) (r t j u : String) (v : Conversation) (now : ℕ)
    → (r == j && t == u) ≡ false
    → thread (save_conversation d r t v now) j u ≡ thread d j u
save_conversation-elsewhere d r t j u v now h =
    ground (arith, thread-save_conversation d r t j u v now)

pub touch-thread :
    (d : Disk) (r j u : String) (now : ℕ) → thread (touch_connection d r now) j u ≡ thread d j u
unfolding touch_connection
touch-thread d r j u now = thread-save_connection d r j u _ (λ t. conversations-new d r t now)

pub cookie-thread :
    (d : Disk) (r cookie j u : String) (now : ℕ)
    → thread (set_session_cookie d r cookie now) j u ≡ thread d j u
unfolding set_session_cookie
cookie-thread d r cookie j u now =
    let written =
      thread-save_connection d r j u
        (record (connection_or_new d r now) { session_cookie = some cookie; last_active_at = now })
        (λ t. conversations-new d r t now) in
    elim (Option-cases (get_session_cookie d r)) [
      | inl e ↦ rw (e, set_session_cookie) written
      | inr (old, e) ↦ rw (e, set_session_cookie) (ground (arith, written))
    ]

grant-get :
    (d : Disk) (r j : String) (identity : Identity) (now : ℕ)
    → get_connection (set_connection_identity d r identity now) j ≡ (
        if d.writable && r == j
        then some
            (record (connection_or_new d r now) { identity = some identity; last_active_at = now })
        else get_connection d j)
unfolding get_connection set_connection_identity save
grant-get d r j identity now = ground (
  arith,
  lookup-insert r j
      (record (connection_or_new d r now) { identity = some identity; last_active_at = now })
      d.state.connections,
)

pub grant-thread :
    (d : Disk) (r j u : String) (identity : Identity) (now : ℕ)
    → thread (set_connection_identity d r identity now) j u ≡ thread d j u
unfolding thread
grant-thread d r j u identity now =
    ground (arith, grant-get d r j identity now, eq_iff r j, conversations-new d r u now)

-- A write leaves alone the threads that it is not for.
pub apply-thread :
    (d : Disk) (w : Write) (j u : String)
    → addresses w j u ≡ false
    → thread (apply d w) j u ≡ thread d j u
unfolding apply record_conversation_message record_tool_activity record_task_activity
    ensure_conversation
apply-thread d (touches r now) j u h = touch-thread d r j u now
apply-thread d (cookies r cookie now) j u h = cookie-thread d r cookie j u now
apply-thread d (grants r identity now) j u h = grant-thread d r j u identity now
apply-thread d (says r t m now) j u h = save_conversation-elsewhere d r t j u _ now h
apply-thread d (runs_tool r t a now) j u h = save_conversation-elsewhere d r t j u _ now h
apply-thread d (runs_task r t a now) j u h = save_conversation-elsewhere d r t j u _ now h
apply-thread d (opens r t title now) j u h = save_conversation-elsewhere d r t j u _ now h
apply-thread d forgets j u h = cc

abbrev pub Elsewhere : String → String → Write → Type 0
Elsewhere j u w = addresses w j u ≡ false

-- Any sequence of writes, none of them for a given thread and none of them a `forgets`, leaves
-- that thread as it was.
pub threads_isolated :
    (d : Disk) (ws : List Write) (j u : String)
    → All (Elsewhere j u) ws
    → thread (apply_all d ws) j u ≡ thread d j u
unfolding apply_all
threads_isolated d [] j u h = refl
threads_isolated d (w ∷ ws) j u h =
    threads_isolated (apply d w) ws j u h.1 ∙ apply-thread d w j u h.0

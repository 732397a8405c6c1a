-- ===== src/Cli/State/Grants.antt =====
-- packages/ac2-cli/src/identity/state.ts: which identity the state file holds.
use ac.Common.{
  ℕ, ◌≡◌, refl, ◌∙◌, sym, ap, String, Option, none, some, List, [], ◌∷◌, true, string_eq, arith,
  Option-cases, Bool-cases, inl, inr, ◌==◌,
}
use ac.Cli.State.{
  Disk, Connection, Identity, save, save_connection, save_conversation, get_session_cookie,
  touch_connection, set_session_cookie, set_connection_identity, record_conversation_message,
  ensure_conversation, clear_state,
}
use ac.Cli.State.Cards.{record_tool_activity, record_task_activity}
use ac.Cli.State.History.{
  Write, touches, cookies, grants, says, runs_tool, runs_task, opens, forgets, apply, apply_all,
}

-- The identity that the last grant of a list leaves.
abbrev pub last_grant : Option Identity → List Write → Option Identity
last_grant old [] = old
last_grant old (grants r identity now ∷ ws) = last_grant (some identity) ws
last_grant old (forgets ∷ ws) = last_grant none ws
last_grant old (touches r now ∷ ws) = last_grant old ws
last_grant old (cookies r cookie now ∷ ws) = last_grant old ws
last_grant old (says r t m now ∷ ws) = last_grant old ws
last_grant old (runs_tool r t a now ∷ ws) = last_grant old ws
last_grant old (runs_task r t a now ∷ ws) = last_grant old ws
last_grant old (opens r t title now ∷ ws) = last_grant old ws

-- Two disks with the same identity, both writable or both not.
abbrev pub Same : Disk → Disk → Type 0
Same d e = (e.writable ≡ d.writable) × (e.state.identity ≡ d.state.identity)

save_connection-Same : (d : Disk) (r : String) (c : Connection) → Same d (save_connection d r c)
unfolding save_connection save
save_connection-Same d r c = (ground arith, ground arith)

cookie-Same : (d : Disk) (r cookie : String) (now : ℕ) → Same d (set_session_cookie d r cookie now)
unfolding set_session_cookie
cookie-Same d r cookie now = elim (Option-cases (get_session_cookie d r)) [
  | inl e ↦ rw (e, set_session_cookie) (save_connection-Same d r _)
  | inr (old, e) ↦ elim (Bool-cases (old == cookie)) [
    | inl f ↦ rw (e, set_session_cookie, f) (refl, refl)
    | inr f ↦ rw (e, set_session_cookie, f) (save_connection-Same d r _)
  ]
]

connection-granted :
    (d e : Disk) (w : Write)
    → Same d e
    → d.writable ≡ true
    → last_grant d.state.identity (w ∷ []) ≡ d.state.identity
    → (e.writable ≡ true) × (e.state.identity ≡ last_grant d.state.identity (w ∷ []))
connection-granted d e w s h k = (s.0 ∙ h, s.1 ∙ sym k)

apply-granted :
    (d : Disk) (w : Write)
    → d.writable ≡ true
    → ((apply d w).writable ≡ true)
      × ((apply d w).state.identity ≡ last_grant d.state.identity (w ∷ []))
unfolding apply touch_connection set_connection_identity save save_connection save_conversation
    clear_state record_conversation_message record_tool_activity record_task_activity
    ensure_conversation
apply-granted d (touches r now) h = (ground arith, ground arith)
apply-granted d (cookies r cookie now) h =
    connection-granted d (apply d (cookies r cookie now)) (cookies r cookie now)
      (cookie-Same d r cookie now) h refl
apply-granted d (grants r identity now) h = (ground arith, ground arith)
apply-granted d (says r t m now) h = (ground arith, ground arith)
apply-granted d (runs_tool r t a now) h = (ground arith, ground arith)
apply-granted d (runs_task r t a now) h = (ground arith, ground arith)
apply-granted d (opens r t title now) h = (ground arith, ground arith)
apply-granted d forgets h = (ground arith, ground arith)

last_grant-cons :
    (old : Option Identity) (w : Write) (ws : List Write)
    → last_grant old (w ∷ ws) ≡ last_grant (last_grant old (w ∷ [])) ws
last_grant-cons old (touches r now) ws = refl
last_grant-cons old (cookies r cookie now) ws = refl
last_grant-cons old (grants r identity now) ws = refl
last_grant-cons old (says r t m now) ws = refl
last_grant-cons old (runs_tool r t a now) ws = refl
last_grant-cons old (runs_task r t a now) ws = refl
last_grant-cons old (opens r t title now) ws = refl
last_grant-cons old forgets ws = refl

-- A disk that can be written holds the identity that was granted last, over all connections: no
-- other write changes it, and `forgets` clears it.
pub identity_granted_last :
    (d : Disk) (ws : List Write)
    → d.writable ≡ true
    → (apply_all d ws).state.identity ≡ last_grant d.state.identity ws
unfolding apply_all
identity_granted_last d [] h = refl
identity_granted_last d (w ∷ ws) h =
    let (writes, here) = apply-granted d w h in
    identity_granted_last (apply d w) ws writes
    ∙ (ap (λ old. last_grant old ws) here ∙ sym (last_grant-cons d.state.identity w ws))

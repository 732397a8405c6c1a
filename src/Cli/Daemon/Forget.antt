-- ===== src/Cli/Daemon/Forget.antt =====
-- packages/ac2-cli/src/daemon/run.ts: `forgetConnection`, and what a full wipe remembers.
use ac.Common.{
  ◌≡◌, ◌≢◌, ◌<◌, refl, ap, String, Option, none, some, List, [], ◌∷◌, if◌then◌else◌, true, ◌==◌,
  string_eq, lookup-remove, Text, codes, starts_with, length, Bool-cases, inl, inr, arith,
}
use text.Mathlib.TextEquality.{eq_iff}
use ac.Cli.Control.Lines.{trim}
use ac.Sdk.Message.{Json}
use ac.Cli.State.{Disk, RuntimeSelection, get_connection, save, clear_state}
use ac.Cli.State.Runtime.{
  GivenConfig, clean_config, nonempty_config, load_runtime_selection, save_runtime_selection,
  load-save_runtime_selection,
}
use ac.Cli.Daemon.{forget_connection, forget_all, unless_is, given, given_option}

unless_is-other : (id : String) (kept : Option String) → unless_is id kept ≢ some id
unless_is-other id none = ground arith
unless_is-other id (some s) = ground (arith, eq_iff s id)

pub forget_connection_lem :
    (d : Disk) (id other : String)
    → d.writable ≡ true
    → let e = forget_connection d id in
      (get_connection e other ≡ (if id == other then none else get_connection d other))
      × (e.state.request_id ≢ some id)
      × (e.state.active_request_id ≢ some id)
      × (e.state.identity ≡ d.state.identity)
      × (e.state.runtime ≡ d.state.runtime)
unfolding forget_connection save clear_state get_connection
forget_connection_lem d id other up = rw up (
  ground (arith, lookup-remove id other d.state.connections, eq_iff id other, eq_iff other id),
  unless_is-other id d.state.request_id,
  unless_is-other id d.state.active_request_id,
  refl,
  refl,
)

clean-given :
    (config : GivenConfig) → clean_config (given (clean_config config)) ≡ clean_config config
unfolding clean_config
clean-given [] = refl
clean-given ((key, none) ∷ rest) = clean-given rest
clean-given ((key, some value) ∷ rest) = elim (Bool-cases (starts_with (codes "__") (codes key))) [
  | inl e ↦ rw e (clean-given rest)
  | inr e ↦ rw e (rw e (ap (λ kept. (key, value) ∷ kept) (clean-given rest)))
]

given-nonempty :
    (config : List (String × Json)) → given_option (nonempty_config config) ≡ given config
unfolding nonempty_config
given-nonempty [] = refl
given-nonempty (entry ∷ rest) = refl

forget_all-given :
    (d : Disk) (r : RuntimeSelection)
    → load_runtime_selection d ≡ some r
    → forget_all d ≡ save_runtime_selection (clear_state d) r.adapter (given_option r.config)
unfolding forget_all
forget_all-given d r e = rw (e, forget_all) refl

cleared-writable : (d : Disk) → d.writable ≡ true → (clear_state d).writable ≡ true
unfolding clear_state
cleared-writable d up = ground arith

saved-writable :
    (d : Disk) (adapter : Text) (config : GivenConfig)
    → d.writable ≡ true
    → (save_runtime_selection d adapter config).writable ≡ true
unfolding save_runtime_selection save
saved-writable d adapter config up = rw up refl

saved-rest :
    (d : Disk) (adapter : Text) (config : GivenConfig)
    → d.writable ≡ true
    → ((save_runtime_selection (clear_state d) adapter config).state.connections ≡ [])
      × ((save_runtime_selection (clear_state d) adapter config).state.identity ≡ none)
unfolding save_runtime_selection save clear_state
saved-rest d adapter config up = rw up (refl, refl)

given-stored :
    (config : GivenConfig)
    → nonempty_config (clean_config (given_option (nonempty_config (clean_config config))))
      ≡ nonempty_config (clean_config config)
given-stored config = rw (given-nonempty (clean_config config), clean-given config) refl

-- Forgetting everything leaves the runtime selection that was saved, so that the next start uses the
-- same adapter and config.
pub forget_all-remembers :
    (d : Disk) (adapter : Text) (config : GivenConfig)
    → d.writable ≡ true
    → 0 < length adapter
    → trim adapter ≡ adapter
    → let e = save_runtime_selection d adapter config in
      (load_runtime_selection (forget_all e) ≡ load_runtime_selection e)
      × ((forget_all e).state.connections ≡ [])
      × ((forget_all e).state.identity ≡ none)
forget_all-remembers d adapter config up long trimmed =
    let e = save_runtime_selection d adapter config in
    let loaded = load-save_runtime_selection d adapter config up long trimmed in
    let kept = given_option (nonempty_config (clean_config config)) in
    let clear = saved-writable d adapter config up in
    let again =
      load-save_runtime_selection (clear_state e) adapter kept (cleared-writable e clear) long
        trimmed in
    let reason =
      forget_all-given e
        (record { adapter = adapter; config = nonempty_config (clean_config config) }) loaded in
    let rest = saved-rest e adapter kept clear in
    rw reason (rw (again, loaded, given-stored config) refl, rest.0, rest.1)

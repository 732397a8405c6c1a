-- ===== src/Cli/State/Runtime.antt =====
-- packages/ac2-cli/src/identity/state.ts: `loadRuntimeSelection` and `saveRuntimeSelection`.
use ac.Common.{
  ◌≡◌, ◌<◌, refl, String, Option, none, some, List, [], ◌∷◌, if◌then◌else◌, true, Text, codes,
  starts_with, length, arith,
}
use ac.Cli.Control.Lines.{trim}
use ac.Sdk.Message.{Json}
use ac.Cli.State.{Disk, RuntimeSelection, save}

-- A config as a caller gives it: an entry without a value is a function.
abbrev pub GivenConfig : Type 0
GivenConfig = List (String × Option Json)

-- The entries that are kept: no function, and no key with the internal prefix.
unfoldable pub clean_config : GivenConfig → List (String × Json)
clean_config [] = []
clean_config ((key, none) ∷ rest) = clean_config rest
clean_config ((key, some value) ∷ rest) =
    let kept = clean_config rest in
    if starts_with (codes "__") (codes key) then kept else (key, value) ∷ kept

-- An empty config is left out.
unfoldable pub nonempty_config : List (String × Json) → Option (List (String × Json))
nonempty_config [] = none
nonempty_config (entry ∷ rest) = some (entry ∷ rest)

unfoldable pub save_runtime_selection : Disk → Text → GivenConfig → Disk
unfolding save nonempty_config clean_config
save_runtime_selection d adapter config = save d (record d.state {
  runtime = some (record { adapter = adapter; config = nonempty_config (clean_config config) });
})

unfoldable pub nonblank_adapter : Text → Option (List (String × Json)) → Option RuntimeSelection
nonblank_adapter [] config = none
nonblank_adapter (c ∷ adapter) config = some (record { adapter = c ∷ adapter; config = config })

unfoldable pub selection_of : Option RuntimeSelection → Option RuntimeSelection
unfolding nonblank_adapter trim
selection_of none = none
selection_of (some r) = nonblank_adapter (trim r.adapter) r.config

unfoldable pub load_runtime_selection : Disk → Option RuntimeSelection
unfolding selection_of
load_runtime_selection d = selection_of d.state.runtime

-- A selection whose adapter has no white space around it and is not empty comes back from a disk that
-- can be written, with the config less its functions and internal entries.
pub load-save_runtime_selection :
    (d : Disk) (adapter : Text) (config : GivenConfig)
    → d.writable ≡ true
    → 0 < length adapter
    → trim adapter ≡ adapter
    → load_runtime_selection (save_runtime_selection d adapter config)
      ≡ some (record { adapter = adapter; config = nonempty_config (clean_config config) })
unfolding load_runtime_selection save_runtime_selection save
load-save_runtime_selection d [] config up long trimmed = absurd (omega arith)
load-save_runtime_selection d (c ∷ adapter) config up long trimmed =
    rw (up, trimmed, selection_of) refl

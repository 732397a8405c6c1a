-- ===== src/Cli/Gateway/Client/Tests.antt =====
-- A handshake with a device identity, and the theorems at it.
use ac.Common.{◌+◌, ◌≤◌, refl, some, List, [], ◌∷◌, true, is_some, length, one_if, string_eq}
use ac.Cli.Gateway.Client.{
  challenge, res, create_gateway_client, required_operator_scopes, write_scope,
}
use ac.Cli.Gateway.Client.Connects.{ClientEvent, opens, signs, receives, client_run, connects_once}
use ac.Cli.Gateway.Client.Scopes.{Granted, ready-Granted}

abbrev handshake : List ClientEvent
handshake =
    opens
    ∷ receives (challenge (some "n"))
    ∷ receives (challenge (some "m"))
    ∷ signs true
    ∷ receives (res 1 true (some (write_scope ∷ [])))
    ∷ []

connects_once_example :
    let c = client_run (create_gateway_client true required_operator_scopes) handshake in
    length c.connects + one_if (is_some c.signing) ≤ 1
connects_once_example = connects_once true required_operator_scopes handshake

ready-Granted_example : Granted required_operator_scopes handshake
unfolding client_run create_gateway_client
ready-Granted_example = ready-Granted true required_operator_scopes handshake refl

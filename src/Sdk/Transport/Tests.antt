-- ===== src/Sdk/Transport/Tests.antt =====
-- Two ends that talk and close, and the theorem at these.
use ac.Common.{◌≡◌, Option, none, some, List, [], ◌∷◌, ◌++◌, true, false, Text, one_if}
use ac.Sdk.Message.{Json, num}
use ac.Sdk.Transport.{create_in_memory_transport_pair}
use ac.Sdk.Transport.Order.{PairEvent, sends, closes, runs, bound, routes, pair_run, pair-ordered}

-- A parser of one code unit.
abbrev first_unit : Text → Option Json
first_unit [] = none
first_unit (c ∷ rest) = some (num c)

abbrev talk : List PairEvent
talk =
    sends true (49 ∷ [])
    ∷ sends false (50 ∷ [])
    ∷ runs
    ∷ closes false
    ∷ runs
    ∷ sends true (51 ∷ [])
    ∷ []

pair-ordered_example :
    let p = pair_run first_unit create_in_memory_transport_pair talk in
    (p.second.received ++ routes first_unit (bound true p.queue)
      ≡ routes first_unit p.first.accepted)
    × (p.first.received ++ routes first_unit (bound false p.queue)
        ≡ routes first_unit p.second.accepted)
    × (p.first.closed ≡ p.second.closed)
    × (p.first.close_calls ≡ one_if p.first.closed)
    × (p.second.close_calls ≡ one_if p.second.closed)
pair-ordered_example = pair-ordered first_unit talk

-- ===== src/Evt/Case03/Tests.antt =====
-- Requests and responses that wait for each other, one posted while the
-- thread of the manager is in its first round.
use freely_craft_codes.Prelude.{◌≡◌, refl, none, List, ◌∷◌, [], ok, arith}
use freely_craft_codes.Evt.Scenario.Start.{start}
use freely_craft_codes.Evt.Case03.{Move, asks, takes, case03}
use freely_craft_codes.Evt.Case03.Passes.{Outcome, passes, waits, case03_lem}

abbrev moves : List Move
moves = asks ∷ takes 1 ∷ takes 0 ∷ takes 0 ∷ takes 0 ∷ takes 0 ∷ []

case03_lem_example : Outcome 2 moves
case03_lem_example = case03_lem 2 moves (omega arith) (omega arith) refl refl

-- One response is still in the queue.
early_waits : case03 1 2 (asks ∷ asks ∷ takes 0 ∷ takes 0 ∷ takes 0 ∷ []) start ≡ ok none
early_waits =
    elim (case03_lem 2 (asks ∷ asks ∷ takes 0 ∷ takes 0 ∷ takes 0 ∷ []) (omega arith) (omega arith)
      refl refl) [ passes calls e run all ↦ absurd (ground (arith, e)) | waits ne run ↦ run ]

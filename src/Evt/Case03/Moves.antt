-- ===== src/Evt/Case03/Moves.antt =====
-- What the posting loop and the thread of the manager do.
use freely_craft_codes.Prelude.{ℕ, ◌≡◌, refl, List, ◌∷◌, [], true, arith}
use freely_craft_codes.Evt.Queue.{EvtQueue}
use freely_craft_codes.Evt.Busy.Turns.{run_turns}
use freely_craft_codes.Evt.Case03.{Move, asks, takes, Kind, request, response, has_room}
use freely_craft_codes.Evt.Case03.Due.{kinds}
use freely_craft_codes.Evt.Case03.Asks.{Passes, Holds, ask-Passes}
use freely_craft_codes.Evt.Case03.Takes.{idle-Passes, answer-Passes, response-Passes}

pub moves_lem :
    (total : ℕ) (moves : List Move) (es : List (Kind × ℕ)) (q : EvtQueue)
    → Holds es q
    → has_room moves (kinds es) ≡ true
    → Passes total moves es q
unfolding run_turns
moves_lem total [] es q h fits =
    ([], [], q, refl, refl, omega arith, λ who. (0, omega arith, λ s. refl))
moves_lem total (asks ∷ moves) es q h fits =
    ask-Passes total moves es q h fits (moves_lem total moves)
moves_lem total (takes n ∷ moves) [] q h fits =
    idle-Passes total n moves q h (ground (arith, fits))
      (moves_lem total moves [] q h (ground (arith, fits)))
moves_lem total (takes n ∷ moves) ((request, s) ∷ es) q h fits =
    answer-Passes total n moves s es q h fits (moves_lem total moves)
moves_lem total (takes n ∷ moves) ((response, s) ∷ es) q h fits =
    response-Passes total n moves s es q h (ground (arith, fits))
      (λ r k. moves_lem total moves es r k (ground (arith, fits)))

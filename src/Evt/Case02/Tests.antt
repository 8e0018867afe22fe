-- ===== src/Evt/Case02/Tests.antt =====
-- The threads in turn, with the thread of the manager behind them.
use freely_craft_codes.Prelude.{◌≡◌, refl, none, List, ◌∷◌, [], ok, arith}
use freely_craft_codes.Evt.Scenario.Start.{start}
use freely_craft_codes.Evt.Case02.{Move, posts_keepalive, posts_msgdata, takes, case02}
use freely_craft_codes.Evt.Case02.Passes.{Outcome, passes, waits, case02_lem}

abbrev all_taken : List Move
all_taken = posts_keepalive ∷ posts_msgdata ∷ takes ∷ posts_msgdata ∷ takes ∷ takes ∷ []

case02_lem_example : Outcome 1 2 all_taken
case02_lem_example =
    case02_lem 1 2 all_taken (omega arith) (omega arith) (omega arith) (omega arith) refl refl refl

-- A message is still in the queue.
abbrev one_left : List Move
one_left = posts_keepalive ∷ posts_msgdata ∷ takes ∷ []

one_left_waits : case02 1 1 1 one_left start ≡ ok none
one_left_waits =
    elim (case02_lem 1 1 one_left (omega arith) (omega arith) (omega arith) (omega arith) refl refl
      refl) [ passes calls e run b c d ↦ absurd (omega (arith, e)) | waits ne run ↦ run ]

-- ===== src/Evt/Scenario/Tests.antt =====
-- The test with its own number of posts.
use freely_craft_codes.Prelude.{arith}
use freely_craft_codes.Evt.Scenario.Passes.{Outcome, case01_lem}

case01_lem_example : Outcome 1000
case01_lem_example = case01_lem 1000 (omega arith)

-- ===== src/Ioc/Scenario/Tests.antt =====
-- A few posts, with the thread ahead of them and behind.
use freely_craft_codes.Prelude.{◌≡◌, true, false, List, ◌∷◌, [], length, replicate, arith}
use freely_craft_codes.ThinkOs.{success, no_evt_suber}
use freely_craft_codes.Ioc.Conles.{initial}
use freely_craft_codes.Ioc.Course.{done}
use freely_craft_codes.Ioc.Scenario.{Turn, typical_case01}
use freely_craft_codes.Ioc.Scenario.Passes.{typical_case01_lem}

abbrev turns : List Turn
turns =
    record { before = false; sleeps = 0 }
    ∷ record { before = false; sleeps = 3 }
    ∷ record { before = true; sleeps = 0 }
    ∷ []

typical_case01_lem_example :
    typical_case01 turns 1024 initial
    ≡ done (record {
      subed = success;
      posted = replicate (length turns) success;
      unsubed = success;
      posted_again = replicate 1024 no_evt_suber;
    })
typical_case01_lem_example = typical_case01_lem turns 1024 (omega arith) (omega arith)

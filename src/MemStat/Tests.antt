-- ===== src/MemStat/Tests.antt =====
-- Two rounds over a file with one line.
use freely_craft_codes.Prelude.{ℕ, ◌≡◌, Option, some, List, ◌∷◌, length, arith, []}
use freely_craft_codes.MemStat.{
  Overview, Field, of_free, label_of, arg_t, arg_c, parse_args, start, main_loop,
}
use freely_craft_codes.MemStat.Rounds.{main_loop-count}

abbrev scan_seven : Field → List ℕ → Option ℕ
scan_seven f line = some 7

abbrev meminfo : ℕ → Option (List (List ℕ))
meminfo i = some (label_of of_free ∷ [])

main_loop-count_example :
    (printed : List Overview) × (main_loop scan_seven meminfo 3 0
        (parse_args (arg_t ∷ arg_c 2 ∷ []) start)
      ≡ some printed)
    × (length printed ≡ 2)
main_loop-count_example =
    main_loop-count scan_seven meminfo (arg_t ∷ arg_c 2 ∷ []) 3 (omega arith) (omega arith)

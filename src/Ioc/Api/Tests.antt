-- ===== src/Ioc/Api/Tests.antt =====
-- The tests of PlatIF_IOC/_PlatIF_IOC_EventTest.cxx, and other links.
use freely_craft_codes.Prelude.{◌≡◌, refl, none, some, ok, replicate, arith}
use freely_craft_codes.ThinkOs.{success, not_enough_resource, not_implemented}
use freely_craft_codes.Ioc.Conles.{Context, initial, sub_evt, sub_at, find_suber}
use freely_craft_codes.Ioc.Conles.Count.{IsValid}
use freely_craft_codes.Ioc.Api.{plt_ioc_unsub_evt, case02_args, rounds, with_one_place, case01}
use freely_craft_codes.Ioc.Api.Rounds.{rounds_lem}

case01_results : case01 initial ≡ ok (some (success, not_enough_resource))
unfolding case01 sub_evt sub_at find_suber
case01_results = refl

initial-IsValid : IsValid (with_one_place initial)
initial-IsValid = record { small = omega arith; subers = refl }

rounds_lem_example :
    (c' : Context) × (rounds 1024 case02_args (with_one_place initial)
      ≡ ok (some (replicate 1024 (success, success), c')))
    × (c'.cur_suber_num ≡ (with_one_place initial).cur_suber_num)
    × IsValid c'
rounds_lem_example =
    rounds_lem 1024 case02_args (with_one_place initial) initial-IsValid refl (omega arith) refl
      (omega arith)

other_link : plt_ioc_unsub_evt 7 none initial ≡ ok (some (not_implemented, initial))
unfolding plt_ioc_unsub_evt
other_link = refl

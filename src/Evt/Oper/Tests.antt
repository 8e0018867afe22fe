-- ===== src/Evt/Oper/Tests.antt =====
-- A registry of two places, one of them taken, and uses of its laws.
use freely_craft_codes.Prelude.{◌≡◌, refl, true, none, some, replicate, set, ok}
use freely_craft_codes.ThinkOs.{success}
use freely_craft_codes.Evt.Types.{EvtOperArgs}
use freely_craft_codes.Evt.Slots.{Slots, find_free}
use freely_craft_codes.Evt.Oper.{OperObj, do_reg_oper}
use freely_craft_codes.Evt.Oper.Invariant.{new_obj, table_of}

abbrev args : EvtOperArgs
args = record { mod_obj_id = 7 }

abbrev one_of_two : Slots OperObj
one_of_two = set (replicate 2 none) 0 (some (new_obj 0 args))

do_reg_oper-second :
    do_reg_oper true args (table_of 2 one_of_two)
    ≡ ok (success, some 1, table_of 2 (set one_of_two 1 (some (new_obj 1 args))))
unfolding do_reg_oper find_free
do_reg_oper-second = refl

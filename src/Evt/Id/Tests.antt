-- ===== src/Evt/Id/Tests.antt =====
-- Event ids of the catalogue, evaluated, and uses of the laws at them.
use freely_craft_codes.Prelude.{◌≡◌, refl, true, false, arith}
use freely_craft_codes.Evt.Id.{
  make_evtid, make_evtid_group, get_class, get_classmate, all_in_class, selects,
}
use freely_craft_codes.Evt.Id.Laws.{make-fields, selects_group}

selects-same : selects 0x201 0x301 ≡ true
unfolding selects get_class get_classmate
selects-same = refl

selects-other_class : selects 0x201 0x202 ≡ false
unfolding selects get_class get_classmate
selects-other_class = refl

make-fields_example : make_evtid (get_class 0x301) (get_classmate 0x301) ≡ 0x301
make-fields_example = make-fields 0x301 (omega arith)

selects_group_example : selects (make_evtid_group 2 all_in_class) (make_evtid 2 5) ≡ true
selects_group_example = selects_group 2 2 5 (omega arith) (omega arith) (omega arith)

-- ===== src/Evt/Oper/Unregister.antt =====
-- What unregistering and the test of an id promise.
use freely_craft_codes.Prelude.{
  ℕ, ◌<◌, ◌≡◌, refl, ◌∙◌, inl, inr, Bool, true, false, Option, none, some, get_elem?, set, ok, ltb,
  ◌&&◌, lt_of_get, ◌==◌, if◌then◌else◌, arith, Option-cases, get_elem?_of_lt, dec_lt,
}
use freely_craft_codes.ThinkOs.{bug, tos_yes, tos_no}
use freely_craft_codes.Evt.Types.{EvtOperArgs}
use freely_craft_codes.Evt.Slots.{Slots}
use freely_craft_codes.Evt.Slots.Laws.{first_used, find_used_whole, first_used-get, first_used-none}
use freely_craft_codes.Evt.Oper.{OperObj, Opers, is_reged_oper_id, unreg_oper}
use freely_craft_codes.Evt.Oper.Invariant.{
  reged_in, IsValidTable, IsValidTable?, IsValid, args_in, reged, set-cleared, args_in-set,
  table_of,
}

-- The test of an id.
abbrev pub has : Option (Slots OperObj) → Bool
has none = false
has (some objs) = true

abbrev pub is_some : Option EvtOperArgs → Bool
is_some none = false
is_some (some a) = true

-- The test of an id never has undefined behaviour: TOS_RESULT_BUG without a table or past its limit,
-- and else TOS_YES exactly for the registered ids.
pub is_reged_oper_id_lem :
    (o : Opers) (id : ℕ)
    → IsValid o
    → is_reged_oper_id o id
      ≡ ok (
          if has o.reged_oper_objs && ltb id o.may_reg_oper_num_max
          then (if is_some (reged o id) then tos_yes else tos_no)
          else bug)
unfolding is_reged_oper_id
is_reged_oper_id_lem o id v = by_table o.may_reg_oper_num_max o.reged_oper_objs v
  where
    by_slot :
        (max : ℕ) (objs : Slots OperObj) (slot : Option OperObj)
        → IsValidTable max objs
        → id < max
        → get_elem? objs id ≡ some slot
        → is_reged_oper_id (table_of max objs) id
          ≡ ok (if is_some (args_in (some slot)) then tos_yes else tos_no)
    by_slot max objs none v h read = ground arith
    by_slot max objs (some obj) v h read = ground (arith, v.placed id obj read)

    by_table :
        (max : ℕ) (table : Option (Slots OperObj))
        → IsValidTable? max table
        → is_reged_oper_id (record { may_reg_oper_num_max = max; reged_oper_objs = table }) id
          ≡ ok (
              if has table && ltb id max
              then (if is_some (reged_in table id) then tos_yes else tos_no)
              else bug)
    by_table max none v = refl
    by_table max (some objs) v = elim (dec_lt id max) [
      | yes p ↦
          let (slot, read) = get_elem?_of_lt objs id (omega (arith, v.sized)) in
          ground (arith, by_slot max objs slot v p read)
      | no p ↦ ground arith
    ]

abbrev pub UnregOutcome : ℕ → Opers → ℕ → Type 0
UnregOutcome id o j =
    (o' : Opers) × (unreg_oper id o ≡ ok o')
    × (reged o' j ≡ (if id == j then none else reged o j))
    × (o'.may_reg_oper_num_max ≡ o.may_reg_oper_num_max)
    × IsValid o'

module _ (max : ℕ) (objs : Slots OperObj) (v : IsValidTable max objs) (id : ℕ) where
  abbrev is_at : OperObj → Bool
  is_at obj = obj.evt_oper_id == id

  unreg_oper_loop :
      unreg_oper id (table_of max objs)
      ≡ ok (elim (first_used is_at objs) [
        | none ↦ table_of max objs
        | some idx ↦ table_of max (set objs idx none)
      ])
  unfolding unreg_oper
  unreg_oper_loop = rw (find_used_whole is_at max objs v.sized)

  absent :
      (j : ℕ) (slot : Option (Option OperObj))
      → first_used is_at objs ≡ none
      → get_elem? objs j ≡ slot
      → args_in slot ≡ (if id == j then none else args_in slot)
  absent j none e read = ground arith
  absent j (some none) e read = ground arith
  absent j (some (some obj)) e read =
      ground (arith, v.placed j obj read, first_used-none is_at objs j obj e read)

  unreg_outcome : (j : ℕ) → UnregOutcome id (table_of max objs) j
  unreg_outcome j = elim (Option-cases (first_used is_at objs)) [
    | inl e ↦ (table_of max objs, unreg_oper_loop ∙ rw e, absent j _ e refl, refl, v)
    | inr (idx, e) ↦
        let (obj, read, hit) = first_used-get is_at objs idx e in
        let same : idx ≡ id = ground (arith, v.placed idx obj read) in
        let in_range = lt_of_get objs idx read in
        (
          table_of max (set objs idx none),
          unreg_oper_loop ∙ rw e,
          rw (← same) (args_in-set objs idx j none in_range),
          refl,
          set-cleared max objs v idx in_range,
        )
  ]

-- Unregistering never has undefined behaviour, takes exactly the given id out of the registry, and
-- keeps the registry valid; an id that is not there changes nothing.
pub unreg_oper_lem : (id : ℕ) (o : Opers) (j : ℕ) → IsValid o → UnregOutcome id o j
unfolding unreg_oper
unreg_oper_lem id o j v = by_table o.may_reg_oper_num_max o.reged_oper_objs v
  where
    by_table :
        (max : ℕ) (table : Option (Slots OperObj))
        → IsValidTable? max table
        → UnregOutcome id (record { may_reg_oper_num_max = max; reged_oper_objs = table }) j
    by_table max none v = (_, refl, ground arith, refl, tt)
    by_table max (some objs) v = unreg_outcome max objs v id j

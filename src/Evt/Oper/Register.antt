-- ===== src/Evt/Oper/Register.antt =====
-- What registering promises: ids are fresh, and nothing else changes.
use freely_craft_codes.Prelude.{
  ℕ, ◌<◌, ◌≤◌, ◌≡◌, refl, ap, ◌∙◌, ◌≢◌, ◌⊎◌, inl, inr, Bool, true, false, Option, none, some, set,
  ok, ◌==◌, if◌then◌else◌, arith, Bool-cases, Option-cases, get_elem?_of_lt, dec_lt,
}
use freely_craft_codes.ThinkOs.{success, bug, not_enough_memory, too_many_reged}
use freely_craft_codes.Evt.Types.{EvtOperArgs}
use freely_craft_codes.Evt.Slots.{Slots}
use freely_craft_codes.Evt.Slots.Laws.{first_free, find_free_whole, first_free-get, first_free-none}
use freely_craft_codes.Evt.Oper.{OperObj, Opers, do_reg_oper}
use freely_craft_codes.Evt.Oper.Invariant.{
  IsValidTable, IsValidTable?, IsValid, args_in, reged, new_obj, set-placed, args_in-set, table_of,
}

-- How a registration ends, seen at any id `j`.
pub data RegOutcome (calloc_ok : Bool) (args : EvtOperArgs) (o : Opers) (j : ℕ) : Type 0 where
  no_table :
      o.reged_oper_objs ≡ none
      → do_reg_oper calloc_ok args o ≡ ok (bug, none, o)
      → RegOutcome calloc_ok args o j
  full :
      (reged o j ≢ none) ⊎ (o.may_reg_oper_num_max ≤ j)
      → do_reg_oper calloc_ok args o ≡ ok (too_many_reged, none, o)
      → RegOutcome calloc_ok args o j
  no_memory :
      calloc_ok ≡ false
      → do_reg_oper calloc_ok args o ≡ ok (not_enough_memory, none, o)
      → RegOutcome calloc_ok args o j
  done :
      (id : ℕ) (o' : Opers)
      → calloc_ok ≡ true
      → do_reg_oper calloc_ok args o ≡ ok (success, some id, o')
      → id < o.may_reg_oper_num_max
      → reged o id ≡ none
      → reged o' j ≡ (if id == j then some args else reged o j)
      → o'.may_reg_oper_num_max ≡ o.may_reg_oper_num_max
      → IsValid o'
      → RegOutcome calloc_ok args o j

module _ (max : ℕ) (objs : Slots OperObj) (v : IsValidTable max objs) where
  do_reg_oper_loop :
      (calloc_ok : Bool) (args : EvtOperArgs)
      → do_reg_oper calloc_ok args (table_of max objs)
        ≡ ok (elim (first_free objs) [
          | none ↦ (too_many_reged, none, table_of max objs)
          | some idx ↦
              if calloc_ok
              then (success, some idx, table_of max (set objs idx (some (new_obj idx args))))
              else (not_enough_memory, none, table_of max objs)
        ])
  unfolding do_reg_oper
  do_reg_oper_loop calloc_ok args = rw (find_free_whole max objs v.sized)

  full_at : (j : ℕ) → first_free objs ≡ none → (reged (table_of max objs) j ≢ none) ⊎ (max ≤ j)
  full_at j e = elim (dec_lt j max) [
    | yes p ↦
        let (slot, read) = get_elem?_of_lt objs j (omega (arith, v.sized)) in
        inl (λ free. ground (arith, first_free-none objs j e))
    | no p ↦ inr (omega arith)
  ]

  reg_outcome :
      (calloc_ok : Bool) (args : EvtOperArgs) (j : ℕ)
      → RegOutcome calloc_ok args (table_of max objs) j
  reg_outcome calloc_ok args j = elim (Option-cases (first_free objs)) [
    | inl e ↦ full (full_at j e) (do_reg_oper_loop calloc_ok args ∙ rw e)
    | inr (id, e) ↦
        let (is_free, in_range) = first_free-get objs id e in
        elim (Bool-cases calloc_ok) [
          | inl c ↦
              done id (table_of max (set objs id (some (new_obj id args)))) c
                (do_reg_oper_loop calloc_ok args ∙ rw (e, c)) (omega (arith, in_range, v.sized))
                (ap args_in is_free) (args_in-set objs id j (some (new_obj id args)) in_range) refl
                (set-placed max objs v id args in_range)
          | inr c ↦ no_memory c (do_reg_oper_loop calloc_ok args ∙ rw (e, c))
        ]
  ]

-- Registering never has undefined behaviour, and ends in one of four ways. On success the id is new
-- and below the limit, it alone is added, with the given arguments, and the registry stays valid;
-- otherwise nothing changes, and the result names the cause: no table, no free id, or no memory.
pub do_reg_oper_lem :
    (calloc_ok : Bool) (args : EvtOperArgs) (o : Opers) (j : ℕ)
    → IsValid o
    → RegOutcome calloc_ok args o j
unfolding do_reg_oper
do_reg_oper_lem calloc_ok args o j v = by_table o.may_reg_oper_num_max o.reged_oper_objs v
  where
    by_table :
        (max : ℕ) (table : Option (Slots OperObj))
        → IsValidTable? max table
        → RegOutcome calloc_ok args
            (record { may_reg_oper_num_max = max; reged_oper_objs = table })
            j
    by_table max none v = no_table refl refl
    by_table max (some objs) v = reg_outcome max objs v calloc_ok args j

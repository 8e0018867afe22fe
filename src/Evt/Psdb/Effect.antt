-- ===== src/Evt/Psdb/Effect.antt =====
-- What subscribing and unsubscribing change in the callbacks that an event reaches.
use freely_craft_codes.Prelude.{
  ℕ, suc, ◌<◌, get_elem?, false, true, [], ◌∷◌, lt_of_get, ◌≤◌, ◌≡◌, ◌==◌, refl, sym, ap, ◌∙◌, inl,
  inr, Bool, ◌&&◌, none, some, List, ◌++◌, take, replicate, length, set, Run, ok, Option-cases,
  arith,
}
use freely_craft_codes.ThinkOs.{success}
use freely_craft_codes.Evt.Types.{EvtDesc, EvtSubArgs}
use freely_craft_codes.Evt.Slots.{Slots}
use freely_craft_codes.Evt.Slots.Laws.{first_free, first_free-get}
use freely_craft_codes.Evt.Psdb.Rows.{Row}
use freely_craft_codes.Evt.Psdb.Dispatch.{CbCall, call_each_suber}
use freely_craft_codes.Evt.Psdb.{Table, unsub_evts}
use freely_craft_codes.Evt.Psdb.Invariant.{
  IsSuber, IsValidRows, table_of, set-placed, set-cleared, new_row-IsSuber, length-take,
}
use freely_craft_codes.Evt.Psdb.Subscribe.{sub_row, subscribe, sub_success}
use freely_craft_codes.Evt.Psdb.Free.{is_slot_of, unsub_result}
use freely_craft_codes.Evt.Psdb.Delivery.{
  calls_for, calls_for_ids, calls_for_slot, call_each_suber_lem, calls_for-set, take_append,
}

abbrev pub dispatch : Table → EvtDesc → Run (List CbCall)
dispatch t desc = call_each_suber t.may_evt_num_max t.rows desc

module _ (tail_cells : ℕ) (calloc_ok malloc_ok : Bool) (evt_suber_id : ℕ) (evt_ids : List ℕ)
    (num_ids : ℕ) (args : EvtSubArgs) (enough : num_ids ≤ length evt_ids) (max : ℕ)
    (rows : Slots Row) (v : IsValidRows (IsSuber (suc tail_cells)) max rows) (desc : EvtDesc) where
  abbrev new : Row
  new = sub_row (suc tail_cells) calloc_ok malloc_ok evt_suber_id evt_ids num_ids args

  abbrev new_calls : List CbCall
  new_calls = calls_for_ids desc evt_suber_id args (take num_ids evt_ids)

  new_ids : take num_ids new.evt_ids ≡ take num_ids evt_ids
  new_ids =
      ap (λ n. take n new.evt_ids) (sym (length-take num_ids evt_ids enough))
      ∙ take_append (take num_ids evt_ids) (replicate (suc tail_cells) 0)

  placed_effect :
      (i : ℕ)
      → first_free rows ≡ some i
      → (before : List CbCall) × (after : List CbCall) × (call_each_suber max (some rows) desc
          ≡ ok (before ++ after))
        × (call_each_suber max (some (set rows i (some new))) desc
            ≡ ok (before ++ (new_calls ++ after)))
  placed_effect i e =
      let (is_free, in_range) = first_free-get rows i e in
      let (before, after, was, now) = calls_for-set desc rows i none (some new) is_free in
      let same : calls_for_slot desc (some new) ≡ new_calls =
        ap (calls_for_ids desc evt_suber_id args) (new_ids) in
      (
        before,
        after,
        call_each_suber_lem tail_cells max rows desc v ∙ ap ok was,
        call_each_suber_lem tail_cells max (set rows i (some new)) desc (
              set-placed (IsSuber (suc tail_cells)) max rows v i new in_range
                (new_row-IsSuber (suc tail_cells) evt_suber_id args evt_ids num_ids enough))
            ∙ ap ok (now ∙ ap (λ calls. before ++ (calls ++ after)) same),
      )

-- A successful subscription adds to the callbacks of every event exactly one call of the new
-- subscriber for each id that selects the event, all in one place, and changes no other call. The
-- array must have the ids it is said to have, and the struct of a row a cell of padding or more.
pub sub_then_dispatch :
    (tail_cells : ℕ) (calloc_ok malloc_ok : Bool) (evt_suber_id : ℕ) (evt_ids : List ℕ)
    (num_ids : ℕ) (args : EvtSubArgs) (max : ℕ) (rows : Slots Row) (t' : Table) (desc : EvtDesc)
    → num_ids ≤ length evt_ids
    → IsValidRows (IsSuber (suc tail_cells)) max rows
    → subscribe
        (suc tail_cells)
        calloc_ok
        malloc_ok
        evt_suber_id
        evt_ids
        num_ids
        args
        (table_of max rows)
      ≡ ok (success, t')
    → (before : List CbCall) × (after : List CbCall) × (dispatch (table_of max rows) desc
        ≡ ok (before ++ after))
      × (dispatch t' desc
          ≡ ok (before ++ (calls_for_ids desc evt_suber_id args (take num_ids evt_ids) ++ after)))
sub_then_dispatch tail_cells calloc_ok malloc_ok evt_suber_id evt_ids num_ids args max rows t' desc
      enough v e =
    let (i, found, same) =
      sub_success (suc tail_cells) calloc_ok malloc_ok evt_suber_id evt_ids num_ids args enough max
        rows v t' e in
    let (before, after, was, now) =
      placed_effect tail_cells calloc_ok malloc_ok evt_suber_id evt_ids num_ids args enough max rows
        v desc i found in
    (before, after, was, ap (λ t. dispatch t desc) (sym same) ∙ now)

-- Are all calls those of the operator?
abbrev pub are_calls_of : ℕ → List CbCall → Bool
are_calls_of evt_oper_id [] = true
are_calls_of evt_oper_id (call ∷ calls) =
    call.evt_suber_id == evt_oper_id && are_calls_of evt_oper_id calls

calls_for_ids-suber :
    (desc : EvtDesc) (suber : ℕ) (args : EvtSubArgs) (ids : List ℕ)
    → are_calls_of suber (calls_for_ids desc suber args ids) ≡ true
calls_for_ids-suber desc suber args [] = refl
calls_for_ids-suber desc suber args (id ∷ ids) =
    ground (arith, calls_for_ids-suber desc suber args ids)

calls_for_slot-suber :
    (desc : EvtDesc) (row : Row)
    → are_calls_of row.evt_oper_id (calls_for_slot desc (some row)) ≡ true
calls_for_slot-suber desc row = elim (Option-cases row.evt_sub_args) [
  | inl no_args ↦ ground arith
  | inr (args, has_args) ↦
      rw has_args (calls_for_ids-suber desc row.evt_oper_id args (take row.num_ids row.evt_ids))
]

-- What unsubscribing does to the callbacks of an event: nothing where no row is the operator's, and
-- otherwise it takes out the calls of the first such row.
pub data UnsubEffect (evt_oper_id : ℕ) (rows : Slots Row) (t t' : Table) (desc : EvtDesc)
    : Type 0 where
  nobody :
      (calls : List CbCall)
      → ((j : ℕ) → is_slot_of evt_oper_id (get_elem? rows j) ≡ false)
      → dispatch t desc ≡ ok calls
      → dispatch t' desc ≡ ok calls
      → UnsubEffect evt_oper_id rows t t' desc
  removed :
      (i : ℕ) (row : Row) (before after : List CbCall)
      → get_elem? rows i ≡ some (some row)
      → row.evt_oper_id ≡ evt_oper_id
      → ((j : ℕ) → j < i → is_slot_of evt_oper_id (get_elem? rows j) ≡ false)
      → dispatch t desc ≡ ok (before ++ (calls_for_slot desc (some row) ++ after))
      → dispatch t' desc ≡ ok (before ++ after)
      → are_calls_of evt_oper_id (calls_for_slot desc (some row)) ≡ true
      → UnsubEffect evt_oper_id rows t t' desc

-- Unsubscribing takes out of the callbacks of every event the calls of the first row of that
-- operator, all in one place, and changes no other call; if no row is the operator's, it changes
-- none. The struct of a row must have a cell of padding or more.
pub unsub_then_dispatch :
    (tail_cells evt_oper_id max : ℕ) (rows : Slots Row) (t' : Table) (desc : EvtDesc)
    → IsValidRows (IsSuber (suc tail_cells)) max rows
    → unsub_evts evt_oper_id (table_of max rows) ≡ ok t'
    → UnsubEffect evt_oper_id rows (table_of max rows) t' desc
unsub_then_dispatch tail_cells evt_oper_id max rows t' desc v e =
    elim (unsub_result (suc tail_cells) evt_oper_id max rows t' v e) [
      | inl (absent, same) ↦
          let was : dispatch (table_of max rows) desc ≡ ok (calls_for desc rows) =
            call_each_suber_lem tail_cells max rows desc v in
          nobody (calls_for desc rows) absent was (ap (λ t. dispatch t desc) (sym same) ∙ was)
      | inr (i, row, read, its_id, first, same) ↦
          let (before, after, was, now) = calls_for-set desc rows i (some row) none read in
          removed i row before after read its_id first
            (call_each_suber_lem tail_cells max rows desc v ∙ ap ok was)
            (ap (λ t. dispatch t desc) (sym same)
              ∙ call_each_suber_lem tail_cells max (set rows i none) desc
                  (set-cleared (IsSuber (suc tail_cells)) max rows v i (lt_of_get rows i read))
              ∙ ap ok now)
            (ap (λ id. are_calls_of id (calls_for_slot desc (some row))) (sym its_id)
              ∙ calls_for_slot-suber desc row)
    ]

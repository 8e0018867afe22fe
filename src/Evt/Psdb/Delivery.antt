-- ===== src/Evt/Psdb/Delivery.antt =====
-- Which callbacks the dispatcher calls for an event, in which order.
use freely_craft_codes.Prelude.{
  ℕ, zero, suc, ◌≡◌, refl, sym, ap, ap₂, ◌∙◌, inl, inr, Option, none, some, List, [], ◌∷◌, ◌++◌,
  append_assoc, append-nil, get_elem?, set, take, replicate, length, if◌then◌else◌, ok, fault,
  ◌>>=◌, Bool-cases, arith,
}
use freely_craft_codes.Evt.Types.{EvtDesc, EvtSubArgs}
use freely_craft_codes.Evt.Slots.{Slots}
use freely_craft_codes.Evt.Id.{selects}
use freely_craft_codes.Evt.Id.Laws.{selects_zero}
use freely_craft_codes.Evt.Psdb.Rows.{Row}
use freely_craft_codes.Evt.Psdb.Dispatch.{CbCall, call_of_id, call_ids, call_rows, call_each_suber}
use freely_craft_codes.Evt.Psdb.Invariant.{IsSuber, IsValidRows}

pub take_append : (xs ys : List ℕ) → take (length xs) (xs ++ ys) ≡ xs
take_append [] ys = refl
take_append (x ∷ xs) ys = ap (λ zs. x ∷ zs) (take_append xs ys)

behind :
    {P : Row → Type 0} {n : ℕ} {slot : Option Row} {rows : Slots Row}
    → IsValidRows P (suc n) (slot ∷ rows)
    → IsValidRows P n rows
behind v = record { sized = omega (arith, v.sized); each = λ i row e. v.each (suc i) row e }

module _ (desc : EvtDesc) where
  -- The calls for a subscriber: one for each of its ids that selects the event.
  abbrev pub calls_for_ids : ℕ → EvtSubArgs → List ℕ → List CbCall
  calls_for_ids suber args [] = []
  calls_for_ids suber args (id ∷ ids) =
      if selects id desc.evt_id
      then record { evt_suber_id = suber; sub_args = args; evt_desc = desc }
        ∷ calls_for_ids suber args ids
      else calls_for_ids suber args ids

  abbrev pub calls_for_slot : Option Row → List CbCall
  calls_for_slot none = []
  calls_for_slot (some row) = elim row.evt_sub_args [
    | none ↦ []
    | some args ↦ calls_for_ids row.evt_oper_id args (take row.num_ids row.evt_ids)
  ]

  -- The calls for a table: those of its rows, in order.
  abbrev pub calls_for : Slots Row → List CbCall
  calls_for [] = []
  calls_for (slot ∷ rows) = calls_for_slot slot ++ calls_for rows

  abbrev with_cells : Row → List ℕ → Row
  with_cells row cells = record row { evt_ids = cells }

  call_ids-cons :
      (n num id : ℕ) (row : Row) (cells : List ℕ)
      → call_ids n (suc num) (with_cells row (id ∷ cells)) desc
        ≡ call_ids n num (with_cells row cells) desc
  unfolding call_ids call_of_id
  call_ids-cons zero num id row cells = refl
  call_ids-cons (suc n) num id row cells = rw (call_ids-cons n (suc num) id row cells) refl

  call_rows-cons :
      (n idx : ℕ) (slot : Option Row) (rows : Slots Row)
      → call_rows n (suc idx) (slot ∷ rows) desc ≡ call_rows n idx rows desc
  unfolding call_rows
  call_rows-cons zero idx slot rows = refl
  call_rows-cons (suc n) idx slot rows = rw (call_rows-cons n (suc idx) slot rows) refl

  module _ (row : Row) (args : EvtSubArgs) (has_args : row.evt_sub_args ≡ some args) where
    call_of_id-cons :
        (id : ℕ) (ids : List ℕ)
        → (call_of_id row id desc >>= λ first. ok (first ++ calls_for_ids row.evt_oper_id args ids))
          ≡ ok (calls_for_ids row.evt_oper_id args (id ∷ ids))
    unfolding call_of_id
    call_of_id-cons id ids = elim (Bool-cases (selects id desc.evt_id)) [
      | inl e ↦ rw (e, has_args)
      | inr e ↦ rw e
    ]

    -- The ids and one zero cell more.
    call_ids_lem :
        (ids : List ℕ) (tail : List ℕ)
        → call_ids (suc (length ids)) 0 (with_cells row (ids ++ 0 ∷ tail)) desc
          ≡ ok (calls_for_ids row.evt_oper_id args ids)
    unfolding call_ids call_of_id
    call_ids_lem [] tail = rw (selects_zero desc.evt_id)
    call_ids_lem (id ∷ ids) tail =
        rw (call_ids-cons (suc (length ids)) 0 id row (ids ++ 0 ∷ tail), call_ids_lem ids tail)
          (call_of_id-cons id ids)

    -- A round behind the last cell.
    call_ids_beyond :
        (ids : List ℕ) → call_ids (suc (length ids)) 0 (with_cells row ids) desc ≡ fault
    unfolding call_ids call_of_id
    call_ids_beyond [] = refl
    call_ids_beyond (id ∷ ids) =
        rw (call_ids-cons (suc (length ids)) 0 id row ids, call_ids_beyond ids)
          (elim (Bool-cases (selects id desc.evt_id)) [ inl e ↦ rw (e, has_args) | inr e ↦ rw e ])

  call_ids_row :
      (tail_cells : ℕ) (row : Row)
      → IsSuber (suc tail_cells) row
      → call_ids (suc row.num_ids) 0 row desc ≡ ok (calls_for_slot (some row))
  call_ids_row tail_cells row v =
      ap₂ (λ n cells. call_ids (suc n) 0 (with_cells row cells) desc) (sym v.counted) v.cells
      ∙ call_ids_lem row v.args v.has_args v.ids (replicate tail_cells 0)
      ∙ ap ok (
          rw (v.has_args, v.cells, ← v.counted, take_append v.ids (replicate (suc tail_cells) 0))
            refl)

  call_ids_row_beyond : (row : Row) → IsSuber 0 row → call_ids (suc row.num_ids) 0 row desc ≡ fault
  call_ids_row_beyond row v =
      ap₂ (λ n cells. call_ids (suc n) 0 (with_cells row cells) desc) (sym v.counted)
        (v.cells ∙ append-nil v.ids)
      ∙ call_ids_beyond row v.args v.has_args v.ids

  call_rows_lem :
      (tail_cells n : ℕ) (rows : Slots Row)
      → IsValidRows (IsSuber (suc tail_cells)) n rows
      → call_rows n 0 rows desc ≡ ok (calls_for rows)
  unfolding call_rows
  call_rows_lem tail_cells n [] v = rw (← v.sized) refl
  call_rows_lem tail_cells zero (slot ∷ rows) v = absurd (omega (arith, v.sized))
  call_rows_lem tail_cells (suc n) (none ∷ rows) v =
      rw (call_rows-cons n 0 none rows, call_rows_lem tail_cells n rows (behind v)) refl
  call_rows_lem tail_cells (suc n) (some row ∷ rows) v =
      rw
        (
          call_ids_row tail_cells row (v.each 0 row refl),
          call_rows-cons n 0 (some row) rows,
          call_rows_lem tail_cells n rows (behind v),
        )
        refl

  call_rows_beyond :
      (n i : ℕ) (rows : Slots Row) (row : Row)
      → IsValidRows (IsSuber 0) n rows
      → get_elem? rows i ≡ some (some row)
      → call_rows n 0 rows desc ≡ fault
  unfolding call_rows
  call_rows_beyond n i [] row v e = cc
  call_rows_beyond zero i (slot ∷ rows) row v e = absurd (omega (arith, v.sized))
  call_rows_beyond (suc n) zero (none ∷ rows) row v e = cc
  call_rows_beyond (suc n) (suc i) (none ∷ rows) row v e =
      rw (call_rows-cons n 0 none rows, call_rows_beyond n i rows row (behind v) e) refl
  call_rows_beyond (suc n) i (some first ∷ rows) row v e =
      rw (call_ids_row_beyond first (v.each 0 first refl)) refl

-- Where the struct of a row ends with a cell of padding or more, dispatching an event on a valid
-- table has no undefined behaviour. It calls each subscriber once for each of its ids that selects
-- the event, in the order of the rows and of the ids in a row, and calls no other; the round of the
-- inner loop that is one too many finds a zero, which selects nothing.
pub call_each_suber_lem :
    (tail_cells max : ℕ) (rows : Slots Row) (desc : EvtDesc)
    → IsValidRows (IsSuber (suc tail_cells)) max rows
    → call_each_suber max (some rows) desc ≡ ok (calls_for desc rows)
unfolding call_each_suber
call_each_suber_lem tail_cells max rows desc v = call_rows_lem desc tail_cells max rows v

-- Where the struct of a row ends with its ids, dispatching any event while there is a subscriber
-- reads past the end of the row.
pub call_each_suber_overrun :
    (max i : ℕ) (rows : Slots Row) (row : Row) (desc : EvtDesc)
    → IsValidRows (IsSuber 0) max rows
    → get_elem? rows i ≡ some (some row)
    → call_each_suber max (some rows) desc ≡ fault
unfolding call_each_suber
call_each_suber_overrun max i rows row desc v e = call_rows_beyond desc max i rows row v e

-- What a change of one slot does to the calls.
pub calls_for-set :
    (desc : EvtDesc) (rows : Slots Row) (i : ℕ) (old new : Option Row)
    → get_elem? rows i ≡ some old
    → (before : List CbCall) × (after : List CbCall) × (calls_for desc rows
        ≡ before ++ (calls_for_slot desc old ++ after))
      × (calls_for desc (set rows i new) ≡ before ++ (calls_for_slot desc new ++ after))
calls_for-set desc [] i old new e = cc
calls_for-set desc (slot ∷ rows) zero old new e = ([], calls_for desc rows, ground arith, refl)
calls_for-set desc (slot ∷ rows) (suc i) old new e =
    let (before, after, was, now) = calls_for-set desc rows i old new e in
    (
      calls_for_slot desc slot ++ before,
      after,
      ap (λ calls. calls_for_slot desc slot ++ calls) was
          ∙ sym (append_assoc (calls_for_slot desc slot) before (calls_for_slot desc old ++ after)),
      ap (λ calls. calls_for_slot desc slot ++ calls) now
          ∙ sym (append_assoc (calls_for_slot desc slot) before (calls_for_slot desc new ++ after)),
    )

-- ===== src/Evt/Psdb/Free.antt =====
-- What unsubscribing and unpublishing promise.
use freely_craft_codes.Prelude.{
  ℕ, ◌≡◌, refl, ap, ◌∙◌, ◌≤◌, ◌<◌, sym, dec_lt, ◌⊎◌, inl, inr, Bool, true, false, ◌&&◌, Option,
  none, some, get_elem?, set, ◌==◌, if◌then◌else◌, Run, ok, lt_of_get, Option-cases, arith,
}
use freely_craft_codes.Evt.Slots.{Slots}
use freely_craft_codes.Evt.Slots.Laws.{
  first_used, find_used_whole, first_used-get, first_used-none, first_used-before,
}
use freely_craft_codes.Evt.Psdb.Rows.{Row, Role, is_role, evt_puber, evt_suber}
use freely_craft_codes.Evt.Psdb.{Table, free_row_of, unpub_evts, unsub_evts}
use freely_craft_codes.Evt.Psdb.Invariant.{
  IsPuber, IsSuber, IsValidRows, IsValidRows?, IsValid, table_of, slot_in, get_elem?-set,
  set-cleared,
}

-- Does a slot hold a row of the operator?
abbrev pub is_slot_of : ℕ → Option (Option Row) → Bool
is_slot_of evt_oper_id (some (some row)) = row.evt_oper_id == evt_oper_id
is_slot_of evt_oper_id (some none) = false
is_slot_of evt_oper_id none = false

-- How freeing a row of an operator ends, seen at any slot `j`.
pub data FreeOutcome (P : Row → Type 0) (evt_oper_id : ℕ) (t : Table) (freeing : Run Table) (j : ℕ)
    : Type 0 where
  none_found :
      freeing ≡ ok t
      → is_slot_of evt_oper_id (slot_in t.rows j) ≡ false
      → FreeOutcome P evt_oper_id t freeing j
  freed :
      (i : ℕ) (t' : Table)
      → freeing ≡ ok t'
      → is_slot_of evt_oper_id (slot_in t.rows i) ≡ true
      → (i ≤ j) ⊎ (is_slot_of evt_oper_id (slot_in t.rows j) ≡ false)
      → slot_in t'.rows j ≡ (if i == j then some none else slot_in t.rows j)
      → t'.may_evt_num_max ≡ t.may_evt_num_max
      → IsValid P t'
      → FreeOutcome P evt_oper_id t freeing j

module _ (P : Row → Type 0) (role : Role)
    (of_role : (row : Row) → P row → is_role role row.role_type ≡ true) (evt_oper_id : ℕ) where
  abbrev is_of : Row → Bool
  is_of r = is_role role r.role_type && r.evt_oper_id == evt_oper_id

  is_of-same : (row : Row) → P row → is_of row ≡ (row.evt_oper_id == evt_oper_id)
  is_of-same row p = rw (of_role row p)

  module _ (max : ℕ) (rows : Slots Row) (v : IsValidRows P max rows) where
    pub free_loop :
        free_row_of role evt_oper_id (table_of max rows)
        ≡ ok (elim (first_used is_of rows) [
          | none ↦ table_of max rows
          | some i ↦ table_of max (set rows i none)
        ])
    unfolding free_row_of
    free_loop = rw (find_used_whole is_of max rows v.sized)

    absent :
        (j : ℕ) (slot : Option (Option Row))
        → ((row : Row) → slot ≡ some (some row) → is_of row ≡ false)
        → get_elem? rows j ≡ slot
        → is_slot_of evt_oper_id slot ≡ false
    absent j none h read = refl
    absent j (some none) h read = refl
    absent j (some (some row)) h read = sym (is_of-same row (v.each j row read)) ∙ h row refl

    free_result :
        (t' : Table)
        → free_row_of role evt_oper_id (table_of max rows) ≡ ok t'
        → (((j : ℕ) → is_slot_of evt_oper_id (get_elem? rows j) ≡ false) × (table_of max rows ≡ t'))
          ⊎ ((i : ℕ) × (row : Row) × (get_elem? rows i ≡ some (some row))
              × (row.evt_oper_id ≡ evt_oper_id)
              × ((j : ℕ) → j < i → is_slot_of evt_oper_id (get_elem? rows j) ≡ false)
              × (table_of max (set rows i none) ≡ t'))
    free_result t' e = elim (Option-cases (first_used is_of rows)) [
      | inl nobody ↦ inl (
        λ j.
            absent j (get_elem? rows j) (λ row read. first_used-none is_of rows j row nobody read)
              refl,
        ground (arith, free_loop),
      )
      | inr (i, found) ↦
          let (row, read, hit) = first_used-get is_of rows i found in
          inr (
            i,
            row,
            read,
            ground (arith, is_of-same row (v.each i row read)),
            λ j before.
                absent j (get_elem? rows j)
                  (λ earlier at_j. first_used-before is_of rows i j earlier found before at_j) refl,
            ground (arith, free_loop),
          )
    ]

    free_outcome :
        (j : ℕ)
        → FreeOutcome P evt_oper_id
            (table_of max rows)
            (free_row_of role evt_oper_id (table_of max rows))
            j
    free_outcome j = elim (Option-cases (first_used is_of rows)) [
      | inl e ↦
          none_found (free_loop ∙ rw e)
            (absent j (get_elem? rows j) (λ row read. first_used-none is_of rows j row e read) refl)
      | inr (i, e) ↦
          let (row, read, hit) = first_used-get is_of rows i e in
          freed i (table_of max (set rows i none)) (free_loop ∙ rw e)
            (ap (is_slot_of evt_oper_id) read ∙ sym (is_of-same row (v.each i row read)) ∙ hit)
            (elim (dec_lt j i) [
              | yes before ↦ inr (
                  absent j (get_elem? rows j)
                    (λ earlier at_j. first_used-before is_of rows i j earlier e before at_j) refl)
              | no not_before ↦ inl (omega arith)
            ])
            (get_elem?-set rows i j none (lt_of_get rows i read)) refl
            (set-cleared P max rows v i (lt_of_get rows i read))
    ]

  free_row_of_lem :
      (t : Table) (j : ℕ)
      → IsValid P t
      → FreeOutcome P evt_oper_id t (free_row_of role evt_oper_id t) j
  unfolding free_row_of
  free_row_of_lem t j v = by_table t.may_evt_num_max t.rows v
    where
      by_table :
          (max : ℕ) (table : Option (Slots Row))
          → IsValidRows? P max table
          → FreeOutcome P evt_oper_id
              (record { may_evt_num_max = max; rows = table })
              (free_row_of role evt_oper_id (record { may_evt_num_max = max; rows = table }))
              j
      by_table max none v = none_found refl refl
      by_table max (some rows) v = free_outcome max rows v j

of_suber :
    {tail_cells : ℕ} (row : Row) → IsSuber tail_cells row → is_role evt_suber row.role_type ≡ true
of_suber row p = ap (is_role evt_suber) p.role

pub unsub_result :
    (tail_cells evt_oper_id max : ℕ) (rows : Slots Row) (t' : Table)
    → IsValidRows (IsSuber tail_cells) max rows
    → unsub_evts evt_oper_id (table_of max rows) ≡ ok t'
    → (((j : ℕ) → is_slot_of evt_oper_id (get_elem? rows j) ≡ false) × (table_of max rows ≡ t'))
      ⊎ ((i : ℕ) × (row : Row) × (get_elem? rows i ≡ some (some row))
          × (row.evt_oper_id ≡ evt_oper_id)
          × ((j : ℕ) → j < i → is_slot_of evt_oper_id (get_elem? rows j) ≡ false)
          × (table_of max (set rows i none) ≡ t'))
unfolding unsub_evts
unsub_result tail_cells evt_oper_id max rows t' v e =
    free_result (IsSuber tail_cells) evt_suber of_suber evt_oper_id max rows v t' e

-- Unsubscribing never has undefined behaviour. It frees the first row of the operator and no other,
-- and the table stays valid; if no row is the operator's, nothing changes.
pub unsub_evts_lem :
    (tail_cells evt_oper_id : ℕ) (t : Table) (j : ℕ)
    → IsValid (IsSuber tail_cells) t
    → FreeOutcome (IsSuber tail_cells) evt_oper_id t (unsub_evts evt_oper_id t) j
unfolding unsub_evts
unsub_evts_lem tail_cells = free_row_of_lem (IsSuber tail_cells) evt_suber of_suber

-- Unpublishing does the same in the table of the publishers.
pub unpub_evts_lem :
    (tail_cells evt_oper_id : ℕ) (t : Table) (j : ℕ)
    → IsValid (IsPuber tail_cells) t
    → FreeOutcome (IsPuber tail_cells) evt_oper_id t (unpub_evts evt_oper_id t) j
unfolding unpub_evts
unpub_evts_lem tail_cells =
    free_row_of_lem (IsPuber tail_cells) evt_puber (λ row p. ap (is_role evt_puber) p.role)

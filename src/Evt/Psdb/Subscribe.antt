-- ===== src/Evt/Psdb/Subscribe.antt =====
-- What subscribing promises.
use freely_craft_codes.Prelude.{
  ℕ, ◌≤◌, ◌≡◌, refl, ◌∙◌, ◌≢◌, inl, inr, Bool, true, false, ◌&&◌, Option, none, some, List, set,
  ◌==◌, if◌then◌else◌, Run, ok, length, Bool-cases, Option-cases, arith,
}
use freely_craft_codes.ThinkOs.{TosResult, success, bug, not_enough_memory, too_many_pubed_events}
use freely_craft_codes.Evt.Types.{EvtSubArgs}
use freely_craft_codes.Evt.Slots.{Slots}
use freely_craft_codes.Evt.Slots.Laws.{first_free, find_free_whole, first_free-get, first_free-none}
use freely_craft_codes.Evt.Psdb.Rows.{Row, evt_suber, fill_ids_lem}
use freely_craft_codes.Evt.Psdb.{Table, do_sub_evts}
use freely_craft_codes.Evt.Psdb.Invariant.{
  IsSuber, IsValidRows, IsValidRows?, IsValid, table_of, slot_in, new_row, new_row-IsSuber,
  get_elem?-set, set-placed,
}

module _ (tail_cells : ℕ) (calloc_ok malloc_ok : Bool) (evt_suber_id : ℕ) (evt_ids : List ℕ)
    (num_ids : ℕ) (args : EvtSubArgs) where
  abbrev pub sub_row : Row
  sub_row = new_row tail_cells evt_suber evt_suber_id (some args) evt_ids num_ids

  abbrev pub subscribe : Table → Run (TosResult × Table)
  subscribe = do_sub_evts tail_cells calloc_ok malloc_ok evt_suber_id evt_ids num_ids args

  -- How a subscription ends.
  pub data SubOutcome (t : Table) : Type 0 where
    no_table : t.rows ≡ none → subscribe t ≡ ok (bug, t) → SubOutcome t
    full :
        ((j : ℕ) → slot_in t.rows j ≢ some none)
        → subscribe t ≡ ok (too_many_pubed_events, t)
        → SubOutcome t
    no_memory :
        (calloc_ok && malloc_ok) ≡ false → subscribe t ≡ ok (not_enough_memory, t) → SubOutcome t
    done :
        (i : ℕ) (t' : Table)
        → (calloc_ok && malloc_ok) ≡ true
        → subscribe t ≡ ok (success, t')
        → slot_in t.rows i ≡ some none
        → ((j : ℕ) → slot_in t'.rows j ≡ (if i == j then some (some sub_row) else slot_in t.rows j))
        → t'.may_evt_num_max ≡ t.may_evt_num_max
        → IsValid (IsSuber tail_cells) t'
        → SubOutcome t

  module _ (enough : num_ids ≤ length evt_ids) (max : ℕ) (rows : Slots Row)
      (v : IsValidRows (IsSuber tail_cells) max rows) where
    pub sub_loop :
        subscribe (table_of max rows)
        ≡ ok (elim (first_free rows) [
          | none ↦ (too_many_pubed_events, table_of max rows)
          | some i ↦
              if calloc_ok && malloc_ok
              then (success, table_of max (set rows i (some sub_row)))
              else (not_enough_memory, table_of max rows)
        ])
    unfolding do_sub_evts
    sub_loop = elim (Option-cases (first_free rows)) [
      | inl e ↦ rw (find_free_whole max rows v.sized, e)
      | inr (i, e) ↦
          let filled = fill_ids_lem tail_cells num_ids evt_ids enough in
          ground (arith, find_free_whole max rows v.sized)
    ]

    pub sub_success :
        (t' : Table)
        → subscribe (table_of max rows) ≡ ok (success, t')
        → (i : ℕ) × (first_free rows ≡ some i) × (table_of max (set rows i (some sub_row)) ≡ t')
    sub_success t' e = elim (Option-cases (first_free rows)) [
      | inl taken ↦ absurd (ground (arith, sub_loop))
      | inr (i, found) ↦ (i, found, ground (arith, sub_loop))
    ]

    sub_outcome : SubOutcome (table_of max rows)
    sub_outcome = elim (Option-cases (first_free rows)) [
      | inl e ↦ full (λ j. first_free-none rows j e) (sub_loop ∙ rw e)
      | inr (i, e) ↦
          let (is_free, in_range) = first_free-get rows i e in
          elim (Bool-cases (calloc_ok && malloc_ok)) [
            | inl c ↦
                done i (table_of max (set rows i (some sub_row))) c (sub_loop ∙ rw (e, c)) is_free
                  (λ j. get_elem?-set rows i j (some sub_row) in_range) refl
                  (set-placed (IsSuber tail_cells) max rows v i sub_row in_range
                    (new_row-IsSuber tail_cells evt_suber_id args evt_ids num_ids enough))
            | inr c ↦ no_memory c (sub_loop ∙ rw (e, c))
          ]
    ]

-- Subscribing with an array that has the ids it is said to have never has undefined behaviour, and
-- ends in one of four ways. On success one free slot holds the new row, with the ids and the
-- arguments given, every other slot is unchanged, and the table stays valid; otherwise nothing
-- changes, and the result names the cause: no table, no free slot, or no memory.
pub do_sub_evts_lem :
    (tail_cells : ℕ) (calloc_ok malloc_ok : Bool) (evt_suber_id : ℕ) (evt_ids : List ℕ)
    (num_ids : ℕ) (args : EvtSubArgs) (t : Table)
    → num_ids ≤ length evt_ids
    → IsValid (IsSuber tail_cells) t
    → SubOutcome tail_cells calloc_ok malloc_ok evt_suber_id evt_ids num_ids args t
unfolding do_sub_evts
do_sub_evts_lem tail_cells calloc_ok malloc_ok evt_suber_id evt_ids num_ids args t enough v =
    by_table t.may_evt_num_max t.rows v
  where
    by_table :
        (max : ℕ) (table : Option (Slots Row))
        → IsValidRows? (IsSuber tail_cells) max table
        → SubOutcome tail_cells calloc_ok malloc_ok evt_suber_id evt_ids num_ids args
            (record { may_evt_num_max = max; rows = table })
    by_table max none v = no_table refl refl
    by_table max (some rows) v =
        sub_outcome tail_cells calloc_ok malloc_ok evt_suber_id evt_ids num_ids args enough max rows
          v

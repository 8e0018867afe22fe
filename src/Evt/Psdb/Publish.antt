-- ===== src/Evt/Psdb/Publish.antt =====
-- What publishing promises, and that it reads past the end of a overrun table.
use freely_craft_codes.Prelude.{
  ℕ, ◌≤◌, ◌≡◌, refl, sym, fault-ne-ok, ◌∙◌, ◌≢◌, inl, inr, Bool, true, false, Option, none, some,
  List, set, ◌==◌, if◌then◌else◌, Run, ok, fault, length, Bool-cases, Option-cases, arith,
}
use freely_craft_codes.ThinkOs.{TosResult, success, bug, not_enough_memory}
use freely_craft_codes.Evt.Slots.{Slots}
use freely_craft_codes.Evt.Slots.Laws.{
  first_free, find_free_beyond, first_free-get, first_free-none,
}
use freely_craft_codes.Evt.Psdb.Rows.{Row, evt_puber, fill_ids_lem}
use freely_craft_codes.Evt.Psdb.{Table, do_pub_evts}
use freely_craft_codes.Evt.Psdb.Invariant.{
  IsPuber, IsValidRows, IsValidRows?, IsValid, table_of, slot_in, new_row, new_row-IsPuber,
  get_elem?-set, set-placed,
}

module _ (tail_cells : ℕ) (calloc_ok : Bool) (evt_puber_id : ℕ) (evt_ids : List ℕ)
    (num_ids : ℕ) where
  abbrev pub pub_row : Row
  pub_row = new_row tail_cells evt_puber evt_puber_id none evt_ids num_ids

  abbrev pub publish : Table → Run (TosResult × Table)
  publish = do_pub_evts tail_cells calloc_ok evt_puber_id evt_ids num_ids

  -- How a subscription ends.
  pub data PubOutcome (t : Table) : Type 0 where
    no_table : t.rows ≡ none → publish t ≡ ok (bug, t) → PubOutcome t
    overrun : ((j : ℕ) → slot_in t.rows j ≢ some none) → publish t ≡ fault → PubOutcome t
    no_memory : calloc_ok ≡ false → publish t ≡ ok (not_enough_memory, t) → PubOutcome t
    done :
        (i : ℕ) (t' : Table)
        → calloc_ok ≡ true
        → publish t ≡ ok (success, t')
        → slot_in t.rows i ≡ some none
        → ((j : ℕ) → slot_in t'.rows j ≡ (if i == j then some (some pub_row) else slot_in t.rows j))
        → t'.may_evt_num_max ≡ t.may_evt_num_max
        → IsValid (IsPuber tail_cells) t'
        → PubOutcome t

  module _ (enough : num_ids ≤ length evt_ids) (max : ℕ) (rows : Slots Row)
      (v : IsValidRows (IsPuber tail_cells) max rows) where
    pub_loop : publish (table_of max rows) ≡ elim (first_free rows) [
      | none ↦ fault
      | some i ↦ ok (
          if calloc_ok
          then (success, table_of max (set rows i (some pub_row)))
          else (not_enough_memory, table_of max rows))
    ]
    unfolding do_pub_evts
    pub_loop = elim (Option-cases (first_free rows)) [
      | inl e ↦ rw (find_free_beyond max rows v.sized, e)
      | inr (i, e) ↦
          let filled = fill_ids_lem tail_cells num_ids evt_ids enough in
          ground (arith, find_free_beyond max rows v.sized)
    ]

    pub_outcome : PubOutcome (table_of max rows)
    pub_outcome = elim (Option-cases (first_free rows)) [
      | inl e ↦ overrun (λ j. first_free-none rows j e) (pub_loop ∙ rw e)
      | inr (i, e) ↦
          let (is_free, in_range) = first_free-get rows i e in
          elim (Bool-cases calloc_ok) [
            | inl c ↦
                done i (table_of max (set rows i (some pub_row))) c (pub_loop ∙ rw (e, c)) is_free
                  (λ j. get_elem?-set rows i j (some pub_row) in_range) refl
                  (set-placed (IsPuber tail_cells) max rows v i pub_row in_range
                    (new_row-IsPuber tail_cells evt_puber_id evt_ids num_ids enough))
            | inr c ↦ no_memory c (pub_loop ∙ rw (e, c))
          ]
    ]

pub do_pub_evts_lem :
    (tail_cells : ℕ) (calloc_ok : Bool) (evt_puber_id : ℕ) (evt_ids : List ℕ) (num_ids : ℕ)
    (t : Table)
    → num_ids ≤ length evt_ids
    → IsValid (IsPuber tail_cells) t
    → PubOutcome tail_cells calloc_ok evt_puber_id evt_ids num_ids t
unfolding do_pub_evts
do_pub_evts_lem tail_cells calloc_ok evt_puber_id evt_ids num_ids t enough v =
    by_table t.may_evt_num_max t.rows v
  where
    by_table :
        (max : ℕ) (table : Option (Slots Row))
        → IsValidRows? (IsPuber tail_cells) max table
        → PubOutcome tail_cells calloc_ok evt_puber_id evt_ids num_ids
            (record { may_evt_num_max = max; rows = table })
    by_table max none v = no_table refl refl
    by_table max (some rows) v =
        pub_outcome tail_cells calloc_ok evt_puber_id evt_ids num_ids enough max rows v

-- Only a table without a free slot is overrun.
pub full_of_fault :
    (tail_cells : ℕ) (calloc_ok : Bool) (evt_puber_id : ℕ) (evt_ids : List ℕ) (num_ids : ℕ)
    (t : Table) (j : ℕ)
    → num_ids ≤ length evt_ids
    → IsValid (IsPuber tail_cells) t
    → do_pub_evts tail_cells calloc_ok evt_puber_id evt_ids num_ids t ≡ fault
    → slot_in t.rows j ≢ some none
full_of_fault tail_cells calloc_ok evt_puber_id evt_ids num_ids t j h v e =
    elim (do_pub_evts_lem tail_cells calloc_ok evt_puber_id evt_ids num_ids t h v) [
      | no_table a f ↦ absurd (fault-ne-ok (sym e ∙ f))
      | no_memory a f ↦ absurd (fault-ne-ok (sym e ∙ f))
      | overrun a f ↦ a j
      | done i t' c f was now max v' ↦ absurd (fault-ne-ok (sym e ∙ f))
    ]

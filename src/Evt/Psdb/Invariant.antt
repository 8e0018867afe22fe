-- ===== src/Evt/Psdb/Invariant.antt =====
-- When the rows of a table are well formed: the table has its declared size, each row the role of
-- its table, and behind its ids the zeroed cells of the struct's tail.
use freely_craft_codes.Prelude.{
  ℕ, zero, suc, ◌≤◌, ◌<◌, ◌≡◌, refl, sym, ap, subst, [], ◌∷◌, ◌∙◌, Option, none, some, List, ◌++◌,
  get_elem?, set, take, replicate, length-replicate, length, ◌==◌, if◌then◌else◌, length-set,
  get_elem?-set_self, get_elem?-set_ne, ℕ_discrete, arith,
}
use freely_craft_codes.Evt.Types.{EvtSubArgs}
use freely_craft_codes.Evt.Slots.{Slots}
use freely_craft_codes.Evt.Slots.Laws.{no_entries}
use freely_craft_codes.Evt.Psdb.Rows.{Row, Role, evt_puber, evt_suber}
use freely_craft_codes.Evt.Psdb.{Table}

-- A row with ids copied in full.
abbrev pub new_row : ℕ → Role → ℕ → Option EvtSubArgs → List ℕ → ℕ → Row
new_row tail_cells role evt_oper_id args source num_ids = record {
  role_type = role;
  evt_oper_id = evt_oper_id;
  evt_sub_args = args;
  num_ids = num_ids;
  evt_ids = take num_ids source ++ replicate tail_cells 0;
}

pub record IsPuber (tail_cells : ℕ) (row : Row) : Type 0 where
  pub ids : List ℕ
  pub role : row.role_type ≡ evt_puber
  pub cells : row.evt_ids ≡ ids ++ replicate tail_cells 0
  pub counted : length ids ≡ row.num_ids

pub record IsSuber (tail_cells : ℕ) (row : Row) : Type 0 where
  pub ids : List ℕ
  pub args : EvtSubArgs
  pub role : row.role_type ≡ evt_suber
  pub cells : row.evt_ids ≡ ids ++ replicate tail_cells 0
  pub counted : length ids ≡ row.num_ids
  pub has_args : row.evt_sub_args ≡ some args

-- `P` is what holds of each row.
pub record IsValidRows (P : Row → Type 0) (max : ℕ) (rows : Slots Row) : Type 0 where
  pub sized : length rows ≡ max
  pub each : (i : ℕ) (row : Row) → get_elem? rows i ≡ some (some row) → P row

abbrev pub IsValidRows? : (Row → Type 0) → ℕ → Option (Slots Row) → Type 0
IsValidRows? P max none = Unit {0}
IsValidRows? P max (some rows) = IsValidRows P max rows

abbrev pub IsValid : (Row → Type 0) → Table → Type 0
IsValid P t = IsValidRows? P t.may_evt_num_max t.rows

abbrev pub table_of : ℕ → Slots Row → Table
table_of max rows = record { may_evt_num_max = max; rows = some rows }

-- The slot at an index, `none` past the end or without a table.
abbrev pub slot_in : Option (Slots Row) → ℕ → Option (Option Row)
slot_in none i = none
slot_in (some rows) i = get_elem? rows i

pub length-take : (n : ℕ) (source : List ℕ) → n ≤ length source → length (take n source) ≡ n
length-take zero source h = refl
length-take (suc n) [] h = absurd (omega arith)
length-take (suc n) (x ∷ source) h = ap suc (length-take n source (omega arith))

pub new_row-IsPuber :
    (tail_cells evt_oper_id : ℕ) (source : List ℕ) (num_ids : ℕ)
    → num_ids ≤ length source
    → IsPuber tail_cells (new_row tail_cells evt_puber evt_oper_id none source num_ids)
new_row-IsPuber tail_cells evt_oper_id source num_ids h = record {
  ids = take num_ids source;
  role = refl;
  cells = refl;
  counted = length-take num_ids source h;
}

pub new_row-IsSuber :
    (tail_cells evt_oper_id : ℕ) (args : EvtSubArgs) (source : List ℕ) (num_ids : ℕ)
    → num_ids ≤ length source
    → IsSuber tail_cells (new_row tail_cells evt_suber evt_oper_id (some args) source num_ids)
new_row-IsSuber tail_cells evt_oper_id args source num_ids h = record {
  ids = take num_ids source;
  args = args;
  role = refl;
  cells = refl;
  counted = length-take num_ids source h;
  has_args = refl;
}

pub get_elem?-set :
    (rows : Slots Row) (i j : ℕ) (slot : Option Row)
    → i < length rows
    → get_elem? (set rows i slot) j ≡ (if i == j then some slot else get_elem? rows j)
get_elem?-set rows i j slot h = elim (ℕ_discrete i j) [
  | yes p ↦ ground (arith, get_elem?-set_self rows i slot h)
  | no p ↦ ground (arith, get_elem?-set_ne rows i j slot p)
]

module _ (P : Row → Type 0) (max : ℕ) (rows : Slots Row) (v : IsValidRows P max rows) where
  pub set-placed :
      (i : ℕ) (row : Row) → i < length rows → P row → IsValidRows P max (set rows i (some row))
  set-placed i row h p = record {
    sized = length-set rows i _ ∙ v.sized;
    each = λ j row' e. elim (ℕ_discrete i j) [
      | yes same ↦ subst P (ground (arith, get_elem?-set_self rows i (some row) h)) p
      | no other ↦ v.each j row' (sym (get_elem?-set_ne rows i j (some row) other) ∙ e)
    ];
  }

  pub set-cleared : (i : ℕ) → i < length rows → IsValidRows P max (set rows i none)
  set-cleared i h = record {
    sized = length-set rows i _ ∙ v.sized;
    each = λ j row' e. elim (ℕ_discrete i j) [
      | yes same ↦ absurd (ground (arith, get_elem?-set_self rows i none h))
      | no other ↦ v.each j row' (sym (get_elem?-set_ne rows i j none other) ∙ e)
    ];
  }

pub fresh_rows : (P : Row → Type 0) (max : ℕ) → IsValidRows P max (replicate max none)
fresh_rows P max = record {
  sized = length-replicate max none;
  each = λ i row e. absurd (no_entries max i row e);
}

-- ===== src/Evt/Oper/Invariant.antt =====
-- When a registry of operators is well formed, and what it says of each id.
use freely_craft_codes.Prelude.{
  ℕ, ◌<◌, ◌≡◌, ◌∙◌, Option, none, some, get_elem?, set, length, replicate, length-replicate, ◌==◌,
  if◌then◌else◌, arith, length-set, get_elem?-set_self, get_elem?-set_ne, ℕ_discrete,
}
use freely_craft_codes.Evt.Types.{EvtOperArgs}
use freely_craft_codes.Evt.Slots.{Slots}
use freely_craft_codes.Evt.Slots.Laws.{no_entries}
use freely_craft_codes.Evt.Oper.{OperObj, Opers}

-- The table has the declared size, and each object stands at its own id.
pub record IsValidTable (max : ℕ) (objs : Slots OperObj) : Type 0 where
  pub sized : length objs ≡ max
  pub placed : (i : ℕ) (obj : OperObj) → get_elem? objs i ≡ some (some obj) → obj.evt_oper_id ≡ i

abbrev pub IsValidTable? : ℕ → Option (Slots OperObj) → Type 0
IsValidTable? max none = Unit {0}
IsValidTable? max (some objs) = IsValidTable max objs

abbrev pub IsValid : Opers → Type 0
IsValid o = IsValidTable? o.may_reg_oper_num_max o.reged_oper_objs

-- The abstract view of a registry: which ids are registered, with what arguments.
abbrev pub args_in : Option (Option OperObj) → Option EvtOperArgs
args_in none = none
args_in (some none) = none
args_in (some (some obj)) = some obj.evt_oper_args

abbrev pub reged_in : Option (Slots OperObj) → ℕ → Option EvtOperArgs
reged_in none id = none
reged_in (some objs) id = args_in (get_elem? objs id)

abbrev pub reged : Opers → ℕ → Option EvtOperArgs
reged o id = reged_in o.reged_oper_objs id

abbrev pub new_obj : ℕ → EvtOperArgs → OperObj
new_obj id args = record { evt_oper_id = id; evt_oper_args = args }

module _ (max : ℕ) (objs : Slots OperObj) (v : IsValidTable max objs) where
  pub set-placed :
      (i : ℕ) (args : EvtOperArgs)
      → i < length objs
      → IsValidTable max (set objs i (some (new_obj i args)))
  set-placed i args h = record {
    sized = length-set objs i _ ∙ v.sized;
    placed = λ j obj e. elim (ℕ_discrete i j) [
      | yes p ↦ ground (arith, get_elem?-set_self objs i (some (new_obj i args)) h)
      | no p ↦ ground (arith, get_elem?-set_ne objs i j (some (new_obj i args)) p, v.placed j obj)
    ];
  }

  pub set-cleared : (i : ℕ) → i < length objs → IsValidTable max (set objs i none)
  set-cleared i h = record {
    sized = length-set objs i _ ∙ v.sized;
    placed = λ j obj e. elim (ℕ_discrete i j) [
      | yes p ↦ ground (arith, get_elem?-set_self objs i none h)
      | no p ↦ ground (arith, get_elem?-set_ne objs i j none p, v.placed j obj)
    ];
  }

pub args_in-set :
    (objs : Slots OperObj) (i j : ℕ) (slot : Option OperObj)
    → i < length objs
    → args_in (get_elem? (set objs i slot) j)
      ≡ (if i == j then args_in (some slot) else args_in (get_elem? objs j))
args_in-set objs i j slot h = elim (ℕ_discrete i j) [
  | yes p ↦ ground (arith, get_elem?-set_self objs i slot h)
  | no p ↦ ground (arith, get_elem?-set_ne objs i j slot p)
]

abbrev pub table_of : ℕ → Slots OperObj → Opers
table_of max objs = record { may_reg_oper_num_max = max; reged_oper_objs = some objs }

pub fresh_opers : (max : ℕ) → IsValidTable max (replicate max none)
fresh_opers max = record {
  sized = length-replicate max none;
  placed = λ i obj e. absurd (no_entries max i obj e);
}

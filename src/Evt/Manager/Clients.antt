-- ===== src/Evt/Manager/Clients.antt =====
-- The functions that clients call, on a valid manager.
use freely_craft_codes.Prelude.{
  ℕ, ◌≡◌, refl, sym, ap, subst, ◌∙◌, ◌⊎◌, inl, inr, ◌≢◌, Option, none, some, ◌∷◌, get_elem?,
  get_elem?_of_le, dec_lt, Run, ok, Option-cases, arith, [],
}
use freely_craft_codes.ThinkOs.{already, success, bug}
use freely_craft_codes.Evt.Slots.{Slots}
use freely_craft_codes.Evt.Oper.{OperObj, Opers, is_reged_oper_id}
use freely_craft_codes.Evt.Oper.Invariant.{reged, args_in, IsValidTable?}
use freely_craft_codes.Evt.Oper.Invariant as OperTable
use freely_craft_codes.Evt.Oper.Unregister.{is_reged_oper_id_lem}
use freely_craft_codes.Evt.Manager.{running, Manager}
use freely_craft_codes.Evt.Manager.Interface.{if_reged}
use freely_craft_codes.Evt.Manager.Invariant.{IsValid, HasQueue}
use freely_craft_codes.Evt.Queue.{EvtQueue}
use freely_craft_codes.Evt.Queue.Invariant as Ring
use freely_craft_codes.Evt.Psdb.{Table}
use freely_craft_codes.Evt.Psdb.Invariant.{IsPuber, IsSuber}
use freely_craft_codes.Evt.Psdb.Invariant as Rows

-- What the test of an id answers, and what that says of the registry.
pub data RegedCase (o : Opers) (id : ℕ) : Type 0 where
  is_in : is_reged_oper_id o id ≡ ok already → reged o id ≢ none → RegedCase o id
  is_free : is_reged_oper_id o id ≡ ok success → reged o id ≡ none → RegedCase o id
  is_beyond : is_reged_oper_id o id ≡ ok bug → reged o id ≡ none → RegedCase o id

pub reged_case : (o : Opers) (id : ℕ) → OperTable.IsValid o → RegedCase o id
reged_case o id v = by_table o.may_reg_oper_num_max o.reged_oper_objs v
  where
    by_table :
        (max : ℕ) (table : Option (Slots OperObj))
        → IsValidTable? max table
        → RegedCase (record { may_reg_oper_num_max = max; reged_oper_objs = table }) id
    by_table max none v = is_beyond (is_reged_oper_id_lem _ id v) refl
    by_table max (some objs) v = elim (dec_lt id max) [
      | yes p ↦ elim (Option-cases (args_in (get_elem? objs id))) [
        | inl e ↦ is_free (is_reged_oper_id_lem (OperTable.table_of max objs) id v ∙ ground arith) e
        | inr (args, e) ↦
            is_in (is_reged_oper_id_lem (OperTable.table_of max objs) id v ∙ ground arith) (λ f. cc)
      ]
      | no p ↦
          is_beyond (is_reged_oper_id_lem (OperTable.table_of max objs) id v ∙ ground arith)
            (ap args_in (get_elem?_of_le objs id (omega (arith, v.sized))))
    ]

-- A function that first asks whether its caller is registered.
pub if_reged-cases :
    {A : Type 0} (id : ℕ) (m : Manager) (refused body : Run A)
    → OperTable.IsValid m.opers
    → ((reged m.opers id ≢ none) × (if_reged id m refused body ≡ body))
      ⊎ ((reged m.opers id ≡ none) × (if_reged id m refused body ≡ refused))
if_reged-cases id m refused body v = elim (reged_case m.opers id v) [
  | is_in e r ↦ inl (r, ground arith)
  | is_free e r ↦ inr (r, ground arith)
  | is_beyond e r ↦ inr (r, ground arith)
]

module _ {tail_cells : ℕ} (m : Manager) (v : IsValid tail_cells m) where
  pub opers-IsValid :
      (o : Opers) → OperTable.IsValid o → IsValid tail_cells (record m { opers = o })
  opers-IsValid o h = record {
    opers = h;
    pub_rows = v.pub_rows;
    sub_rows = v.sub_rows;
    one_queue = v.one_queue;
    deep = v.deep;
    deep_small = v.deep_small;
    queue = v.queue;
  }

  pub pub_table-IsValid :
      (t : Table)
      → Rows.IsValid (IsPuber tail_cells) t
      → IsValid tail_cells (record m { pub_table = t })
  pub_table-IsValid t h = record {
    opers = v.opers;
    pub_rows = h;
    sub_rows = v.sub_rows;
    one_queue = v.one_queue;
    deep = v.deep;
    deep_small = v.deep_small;
    queue = v.queue;
  }

  pub sub_table-IsValid :
      (t : Table)
      → Rows.IsValid (IsSuber tail_cells) t
      → IsValid tail_cells (record m { sub_table = t })
  sub_table-IsValid t h = record {
    opers = v.opers;
    pub_rows = v.pub_rows;
    sub_rows = h;
    one_queue = v.one_queue;
    deep = v.deep;
    deep_small = v.deep_small;
    queue = v.queue;
  }

  pub queue-IsValid :
      (q : EvtQueue)
      → m.state ≡ running
      → Ring.IsValid q
      → IsValid tail_cells (record m { evt_queue_procer = some (some q ∷ []) })
  queue-IsValid q e h = record {
    opers = v.opers;
    pub_rows = v.pub_rows;
    sub_rows = v.sub_rows;
    one_queue = v.one_queue;
    deep = v.deep;
    deep_small = v.deep_small;
    queue = subst (λ s. HasQueue s (some (some q ∷ []))) (sym e) (q, refl, h);
  }

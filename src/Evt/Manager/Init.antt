-- ===== src/Evt/Manager/Init.antt =====
-- What `PLT_EVT_initEvtManger` promises.
use freely_craft_codes.Prelude.{
  ℕ, zero, suc, ◌<◌, ◌^◌, ◌≡◌, refl, ap, ◌∙◌, inl, inr, ◌≢◌, Bool, true, false, ◌&&◌, Option, none,
  some, ◌∷◌, replicate, subst, sym, dec_lt, arith, [],
}
use freely_craft_codes.ThinkOs.{success, bad_state, not_enough_memory}
use freely_craft_codes.Evt.Types.{ModArgs}
use freely_craft_codes.Evt.Slots.{Slots}
use freely_craft_codes.Evt.Oper.Invariant.{fresh_opers}
use freely_craft_codes.Evt.Queue.{EvtQueue}
use freely_craft_codes.Evt.Psdb.Invariant.{IsPuber, IsSuber, fresh_rows}
use freely_craft_codes.Evt.Manager.{uninited, ready, Manager}
use freely_craft_codes.Evt.Manager.Lifecycle.{
  InitMemory, init_evt_manger, param_or, with_opers, with_pub_table, with_sub_table, with_queues,
  free_tables, set_state,
}
use freely_craft_codes.Evt.Manager.Invariant.{IsValid, HasQueue, State-cases}
use freely_craft_codes.Evt.Manager.Calls.{IsSoundParams}

param_or-bound :
    (param max : ℕ)
    → param < 2 ^ 16
    → 0 < max
    → max < 2 ^ 16
    → (0 < param_or param max) × (param_or param max < 2 ^ 16)
param_or-bound param max h k l = elim (dec_lt 0 param) [
  | yes p ↦ ground arith
  | no p ↦ ground arith
]

abbrev all_given : InitMemory → Bool
all_given mem = mem.for_opers && (mem.for_pub_table && (mem.for_sub_table && mem.for_queues))

-- The manager with all its tables, and the one that a failed allocation leaves.
abbrev with_tables : ModArgs → Manager → Manager
with_tables p m = with_queues p (with_sub_table p (with_pub_table p (with_opers p m)))

-- What is asked for, or what was set before.
abbrev pub asked_or : ℕ → ℕ → ℕ
asked_or zero before = before
asked_or (suc n) before = suc n

param_or-asked : (param max : ℕ) → param_or param max ≡ asked_or param max
param_or-asked zero max = refl
param_or-asked (suc n) max = ground arith

-- Empty tables, of the sizes that the arguments ask for, or of the sizes set before where they ask
-- for 0, and the depth of the queue.
pub record HasFreshTables (p : ModArgs) (m m' : Manager) : Type 0 where
  pub oper_num :
      m'.opers.may_reg_oper_num_max ≡ asked_or p.may_reg_oper_num_max m.opers.may_reg_oper_num_max
  pub pub_num :
      m'.pub_table.may_evt_num_max ≡ asked_or p.may_pub_evt_num_max m.pub_table.may_evt_num_max
  pub sub_num :
      m'.sub_table.may_evt_num_max ≡ asked_or p.may_sub_evt_num_max m.sub_table.may_evt_num_max
  pub depth :
      m'.may_evt_desc_queue_num_max
      ≡ asked_or p.may_evt_queue_depth_max m.may_evt_desc_queue_num_max
  pub opers : m'.opers.reged_oper_objs ≡ some (replicate m'.opers.may_reg_oper_num_max none)
  pub pub_rows : m'.pub_table.rows ≡ some (replicate m'.pub_table.may_evt_num_max none)
  pub sub_rows : m'.sub_table.rows ≡ some (replicate m'.sub_table.may_evt_num_max none)
  pub queues : m'.evt_queue_procer ≡ some (none ∷ [])

pub record HasNoTables (m : Manager) : Type 0 where
  pub opers : m.opers.reged_oper_objs ≡ none
  pub pub_rows : m.pub_table.rows ≡ none
  pub sub_rows : m.sub_table.rows ≡ none
  pub queues : m.evt_queue_procer ≡ none

-- How an initialization ends.
pub data InitOutcome (tail_cells : ℕ) (mem : InitMemory) (args : Option ModArgs) (m : Manager)
    : Type 0 where
  refused :
      m.state ≢ uninited
      → init_evt_manger mem args m ≡ (bad_state, m)
      → InitOutcome tail_cells mem args m
  without_tables :
      args ≡ none
      → init_evt_manger mem args m ≡ (success, set_state ready m)
      → IsValid tail_cells (set_state ready m)
      → InitOutcome tail_cells mem args m
  done :
      (p : ModArgs) (m' : Manager)
      → args ≡ some p
      → all_given mem ≡ true
      → init_evt_manger mem args m ≡ (success, m')
      → m'.state ≡ ready
      → HasFreshTables p m m'
      → IsValid tail_cells m'
      → InitOutcome tail_cells mem args m
  failed :
      (p : ModArgs) (m' : Manager)
      → args ≡ some p
      → all_given mem ≡ false
      → init_evt_manger mem args m ≡ (not_enough_memory, m')
      → m'.state ≡ uninited
      → HasNoTables m'
      → IsValid tail_cells m'
      → InitOutcome tail_cells mem args m

module _ (tail_cells : ℕ) (m : Manager) (v : IsValid tail_cells m) (e : m.state ≡ uninited) where
  no_queues : m.evt_queue_procer ≡ none
  no_queues = found m.evt_queue_procer (subst (λ s. HasQueue s m.evt_queue_procer) e v.queue)
    where
      found : (queues : Option (Slots EvtQueue)) → HasQueue uninited queues → queues ≡ none
      found none h = refl
      found (some queues) h = elim h [ ]

  -- Freeing what was allocated keeps the manager valid, whatever limits were set.
  freed-IsValid :
      (p : ModArgs) (m' : Manager)
      → m'.state ≡ m.state
      → m'.may_evt_queue_num_max ≡ m.may_evt_queue_num_max
      → (0 < m'.may_evt_desc_queue_num_max)
      → (m'.may_evt_desc_queue_num_max < 2 ^ 16)
      → IsValid tail_cells (free_tables m')
  freed-IsValid p m' same one deep small = record {
    opers = tt;
    pub_rows = tt;
    sub_rows = tt;
    one_queue = one ∙ v.one_queue;
    deep = deep;
    deep_small = small;
    queue = subst (λ s. HasQueue s none) (sym (same ∙ e)) tt;
  }

  module _ (p : ModArgs) (fits : p.may_evt_queue_depth_max < 2 ^ 16) where
    tables-IsValid : IsValid tail_cells (set_state ready (with_tables p m))
    tables-IsValid =
        let (deep, small) =
          param_or-bound p.may_evt_queue_depth_max m.may_evt_desc_queue_num_max fits v.deep
            v.deep_small in
        record {
          opers = fresh_opers _;
          pub_rows = fresh_rows (IsPuber tail_cells) _;
          sub_rows = fresh_rows (IsSuber tail_cells) _;
          one_queue = v.one_queue;
          deep = deep;
          deep_small = small;
          queue = ap (λ n. replicate n none) v.one_queue;
        }

    fresh : HasFreshTables p m (set_state ready (with_tables p m))
    fresh = record {
      oper_num = param_or-asked p.may_reg_oper_num_max m.opers.may_reg_oper_num_max;
      pub_num = param_or-asked p.may_pub_evt_num_max m.pub_table.may_evt_num_max;
      sub_num = param_or-asked p.may_sub_evt_num_max m.sub_table.may_evt_num_max;
      depth = param_or-asked p.may_evt_queue_depth_max m.may_evt_desc_queue_num_max;
      opers = refl;
      pub_rows = refl;
      sub_rows = refl;
      queues = ap (λ n. some (replicate n none)) v.one_queue;
    }

    none_left : (m' : Manager) → HasNoTables (free_tables m')
    none_left m' = record { opers = refl; pub_rows = refl; sub_rows = refl; queues = refl }

    failed_at :
        (mem : InitMemory) (m' : Manager)
        → all_given mem ≡ false
        → init_evt_manger mem (some p) m ≡ (not_enough_memory, free_tables m')
        → m'.state ≡ m.state
        → m'.may_evt_queue_num_max ≡ m.may_evt_queue_num_max
        → (0 < m'.may_evt_desc_queue_num_max)
        → (m'.may_evt_desc_queue_num_max < 2 ^ 16)
        → InitOutcome tail_cells mem (some p) m
    failed_at mem m' short run same one deep small =
        failed p (free_tables m') refl short run (same ∙ e) (none_left m')
          (freed-IsValid p m' same one deep small)

    init_by :
        (a b c d : Bool)
        → InitOutcome tail_cells
            (record { for_opers = a; for_pub_table = b; for_sub_table = c; for_queues = d })
            (some p)
            m
    unfolding init_evt_manger
    init_by false b c d = failed_at _ (with_opers p m) refl (rw e) refl refl v.deep v.deep_small
    init_by true false c d =
        failed_at _ (with_pub_table p (with_opers p m)) refl (rw e) refl refl v.deep v.deep_small
    init_by true true false d =
        failed_at _ (with_sub_table p (with_pub_table p (with_opers p m))) refl (rw e) refl refl
          v.deep v.deep_small
    init_by true true true false =
        let (deep, small) =
          param_or-bound p.may_evt_queue_depth_max m.may_evt_desc_queue_num_max fits v.deep
            v.deep_small in
        failed_at _ (with_tables p m) refl (rw e) refl refl deep small
    init_by true true true true =
        done p (set_state ready (with_tables p m)) refl refl (rw e) refl fresh tables-IsValid

  bare-IsValid : IsValid tail_cells (set_state ready m)
  bare-IsValid = record {
    opers = v.opers;
    pub_rows = v.pub_rows;
    sub_rows = v.sub_rows;
    one_queue = v.one_queue;
    deep = v.deep;
    deep_small = v.deep_small;
    queue = subst (HasQueue ready) (sym no_queues) tt;
  }

pub init_evt_manger_lem :
    (tail_cells : ℕ) (mem : InitMemory) (args : Option ModArgs) (m : Manager)
    → IsValid tail_cells m
    → IsSoundParams args
    → InitOutcome tail_cells mem args m
unfolding init_evt_manger
init_evt_manger_lem tail_cells mem args m v fits = elim (State-cases m.state) [
  | inl e ↦ by_args args fits e
  | inr (inl e) ↦ refused (λ p. cc) (rw e)
  | inr (inr e) ↦ refused (λ p. cc) (rw e)
]
  where
    by_args :
        (args : Option ModArgs)
        → IsSoundParams args
        → m.state ≡ uninited
        → InitOutcome tail_cells mem args m
    by_args none fits e = without_tables refl (rw e) (bare-IsValid tail_cells m v e)
    by_args (some p) fits e =
        init_by tail_cells m v e p fits mem.for_opers mem.for_pub_table mem.for_sub_table
          mem.for_queues

-- ===== src/Evt/Manager/Steps.antt =====
-- How each call on a valid manager ends.
use freely_craft_codes.Prelude.{
  ℕ, suc, ◌≤◌, ◌≡◌, refl, ap, ◌∙◌, inl, inr, ◌≢◌, Bool, Option, none, some, List, length, Run, ok,
  fault, ◌>>=◌, arith,
}
use freely_craft_codes.ThinkOs.{TosResult, success, not_reged}
use freely_craft_codes.Evt.Types.{EvtDesc, EvtSubArgs, EvtOperArgs, ModArgs}
use freely_craft_codes.Evt.Oper.{Opers, do_reg_oper}
use freely_craft_codes.Evt.Oper.Register
use freely_craft_codes.Evt.Oper.Register.{do_reg_oper_lem}
use freely_craft_codes.Evt.Oper.Unregister.{unreg_oper_lem}
use freely_craft_codes.Evt.Psdb.{Table, do_pub_evts, do_sub_evts}
use freely_craft_codes.Evt.Psdb.Invariant.{slot_in}
use freely_craft_codes.Evt.Psdb.Publish
use freely_craft_codes.Evt.Psdb.Publish.{do_pub_evts_lem, full_of_fault}
use freely_craft_codes.Evt.Psdb.Subscribe
use freely_craft_codes.Evt.Psdb.Subscribe.{do_sub_evts_lem}
use freely_craft_codes.Evt.Psdb.Free.{none_found, freed, unsub_evts_lem, unpub_evts_lem}
use freely_craft_codes.Evt.Manager.{ready, running, Manager}
use freely_craft_codes.Evt.Manager.Lifecycle.{InitMemory, deinit_evt_manger}
use freely_craft_codes.Evt.Manager.Interface.{
  reg_oper, unreg, pub_evts, sub_evts, unsub_evts, unpub_evts,
}
use freely_craft_codes.Evt.Manager.Calls.{
  Call, inits, deinits, disables, enables, regs, unregs, publishes, unpublishes, subscribes,
  unsubscribes, posts, processes, step, IsSound,
}
use freely_craft_codes.Evt.Manager.Invariant.{IsValid, State-cases}
use freely_craft_codes.Evt.Manager.Init
use freely_craft_codes.Evt.Manager.Init.{init_evt_manger_lem}
use freely_craft_codes.Evt.Manager.Power
use freely_craft_codes.Evt.Manager.Power.{
  enable_evt_manger_lem, disable_evt_manger_lem, started, stopped,
}
use freely_craft_codes.Evt.Manager.Clients.{
  if_reged-cases, opers-IsValid, pub_table-IsValid, sub_table-IsValid,
}
use freely_craft_codes.Evt.Manager.Events
use freely_craft_codes.Evt.Manager.Events.{post_evt_lem, process_one_lem, with_queue}

-- The two misuses that the code does not refuse.
pub data Hazard (m : Manager) : Call → Type 0 where
  post_unless_running :
      (evt_puber_id : ℕ) (desc : EvtDesc) → m.state ≢ running → Hazard m (posts evt_puber_id desc)
  publish_when_full :
      (calloc_ok : Bool) (evt_puber_id : ℕ) (evt_ids : List ℕ) (num_ids : ℕ)
      → ((j : ℕ) → slot_in m.pub_table.rows j ≢ some none)
      → Hazard m (publishes calloc_ok evt_puber_id evt_ids num_ids)

-- How a call ends.
pub data StepOutcome (tail_cells : ℕ) (c : Call) (m : Manager) : Type 0 where
  kept :
      (m' : Manager)
      → step tail_cells c m ≡ ok m'
      → IsValid tail_cells m'
      → StepOutcome tail_cells c m
  undefined : Hazard m c → step tail_cells c m ≡ fault → StepOutcome tail_cells c m

module _ (tail_cells : ℕ) (m : Manager) (v : IsValid (suc tail_cells) m) where
  abbrev T : ℕ
  T = suc tail_cells

  init_step :
      (mem : InitMemory) (args : Option ModArgs)
      → IsSound (inits mem args)
      → StepOutcome T (inits mem args) m
  unfolding step
  init_step mem args h = elim (init_evt_manger_lem T mem args m v h) [
    | Init.refused ne e ↦ kept m (ap (λ r. ok r.1) e) v
    | Init.without_tables a e v' ↦ kept _ (ap (λ r. ok r.1) e) v'
    | Init.done p m' asked given e is_ready fresh v' ↦ kept m' (ap (λ r. ok r.1) e) v'
    | Init.failed p m' asked given e same no_tables v' ↦ kept m' (ap (λ r. ok r.1) e) v'
  ]

  enable_step : (calloc_ok : Bool) → StepOutcome T (enables calloc_ok) m
  unfolding step
  enable_step calloc_ok = elim (enable_evt_manger_lem T calloc_ok m v) [
    | Power.refused ne e ↦ kept m (ap (λ r. r >>= λ p. ok p.1) e) v
    | Power.no_tables s q e ↦ kept m (ap (λ r. r >>= λ p. ok p.1) e) v
    | Power.no_memory s c e ↦ kept m (ap (λ r. r >>= λ p. ok p.1) e) v
    | Power.runs s c e v' ↦ kept (started m) (ap (λ r. r >>= λ p. ok p.1) e) v'
  ]

  disable_step : StepOutcome T disables m
  unfolding step
  disable_step = elim (disable_evt_manger_lem T m v) [
    | Power.idle ne e ↦ kept m e v
    | Power.stops s e v' ↦ kept (stopped m) e v'
  ]

  reg_ready :
      (calloc_ok : Bool) (args : EvtOperArgs) (r : TosResult) (id : Option ℕ) (o' : Opers)
      → m.state ≡ ready
      → do_reg_oper calloc_ok args m.opers ≡ ok (r, id, o')
      → step T (regs calloc_ok args) m ≡ ok (record m { opers = o' })
  unfolding step reg_oper
  reg_ready calloc_ok args r id o' s e = ground arith

  reg_step : (calloc_ok : Bool) (args : EvtOperArgs) → StepOutcome T (regs calloc_ok args) m
  unfolding step reg_oper
  reg_step calloc_ok args = elim (State-cases m.state) [
    | inl s ↦ kept m (rw s) v
    | inr (inr s) ↦ kept m (rw s) v
    | inr (inl s) ↦ elim (do_reg_oper_lem calloc_ok args m.opers 0 v.opers) [
      | Register.no_table a e ↦ kept m (reg_ready calloc_ok args _ none m.opers s e) v
      | Register.full a e ↦ kept m (reg_ready calloc_ok args _ none m.opers s e) v
      | Register.no_memory a e ↦ kept m (reg_ready calloc_ok args _ none m.opers s e) v
      | Register.done id o' c e in_range was now max v' ↦
          kept (record m { opers = o' }) (reg_ready calloc_ok args success (some id) o' s e)
            (opers-IsValid m v o' v')
    ]
  ]

  unreg_step : (id : ℕ) → StepOutcome T (unregs id) m
  unfolding step unreg
  unreg_step id =
      let (o', e, now, max, v') = unreg_oper_lem id m.opers 0 v.opers in
      kept (record m { opers = o' }) (ap (λ r. r >>= λ o. ok (record m { opers = o })) e)
        (opers-IsValid m v o' v')

  unsub_step : (id : ℕ) → StepOutcome T (unsubscribes id) m
  unfolding step unsub_evts
  unsub_step id = elim (unsub_evts_lem T id m.sub_table 0 v.sub_rows) [
    | none_found e others ↦ kept m (ap (λ r. r >>= λ t. ok (record m { sub_table = t })) e) v
    | freed i t' e its_own first now max v' ↦
        kept (record m { sub_table = t' }) (ap (λ r. r >>= λ t. ok (record m { sub_table = t })) e)
          (sub_table-IsValid m v t' v')
  ]

  unpub_step : (id : ℕ) → StepOutcome T (unpublishes id) m
  unfolding step unpub_evts
  unpub_step id = elim (unpub_evts_lem T id m.pub_table 0 v.pub_rows) [
    | none_found e others ↦ kept m (ap (λ r. r >>= λ t. ok (record m { pub_table = t })) e) v
    | freed i t' e its_own first now max v' ↦
        kept (record m { pub_table = t' }) (ap (λ r. r >>= λ t. ok (record m { pub_table = t })) e)
          (pub_table-IsValid m v t' v')
  ]

  after_pub : Run (TosResult × Table) → Run (TosResult × Manager)
  after_pub r = r >>= λ done. ok (done.0, record m { pub_table = done.1 })

  after_sub : Run (TosResult × Table) → Run (TosResult × Manager)
  after_sub r = r >>= λ done. ok (done.0, record m { sub_table = done.1 })

  pub_step :
      (calloc_ok : Bool) (id : ℕ) (ids : List ℕ) (n : ℕ)
      → n ≤ length ids
      → StepOutcome T (publishes calloc_ok id ids n) m
  unfolding step pub_evts after_pub
  pub_step calloc_ok id ids n h =
      elim (if_reged-cases id m (ok (not_reged, m))
        (after_pub (do_pub_evts T calloc_ok id ids n m.pub_table)) v.opers) [
          | inr (free, e) ↦ kept m (ap (λ r. r >>= λ p. ok p.1) e) v
          | inl (known, e) ↦
              let whole : step T (publishes calloc_ok id ids n) m
                  ≡ (after_pub (do_pub_evts T calloc_ok id ids n m.pub_table) >>= λ p. ok p.1) =
                ap (λ r. r >>= λ p. ok p.1) e in
              elim (do_pub_evts_lem T calloc_ok id ids n m.pub_table h v.pub_rows) [
                | Publish.no_table a f ↦ kept m (whole ∙ ap (λ r. after_pub r >>= λ p. ok p.1) f) v
                | Publish.no_memory a f ↦ kept m (whole ∙ ap (λ r. after_pub r >>= λ p. ok p.1) f) v
                | Publish.overrun a f ↦
                    undefined
                      (publish_when_full calloc_ok id ids n
                        (λ j. full_of_fault T calloc_ok id ids n m.pub_table j h v.pub_rows f))
                      (whole ∙ ap (λ r. after_pub r >>= λ p. ok p.1) f)
                | Publish.done i t' c f was now max v' ↦
                    kept (record m { pub_table = t' })
                      (whole ∙ ap (λ r. after_pub r >>= λ p. ok p.1) f)
                      (pub_table-IsValid m v t' v')
              ]
        ]

  sub_step :
      (calloc_ok malloc_ok : Bool) (id : ℕ) (ids : List ℕ) (n : ℕ) (args : EvtSubArgs)
      → n ≤ length ids
      → StepOutcome T (subscribes calloc_ok malloc_ok id ids n args) m
  unfolding step sub_evts after_sub
  sub_step calloc_ok malloc_ok id ids n args h =
      elim (if_reged-cases id m (ok (not_reged, m))
        (after_sub (do_sub_evts T calloc_ok malloc_ok id ids n args m.sub_table)) v.opers) [
          | inr (free, e) ↦ kept m (ap (λ r. r >>= λ p. ok p.1) e) v
          | inl (known, e) ↦
              let whole : step T (subscribes calloc_ok malloc_ok id ids n args) m ≡ (
                  after_sub (do_sub_evts T calloc_ok malloc_ok id ids n args m.sub_table) >>= λ p.
                  ok p.1) =
                ap (λ r. r >>= λ p. ok p.1) e in
              elim (do_sub_evts_lem T calloc_ok malloc_ok id ids n args m.sub_table h v.sub_rows) [
                | Subscribe.no_table a f ↦
                    kept m (whole ∙ ap (λ r. after_sub r >>= λ p. ok p.1) f) v
                | Subscribe.no_memory a f ↦
                    kept m (whole ∙ ap (λ r. after_sub r >>= λ p. ok p.1) f) v
                | Subscribe.full a f ↦ kept m (whole ∙ ap (λ r. after_sub r >>= λ p. ok p.1) f) v
                | Subscribe.done i t' c f was now max v' ↦
                    kept (record m { sub_table = t' })
                      (whole ∙ ap (λ r. after_sub r >>= λ p. ok p.1) f)
                      (sub_table-IsValid m v t' v')
              ]
        ]

  post_step : (p : ℕ) (desc : EvtDesc) → StepOutcome T (posts p desc) m
  unfolding step
  post_step p desc = elim (post_evt_lem T p desc m v) [
    | Events.unknown free e ↦ kept m (ap (λ r. r >>= λ p. ok p.2) e) v
    | Events.null_queue known ne e ↦
        undefined (post_unless_running p desc ne) (ap (λ r. r >>= λ p. ok p.2) e)
    | Events.answered q q' r known s f e same v' ↦
        kept (with_queue q' m) (ap (λ r. r >>= λ p. ok p.2) e) v'
  ]

  process_step : StepOutcome T processes m
  unfolding step
  process_step = elim (process_one_lem tail_cells m v) [
    | Events.no_thread ne e ↦ kept m (ap (λ r. r >>= λ p. ok p.1) e) v
    | Events.waits q f took e ↦ kept m (ap (λ r. r >>= λ p. ok p.1) e) v
    | Events.delivers q q' desc f took e v' ↦
        kept (with_queue q' m) (ap (λ r. r >>= λ p. ok p.1) e) v'
  ]

-- Any call on a valid manager by a caller that keeps its side (array lengths, a depth that fits 16
-- bits), where the struct of a row ends with a cell of padding or more, leaves a valid manager, with
-- two exceptions that have undefined behaviour: a post while the manager does not run, and a
-- publication while no slot of the table is free.
pub step_lem :
    (tail_cells : ℕ) (c : Call) (m : Manager)
    → IsSound c
    → IsValid (suc tail_cells) m
    → StepOutcome (suc tail_cells) c m
unfolding step deinit_evt_manger
step_lem tail_cells (inits mem args) m h v = init_step tail_cells m v mem args h
step_lem tail_cells deinits m h v = kept m refl v
step_lem tail_cells disables m h v = disable_step tail_cells m v
step_lem tail_cells (enables calloc_ok) m h v = enable_step tail_cells m v calloc_ok
step_lem tail_cells (regs calloc_ok args) m h v = reg_step tail_cells m v calloc_ok args
step_lem tail_cells (unregs id) m h v = unreg_step tail_cells m v id
step_lem tail_cells (publishes calloc_ok id ids n) m h v =
    pub_step tail_cells m v calloc_ok id ids n h
step_lem tail_cells (unpublishes id) m h v = unpub_step tail_cells m v id
step_lem tail_cells (subscribes calloc_ok malloc_ok id ids n args) m h v =
    sub_step tail_cells m v calloc_ok malloc_ok id ids n args h
step_lem tail_cells (unsubscribes id) m h v = unsub_step tail_cells m v id
step_lem tail_cells (posts p desc) m h v = post_step tail_cells m v p desc
step_lem tail_cells processes m h v = process_step tail_cells m v

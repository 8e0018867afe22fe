-- ===== src/Evt/Manager/Reach.antt =====
-- Where sequences of calls from the start of the program end.
use freely_craft_codes.Prelude.{ℕ, suc, ◌≡◌, refl, ap, ◌∙◌, List, ◌∷◌, ◌++◌, ok, fault, ◌>>=◌, []}
use freely_craft_codes.Evt.Manager.{Manager, initial}
use freely_craft_codes.Evt.Manager.Calls.{Call, run, AreSound}
use freely_craft_codes.Evt.Manager.Invariant.{IsValid, initial-IsValid}
use freely_craft_codes.Evt.Manager.Steps.{Hazard, kept, undefined, step_lem}

-- How a sequence of calls ends: with a valid manager, or at a misuse of one.
pub data RunOutcome (tail_cells : ℕ) (calls : List Call) (m : Manager) : Type 0 where
  finished :
      (m' : Manager)
      → run tail_cells calls m ≡ ok m'
      → IsValid tail_cells m'
      → RunOutcome tail_cells calls m
  undefined_at :
      (before : List Call) (c : Call) (after : List Call) (m1 : Manager)
      → calls ≡ before ++ c ∷ after
      → run tail_cells before m ≡ ok m1
      → IsValid tail_cells m1
      → Hazard m1 c
      → run tail_cells calls m ≡ fault
      → RunOutcome tail_cells calls m

run_from :
    (tail_cells : ℕ) (calls : List Call) (m : Manager)
    → AreSound calls
    → IsValid (suc tail_cells) m
    → RunOutcome (suc tail_cells) calls m
unfolding run
run_from tail_cells [] m h v = finished m refl v
run_from tail_cells (c ∷ calls) m (h, hs) v = elim (step_lem tail_cells c m h v) [
  | undefined hazard e ↦
      undefined_at [] c calls m refl refl v hazard (ap (λ r. r >>= run (suc tail_cells) calls) e)
  | kept m1 e v1 ↦
      let first : run (suc tail_cells) (c ∷ calls) m ≡ run (suc tail_cells) calls m1 =
        ap (λ r. r >>= run (suc tail_cells) calls) e in
      elim (run_from tail_cells calls m1 hs v1) [
        | finished m' e' v' ↦ finished m' (first ∙ e') v'
        | undefined_at before c' after m2 same e' v2 hazard e2 ↦
            undefined_at (c ∷ before) c' after m2 (ap (λ cs. c ∷ cs) same)
              (ap (λ r. r >>= run (suc tail_cells) before) e ∙ e') v2 hazard (first ∙ e2)
      ]
]

-- Sound calls from the start of the program end with a valid manager, or one of them has undefined
-- behaviour: then the manager before it is valid, and the call is a post while it does not run or a
-- publication while no slot of the table is free. The struct of a row ends with a cell of padding or
-- more.
pub run_lem :
    (tail_cells : ℕ) (calls : List Call)
    → AreSound calls
    → RunOutcome (suc tail_cells) calls initial
run_lem tail_cells calls h = run_from tail_cells calls initial h (initial-IsValid (suc tail_cells))

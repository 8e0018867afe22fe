-- ===== src/Evt/Manager/Tests.antt =====
-- Uses of the laws at the sample.
use freely_craft_codes.Prelude.{true, some, List, ◌∷◌, arith, []}
use freely_craft_codes.Evt.Manager.{initial}
use freely_craft_codes.Evt.Manager.Calls.{
  Call, inits, enables, disables, regs, publishes, subscribes, posts, processes, AreSound,
}
use freely_craft_codes.Evt.Manager.Events.{
  PostOutcome, ProcessOutcome, post_evt_lem, process_one_lem,
}
use freely_craft_codes.Evt.Manager.Steps.{StepOutcome, step_lem}
use freely_craft_codes.Evt.Manager.Reach.{RunOutcome, run_lem}
use freely_craft_codes.Evt.Manager.Sample.{
  desc, oper_args, sub_args, params, all_memory, sample, sample-IsValid,
}

abbrev session : List Call
session =
    inits all_memory (some params)
    ∷ regs true oper_args
    ∷ publishes true 0 (0x201 ∷ []) 1
    ∷ subscribes true true 0 (0x201 ∷ []) 1 sub_args
    ∷ enables true
    ∷ posts 0 desc
    ∷ processes
    ∷ disables
    ∷ []

session-AreSound : AreSound session
session-AreSound = (omega arith, (tt, (omega arith, (omega arith, (tt, (tt, (tt, (tt, tt))))))))

run_lem_example : RunOutcome 1 session initial
run_lem_example = run_lem 0 session session-AreSound

step_lem_example : StepOutcome 1 (subscribes true true 0 (0x201 ∷ []) 1 sub_args) sample
step_lem_example =
    step_lem 0 (subscribes true true 0 (0x201 ∷ []) 1 sub_args) sample (omega arith) sample-IsValid

post_evt_lem_example : PostOutcome 1 0 desc sample
post_evt_lem_example = post_evt_lem 1 0 desc sample sample-IsValid

process_one_lem_example : ProcessOutcome 1 sample
process_one_lem_example = process_one_lem 0 sample sample-IsValid

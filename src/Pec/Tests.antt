-- ===== src/Pec/Tests.antt =====
-- Two complete calls, the first of which succeeds.
use freely_craft_codes.Prelude.{true, false, ◌≡◌, [], ◌∷◌}
use freely_craft_codes.Pec.{OnlineArgs, run, count_success, online_service-once}

abbrev complete : OnlineArgs
complete = record { has_srv_obj_id = true; has_srv_args = true; has_option = true }

online_service-once_example : count_success (run (complete ∷ complete ∷ []) false) ≡ 1
online_service-once_example = online_service-once (complete ∷ complete ∷ [])

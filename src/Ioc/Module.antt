-- ===== src/Ioc/Module.antt =====
-- The module of PlatIF_IOC (PlatIF_IOC/_PlatIF_IOC_ModuleTest.cxx), which is not implemented yet.
use freely_craft_codes.Prelude.{ℕ, Bool, ◌&&◌, ◌==◌, if◌then◌else◌}
use freely_craft_codes.ThinkOs.{TosResult, invalid, not_implemented}

-- `PLT_IOC_initModule`: which of its two arguments are given.
pub init_module : Bool → Bool → TosResult
init_module has_mod_obj_id has_mod_args =
    if has_mod_obj_id && has_mod_args then not_implemented else invalid

-- `PLT_IOC_deinitModule`
pub deinit_module : ℕ → TosResult
deinit_module mod_obj_id = if mod_obj_id == 0 then invalid else not_implemented

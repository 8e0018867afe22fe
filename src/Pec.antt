-- ===== src/Pec.antt =====
-- `PLT_PEC_onlineService` of PlatIF_PEC/PLT_PEC_Server.c, whose static flag `isOnline` is its state.
mod Tests
use freely_craft_codes.Prelude.{
  ℕ, ◌+◌, ◌≡◌, refl, Bool, true, false, ◌&&◌, ◌||◌, List, ◌∷◌, if◌then◌else◌, arith, [],
}
use freely_craft_codes.ThinkOs.{TosResult, success, already, invalid, is_success}

-- Which of `pSrvObjID`, `pSrvArgs` and `pOption` are given.
pub record OnlineArgs : Type 0 where
  pub has_srv_obj_id : Bool
  pub has_srv_args : Bool
  pub has_option : Bool

abbrev pub is_complete : OnlineArgs → Bool
is_complete args = args.has_srv_obj_id && (args.has_srv_args && args.has_option)

-- The result, and the flag afterwards.
unfoldable pub online_service : OnlineArgs → Bool → TosResult × Bool
online_service args is_online =
    if is_complete args
    then (if is_online then (already, is_online) else (success, true))
    else (invalid, is_online)

unfoldable pub run : List OnlineArgs → Bool → List TosResult
run [] is_online = []
run (args ∷ calls) is_online = let r = online_service args is_online in r.0 ∷ run calls r.1

abbrev pub count_success : List TosResult → ℕ
count_success [] = 0
count_success (r ∷ results) =
    if is_success r then 1 + count_success results else count_success results

abbrev pub some_complete : List OnlineArgs → Bool
some_complete [] = false
some_complete (args ∷ calls) = is_complete args || some_complete calls

none_again : (calls : List OnlineArgs) → count_success (run calls true) ≡ 0
unfolding run online_service
none_again [] = refl
none_again (args ∷ calls) = ground (arith, none_again calls)

-- In a program exactly one call succeeds, if some call has all its arguments, and none otherwise.
pub online_service-once :
    (calls : List OnlineArgs)
    → count_success (run calls false) ≡ (if some_complete calls then 1 else 0)
unfolding run online_service
online_service-once [] = refl
online_service-once (args ∷ calls) = ground (arith, none_again calls, online_service-once calls)

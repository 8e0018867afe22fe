-- ===== src/Ioc/Api.antt =====
-- The interface of the events of PlatIF_IOC, at the end of PlatIF_IOC/_PlatIF_IOC_EventTest.cxx:
-- each function is that of the connection-less mode for the one link that it has. With it stand the
-- two tests inside that file.
pub mod Rounds
mod Tests
use freely_craft_codes.Prelude.{
  ℕ, zero, suc, Bool, true, Option, none, some, List, ◌∷◌, [], Run, ok, ◌==◌, if◌then◌else◌,
}
use freely_craft_codes.Prelude.{◌>>=◌}
use freely_craft_codes.ThinkOs.{TosResult, not_implemented}
use freely_craft_codes.Ioc.EvtId.{keepalive, test_evt_id}
use freely_craft_codes.Ioc.Mailbox.{EvtDesc}
use freely_craft_codes.Ioc.Conles.{SubArgs, UnsubArgs, Context, sub_evt, unsub_evt}
use freely_craft_codes.Ioc.Lock.{Options, LockReply, Keys}
use freely_craft_codes.Ioc.Course.{Course, done}
use freely_craft_codes.Ioc.Post.{Callbacks, Posted, post_evt}

-- `IOC_CONLESMODE_AUTO_LINK_ID`
abbrev pub auto_link_id : ℕ
auto_link_id = 0x20231227

-- `PLT_IOC_subEVT`
unfoldable pub plt_ioc_sub_evt :
    Bool → Bool → ℕ → SubArgs → Context → Run (Option (TosResult × Context))
plt_ioc_sub_evt table_ok malloc_ok link_id args c =
    if link_id == auto_link_id
    then sub_evt table_ok malloc_ok args c
    else ok (some (not_implemented, c))

-- `PLT_IOC_unsubEVT`
unfoldable pub plt_ioc_unsub_evt :
    ℕ → Option UnsubArgs → Context → Run (Option (TosResult × Context))
plt_ioc_unsub_evt link_id args c =
    if link_id == auto_link_id then unsub_evt args c else ok (some (not_implemented, c))

-- `PLT_IOC_postEVT`
unfoldable pub plt_ioc_post_evt :
    Callbacks
    → ℕ
    → EvtDesc
    → Option Options
    → Keys
    → LockReply
    → List Bool
    → Context
    → Course Posted
plt_ioc_post_evt callbacks link_id desc options keys reply sleeps c =
    if link_id == auto_link_id
    then post_evt callbacks desc options keys reply sleeps c
    else done (record { result = not_implemented; calls = []; context = c })

-- The arguments of the test `Case02_subEVT`; those of its unsubscription are the first two.
abbrev pub case02_args : SubArgs
case02_args = record {
  cb_proc_evt = 0x20240126;
  cb_priv = 0x20240127;
  evt_num = 1;
  evt_ids = test_evt_id keepalive ∷ [];
}

abbrev pub unsub_args_of : SubArgs → UnsubArgs
unsub_args_of args = record { cb_proc_evt = args.cb_proc_evt; cb_priv = args.cb_priv }

-- The loop of that test, with its rounds left and its arguments given: the two results of each
-- round. `none` if the program ends or a call never returns.
unfoldable pub rounds :
    ℕ → SubArgs → Context → Run (Option (List (TosResult × TosResult) × Context))
rounds zero args c = ok (some ([], c))
rounds (suc n) args c = do
  subed ← sub_evt true true args c
  elim subed [
    | none ↦ ok none
    | some (r, c1) ↦ (do
      unsubed ← unsub_evt (some (unsub_args_of args)) c1
      elim unsubed [
        | none ↦ ok none
        | some (u, c2) ↦ (do
          rest ← rounds n args c2
          elim rest [ none ↦ ok none | some (results, c3) ↦ ok (some ((r, u) ∷ results, c3)) ])
      ])
  ]

-- Both tests begin with these limits.
abbrev pub with_one_place : Context → Context
with_one_place c = record c { max_suber_num = 1; cur_suber_num = 0 }

-- `Case01_subEVT`: the results of its two subscriptions.
abbrev case01_args_a : SubArgs
case01_args_a = record {
  cb_proc_evt = 0x01;
  cb_priv = 0x02;
  evt_num = 1;
  evt_ids = test_evt_id keepalive ∷ [];
}

abbrev case01_args_b : SubArgs
case01_args_b = record {
  cb_proc_evt = 0x03;
  cb_priv = 0x04;
  evt_num = 1;
  evt_ids = test_evt_id keepalive ∷ [];
}

unfoldable pub case01 : Context → Run (Option (TosResult × TosResult))
case01 backup = do
  a ← sub_evt true true case01_args_a (with_one_place backup)
  elim a [
    | none ↦ ok none
    | some (result_a, c) ↦ (do
      b ← sub_evt true true case01_args_b c
      elim b [ none ↦ ok none | some (result_b, c') ↦ ok (some (result_a, result_b)) ])
  ]

-- `Case02_subEVT`
unfoldable pub case02 : ℕ → Context → Run (Option (List (TosResult × TosResult) × Context))
unfolding rounds
case02 rpt_num_max backup = rounds rpt_num_max case02_args (with_one_place backup)

-- ===== src/Ioc/Cache.antt =====
-- The events that a subscriber's thread posts while the lock is taken, and posts again later
-- (PlatIF_IOC/_PlatIF_IOC_EventTest.cxx): `__IOC_ConlesMode_postEVT_ASyncThreadCached`, and the
-- body of the loop that ends each round of `__IOC_ConlesMode_ASyncEventThread`. Only that thread
-- uses them.
pub mod Contents
pub mod Refine
mod Tests
use freely_craft_codes.Prelude.{
  ℕ, ◌+◌, ◌%◌, Bool, not, Option, none, some, List, ◌∷◌, ◌++◌, [], Run, ok, fault, or_fault,
  get_elem?, set, length, ltb, ◌==◌, bit_and, if◌then◌else◌, ◌>>=◌,
}
use freely_craft_codes.ThinkOs.{TosResult, success, not_enough_resource, is_success, ulong}
use freely_craft_codes.Ioc.Mailbox.{EvtDesc, ulong_sub}

-- `EvtPostCachedCnt`, `EvtProcCachedCnt` and `EvtDescCachedQueue`
pub record Cache : Type 0 where
  pub evt_post_cached_cnt : ℕ
  pub evt_proc_cached_cnt : ℕ
  pub evt_desc_cached_queue : List EvtDesc

-- `_IOC_CONLES_EVTCACHED_MAX`
abbrev pub evt_cached_max : ℕ
evt_cached_max = 4

-- `IOC_MSGFLAG_MAYDROP`
abbrev pub msgflag_maydrop : ℕ
msgflag_maydrop = 1

abbrev pub may_drop : EvtDesc → Bool
may_drop desc = not (bit_and desc.flags msgflag_maydrop == 0)

abbrev pub cached_num : Cache → ℕ
cached_num c = ulong_sub c.evt_post_cached_cnt c.evt_proc_cached_cnt

unfoldable pub post_cached : EvtDesc → Cache → Run (TosResult × Cache)
post_cached desc c =
    if ltb (cached_num c) evt_cached_max
    then (let idx = c.evt_post_cached_cnt % evt_cached_max in
        if ltb idx (length c.evt_desc_cached_queue)
        then ok (
          success,
          record c {
            evt_desc_cached_queue = set c.evt_desc_cached_queue idx desc;
            evt_post_cached_cnt = ulong (c.evt_post_cached_cnt + 1);
          },
        )
        else fault)
    else ok (not_enough_resource, c)

-- What becomes of the oldest cached event when it is posted again: it went, it stays for the next
-- round, or it is dropped and the program aborts.
pub data Attempt : Type 0 where
  sent kept dropped : Attempt

abbrev pub past_first : Cache → Cache
past_first c = record c { evt_proc_cached_cnt = ulong (c.evt_proc_cached_cnt + 1) }

abbrev pub attempt : TosResult → EvtDesc → Attempt
attempt answer desc = if is_success answer then sent else if may_drop desc then dropped else kept

abbrev pub attempted : Attempt → Cache → Cache
attempted sent c = past_first c
attempted kept c = c
attempted dropped c = past_first c

-- `none` if nothing is cached. The post is answered by `answer`.
unfoldable pub replay_cached :
    (EvtDesc → TosResult) → Cache → Run (Option (EvtDesc × Attempt × Cache))
replay_cached answer c =
    if ltb 0 (cached_num c)
    then (do
      desc ← or_fault (get_elem? c.evt_desc_cached_queue (c.evt_proc_cached_cnt % evt_cached_max))
      ok (some (desc, attempt (answer desc) desc, attempted (attempt (answer desc) desc) c)))
    else ok none

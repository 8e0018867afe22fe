-- ===== src/Evt/Queue.antt =====
-- The queue of one event processor in PlatIF_EVT/PlatIF_Event.c, `_TOS_EvtQueue_T`, and the two
-- sections that run under its mutex: the one of the poster and the one of the processor's thread.
-- Its thread, mutex and condition variable are not part of the data.
pub mod Invariant
pub mod Fifo
pub mod Contents
pub mod Refine
mod Tests
use freely_craft_codes.Prelude.{
  ℕ, ◌+◌, ◌-◌, ◌%◌, ◌^◌, Option, none, some, List, Run, ok, fault, ◌>>=◌, or_fault, get_elem?, set,
  length, replicate, ltb, ◌==◌, if◌then◌else◌,
}
use freely_craft_codes.ThinkOs.{TosResult, success, too_many_pubed_events, u16, u32}
use freely_craft_codes.Evt.Types.{EvtDesc}

pub record EvtQueue : Type 0 where
  pub seq_id : ℕ
  pub cur_evt_num : ℕ
  pub cur_evt_head : ℕ
  pub cur_evt_tail : ℕ
  pub evt_desc_num_in_queue : ℕ
  pub evt_desc_queue : List EvtDesc

-- What `calloc` leaves in a descriptor: 32 bytes of data, all zero.
abbrev pub zero_desc : EvtDesc
zero_desc = record {
  evt_puber_id = 0;
  evt_id = 0;
  evt_flags = 0;
  seq_id = 0;
  evt_data = replicate 32 0;
}

-- The queue as `__PLT_EVT_doEnableEvtManger_ofStartupEvtProcer` allocates it.
unfoldable pub new_queue : ℕ → EvtQueue
new_queue depth = record {
  seq_id = 0;
  cur_evt_num = 0;
  cur_evt_head = 0;
  cur_evt_tail = 0;
  evt_desc_num_in_queue = depth;
  evt_desc_queue = replicate depth zero_desc;
}

-- `(index + 1) % EvtDescNumInQueue`, an `int`, stored in a `uint16_t`. `%` by 0 is undefined.
abbrev pub next_index : EvtQueue → ℕ → Run ℕ
next_index q index =
    if q.evt_desc_num_in_queue == 0 then fault else ok (u16 ((index + 1) % q.evt_desc_num_in_queue))

-- `EvtDescQueue[index] = desc`
abbrev pub write_slot : EvtQueue → ℕ → EvtDesc → Run (List EvtDesc)
write_slot q index desc =
    if ltb index (length q.evt_desc_queue) then ok (set q.evt_desc_queue index desc) else fault

-- The descriptor with the fields that posting fills in.
abbrev pub stamp : ℕ → ℕ → EvtDesc → EvtDesc
stamp evt_puber_id seq_id desc = record desc { evt_puber_id = evt_puber_id; seq_id = seq_id }

-- `__PLT_EVT_doPostEvtSRT` on its queue. The caller's descriptor is changed too: the second result.
unfoldable pub do_post : ℕ → EvtDesc → EvtQueue → Run (TosResult × EvtDesc × EvtQueue)
do_post evt_puber_id desc q =
    if q.cur_evt_num == q.evt_desc_num_in_queue then ok (too_many_pubed_events, desc, q) else (do
      let posted = stamp evt_puber_id q.seq_id desc
      slots ← write_slot q q.cur_evt_tail posted
      tail ← next_index q q.cur_evt_tail
      ok (
        success,
        posted,
        record q {
          seq_id = u32 (q.seq_id + 1);
          cur_evt_num = u16 (q.cur_evt_num + 1);
          cur_evt_tail = tail;
          evt_desc_queue = slots;
        },
      ))

-- The locked section of `__PLT_EVT_EvtProcer_Thread`. `none`: the thread waits on the condition.
-- Otherwise it holds a pointer to the slot at the old head, which it goes on to read unlocked.
unfoldable pub take_head : EvtQueue → Run (Option (ℕ × EvtQueue))
take_head q = if q.cur_evt_num == 0 then ok none else (do
  head ← next_index q q.cur_evt_head
  ok (some (q.cur_evt_head, record q { cur_evt_head = head; cur_evt_num = q.cur_evt_num - 1 })))

-- `*pEvtDesc`, with `pEvtDesc = &EvtDescQueue[index]`
abbrev pub read_slot : EvtQueue → ℕ → Run EvtDesc
read_slot q index = or_fault (get_elem? q.evt_desc_queue index)

-- A take together with the read of the slot that it points to.
unfoldable pub take_event : EvtQueue → Run (Option (EvtDesc × EvtQueue))
take_event q = do
  taken_slot ← take_head q
  elim taken_slot [
    | none ↦ ok none
    | some (index, q') ↦ (do desc ← read_slot q' index; ok (some (desc, q')))
  ]

-- ===== src/Ioc/Mailbox.antt =====
-- The queue of one event of each subscriber in PlatIF_IOC/_PlatIF_IOC_EventTest.cxx
-- (`_IOC_CONLES_EVTQUEUE_MAX` is 1), with the two sections that run under the subscriber's mutex:
-- the one of `__IOC_ConlesMode_postEVT` and the one of `__IOC_ConlesMode_ASyncEventThread`.
pub mod Steps
mod Tests
use freely_craft_codes.Prelude.{
  ℕ, ◌+◌, ◌%◌, ◌^◌, ◌<◌, ◌≡◌, refl, ap, ◌-◌, Option, none, some, List, ◌∷◌, Run, ok, fault,
  or_fault, get_elem?, set, length, ltb, ◌==◌, if◌then◌else◌, arith, [], ◌>>=◌,
}
use freely_craft_codes.ThinkOs.{TosResult, success, timeout, ulong}

-- `IOC_EvtDesc_T` with its `IOC_MsgDesc_T`
pub record EvtDesc : Type 0 where
  pub seq_id : ℕ
  pub flags : ℕ
  pub evt_id : ℕ

-- `EvtPostCnt`, `EvtProcCnt` and `EvtDescQueue`
pub record Mailbox : Type 0 where
  pub evt_post_cnt : ℕ
  pub evt_proc_cnt : ℕ
  pub evt_desc_queue : List EvtDesc

abbrev pub evt_queue_max : ℕ
evt_queue_max = 1

-- `a - b` on ULONG_T
abbrev pub ulong_sub : ℕ → ℕ → ℕ
ulong_sub a b = ulong (a + (2 ^ 64 - b))

-- The non-blocking post to one subscriber; a blocking one repeats it while the answer is `timeout`.
unfoldable pub try_post : EvtDesc → Mailbox → Run (TosResult × Mailbox)
try_post desc m =
    if ltb (ulong_sub m.evt_post_cnt m.evt_proc_cnt) evt_queue_max
    then (let idx = m.evt_post_cnt % evt_queue_max in
        if ltb idx (length m.evt_desc_queue)
        then ok (
          success,
          record m {
            evt_desc_queue = set m.evt_desc_queue idx desc;
            evt_post_cnt = ulong (m.evt_post_cnt + 1);
          },
        )
        else fault)
    else ok (timeout, m)

-- What the thread copies out before it calls back; `none` while it waits.
unfoldable pub take : Mailbox → Run (Option (EvtDesc × Mailbox))
take m = if m.evt_post_cnt == m.evt_proc_cnt then ok none else (do
  desc ← or_fault (get_elem? m.evt_desc_queue (m.evt_proc_cnt % evt_queue_max))
  ok (some (desc, record m { evt_proc_cnt = ulong (m.evt_proc_cnt + 1) })))

-- What goes in and comes out, in any order of the two threads.
pub data Call : Type 0 where
  posts : EvtDesc → Call
  takes : Call

pub data Reply : Type 0 where
  posted : TosResult → Reply
  taken : Option EvtDesc → Reply

unfoldable pub run : List Call → Mailbox → Run (List Reply)
run [] m = ok []
run (posts desc ∷ calls) m = do
  r ← try_post desc m
  replies ← run calls r.1
  ok (posted r.0 ∷ replies)
run (takes ∷ calls) m = do
  t ← take m
  elim t [
    | none ↦ (do replies ← run calls m; ok (taken none ∷ replies))
    | some (desc, m') ↦ (do replies ← run calls m'; ok (taken (some desc) ∷ replies))
  ]

-- What it promises: a place for one event.
abbrev pub run_place : List Call → Option EvtDesc → List Reply
run_place [] held = []
run_place (posts desc ∷ calls) none = posted success ∷ run_place calls (some desc)
run_place (posts desc ∷ calls) (some held) = posted timeout ∷ run_place calls (some held)
run_place (takes ∷ calls) none = taken none ∷ run_place calls none
run_place (takes ∷ calls) (some held) = taken (some held) ∷ run_place calls none

-- A mailbox that holds nothing, or the event in its slot. The counters may have wrapped.
pub data Holds (m : Mailbox) : Option EvtDesc → Type 0 where
  nothing :
      (slot : EvtDesc)
      → m.evt_desc_queue ≡ slot ∷ []
      → m.evt_proc_cnt < 2 ^ 64
      → m.evt_post_cnt ≡ m.evt_proc_cnt
      → Holds m none
  one :
      (desc : EvtDesc)
      → m.evt_desc_queue ≡ desc ∷ []
      → m.evt_proc_cnt < 2 ^ 64
      → m.evt_post_cnt ≡ ulong (m.evt_proc_cnt + 1)
      → Holds m (some desc)

unfoldable pub after_post : EvtDesc → Mailbox → Mailbox
after_post desc m = record m {
  evt_desc_queue = desc ∷ [];
  evt_post_cnt = ulong (m.evt_post_cnt + 1);
}

unfoldable pub after_take : Mailbox → Mailbox
after_take m = record m { evt_proc_cnt = ulong (m.evt_proc_cnt + 1) }

pub post_empty :
    (desc slot : EvtDesc) (m : Mailbox)
    → m.evt_desc_queue ≡ slot ∷ []
    → m.evt_proc_cnt < 2 ^ 64
    → m.evt_post_cnt ≡ m.evt_proc_cnt
    → try_post desc m ≡ ok (success, after_post desc m)
unfolding try_post after_post
post_empty desc slot m q h e =
    let room : ulong_sub m.evt_post_cnt m.evt_proc_cnt ≡ 0 = omega arith in
    let first : m.evt_post_cnt % 1 ≡ 0 = omega arith in ground arith

pub post_full :
    (desc : EvtDesc) (m : Mailbox)
    → m.evt_proc_cnt < 2 ^ 64
    → m.evt_post_cnt ≡ ulong (m.evt_proc_cnt + 1)
    → try_post desc m ≡ ok (timeout, m)
unfolding try_post
post_full desc m h e =
    let no_room : ulong_sub m.evt_post_cnt m.evt_proc_cnt ≡ 1 = omega arith in ground arith

pub take_full :
    (desc : EvtDesc) (m : Mailbox)
    → m.evt_desc_queue ≡ desc ∷ []
    → m.evt_proc_cnt < 2 ^ 64
    → m.evt_post_cnt ≡ ulong (m.evt_proc_cnt + 1)
    → take m ≡ ok (some (desc, after_take m))
unfolding take after_take
take_full desc m q h e = let first : m.evt_proc_cnt % 1 ≡ 0 = omega arith in ground arith

pub take_empty : (m : Mailbox) → m.evt_post_cnt ≡ m.evt_proc_cnt → take m ≡ ok none
unfolding take
take_empty m e = ground arith

-- No order of posts and takes tells the queue of a subscriber from a place for one event: a post is
-- accepted exactly when the place is empty, each accepted event is taken once, and none is lost,
-- even where the counters wrap.
pub run_is_place :
    (calls : List Call) (m : Mailbox) (held : Option EvtDesc)
    → Holds m held
    → run calls m ≡ ok (run_place calls held)
unfolding run after_post after_take
run_is_place [] m held h = refl
run_is_place (posts desc ∷ calls) m none (nothing slot q h e) =
    rw
      (
        post_empty desc slot m q h e,
        run_is_place calls (after_post desc m) (some desc)
            (one desc refl h (ap (λ n. ulong (n + 1)) e)),
      )
      refl
run_is_place (posts desc ∷ calls) m (some held) (one same q h e) =
    rw (post_full desc m h e, run_is_place calls m (some held) (one held q h e)) refl
run_is_place (takes ∷ calls) m none (nothing slot q h e) =
    rw (take_empty m e, run_is_place calls m none (nothing slot q h e)) refl
run_is_place (takes ∷ calls) m (some held) (one same q h e) =
    rw
      (
        take_full held m q h e,
        run_is_place calls (after_take m) none (nothing held q (omega arith) e),
      )
      refl

-- ===== src/Ioc/Cache/Refine.antt =====
-- The cache behaves as a list of at most four events.
use freely_craft_codes.Prelude.{
  ◌≡◌, refl, true, false, Option, none, some, List, ◌∷◌, ◌++◌, [], Run, ok, length, ltb, dec_lt,
  if◌then◌else◌, arith, ◌>>=◌,
}
use freely_craft_codes.ThinkOs.{TosResult, success, not_enough_resource}
use freely_craft_codes.Ioc.Mailbox.{EvtDesc}
use freely_craft_codes.Ioc.Cache.{
  Cache, post_cached, Attempt, sent, kept, dropped, attempt, attempted, replay_cached,
}
use freely_craft_codes.Ioc.Cache.Contents.{
  Holds, left_after, after_post, after_post-Holds, post_room, post_full, replay_empty, replay_first,
  attempted-Holds,
}

-- The thread's calls: its callback posts, and its loop posts the oldest again, with this answer.
pub data Call : Type 0 where
  posts : EvtDesc → Call
  replays : (EvtDesc → TosResult) → Call

pub data Reply : Type 0 where
  posted : TosResult → Reply
  replayed : Option (EvtDesc × Attempt) → Reply

-- A dropped event ends the program.
abbrev unless_dropped : Attempt → List Reply → List Reply
unless_dropped dropped replies = []
unless_dropped sent replies = replies
unless_dropped kept replies = replies

unfoldable pub run : List Call → Cache → Run (List Reply)
run [] c = ok []
run (posts desc ∷ calls) c = do
  r ← post_cached desc c
  replies ← run calls r.1
  ok (posted r.0 ∷ replies)
run (replays answer ∷ calls) c = do
  t ← replay_cached answer c
  elim t [
    | none ↦ (do replies ← run calls c; ok (replayed none ∷ replies))
    | some (desc, a, c') ↦ (do
      replies ← run calls c'
      ok (replayed (some (desc, a)) ∷ unless_dropped a replies))
  ]

-- What it promises.
unfoldable pub run_list : List Call → List EvtDesc → List Reply
run_list [] held = []
run_list (posts desc ∷ calls) held =
    if ltb (length held) 4
    then posted success ∷ run_list calls (held ++ desc ∷ [])
    else posted not_enough_resource ∷ run_list calls held
run_list (replays answer ∷ calls) [] = replayed none ∷ run_list calls []
run_list (replays answer ∷ calls) (desc ∷ held) =
    let a = attempt (answer desc) desc in
    replayed (some (desc, a)) ∷ unless_dropped a (run_list calls (left_after a desc held))

-- No sequence of the thread's calls tells the cache from a list of at most four events, even where
-- the counters wrap: a post goes to its end if it has fewer than four and is refused with
-- TOS_RESULT_NOT_ENOUGH_RESOURCE otherwise; a replay offers the oldest event, which leaves if it is
-- accepted, stays if it is refused, and is dropped, which ends the program, if it is refused and
-- says that it may be dropped. There is no undefined behaviour.
pub run_is_list :
    (calls : List Call) (c : Cache) (held : List EvtDesc)
    → Holds c held
    → run calls c ≡ ok (run_list calls held)
unfolding run run_list
run_is_list [] c held h = refl
run_is_list (posts desc ∷ calls) c held h = elim (dec_lt (length held) 4) [
  | yes room ↦
      let test : ltb (length held) 4 ≡ true = ground arith in
      rw
        (
          post_room desc c held h room,
          test,
          run_is_list calls (after_post desc c) (held ++ desc ∷ [])
              (after_post-Holds desc c held h room),
        )
        refl
  | no full ↦
      let test : ltb (length held) 4 ≡ false = ground arith in
      rw (post_full desc c held h (omega arith), test, run_is_list calls c held h) refl
]
run_is_list (replays answer ∷ calls) c [] h =
    rw (replay_empty answer c h, run_is_list calls c [] h) refl
run_is_list (replays answer ∷ calls) c (desc ∷ held) h =
    let a = attempt (answer desc) desc in
    rw
      (
        replay_first answer desc c held h,
        run_is_list calls (attempted a c) (left_after a desc held)
            (attempted-Holds a desc c held h),
      )
      refl

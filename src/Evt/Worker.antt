-- ===== src/Evt/Worker.antt =====
-- The descriptor that `__PLT_EVT_EvtProcer_Thread` of PlatIF_EVT/PlatIF_Event.c goes on to read
-- after it has unlocked the queue, while clients post.
mod Tests
use native.Mathlib.Nat.{mod-eq_of_lt, mod-lt}
use freely_craft_codes.Prelude.{
  ℕ, suc, ◌+◌, ◌-◌, ◌%◌, ◌<◌, ◌≡◌, refl, sym, ap, ◌∙◌, ◌≢◌, ◌⊎◌, inl, inr, Option, none, some, List,
  [], ◌∷◌, length, set, get_elem?, get_elem?-set_self, get_elem?-set_ne, Run, ok, ◌>>=◌, or_fault,
  ℕ_discrete, arith,
}
use freely_craft_codes.Evt.Types.{EvtDesc}
use freely_craft_codes.Evt.Queue.{EvtQueue, do_post, take_head, read_slot, stamp}
use freely_craft_codes.Evt.Queue.Invariant.{
  IsValid, next_mod, mod-ne, wrap_cases, after_post, after_take, do_post_room, after_post-IsValid,
  take_head-some, after_take-IsValid, tail_in,
}

-- Posts made while the thread runs callbacks: only the queue that they leave.
unfoldable pub post_all : List (ℕ × EvtDesc) → EvtQueue → Run EvtQueue
post_all [] q = ok q
post_all ((p, desc) ∷ posts) q = do r ← do_post p desc q; post_all posts r.2

-- The slot just before the head, the last one that posts reach.
abbrev pub before_head : EvtQueue → ℕ
before_head q = (q.cur_evt_head + (q.evt_desc_num_in_queue - 1)) % q.evt_desc_num_in_queue

pub taken_slot : (q : EvtQueue) → IsValid q → q.cur_evt_head ≡ before_head (after_take q)
taken_slot q v = omega (
  arith,
  next_mod q.cur_evt_head (q.evt_desc_num_in_queue - 1) q.evt_desc_num_in_queue,
  ap (λ n. (q.cur_evt_head + n) % q.evt_desc_num_in_queue)
      (step_back q.evt_desc_num_in_queue v.some_room),
  wrap_cases (q.cur_evt_head + q.evt_desc_num_in_queue) q.evt_desc_num_in_queue
      (omega (arith, v.head_in)),
)
  where
    step_back : (d : ℕ) → 0 < d → d - 1 + 1 ≡ d
    step_back d h = omega arith

pub post_keeps :
    (p : ℕ) (desc : EvtDesc) (q : EvtQueue)
    → IsValid q
    → q.cur_evt_num + 1 < q.evt_desc_num_in_queue
    → read_slot (after_post p desc q) (before_head q) ≡ read_slot q (before_head q)
post_keeps p desc q v h = ap or_fault (
    get_elem?-set_ne q.evt_desc_queue q.cur_evt_tail (before_head q) (stamp p q.seq_id desc) (λ e.
      mod-ne q.cur_evt_head q.cur_evt_num (q.evt_desc_num_in_queue - 1) q.evt_desc_num_in_queue
        v.head_in (omega arith) (omega arith) (sym v.tail_at ∙ e)))

posts_keep :
    (posts : List (ℕ × EvtDesc)) (q : EvtQueue)
    → IsValid q
    → q.cur_evt_num + length posts < q.evt_desc_num_in_queue
    → (q' : EvtQueue) × (post_all posts q ≡ ok q')
      × (read_slot q' (before_head q) ≡ read_slot q (before_head q))
unfolding post_all
posts_keep [] q v h = (q, refl, refl)
posts_keep ((p, desc) ∷ posts) q v h =
    let room : q.cur_evt_num ≢ q.evt_desc_num_in_queue = (λ e. omega arith) in
    let (q', run, same) =
      posts_keep posts (after_post p desc q) (after_post-IsValid p desc q v room) (omega arith) in
    (q', rw (do_post_room p desc q v room) run, same ∙ post_keeps p desc q v (omega arith))

-- The thread takes the oldest event of a valid queue and holds its slot. Posts during its callbacks,
-- as many as the room that the queue had left before, succeed as calls and leave the slot unchanged.
pub held_slot_stable :
    (q : EvtQueue) (posts : List (ℕ × EvtDesc))
    → IsValid q
    → q.cur_evt_num ≢ 0
    → q.cur_evt_num + length posts < q.evt_desc_num_in_queue + 1
    → (q' : EvtQueue) × (take_head q ≡ ok (some (q.cur_evt_head, after_take q)))
      × (post_all posts (after_take q) ≡ ok q')
      × (read_slot q' q.cur_evt_head ≡ read_slot q q.cur_evt_head)
held_slot_stable q posts v ne h =
    let (q', run, same) =
      posts_keep posts (after_take q) (after_take-IsValid q v ne) (omega arith) in
    (
      q',
      take_head-some q v ne,
      run,
      ap (read_slot q') (taken_slot q v) ∙ same ∙ ap (read_slot q) (sym (taken_slot q v)),
    )

-- One post more is accepted too, and overwrites the slot: on a full queue, the first post during the
-- callbacks replaces the descriptor that they are reading.
pub held_slot_overwritten :
    (q : EvtQueue) (p : ℕ) (desc : EvtDesc)
    → IsValid q
    → q.cur_evt_num ≡ q.evt_desc_num_in_queue
    → (q' : EvtQueue) × (take_head q ≡ ok (some (q.cur_evt_head, after_take q)))
      × (post_all ((p, desc) ∷ []) (after_take q) ≡ ok q')
      × (read_slot q' q.cur_evt_head ≡ ok (stamp p q.seq_id desc))
unfolding post_all
held_slot_overwritten q p desc v full =
    let ne : q.cur_evt_num ≢ 0 = (λ e. omega (arith, v.some_room)) in
    let v1 = after_take-IsValid q v ne in
    let room : q.cur_evt_num - 1 ≢ q.evt_desc_num_in_queue = (λ e. omega (arith, v.some_room)) in
    let at_tail : q.cur_evt_head ≡ q.cur_evt_tail = omega (
      arith,
      v.tail_at,
      full,
      ap (λ n. (q.cur_evt_head + n) % q.evt_desc_num_in_queue) full,
      wrap_cases (q.cur_evt_head + q.evt_desc_num_in_queue) q.evt_desc_num_in_queue
          (omega (arith, v.head_in)),
    ) in
    (
      after_post p desc (after_take q),
      take_head-some q v ne,
      rw (do_post_room p desc (after_take q) v1 room) refl,
      ap or_fault (
          ap (get_elem? (after_post p desc (after_take q)).evt_desc_queue) at_tail
          ∙ get_elem?-set_self q.evt_desc_queue q.cur_evt_tail (stamp p q.seq_id desc)
              (omega (arith, tail_in q v, v.storage))),
    )

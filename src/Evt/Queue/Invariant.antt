-- ===== src/Evt/Queue/Invariant.antt =====
-- The representation invariant of the queue: no index leaves it and no counter wraps.
use native.Mathlib.Nat.{mod-eq_of_lt, mod-eq-sub-mod, mod-add-mod, mod-lt}
use freely_craft_codes.Prelude.{
  ℕ, ◌+◌, ◌-◌, ◌%◌, ◌^◌, ◌≤◌, ◌<◌, ◌≡◌, none, some, ok, length, length-set, length-replicate, arith,
  ◌⊎◌, inl, inr, ◌≢◌, dec_lt, ap, ◌∙◌, sym, set,
}
use freely_craft_codes.ThinkOs.{success, too_many_pubed_events, u16, u32}
use freely_craft_codes.Evt.Types.{EvtDesc}
use freely_craft_codes.Evt.Queue.{EvtQueue, new_queue, zero_desc, do_post, take_head, stamp}

pub record IsValid (q : EvtQueue) : Type 0 where
  pub some_room : 0 < q.evt_desc_num_in_queue
  pub depth_small : q.evt_desc_num_in_queue < 2 ^ 16
  pub storage : length q.evt_desc_queue ≡ q.evt_desc_num_in_queue
  pub num_in : q.cur_evt_num ≤ q.evt_desc_num_in_queue
  pub head_in : q.cur_evt_head < q.evt_desc_num_in_queue
  pub tail_at : q.cur_evt_tail ≡ (q.cur_evt_head + q.cur_evt_num) % q.evt_desc_num_in_queue
  pub seq_small : q.seq_id < 2 ^ 32

-- A new queue of a depth from 1 to 65535 is valid.
pub new_queue-IsValid : (depth : ℕ) → 0 < depth → depth < 2 ^ 16 → IsValid (new_queue depth)
unfolding new_queue
new_queue-IsValid depth h k = record {
  some_room = h;
  depth_small = k;
  storage = length-replicate depth zero_desc;
  num_in = omega arith;
  head_in = h;
  tail_at = omega (arith, mod-eq_of_lt h);
  seq_small = omega arith;
}

-- An index less than twice the depth wraps at most once.
pub wrap_cases : (x d : ℕ) → x < d + d → ((x < d) × (x % d ≡ x)) ⊎ ((d ≤ x) × (x % d ≡ x - d))
wrap_cases x d h = elim (dec_lt x d) [
  | yes p ↦ inl (p, mod-eq_of_lt p)
  | no p ↦ inr (
    omega arith,
    mod-eq-sub-mod {n = x} {m = d} (omega arith) ∙ mod-eq_of_lt {n = x - d} {m = d} (omega arith),
  )
]

pub next_mod : (h n d : ℕ) → ((h + 1) % d + n) % d ≡ (h + (n + 1)) % d
next_mod h n d = mod-add-mod (h + 1) d n ∙ ap (λ t. t % d) (omega arith)

-- Two offsets less than the depth apart are at different indices.
pub mod-ne : (h k n d : ℕ) → h < d → k < n → n < d → (h + k) % d ≢ (h + n) % d
mod-ne h k n d p q r =
    omega (arith, wrap_cases (h + k) d (omega arith), wrap_cases (h + n) d (omega arith))

pub mod_bound : (x d : ℕ) → 0 < d → x % d < d
mod_bound x d h = mod-lt x h

-- The queue after an accepted post, and after an event was taken.
abbrev pub after_post : ℕ → EvtDesc → EvtQueue → EvtQueue
after_post evt_puber_id desc q = record q {
  seq_id = u32 (q.seq_id + 1);
  cur_evt_num = q.cur_evt_num + 1;
  cur_evt_tail = (q.cur_evt_tail + 1) % q.evt_desc_num_in_queue;
  evt_desc_queue = set q.evt_desc_queue q.cur_evt_tail (stamp evt_puber_id q.seq_id desc);
}

abbrev pub after_take : EvtQueue → EvtQueue
after_take q = record q {
  cur_evt_head = (q.cur_evt_head + 1) % q.evt_desc_num_in_queue;
  cur_evt_num = q.cur_evt_num - 1;
}

pub do_post_full :
    (evt_puber_id : ℕ) (desc : EvtDesc) (q : EvtQueue)
    → q.cur_evt_num ≡ q.evt_desc_num_in_queue
    → do_post evt_puber_id desc q ≡ ok (too_many_pubed_events, desc, q)
unfolding do_post
do_post_full evt_puber_id desc q e = ground arith

pub tail_in : (q : EvtQueue) → IsValid q → q.cur_evt_tail < q.evt_desc_num_in_queue
tail_in q v =
    omega (arith, mod_bound (q.cur_evt_head + q.cur_evt_num) q.evt_desc_num_in_queue v.some_room)

-- On a valid queue with room, no counter or index wraps in a post, and the write is in range.
pub do_post_room :
    (evt_puber_id : ℕ) (desc : EvtDesc) (q : EvtQueue)
    → IsValid q
    → q.cur_evt_num ≢ q.evt_desc_num_in_queue
    → do_post evt_puber_id desc q
      ≡ ok (success, stamp evt_puber_id q.seq_id desc, after_post evt_puber_id desc q)
unfolding do_post
do_post_room evt_puber_id desc q v ne =
    let narrow : u16 ((q.cur_evt_tail + 1) % q.evt_desc_num_in_queue)
        ≡ (q.cur_evt_tail + 1) % q.evt_desc_num_in_queue =
      omega (arith, mod_bound (q.cur_evt_tail + 1) q.evt_desc_num_in_queue v.some_room) in
    let count : u16 (q.cur_evt_num + 1) ≡ q.cur_evt_num + 1 = omega arith in
    ground (arith, narrow, count, tail_in q v)

pub after_post-IsValid :
    (evt_puber_id : ℕ) (desc : EvtDesc) (q : EvtQueue)
    → IsValid q
    → q.cur_evt_num ≢ q.evt_desc_num_in_queue
    → IsValid (after_post evt_puber_id desc q)
after_post-IsValid evt_puber_id desc q v ne = record {
  some_room = v.some_room;
  depth_small = v.depth_small;
  storage = length-set q.evt_desc_queue q.cur_evt_tail _ ∙ v.storage;
  num_in = omega arith;
  head_in = v.head_in;
  tail_at =
      ap (λ t. (t + 1) % q.evt_desc_num_in_queue) v.tail_at
      ∙ mod-add-mod (q.cur_evt_head + q.cur_evt_num) q.evt_desc_num_in_queue 1
      ∙ ap (λ t. t % q.evt_desc_num_in_queue) (omega arith);
  seq_small = omega arith;
}

pub take_head_empty : (q : EvtQueue) → q.cur_evt_num ≡ 0 → take_head q ≡ ok none
unfolding take_head
take_head_empty q e = ground arith

pub take_head-some :
    (q : EvtQueue)
    → IsValid q
    → q.cur_evt_num ≢ 0
    → take_head q ≡ ok (some (q.cur_evt_head, after_take q))
unfolding take_head
take_head-some q v ne =
    let narrow : u16 ((q.cur_evt_head + 1) % q.evt_desc_num_in_queue)
        ≡ (q.cur_evt_head + 1) % q.evt_desc_num_in_queue =
      omega (arith, mod_bound (q.cur_evt_head + 1) q.evt_desc_num_in_queue v.some_room) in
    ground (arith, narrow)

pub after_take-IsValid : (q : EvtQueue) → IsValid q → q.cur_evt_num ≢ 0 → IsValid (after_take q)
after_take-IsValid q v ne = record {
  some_room = v.some_room;
  depth_small = v.depth_small;
  storage = v.storage;
  num_in = omega arith;
  head_in = mod_bound (q.cur_evt_head + 1) q.evt_desc_num_in_queue v.some_room;
  tail_at =
      v.tail_at
      ∙ ap (λ t. t % q.evt_desc_num_in_queue) (omega arith)
      ∙ sym (mod-add-mod (q.cur_evt_head + 1) q.evt_desc_num_in_queue (q.cur_evt_num - 1));
  seq_small = v.seq_small;
}

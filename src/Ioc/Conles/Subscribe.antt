-- ===== src/Ioc/Conles/Subscribe.antt =====
-- What subscribing promises in the connection-less mode.
use freely_craft_codes.Prelude.{
  ℕ, ◌+◌, ◌≤◌, ◌<◌, ◌^◌, ◌≡◌, refl, sym, subst, ◌∙◌, inl, inr, Bool, true, false, Option, none,
  some, List, ok, get_elem?, get_elem?-set_self, lt_of_get, set, take, length, length-set,
  replicate, dec_lt, ◌==◌, Bool-cases, Option-cases, arith,
}
use freely_craft_codes.ThinkOs.{success, not_enough_resource, not_tested_bug, ulong}
use freely_craft_codes.Ioc.Conles.{
  SubArgs, Suber, Context, zero_suber, lock, unlock, is_free, saved, subers_of, with_subers, sub_at,
  sub_evt,
}
use freely_craft_codes.Ioc.Conles.Count.{
  one_if_used, used, first_suber, find_suber_whole, first_suber-get, all_used, used-set, IsCounted,
  IsCounted?, IsValid, new-IsCounted, unlock-lock,
}

-- How a subscription ends.
pub data SubOutcome (table_ok malloc_ok : Bool) (args : SubArgs) (c : Context) : Type 0 where
  full :
      c.max_suber_num ≤ c.cur_suber_num
      → sub_evt table_ok malloc_ok args c ≡ ok (some (not_enough_resource, c))
      → SubOutcome table_ok malloc_ok args c
  aborted :
      c.evt_subers ≡ none
      → table_ok ≡ false
      → sub_evt table_ok malloc_ok args c ≡ ok none
      → SubOutcome table_ok malloc_ok args c
  done :
      (idx : ℕ) (before subers : List Suber) (c' : Context)
      → malloc_ok ≡ true
      → subers_of table_ok c ≡ some before
      → first_suber is_free before ≡ some idx
      → subers ≡ set before idx (saved args (some (take args.evt_num args.evt_ids)))
      → sub_evt table_ok malloc_ok args c ≡ ok (some (success, c'))
      → c'.mutex_depth ≡ c.mutex_depth
      → c'.max_suber_num ≡ c.max_suber_num
      → c'.cur_suber_num ≡ c.cur_suber_num + 1
      → c'.evt_subers ≡ some subers
      → get_elem? subers idx ≡ some (saved args (some (take args.evt_num args.evt_ids)))
      → IsValid c'
      → SubOutcome table_ok malloc_ok args c
  leaked :
      (subers : List Suber) (c' : Context)
      → malloc_ok ≡ false
      → sub_evt table_ok malloc_ok args c ≡ ok (some (not_tested_bug, c'))
      → c'.mutex_depth ≡ c.mutex_depth
      → c'.cur_suber_num ≡ c.cur_suber_num
      → c'.evt_subers ≡ some subers
      → used subers ≡ c.cur_suber_num + 1
      → SubOutcome table_ok malloc_ok args c

-- The place of a new subscriber in a table with room.
module _ (max cur : ℕ) (subers : List Suber) (v : IsCounted max cur subers) (room : cur < max) where
  pub has_free : (idx : ℕ) × (first_suber is_free subers ≡ some idx)
  has_free = elim (Option-cases (first_suber is_free subers)) [
    | inl e ↦ absurd (omega (arith, all_used subers e, v.sized, v.counted))
    | inr found ↦ found
  ]

  placed :
      (idx : ℕ) (new : Suber)
      → first_suber is_free subers ≡ some idx
      → (new.cb_proc_evt == 0) ≡ false
      → IsCounted max (cur + 1) (set subers idx new)
        × (get_elem? (set subers idx new) idx ≡ some new)
  placed idx new e taken =
      let (old, read, free) = first_suber-get is_free subers idx e in
      let was : one_if_used old ≡ 0 = ground arith in
      let now : one_if_used new ≡ 1 = ground arith in
      (
        record {
          sized = length-set subers idx new ∙ v.sized;
          counted = omega (arith, used-set subers idx old new read, was, now, v.counted);
        },
        get_elem?-set_self subers idx new (lt_of_get subers idx read),
      )

module _ (table_ok malloc_ok : Bool) (args : SubArgs) (c : Context)
    (small : c.max_suber_num < 2 ^ 64) (named : (args.cb_proc_evt == 0) ≡ false)
    (enough : args.evt_num ≤ length args.evt_ids) where
  pub sub_room :
      (subers : List Suber) (idx : ℕ)
      → c.cur_suber_num < c.max_suber_num
      → subers_of table_ok (lock c) ≡ some subers
      → IsCounted c.max_suber_num c.cur_suber_num subers
      → first_suber is_free subers ≡ some idx
      → sub_evt table_ok malloc_ok args c ≡ sub_at malloc_ok args subers (some idx) (lock c)
  unfolding sub_evt
  sub_room subers idx room table v e =
      ground (arith, find_suber_whole is_free c.max_suber_num subers v.sized)

  sub_table :
      (subers : List Suber)
      → c.cur_suber_num < c.max_suber_num
      → subers_of table_ok (lock c) ≡ some subers
      → IsCounted c.max_suber_num c.cur_suber_num subers
      → SubOutcome table_ok malloc_ok args c
  unfolding sub_at
  sub_table subers room table v =
      let (idx, found) = has_free c.max_suber_num c.cur_suber_num subers v room in
      let start = sub_room subers idx room table v found in
      elim (Bool-cases malloc_ok) [
        | inl yes_memory ↦
            let new = saved args (some (take args.evt_num args.evt_ids)) in
            let (v', read) =
              placed c.max_suber_num c.cur_suber_num subers v room idx new found named in
            let table' = set subers idx new in
            let narrow : ulong (c.cur_suber_num + 1) ≡ c.cur_suber_num + 1 = omega arith in
            done idx subers table'
              (unlock (record (with_subers table' (lock c)) {
                cur_suber_num = ulong (c.cur_suber_num + 1);
              }))
              yes_memory table found refl (start ∙ ground arith) (omega arith) refl narrow refl read
              (record {
                small = small;
                subers = subst (λ n. IsCounted c.max_suber_num n table') (sym narrow) v';
              })
        | inr no_memory ↦
            let new = saved args none in
            let (v', read) =
              placed c.max_suber_num c.cur_suber_num subers v room idx new found named in
            leaked (set subers idx new) (unlock (with_subers (set subers idx new) (lock c)))
              no_memory (start ∙ ground arith) (omega arith) refl refl v'.counted
      ]

  sub_full :
      c.max_suber_num ≤ c.cur_suber_num
      → sub_evt table_ok malloc_ok args c ≡ ok (some (not_enough_resource, c))
  unfolding sub_evt
  sub_full h = ground (arith, unlock-lock c)

  sub_aborts :
      c.cur_suber_num < c.max_suber_num
      → c.evt_subers ≡ none
      → table_ok ≡ false
      → sub_evt table_ok malloc_ok args c ≡ ok none
  unfolding sub_evt
  sub_aborts room e f = ground arith

-- Subscribing with a callback and an array that has the ids it is said to have never has undefined
-- behaviour and never keeps the mutex, on a context whose counter says how many places are taken.
-- If all are taken, the answer is TOS_RESULT_NOT_ENOUGH_RESOURCE and nothing changes. If the table
-- cannot be allocated, the program ends. Otherwise the arguments are saved in the first free place
-- and no other place changes, the counter goes up by one and stays right, or, if `malloc` fails,
-- the place stays taken but is not counted.
pub sub_evt_lem :
    (table_ok malloc_ok : Bool) (args : SubArgs) (c : Context)
    → IsValid c
    → (args.cb_proc_evt == 0) ≡ false
    → args.evt_num ≤ length args.evt_ids
    → SubOutcome table_ok malloc_ok args c
sub_evt_lem table_ok malloc_ok args c v named enough =
    elim (dec_lt c.cur_suber_num c.max_suber_num) [
      | no none_left ↦
          full (omega arith) (sub_full table_ok malloc_ok args c v.small named enough (omega arith))
      | yes room ↦ by_table c.evt_subers refl v.subers room
    ]
  where
    by_table :
        (table : Option (List Suber))
        → c.evt_subers ≡ table
        → IsCounted? c.max_suber_num c.cur_suber_num table
        → c.cur_suber_num < c.max_suber_num
        → SubOutcome table_ok malloc_ok args c
    by_table (some subers) e counted room =
        sub_table table_ok malloc_ok args c v.small named enough subers room (rw e) counted
    by_table none e zero_now room = elim (Bool-cases table_ok) [
      | inr no_table ↦
          aborted e no_table
            (sub_aborts table_ok malloc_ok args c v.small named enough room e no_table)
      | inl with_table ↦
          sub_table table_ok malloc_ok args c v.small named enough
            (replicate c.max_suber_num zero_suber) room (ground arith)
            (subst (λ n. IsCounted c.max_suber_num n (replicate c.max_suber_num zero_suber))
              (sym zero_now) (new-IsCounted c.max_suber_num))
    ]

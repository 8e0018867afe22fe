-- ===== src/Ioc/Conles/Unsubscribe.antt =====
-- What unsubscribing promises in the connection-less mode.
use freely_craft_codes.Prelude.{
  ℕ, ◌+◌, ◌-◌, ◌<◌, ◌^◌, ◌≡◌, refl, ◌∙◌, inl, inr, true, false, Option, none, some, List, ok,
  get_elem?, set, length-set, ◌==◌, Option-cases, Bool-cases, arith,
}
use freely_craft_codes.ThinkOs.{success, not_found, ulong}
use freely_craft_codes.Ioc.Conles.{
  UnsubArgs, Suber, Context, lock, unlock, exited, joins, stopped, cleared, unsub_at, is_of,
  unsub_evt,
}
use freely_craft_codes.Ioc.Conles.Count.{
  one_if_used, used, first_suber, find_suber_whole, first_suber-get, used-set, used_le, IsCounted,
  IsCounted?, IsValid, unlock-lock,
}

unsub_without :
    (args : UnsubArgs) (c : Context)
    → c.evt_subers ≡ none
    → unsub_evt (some args) c ≡ ok (some (not_found, c))
unfolding unsub_evt
unsub_without args c e = ground (arith, unlock-lock c)

-- How unsubscribing one callback ends.
pub data UnsubOutcome (args : UnsubArgs) (c : Context) : Type 0 where
  no_table :
      c.evt_subers ≡ none → unsub_evt (some args) c ≡ ok (some (not_found, c)) → UnsubOutcome args c
  absent :
      (subers : List Suber)
      → c.evt_subers ≡ some subers
      → first_suber (is_of args) subers ≡ none
      → unsub_evt (some args) c ≡ ok (some (success, c))
      → UnsubOutcome args c
  removed :
      (idx : ℕ) (subers : List Suber) (suber : Suber) (c' : Context)
      → c.evt_subers ≡ some subers
      → get_elem? subers idx ≡ some suber
      → is_of args suber ≡ true
      → joins suber ≡ true
      → unsub_evt (some args) c ≡ ok (some (success, c'))
      → c'.mutex_depth ≡ c.mutex_depth
      → c'.max_suber_num ≡ c.max_suber_num
      → c'.cur_suber_num + 1 ≡ c.cur_suber_num
      → c'.evt_subers ≡ some (set subers idx (cleared (exited suber)))
      → IsValid c'
      → UnsubOutcome args c
  stuck :
      (idx : ℕ) (subers : List Suber) (suber : Suber)
      → c.evt_subers ≡ some subers
      → get_elem? subers idx ≡ some suber
      → is_of args suber ≡ true
      → joins suber ≡ false
      → unsub_evt (some args) c ≡ ok none
      → UnsubOutcome args c

module _ (args : UnsubArgs) (c : Context) (small : c.max_suber_num < 2 ^ 64)
    (named : (args.cb_proc_evt == 0) ≡ false) (subers : List Suber)
    (table : c.evt_subers ≡ some subers)
    (v : IsCounted c.max_suber_num c.cur_suber_num subers) where
  unsub_absent :
      first_suber (is_of args) subers ≡ none → unsub_evt (some args) c ≡ ok (some (success, c))
  unfolding unsub_evt unsub_at
  unsub_absent e =
      ground (arith, find_suber_whole (is_of args) c.max_suber_num subers v.sized, unlock-lock c)

  without : ℕ → Suber → Context
  without idx suber = unlock (record (lock c) {
    evt_subers = some (set subers idx (cleared (exited suber)));
    cur_suber_num = ulong (c.cur_suber_num + (2 ^ 64 - 1));
  })

  unsub_found :
      (idx : ℕ) (suber : Suber)
      → first_suber (is_of args) subers ≡ some idx
      → get_elem? subers idx ≡ some suber
      → joins suber ≡ true
      → unsub_evt (some args) c ≡ ok (some (success, without idx suber))
  unfolding unsub_evt unsub_at without stopped
  unsub_found idx suber e read exits =
      ground (arith, find_suber_whole (is_of args) c.max_suber_num subers v.sized)

  unsub_stuck :
      (idx : ℕ) (suber : Suber)
      → first_suber (is_of args) subers ≡ some idx
      → get_elem? subers idx ≡ some suber
      → joins suber ≡ false
      → unsub_evt (some args) c ≡ ok none
  unfolding unsub_evt unsub_at stopped
  unsub_stuck idx suber e read loops =
      ground (arith, find_suber_whole (is_of args) c.max_suber_num subers v.sized)

  -- Taking a subscriber away whose thread exits.
  unsub_removed :
      (idx : ℕ) (suber : Suber)
      → first_suber (is_of args) subers ≡ some idx
      → get_elem? subers idx ≡ some suber
      → is_of args suber ≡ true
      → joins suber ≡ true
      → UnsubOutcome args c
  unfolding without
  unsub_removed idx suber e read hit exits =
      let was : one_if_used suber ≡ 1 = ground arith in
      let now : one_if_used (cleared (exited suber)) ≡ 0 = ground arith in
      let fewer : used (set subers idx (cleared (exited suber))) + 1 ≡ c.cur_suber_num =
        omega
          (arith, used-set subers idx suber (cleared (exited suber)) read, was, now, v.counted) in
      let narrow : ulong (c.cur_suber_num + (2 ^ 64 - 1)) + 1 ≡ c.cur_suber_num =
        omega (arith, fewer, used_le subers, v.counted, v.sized, small) in
      removed idx subers suber (without idx suber) table read hit exits
        (unsub_found idx suber e read exits) (omega arith) refl narrow refl
        (record {
          small = small;
          subers = record {
            sized = length-set subers idx (cleared (exited suber)) ∙ v.sized;
            counted = omega (arith, fewer, narrow);
          };
        })

  unsub_table : UnsubOutcome args c
  unsub_table = elim (Option-cases (first_suber (is_of args) subers)) [
    | inl e ↦ absent subers table e (unsub_absent e)
    | inr (idx, e) ↦
        let (suber, read, hit) = first_suber-get (is_of args) subers idx e in
        elim (Bool-cases (joins suber)) [
          | inl exits ↦ unsub_removed idx suber e read hit exits
          | inr loops ↦
              stuck idx subers suber table read hit loops (unsub_stuck idx suber e read loops)
        ]
  ]

pub unsub_evt_lem :
    (args : UnsubArgs) (c : Context)
    → IsValid c
    → (args.cb_proc_evt == 0) ≡ false
    → UnsubOutcome args c
unsub_evt_lem args c v named = by_table c.evt_subers refl v.subers
  where
    by_table :
        (table : Option (List Suber))
        → c.evt_subers ≡ table
        → IsCounted? c.max_suber_num c.cur_suber_num table
        → UnsubOutcome args c
    by_table none e zero_now = no_table e (unsub_without args c e)
    by_table (some subers) e counted = unsub_table args c v.small named subers e counted

-- ===== src/Ioc/Lock/Tests.antt =====
-- A timeout of two milliseconds.
use freely_craft_codes.Prelude.{
  ℕ, ◌+◌, ◌*◌, ◌%◌, ◌^◌, ◌≤◌, ◌<◌, ◌≡◌, refl, some, List, ◌∷◌, [], get_elem?, arith,
}
use freely_craft_codes.Ioc.Lock.{LockReply, busy, Timespec, abs_time, timed_lock}
use freely_craft_codes.Ioc.Lock.Deadline.{nanoseconds, abs_time_lem, timed_lock-abs_time}

abbrev at_start : Timespec
at_start = record { tv_sec = 7; tv_nsec = 999000000 }

abbrev tries : List (LockReply × Timespec)
tries =
    (busy, record { tv_sec = 7; tv_nsec = 999500000 })
    ∷ (busy, record { tv_sec = 8; tv_nsec = 1000100 })
    ∷ []

abs_time_lem_example :
    ((abs_time 5000000 at_start).tv_nsec < 1000000000)
    × (nanoseconds (abs_time 5000000 at_start) ≡ nanoseconds at_start + 5000000 * 1000 % 2 ^ 32)
    × (nanoseconds (abs_time 5000000 at_start) ≤ nanoseconds at_start + 4294967295)
abs_time_lem_example = abs_time_lem 5000000 at_start

timed_lock-abs_time_example :
    (i : ℕ) × (ts : Timespec) × (get_elem? tries i ≡ some (busy, ts))
    × (nanoseconds at_start + 2000 * 1000 ≤ nanoseconds ts)
unfolding timed_lock abs_time
timed_lock-abs_time_example = timed_lock-abs_time 2000 at_start tries (omega arith) refl refl

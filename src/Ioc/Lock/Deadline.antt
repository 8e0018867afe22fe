-- ===== src/Ioc/Lock/Deadline.antt =====
-- How long a post with a timeout tries to lock the mutex.
use freely_craft_codes.Prelude.{
  ℕ, suc, ◌+◌, ◌*◌, ◌%◌, ◌^◌, ◌≤◌, ◌<◌, ◌≡◌, refl, Bool, ◌&&◌, true, false, Bool-cases, inl, inr,
  some, List, ◌∷◌, [], get_elem?, arith,
}
use freely_craft_codes.Ioc.Lock.{
  LockReply, locked, busy, timed_out, lock_error, Timespec, abs_time, is_past, timed_lock,
}

-- In nanoseconds.
abbrev pub nanoseconds : Timespec → ℕ
nanoseconds t = t.tv_sec * 1000000000 + t.tv_nsec

past_le :
    (abs_timeout ts : Timespec)
    → abs_timeout.tv_nsec < 1000000000
    → is_past abs_timeout ts ≡ true
    → nanoseconds abs_timeout ≤ nanoseconds ts
past_le abs_timeout ts h e = ground arith

-- The deadline is a normalised time, as long after the given one as 1000 times the timeout says in
-- 32 bits, so never more than 4294967295 nanoseconds.
pub abs_time_lem :
    (timeout_us : ℕ) (now : Timespec)
    → ((abs_time timeout_us now).tv_nsec < 1000000000)
      × (nanoseconds (abs_time timeout_us now) ≡ nanoseconds now + timeout_us * 1000 % 2 ^ 32)
      × (nanoseconds (abs_time timeout_us now) ≤ nanoseconds now + 4294967295)
unfolding abs_time
abs_time_lem timeout_us now = (omega arith, omega arith, omega arith)

-- `pthread_mutex_trylock` does not time out.
abbrev pub is_try_reply : LockReply → Bool
is_try_reply timed_out = false
is_try_reply reply = true

abbrev pub all_try : List (LockReply × Timespec) → Bool
all_try [] = true
all_try ((reply, ts) ∷ tries) = is_try_reply reply && all_try tries

gives_up_past :
    (abs_timeout : Timespec) (tries : List (LockReply × Timespec))
    → abs_timeout.tv_nsec < 1000000000
    → all_try tries ≡ true
    → timed_lock abs_timeout tries ≡ some timed_out
    → (i : ℕ) × (ts : Timespec) × (get_elem? tries i ≡ some (busy, ts))
      × (nanoseconds abs_timeout ≤ nanoseconds ts)
unfolding timed_lock
gives_up_past abs_timeout [] h a e = cc
gives_up_past abs_timeout ((busy, ts) ∷ tries) h a e = elim (Bool-cases (is_past abs_timeout ts)) [
  | inl p ↦ (0, ts, refl, past_le abs_timeout ts h p)
  | inr q ↦
      let (i, at, read, late) = gives_up_past abs_timeout tries h a (ground arith) in
      (suc i, at, read, late)
]
gives_up_past abs_timeout ((locked, ts) ∷ tries) h a e = cc
gives_up_past abs_timeout ((timed_out, ts) ∷ tries) h a e = cc
gives_up_past abs_timeout ((lock_error, ts) ∷ tries) h a e = cc

-- A timeout below 4294968 microseconds is kept: the lock is given up only after a try at which it
-- was taken and the clock was at least that long past the time at which the post began.
pub timed_lock-abs_time :
    (timeout_us : ℕ) (now : Timespec) (tries : List (LockReply × Timespec))
    → timeout_us < 4294968
    → all_try tries ≡ true
    → timed_lock (abs_time timeout_us now) tries ≡ some timed_out
    → (i : ℕ) × (ts : Timespec) × (get_elem? tries i ≡ some (busy, ts))
      × (nanoseconds now + timeout_us * 1000 ≤ nanoseconds ts)
timed_lock-abs_time timeout_us now tries h a e =
    let (normal, exact, near) = abs_time_lem timeout_us now in
    let (i, ts, read, late) = gives_up_past (abs_time timeout_us now) tries normal a e in
    (i, ts, read, omega (arith, exact, late))

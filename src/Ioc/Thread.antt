-- ===== src/Ioc/Thread.antt =====
-- The thread of a subscriber, `__IOC_ConlesMode_ASyncEventThread` of
-- PlatIF_IOC/_PlatIF_IOC_EventTest.cxx, with what others do to the subscriber meanwhile. A step is
-- what happens under one lock of the subscriber's mutex, or one round of the last loop.
pub mod Asked
pub mod Exit
pub mod Logs
pub mod Delivery
pub mod Moves
mod Tests
use freely_craft_codes.Prelude.{
  ℕ, zero, suc, ◌≡◌, Bool, true, false, ◌&&◌, Option, none, some, Run, ok, fault, ◌==◌,
  if◌then◌else◌, ◌>>=◌,
}
use freely_craft_codes.ThinkOs.{TosResult, success, timeout}
use freely_craft_codes.Ioc.Mailbox
use freely_craft_codes.Ioc.Mailbox.{EvtDesc, Mailbox, try_post}
use freely_craft_codes.Ioc.Cache.{Cache, Attempt, sent, kept, dropped, post_cached, replay_cached}
use freely_craft_codes.Ioc.Conles.{Suber}

-- Where the thread is: about to look at its queue, in its callback, in the loop that ends a round,
-- returned, or in `TOS_abortNotTested()`.
pub data Point : Type 0 where
  looking : Point
  calling : EvtDesc → Point
  replaying : Point
  exited : Point
  aborted : Point

abbrev pub is_idle : Suber → Bool
is_idle s = s.mailbox.evt_post_cnt == s.mailbox.evt_proc_cnt

abbrev pub picked : Suber → Option (EvtDesc × Mailbox) → Point × Suber
picked s none = (looking, s)
picked s (some (desc, m)) = (calling desc, record s { mailbox = m })

-- From `pthread_mutex_lock` to the callback. The tests after `pthread_cond_wait` are those before
-- it, so the thread that waits is one that looks again.
unfoldable pub look : Suber → Run (Point × Suber)
look s =
    if s.should_exit && is_idle s
    then ok (exited, s)
    else (do t ← Mailbox.take s.mailbox; ok (picked s t))

abbrev pub point_after : Attempt → Point
point_after sent = replaying
point_after kept = replaying
point_after dropped = aborted

abbrev pub replayed : Suber → Option (EvtDesc × Attempt × Cache) → Point × Suber
replayed s none = (looking, s)
replayed s (some (desc, a, c)) = (point_after a, record s { cache = c })

-- One round of `do { ... } while(0x20240211)`: what is cached is posted again if nothing is queued.
-- `answer` is what that post returns.
unfoldable pub replay : (EvtDesc → TosResult) → Suber → Run (Point × Suber)
replay answer s =
    if is_idle s then (do t ← replay_cached answer s.cache; ok (replayed s t)) else ok (looking, s)

-- Who asks the thread to exit holds the mutex of the context until the thread has, so that nobody
-- posts any more, and a post of the thread itself cannot lock that mutex.
abbrev pub answer_while : Bool → TosResult → EvtDesc → TosResult
answer_while true r desc = timeout
answer_while false r desc = r

-- What can happen next: the thread goes on, its callback posts while the lock is taken, another
-- thread posts, or another thread asks it to exit.
pub data Step : Point × Suber → Point × Suber → Type 0 where
  looks : {s : Suber} {next : Point × Suber} → look s ≡ ok next → Step (looking, s) next
  caches :
      {d : EvtDesc} {s : Suber} {r : TosResult} {c : Cache} (desc : EvtDesc)
      → post_cached desc s.cache ≡ ok (r, c)
      → Step (calling d, s) (calling d, record s { cache = c })
  returns : {d : EvtDesc} {s : Suber} → Step (calling d, s) (replaying, s)
  replays :
      {s : Suber} {next : Point × Suber} (r : TosResult)
      → replay (answer_while s.should_exit r) s ≡ ok next
      → Step (replaying, s) next
  posts :
      {p : Point} {s : Suber} {r : TosResult} {m : Mailbox} (desc : EvtDesc)
      → s.should_exit ≡ false
      → try_post desc s.mailbox ≡ ok (r, m)
      → Step (p, s) (p, record s { mailbox = m })
  told : {p : Point} {s : Suber} → Step (p, s) (p, record s { should_exit = true })

-- The thread's own next step, while another holds the mutex of the context and its callback caches
-- nothing.
unfoldable pub alone : Point × Suber → Run (Point × Suber)
alone (looking, s) = look s
alone (calling desc, s) = ok (replaying, s)
alone (replaying, s) = replay (λ desc. timeout) s
alone (exited, s) = ok (exited, s)
alone (aborted, s) = ok (aborted, s)

unfoldable pub run_alone : ℕ → Point × Suber → Run (Point × Suber)
run_alone zero state = ok state
run_alone (suc n) state = do next ← alone state; run_alone n next

infix 40 ◌⟶*◌
pub data ◌⟶*◌ : Point × Suber → Point × Suber → Type 0 where
  here : {a : Point × Suber} → a ⟶* a
  onward : {a b c : Point × Suber} → Step a b → b ⟶* c → a ⟶* c

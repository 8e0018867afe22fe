-- ===== src/Evt/Locks/Readers.antt =====
-- Who reads the table.
use freely_craft_codes.Prelude.{ℕ, ◌+◌, ◌<◌, ◌≡◌, refl, ap, ◌∙◌, arith}
use freely_craft_codes.Evt.Locks.{
  Point, dispatching, calling, System, Step, takes, waits, wakes, begins, calls, returns, finishes,
  posts, subscribes, unsubscribes, disables_waiting, disables_calling, enables, Steps, here, onward,
  leaks_by, leaks_in, writes_by, writes_in,
}

-- The lock that the thread holds.
abbrev pub held_at : Point → ℕ
held_at dispatching = 1
held_at calling = 1
held_at _ = 0

readers-step :
    (tail_cells : ℕ) (a b : System) (step : Step tail_cells a b) (leaked : ℕ)
    → a.readers ≡ leaked + held_at a.point
    → b.readers ≡ leaked + leaks_by tail_cells a b step + held_at b.point
readers-step t _ _ (takes {s} e f g) leaked r = omega (arith, r, ap held_at e)
readers-step t _ _ (waits {s} e f g) leaked r = omega (arith, r, ap held_at e)
readers-step t _ _ (wakes {s} e) leaked r = omega (arith, r, ap held_at e)
readers-step t _ _ (begins {s} e) leaked r = omega (arith, r, ap held_at e)
readers-step t _ _ (calls {s} e) leaked r = omega (arith, r, ap held_at e)
readers-step t _ _ (returns {s} e) leaked r = omega (arith, r, ap held_at e)
readers-step t _ _ (finishes {s} {n} e f) leaked r = omega (arith, r, f, ap held_at e)
readers-step t _ _ (posts {s} p d e) leaked r = omega (arith, r)
readers-step t _ _ (subscribes {s} x y z u v w e f) leaked r = omega (arith, r)
readers-step t _ _ (unsubscribes {s} p e f) leaked r = omega (arith, r)
readers-step t _ _ (disables_waiting {s} e f) leaked r = omega (arith, r, ap held_at e)
readers-step t _ _ (disables_calling {s} e f) leaked r = omega (arith, r, ap held_at e)
readers-step t _ _ (enables {s} x e f) leaked r = omega (arith, r, ap held_at e)

-- In every interleaving, from a system whose table is locked for reading by the thread only, if at
-- all: the lock is held once for each time that the manager was disabled during a callback, and once
-- more exactly while the thread goes through the table.
pub readers_lem :
    (tail_cells : ℕ) (a b : System) (steps : Steps tail_cells a b) (leaked : ℕ)
    → a.readers ≡ leaked + held_at a.point
    → b.readers ≡ leaked + leaks_in steps + held_at b.point
readers_lem t a _ here leaked r = omega (arith, r)
readers_lem t a b (onward {b = c} step steps) leaked r = omega (
  arith,
  readers_lem t c b steps (leaked + leaks_by t a c step) (readers-step t a c step leaked r),
)

writes-step :
    (tail_cells : ℕ) (a b : System) (step : Step tail_cells a b)
    → 0 < a.readers
    → writes_by tail_cells a b step ≡ 0
writes-step t _ _ (takes e f g) h = refl
writes-step t _ _ (waits e f g) h = refl
writes-step t _ _ (wakes e) h = refl
writes-step t _ _ (begins e) h = refl
writes-step t _ _ (calls e) h = refl
writes-step t _ _ (returns e) h = refl
writes-step t _ _ (finishes e f) h = refl
writes-step t _ _ (posts p d e) h = refl
writes-step t _ _ (subscribes x y z u v w e f) h = absurd (omega (arith, h, e))
writes-step t _ _ (unsubscribes p e f) h = absurd (omega (arith, h, e))
writes-step t _ _ (disables_waiting e f) h = refl
writes-step t _ _ (disables_calling e f) h = refl
writes-step t _ _ (enables x e f) h = refl

-- A lock that nobody gives back keeps every writer out.
writes-none :
    (tail_cells : ℕ) (a b : System) (steps : Steps tail_cells a b) (leaked : ℕ)
    → 0 < leaked
    → a.readers ≡ leaked + held_at a.point
    → writes_in steps ≡ 0
writes-none t a _ here leaked h r = refl
writes-none t a b (onward {b = c} step steps) leaked h r = omega (
  arith,
  writes-step t a c step (omega (arith, h, r)),
  writes-none t c b steps (leaked + leaks_by t a c step) (omega (arith, h))
      (readers-step t a c step leaked r),
)

-- Once the manager has been disabled while a callback ran, where the lock was sound before: no
-- subscription and no unsubscription gets the lock of the table again, whatever the thread and the
-- clients do, even after the manager is enabled again.
pub leak_blocks :
    (tail_cells : ℕ) (a b c : System) (before : Steps tail_cells a b) (after : Steps tail_cells b c)
    → a.readers ≡ held_at a.point
    → 0 < leaks_in before
    → writes_in after ≡ 0
leak_blocks tail_cells a b c before after r leaked =
    writes-none tail_cells b c after (leaks_in before) leaked (
      readers_lem tail_cells a b before 0 (omega (arith, r))
      ∙ ap (λ n. n + held_at b.point) (omega arith))

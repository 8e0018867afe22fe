-- ===== src/Evt/Case03/Passes.antt =====
-- The test passes, or waits.
use freely_craft_codes.Prelude.{
  ℕ, ◌+◌, ◌<◌, ◌^◌, ◌≡◌, ◌≢◌, refl, ap, ◌∙◌, some, none, List, ◌∷◌, ◌++◌, [], ok, length, replicate,
  ◌==◌, true, false, ◌-◌, ◌⊎◌, inl, inr, arith,
}
use freely_craft_codes.ThinkOs.{success}
use freely_craft_codes.Evt.Queue.{new_queue}
use freely_craft_codes.Evt.Psdb.Dispatch.{CbCall}
use freely_craft_codes.Evt.Counter.{
  zero_priv, posted_at, all_counted, counted, counted_lem, counted-all,
}
use freely_craft_codes.Evt.Scenario.Start.{start}
use freely_craft_codes.Evt.Case03.{
  Move, Who, is_a, is_b, is_c, is_d, priv_after, waits_over, case03, has_room, left_by, Kind,
}
use freely_craft_codes.Evt.Case03.Start.{
  operators, case03_setup_lem, case03_teardown_lem, enabled-IsValid,
}
use freely_craft_codes.Evt.Case03.Due.{num_asks, due, due-nil}
use freely_craft_codes.Evt.Case03.Counts.{Counts}
use freely_craft_codes.Evt.Case03.Moves.{moves_lem}

module _ (total : ℕ) (pos : 0 < total) (few : total < 2 ^ 64) (calls : List CbCall) (ks : List Kind)
    (counts : (who : Who) → (n : ℕ) × (n + due who ks ≡ total) × Counts total who n calls) where
  priv_lem :
      (who : Who) → priv_after total operators who calls ≡ posted_at total (total - due who ks)
  priv_lem who =
      let (n, sum, c) = counts who in
      c zero_priv
      ∙ counted_lem total n pos (omega (arith, sum)) few
      ∙ ap (posted_at total) (omega (arith, sum))

  nothing_due : ks ≡ [] → (who : Who) → priv_after total operators who calls ≡ all_counted total
  nothing_due e who =
      let (n, sum, c) = counts who in
      let all : n ≡ total = omega (arith, sum, ap (due who) e, due-nil who) in
      c zero_priv ∙ ap (λ k. counted total k zero_priv) all ∙ counted-all total pos few

  over : ks ≡ [] → waits_over total operators calls ≡ true
  over e = rw (nothing_due e is_a, nothing_due e is_b, nothing_due e is_c, nothing_due e is_d) refl

  not_over : ks ≢ [] → waits_over total operators calls ≡ false
  not_over ne =
      let fewer : (total - due is_a ks == total) ≡ false = ground (arith, some_due ks ne, pos) in
      rw (priv_lem is_a, fewer) refl
    where
      some_due : (ws : List Kind) → ws ≢ [] → 0 < due is_a ws
      some_due [] no_one = absurd (no_one refl)
      some_due (w ∷ ws) no_one = omega arith

-- The test after moves that never fill the queue: it passes, where nothing is left in the queue,
-- or waits, where something is.
pub data Outcome (total : ℕ) (moves : List Move) : Type 0 where
  passes :
      (calls : List CbCall)
      → left_by moves [] ≡ []
      → case03 1 total moves start
        ≡ ok (some (replicate 11 success ++ replicate (total + total) success, calls, start))
      → ((who : Who) → priv_after total operators who calls ≡ all_counted total)
      → Outcome total moves
  waits : left_by moves [] ≢ [] → case03 1 total moves start ≡ ok none → Outcome total moves

-- The test with `total` requests, from 1 to 2^31 - 1, all of them posted, in every order of the
-- posting loop and the rounds of the manager's thread in which no post fills the queue, the requests
-- that the loop posts during a round before the answer being those that the move names: where
-- nothing is left in the queue, the waits for the four semaphores return and all calls answer
-- TOS_RESULT_SUCCESS, two posts for each request among them, its own and that of the response from
-- the callback; every callback passes its checks on the operator and the event, the one that answers
-- counts `total` requests and each of the three others as many responses, each posts its semaphore
-- once, and the manager ends as it began. Where something is left, the test waits: it does not
-- disable the manager before everything is delivered.
pub case03_lem :
    (total : ℕ) (moves : List Move)
    → 0 < total
    → total < 2 ^ 31
    → num_asks moves ≡ total
    → has_room moves [] ≡ true
    → Outcome total moves
unfolding case03 new_queue
case03_lem total moves pos few all_asked fits =
    let (calls, rs, q, run, all, num, counts) =
      moves_lem total moves [] (new_queue 256)
        (record { valid = enabled-IsValid; deep = refl; held = refl }) fits in
    let ks = left_by moves [] in
    let due_and_heard : (who : Who)
        → (n : ℕ) × (n + due who ks ≡ total) × Counts total who n calls =
      λ who. let (n, sum, c) = counts who in (n, omega (arith, sum, all_asked, due-nil who), c) in
    elim (is_nil ks) [
      | inl e ↦
          let posts : length rs ≡ total + total = omega (arith, num, all_asked, ap (due is_b) e) in
          passes calls e
            (rw
              (
                case03_setup_lem,
                run,
                over total pos (omega arith) calls ks due_and_heard e,
                case03_teardown_lem q,
              )
              (ap (λ l. ok (some (replicate 11 success ++ l, calls, start)))
                (all ∙ ap (λ k. replicate k success) posts)))
            (nothing_due total pos (omega arith) calls ks due_and_heard e)
      | inr ne ↦ waits ne (
          rw (case03_setup_lem, run, not_over total pos (omega arith) calls ks due_and_heard ne)
            refl)
    ]
  where
    is_nil : (ws : List Kind) → (ws ≡ []) ⊎ (ws ≢ [])
    is_nil [] = inl refl
    is_nil (w ∷ ws) = inr (λ e. ground (arith, e))

-- ===== src/Evt/Case02/Passes.antt =====
-- The test passes, or waits.
use freely_craft_codes.Prelude.{
  ℕ, ◌+◌, ◌<◌, ◌≤◌, ◌^◌, ◌≡◌, ◌≢◌, refl, sym, ap, ap₂, ◌∙◌, true, false, Bool, none, some, List,
  ◌∷◌, ◌++◌, [], ok, length, ltb, ◌&&◌, replicate, ℕ_discrete, arith,
}
use freely_craft_codes.ThinkOs.{success}
use freely_craft_codes.Evt.Oper.Invariant.{reged}
use freely_craft_codes.Evt.Queue.{new_queue}
use freely_craft_codes.Evt.Psdb.Dispatch.{CbCall}
use freely_craft_codes.Evt.Counter.{zero_priv, counted, all_counted, counted-all}
use freely_craft_codes.Evt.Scenario.Start.{start, operators}
use freely_craft_codes.Evt.Case02.{
  Move, b_after, c_after, d_after, case02_over, case02, has_room, left_by,
}
use freely_craft_codes.Evt.Case02.Start.{
  enabled, case02_setup_lem, case02_teardown_lem, enabled-IsValid,
}
use freely_craft_codes.Evt.Case02.Events.{
  Kind, kinds_of, keepalives, msgdatas, keepalives-append, msgdatas-append, length-sum,
}
use freely_craft_codes.Evt.Case02.Turns.{moves_lem}
use freely_craft_codes.Evt.Case02.Counts.{calls_for, b_counts, c_counts, both_at, d_before, d_all}

module _ (tk tm : ℕ) (k_pos : 0 < tk) (m_pos : 0 < tm) (k_few : tk < 2 ^ 32) (m_few : tm < 2 ^ 32)
    (ks : List Kind) where
  b_all : keepalives ks ≡ tk → b_after tk operators (calls_for 0 0 ks) ≡ all_counted tk
  b_all e =
      b_counts tk 0 0 ks zero_priv
      ∙ ap (λ n. counted tk n zero_priv) e
      ∙ counted-all tk k_pos (omega arith)

  c_all :
      msgdatas ks ≡ tm
      → c_after tm operators (calls_for 0 0 ks)
        ≡ record { counter = all_counted tm; next_value = tm }
  c_all e =
      c_counts tm 0 0 ks zero_priv (omega (arith, e))
      ∙ ap₂ (λ c n. record { counter = c; next_value = n })
          (ap (λ n. counted tm n zero_priv) e ∙ counted-all tm m_pos (omega arith))
          (omega (arith, e))

  d_full :
      keepalives ks ≡ tk
      → msgdatas ks ≡ tm
      → d_after tk tm operators (calls_for 0 0 ks) ≡ both_at tk tm 1
  d_full ek em = full ks ek em
    where
      full :
          (xs : List Kind)
          → keepalives xs ≡ tk
          → msgdatas xs ≡ tm
          → d_after tk tm operators (calls_for 0 0 xs) ≡ both_at tk tm 1
      full [] e f = absurd (omega (arith, e))
      full (x ∷ xs) e f = d_all tk tm 0 0 0 x xs (omega (arith, e)) (omega (arith, f)) k_few m_few

  -- While something is left, D has not posted its semaphore.
  not_over :
      keepalives ks + msgdatas ks < tk + tm
      → keepalives ks ≤ tk
      → msgdatas ks ≤ tm
      → case02_over tk tm operators (calls_for 0 0 ks) ≡ false
  not_over h hk hm = rw (d_before tk tm 0 0 0 ks (omega arith) (omega arith) (omega arith)) (
      last_is_false (ltb 0 (b_after tk operators (calls_for 0 0 ks)).sem_posts)
        (ltb 0 (c_after tm operators (calls_for 0 0 ks)).counter.sem_posts))
    where
      last_is_false : (a b : Bool) → (a && (b && false)) ≡ false
      last_is_false a b = ground arith

-- The test after moves that never fill the queue: it passes, where nothing is left in the queue,
-- or waits, where something is.
pub data Outcome (tk tm : ℕ) (moves : List Move) : Type 0 where
  passes :
      (calls : List CbCall)
      → left_by moves 0 ≡ 0
      → case02 1 tk tm moves start
        ≡ ok (some (replicate 9 success ++ replicate (tk + tm) success, calls, start))
      → b_after tk operators calls ≡ all_counted tk
      → c_after tm operators calls ≡ record { counter = all_counted tm; next_value = tm }
      → d_after tk tm operators calls ≡ both_at tk tm 1
      → Outcome tk tm moves
  waits : left_by moves 0 ≢ 0 → case02 1 tk tm moves start ≡ ok none → Outcome tk tm moves

-- The test, in every order of the two posting threads and the rounds of the manager's thread in
-- which no post fills the queue, a post during the callbacks of a round standing after the round,
-- with tk keep-alive events and tm messages, each from 1 to 2^31 - 1, all of them posted: where
-- nothing is left in the queue, the waits for the three semaphores return and all calls answer
-- TOS_RESULT_SUCCESS; the subscriber of keep-alive events counts tk, the subscriber of messages tm,
-- with their numbers one after the other from 0, the subscriber of both counts both, with the
-- numbers in order; all their checks hold, each posts its semaphore once, and the manager ends as
-- it began. Where something is left, the test waits: it does not disable the manager before
-- everything is delivered.
pub case02_lem :
    (tk tm : ℕ) (moves : List Move)
    → 0 < tk
    → 0 < tm
    → tk < 2 ^ 31
    → tm < 2 ^ 31
    → keepalives (kinds_of moves) ≡ tk
    → msgdatas (kinds_of moves) ≡ tm
    → has_room moves 0 ≡ true
    → Outcome tk tm moves
unfolding case02 new_queue
case02_lem tk tm moves k_pos m_pos k_few m_few ek em fits =
    let known : reged (enabled (new_queue 256)).opers 0 ≢ none = λ e. cc in
    let (rs, q, taken, rest, run, split, left, all) =
      moves_lem 0 0 (enabled (new_queue 256)) refl known 0 0 [] moves (new_queue 256)
        (record { valid = enabled-IsValid; deep = refl; held = refl; numbered = refl }) fits in
    let sum_k : keepalives taken + keepalives rest ≡ tk =
      sym (keepalives-append taken rest) ∙ ap keepalives split ∙ ek in
    let sum_m : msgdatas taken + msgdatas rest ≡ tm =
      sym (msgdatas-append taken rest) ∙ ap msgdatas split ∙ em in
    let num : length (kinds_of moves) ≡ tk + tm =
      omega (arith, length-sum (kinds_of moves), ek, em) in
    elim (ℕ_discrete (left_by moves 0) 0) [
      | yes none_left ↦
          let all_k : keepalives taken ≡ tk =
            omega (arith, sum_k, left, none_left, length-sum rest) in
          let all_m : msgdatas taken ≡ tm =
            omega (arith, sum_m, left, none_left, length-sum rest) in
          let b = b_all tk tm k_pos m_pos (omega arith) (omega arith) taken all_k in
          let c = c_all tk tm k_pos m_pos (omega arith) (omega arith) taken all_m in
          let d = d_full tk tm k_pos m_pos (omega arith) (omega arith) taken all_k all_m in
          passes (calls_for 0 0 taken) none_left
            (rw (case02_setup_lem, run, b, c, d, case02_teardown_lem q)
              (ap (λ l. ok (some (replicate 9 success ++ l, calls_for 0 0 taken, start)))
                (all ∙ ap (λ k. replicate k success) num)))
            b c d
      | no some_left ↦ waits some_left (
          rw
            (
              case02_setup_lem,
              run,
              not_over tk tm k_pos m_pos (omega arith) (omega arith) taken
                  (omega (arith, sum_k, sum_m, left, some_left, length-sum rest))
                  (omega (arith, sum_k)) (omega (arith, sum_m)),
            )
            refl)
    ]

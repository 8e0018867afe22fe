-- ===== src/Ioc/Api/Rounds.antt =====
-- Rounds of subscribing and unsubscribing.
use freely_craft_codes.Prelude.{
  ℕ, zero, suc, ◌≤◌, ◌<◌, ◌≡◌, refl, sym, ap, ◌∙◌, true, false, Bool, none, some, List, ◌∷◌, [], ok,
  get_elem?, set, replicate, take, Option, Bool-cases, inl, inr, length, ◌==◌, arith,
}
use freely_craft_codes.ThinkOs.{success}
use freely_craft_codes.Ioc.Conles.{
  SubArgs, Suber, Context, saved, sub_evt, unsub_evt, is_of, joins, exited, cleared, zero_suber,
  subers_of,
}
use freely_craft_codes.Ioc.Effect.{all_join}
use freely_craft_codes.Ioc.Conles.Count.{first_suber, IsValid}
use freely_craft_codes.Ioc.Conles.Subscribe.{SubOutcome, sub_evt_lem}
use freely_craft_codes.Ioc.Conles.Unsubscribe.{UnsubOutcome, unsub_evt_lem}
use freely_craft_codes.Ioc.Api.{unsub_args_of, rounds}

-- What is at a place is found.
first_suber-ne-none :
    (test : Suber → Bool) (subers : List Suber) (i : ℕ) (s : Suber)
    → get_elem? subers i ≡ some s
    → test s ≡ true
    → first_suber test subers ≡ none
    → ⊥
first_suber-ne-none test [] i s read hit e = cc
first_suber-ne-none test (x ∷ subers) zero s read hit e = ground arith
first_suber-ne-none test (x ∷ subers) (suc i) s read hit e =
    first_suber-ne-none test subers i s read hit (ground arith)

-- Threads that exit when they are told to still do once a place is filled by one that does.
all_join-set :
    (subers : List Suber) (i : ℕ) (s : Suber)
    → all_join subers ≡ true
    → joins s ≡ true
    → all_join (set subers i s) ≡ true
all_join-set [] i s a e = refl
all_join-set (x ∷ subers) zero s a e = ground (arith, a, e)
all_join-set (x ∷ subers) (suc i) s a e =
    let here : joins x ≡ true = ground (arith, a) in
    let others : all_join subers ≡ true = ground (arith, a) in
    rw (here, all_join-set subers i s others e) refl

all_join-get :
    (subers : List Suber) (i : ℕ) (s : Suber)
    → all_join subers ≡ true
    → get_elem? subers i ≡ some s
    → joins s ≡ true
all_join-get [] i s a read = cc
all_join-get (x ∷ subers) zero s a read =
    let same : x ≡ s = ground arith in ap joins (sym same) ∙ ground (arith, a)
all_join-get (x ∷ subers) (suc i) s a read = all_join-get subers i s (ground (arith, a)) read

all_join-zero : (n : ℕ) → all_join (replicate n zero_suber) ≡ true
all_join-zero zero = refl
all_join-zero (suc n) = all_join-zero n

cleared-joins : (s : Suber) → joins (cleared (exited s)) ≡ true
cleared-joins s = elim (Bool-cases s.has_thread) [
  | inl e ↦ ground (arith, e)
  | inr e ↦ ground (arith, e)
]

-- No thread has an event in its cache.
abbrev pub has_idle_threads : Context → Bool
has_idle_threads c = elim c.evt_subers [ none ↦ true | some subers ↦ all_join subers ]

table_idle :
    (c : Context) (subers : List Suber)
    → has_idle_threads c ≡ true
    → subers_of true c ≡ some subers
    → all_join subers ≡ true
table_idle c subers idle table = by_table c.evt_subers refl
  where
    by_table : (t : Option (List Suber)) → c.evt_subers ≡ t → all_join subers ≡ true
    by_table none e =
        let same : replicate c.max_suber_num zero_suber ≡ subers = ground (arith, table, e) in
        ap all_join (sym same) ∙ all_join-zero c.max_suber_num
    by_table (some there) e =
        let same : there ≡ subers = ground (arith, table, e) in
        ap all_join (sym same) ∙ ground (arith, idle, e)

-- One round from a context with room, and the context after it.
data SubUnsub (args : SubArgs) (c : Context) : Type 0 where
  both :
      (c1 c2 : Context)
      → sub_evt true true args c ≡ ok (some (success, c1))
      → unsub_evt (some (unsub_args_of args)) c1 ≡ ok (some (success, c2))
      → has_idle_threads c2 ≡ true
      → c2.cur_suber_num ≡ c.cur_suber_num
      → c2.max_suber_num ≡ c.max_suber_num
      → IsValid c2
      → SubUnsub args c

one_round :
    (args : SubArgs) (c : Context)
    → IsValid c
    → has_idle_threads c ≡ true
    → c.cur_suber_num < c.max_suber_num
    → (args.cb_proc_evt == 0) ≡ false
    → args.evt_num ≤ length args.evt_ids
    → SubUnsub args c
one_round args c v idle room named enough = elim (sub_evt_lem true true args c v named enough) [
  | SubOutcome.full h e ↦ absurd (omega arith)
  | SubOutcome.aborted e no_table e2 ↦ absurd (ground arith)
  | SubOutcome.leaked subers c1 no_memory e d n t u ↦ absurd (ground arith)
  | SubOutcome.done idx before subers c1 m table found placed e d x n t read v1 ↦
      let all_idle : all_join subers ≡ true =
        ap all_join placed
        ∙ all_join-set before idx (saved args (some (take args.evt_num args.evt_ids)))
            (table_idle c before idle table) refl in
      elim (unsub_evt_lem (unsub_args_of args) c1 v1 named) [
        | UnsubOutcome.no_table t2 e2 ↦ cc
        | UnsubOutcome.absent subers2 t2 no_place e2 ↦
            let same : subers2 ≡ subers = ground arith in
            absurd (
              first_suber-ne-none (is_of (unsub_args_of args)) subers idx
                (saved args (some (take args.evt_num args.evt_ids))) read (ground arith)
                (ap (first_suber (is_of (unsub_args_of args))) (sym same) ∙ no_place))
        | UnsubOutcome.removed idx2 subers2 s c2 t2 read2 hit exits e2 d2 x2 n2 t3 v2 ↦
            let same : subers2 ≡ subers = ground arith in
            let left : all_join (set subers2 idx2 (cleared (exited s))) ≡ true =
              all_join-set subers2 idx2 (cleared (exited s)) (ap all_join same ∙ all_idle)
                (cleared-joins s) in
            both c1 c2 e e2 (rw t3 left) (omega (arith, n, n2)) (x2 ∙ x) v2
        | UnsubOutcome.stuck idx2 subers2 s t2 read2 hit loops e2 ↦
            let same : subers2 ≡ subers = ground arith in
            let exits : joins s ≡ true =
              all_join-get subers2 idx2 s (ap all_join same ∙ all_idle) read2 in
            absurd (ground (arith, loops, exits))
      ]
]

-- From a context whose counter is right, that has room and in which no thread has an event in its
-- cache, any number of rounds, each a subscription and the unsubscription of the same callback, in
-- which no allocation fails, answers TOS_RESULT_SUCCESS each time, and ends with a counter that is
-- right and what it was: no place leaks.
pub rounds_lem :
    (n : ℕ) (args : SubArgs) (c : Context)
    → IsValid c
    → has_idle_threads c ≡ true
    → c.cur_suber_num < c.max_suber_num
    → (args.cb_proc_evt == 0) ≡ false
    → args.evt_num ≤ length args.evt_ids
    → (c' : Context) × (rounds n args c ≡ ok (some (replicate n (success, success), c')))
      × (c'.cur_suber_num ≡ c.cur_suber_num)
      × IsValid c'
unfolding rounds
rounds_lem zero args c v idle room named enough = (c, refl, refl, v)
rounds_lem (suc n) args c v idle room named enough =
    elim (one_round args c v idle room named enough) [
      | both c1 c2 subs unsubs idle2 same max v2 ↦
          let (c3, runs, same3, v3) =
            rounds_lem n args c2 v2 idle2 (omega (arith, same, max)) named enough in
          (c3, rw (subs, unsubs, runs) refl, same3 ∙ same, v3)
    ]

-- ===== src/MemStat/Rounds.antt =====
-- How often the tool prints.
use freely_craft_codes.Prelude.{
  ℕ, zero, suc, ◌+◌, ◌-◌, ◌^◌, ◌<◌, ◌≤◌, ◌≡◌, refl, sym, subst, ap, ◌∙◌, Option, some, List, ◌∷◌,
  length, ◌==◌, if◌then◌else◌, ℕ_discrete, arith, [],
}
use freely_craft_codes.ThinkOs.{ulong}
use freely_craft_codes.MemStat.{
  Overview, statistic, trace_1, ToolContext, Arg, arg_s, arg_p, arg_t, arg_other, arg_d, arg_c,
  parse_args, Field, read_overview, main_loop, start,
}

module _ (scan : Field → List ℕ → Option ℕ) where
  -- With as much fuel as there are rounds, one more than `n` is printed, where `n` is what the
  -- counter holds after the first.
  loop_rounds :
      (meminfo : ℕ → Option (List (List ℕ))) (n fuel i : ℕ) (c : ToolContext)
      → n < fuel
      → ulong (c.stat_count + (2 ^ 64 - 1)) ≡ n
      → n < 2 ^ 64
      → (printed : List Overview) × (main_loop scan meminfo fuel i c ≡ some printed)
        × (length printed ≡ suc n)
  unfolding main_loop
  loop_rounds meminfo zero zero i c h left k = absurd (omega arith)
  loop_rounds meminfo (suc n) zero i c h left k = absurd (omega arith)
  loop_rounds meminfo zero (suc fuel) i c h left k =
      (read_overview scan (meminfo i) c.overview ∷ [], rw left refl, refl)
  loop_rounds meminfo (suc n) (suc fuel) i c h left k =
      let o = read_overview scan (meminfo i) c.overview in
      let c' : ToolContext = record c {
        overview = o;
        stat_count = ulong (c.stat_count + (2 ^ 64 - 1));
      } in
      let (printed, run, count) =
        loop_rounds meminfo n fuel (suc i) c' (omega arith) (omega (arith, left)) (omega arith) in
      (o ∷ printed, ground arith, ap suc count)

-- The number of rounds for a value of `StatCount`, which wraps at 0.
abbrev pub rounds_of : ℕ → ℕ
rounds_of count = if count == 0 then 2 ^ 64 else count

-- The last `-C`, or the given count.
abbrev pub last_count : List Arg → ℕ → ℕ
last_count [] count = count
last_count (arg_c n ∷ args) count = last_count args n
last_count (arg_s ∷ args) count = last_count args count
last_count (arg_p ∷ args) count = last_count args count
last_count (arg_t ∷ args) count = last_count args count
last_count (arg_other ∷ args) count = last_count args count
last_count (arg_d n ∷ args) count = last_count args count

parse_args-count :
    (args : List Arg) (c : ToolContext)
    → (parse_args args c).stat_count ≡ last_count args c.stat_count
unfolding parse_args
parse_args-count [] c = refl
parse_args-count (arg_s ∷ args) c =
    parse_args-count args (record c { stat_data_source = statistic })
parse_args-count (arg_t ∷ args) c = parse_args-count args (record c { stat_data_source = trace_1 })
parse_args-count (arg_d n ∷ args) c = parse_args-count args (record c { detail_level = n })
parse_args-count (arg_c n ∷ args) c = parse_args-count args (record c { stat_count = n })
parse_args-count (arg_p ∷ args) c = parse_args-count args c
parse_args-count (arg_other ∷ args) c = parse_args-count args c

module _ (scan : Field → List ℕ → Option ℕ) (meminfo : ℕ → Option (List (List ℕ))) where
  loop_counts :
      (fuel i : ℕ) (c : ToolContext)
      → c.stat_count < 2 ^ 64
      → rounds_of c.stat_count ≤ fuel
      → (printed : List Overview) × (main_loop scan meminfo fuel i c ≡ some printed)
        × (length printed ≡ rounds_of c.stat_count)
  loop_counts fuel i c h k = elim (ℕ_discrete c.stat_count 0) [
    | yes e ↦
        let whole : rounds_of c.stat_count ≡ 2 ^ 64 = ground arith in
        let (printed, run, n) =
          loop_rounds scan meminfo (2 ^ 64 - 1) fuel i c (omega (arith, whole)) (omega arith)
            (omega arith) in
        (printed, run, omega (arith, n, whole))
    | no ne ↦
        let same : rounds_of c.stat_count ≡ c.stat_count = ground arith in
        let (printed, run, n) =
          loop_rounds scan meminfo (c.stat_count - 1) fuel i c (omega (arith, same)) (omega arith)
            (omega arith) in
        (printed, run, omega (arith, n, same))
  ]

-- The tool ends after as many overviews as the last -C says, or one; -C0 makes 2 ^ 64 of them. The
-- fuel must be no less than that number, and what `atoi` gives fits `StatCount`.
pub main_loop-count :
    (scan : Field → List ℕ → Option ℕ) (meminfo : ℕ → Option (List (List ℕ))) (args : List Arg)
    (fuel : ℕ)
    → last_count args 1 < 2 ^ 64
    → rounds_of (last_count args 1) ≤ fuel
    → (printed : List Overview) × (main_loop scan meminfo fuel 0 (parse_args args start)
        ≡ some printed)
      × (length printed ≡ rounds_of (last_count args 1))
main_loop-count scan meminfo args fuel h k =
    let count = parse_args-count args start in
    let (printed, run, n) =
      loop_counts scan meminfo fuel 0 (parse_args args start)
        (subst (λ n. n < 2 ^ 64) (sym count) h) (subst (λ n. rounds_of n ≤ fuel) (sym count) k) in
    (printed, run, n ∙ ap rounds_of count)

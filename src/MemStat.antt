-- ===== src/MemStat.antt =====
-- The memory statistics tool Tools/tos-ebedmemstat.c. What `getopt` and `atoi` make of the
-- arguments, what each reading of /proc/meminfo holds and what `sscanf` reads of a line are given.
pub mod Rounds
pub mod Labels
mod Tests
use freely_craft_codes.Prelude.{
  ℕ, zero, suc, ◌+◌, ◌-◌, ◌^◌, Bool, true, false, ◌&&◌, Option, none, some, List, ◌∷◌, ◌==◌,
  if◌then◌else◌, [],
}
use freely_craft_codes.ThinkOs.{ulong}

-- `TOS_EMS_Overview_T`
pub record Overview : Type 0 where
  pub mem_total : ℕ
  pub mem_free : ℕ
  pub mem_available : ℕ
  pub buffers : ℕ
  pub cached : ℕ
  pub shmem : ℕ

-- `TOS_EMS_StatDataSource_T`
pub data StatDataSource : Type 0 where
  statistic trace_1 : StatDataSource

-- `TOS_EMS_ToolContext_T`
pub record ToolContext : Type 0 where
  pub stat_data_source : StatDataSource
  pub detail_level : ℕ
  pub stat_count : ℕ
  pub overview : Overview

-- What `getopt` returns, with the number that `atoi` reads, as the field it goes to holds it.
pub data Arg : Type 0 where
  arg_s arg_p arg_t arg_other : Arg
  arg_d arg_c : ℕ → Arg

-- `TOS_EMS_ParseArgs`
unfoldable pub parse_args : List Arg → ToolContext → ToolContext
parse_args [] c = c
parse_args (arg_s ∷ args) c = parse_args args (record c { stat_data_source = statistic })
parse_args (arg_t ∷ args) c = parse_args args (record c { stat_data_source = trace_1 })
parse_args (arg_d n ∷ args) c = parse_args args (record c { detail_level = n })
parse_args (arg_c n ∷ args) c = parse_args args (record c { stat_count = n })
parse_args (arg_p ∷ args) c = parse_args args c
parse_args (arg_other ∷ args) c = parse_args args c

-- The lines that the tool looks for.
pub data Field : Type 0 where
  of_total of_free of_available of_buffers of_cached of_shmem : Field

-- `strncmp(line, label, its length) == 0`, on bytes
abbrev pub starts_with : List ℕ → List ℕ → Bool
starts_with [] line = true
starts_with (x ∷ label) [] = false
starts_with (x ∷ label) (y ∷ line) = x == y && starts_with label line

-- "MemTotal:", "MemFree:", "MemAvailable:", "Buffers:", "Cached:" and "Shmem:"
abbrev pub label_of : Field → List ℕ
label_of of_total = 77 ∷ 101 ∷ 109 ∷ 84 ∷ 111 ∷ 116 ∷ 97 ∷ 108 ∷ 58 ∷ []
label_of of_free = 77 ∷ 101 ∷ 109 ∷ 70 ∷ 114 ∷ 101 ∷ 101 ∷ 58 ∷ []
label_of of_available = 77 ∷ 101 ∷ 109 ∷ 65 ∷ 118 ∷ 97 ∷ 105 ∷ 108 ∷ 97 ∷ 98 ∷ 108 ∷ 101 ∷ 58 ∷ []
label_of of_buffers = 66 ∷ 117 ∷ 102 ∷ 102 ∷ 101 ∷ 114 ∷ 115 ∷ 58 ∷ []
label_of of_cached = 67 ∷ 97 ∷ 99 ∷ 104 ∷ 101 ∷ 100 ∷ 58 ∷ []
label_of of_shmem = 83 ∷ 104 ∷ 109 ∷ 101 ∷ 109 ∷ 58 ∷ []

-- The chain of `else if`
unfoldable pub field_of : List ℕ → Option Field
field_of line =
    if starts_with (label_of of_total) line
    then some of_total
    else if starts_with (label_of of_free) line
    then some of_free
    else if starts_with (label_of of_available) line
    then some of_available
    else if starts_with (label_of of_buffers) line
    then some of_buffers
    else if starts_with (label_of of_cached) line
    then some of_cached
    else if starts_with (label_of of_shmem) line
    then some of_shmem
    else none

abbrev pub store : Field → ℕ → Overview → Overview
store of_total n o = record o { mem_total = n }
store of_free n o = record o { mem_free = n }
store of_available n o = record o { mem_available = n }
store of_buffers n o = record o { buffers = n }
store of_cached n o = record o { cached = n }
store of_shmem n o = record o { shmem = n }

module _ (scan : Field → List ℕ → Option ℕ) where
  unfoldable pub read_line : List ℕ → Overview → Overview
  unfolding field_of
  read_line line o = elim (field_of line) [
    | none ↦ o
    | some f ↦ elim (scan f line) [ none ↦ o | some n ↦ store f n o ]
  ]

  -- `TOS_EMS_ReadOverview`; `none` where the file cannot be opened.
  unfoldable pub read_overview : Option (List (List ℕ)) → Overview → Overview
  unfolding read_line
  read_overview none o = o
  read_overview (some []) o = o
  read_overview (some (line ∷ lines)) o = read_overview (some lines) (read_line line o)

  -- The loop of `main`: what it prints. `meminfo i` is what the i-th reading finds.
  unfoldable pub main_loop :
      (ℕ → Option (List (List ℕ))) → ℕ → ℕ → ToolContext → Option (List Overview)
  unfolding read_overview
  main_loop meminfo zero i c = none
  main_loop meminfo (suc fuel) i c =
      let o = read_overview (meminfo i) c.overview in
      let left = ulong (c.stat_count + (2 ^ 64 - 1)) in
      let rest = main_loop meminfo fuel (suc i) (record c { overview = o; stat_count = left }) in
      if left == 0
      then some (o ∷ [])
      else elim rest [ none ↦ none | some printed ↦ some (o ∷ printed) ]

-- The context that `main` starts with: what its initializer does not name is zero.
abbrev pub start : ToolContext
start = record {
  stat_data_source = statistic;
  detail_level = 0;
  stat_count = 1;
  overview = record {
    mem_total = 0;
    mem_free = 0;
    mem_available = 0;
    buffers = 0;
    cached = 0;
    shmem = 0;
  };
}

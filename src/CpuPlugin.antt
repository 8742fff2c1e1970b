-- ===== src/CpuPlugin.antt =====
-- The cpu plugin (plugins/mod_cpu/libcpu.c) on top of plugins/mod_cpu/cpu_data.c. `num_cpustates` is
-- static in cpu_data.h, so that cpu_data.c has one of its own, which stays 0. `none` stands for a
-- read through NULL, a loop without end, or an access outside an array.
pub mod Arrays
pub mod Rounds
pub mod Writes
pub mod Entry
mod Examples
use syswatcher.Base.{
  ℕ, zero, suc, ◌+◌, ◌-◌, ◌*◌, ◌%◌, ◌^◌, ◌≤◌, ◌<◌, ◌≡◌, Bool, true, false, ◌||◌, Option, none, some,
  List, [], ◌∷◌, ◌++◌, ◌==◌, if◌then◌else◌, ltb, leb, length, ℤ, pos, negsuc,
}
use syswatcher.Channel.{Str, CollectItem, PluginInfo}
use syswatcher.CString.{codes, starts_with, strcmp_eq}
use syswatcher.CpuData.{
  num_cpustates_of_cpu_data, skip_whitespace, skip_token, get_core_num, num_cpustates_func, Stat,
  Fraction, cpu_core_usage, core_user_usage, core_sys_usage, core_iowait_usage,
}
use syswatcher.Display.{decimal, m_float, m_int32, m_string}
use syswatcher.File.{Read, Timeval, TimelyFile, update_file}
use syswatcher.Plugin.{Quotient, Val, f, str, int32, Datum, set_data_collect, plugin_init_macro}
use syswatcher.PluginMgr.Param.{find_param}

-- An entry of core_stats, user_stats, sys_stats and iowait_stats.
pub record CoreStats : Type 0 where
  pub core_stat : Stat
  pub user_stat : Stat
  pub sys_stat : Stat
  pub iowait_stat : Stat

-- What a call of update_file meets: the time, whether the file opens, and what the reads give.
pub record Reading : Type 0 where
  pub now : Timeval
  pub opened : Bool
  pub reads : List Read

-- update_file, and the text that its result points to.
unfoldable pub read_again : Reading → TimelyFile → Option (TimelyFile × Str)
unfolding update_file
read_again r tf = elim (update_file r.now r.opened r.reads tf) [
  | none ↦ none
  | some tf' ↦ elim tf'.buffer [ none ↦ none | some b ↦ some (tf', b.text) ]
]

pub record CpuState : Type 0 where
  pub cpu_stat : TimelyFile
  pub cpuinfo : TimelyFile
  pub run_count : ℕ
  pub stats : List CoreStats

pub record CoreUsage : Type 0 where
  pub cpu_idle : Fraction
  pub cpu_user : Fraction
  pub cpu_sys : Fraction
  pub cpu_iowait : Fraction

-- The four usages of a core, in the order of the calls.
unfoldable pub core_usages : (core_idx : ℕ) → Str → CoreStats → Option (CoreUsage × CoreStats)
unfolding cpu_core_usage core_user_usage core_sys_usage core_iowait_usage
core_usages core_idx p s = elim (cpu_core_usage num_cpustates_of_cpu_data core_idx p s.core_stat) [
  | none ↦ none
  | some (idle, idle_stat) ↦
      elim (core_user_usage num_cpustates_of_cpu_data core_idx p s.user_stat) [
        | none ↦ none
        | some (user, user_stat) ↦
            elim (core_sys_usage num_cpustates_of_cpu_data core_idx p s.sys_stat) [
              | none ↦ none
              | some (sys, sys_stat) ↦
                  elim (core_iowait_usage num_cpustates_of_cpu_data core_idx p s.iowait_stat) [
                    | none ↦ none
                    | some (iowait, iowait_stat) ↦ some (
                      record {
                        cpu_idle = idle;
                        cpu_user = user;
                        cpu_sys = sys;
                        cpu_iowait = iowait;
                      },
                      record {
                        core_stat = idle_stat;
                        user_stat = user_stat;
                        sys_stat = sys_stat;
                        iowait_stat = iowait_stat;
                      },
                    )
                  ]
            ]
      ]
]

-- An access to an array; `none` past its end.
unfoldable pub entry {ℓ} : {A : Type ℓ} → ℕ → List A → Option A
entry n [] = none
entry zero (x ∷ xs) = some x
entry (suc n) (x ∷ xs) = entry n xs

unfoldable pub set_entry {ℓ} : {A : Type ℓ} → ℕ → A → List A → Option (List A)
set_entry n v [] = none
set_entry zero v (x ∷ xs) = some (v ∷ xs)
set_entry (suc n) v (x ∷ xs) = elim (set_entry n v xs) [ none ↦ none | some ys ↦ some (x ∷ ys) ]

-- "cpu%d" or "cpu total", and the kind of usage.
unfoldable pub usage_name : ℕ → Str → Str
unfolding decimal
usage_name core_idx kind =
    (if core_idx == 0 then codes "cpu total" else codes "cpu" ++ decimal 10 core_idx) ++ (32 ∷ kind)

abbrev pub percent : Fraction → Quotient
percent v = record { plus = 100 * v.part; minus = 0; den = v.whole }

-- 100.0 - cpu_idle
abbrev pub percent_left : Fraction → Quotient
percent_left v = record { plus = 100 * v.whole; minus = 100 * v.part; den = v.whole }

-- The four data of a core.
unfoldable pub core_data : ℕ → CoreUsage → List Datum
unfolding set_data_collect usage_name
core_data core_idx u =
    set_data_collect (usage_name core_idx (codes "usage")) (codes "%") m_float
      (f (percent_left u.cpu_idle))
    ∷ set_data_collect (usage_name core_idx (codes "user")) (codes "%") m_float
        (f (percent u.cpu_user))
    ∷ set_data_collect (usage_name core_idx (codes "system")) (codes "%") m_float
        (f (percent u.cpu_sys))
    ∷ set_data_collect (usage_name core_idx (codes "iowait")) (codes "%") m_float
        (f (percent u.cpu_iowait))
    ∷ []

-- The values are written from this index on.
unfoldable pub set_entries {ℓ} : {A : Type ℓ} → ℕ → List A → List A → Option (List A)
unfolding set_entry
set_entries i [] data_set = some data_set
set_entries i (v ∷ vs) data_set = elim (set_entry i v data_set) [
  | none ↦ none
  | some data_set' ↦ set_entries (i + 1) vs data_set'
]

abbrev pub data_per_core : ℕ
data_per_core = 4

-- One round of the loop over the cores.
unfoldable pub core_round :
    (first_run : Bool)
    → ℕ
    → Str
    → List CoreStats
    → List Datum
    → Option (List CoreStats × List Datum)
unfolding core_usages entry set_entry core_data set_entries
core_round first_run core_idx p stats data_set = elim (entry core_idx stats) [
  | none ↦ none
  | some s ↦ elim (core_usages core_idx p s) [
    | none ↦ none
    | some (u, s') ↦ elim (set_entry core_idx s' stats) [
      | none ↦ none
      | some stats' ↦
          elim (if first_run
            then some data_set
            else set_entries (core_idx * data_per_core) (core_data core_idx u) data_set) [
              | none ↦ none
              | some data_set' ↦ some (stats', data_set')
            ]
    ]
  ]
]

-- for (; core_idx < (corenum + 1); core_idx++), with `left` rounds to go
unfoldable pub core_loop :
    (left : ℕ) (first_run : Bool)
    → ℕ
    → Str
    → List CoreStats
    → List Datum
    → Option (List CoreStats × List Datum)
unfolding core_round
core_loop zero first_run core_idx p stats data_set = some (stats, data_set)
core_loop (suc left) first_run core_idx p stats data_set =
    elim (core_round first_run core_idx p stats data_set) [
      | none ↦ none
      | some (stats', data_set') ↦ core_loop left first_run (core_idx + 1) p stats' data_set'
    ]

-- The number of values, the values, and the plugin's state after a collection; `cores` is corenum + 1.
unfoldable pub cpu_data_collect :
    Reading → (cores : ℕ) → List Datum → CpuState → Option (ℕ × List Datum × CpuState)
unfolding core_loop read_again
cpu_data_collect reading cores data_set s = elim (read_again reading s.cpu_stat) [
  | none ↦ none
  | some (cpu_stat, p) ↦ elim (core_loop cores (s.run_count == 0) 0 p s.stats data_set) [
    | none ↦ none
    | some (stats', data_set') ↦ some (
      cores * data_per_core,
      data_set',
      record {
        cpu_stat = cpu_stat;
        cpuinfo = s.cpuinfo;
        run_count = (s.run_count + 1) % 2 ^ 64;
        stats = stats';
      },
    )
  ]
]

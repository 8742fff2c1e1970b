-- ===== src/CpuPlugin/Rounds.antt =====
-- What a round of cpu_data_collect of plugins/mod_cpu/libcpu.c writes.
use syswatcher.Base.{
  ℕ, ◌+◌, ◌*◌, ◌≤◌, ◌<◌, ◌≡◌, refl, Bool, true, false, some, List, ◌∷◌, ◌++◌, ◌==◌, if◌then◌else◌,
  length, length-append, arith, All, Option-cases, Bool-cases, inl, inr,
}
use syswatcher.Channel.{Str}
use syswatcher.CString.{codes}
use syswatcher.CpuData.{
  cpu_line, Stat, Fraction, column_usage, core_total_jiffies_func, cpu_core_usage, core_user_usage,
  core_sys_usage, core_iowait_usage,
}
use syswatcher.Display.{decimal, m_float}
use syswatcher.Display.Fits.{length-decimal}
use syswatcher.Plugin.{Quotient, Datum, IsDatum, set_data_collect, f}
use syswatcher.CpuPlugin.{
  CoreStats, CoreUsage, core_usages, entry, set_entry, set_entries, core_data, usage_name,
  core_round,
}
use syswatcher.CpuPlugin.Arrays.{entry-some, set_entry-some, set_entries-append}

-- The text of /proc/stat has a line for each of so many cores.
abbrev pub HasLines : ℕ → Str → Type 0
HasLines cores p = (i : ℕ) → i < cores → (q : Str) × (cpu_line (i + 1) p ≡ some q)

total-some :
    (n i : ℕ) (p q : Str)
    → cpu_line (i + 1) p ≡ some q
    → (total : ℕ) × (core_total_jiffies_func n i p ≡ some total)
unfolding core_total_jiffies_func
total-some n i p q e = elim (Option-cases (core_total_jiffies_func n i p)) [
  | inl fault ↦ absurd (ground arith)
  | inr (total, t) ↦ (total, t)
]

column-some :
    (skipped n i : ℕ) (p q : Str) (s : Stat)
    → cpu_line (i + 1) p ≡ some q
    → (v : Fraction) × (s' : Stat) × (column_usage skipped n i p s ≡ some (v, s'))
unfolding column_usage
column-some skipped n i p q s e =
    let (total, t) = total-some n i p q e in
    elim (Option-cases (column_usage skipped n i p s)) [
      | inl fault ↦ absurd (ground arith)
      | inr (r, found) ↦ (r.0, r.1, found)
    ]

sys-some :
    (n i : ℕ) (p q : Str) (s : Stat)
    → cpu_line (i + 1) p ≡ some q
    → (v : Fraction) × (s' : Stat) × (core_sys_usage n i p s ≡ some (v, s'))
unfolding core_sys_usage
sys-some n i p q s e =
    let (total, t) = total-some n i p q e in
    elim (Option-cases (core_sys_usage n i p s)) [
      | inl fault ↦ absurd (ground arith)
      | inr (r, found) ↦ (r.0, r.1, found)
    ]

core_usages-some :
    (i : ℕ) (p q : Str) (s : CoreStats)
    → cpu_line (i + 1) p ≡ some q
    → (u : CoreUsage) × (s' : CoreStats) × (core_usages i p s ≡ some (u, s'))
unfolding core_usages cpu_core_usage core_user_usage core_iowait_usage
core_usages-some i p q s e =
    let (idle, idle_stat, a) = column-some 4 0 i p q s.core_stat e in
    let (user, user_stat, b) = column-some 1 0 i p q s.user_stat e in
    let (sys, sys_stat, c) = sys-some 0 i p q s.sys_stat e in
    let (iowait, iowait_stat, d) = column-some 5 0 i p q s.iowait_stat e in
    elim (Option-cases (core_usages i p s)) [
      | inl fault ↦ absurd (ground arith)
      | inr (r, found) ↦ (r.0, r.1, found)
    ]

length-core_data : (i : ℕ) (u : CoreUsage) → length (core_data i u) ≡ 4
unfolding core_data
length-core_data i u = refl

length-usage_name : (i : ℕ) (kind : Str) → length kind ≤ 6 → length (usage_name i kind) < 32
unfolding usage_name
length-usage_name i kind h = elim (Bool-cases (i == 0)) [
  | inl first ↦ rw first (omega (arith))
  | inr other ↦ rw other (
      omega (
        arith,
        length-append (codes "cpu" ++ decimal 10 i) (32 ∷ kind),
        length-append (codes "cpu") (decimal 10 i),
        length-decimal 10 i,
      ))
]

percent-IsDatum :
    (i : ℕ) (kind : Str) (v : Quotient)
    → length kind ≤ 6
    → IsDatum (set_data_collect (usage_name i kind) (codes "%") m_float (f v))
unfolding set_data_collect
percent-IsDatum i kind v h = record {
  member = refl;
  name = length-usage_name i kind h;
  unit = omega arith;
}

core_data-IsDatum : (i : ℕ) (u : CoreUsage) → All IsDatum (core_data i u)
unfolding core_data
core_data-IsDatum i u = (
  percent-IsDatum i (codes "usage") _ (omega arith),
  (
    percent-IsDatum i (codes "user") _ (omega arith),
    (
      percent-IsDatum i (codes "system") _ (omega arith),
      (percent-IsDatum i (codes "iowait") _ (omega arith), tt),
    ),
  ),
)

round-parts :
    (first_run : Bool) (i : ℕ) (p : Str) (stats stats' : List CoreStats)
    (data_set data_set' : List Datum) (s s' : CoreStats) (u : CoreUsage)
    → entry i stats ≡ some s
    → core_usages i p s ≡ some (u, s')
    → set_entry i s' stats ≡ some stats'
    → (if first_run then some data_set else set_entries (i * 4) (core_data i u) data_set)
      ≡ some data_set'
    → core_round first_run i p stats data_set ≡ some (stats', data_set')
unfolding core_round
round-parts first_run i p stats stats' data_set data_set' s s' u a b c d =
    rw (a, core_round) (rw (b, core_round) (rw (c, core_round) (rw (d, core_round) refl)))

-- A round of the loop on the entries of a core, `old`, after those of the cores before it.
pub round-writes :
    (i : ℕ) (p q : Str) (stats : List CoreStats) (done old todo : List Datum)
    → cpu_line (i + 1) p ≡ some q
    → i < length stats
    → length done ≡ i * 4
    → length old ≡ 4
    → (stats' : List CoreStats) × (new : List Datum) × (core_round false i p stats
          (done ++ (old ++ todo))
        ≡ some (stats', done ++ (new ++ todo)))
      × (length stats' ≡ length stats)
      × (length new ≡ 4)
      × All IsDatum new
round-writes i p q stats done old todo line room at four =
    let (s, there) = entry-some i stats room in
    let (u, s', used) = core_usages-some i p q s line in
    let (stats', kept, l) = set_entry-some i s' stats room in
    let written =
      set_entries-append (core_data i u) old done todo (omega (arith, length-core_data i u)) in
    (
      stats',
      core_data i u,
      round-parts false i p stats stats' _ _ s s' u there used kept (rw (← at) written),
      l,
      length-core_data i u,
      core_data-IsDatum i u,
    )

pub round-first :
    (i : ℕ) (p q : Str) (stats : List CoreStats) (data_set : List Datum)
    → cpu_line (i + 1) p ≡ some q
    → i < length stats
    → (stats' : List CoreStats) × (core_round true i p stats data_set ≡ some (stats', data_set))
      × (length stats' ≡ length stats)
round-first i p q stats data_set line room =
    let (s, there) = entry-some i stats room in
    let (u, s', used) = core_usages-some i p q s line in
    let (stats', kept, l) = set_entry-some i s' stats room in
    (stats', round-parts true i p stats stats' data_set data_set s s' u there used kept refl, l)

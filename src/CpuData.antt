-- ===== src/CpuData.antt =====
-- plugins/mod_cpu/cpu_data.c and cpu_data.h, with skip_whitespace and skip_token of plugins/libs/file.c:
-- the usage of a core between two readings of /proc/stat. A counter is a number below 2^64, whose
-- differences wrap; a usage is an exact fraction of the whole, where the program rounds to a float.
-- `strtod` is used on decimal digits only. `none` is a read through NULL, or a loop without end.
pub mod Usage
pub mod Tokens
mod Examples
use syswatcher.Base.{
  ℕ, zero, suc, ◌+◌, ◌-◌, ◌*◌, ◌%◌, ◌^◌, ◌&&◌, ◌||◌, Bool, true, false, List, [], ◌∷◌, ◌++◌, Option,
  none, some, ◌==◌, if◌then◌else◌, ltb, leb, drop, length, ℤ, pos, pred_ℤ,
}
use syswatcher.Channel.{Str}
use syswatcher.CString.{codes, starts_with}

-- isspace, in the C locale.
unfoldable pub isspace : ℕ → Bool
isspace c = c == 32 || (leb 9 c && leb c 13)

unfoldable pub skip_whitespace : Str → Str
skip_whitespace [] = []
skip_whitespace (c ∷ s) = elim (isspace c) [ true ↦ skip_whitespace s | false ↦ c ∷ s ]

-- while (*p && !isspace(*p)) p++;
unfoldable pub skip_word : Str → Str
skip_word [] = []
skip_word (c ∷ s) = elim (isspace c) [ true ↦ c ∷ s | false ↦ skip_word s ]

unfoldable pub skip_token : Str → Str
skip_token p = skip_word (skip_whitespace p)

unfoldable pub is_digit : ℕ → Bool
is_digit c = leb b'0' c && leb c b'9'

-- The digits at the beginning, after a number read so far: the number, and what follows them.
unfoldable pub digits : ℕ → Str → ℕ × Str
digits n [] = (n, [])
digits n (c ∷ s) = elim (is_digit c) [ true ↦ digits (n * 10 + (c - b'0')) s | false ↦ (n, c ∷ s) ]

unfoldable pub strtod : Str → ℕ × Str
strtod p = digits 0 (skip_whitespace p)

-- What follows the first "cpu".
unfoldable pub after_cpu : Str → Option Str
after_cpu [] = none
after_cpu (c ∷ s) = elim (starts_with (codes "cpu") (c ∷ s)) [
  | true ↦ some (drop 3 (c ∷ s))
  | false ↦ after_cpu s
]

-- The loop to the line of a core: what follows so many of them.
unfoldable pub cpu_line : ℕ → Str → Option Str
cpu_line zero p = some p
cpu_line (suc n) p = elim (after_cpu p) [ none ↦ none | some q ↦ cpu_line n q ]

-- The rounds of get_core_num.
unfoldable pub count_cpu : (fuel : ℕ) → Str → ℕ
count_cpu zero p = 0
count_cpu (suc k) p = elim (after_cpu p) [ none ↦ 0 | some q ↦ count_cpu k q + 1 ]

unfoldable pub get_core_num : Str → ℤ
get_core_num stat = pred_ℤ (pos (count_cpu (length stat) stat))

-- The loop of num_cpustates_func; past the end of the text it has no end.
unfoldable pub count_states : (fuel i : ℕ) → Str → Option ℕ
count_states zero i p = none
count_states (suc k) i p = elim (starts_with (codes "cpu") p) [
  | true ↦ some i
  | false ↦ count_states k (i + 1) (skip_whitespace (skip_token p))
]

unfoldable pub num_cpustates_func : Str → Option ℕ
num_cpustates_func stat = count_states (length stat) 0 (skip_whitespace (skip_token stat))

-- So many numbers, one after the other.
unfoldable pub numbers : ℕ → Str → List ℕ
numbers zero p = []
numbers (suc n) p = let (v, q) = strtod p in v ∷ numbers n q

unfoldable pub sum : List ℕ → ℕ
sum [] = 0
sum (n ∷ ns) = (n + sum ns) % 2 ^ 64

-- `num_cpustates` as cpu_data.c sees it: a copy of its own, which nothing sets.
abbrev pub num_cpustates_of_cpu_data : ℕ
num_cpustates_of_cpu_data = 0

-- How many columns are added up.
unfoldable pub columns : (num_cpustates : ℕ) → ℕ
columns num_cpustates = if num_cpustates == 4 then 4 else if num_cpustates == 7 then 7 else 8

unfoldable pub core_total_jiffies_func : (num_cpustates core : ℕ) → Str → Option ℕ
core_total_jiffies_func num_cpustates core stat = elim (cpu_line (core + 1) stat) [
  | none ↦ none
  | some p ↦ some (sum (numbers (columns num_cpustates) (skip_token (codes "cpu" ++ p))))
]

-- struct core_stat, user_stat, sys_stat and iowait_stat.
pub record Stat : Type 0 where
  pub last : ℕ
  pub last_total : ℕ

-- part / whole; 100% is 1 / 1.
pub record Fraction : Type 0 where
  pub part : ℕ
  pub whole : ℕ

-- sanityCheck of a percentage that is not negative; to divide by 0 gives more than 100.
unfoldable pub sanity_check : Fraction → Fraction
sanity_check v = if ltb v.whole v.part then record { part = 1; whole = 1 } else v

-- The end of the four usage functions, from the value and the total that were read.
unfoldable pub usage : Stat → (now total : ℕ) → Fraction × Stat
usage s now total =
    let diff = (now + 2 ^ 64 - s.last) % 2 ^ 64 in
    let dt = (total + 2 ^ 64 - s.last_total) % 2 ^ 64 in
    let val =
      if diff == 0 then record { part = 0; whole = 1 } else record { part = diff; whole = dt } in
    (sanity_check val, record { last = now; last_total = total })

-- So many tokens are skipped.
unfoldable pub skip_tokens : ℕ → Str → Str
skip_tokens zero p = p
skip_tokens (suc n) p = skip_tokens n (skip_token p)

-- The column after so many tokens of the line of a core, and the total of the line.
unfoldable pub column_usage :
    (skipped num_cpustates core : ℕ) → Str → Stat → Option (Fraction × Stat)
column_usage skipped num_cpustates core stat s = elim (cpu_line (core + 1) stat) [
  | none ↦ none
  | some p ↦ elim (core_total_jiffies_func num_cpustates core stat) [
    | none ↦ none
    | some total ↦ some (usage s (strtod (skip_tokens skipped (codes "cpu" ++ p))).0 total)
  ]
]

unfoldable pub cpu_core_usage : (num_cpustates core : ℕ) → Str → Stat → Option (Fraction × Stat)
cpu_core_usage num_cpustates core stat s = column_usage 4 num_cpustates core stat s

unfoldable pub core_user_usage : (num_cpustates core : ℕ) → Str → Stat → Option (Fraction × Stat)
core_user_usage num_cpustates core stat s = column_usage 1 num_cpustates core stat s

-- The time in the system, with that of interrupts where the kernel counts it apart.
unfoldable pub sys_jiffies : (num_cpustates : ℕ) → Str → ℕ
sys_jiffies num_cpustates line =
    let p = skip_tokens 3 line in
    let jiffies = (strtod p).0 in
    let q = skip_tokens 3 p in
    if ltb 4 num_cpustates
    then (jiffies + ((strtod q).0 + (strtod (skip_token q)).0)) % 2 ^ 64
    else jiffies

unfoldable pub core_sys_usage : (num_cpustates core : ℕ) → Str → Stat → Option (Fraction × Stat)
core_sys_usage num_cpustates core stat s = elim (cpu_line (core + 1) stat) [
  | none ↦ none
  | some p ↦ elim (core_total_jiffies_func num_cpustates core stat) [
    | none ↦ none
    | some total ↦ some (usage s (sys_jiffies num_cpustates (codes "cpu" ++ p)) total)
  ]
]

unfoldable pub core_iowait_usage : (num_cpustates core : ℕ) → Str → Stat → Option (Fraction × Stat)
core_iowait_usage num_cpustates core stat s =
    if num_cpustates == 4
    then some (record { part = 0; whole = 1 }, s)
    else column_usage 5 num_cpustates core stat s

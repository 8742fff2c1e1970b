-- ===== src/Temperature.antt =====
-- The temperature plugin (plugins/mod_temp/libtemp.c): the search for the sensor of the processor
-- among the entries of /sys/class/hwmon, and the reading of its temperature. The file system is an
-- argument; `none` stands for a write past an array, or a loop that does not end.
pub mod Search
pub mod Reading
pub mod Entry
mod Examples
use syswatcher.Base.{
  ℕ, zero, suc, ◌+◌, ◌-◌, ◌*◌, ◌/◌, Bool, true, false, ◌&&◌, ◌||◌, not, Option, none, some, List,
  [], ◌∷◌, ◌++◌, ◌==◌, if◌then◌else◌, ltb, length, take, ℤ, pos, negsuc,
}
use syswatcher.Channel.{Str}
use syswatcher.CString.{codes, strncmp_eq}
use syswatcher.CpuData.{skip_whitespace, digits}
use syswatcher.Display.{decimal, m_int32}
use syswatcher.Plugin.{Datum, set_data_collect, int32}

-- access(path, F_OK) == 0, access(path, R_OK) == 0, and what open and read give for a path.
pub record Sysfs : Type 0 where
  pub exists : Str → Bool
  pub readable : Str → Bool
  pub contents : Str → Option Str

abbrev pub hwmon_count : ℕ
hwmon_count = 128

-- "/sys/class/hwmon/hwmon%d"
unfoldable pub hwmon_path : ℕ → Str
unfolding decimal
hwmon_path count = codes "/sys/class/hwmon/hwmon" ++ decimal 10 count

-- The paths that find_entry stores from entry `count` on, with so many rounds at most.
unfoldable pub find_entry : (fuel : ℕ) → Sysfs → (count : ℕ) → Option (List Str)
unfolding hwmon_path
find_entry zero fs count = none
find_entry (suc fuel) fs count = elim (fs.exists (hwmon_path count)) [
  | false ↦ some []
  | true ↦ elim (ltb count hwmon_count) [
    | false ↦ none
    | true ↦ elim (find_entry fuel fs (count + 1)) [
      | none ↦ none
      | some paths ↦ some (hwmon_path count ∷ paths)
    ]
  ]
]

-- The test of the name; true stands for the result 0. The read does not fail, and what it leaves of
-- the array as it was is not taken for a part of the name.
unfoldable pub find_cputemp_entry : Sysfs → Str → Bool
unfolding strncmp_eq
find_cputemp_entry fs hwmon_entry = elim (fs.contents (hwmon_entry ++ codes "/name")) [
  | none ↦ false
  | some name ↦
      let hwmon_name = take 16 name in
      if length hwmon_name == 0
      then false
      else strncmp_eq 8 hwmon_name (codes "coretemp") || strncmp_eq 9 hwmon_name (codes "cpu-hwmon")
]

-- The loop of the init function: the first entry that is the processor's.
unfoldable pub first_cputemp : Sysfs → List Str → Option Str
unfolding find_cputemp_entry
first_cputemp fs [] = none
first_cputemp fs (path ∷ paths) = elim (find_cputemp_entry fs path) [
  | true ↦ some (path ++ codes "/temp1_input")
  | false ↦ first_cputemp fs paths
]

-- cputemp_entry after PLUGIN_ENTRY(temp, plugin_info); it is empty if there is none.
unfoldable pub temp_init : Sysfs → Option Str
unfolding find_entry first_cputemp
temp_init fs = elim (find_entry (hwmon_count + 1) fs 0) [
  | none ↦ none
  | some paths ↦ elim (first_cputemp fs paths) [ none ↦ some [] | some path ↦ some path ]
]

-- -n
abbrev pub negated : ℕ → ℤ
negated zero = pos 0
negated (suc n) = negsuc n

-- atoi(s)/1000, on a number that fits an int; the quotient is cut towards 0.
unfoldable pub thousandth : Str → ℤ
unfolding skip_whitespace digits
thousandth s = elim (skip_whitespace s) [
  | [] ↦ pos 0
  | c ∷ rest ↦
      if c == b'-'
      then negated ((digits 0 rest).0 / 1000)
      else if c == b'+'
      then pos ((digits 0 rest).0 / 1000)
      else pos ((digits 0 (c ∷ rest)).0 / 1000)
]

unfoldable pub temperature_collect : Sysfs → Str → List Datum
unfolding thousandth set_data_collect
temperature_collect fs cputemp_entry =
    let temp : ℤ =
      if fs.readable cputemp_entry
      then elim (fs.contents cputemp_entry) [ none ↦ pos 0 | some text ↦ thousandth (take 32 text) ]
      else pos 0 in
    set_data_collect (codes "cpu_temp") (codes "C") m_int32 (int32 temp) ∷ []

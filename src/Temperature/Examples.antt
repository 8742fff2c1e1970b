-- ===== src/Temperature/Examples.antt =====
-- The temperature plugin with two sensors, the second of them the processor's.
use syswatcher.Base.{
  ℕ, zero, suc, ◌<◌, ◌≡◌, refl, true, false, ◌||◌, some, [], ◌∷◌, ◌++◌, arith, if◌then◌else◌,
}
use syswatcher.CString.{codes, strcmp_eq}
use syswatcher.Display.{decimal}
use syswatcher.Temperature.{Sysfs, hwmon_path, find_cputemp_entry, temp_init}
use syswatcher.Temperature.Search.{HasEntries, temp_init-finds}

abbrev two_sensors : Sysfs
two_sensors = record {
  exists = λ path.
      strcmp_eq path (codes "/sys/class/hwmon/hwmon0")
      || strcmp_eq path (codes "/sys/class/hwmon/hwmon1");
  readable = λ path. true;
  contents = λ path.
      if strcmp_eq path (codes "/sys/class/hwmon/hwmon0/name")
      then some (codes "acpitz" ++ 10 ∷ [])
      else if strcmp_eq path (codes "/sys/class/hwmon/hwmon1/name")
      then some (codes "coretemp" ++ 10 ∷ [])
      else some (codes "48500" ++ 10 ∷ []);
}

two_sensors-HasEntries : HasEntries two_sensors 2
unfolding hwmon_path strcmp_eq decimal
two_sensors-HasEntries = record { there = there; no_more = refl }
  where
    there : (i : ℕ) → i < 2 → two_sensors.exists (hwmon_path i) ≡ true
    there zero h = refl
    there (suc zero) h = refl
    there (suc (suc i)) h = absurd (omega arith)

not_the_first : (j : ℕ) → j < 1 → find_cputemp_entry two_sensors (hwmon_path j) ≡ false
unfolding hwmon_path strcmp_eq decimal find_cputemp_entry
not_the_first zero h = refl
not_the_first (suc j) h = absurd (omega arith)

the_second : find_cputemp_entry two_sensors (hwmon_path 1) ≡ true
unfolding hwmon_path strcmp_eq decimal find_cputemp_entry
the_second = refl

temp_init-finds_example : temp_init two_sensors ≡ some (hwmon_path 1 ++ codes "/temp1_input")
temp_init-finds_example =
    temp_init-finds two_sensors 2 1 two_sensors-HasEntries (omega arith) (omega arith) the_second
      not_the_first

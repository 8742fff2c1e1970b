-- ===== src/Temperature/Search.antt =====
-- Which sensor the init function of plugins/mod_temp/libtemp.c finds.
use syswatcher.Base.{
  ℕ, zero, suc, ◌+◌, ◌-◌, ◌≤◌, ◌<◌, ◌≡◌, refl, ap, ◌∙◌, true, false, none, some, List, [], ◌∷◌,
  ◌++◌, arith, ltb,
}
use syswatcher.Channel.{Str}
use syswatcher.CString.{codes}
use syswatcher.Temperature.{
  Sysfs, hwmon_count, hwmon_path, find_entry, find_cputemp_entry, first_cputemp, temp_init,
}

-- The entries of the directory are those from 0 to n - 1.
pub record HasEntries (fs : Sysfs) (n : ℕ) : Type 0 where
  pub there : (i : ℕ) → i < n → fs.exists (hwmon_path i) ≡ true
  pub no_more : fs.exists (hwmon_path n) ≡ false

-- The paths of so many entries from number `i` on.
unfoldable pub paths : (left i : ℕ) → List Str
paths zero i = []
paths (suc left) i = hwmon_path i ∷ paths left (i + 1)

find_entry-paths :
    (left fuel i n : ℕ) (fs : Sysfs)
    → HasEntries fs n
    → n ≡ i + left
    → n ≤ hwmon_count
    → left < fuel
    → find_entry fuel fs i ≡ some (paths left i)
unfolding find_entry paths
find_entry-paths left zero i n fs h e few lt = absurd (omega arith)
find_entry-paths zero (suc fuel) i n fs h e few lt =
    let same : i ≡ n = omega arith in
    let ends : fs.exists (hwmon_path i) ≡ false =
      ap (λ (k : ℕ). fs.exists (hwmon_path k)) same ∙ h.no_more in
    rw (ends, find_entry) refl
find_entry-paths (suc left) (suc fuel) i n fs h e few lt =
    let ih = find_entry-paths left fuel (i + 1) n fs h (omega arith) few (omega arith) in
    let is = h.there i (omega arith) in
    let fits : ltb i hwmon_count ≡ true = ground arith in
    rw (is, find_entry) (rw (fits, find_entry) (rw (ih, find_entry) refl))

-- With an entry past the last place of the array, the paths are written past it.
find_entry-past :
    (left fuel i : ℕ) (fs : Sysfs)
    → ((j : ℕ) → j ≤ hwmon_count → fs.exists (hwmon_path j) ≡ true)
    → hwmon_count ≡ i + left
    → find_entry fuel fs i ≡ none
unfolding find_entry
find_entry-past left zero i fs h e = refl
find_entry-past zero (suc fuel) i fs h e =
    let is = h i (omega arith) in
    let full : ltb i hwmon_count ≡ false = ground arith in
    rw (is, find_entry) (rw (full, find_entry) refl)
find_entry-past (suc left) (suc fuel) i fs h e =
    let ih = find_entry-past left fuel (i + 1) fs h (omega arith) in
    let is = h i (omega arith) in
    let fits : ltb i hwmon_count ≡ true = ground arith in
    rw (is, find_entry) (rw (fits, find_entry) (rw (ih, find_entry) refl))

first-skipped :
    (skip left i : ℕ) (fs : Sysfs)
    → ((j : ℕ) → j < i + skip → find_cputemp_entry fs (hwmon_path j) ≡ false)
    → first_cputemp fs (paths (skip + left) i) ≡ first_cputemp fs (paths left (i + skip))
unfolding paths first_cputemp
first-skipped zero left i fs h =
    ap (first_cputemp fs) (ap (λ (k : ℕ). paths k i) (omega arith) ∙ ap (paths left) (omega arith))
first-skipped (suc skip) left i fs h =
    let ih = first-skipped skip left (i + 1) fs (λ j lt. h j (omega arith)) in
    let not_this = h i (omega arith) in
    let long : suc skip + left ≡ suc (skip + left) = omega arith in
    let next : i + 1 + skip ≡ i + suc skip = omega arith in
    rw (long, ← next) (rw (not_this, first_cputemp) ih)

first-found :
    (left i : ℕ) (fs : Sysfs)
    → find_cputemp_entry fs (hwmon_path i) ≡ true
    → first_cputemp fs (paths (suc left) i) ≡ some (hwmon_path i ++ codes "/temp1_input")
unfolding paths first_cputemp
first-found left i fs is = rw (is, first_cputemp) refl

init-parts :
    (fs : Sysfs) (found : List Str) (path : Str)
    → find_entry (hwmon_count + 1) fs 0 ≡ some found
    → first_cputemp fs found ≡ some path
    → temp_init fs ≡ some path
unfolding temp_init
init-parts fs found path a b = rw (a, temp_init) (rw (b, temp_init) refl)

-- Where the directory has the entries 0 to n - 1, at most 128 of them, and number k is the first
-- that names a sensor of the processor, the init function takes the temperature of that entry.
pub temp_init-finds :
    (fs : Sysfs) (n k : ℕ)
    → HasEntries fs n
    → n ≤ hwmon_count
    → k < n
    → find_cputemp_entry fs (hwmon_path k) ≡ true
    → ((j : ℕ) → j < k → find_cputemp_entry fs (hwmon_path j) ≡ false)
    → temp_init fs ≡ some (hwmon_path k ++ codes "/temp1_input")
temp_init-finds fs n k h few lt is first =
    let all : find_entry (hwmon_count + 1) fs 0 ≡ some (paths n 0) =
      find_entry-paths n (hwmon_count + 1) 0 n fs h (omega arith) few (omega arith) in
    let parts : n ≡ k + suc (n - suc k) = omega arith in
    let skipped = first-skipped k (suc (n - suc k)) 0 fs (λ j l. first j (omega arith)) in
    let same : 0 + k ≡ k = omega arith in
    let found = first-found (n - suc k) k fs is in
    init-parts fs (paths n 0) (hwmon_path k ++ codes "/temp1_input") all (
      ap (λ (m : ℕ). first_cputemp fs (paths m 0)) parts
      ∙ (skipped ∙ (ap (λ (m : ℕ). first_cputemp fs (paths (suc (n - suc k)) m)) same ∙ found)))

-- With an entry number 128, the init function writes past its array of paths.
pub temp_init_overflow :
    (fs : Sysfs)
    → ((j : ℕ) → j ≤ hwmon_count → fs.exists (hwmon_path j) ≡ true)
    → temp_init fs ≡ none
unfolding temp_init
temp_init_overflow fs h =
    let past : find_entry (hwmon_count + 1) fs 0 ≡ none =
      find_entry-past hwmon_count (hwmon_count + 1) 0 fs h (omega arith) in
    rw (past, temp_init) refl

-- ===== src/Disk.antt =====
-- The disk plugin (plugins/mod_disk/libdisk.c): the pass over /proc/mounts and the three
-- data of its item. The sums that C keeps as doubles are exact here. The allocator, statvfs and the
-- text of /proc/mounts are the environment.
pub mod Mounts
pub mod Totals
pub mod Usage
pub mod Entry
mod Examples
use syswatcher.Base.{
  ℕ, zero, suc, ◌+◌, ◌-◌, ◌*◌, ◌%◌, ◌^◌, Bool, true, false, ◌&&◌, ◌||◌, not, Option, none, some,
  List, [], ◌∷◌, ◌++◌, ◌==◌, ltb, if◌then◌else◌, has,
}
use syswatcher.Channel.{Str}
use syswatcher.CString.{codes, strncmp_eq, starts_with, strcmp_eq}
use syswatcher.Display.{m_double}
use syswatcher.Plugin.{Quotient, Datum, d}
use syswatcher.DeviceTable.{DfState, seen_before, df_cleanup}

-- What statvfs fills in, of the fields that are read.
pub record Statvfs : Type 0 where
  pub f_bsize : ℕ
  pub f_blocks : ℕ
  pub f_bavail : ℕ

-- Does the n-th allocation succeed? What does statvfs answer for a mount point, and what is in
-- /proc/mounts, if it opens?
pub record DiskEnv : Type 0 where
  pub alloc : ℕ → Bool
  pub statvfs : Str → Option Statvfs
  pub proc_mounts : Option Str

unfoldable pub remote_mount : Str → Str → Bool
unfolding strcmp_eq strncmp_eq starts_with
remote_mount device kind =
    has b':' device
    || strcmp_eq kind (codes "smbfs") && starts_with (codes "//") device
    || strncmp_eq 3 kind (codes "nfs")
    || strcmp_eq kind (codes "autofs")
    || strcmp_eq kind (codes "gfs")
    || strcmp_eq kind (codes "none")

-- A percentage (blocks - bavail) / blocks * 100, with blocks > 0.
pub record Percent : Type 0 where
  pub blocks : ℕ
  pub bavail : ℕ

abbrev pub zero_percent : Percent
zero_percent = record { blocks = 1; bavail = 1 }

-- p < q, multiplied out
abbrev pub percent_lt : Percent → Percent → Bool
percent_lt p q = ltb (q.bavail * p.blocks) (p.bavail * q.blocks)

pub record Space : Type 0 where
  pub size : ℕ
  pub free : ℕ

unfoldable pub percent_of : Statvfs → Percent
percent_of fs =
    if fs.f_blocks == 0
    then zero_percent
    else (record { blocks = fs.f_blocks; bavail = fs.f_bavail })

unfoldable pub add_space : Statvfs → Space → Space
add_space fs t = record {
  size = t.size + fs.f_blocks * fs.f_bsize;
  free = t.free + fs.f_bavail * fs.f_bsize;
}

unfoldable pub device_space : DiskEnv → Str → Str → Space → DfState → Percent × Space × DfState
unfolding seen_before percent_of add_space
device_space env mount device t s =
    let (seen, s') = seen_before env.alloc device s in
    if seen then (zero_percent, t, s') else elim (env.statvfs mount) [
      | none ↦ (zero_percent, t, s')
      | some fs ↦ (percent_of fs, add_space fs t, s')
    ]

-- The lines that fgets reads with a buffer of `n + 1` bytes; `room` bytes are left in it.
unfoldable pub fgets_lines : ℕ → ℕ → Str → Str → List Str
fgets_lines n room line [] = elim line [ [] ↦ [] | c ∷ cs ↦ (c ∷ cs) ∷ [] ]
fgets_lines n room line (c ∷ s) = elim (c == 10 || ltb room 2) [
  | true ↦ (line ++ c ∷ []) ∷ fgets_lines n n [] s
  | false ↦ fgets_lines n (room - 1) (line ++ c ∷ []) s
]

-- What stands before the first space and after it.
unfoldable pub split_space : Str → Option (Str × Str)
split_space [] = none
split_space (c ∷ s) =
    if c == 32
    then some ([], s)
    else elim (split_space s) [ none ↦ none | some (word, rest) ↦ some (c ∷ word, rest) ]

pub record Mount : Type 0 where
  pub device : Str
  pub mount : Str
  pub kind : Str
  pub mode : Str

unfoldable pub parse_mount : Str → Option Mount
unfolding split_space
parse_mount line = elim (split_space line) [
  | none ↦ none
  | some (device, rest) ↦ elim (split_space rest) [
    | none ↦ none
    | some (mount, rest') ↦ elim (split_space rest') [
      | none ↦ none
      | some (kind, mode) ↦ some (record {
        device = device;
        mount = mount;
        kind = kind;
        mode = elim (split_space mode) [ none ↦ mode | some (word, other) ↦ word ];
      })
    ]
  ]
]

-- Does the body of the loop reach device_space?
unfoldable pub counts_mount : Mount → Bool
unfolding remote_mount strncmp_eq
counts_mount m =
    not (strncmp_eq 2 m.mode (codes "ro"))
    && not (remote_mount m.device m.kind)
    && (strncmp_eq 5 m.device (codes "/dev/") || strncmp_eq 6 m.device (codes "/dev2/"))

-- if (!max || max < thispct) max = thispct;
unfoldable pub raise_max : Percent → Percent → Percent
raise_max max thispct = if max.bavail == max.blocks || percent_lt max thispct then thispct else max

unfoldable pub mounts_loop :
    DiskEnv → List Str → Percent → Space → DfState → Percent × Space × DfState
unfolding parse_mount counts_mount device_space raise_max
mounts_loop env [] max t s = (max, t, s)
mounts_loop env (line ∷ lines) max t s = elim (parse_mount line) [
  | none ↦ mounts_loop env lines max t s
  | some m ↦ elim (counts_mount m) [
    | false ↦ mounts_loop env lines max t s
    | true ↦
        let (thispct, t', s') = device_space env m.mount m.device t s in
        mounts_loop env lines (raise_max max thispct) t' s'
  ]
]

-- The totals are given back in bytes; `reported_units` divides them.
-- double reported_units = 1e6
abbrev pub reported_units : ℕ
reported_units = 1_000_000

-- A number of bytes by a divisor.
abbrev pub divided : (divisor : ℕ) → ℕ → Quotient
divided divisor n = record { plus = n; minus = 0; den = divisor }

-- *total_size and *total_free, divided.
pub record TotalSpace : Type 0 where
  pub total_size : Quotient
  pub total_free : Quotient

abbrev pub totals_by : (divisor : ℕ) → Space → TotalSpace
totals_by divisor t = record {
  total_size = divided divisor t.size;
  total_free = divided divisor t.free;
}

-- Without /proc/mounts the totals stay as they are.
unfoldable pub find_disk_space : DiskEnv → Space → DfState → Percent × TotalSpace × DfState
unfolding mounts_loop fgets_lines df_cleanup
find_disk_space env t s = elim env.proc_mounts [
  | none ↦ (zero_percent, totals_by 1 t, s)
  | some text ↦
      let (max, t', s') = mounts_loop env (fgets_lines 1023 1023 [] text) zero_percent t s in
      (max, totals_by reported_units t', df_cleanup s')
]

-- (100.0 * (total_size - total_free)) / total_size; the two have the same divisor, which cancels out.
abbrev pub usage_of : TotalSpace → Quotient
usage_of t = record {
  plus = 100 * t.total_size.plus;
  minus = 100 * t.total_free.plus;
  den = t.total_size.plus;
}

unfoldable pub disk_data_collect : DiskEnv → DfState → List Datum × DfState
unfolding find_disk_space
disk_data_collect env s =
    let (max, t, s') = find_disk_space env (record { size = 0; free = 0 }) s in
    (
      (record { name = codes "disk total"; unit = codes "MB"; t = m_double; val = d t.total_size })
          ∷ (record {
            name = codes "disk free";
            unit = codes "MB";
            t = m_double;
            val = d t.total_free;
          })
          ∷ (record {
            name = codes "disk usage";
            unit = codes "%";
            t = m_double;
            val = d (usage_of t);
          })
          ∷ [],
      s',
    )

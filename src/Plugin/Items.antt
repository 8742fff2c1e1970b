-- ===== src/Plugin/Items.antt =====
-- The values of each item: plugins/mod_cpu/libcpu.c, plugins/mod_disk/libdisk.c,
-- plugins/mod_memory/libmemory.c, plugins/mod_temp/libtemp.c and plugins/mod_sysinfo/libsysinfo.c.
use syswatcher.Base.{
  ℕ, ◌*◌, ◌≤◌, ◌<◌, ◌≡◌, refl, Option, some, List, [], ◌∷◌, arith, length, All, inl, inr,
  Option-cases, Bool-cases, ltb, subst, ℤ, ◌∙◌,
}
use syswatcher.Channel.{Str}
use syswatcher.CString.{codes}
use syswatcher.CpuData.{get_core_num}
use syswatcher.Display.{m_string}
use syswatcher.File.{TimelyFile}
use syswatcher.CpuPlugin.{Reading, read_again, CpuState, cpu_data_collect, data_per_core}
use syswatcher.CpuPlugin.Entry.{cpu_spec_collect, find_cpuname, spec_data, shown_name}
use syswatcher.CpuPlugin.Rounds.{HasLines}
use syswatcher.CpuPlugin.Writes.{cpu_data_collect-writes}
use syswatcher.DeviceTable.{DfState}
use syswatcher.Disk.{DiskEnv, disk_data_collect}
use syswatcher.Memory.{memory_information, mem_info, memory_data, MemoryInfo}
use syswatcher.Plugin.{str, Datum, IsDatum, set_data_collect}
use syswatcher.SysInfo.{os_release_collect, bios_release_collect, set_text, after_colon}
use syswatcher.Temperature.{Sysfs, temperature_collect}

-- The unit of an entry that a plugin does not set.
abbrev pub UnitFits : Datum → Type 0
UnitFits v = length v.unit < 16

-- So many values, each of which has its type and fits.
abbrev pub Written : ℕ → List Datum → Type 0
Written n values = (length values ≡ n) × All IsDatum values

spec_data-Written : (name : Str) (cores : ℤ) → length name < 128 → Written 2 (spec_data name cores)
unfolding spec_data
spec_data-Written name cores short = (
  refl,
  (
    record { member = (refl, short); name = omega arith; unit = omega arith },
    (record { member = refl; name = omega arith; unit = omega arith }, tt),
  ),
)

pub cpu_spec-Written :
    (of_stat of_cpuinfo : Reading) (n : ℕ) (values : List Datum) (s s' : CpuState)
    → cpu_spec_collect of_stat of_cpuinfo s ≡ some (n, values, s')
    → Written 2 values
unfolding cpu_spec_collect
cpu_spec-Written of_stat of_cpuinfo n values s s' e =
    elim (Option-cases (read_again of_stat s.cpu_stat)) [
      | inl fault ↦ absurd (ground arith)
      | inr (stat, a) ↦ elim (Option-cases (read_again of_cpuinfo s.cpuinfo)) [
        | inl fault ↦ absurd (ground arith)
        | inr (info, b) ↦ elim (Option-cases (find_cpuname info.1)) [
          | inl fault ↦ absurd (ground arith)
          | inr (found, c) ↦ elim (Bool-cases (ltb 127 (length (shown_name found.0)))) [
            | inl long ↦ absurd (ground arith)
            | inr short ↦
                let same : values ≡ spec_data (shown_name found.0) (get_core_num stat.1) =
                  ground arith in
                rw same
                  (spec_data-Written (shown_name found.0) (get_core_num stat.1) (ground arith))
          ]
        ]
      ]
    ]

pub disk-Written : (env : DiskEnv) (s : DfState) → Written 3 (disk_data_collect env s).0
unfolding disk_data_collect
disk-Written env s = (
  refl,
  (
    record { member = refl; name = omega arith; unit = omega arith },
    (
      record { member = refl; name = omega arith; unit = omega arith },
      (record { member = refl; name = omega arith; unit = omega arith }, tt),
    ),
  ),
)

memory_data-Written : (mem : MemoryInfo) → Written 4 (memory_data mem)
unfolding memory_data
memory_data-Written mem = (
  refl,
  (
    record { member = refl; name = omega arith; unit = omega arith },
    (
      record { member = refl; name = omega arith; unit = omega arith },
      (
        record { member = refl; name = omega arith; unit = omega arith },
        (record { member = refl; name = omega arith; unit = omega arith }, tt),
      ),
    ),
  ),
)

pub memory-Written :
    (text : Option Str) (values : List Datum)
    → memory_information text ≡ some values
    → Written 4 values
unfolding memory_information
memory-Written text values e = elim (Option-cases (mem_info text)) [
  | inl fault ↦ absurd (ground arith)
  | inr (mem, found) ↦
      let same : values ≡ memory_data mem = ground arith in rw same (memory_data-Written mem)
]

pub temperature-Written : (fs : Sysfs) (path : Str) → Written 1 (temperature_collect fs path)
unfolding temperature_collect set_data_collect
temperature-Written fs path =
    (refl, (record { member = refl; name = omega arith; unit = omega arith }, tt))

set_text-IsDatum :
    (name text : Str) (v v' : Datum)
    → length name < 32
    → UnitFits v
    → set_text name text v ≡ some v'
    → IsDatum v'
unfolding set_text
set_text-IsDatum name text v v' fits unit e = elim (Bool-cases (ltb 127 (length text))) [
  | inl long ↦ absurd (ground arith)
  | inr short ↦
      let same : v' ≡ record { name = name; unit = v.unit; t = m_string; val = str text } =
        ground arith in
      rw same (record { member = (refl, ground arith); name = fits; unit = unit })
]

pub os-Written :
    (name version : Option Str) (v w : Datum) (values : List Datum)
    → UnitFits v
    → UnitFits w
    → os_release_collect name version (v ∷ w ∷ []) ≡ some values
    → Written 2 values
unfolding os_release_collect
os-Written name version v w values fits fits' e = elim (Option-cases (after_colon name)) [
  | inl fault ↦ absurd (ground arith)
  | inr (n, first) ↦ elim (Option-cases (after_colon version)) [
    | inl fault ↦ absurd (ground arith)
    | inr (r, second) ↦ elim (Option-cases (set_text (codes "distributor") n v)) [
      | inl fault ↦ absurd (ground arith)
      | inr (v', a) ↦ elim (Option-cases (set_text (codes "version") r w)) [
        | inl fault ↦ absurd (ground arith)
        | inr (w', b) ↦
            let same : values ≡ v' ∷ w' ∷ [] = ground arith in
            let one = set_text-IsDatum (codes "distributor") n v v' (omega arith) fits a in
            let two = set_text-IsDatum (codes "version") r w w' (omega arith) fits' b in
            rw same (refl, (one, (two, tt)))
      ]
    ]
  ]
]

pub bios-Written :
    (dmidecode_val : Str) (v : Datum) (values : List Datum)
    → UnitFits v
    → bios_release_collect dmidecode_val (v ∷ []) ≡ some values
    → Written 1 values
unfolding bios_release_collect
bios-Written dmidecode_val v values fits e =
    elim (Option-cases (set_text (codes "BIOS Revision") dmidecode_val v)) [
      | inl fault ↦ absurd (ground arith)
      | inr (v', a) ↦
          let same : values ≡ v' ∷ [] = ground arith in
          let one =
            set_text-IsDatum (codes "BIOS Revision") dmidecode_val v v' (omega arith) fits a in
          rw same (refl, (one, tt))
    ]

pub cpu-Written :
    (reading : Reading) (cores n : ℕ) (p : Str) (tf : TimelyFile) (block values : List Datum)
    (s s' : CpuState)
    → read_again reading s.cpu_stat ≡ some (tf, p)
    → HasLines cores p
    → cores ≤ length s.stats
    → length block ≡ cores * data_per_core
    → 0 < s.run_count
    → cpu_data_collect reading cores block s ≡ some (n, values, s')
    → Written (cores * data_per_core) values
cpu-Written reading cores n p tf block values s s' got_ lines room long later e =
    let (values', stats', runs, kept, same_long, written) =
      cpu_data_collect-writes reading cores p tf block s got_ lines room long in
    let same : values' ≡ values = ground arith in
    subst (Written (cores * data_per_core)) same (elim written [
      | inl (first, unwritten) ↦ absurd (omega arith)
      | inr (more, are) ↦ (same_long ∙ long, are)
    ])

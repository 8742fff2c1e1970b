-- ===== src/Plugin/Typed.antt =====
-- The values that the plugins write: plugins/mod_cpu/libcpu.c, plugins/mod_disk/libdisk.c,
-- plugins/mod_memory/libmemory.c, plugins/mod_temp/libtemp.c and plugins/mod_sysinfo/libsysinfo.c.
use syswatcher.Base.{ℕ, ◌*◌, ◌≤◌, ◌<◌, ◌≡◌, Option, some, List, [], ◌∷◌, length, subst}
use syswatcher.Channel.{Str, CollectItem}
use syswatcher.File.{TimelyFile}
use syswatcher.CpuPlugin.{Reading, read_again, CpuState, cpu_data_collect, data_per_core}
use syswatcher.CpuPlugin.Entry.{cpu_spec_collect, cpu_spec_item, cpu_usage_item}
use syswatcher.CpuPlugin.Rounds.{HasLines}
use syswatcher.DeviceTable.{DfState}
use syswatcher.Disk.Entry.{disk_item}
use syswatcher.Memory.Entry.{memory_item}
use syswatcher.Temperature.Entry.{temp_item}
use syswatcher.SysInfo.Entry.{os_item, bios_item}
use syswatcher.Disk.{DiskEnv, disk_data_collect}
use syswatcher.Memory.{memory_information}
use syswatcher.Plugin.{Datum}
use syswatcher.SysInfo.{os_release_collect, bios_release_collect}
use syswatcher.Temperature.{Sysfs, temperature_collect}
use syswatcher.Plugin.Items.{
  UnitFits, Written, cpu_spec-Written, disk-Written, memory-Written, temperature-Written,
  os-Written, bios-Written, cpu-Written,
}

-- A collection by one of the plugins' items, and the values after it. The first run of the cpu usage
-- is left out, and the units of the system information, which are never set, are taken to fit before.
pub data Collects : CollectItem → List Datum → Type 0 where
  cpu_spec :
      (item : CollectItem) (of_stat of_cpuinfo : Reading) (n : ℕ) (values : List Datum)
      (s s' : CpuState)
      → item ≡ cpu_spec_item
      → cpu_spec_collect of_stat of_cpuinfo s ≡ some (n, values, s')
      → Collects item values
  cpu_usage :
      (item : CollectItem) (reading : Reading) (cores n : ℕ) (p : Str) (tf : TimelyFile)
      (block values : List Datum) (s s' : CpuState)
      → item ≡ cpu_usage_item cores
      → read_again reading s.cpu_stat ≡ some (tf, p)
      → HasLines cores p
      → cores ≤ length s.stats
      → length block ≡ cores * data_per_core
      → 0 < s.run_count
      → cpu_data_collect reading cores block s ≡ some (n, values, s')
      → Collects item values
  disk_usage :
      (item : CollectItem) (env : DiskEnv) (s s' : DfState) (values : List Datum)
      → item ≡ disk_item
      → disk_data_collect env s ≡ (values, s')
      → Collects item values
  memory_statistics :
      (item : CollectItem) (text : Option Str) (values : List Datum)
      → item ≡ memory_item
      → memory_information text ≡ some values
      → Collects item values
  cpu_temp :
      (item : CollectItem) (fs : Sysfs) (path : Str) (values : List Datum)
      → item ≡ temp_item
      → temperature_collect fs path ≡ values
      → Collects item values
  os_information :
      (item : CollectItem) (name version : Option Str) (v w : Datum) (values : List Datum)
      → item ≡ os_item
      → UnitFits v
      → UnitFits w
      → os_release_collect name version (v ∷ w ∷ []) ≡ some values
      → Collects item values
  bios_information :
      (item : CollectItem) (dmidecode_val : Str) (v : Datum) (values : List Datum)
      → item ≡ bios_item
      → UnitFits v
      → bios_release_collect dmidecode_val (v ∷ []) ≡ some values
      → Collects item values

-- After a collection by an item of the plugins there are as many values as the item has asked for,
-- and every value has the type of the member of the union that was written, a name of less than 32
-- bytes, a unit of less than 16 bytes, and a text of less than 128 bytes. This leaves out the first run
-- of the cpu usage, and it takes the units of the two items of the system information, which are
-- never set, to fit before.
pub collected-Written :
    (item : CollectItem) (values : List Datum)
    → Collects item values
    → Written item.data_count values
collected-Written item values (Collects.cpu_spec _ of_stat of_cpuinfo n _ s s' is e) =
    rw is (cpu_spec-Written of_stat of_cpuinfo n values s s' e)
collected-Written item values
      (Collects.cpu_usage _ reading cores n p tf block _ s s' is got_ lines room long later e) =
    rw is (cpu-Written reading cores n p tf block values s s' got_ lines room long later e)
collected-Written item values (Collects.disk_usage _ env s s' _ is e) =
    rw is (subst (λ (r : List Datum × DfState). Written 3 r.0) e (disk-Written env s))
collected-Written item values (Collects.memory_statistics _ text _ is e) =
    rw is (memory-Written text values e)
collected-Written item values (Collects.cpu_temp _ fs path _ is e) =
    rw is (subst (Written 1) e (temperature-Written fs path))
collected-Written item values (Collects.os_information _ name version v w _ is fits fits' e) =
    rw is (os-Written name version v w values fits fits' e)
collected-Written item values (Collects.bios_information _ dmidecode_val v _ is fits e) =
    rw is (bios-Written dmidecode_val v values fits e)

-- ===== src/Disk/Examples.antt =====
-- The disk plugin on a small /proc/mounts with one device twice, a remote one and one read-only.
use Prim.Native.String.{String}
use syswatcher.Base.{
  ◌+◌, ◌*◌, ◌≤◌, ◌≡◌, refl, true, Option, none, some, [], ◌∷◌, ◌++◌, map, arith, if◌then◌else◌,
}
use syswatcher.Channel.{Str}
use syswatcher.CString.{codes, strcmp_eq}
use syswatcher.DeviceTable.{dfhashsize, DfState, empty_chains, find_name}
use syswatcher.Disk.{
  DiskEnv, Statvfs, find_disk_space, divided, totals_by, disk_data_collect, reported_units,
  parse_mount, counts_mount,
}
use syswatcher.Disk.Mounts.{file_systems}
use syswatcher.Disk.Totals.{mount_size, mount_free, sum_of, IsClean, find_disk_space-once}
use syswatcher.Plugin.{Datum, d}
use syswatcher.Disk.Usage.{total_bytes, disk_data_collect-total}

abbrev line : String → Str
line s = codes s ++ 10 ∷ []

abbrev mounts : Str
mounts =
    line "/dev/sda1 / ext4 rw,relatime 0 0"
    ++ (line "/dev/sda1 /home ext4 rw 0 0"
        ++ (line "host:/x /n nfs rw 0 0"
            ++ (line "/dev/sr0 /cd iso9660 ro 0 0" ++ line "proc /proc proc rw 0 0")))

abbrev sizes : Str → Option Statvfs
sizes mount =
    if strcmp_eq mount (codes "/")
    then some (record { f_bsize = 4; f_blocks = 100; f_bavail = 40 })
    else none

abbrev env : DiskEnv
env = record { alloc = λ _. true; statvfs = sizes; proc_mounts = some mounts }

abbrev fresh : DfState
fresh = record { table = empty_chains dfhashsize; allocs = 0; live = 0 }

counted_bytes : total_bytes env ≡ record { size = 400; free = 160 }
unfolding total_bytes file_systems parse_mount counts_mount find_name
counted_bytes = refl

sizes-HasRoom : (mount : Str) (fs : Statvfs) → sizes mount ≡ some fs → fs.f_bavail ≤ fs.f_blocks
sizes-HasRoom mount fs e = ground arith

find_disk_space-once_example :
    ((find_disk_space env (record { size = 0; free = 0 }) fresh).1
      ≡ totals_by reported_units (record {
        size = 0 + sum_of (mount_size env) (file_systems mounts);
        free = 0 + sum_of (mount_free env) (file_systems mounts);
      }))
    × IsClean (find_disk_space env (record { size = 0; free = 0 }) fresh).2
find_disk_space-once_example =
    find_disk_space-once env (record { size = 0; free = 0 }) fresh (λ n. refl) (refl, refl)

disk_data_collect-total_example :
    (map (λ (v : Datum). v.val) (disk_data_collect env fresh).0
      ≡ d (divided reported_units (total_bytes env).size)
        ∷ d (divided reported_units (total_bytes env).free)
        ∷ d (record {
          plus = 100 * (total_bytes env).size;
          minus = 100 * (total_bytes env).free;
          den = (total_bytes env).size;
        })
        ∷ [])
    × ((total_bytes env).free ≤ (total_bytes env).size)
    × IsClean (disk_data_collect env fresh).1
disk_data_collect-total_example =
    disk_data_collect-total env fresh (λ n. refl) (refl, refl) sizes-HasRoom

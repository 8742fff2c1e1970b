-- ===== src/Disk/Usage.antt =====
-- The three data of the disk item (plugins/mod_disk/libdisk.c).
use native.Mathlib.Nat.{mul-le-mul_right}
use syswatcher.Base.{
  ℕ, ◌*◌, ◌≤◌, ◌≡◌, true, none, some, List, [], ◌∷◌, map, arith, Option-cases, inl, inr,
}
use syswatcher.Channel.{Str}
use syswatcher.DeviceTable.{DfState}
use syswatcher.Disk.{DiskEnv, Statvfs, Space, Mount, divided, disk_data_collect, reported_units}
use syswatcher.Plugin.{Datum, d}
use syswatcher.Disk.Mounts.{file_systems}
use syswatcher.Disk.Totals.{mount_size, mount_free, sum_of, IsClean, find_disk_space-once}

-- No file system offers more blocks than it has.
abbrev pub HasRoom : DiskEnv → Type 0
HasRoom env = (mount : Str) (fs : Statvfs) → env.statvfs mount ≡ some fs → fs.f_bavail ≤ fs.f_blocks

free-le-size : (env : DiskEnv) (m : Mount) → HasRoom env → mount_free env m ≤ mount_size env m
unfolding mount_free mount_size
free-le-size env m room = elim (Option-cases (env.statvfs m.mount)) [
  | inl refused ↦ ground arith
  | inr (fs, e) ↦ let le = mul-le-mul_right fs.f_bsize (room m.mount fs e) in ground arith
]

sums-le :
    (env : DiskEnv) (ms : List Mount)
    → HasRoom env
    → sum_of (mount_free env) ms ≤ sum_of (mount_size env) ms
unfolding sum_of
sums-le env [] room = omega arith
sums-le env (m ∷ ms) room = omega (arith, free-le-size env m room, sums-le env ms room)

-- The totals of a pass over an empty table.
unfoldable pub total_bytes : DiskEnv → Space
unfolding file_systems sum_of mount_size mount_free
total_bytes env = elim env.proc_mounts [
  | none ↦ record { size = 0; free = 0 }
  | some text ↦ record {
    size = sum_of (mount_size env) (file_systems text);
    free = sum_of (mount_free env) (file_systems text);
  }
]

-- The totals are divided at the end of the pass.
abbrev pub divisor : DiskEnv → ℕ
divisor env = elim env.proc_mounts [ none ↦ 1 | some text ↦ reported_units ]

-- When the allocations succeed and no file system offers more blocks than it has, the item's data
-- are the bytes of the file systems, the free bytes, both in units of 10^6, and 100 times the part
-- that is not free; without /proc/mounts the bytes are 0, and not divided. The free bytes are not more
-- than all, and the next collection finds an empty table again.
pub disk_data_collect-total :
    (env : DiskEnv) (s : DfState)
    → ((n : ℕ) → env.alloc n ≡ true)
    → IsClean s
    → HasRoom env
    → (map (λ (v : Datum). v.val) (disk_data_collect env s).0
        ≡ d (divided (divisor env) (total_bytes env).size)
          ∷ d (divided (divisor env) (total_bytes env).free)
          ∷ d (record {
            plus = 100 * (total_bytes env).size;
            minus = 100 * (total_bytes env).free;
            den = (total_bytes env).size;
          })
          ∷ [])
      × ((total_bytes env).free ≤ (total_bytes env).size)
      × IsClean (disk_data_collect env s).1
unfolding disk_data_collect total_bytes
disk_data_collect-total env s ok clean room =
    let once = find_disk_space-once env (record { size = 0; free = 0 }) s ok clean in
    elim (Option-cases env.proc_mounts) [
      | inl closed ↦ ground arith
      | inr (text, opened) ↦ ground (arith, sums-le env (file_systems text) room)
    ]

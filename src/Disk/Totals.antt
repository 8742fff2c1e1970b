-- ===== src/Disk/Totals.antt =====
-- The sums of find_disk_space (plugins/mod_disk/libdisk.c) against a pass that keeps a list of the
-- devices.
use syswatcher.Base.{
  ℕ, ◌+◌, ◌*◌, ◌≡◌, refl, ◌∙◌, ap, Bool, true, ◌||◌, none, some, List, [], ◌∷◌, if◌then◌else◌,
  arith, Bool-cases, Option-cases, inl, inr,
}
use syswatcher.Channel.{Str}
use syswatcher.CString.{strcmp_eq}
use syswatcher.DeviceTable.{dfhashsize, DfState, seen_before, find_name, empty_chains}
use syswatcher.DeviceTable.Refines.{holds, IsTable, seen_before-IsTable, seen_before-refines}
use syswatcher.DeviceTable.Blocks.{
  blocks, seen_before-blocks, empty-IsTable, holds-empty_chains, blocks-empty_chains,
  df_cleanup-empty,
}
use syswatcher.Disk.{
  totals_by, reported_units, DiskEnv, Space, Percent, Mount, parse_mount, counts_mount,
  device_space, add_space, mounts_loop, raise_max, fgets_lines, find_disk_space, zero_percent,
}
use syswatcher.Disk.Mounts.{counted, first_mounts, file_systems}

-- The loop on the mounts that it counts.
unfoldable pub mounts_pass :
    DiskEnv → List Mount → Percent → Space → DfState → Percent × Space × DfState
mounts_pass env [] max t s = (max, t, s)
mounts_pass env (m ∷ ms) max t s =
    let (thispct, t', s') = device_space env m.mount m.device t s in
    mounts_pass env ms (raise_max max thispct) t' s'

loop-pass :
    (env : DiskEnv) (lines : List Str) (max : Percent) (t : Space) (s : DfState)
    → mounts_loop env lines max t s ≡ mounts_pass env (counted lines) max t s
unfolding mounts_loop counted mounts_pass
loop-pass env [] max t s = refl
loop-pass env (line ∷ lines) max t s = elim (Option-cases (parse_mount line)) [
  | inl bad ↦ rw (bad, mounts_loop, counted) (loop-pass env lines max t s)
  | inr (m, good) ↦ elim (Bool-cases (counts_mount m)) [
    | inl counts ↦
        let r = device_space env m.mount m.device t s in
        rw (good, counts, mounts_loop, counted) (loop-pass env lines (raise_max max r.0) r.1 r.2)
    | inr skipped ↦ rw (good, skipped, mounts_loop, counted) (loop-pass env lines max t s)
  ]
]

-- The bytes of a file system, and those that are free; none for one that statvfs refuses.
unfoldable pub mount_size : DiskEnv → Mount → ℕ
mount_size env m = elim (env.statvfs m.mount) [ none ↦ 0 | some fs ↦ fs.f_blocks * fs.f_bsize ]

unfoldable pub mount_free : DiskEnv → Mount → ℕ
mount_free env m = elim (env.statvfs m.mount) [ none ↦ 0 | some fs ↦ fs.f_bavail * fs.f_bsize ]

unfoldable pub sum_of : (Mount → ℕ) → List Mount → ℕ
sum_of f [] = 0
sum_of f (m ∷ ms) = f m + sum_of f ms

-- The table holds the names of the list, and its nodes are the live blocks.
pub record Tracks (seen : List Str) (s : DfState) : Type 0 where
  pub table : IsTable s.table
  pub live : s.live ≡ blocks s.table
  pub same : (x : Str) → holds s.table x ≡ find_name x seen

-- The table between two passes.
abbrev pub IsClean : DfState → Type 0
IsClean s = (s.table ≡ empty_chains dfhashsize) × (s.live ≡ 0)

clean-Tracks : (s : DfState) → IsClean s → Tracks [] s
unfolding find_name
clean-Tracks s h = record {
  table = rw h.0 empty-IsTable;
  live = rw h.0 (omega (arith, h.1, blocks-empty_chains dfhashsize));
  same = λ x. rw h.0 (holds-empty_chains dfhashsize x);
}

module _ (env : DiskEnv) (ok : (n : ℕ) → env.alloc n ≡ true) where
  step-Tracks :
      (name : Str) (seen : List Str) (s : DfState)
      → Tracks seen s
      → Tracks (name ∷ seen) (seen_before env.alloc name s).1
  unfolding find_name
  step-Tracks name seen s h = record {
    table = seen_before-IsTable env.alloc name s h.table;
    live = seen_before-blocks env.alloc name s ok h.table h.live;
    same = λ x.
        ap (λ (f : Str → Bool). f x) (seen_before-refines env.alloc name s ok h.table).1
        ∙ ap (λ b. strcmp_eq x name || b) (h.same x);
  }

  answer :
      (name : Str) (seen : List Str) (s : DfState)
      → Tracks seen s
      → (seen_before env.alloc name s).0 ≡ find_name name seen
  answer name seen s h = (seen_before-refines env.alloc name s ok h.table).0 ∙ h.same name

  space_lem :
      (m : Mount) (seen : List Str) (t : Space) (s : DfState)
      → Tracks seen s
      → ((device_space env m.mount m.device t s).1.size
          ≡ t.size + (if find_name m.device seen then 0 else mount_size env m))
        × ((device_space env m.mount m.device t s).1.free
            ≡ t.free + (if find_name m.device seen then 0 else mount_free env m))
  unfolding device_space mount_size mount_free add_space
  space_lem m seen t s h =
      ground (arith, answer m.device seen s h, Option-cases (env.statvfs m.mount))

  space-Tracks :
      (m : Mount) (seen : List Str) (t : Space) (s : DfState)
      → Tracks seen s
      → Tracks (m.device ∷ seen) (device_space env m.mount m.device t s).2
  unfolding device_space
  space-Tracks m seen t s h =
      let e : (device_space env m.mount m.device t s).2 ≡ (seen_before env.alloc m.device s).1 =
        ground (arith, Option-cases (env.statvfs m.mount)) in
      rw e (step-Tracks m.device seen s h)

  -- What the pass has done from a state that tracks `seen`.
  pub record Done (ms : List Mount) (seen : List Str) (t : Space) (r : Percent × Space × DfState)
      : Type 0 where
    pub size : r.1.size ≡ t.size + sum_of (mount_size env) (first_mounts seen ms)
    pub free : r.1.free ≡ t.free + sum_of (mount_free env) (first_mounts seen ms)
    pub table : IsTable r.2.table
    pub live : r.2.live ≡ blocks r.2.table

  pass-Done :
      (ms : List Mount) (seen : List Str) (max : Percent) (t : Space) (s : DfState)
      → Tracks seen s
      → Done ms seen t (mounts_pass env ms max t s)
  unfolding mounts_pass first_mounts sum_of
  pass-Done [] seen max t s h = record {
    size = omega arith;
    free = omega arith;
    table = h.table;
    live = h.live;
  }
  pass-Done (m ∷ ms) seen max t s h =
      let r = device_space env m.mount m.device t s in
      let ih =
        pass-Done ms (m.device ∷ seen) (raise_max max r.0) r.1 r.2 (space-Tracks m seen t s h) in
      let step = space_lem m seen t s h in
      record {
        size = ground (arith, ih.size, step.0);
        free = ground (arith, ih.free, step.1);
        table = ih.table;
        live = ih.live;
      }

-- When the allocations succeed, a pass that starts with an empty table adds to the totals the bytes
-- of the file systems of /proc/mounts that count, each device at its first mount only and one that
-- statvfs refuses as none, and divides both by 10^6; and it leaves the table empty again, with no
-- block live. If /proc/mounts does not open it does nothing.
pub find_disk_space-once :
    (env : DiskEnv) (t : Space) (s : DfState)
    → ((n : ℕ) → env.alloc n ≡ true)
    → IsClean s
    → ((find_disk_space env t s).1 ≡ elim env.proc_mounts [
      | none ↦ totals_by 1 t
      | some text ↦ totals_by reported_units (record {
        size = t.size + sum_of (mount_size env) (file_systems text);
        free = t.free + sum_of (mount_free env) (file_systems text);
      })
    ])
      × IsClean (find_disk_space env t s).2
unfolding find_disk_space file_systems
find_disk_space-once env t s ok clean = elim (Option-cases env.proc_mounts) [
  | inl closed ↦ ground arith
  | inr (text, opened) ↦
      let lines = fgets_lines 1023 1023 [] text in
      let r = mounts_loop env lines zero_percent t s in
      let done : Done env ok (counted lines) [] t r =
        rw (loop-pass env lines zero_percent t s)
          (pass-Done env ok (counted lines) [] zero_percent t s (clean-Tracks s clean)) in
      let after = df_cleanup-empty r.2 done.table done.live in ground (arith, done.size, done.free)
]

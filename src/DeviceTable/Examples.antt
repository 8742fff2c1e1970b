-- ===== src/DeviceTable/Examples.antt =====
-- The hash table of device names with two names in it.
use syswatcher.Base.{ℕ, ◌+◌, ◌-◌, ◌*◌, ◌%◌, ◌^◌, ◌≡◌, refl, Bool, true, ◌||◌, [], ◌∷◌}
use syswatcher.CString.{codes, strcmp_eq}
use syswatcher.DeviceTable.{dfhashsize, DfState, seen_before, empty_chains, df_hash}
use syswatcher.DeviceTable.Refines.{holds, seen_before-IsTable, seen_before-refines}
use syswatcher.DeviceTable.Blocks.{empty-IsTable}

abbrev pub always : ℕ → Bool
always n = true

abbrev pub two_names : DfState
two_names =
    (seen_before always (codes "/dev/sda2")
      (seen_before always (codes "/dev/sda1")
        (record { table = empty_chains dfhashsize; allocs = 0; live = 0 })).1).1

-- A byte from 128 on counts as negative.
high_byte : df_hash (200 ∷ 1 ∷ []) ≡ (2 ^ 32 - 56 * 31 + 1) % 101
unfolding df_hash
high_byte = refl

seen_before-refines_example :
    ((seen_before always (codes "/dev/sda1") two_names).0
      ≡ holds two_names.table (codes "/dev/sda1"))
    × (holds (seen_before always (codes "/dev/sda1") two_names).1.table
        ≡ (λ other. strcmp_eq other (codes "/dev/sda1") || holds two_names.table other))
seen_before-refines_example =
    seen_before-refines always (codes "/dev/sda1") two_names (λ n. refl)
      (seen_before-IsTable always (codes "/dev/sda2") _
        (seen_before-IsTable always (codes "/dev/sda1") _ empty-IsTable))

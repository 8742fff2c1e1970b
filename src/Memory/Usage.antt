-- ===== src/Memory/Usage.antt =====
-- The four data of the memory item (plugins/mod_memory/libmemory.c).
use syswatcher.Base.{
  ℕ, ◌-◌, ◌*◌, ◌^◌, ◌≤◌, ◌<◌, ◌≡◌, some, none, Option, List, [], ◌∷◌, ◌++◌, map, length, arith,
}
use syswatcher.Channel.{Str}
use syswatcher.Plugin.{Datum, Val, uint32, f}
use syswatcher.Memory.{memory_information}
use syswatcher.Memory.Reading.{IsLabel, meminfo_line}
use syswatcher.Memory.Lines.{mem_info-meminfo}

abbrev pub unit_and_value : Datum → Str × Val
unit_and_value d = (d.unit, d.val)

abbrev pub show_all : Option (List Datum) → Option (List (Str × Val))
show_all none = none
show_all (some ds) = some (map unit_and_value ds)

-- From two lines with labels of less than 1000 bytes, numbers below 2^31 and kB, the first not less
-- than the second, the item's data are the total memory, their difference and the free memory, all
-- in K, and 100 times the difference over the total; what follows the two lines plays no part.
pub memory_information-meminfo :
    (total_label free_label rest : Str) (total free : ℕ)
    → IsLabel total_label
    → length total_label < 1000
    → IsLabel free_label
    → length free_label < 1000
    → total < 2 ^ 31
    → free ≤ total
    → show_all (
        memory_information
          (some (meminfo_line total_label total ++ (meminfo_line free_label free ++ rest))))
      ≡ some (
          (b'K' ∷ [], uint32 total)
          ∷ (b'K' ∷ [], uint32 (total - free))
          ∷ (b'K' ∷ [], uint32 free)
          ∷ (b'%' ∷ [], f (record { plus = 100 * (total - free); minus = 0; den = total }))
          ∷ [])
unfolding memory_information
memory_information-meminfo total_label free_label rest total free isT shortT isF shortF small le =
    ground (
      arith,
      mem_info-meminfo total_label free_label rest total free isT shortT isF shortF small le,
    )

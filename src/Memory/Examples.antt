-- ===== src/Memory/Examples.antt =====
-- The memory plugin on a machine of 16 GB.
use syswatcher.Base.{ℕ, ◌+◌, ◌-◌, ◌*◌, ◌≤◌, ◌<◌, ◌≡◌, refl, some, [], ◌∷◌, ◌++◌, arith}
use syswatcher.CpuData.{is_digit}
use syswatcher.Channel.{Str}
use syswatcher.CString.{codes}
use syswatcher.Plugin.{uint32, f}
use syswatcher.Memory.{memory_information, to_unit, unit_at, unit_letters}
use syswatcher.Memory.Reading.{IsLabel, meminfo_line}
use syswatcher.Memory.Unit.{shifts, kilo, to_unit_lem}
use syswatcher.Memory.Usage.{show_all, memory_information-meminfo}

abbrev total_label : Str
total_label = codes "MemTotal:  "

abbrev free_label : Str
free_label = codes "MemFree:  "

total_label-IsLabel : IsLabel total_label
unfolding is_digit
total_label-IsLabel = (
  (refl, refl),
  (
    (refl, refl),
    (
      (refl, refl),
      (
        (refl, refl),
        (
          (refl, refl),
          (
            (refl, refl),
            ((refl, refl), ((refl, refl), ((refl, refl), ((refl, refl), ((refl, refl), tt))))),
          ),
        ),
      ),
    ),
  ),
)

free_label-IsLabel : IsLabel free_label
unfolding is_digit
free_label-IsLabel = (
  (refl, refl),
  (
    (refl, refl),
    (
      (refl, refl),
      (
        (refl, refl),
        (
          (refl, refl),
          ((refl, refl), ((refl, refl), ((refl, refl), ((refl, refl), ((refl, refl), tt))))),
        ),
      ),
    ),
  ),
)

memory_information-meminfo_example :
    show_all (
      memory_information (
        some
          (meminfo_line total_label 16316412 ++ (meminfo_line free_label 9000000 ++ codes "rest"))))
    ≡ some (
        (b'K' ∷ [], uint32 16316412)
        ∷ (b'K' ∷ [], uint32 (16316412 - 9000000))
        ∷ (b'K' ∷ [], uint32 9000000)
        ∷ (b'%' ∷ [], f (record { plus = 100 * (16316412 - 9000000); minus = 0; den = 16316412 }))
        ∷ [])
memory_information-meminfo_example =
    memory_information-meminfo total_label free_label (codes "rest") 16316412 9000000
      total_label-IsLabel (omega arith) free_label-IsLabel (omega arith) (omega arith) (omega arith)

five_gigabytes : to_unit 5000000000 ≡ some (4, b'G')
unfolding to_unit
five_gigabytes = refl

to_unit_lem_example :
    (left count unit : ℕ) × (to_unit 5000000000 ≡ some (left, unit))
    × (unit_at count unit_letters ≡ some unit)
    × (left ≤ 1024)
    × (left * kilo count ≤ 5000000000)
    × (5000000000 < (left + 1) * kilo count)
    × ((j : ℕ) → j < count → 1024 < shifts j 5000000000)
to_unit_lem_example = to_unit_lem 5000000000 (omega arith)

-- ===== src/Memory.antt =====
-- The memory plugin (plugins/mod_memory/libmemory.c): the two first lines of /proc/meminfo, and the
-- four data of its item. An unsigned int is a number below 2^32, whose arithmetic wraps. `none`
-- stands for a read through NULL, of memory that was never written, or of a number past an int.
pub mod Unit
pub mod Reading
pub mod Lines
pub mod Usage
pub mod Entry
mod Examples
use syswatcher.Base.{
  ℕ, zero, suc, ◌+◌, ◌-◌, ◌*◌, ◌/◌, ◌%◌, ◌^◌, Bool, true, false, ◌&&◌, ◌||◌, Option, none, some,
  List, [], ◌∷◌, ◌++◌, ◌==◌, ltb, leb, if◌then◌else◌, has,
}
use syswatcher.Channel.{Str}
use syswatcher.CString.{codes, fgets}
use syswatcher.CpuData.{digits, is_digit}
use syswatcher.Display.{m_uint32, m_float}
use syswatcher.Plugin.{Datum, uint32, f}

-- #define COST(U)
unfoldable pub cost : ℕ → ℕ
cost u =
    if u == b'G'
    then 1024 * 1024 * 1024
    else if u == b'M'
    then 1024 * 1024
    else if u == b'K'
    then 1024
    else 1

abbrev pub unit_letters : Str
unit_letters = codes "BKMGTPEZY"

-- _unit[count], if it is in the array
unfoldable pub unit_at : ℕ → Str → Option ℕ
unit_at n [] = none
unit_at zero (c ∷ s) = some c
unit_at (suc n) (c ∷ s) = unit_at n s

-- while (size > 1024) { size = size >> 10; count++; }, for at most so many rounds: (size, count)
unfoldable pub shift_loop : (fuel size count : ℕ) → Option (ℕ × ℕ)
shift_loop zero size count = none
shift_loop (suc fuel) size count = elim (ltb 1024 size) [
  | true ↦ shift_loop fuel (size / 1024) (count + 1)
  | false ↦ some (size, count)
]

-- An unsigned long long has 64 bits, and seven rounds shift 70. (_size, *unit)
unfoldable pub to_unit : ℕ → Option (ℕ × ℕ)
unfolding shift_loop unit_at
to_unit size = elim (shift_loop 8 size 0) [
  | none ↦ none
  | some (left, count) ↦ elim (unit_at count unit_letters) [
    | none ↦ none
    | some unit ↦ some (left % 2 ^ 32, unit)
  ]
]

-- strpbrk(s, accept)
unfoldable pub strpbrk : Str → Str → Option Str
strpbrk accept [] = none
strpbrk accept (c ∷ s) = elim (has c accept) [ true ↦ some (c ∷ s) | false ↦ strpbrk accept s ]

-- atoi on a text that begins with a digit; a number past INT_MAX has no defined value.
unfoldable pub atoi : Str → Option ℕ
unfolding digits
atoi p = let (n, rest) = digits 0 p in if ltb n (2 ^ 31) then some n else none

unfoldable pub toupper : ℕ → ℕ
toupper c = if leb b'a' c && leb c b'z' then c - 32 else c

-- The number of a line, and the letter of its unit.
unfoldable pub read_line : Str → Option (ℕ × ℕ)
unfolding strpbrk atoi toupper
read_line line = elim (strpbrk (codes "0123456789") line) [
  | none ↦ none
  | some p ↦ elim (atoi p) [
    | none ↦ none
    | some n ↦ elim (strpbrk (codes "KkMmGgBb") p) [
      | none ↦ none
      | some [] ↦ none
      | some (u ∷ rest) ↦ some (n, toupper u)
    ]
  ]
]

pub record MemoryInfo : Type 0 where
  pub total : ℕ
  pub used : ℕ
  pub free : ℕ
  pub total_unit : ℕ
  pub used_unit : ℕ
  pub free_unit : ℕ

-- mem->used and its unit
unfoldable pub used_of : (total total_unit free free_unit : ℕ) → Option (ℕ × ℕ)
unfolding to_unit cost
used_of total total_unit free free_unit =
    if total_unit == free_unit
    then some ((total + 2 ^ 32 - free) % 2 ^ 32, free_unit)
    else to_unit
        ((total * cost total_unit % 2 ^ 32 + 2 ^ 32 - free * cost free_unit % 2 ^ 32) % 2 ^ 32)

-- A line of the pipe, or the one before if it has ended.
unfoldable pub next_line : Str → Str → Str × Str
unfolding fgets
next_line before [] = (before, [])
next_line before (c ∷ s) = fgets 1023 (c ∷ s)

-- The argument is what the command writes, if the pipe opens.
unfoldable pub mem_info : Option Str → Option MemoryInfo
unfolding next_line read_line used_of
mem_info none = none
mem_info (some []) = none
mem_info (some (c ∷ s)) =
    let (first, rest) = next_line [] (c ∷ s) in
    elim (read_line first) [
      | none ↦ none
      | some (total, total_unit) ↦
          let (second, end) = next_line first rest in
          elim (read_line second) [
            | none ↦ none
            | some (free, free_unit) ↦ elim (used_of total total_unit free free_unit) [
              | none ↦ none
              | some (used, used_unit) ↦ some (record {
                total = total;
                used = used;
                free = free;
                total_unit = total_unit;
                used_unit = used_unit;
                free_unit = free_unit;
              })
            ]
          ]
    ]

unfoldable pub memory_data : MemoryInfo → List Datum
memory_data mem =
    (record {
      name = codes "mem total";
      unit = mem.total_unit ∷ [];
      t = m_uint32;
      val = uint32 mem.total;
    })
    ∷ (record {
      name = codes "mem used";
      unit = mem.used_unit ∷ [];
      t = m_uint32;
      val = uint32 mem.used;
    })
    ∷ (record {
      name = codes "mem free";
      unit = mem.free_unit ∷ [];
      t = m_uint32;
      val = uint32 mem.free;
    })
    ∷ (record {
      name = codes "mem usage";
      unit = codes "%";
      t = m_float;
      val = f (record { plus = 100 * mem.used; minus = 0; den = mem.total });
    })
    ∷ []

unfoldable pub memory_information : Option Str → Option (List Datum)
unfolding mem_info memory_data
memory_information text = elim (mem_info text) [ none ↦ none | some mem ↦ some (memory_data mem) ]

-- ===== src/CpuData/Examples.antt =====
-- plugins/mod_cpu/cpu_data.c on a small /proc/stat.
use syswatcher.Base.{take, List, ◌≡◌, refl, [], ◌∷◌, ◌++◌, some, map}
use syswatcher.Channel.{Str}
use syswatcher.CString.{codes, starts_with}
use syswatcher.CpuData.{
  isspace, is_digit, after_cpu, cpu_line, sum, num_cpustates_of_cpu_data, core_total_jiffies_func,
}
use syswatcher.CpuData.Tokens.{IsDigits, Digits, value, line_of, core_total_jiffies_func-sum}

abbrev twelve : Digits
twelve = record { first = b'1'; others = b'2' ∷ [] }

abbrev seven : Digits
seven = record { first = b'7'; others = [] }

-- Ten columns, of which the first eight count.
abbrev ten : List Digits
ten = twelve ∷ seven ∷ twelve ∷ seven ∷ seven ∷ seven ∷ twelve ∷ seven ∷ twelve ∷ twelve ∷ []

abbrev stat : Str
stat = codes "cpu 9 0 0 0" ++ (10 ∷ (codes "cpu0" ++ line_of ten (codes "intr 5")))

core_total_jiffies_func-sum_example :
    core_total_jiffies_func num_cpustates_of_cpu_data 1 stat ≡ some (sum (take 8 (map value ten)))
unfolding isspace is_digit cpu_line after_cpu starts_with
core_total_jiffies_func-sum_example =
    core_total_jiffies_func-sum 1 stat (codes "0") ten b'i' (codes "ntr 5") refl (refl, tt)
      (two, (one, (two, (one, (one, (one, (two, (one, (two, (two, tt)))))))))) refl refl
  where
    one : IsDigits seven
    one = record { first = refl; others = tt }

    two : IsDigits twelve
    two = record { first = refl; others = (refl, tt) }

-- ===== src/Memory/Lines.antt =====
-- What mem_info of plugins/mod_memory/libmemory.c takes from the first two lines of /proc/meminfo.
use mathlib.Core.List.{append_assoc}
use syswatcher.Base.{
  ℕ, ◌+◌, ◌-◌, ◌^◌, ◌≤◌, ◌<◌, ◌≡◌, refl, ◌∙◌, true, false, some, [], ◌∷◌, ◌++◌, arith, has, length,
  length-append, has-append, All, ◌==◌,
}
use syswatcher.Channel.{Str}
use syswatcher.CString.{codes, fgets}
use syswatcher.CpuData.{is_digit}
use syswatcher.Display.{decimal}
use syswatcher.Display.Fits.{length-decimal}
use syswatcher.Memory.{toupper, read_line, used_of, next_line, mem_info}
use syswatcher.Memory.Reading.{
  meminfo_body, meminfo_line, IsLabel, fgets-line, decimal-digits, read_line-meminfo_line,
}

digit-no_newline : (c : ℕ) → is_digit c ≡ true → (10 == c) ≡ false
unfolding is_digit
digit-no_newline c h = ground arith

no_newline : (s : Str) → All (λ c. is_digit c ≡ true) s → has 10 s ≡ false
no_newline [] is = refl
no_newline (c ∷ s) (digit, is) = ground (arith, digit-no_newline c digit, no_newline s is)

label-no_newline : (label : Str) → IsLabel label → has 10 label ≡ false
label-no_newline [] is = refl
label-no_newline (c ∷ label) ((d, n), is) = let ih = label-no_newline label is in ground arith

body-no_newline : (label : Str) (n : ℕ) → IsLabel label → has 10 (meminfo_body label n) ≡ false
unfolding meminfo_body
body-no_newline label n is = ground (
  arith,
  has-append 10 label (decimal 10 n ++ codes " kB"),
  has-append 10 (decimal 10 n) (codes " kB"),
  label-no_newline label is,
  no_newline (decimal 10 n) (decimal-digits 10 n),
)

length-body : (label : Str) (n : ℕ) → length (meminfo_body label n) ≤ length label + 13
unfolding meminfo_body
length-body label n = omega (
  arith,
  length-append label (decimal 10 n ++ codes " kB"),
  length-append (decimal 10 n) (codes " kB"),
  length-decimal 10 n,
)

next_line-fgets :
    (before body rest : Str) → next_line before (body ++ 10 ∷ rest) ≡ fgets 1023 (body ++ 10 ∷ rest)
unfolding next_line
next_line-fgets before [] rest = refl
next_line-fgets before (c ∷ body) rest = refl

next_line-body :
    (before label : Str) (n : ℕ) (rest : Str)
    → IsLabel label
    → length label < 1000
    → next_line before (meminfo_line label n ++ rest) ≡ (meminfo_line label n, rest)
unfolding meminfo_line
next_line-body before label n rest is short =
    let body = meminfo_body label n in
    rw (append_assoc body (10 ∷ []) rest) (
      next_line-fgets before body rest
      ∙ fgets-line 1023 body rest (body-no_newline label n is) (omega (arith, length-body label n)))

mem_info-parts :
    (text first rest second end : Str) (total free used total_unit free_unit used_unit : ℕ)
    → 0 < length text
    → next_line [] text ≡ (first, rest)
    → read_line first ≡ some (total, total_unit)
    → next_line first rest ≡ (second, end)
    → read_line second ≡ some (free, free_unit)
    → used_of total total_unit free free_unit ≡ some (used, used_unit)
    → mem_info (some text)
      ≡ some (record {
        total = total;
        used = used;
        free = free;
        total_unit = total_unit;
        used_unit = used_unit;
        free_unit = free_unit;
      })
unfolding mem_info
mem_info-parts [] first rest second end total free used total_unit free_unit used_unit long a b c d
      e =
    absurd (omega arith)
mem_info-parts (x ∷ text) first rest second end total free used total_unit free_unit used_unit long
      a b c d e =
    ground arith

line-long : (label : Str) (n : ℕ) (rest : Str) → 0 < length (meminfo_line label n ++ rest)
unfolding meminfo_line
line-long label n rest = omega (
  arith,
  length-append (meminfo_body label n ++ 10 ∷ []) rest,
  length-append (meminfo_body label n) (10 ∷ []),
)

pub mem_info-meminfo :
    (total_label free_label rest : Str) (total free : ℕ)
    → IsLabel total_label
    → length total_label < 1000
    → IsLabel free_label
    → length free_label < 1000
    → total < 2 ^ 31
    → free ≤ total
    → mem_info (some (meminfo_line total_label total ++ (meminfo_line free_label free ++ rest)))
      ≡ some (record {
        total = total;
        used = total - free;
        free = free;
        total_unit = b'K';
        used_unit = b'K';
        free_unit = b'K';
      })
unfolding toupper
mem_info-meminfo total_label free_label rest total free isT shortT isF shortF small le =
    mem_info-parts _ (meminfo_line total_label total) (meminfo_line free_label free ++ rest)
      (meminfo_line free_label free) rest total free (total - free) b'K' b'K' b'K'
      (line-long total_label total (meminfo_line free_label free ++ rest))
      (next_line-body [] total_label total _ isT shortT)
      (read_line-meminfo_line total_label total isT small)
      (next_line-body _ free_label free rest isF shortF)
      (read_line-meminfo_line free_label free isF (omega arith)) (unfold used_of in ground arith)

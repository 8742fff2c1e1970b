-- ===== src/Memory/Reading.antt =====
-- How plugins/mod_memory/libmemory.c reads the lines of /proc/meminfo.
use mathlib.Core.List.{append_assoc}
use syswatcher.Base.{
  All-append, ℕ, zero, suc, ◌+◌, ◌/◌, ◌%◌, ◌^◌, ◌<◌, ◌≡◌, refl, sym, ◌∙◌, ap, true, false, some, [],
  ◌∷◌, ◌++◌, ltb, arith, Bool-cases, inl, inr, has, length, length-append, All, ◌==◌,
}
use syswatcher.Channel.{Str}
use syswatcher.CString.{codes, fgets}
use syswatcher.CpuData.{digits, is_digit}
use syswatcher.CpuData.Tokens.{digits-all}
use syswatcher.Display.{decimal}
use syswatcher.Display.Decimal.{digits-decimal}
use syswatcher.Memory.{strpbrk, atoi, toupper, read_line}

-- A line of /proc/meminfo: a label and blanks, the number, and kB.
unfoldable pub meminfo_body : Str → ℕ → Str
unfolding decimal
meminfo_body label n = label ++ (decimal 10 n ++ codes " kB")

unfoldable pub meminfo_line : Str → ℕ → Str
unfolding meminfo_body
meminfo_line label n = meminfo_body label n ++ 10 ∷ []

-- A label holds no digit and no newline.
abbrev pub IsLabel : Str → Type 0
IsLabel label = All (λ c. (is_digit c ≡ false) × ((c == 10) ≡ false)) label

digit_of : (d : ℕ) → d < 10 → is_digit (d + b'0') ≡ true
unfolding is_digit
digit_of d h = ground arith

pub decimal-digits : (k n : ℕ) → All (λ c. is_digit c ≡ true) (decimal k n)
unfolding decimal
decimal-digits zero n = tt
decimal-digits (suc k) n = elim (Bool-cases (ltb n 10)) [
  | inl small ↦ rw small (digit_of n (ground arith), tt)
  | inr big ↦ rw big (
      All-append _ (decimal k (n / 10)) ((n % 10 + b'0') ∷ []) (decimal-digits k (n / 10))
        (digit_of (n % 10) (omega arith), tt))
]

uncons :
    (s : Str)
    → 0 < length s
    → All (λ c. is_digit c ≡ true) s
    → (c : ℕ) × (rest : Str) × (s ≡ c ∷ rest) × (is_digit c ≡ true)
uncons [] some_digits is = absurd (omega arith)
uncons (c ∷ s) some_digits (is, others) = (c, s, refl, is)

pub decimal-first :
    (k n : ℕ) → (c : ℕ) × (rest : Str) × (decimal (suc k) n ≡ c ∷ rest) × (is_digit c ≡ true)
decimal-first k n = uncons (decimal (suc k) n) long (decimal-digits (suc k) n)
  where
    long : 0 < length (decimal (suc k) n)
    long =
        unfold decimal in ground (arith, length-append (decimal k (n / 10)) ((n % 10 + b'0') ∷ []))

strpbrk-first :
    (accept skipped : Str) (c : ℕ) (rest : Str)
    → All (λ x. has x accept ≡ false) skipped
    → has c accept ≡ true
    → strpbrk accept (skipped ++ c ∷ rest) ≡ some (c ∷ rest)
unfolding strpbrk
strpbrk-first accept [] c rest skips stops = ground arith
strpbrk-first accept (x ∷ skipped) c rest (skip, skips) stops =
    ground (arith, strpbrk-first accept skipped c rest skips stops)

has-digits : (c : ℕ) → has c (codes "0123456789") ≡ is_digit c
unfolding is_digit
has-digits c = ground arith

digit-no_unit : (c : ℕ) → is_digit c ≡ true → has c (codes "KkMmGgBb") ≡ false
unfolding is_digit
digit-no_unit c h = ground arith

pub fgets-line :
    (room : ℕ) (line rest : Str)
    → has 10 line ≡ false
    → length line < room
    → fgets room (line ++ 10 ∷ rest) ≡ (line ++ 10 ∷ [], rest)
unfolding fgets
fgets-line zero line rest h lt = absurd (omega arith)
fgets-line (suc room) [] rest h lt = refl
fgets-line (suc room) (c ∷ line) rest h lt = ground (arith, fgets-line room line rest)

label-skipped : (label : Str) → IsLabel label → All (λ x. has x (codes "0123456789") ≡ false) label
label-skipped [] is = tt
label-skipped (c ∷ label) ((no_digit, no_newline), is) =
    (has-digits c ∙ no_digit, label-skipped label is)

number-skipped :
    (s : Str)
    → All (λ c. is_digit c ≡ true) s
    → All (λ x. has x (codes "KkMmGgBb") ≡ false) (s ++ 32 ∷ [])
number-skipped [] is = (refl, tt)
number-skipped (c ∷ s) (digit, is) = (digit-no_unit c digit, number-skipped s is)

read_line-parts :
    (line p : Str) (n : ℕ) (rest : Str) (u : ℕ) (rest' : Str)
    → strpbrk (codes "0123456789") line ≡ some p
    → digits 0 p ≡ (n, rest)
    → n < 2 ^ 31
    → strpbrk (codes "KkMmGgBb") p ≡ some (u ∷ rest')
    → read_line line ≡ some (n, toupper u)
unfolding read_line atoi
read_line-parts line p n rest u rest' at value small unit =
    rw (at, read_line) (rw (value, atoi) (ground arith))

line_split :
    (label : Str) (n : ℕ)
    → meminfo_line label n ≡ label ++ (decimal 10 n ++ (codes " kB" ++ 10 ∷ []))
unfolding meminfo_line meminfo_body
line_split label n =
    append_assoc label (decimal 10 n ++ codes " kB") (10 ∷ [])
    ∙ ap (λ (s : Str). label ++ s) (append_assoc (decimal 10 n) (codes " kB") (10 ∷ []))

-- A label, a number below 2^31 and kB: the number is read, and K.
pub read_line-meminfo_line :
    (label : Str) (n : ℕ)
    → IsLabel label
    → n < 2 ^ 31
    → read_line (meminfo_line label n) ≡ some (n, toupper b'k')
read_line-meminfo_line label n is small =
    let (c, rest, e, digit) = decimal-first 9 n in
    let tail = codes " kB" ++ 10 ∷ [] in
    let at : strpbrk (codes "0123456789") (label ++ (decimal 10 n ++ tail))
        ≡ some (decimal 10 n ++ tail) =
      rw e (
        strpbrk-first (codes "0123456789") label c (rest ++ tail) (label-skipped label is)
          (has-digits c ∙ digit)) in
    let value : digits 0 (decimal 10 n ++ tail) ≡ (n, tail) =
      digits-all 0 (decimal 10 n) 32 (codes "kB" ++ 10 ∷ []) (decimal-digits 10 n)
        (unfold is_digit in refl)
      ∙ ap (λ (r : ℕ × Str). (r.0, tail)) (digits-decimal 10 n (omega arith) (omega arith)) in
    let unit : strpbrk (codes "KkMmGgBb") (decimal 10 n ++ tail) ≡ some (codes "kB" ++ 10 ∷ []) =
      rw (sym (append_assoc (decimal 10 n) (32 ∷ []) (codes "kB" ++ 10 ∷ []))) (
        strpbrk-first (codes "KkMmGgBb") (decimal 10 n ++ 32 ∷ []) b'k' (codes "B" ++ 10 ∷ [])
          (number-skipped (decimal 10 n) (decimal-digits 10 n)) refl) in
    rw (line_split label n) (
      read_line-parts (label ++ (decimal 10 n ++ tail)) (decimal 10 n ++ tail) n tail b'k'
        (codes "B" ++ 10 ∷ []) at value small unit)

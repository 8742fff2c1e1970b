-- ===== src/CpuData/Tokens.antt =====
-- How plugins/mod_cpu/cpu_data.c reads the columns of a line of /proc/stat.
use syswatcher.Base.{
  zero, suc, take, ℕ, ◌+◌, ◌-◌, ◌*◌, ◌≡◌, refl, ap, true, false, List, [], ◌∷◌, ◌++◌, some, arith,
  All, map,
}
use syswatcher.Channel.{Str}
use syswatcher.CString.{codes}
use syswatcher.CpuData.{
  num_cpustates_of_cpu_data, isspace, skip_whitespace, skip_word, skip_token, is_digit, digits,
  strtod, cpu_line, numbers, sum, columns, core_total_jiffies_func,
}

-- A number as it is printed: a digit, and more of them.
pub record Digits : Type 0 where
  pub first : ℕ
  pub others : Str

abbrev pub text_of : Digits → Str
text_of d = d.first ∷ d.others

pub record IsDigits (d : Digits) : Type 0 where
  pub first : is_digit d.first ≡ true
  pub others : All (λ c. is_digit c ≡ true) d.others

abbrev pub value : Digits → ℕ
value d = (digits 0 (text_of d)).0

-- The columns of a line, each after a space, and the end of the line.
abbrev pub line_of : List Digits → Str → Str
line_of [] rest = 10 ∷ rest
line_of (d ∷ ds) rest = 32 ∷ (text_of d ++ line_of ds rest)

pub digit-no_space : (c : ℕ) → is_digit c ≡ true → isspace c ≡ false
unfolding is_digit isspace
digit-no_space c h = ground arith

pub digits-all :
    (n : ℕ) (s : Str) (c : ℕ) (rest : Str)
    → All (λ x. is_digit x ≡ true) s
    → is_digit c ≡ false
    → digits n (s ++ c ∷ rest) ≡ ((digits n s).0, c ∷ rest)
unfolding digits
digits-all n [] c rest h ends = ground arith
digits-all n (x ∷ s) c rest (is, h) ends =
    ground (arith, digits-all (n * 10 + (x - b'0')) s c rest h ends)

-- What a line goes on with.
line_of-head :
    (ds : List Digits) (rest : Str)
    → (c : ℕ) × (more : Str) × (line_of ds rest ≡ c ∷ more)
      × (is_digit c ≡ false)
      × (isspace c ≡ true)
unfolding is_digit isspace
line_of-head [] rest = (10, rest, refl, refl, refl)
line_of-head (d ∷ ds) rest = (32, text_of d ++ line_of ds rest, refl, refl, refl)

skip_space :
    (d : Digits) (s : Str) → IsDigits d → skip_whitespace (32 ∷ (text_of d ++ s)) ≡ text_of d ++ s
unfolding skip_whitespace isspace
skip_space d s is = rw (skip_whitespace, digit-no_space d.first is.first) refl

strtod-line_of :
    (d : Digits) (ds : List Digits) (rest : Str)
    → IsDigits d
    → strtod (line_of (d ∷ ds) rest) ≡ (value d, line_of ds rest)
unfolding strtod
strtod-line_of d ds rest is =
    let (c, more, head, ends, _) = line_of-head ds rest in
    rw (head, skip_space d (c ∷ more) is)
      (digits-all 0 (text_of d) c more (is.first, is.others) ends)

strtod-stop :
    (c : ℕ) (more : Str)
    → isspace c ≡ false
    → is_digit c ≡ false
    → strtod (c ∷ more) ≡ (0, c ∷ more)
unfolding strtod skip_whitespace digits
strtod-stop c more word ends = rw (skip_whitespace, word, digits, ends) refl

strtod-end :
    (c : ℕ) (more : Str)
    → isspace c ≡ false
    → is_digit c ≡ false
    → strtod (10 ∷ c ∷ more) ≡ (0, c ∷ more)
unfolding strtod
strtod-end c more word ends =
    let skips : skip_whitespace (10 ∷ c ∷ more) ≡ skip_whitespace (c ∷ more) =
      unfold skip_whitespace isspace in refl in
    rw skips (strtod-stop c more word ends)

-- Where there is no number, only zeros are read.
sum-stop :
    (k c : ℕ) (more : Str) → isspace c ≡ false → is_digit c ≡ false → sum (numbers k (c ∷ more)) ≡ 0
unfolding numbers sum
sum-stop zero c more word ends = refl
sum-stop (suc k) c more word ends =
    rw (strtod-stop c more word ends, sum-stop k c more word ends) refl

-- So many numbers from the columns of a line: columns that are missing count as 0.
sum-line_of :
    (k : ℕ) (ds : List Digits) (c : ℕ) (more : Str)
    → All IsDigits ds
    → isspace c ≡ false
    → is_digit c ≡ false
    → sum (numbers k (line_of ds (c ∷ more))) ≡ sum (take k (map value ds))
unfolding numbers sum
sum-line_of zero ds c more h word ends = refl
sum-line_of (suc k) [] c more h word ends =
    rw (strtod-end c more word ends, sum-stop k c more word ends) refl
sum-line_of (suc k) (d ∷ ds) c more (is, h) word ends =
    rw (strtod-line_of d ds (c ∷ more) is, sum-line_of k ds c more h word ends) refl

skip_word-line_of :
    (name : Str) (ds : List Digits) (rest : Str)
    → All (λ c. isspace c ≡ false) name
    → skip_word (name ++ line_of ds rest) ≡ line_of ds rest
unfolding skip_word
skip_word-line_of [] ds rest h =
    let (c, more, head, _, space) = line_of-head ds rest in rw (head, skip_word, space) refl
skip_word-line_of (x ∷ name) ds rest (is, h) = rw (skip_word, is) (skip_word-line_of name ds rest h)

skip_name : (name s : Str) → skip_token (codes "cpu" ++ (name ++ s)) ≡ skip_word (name ++ s)
unfolding skip_token skip_whitespace skip_word isspace
skip_name name s = refl

-- If what follows the "cpu" of a core's line is the core's number, or nothing, then columns of digits,
-- each after a space, the end of the line, and a line that begins with a character that is no digit and
-- no space, the total is the sum of the first eight columns, or of all of them if there are fewer,
-- however many the kernel has.
pub core_total_jiffies_func-sum :
    (core : ℕ) (stat name : Str) (ds : List Digits) (c : ℕ) (more : Str)
    → cpu_line (core + 1) stat ≡ some (name ++ line_of ds (c ∷ more))
    → All (λ x. isspace x ≡ false) name
    → All IsDigits ds
    → isspace c ≡ false
    → is_digit c ≡ false
    → core_total_jiffies_func num_cpustates_of_cpu_data core stat
      ≡ some (sum (take 8 (map value ds)))
unfolding core_total_jiffies_func columns
core_total_jiffies_func-sum core stat name ds c more line no_space h word ends =
    rw
      (
        core_total_jiffies_func,
        line,
        skip_name name (line_of ds (c ∷ more)),
        skip_word-line_of name ds (c ∷ more) no_space,
      )
      (ap some (sum-line_of 8 ds c more h word ends))

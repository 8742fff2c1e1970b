-- ===== src/CString.antt =====
-- C strings as the lists of their bytes before the NUL, and the functions of string.h that the
-- sources use on them.
use Prim.Native.Char.{code}
use Prim.Native.String.{String}
use syswatcher.Base.{
  Option, none, some, ℕ, zero, suc, ◌≡◌, refl, Bool, true, false, ◌&&◌, ◌||◌, [], ◌∷◌, ◌++◌, arith,
  ◌==◌, if◌then◌else◌, has,
}
use syswatcher.Channel.{Str}

-- The bytes of an ASCII literal.
abbrev pub codes : String → Str
codes String.[] = []
codes (String.◌∷◌ c s) = code c ∷ codes s

-- !strncmp(a, b, n)
unfoldable pub strncmp_eq : ℕ → Str → Str → Bool
strncmp_eq zero a b = true
strncmp_eq (suc n) [] [] = true
strncmp_eq (suc n) [] (y ∷ b) = false
strncmp_eq (suc n) (x ∷ a) [] = false
strncmp_eq (suc n) (x ∷ a) (y ∷ b) = x == y && strncmp_eq n a b

-- !strcmp(a, b)
unfoldable pub strcmp_eq : Str → Str → Bool
strcmp_eq [] [] = true
strcmp_eq [] (y ∷ b) = false
strcmp_eq (x ∷ a) [] = false
strcmp_eq (x ∷ a) (y ∷ b) = x == y && strcmp_eq a b

-- What follows the last `/`; `best` is the answer if there is none.
unfoldable pub after_slash : Str → Str → Str
after_slash best [] = best
after_slash best (c ∷ s) = after_slash (if c == b'/' then s else best) s

-- Is the text a prefix?
unfoldable pub starts_with : Str → Str → Bool
starts_with [] s = true
starts_with (k ∷ key) [] = false
starts_with (k ∷ key) (c ∷ s) = k == c && starts_with key s

-- strstr(s, key) != NULL
unfoldable pub contains : Str → Str → Bool
unfolding starts_with
contains key [] = starts_with key []
contains key (c ∷ s) = starts_with key (c ∷ s) || contains key s

-- What follows the first occurrence of a key, with the key.
unfoldable pub strstr : Str → Str → Option Str
strstr key [] = if starts_with key [] then some [] else none
strstr key (c ∷ s) = elim (starts_with key (c ∷ s)) [ true ↦ some (c ∷ s) | false ↦ strstr key s ]

-- The bytes before a newline; without one strchr gives NULL.
unfoldable pub up_to_newline : Str → Option Str
up_to_newline [] = none
up_to_newline (c ∷ s) =
    let rest = up_to_newline s in
    if c == 10 then some [] else elim rest [ none ↦ none | some line ↦ some (c ∷ line) ]

-- A line of at most `room` bytes, with its newline, and what follows it.
unfoldable pub fgets : ℕ → Str → Str × Str
fgets room [] = ([], [])
fgets zero (c ∷ s) = ([], c ∷ s)
fgets (suc room) (c ∷ s) = elim (c == 10) [
  | true ↦ (c ∷ [], s)
  | false ↦ let (line, rest) = fgets room s in (c ∷ line, rest)
]

pub strncmp_eq_refl : (n : ℕ) (a : Str) → strncmp_eq n a a ≡ true
unfolding strncmp_eq
strncmp_eq_refl zero a = refl
strncmp_eq_refl (suc n) [] = refl
strncmp_eq_refl (suc n) (x ∷ a) = ground (arith, strncmp_eq_refl n a)

pub strncmp_eq_sym : (n : ℕ) (a b : Str) → strncmp_eq n a b ≡ strncmp_eq n b a
unfolding strncmp_eq
strncmp_eq_sym zero a b = refl
strncmp_eq_sym (suc n) [] [] = refl
strncmp_eq_sym (suc n) [] (y ∷ b) = refl
strncmp_eq_sym (suc n) (x ∷ a) [] = refl
strncmp_eq_sym (suc n) (x ∷ a) (y ∷ b) = ground (arith, strncmp_eq_sym n a b)

pub strncmp_eq_trans :
    (n : ℕ) (a b c : Str) → strncmp_eq n a b ≡ true → strncmp_eq n b c ≡ strncmp_eq n a c
unfolding strncmp_eq
strncmp_eq_trans zero a b c h = refl
strncmp_eq_trans (suc n) [] [] c h = refl
strncmp_eq_trans (suc n) [] (y ∷ b) c h = cc
strncmp_eq_trans (suc n) (x ∷ a) [] c h = cc
strncmp_eq_trans (suc n) (x ∷ a) (y ∷ b) [] h = refl
strncmp_eq_trans (suc n) (x ∷ a) (y ∷ b) (z ∷ c) h = ground (arith, strncmp_eq_trans n a b c)

pub starts_with-append : (key rest : Str) → starts_with key (key ++ rest) ≡ true
unfolding starts_with
starts_with-append [] rest = refl
starts_with-append (k ∷ key) rest = ground (arith, starts_with-append key rest)

pub contains-append : (key rest : Str) → contains key (key ++ rest) ≡ true
unfolding contains starts_with
contains-append [] [] = refl
contains-append [] (c ∷ rest) = refl
contains-append (k ∷ key) rest = ground (arith, starts_with-append key rest)

after_slash-none : (best s : Str) → has b'/' s ≡ false → after_slash best s ≡ best
unfolding after_slash
after_slash-none best [] h = refl
after_slash-none best (c ∷ s) h = ground (arith, after_slash-none best s)

-- A text that holds no `/` is what follows the last one.
pub after_slash-append :
    (best dir name : Str) → has b'/' name ≡ false → after_slash best (dir ++ b'/' ∷ name) ≡ name
unfolding after_slash
after_slash-append best [] name h = after_slash-none name name h
after_slash-append best (c ∷ dir) name h =
    after_slash-append (if c == b'/' then dir ++ b'/' ∷ name else best) dir name h

pub strcmp_eq_refl : (a : Str) → strcmp_eq a a ≡ true
unfolding strcmp_eq
strcmp_eq_refl [] = refl
strcmp_eq_refl (x ∷ a) = ground (arith, strcmp_eq_refl a)

pub strcmp_eq_sound : (a b : Str) → strcmp_eq a b ≡ true → a ≡ b
unfolding strcmp_eq
strcmp_eq_sound [] [] h = refl
strcmp_eq_sound [] (y ∷ b) h = cc
strcmp_eq_sound (x ∷ a) [] h = cc
strcmp_eq_sound (x ∷ a) (y ∷ b) h = ground (arith, strcmp_eq_sound a b)

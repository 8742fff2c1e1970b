-- ===== src/SysInfo/Release.antt =====
-- What plugins/mod_sysinfo/libsysinfo.c takes from the output of lsb_release.
use mathlib.Core.List.{append_assoc}
use syswatcher.Base.{
  ℕ, ◌+◌, ◌<◌, ◌≡◌, refl, sym, false, some, List, [], ◌∷◌, ◌++◌, arith, length, length-append, has,
  has-append,
}
use syswatcher.Channel.{Str}
use syswatcher.CString.{codes, strstr, up_to_newline, fgets, starts_with}
use syswatcher.Display.{m_string}
use syswatcher.Memory.Reading.{fgets-line}
use syswatcher.Plugin.{Datum, str}
use syswatcher.SysInfo.{after_colon, set_text, os_release_collect}

-- A line of lsb_release: a label, a colon, a tab, and the value.
unfoldable pub release_line : Str → Str → Str
release_line label value = label ++ (b':' ∷ 9 ∷ (value ++ 10 ∷ []))

strstr-colon :
    (label rest : Str)
    → has b':' label ≡ false
    → strstr (codes ":") (label ++ b':' ∷ rest) ≡ some (b':' ∷ rest)
unfolding strstr starts_with
strstr-colon [] rest h = refl
strstr-colon (c ∷ label) rest h = ground (arith, strstr-colon label rest)

up_to_newline-line : (s rest : Str) → has 10 s ≡ false → up_to_newline (s ++ 10 ∷ rest) ≡ some s
unfolding up_to_newline
up_to_newline-line [] rest h = refl
up_to_newline-line (c ∷ s) rest h = ground (arith, up_to_newline-line s rest)

fgets-release :
    (label value rest : Str)
    → has 10 label ≡ false
    → has 10 value ≡ false
    → length label + length value < 1000
    → fgets 1023 (release_line label value ++ rest) ≡ (release_line label value, rest)
unfolding release_line
fgets-release label value rest h h' short =
    let body = label ++ (b':' ∷ 9 ∷ value) in
    let split : label ++ (b':' ∷ 9 ∷ (value ++ 10 ∷ [])) ≡ body ++ 10 ∷ [] =
      sym (append_assoc label (b':' ∷ 9 ∷ value) (10 ∷ [])) in
    let no_newline : has 10 body ≡ false = ground (arith, has-append 10 label (b':' ∷ 9 ∷ value)) in
    let line =
      fgets-line 1023 body rest no_newline
        (omega (arith, length-append label (b':' ∷ 9 ∷ value))) in
    rw (split, append_assoc body (10 ∷ []) rest) line

after_colon-parts :
    (output line rest p value : Str) (a b : ℕ)
    → fgets 1023 output ≡ (line, rest)
    → strstr (codes ":") line ≡ some p
    → up_to_newline p ≡ some (a ∷ b ∷ value)
    → after_colon (some output) ≡ some value
unfolding after_colon
after_colon-parts output line rest p value a b e e' e'' =
    rw (e, after_colon) (rw (e', after_colon) (rw (e'', after_colon) refl))

-- From the output of lsb_release, the value on its line.
pub after_colon-release_line :
    (label value rest : Str)
    → has b':' label ≡ false
    → has 10 label ≡ false
    → has 10 value ≡ false
    → length label + length value < 1000
    → after_colon (some (release_line label value ++ rest)) ≡ some value
after_colon-release_line label value rest no_colon h h' short =
    let found : strstr (codes ":") (release_line label value)
        ≡ some (b':' ∷ 9 ∷ (value ++ 10 ∷ [])) =
      unfold release_line in strstr-colon label (9 ∷ (value ++ 10 ∷ [])) no_colon in
    after_colon-parts _ _ rest _ value b':' 9 (fgets-release label value rest h h' short) found
      (up_to_newline-line (b':' ∷ 9 ∷ value) [] (ground arith))

-- From the outputs of the two calls of lsb_release, each a line with a label without a colon, a
-- colon, a tab and a value of less than 128 bytes, os_release_collect takes the two values, as
-- texts, into the first two entries of the block; their units stay as they were in the block.
pub os_release_collect-release_line :
    (label name label' version rest rest' : Str) (v w : Datum) (others : List Datum)
    → has b':' label ≡ false
    → has 10 label ≡ false
    → length label < 800
    → has b':' label' ≡ false
    → has 10 label' ≡ false
    → length label' < 800
    → has 10 name ≡ false
    → length name < 128
    → has 10 version ≡ false
    → length version < 128
    → os_release_collect
        (some (release_line label name ++ rest))
        (some (release_line label' version ++ rest'))
        (v ∷ w ∷ others)
      ≡ some (
          (record { name = codes "distributor"; unit = v.unit; t = m_string; val = str name })
          ∷ (record { name = codes "version"; unit = w.unit; t = m_string; val = str version })
          ∷ others)
unfolding os_release_collect set_text
os_release_collect-release_line label name label' version rest rest' v w others c n l c' n' l' h
      short h' short' =
    let first = after_colon-release_line label name rest c n h (omega arith) in
    let second = after_colon-release_line label' version rest' c' n' h' (omega arith) in
    ground arith

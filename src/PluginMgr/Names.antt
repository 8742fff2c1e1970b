-- ===== src/PluginMgr/Names.antt =====
-- The names of plugins and of their parameters in core/plugin_mgr.c.
use syswatcher.Base.{
  ℕ, zero, suc, ◌+◌, ◌-◌, ◌≤◌, ◌<◌, ◌≡◌, refl, ap, true, false, List, [], ◌∷◌, ◌++◌, none, some,
  arith, has, has-append, length, length-append, take, drop, All,
}
use syswatcher.Channel.{Str}
use syswatcher.CString.{codes, contains, contains-append, after_slash, after_slash-append}
use syswatcher.PluginMgr.Parser.{name_in, plugin_name_of}
use syswatcher.PluginMgr.Param.{skip_spaces, after_sign, find_in}

take-append : (xs ys : Str) → take (length xs) (xs ++ ys) ≡ xs
take-append [] ys = refl
take-append (x ∷ xs) ys = ap (◌∷◌ x) (take-append xs ys)

drop-append : (xs ys : Str) → drop (length xs) (xs ++ ys) ≡ ys
drop-append [] ys = refl
drop-append (x ∷ xs) ys = drop-append xs ys

-- The file of a plugin.
abbrev pub library_of : Str → Str
library_of name = codes "lib" ++ name ++ codes ".so"

module _ (dir name : Str) (no_slash : has b'/' name ≡ false) where
  base_name : (best : Str) → after_slash best (dir ++ b'/' ∷ library_of name) ≡ library_of name
  base_name best =
      after_slash-append best dir (library_of name)
        (ground (arith, has-append b'/' name (codes ".so")))

  size : length (library_of name) ≡ length name + 6
  size = omega (arith, length-append name (codes ".so"))

  -- For a library `lib<name>.so` in any directory, the name is taken out of the path, if it has no
  -- slash and at most 253 bytes.
  pub plugin_name_of-library_of :
      length name ≤ 253 → plugin_name_of (dir ++ b'/' ∷ library_of name) ≡ some name
  unfolding plugin_name_of name_in
  plugin_name_of-library_of fits =
      rw (base_name (dir ++ b'/' ∷ library_of name))
        (ground (arith, size, back, take-append name (codes ".so")))
    where
      back : length (library_of name) - 6 ≡ length name
      back = omega (arith, size)

  -- A name without a slash and of more than 253 bytes is copied past the end of its buffer.
  pub plugin_name_of_overflow :
      253 < length name → plugin_name_of (dir ++ b'/' ∷ library_of name) ≡ none
  unfolding plugin_name_of name_in
  plugin_name_of_overflow long =
      rw (base_name (dir ++ b'/' ∷ library_of name)) (ground (arith, size))

-- An argument `key = value`, with so many spaces before the sign.
abbrev pub spaces : ℕ → Str → Str
spaces zero s = s
spaces (suc n) s = b' ' ∷ spaces n s

skip_spaces-spaces : (n : ℕ) (s : Str) → skip_spaces (spaces n (b'=' ∷ s)) ≡ b'=' ∷ s
unfolding skip_spaces
skip_spaces-spaces zero s = refl
skip_spaces-spaces (suc n) s = skip_spaces-spaces n s

-- If an argument is the key, any number of spaces, `=` and a value, and no argument before it holds
-- the key anywhere, the value is found, as long as the argument is among those counted.
pub find_in-value :
    (before after : List Str) (key value : Str) (n left : ℕ)
    → All (λ a. contains key a ≡ false) before
    → length before < left
    → find_in left (before ++ (key ++ spaces n (b'=' ∷ value)) ∷ after) key ≡ some (some value)
unfolding find_in after_sign
find_in-value [] after key value n zero none_before enough = absurd (omega arith)
find_in-value [] after key value n (suc left) none_before enough = rw (
  contains-append key (spaces n (b'=' ∷ value)),
  drop-append key (spaces n (b'=' ∷ value)),
  skip_spaces-spaces n value,
)
find_in-value (a ∷ before) after key value n zero none_before enough = absurd (omega arith)
find_in-value (a ∷ before) after key value n (suc left) none_before enough =
    rw none_before.0 (find_in-value before after key value n left none_before.1 (omega arith))

-- A first argument for another parameter whose name is as long as the key is taken for the one asked
-- for, if the key stands anywhere in it.
pub find_in_confused :
    (args : List Str) (key other value : Str) (left : ℕ)
    → length other ≡ length key
    → contains key (other ++ b'=' ∷ value) ≡ true
    → find_in (suc left) ((other ++ b'=' ∷ value) ∷ args) key ≡ some (some value)
unfolding find_in after_sign skip_spaces
find_in_confused args key other value left same inside =
    rw (inside, ← same, drop-append other (b'=' ∷ value))

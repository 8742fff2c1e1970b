-- ===== src/PluginMgr/Param.antt =====
-- find_param of core/plugin_mgr.c: how a plugin reads its parameters.
use syswatcher.Base.{
  ℕ, zero, suc, true, false, List, [], ◌∷◌, Option, none, some, ◌==◌, if◌then◌else◌, length, drop,
}
use syswatcher.Channel.{Str, PluginInfo}
use syswatcher.CString.{contains}

-- while (*p == ' ') p++;
unfoldable pub skip_spaces : Str → Str
skip_spaces [] = []
skip_spaces (c ∷ s) = elim (c == b' ') [ true ↦ skip_spaces s | false ↦ c ∷ s ]

-- What follows the `=` sign, if one is next.
unfoldable pub after_sign : Str → Option Str
after_sign [] = none
after_sign (c ∷ s) = if c == b'=' then some s else none

-- The loop over the first `left` arguments. To read past the array is a fault, the outer `none`.
unfoldable pub find_in : (left : ℕ) → List Str → Str → Option (Option Str)
unfolding contains skip_spaces after_sign
find_in zero args key = some none
find_in (suc left) [] key = none
find_in (suc left) (arg ∷ args) key =
    let next = find_in left args key in
    if contains key arg
    then elim (after_sign (skip_spaces (drop (length key) arg))) [
      | none ↦ next
      | some value ↦ some (some value)
    ]
    else next

unfoldable pub find_param : Option PluginInfo → Option Str → Option (Option Str)
unfolding find_in
find_param none key = some none
find_param (some info) none = some none
find_param (some info) (some []) = some none
find_param (some info) (some (k ∷ key)) = find_in info.argc info.argv (k ∷ key)

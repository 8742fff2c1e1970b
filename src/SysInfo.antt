-- ===== src/SysInfo.antt =====
-- The system information plugin (plugins/mod_sysinfo/libsysinfo.c). The output of lsb_release and the
-- version that the copy of dmidecode finds are arguments. `none` stands for a use of NULL, a read of
-- memory that was never written, or a write past an array.
pub mod Release
pub mod Entry
mod Examples
use syswatcher.Base.{
  ℕ, Bool, true, false, Option, none, some, List, [], ◌∷◌, ltb, if◌then◌else◌, length,
}
use syswatcher.Channel.{Str}
use syswatcher.CString.{codes, strstr, up_to_newline, fgets}
use syswatcher.Display.{m_string}
use syswatcher.Plugin.{Datum, str}

-- What stands on the first line two bytes after the first colon.
unfoldable pub after_colon : Option Str → Option Str
unfolding strstr up_to_newline fgets
after_colon none = none
after_colon (some output) = elim (strstr (codes ":") (fgets 1023 output).0) [
  | none ↦ none
  | some p ↦ elim (up_to_newline p) [
    | none ↦ none
    | some [] ↦ none
    | some (colon ∷ []) ↦ none
    | some (colon ∷ c ∷ value) ↦ some value
  ]
]

-- The name, the type and the text of a value; the unit stays as it is in the block.
unfoldable pub set_text : Str → Str → Datum → Option Datum
set_text name text v =
    if ltb 127 (length text)
    then none
    else some (record { name = name; unit = v.unit; t = m_string; val = str text })

unfoldable pub os_release_collect :
    (name_output version_output : Option Str) → List Datum → Option (List Datum)
unfolding after_colon set_text
os_release_collect name_output version_output [] = none
os_release_collect name_output version_output (v ∷ []) = none
os_release_collect name_output version_output (v ∷ w ∷ rest) = elim (after_colon name_output) [
  | none ↦ none
  | some name ↦ elim (after_colon version_output) [
    | none ↦ none
    | some version ↦ elim (set_text (codes "distributor") name v) [
      | none ↦ none
      | some v' ↦ elim (set_text (codes "version") version w) [
        | none ↦ none
        | some w' ↦ some (v' ∷ w' ∷ rest)
      ]
    ]
  ]
]

-- `dmidecode_val` after dmi_bios_version().
unfoldable pub bios_release_collect : (dmidecode_val : Str) → List Datum → Option (List Datum)
unfolding set_text
bios_release_collect dmidecode_val [] = none
bios_release_collect dmidecode_val (v ∷ rest) =
    elim (set_text (codes "BIOS Revision") dmidecode_val v) [
      | none ↦ none
      | some v' ↦ some (v' ∷ rest)
    ]

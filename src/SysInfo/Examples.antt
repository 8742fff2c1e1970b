-- ===== src/SysInfo/Examples.antt =====
-- The system information of an Ubuntu system.
use syswatcher.Base.{◌≡◌, refl, some, List, [], ◌∷◌, ◌++◌, arith, pos}
use syswatcher.CString.{codes}
use syswatcher.Display.{m_int32, m_string}
use syswatcher.Plugin.{Datum, int32, str}
use syswatcher.Plugin.Items.{Written}
use syswatcher.Plugin.Typed.{Collects, collected-Written}
use syswatcher.SysInfo.Entry.{os_item}
use syswatcher.SysInfo.{os_release_collect}
use syswatcher.SysInfo.Release.{release_line, os_release_collect-release_line}

abbrev unwritten : Datum
unwritten = record { name = []; unit = codes "?"; t = m_int32; val = int32 (pos 0) }

abbrev written : List Datum
written =
    (record {
      name = codes "distributor";
      unit = codes "?";
      t = m_string;
      val = str (codes "Ubuntu");
    })
    ∷ (record { name = codes "version"; unit = codes "?"; t = m_string; val = str (codes "22.04") })
    ∷ []

os_release_collect-release_line_example :
    os_release_collect
      (some (release_line (codes "Distributor ID") (codes "Ubuntu") ++ []))
      (some (release_line (codes "Release") (codes "22.04") ++ []))
      (unwritten ∷ unwritten ∷ [])
    ≡ some written
os_release_collect-release_line_example =
    os_release_collect-release_line (codes "Distributor ID") (codes "Ubuntu") (codes "Release")
      (codes "22.04") [] [] unwritten unwritten [] refl refl (omega arith) refl refl (omega arith)
      refl (omega arith) refl (omega arith)

collected-Written_example : Written os_item.data_count written
collected-Written_example = collected-Written os_item written (
    Collects.os_information os_item _ _ unwritten unwritten written refl (omega arith) (omega arith)
      (os_release_collect-release_line (codes "Distributor ID") (codes "Ubuntu") (codes "Release")
        (codes "22.04") [] [] unwritten unwritten [] refl refl (omega arith) refl refl (omega arith)
        refl (omega arith) refl (omega arith)))

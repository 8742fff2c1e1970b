-- ===== src/Disk/Mounts.antt =====
-- The mounts that find_disk_space of plugins/mod_disk/libdisk.c counts, each device once.
use syswatcher.Base.{
  ◌≡◌, refl, true, false, none, some, List, [], ◌∷◌, if◌then◌else◌, arith, Bool-cases, inl, inr,
}
use syswatcher.Channel.{Str}
use syswatcher.CString.{strcmp_eq, strcmp_eq_sound, strcmp_eq_refl}
use syswatcher.DeviceTable.{find_name}
use syswatcher.DeviceTable.Refines.{NoTwice}
use syswatcher.Disk.{Mount, parse_mount, counts_mount, fgets_lines}

-- The mounts that the loop counts.
unfoldable pub counted : List Str → List Mount
counted [] = []
counted (line ∷ lines) = elim (parse_mount line) [
  | none ↦ counted lines
  | some m ↦ let rest = counted lines in if counts_mount m then m ∷ rest else rest
]

-- The first mount of each device, of those that are not in `seen`.
unfoldable pub first_mounts : List Str → List Mount → List Mount
first_mounts seen [] = []
first_mounts seen (m ∷ ms) =
    let rest = first_mounts (m.device ∷ seen) ms in
    if find_name m.device seen then rest else m ∷ rest

abbrev pub devices : List Mount → List Str
devices [] = []
devices (m ∷ ms) = m.device ∷ devices ms

-- The devices of the first mounts are those of the mounts that are not in `seen`, each once.
first_mounts-seen :
    (d : Str) (seen : List Str) (ms : List Mount)
    → find_name d seen ≡ true
    → find_name d (devices (first_mounts seen ms)) ≡ false
unfolding first_mounts find_name
first_mounts-seen d seen [] h = refl
first_mounts-seen d seen (m ∷ ms) h = elim (Bool-cases (strcmp_eq d m.device)) [
  | inl same ↦
      let e : d ≡ m.device = strcmp_eq_sound d m.device same in
      let found : find_name m.device seen ≡ true = rw (← e) h in
      ground (arith, first_mounts-seen d (m.device ∷ seen) ms)
  | inr other ↦ ground (arith, first_mounts-seen d (m.device ∷ seen) ms)
]

first_mounts-NoTwice :
    (seen : List Str) (ms : List Mount) → NoTwice (devices (first_mounts seen ms))
unfolding first_mounts
first_mounts-NoTwice seen [] = tt
first_mounts-NoTwice seen (m ∷ ms) =
    let rest = first_mounts-NoTwice (m.device ∷ seen) ms in
    let self : find_name m.device (m.device ∷ seen) ≡ true =
      unfold find_name in ground (arith, strcmp_eq_refl m.device) in
    let out = first_mounts-seen m.device (m.device ∷ seen) ms self in ground arith

find_name-first_mounts :
    (d : Str) (seen : List Str) (ms : List Mount)
    → find_name d seen ≡ false
    → find_name d (devices (first_mounts seen ms)) ≡ find_name d (devices ms)
unfolding first_mounts find_name
find_name-first_mounts d seen [] h = refl
find_name-first_mounts d seen (m ∷ ms) h = elim (Bool-cases (strcmp_eq d m.device)) [
  | inl same ↦
      let e : d ≡ m.device = strcmp_eq_sound d m.device same in
      let new : find_name m.device seen ≡ false = rw (← e) h in ground arith
  | inr other ↦ ground (arith, find_name-first_mounts d (m.device ∷ seen) ms)
]

-- The file systems of a text of /proc/mounts: the first mount of each device that counts.
unfoldable pub file_systems : Str → List Mount
unfolding first_mounts counted fgets_lines
file_systems text = first_mounts [] (counted (fgets_lines 1023 1023 [] text))

pub file_systems-once :
    (text : Str)
    → NoTwice (devices (file_systems text))
      × ((d : Str)
          → find_name d (devices (file_systems text))
            ≡ find_name d (devices (counted (fgets_lines 1023 1023 [] text))))
unfolding file_systems
file_systems-once text =
    let ms = counted (fgets_lines 1023 1023 [] text) in
    (first_mounts-NoTwice [] ms, λ d. find_name-first_mounts d [] ms (unfold find_name in refl))

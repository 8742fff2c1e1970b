-- ===== src/File/Examples.antt =====
-- The file helpers on a file of five bytes, with a buffer of four.
use syswatcher.Base.{
  ℕ, ◌-◌, ◌≡◌, refl, true, ◌&&◌, none, some, List, [], ◌∷◌, ◌==◌, if◌then◌else◌, length, take,
  arith,
}
use syswatcher.CString.{codes}
use syswatcher.File.{
  Read, got, interrupted, slurpfile, Timeval, micros, timediff_gt, TimelyFile, update_file,
}
use syswatcher.File.Slurp.{Delivers, room_for, slurpfile-whole}
use syswatcher.File.Timely.{IsTimely, update_file-IsTimely}
use syswatcher.File.Twice.{text_after, update_file-twice}

abbrev five_reads : List Read
five_reads = got (codes "abcd") ∷ interrupted ∷ got (codes "e") ∷ []

five_reads-Delivers : Delivers 4 (codes "abcde") five_reads
five_reads-Delivers =
    Delivers.more (codes "abcd") (codes "e") _ _ refl refl
      (Delivers.again _ _ (Delivers.last (codes "e") [] (omega arith)))

slurpfile-whole_example :
    slurpfile true none 4 five_reads
    ≡ some (record {
      buffer = some (record { text = codes "abcde"; capacity = room_for 4 5 });
      result = some 5;
    })
slurpfile-whole_example =
    slurpfile-whole none 4 (codes "abcde") five_reads (omega arith) five_reads-Delivers

abbrev at : ℕ → Timeval
at sec = record { tv_sec = sec; tv_usec = 0 }

abbrev unread : TimelyFile
unread = record { last_read = at 0; thresh = 1000000; buffer = none; buffersize = 4 }

abbrev read_once : TimelyFile
read_once = record {
  last_read = at 100;
  thresh = 1000000;
  buffer = some (record { text = codes "abcde"; capacity = 8 });
  buffersize = 8;
}

reads_once : update_file (at 100) true five_reads unread ≡ some read_once
unfolding update_file micros timediff_gt
reads_once = refl

update_file-IsTimely_example : IsTimely read_once
update_file-IsTimely_example =
    update_file-IsTimely (at 100) true five_reads unread read_once (omega arith)
      (record { size = omega arith; fits = tt }) reads_once

update_file-twice_example :
    text_after (update_file (at 200) true (got (codes "abcdf") ∷ []) read_once)
    ≡ some (
        if length (codes "abcde") == 4 && length (codes "abcdf") == 4
        then take (4 - 1) (codes "abcdf")
        else codes "abcdf")
unfolding timediff_gt micros
update_file-twice_example =
    update_file-twice (at 100) (at 200) unread (codes "abcde") (codes "abcdf") five_reads
      (got (codes "abcdf") ∷ []) read_once (omega arith) refl refl five_reads-Delivers reads_once
      refl (Delivers.last (codes "abcdf") [] (omega arith)) (omega arith)

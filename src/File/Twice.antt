-- ===== src/File/Twice.antt =====
-- Two readings by update_file (plugins/libs/file.c).
use syswatcher.Base.{
  ℕ, ◌+◌, ◌-◌, ◌*◌, ◌/◌, ◌≤◌, ◌<◌, ◌≡◌, ◌∙◌, subst, true, ◌&&◌, Option, none, some, List, ◌==◌, ltb,
  if◌then◌else◌, length, take, arith,
}
use syswatcher.Channel.{Str}
use syswatcher.File.{Read, Buffer, Timeval, timediff_gt, TimelyFile, keep_buffer, update_file}
use syswatcher.File.Slurp.{Delivers, room_for, room_for-above, slurpfile-whole}
use syswatcher.File.Timely.{size-positive}

-- The text of the copy that update_file has left.
abbrev pub text_after : Option TimelyFile → Option Str
text_after none = none
text_after (some tf) = elim tf.buffer [ none ↦ none | some b ↦ some b.text ]

-- The first reading of a file, and a later one.
first_reading :
    (now : Timeval) (tf : TimelyFile) (s : Str) (reads : List Read)
    → 0 < tf.buffersize
    → tf.buffer ≡ none
    → timediff_gt now tf.last_read tf.thresh ≡ true
    → Delivers tf.buffersize s reads
    → update_file now true reads tf
      ≡ some (record {
        last_read = now;
        thresh = tf.thresh;
        buffer = some (record { text = s; capacity = room_for tf.buffersize (length s) });
        buffersize =
            if ltb tf.buffersize (length s)
            then (length s / tf.buffersize + 1) * tf.buffersize
            else tf.buffersize;
      })
unfolding update_file keep_buffer
first_reading now tf s reads some_ null older d =
    let whole = slurpfile-whole none tf.buffersize s reads some_ d in ground arith

later_reading :
    (now last : Timeval) (thresh bs : ℕ) (b : Buffer) (s : Str) (reads : List Read)
    → 0 < bs
    → timediff_gt now last thresh ≡ true
    → Delivers bs s reads
    → text_after (
        update_file now true reads
          (record { last_read = last; thresh = thresh; buffer = some b; buffersize = bs }))
      ≡ some (if ltb (length s) bs then s else take (bs - 1) s)
unfolding update_file keep_buffer
later_reading now last thresh bs b s reads some_ older d =
    let whole = slurpfile-whole (some b) bs s reads some_ d in ground arith

-- Two readings of a file, the first without a buffer, the second of a text that is not longer than
-- the first; each when the copy is older than the threshold. The copy is then the second text,
-- unless both texts have as many bytes as the first buffer: then it lacks the last byte.
pub update_file-twice :
    (first second : Timeval) (tf : TimelyFile) (s s' : Str) (reads reads' : List Read)
    (tf' : TimelyFile)
    → 0 < tf.buffersize
    → tf.buffer ≡ none
    → timediff_gt first tf.last_read tf.thresh ≡ true
    → Delivers tf.buffersize s reads
    → update_file first true reads tf ≡ some tf'
    → timediff_gt second first tf.thresh ≡ true
    → Delivers tf'.buffersize s' reads'
    → length s' ≤ length s
    → text_after (update_file second true reads' tf')
      ≡ some (
          if length s == tf.buffersize && length s' == tf.buffersize
          then take (tf.buffersize - 1) s'
          else s')
update_file-twice first second tf s s' reads reads' tf' some_ null older d e older' d' le =
    let bs = tf.buffersize in
    let n = length s in
    let size = if ltb bs n then (n / bs + 1) * bs else bs in
    let read_first = first_reading first tf s reads some_ null older d in
    let same : tf' ≡ record {
      last_read = first;
      thresh = tf.thresh;
      buffer = some (record { text = s; capacity = room_for bs n });
      buffersize = size;
    } =
      ground arith in
    let enough : Delivers size s' reads' =
      subst (λ (t : TimelyFile). Delivers t.buffersize s' reads') same d' in
    let read_later =
      later_reading second first tf.thresh size (record { text = s; capacity = room_for bs n }) s'
        reads' (size-positive bs n some_) older' enough in
    let above : n < room_for bs n = room_for-above bs n some_ in
    rw same (read_later ∙ which bs n (length s') s' above le)
  where
    which :
        (bs n n' : ℕ) (s' : Str)
        → n < room_for bs n
        → n' ≤ n
        → ◌≡◌ {A = Option Str}
            (some (
              if ltb n' (if ltb bs n then (n / bs + 1) * bs else bs)
              then s'
              else take ((if ltb bs n then (n / bs + 1) * bs else bs) - 1) s'))
            (some (if n == bs && n' == bs then take (bs - 1) s' else s'))
    which bs n n' s' above le = unfold room_for in ground arith

-- ===== src/File.antt =====
-- The file helpers of the plugins (plugins/libs/file.c, plugins/include/gm_file.h): reading a file
-- into a buffer, and the copy of a file that is read again when it is too old. What open and read
-- give is an argument; malloc and realloc succeed. A time and an age are in microseconds, where the
-- program rounds the difference to a float.
pub mod Slurp
pub mod Timely
pub mod Twice
mod Examples
use syswatcher.Base.{
  ℕ, zero, suc, ◌+◌, ◌-◌, ◌*◌, ◌/◌, Bool, true, false, not, Option, none, some, List, [], ◌∷◌, ◌++◌,
  ◌==◌, ltb, if◌then◌else◌, length, take,
}
use syswatcher.Channel.{Str}

-- A call of read: the bytes it stores, an interruption by a signal, or another error.
pub data Read : Type 0 where
  got : Str → Read
  interrupted : Read
  failed : Read

-- The bytes before the NUL that slurpfile sets, and the size of the block.
pub record Buffer : Type 0 where
  pub text : Str
  pub capacity : ℕ

-- What slurpfile leaves in *buffer, and what it returns: `none` is SLURP_FAILURE.
pub record Slurped : Type 0 where
  pub buffer : Option Buffer
  pub result : Option ℕ

-- From `read:` on, with a buffer that slurpfile allocated; `none` if the reads do not end.
unfoldable pub slurp_dynamic : (buflen dynamic sl : ℕ) → Str → List Read → Option Slurped
slurp_dynamic buflen dynamic sl text [] = none
slurp_dynamic buflen dynamic sl text (interrupted ∷ reads) =
    slurp_dynamic buflen dynamic sl text reads
slurp_dynamic buflen dynamic sl text (failed ∷ reads) =
    some (record { buffer = some (record { text = text; capacity = dynamic }); result = none })
slurp_dynamic buflen dynamic sl text (got bytes ∷ reads) = elim (length bytes == buflen) [
  | true ↦ slurp_dynamic buflen (dynamic + buflen) (sl + length bytes) (text ++ bytes) reads
  | false ↦ some (record {
    buffer = some (record { text = text ++ bytes; capacity = dynamic });
    result = some (sl + length bytes);
  })
]

-- From `read:` on, with the caller's buffer.
unfoldable pub slurp_fixed : ℕ → Buffer → List Read → Option Slurped
slurp_fixed buflen db [] = none
slurp_fixed buflen db (interrupted ∷ reads) = slurp_fixed buflen db reads
slurp_fixed buflen db (failed ∷ reads) = some (record { buffer = some db; result = none })
slurp_fixed buflen db (got bytes ∷ reads) =
    let read_len = length bytes in
    let last = if read_len == buflen then read_len - 1 else read_len in
    some (record {
      buffer = some (record { text = take last bytes; capacity = db.capacity });
      result = some read_len;
    })

-- `opened`: does open succeed?
unfoldable pub slurpfile : Bool → Option Buffer → ℕ → List Read → Option Slurped
unfolding slurp_dynamic slurp_fixed
slurpfile opened buffer buflen reads =
    if not opened then some (record { buffer = buffer; result = none }) else elim buffer [
      | none ↦ slurp_dynamic buflen buflen 0 [] reads
      | some db ↦ slurp_fixed buflen db reads
    ]

pub record Timeval : Type 0 where
  pub tv_sec : ℕ
  pub tv_usec : ℕ

unfoldable pub micros : Timeval → ℕ
micros t = t.tv_sec * 1_000_000 + t.tv_usec

-- timediff(&now, &last) > thresh
unfoldable pub timediff_gt : Timeval → Timeval → ℕ → Bool
unfolding micros
timediff_gt now last thresh = ltb (micros last + thresh) (micros now)

-- timely_file, with the threshold in microseconds.
pub record TimelyFile : Type 0 where
  pub last_read : Timeval
  pub thresh : ℕ
  pub buffer : Option Buffer
  pub buffersize : ℕ

-- The lines under `tf->last_read = now`, where slurpfile has returned `rval`.
unfoldable pub keep_buffer : Timeval → Option Buffer → ℕ → TimelyFile → TimelyFile
keep_buffer now bp rval tf = record {
  last_read = now;
  thresh = tf.thresh;
  buffer = bp;
  buffersize = elim tf.buffer [
    | none ↦
        if ltb tf.buffersize rval then (rval / tf.buffersize + 1) * tf.buffersize else tf.buffersize
    | some old ↦ tf.buffersize
  ];
}

-- The file after update_file, whose buffer is what the function returns.
unfoldable pub update_file : Timeval → Bool → List Read → TimelyFile → Option TimelyFile
unfolding slurpfile timediff_gt keep_buffer
update_file now opened reads tf =
    if timediff_gt now tf.last_read tf.thresh
    then elim (slurpfile opened tf.buffer tf.buffersize reads) [
      | none ↦ none
      | some r ↦ elim r.result [
        | none ↦ some tf
        | some rval ↦ some (keep_buffer now r.buffer rval tf)
      ]
    ]
    else some tf

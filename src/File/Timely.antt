-- ===== src/File/Timely.antt =====
-- The copy of a file that update_file (plugins/libs/file.c) keeps, and its buffer.
use syswatcher.Base.{
  length-take, ℕ, ◌+◌, ◌-◌, ◌*◌, ◌/◌, ◌≤◌, ◌<◌, ◌≡◌, refl, subst, Bool, true, false, Option, none,
  some, List, [], ◌∷◌, ◌++◌, ◌==◌, ltb, if◌then◌else◌, length, arith, Bool-cases, Option-cases, inl,
  inr,
}
use syswatcher.Channel.{Str}
use syswatcher.File.{
  Read, got, interrupted, failed, Buffer, Slurped, slurp_dynamic, slurp_fixed, slurpfile, Timeval,
  timediff_gt, TimelyFile, keep_buffer, update_file,
}
use syswatcher.File.Slurp.{Delivers, room_for, room_for-above, room_for-least, slurpfile-whole}

-- The text of a buffer and its NUL are within the block, and so is what a read may store.
abbrev pub BufferFits : ℕ → Option Buffer → Type 0
BufferFits buffersize none = Unit
BufferFits buffersize (some b) = (buffersize ≤ b.capacity) × (length b.text < b.capacity)

pub record IsTimely (tf : TimelyFile) : Type 0 where
  pub size : 0 < tf.buffersize
  pub fits : BufferFits tf.buffersize tf.buffer

-- A read stores at most the bytes that it is asked for.
abbrev pub Within : ℕ → List Read → Type 0
Within buflen [] = Unit
Within buflen (got bytes ∷ reads) = (length bytes ≤ buflen) × Within buflen reads
Within buflen (interrupted ∷ reads) = Within buflen reads
Within buflen (failed ∷ reads) = Within buflen reads

ends-Delivers :
    (buflen dynamic sl : ℕ) (text : Str) (reads : List Read) (r : Slurped) (rval : ℕ)
    → Within buflen reads
    → slurp_dynamic buflen dynamic sl text reads ≡ some r
    → r.result ≡ some rval
    → (all : Str) × Delivers buflen all reads
unfolding slurp_dynamic
ends-Delivers buflen dynamic sl text [] r rval w e ok = absurd (ground arith)
ends-Delivers buflen dynamic sl text (interrupted ∷ reads) r rval w e ok =
    let (all, d) = ends-Delivers buflen dynamic sl text reads r rval w e ok in
    (all, Delivers.again all reads d)
ends-Delivers buflen dynamic sl text (failed ∷ reads) r rval w e ok = absurd (ground arith)
ends-Delivers buflen dynamic sl text (got bytes ∷ reads) r rval (le, w) e ok =
    elim (Bool-cases (length bytes == buflen)) [
      | inl full ↦
          let (rest, d) =
            ends-Delivers buflen (dynamic + buflen) (sl + length bytes) (text ++ bytes) reads r rval
              w (ground arith) ok in
          (bytes ++ rest, Delivers.more bytes rest (bytes ++ rest) reads (ground arith) refl d)
      | inr short ↦ (bytes, Delivers.last bytes reads (ground arith))
    ]

fixed-Fits :
    (buflen : ℕ) (db : Buffer) (reads : List Read) (r : Slurped)
    → 0 < buflen
    → Within buflen reads
    → BufferFits buflen (some db)
    → slurp_fixed buflen db reads ≡ some r
    → BufferFits buflen r.buffer
unfolding slurp_fixed
fixed-Fits buflen db [] r some_ w fits e = absurd (ground arith)
fixed-Fits buflen db (interrupted ∷ reads) r some_ w fits e =
    fixed-Fits buflen db reads r some_ w fits e
fixed-Fits buflen db (failed ∷ reads) r some_ w fits e = ground arith
fixed-Fits buflen db (got bytes ∷ reads) r some_ (le, w) fits e =
    ground
      (arith, length-take (if length bytes == buflen then length bytes - 1 else length bytes) bytes)

-- The buffer after a read that slurpfile allocated for, and the size that is noted for it.
size-fits :
    (bs n : ℕ)
    → 0 < bs
    → ((if ltb bs n then (n / bs + 1) * bs else bs) ≤ room_for bs n) × (n < room_for bs n)
size-fits bs n some_ =
    let above = room_for-above bs n some_ in
    let least = room_for-least bs n in (unfold room_for in ground arith, above)

pub size-positive : (bs n : ℕ) → 0 < bs → 0 < (if ltb bs n then (n / bs + 1) * bs else bs)
size-positive bs n some_ = unfold room_for in ground (arith, room_for-least bs n)

keep-null :
    (now : Timeval) (reads : List Read) (tf : TimelyFile) (r : Slurped) (rval : ℕ)
    → Within tf.buffersize reads
    → IsTimely tf
    → tf.buffer ≡ none
    → slurp_dynamic tf.buffersize tf.buffersize 0 [] reads ≡ some r
    → r.result ≡ some rval
    → IsTimely (keep_buffer now r.buffer rval tf)
unfolding keep_buffer
keep-null now reads tf r rval w is null e ok =
    let bs = tf.buffersize in
    let (all, d) = ends-Delivers bs bs 0 [] reads r rval w e ok in
    let whole = slurpfile-whole none bs all reads is.size d in
    let n = length all in
    let kept : r ≡ record {
      buffer = some (record { text = all; capacity = room_for bs n });
      result = some n;
    } =
      unfold slurpfile in ground arith in
    let count : rval ≡ n = ground arith in
    rw (null, kept, count)
      (record { size = size-positive bs n is.size; fits = size-fits bs n is.size })

keep-there :
    (now : Timeval) (reads : List Read) (tf : TimelyFile) (r : Slurped) (rval : ℕ) (db : Buffer)
    → Within tf.buffersize reads
    → IsTimely tf
    → tf.buffer ≡ some db
    → slurp_fixed tf.buffersize db reads ≡ some r
    → IsTimely (keep_buffer now r.buffer rval tf)
unfolding keep_buffer
keep-there now reads tf r rval db w is there e =
    let old : BufferFits tf.buffersize (some db) = subst (BufferFits tf.buffersize) there is.fits in
    rw there (record { size = is.size; fits = fixed-Fits tf.buffersize db reads r is.size w old e })

slurp-IsTimely :
    (now : Timeval) (opened : Bool) (reads : List Read) (tf : TimelyFile) (r : Slurped) (rval : ℕ)
    → Within tf.buffersize reads
    → IsTimely tf
    → slurpfile opened tf.buffer tf.buffersize reads ≡ some r
    → r.result ≡ some rval
    → IsTimely (keep_buffer now r.buffer rval tf)
unfolding slurpfile
slurp-IsTimely now false reads tf r rval w is e ok = absurd (ground arith)
slurp-IsTimely now true reads tf r rval w is e ok = elim (Option-cases tf.buffer) [
  | inl null ↦ keep-null now reads tf r rval w is null (ground arith) ok
  | inr (db, there) ↦ keep-there now reads tf r rval db w is there (ground arith)
]

-- Whatever open and read answer, if no read stores more than it is asked for, then update_file
-- keeps the file's buffer in order: where there is one, the noted size is within the block, and so
-- is the text with its NUL; and the noted size stays positive.
pub update_file-IsTimely :
    (now : Timeval) (opened : Bool) (reads : List Read) (tf tf' : TimelyFile)
    → Within tf.buffersize reads
    → IsTimely tf
    → update_file now opened reads tf ≡ some tf'
    → IsTimely tf'
unfolding update_file
update_file-IsTimely now opened reads tf tf' w is e =
    elim (Bool-cases (timediff_gt now tf.last_read tf.thresh)) [
      | inr recent ↦ let same : tf' ≡ tf = ground arith in rw same is
      | inl older ↦ elim (Option-cases (slurpfile opened tf.buffer tf.buffersize reads)) [
        | inl endless ↦ absurd (ground arith)
        | inr (r, slurped) ↦ elim (Option-cases r.result) [
          | inl failure ↦ let same : tf' ≡ tf = ground arith in rw same is
          | inr (rval, ok) ↦
              let same : tf' ≡ keep_buffer now r.buffer rval tf = ground arith in
              rw same (slurp-IsTimely now opened reads tf r rval w is slurped ok)
        ]
      ]
    ]

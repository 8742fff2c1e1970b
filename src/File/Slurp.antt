-- ===== src/File/Slurp.antt =====
-- What slurpfile (plugins/libs/file.c) leaves in its buffer.
use native.Mathlib.Nat.{add-mul-div_right, div-eq_of_lt, lt-div-mul-add}
use mathlib.Core.List.{append_assoc}
use syswatcher.Base.{
  take_all, ℕ, zero, suc, ◌+◌, ◌-◌, ◌*◌, ◌/◌, ◌≤◌, ◌<◌, ◌≡◌, refl, sym, ap, ◌∙◌, true, Option, none,
  some, List, [], ◌∷◌, ◌++◌, ltb, if◌then◌else◌, length, length-append, take, arith, Bool-cases,
  inl, inr,
}
use syswatcher.Channel.{Str}
use syswatcher.File.{Read, got, interrupted, Buffer, slurp_dynamic, slurp_fixed, slurpfile}

-- The reads of a file in pieces of `buflen` bytes, the last piece shorter, and interruptions
-- between them.
pub data Delivers (buflen : ℕ) : Str → List Read → Type 0 where
  last :
      (bytes : Str) (reads : List Read)
      → length bytes < buflen
      → Delivers buflen bytes (got bytes ∷ reads)
  more :
      (bytes rest all : Str) (reads : List Read)
      → length bytes ≡ buflen
      → all ≡ bytes ++ rest
      → Delivers buflen rest reads
      → Delivers buflen all (got bytes ∷ reads)
  again :
      (all : Str) (reads : List Read)
      → Delivers buflen all reads
      → Delivers buflen all (interrupted ∷ reads)

take-append : (n : ℕ) (xs ys : Str) → n ≤ length xs → take n (xs ++ ys) ≡ take n xs
take-append zero xs ys h = refl
take-append (suc n) [] ys h = absurd (omega arith)
take-append (suc n) (x ∷ xs) ys h = ap (◌∷◌ x) (take-append n xs ys (omega arith))

-- The block after a whole file: the file's full pieces, and one more.
unfoldable pub room_for : ℕ → ℕ → ℕ
room_for buflen n = (n / buflen + 1) * buflen

room_for-short : (buflen n : ℕ) → n < buflen → room_for buflen n ≡ buflen
unfolding room_for
room_for-short buflen n lt = rw (div-eq_of_lt lt) (omega arith)

room_for-more :
    (buflen n : ℕ) → 0 < buflen → room_for buflen (buflen + n) ≡ buflen + room_for buflen n
unfolding room_for
room_for-more buflen n some_ =
    let e : (buflen + n) / buflen ≡ n / buflen + 1 =
      ap (λ (x : ℕ). x / buflen) (omega arith) ∙ add-mul-div_right n 1 some_ in
    rw e (omega arith)

pub room_for-least : (buflen n : ℕ) → buflen ≤ room_for buflen n
unfolding room_for
room_for-least buflen n = omega arith

pub room_for-above : (buflen n : ℕ) → 0 < buflen → n < room_for buflen n
unfolding room_for
room_for-above buflen n some_ = omega (arith, lt-div-mul-add {a = n} some_)

fixed-whole :
    (buflen : ℕ) (db : Buffer) (all : Str) (reads : List Read)
    → Delivers buflen all reads
    → length all < buflen
    → slurp_fixed buflen db reads
      ≡ some (record {
        buffer = some (record { text = all; capacity = db.capacity });
        result = some (length all);
      })
unfolding slurp_fixed
fixed-whole buflen db all reads (Delivers.last _ rest short) lt =
    ground (arith, take_all (length all) all (omega arith))
fixed-whole buflen db all reads (Delivers.more bytes rest _ reads' full e d) lt =
    absurd (omega (arith, full, ap length e, length-append bytes rest))
fixed-whole buflen db all reads (Delivers.again _ reads' d) lt =
    fixed-whole buflen db all reads' d lt

-- The caller's buffer gets one byte less than the file has, where the file just fills it.
fixed-cut :
    (buflen : ℕ) (db : Buffer) (all : Str) (reads : List Read)
    → Delivers buflen all reads
    → buflen ≤ length all
    → slurp_fixed buflen db reads
      ≡ some (record {
        buffer = some (record { text = take (buflen - 1) all; capacity = db.capacity });
        result = some buflen;
      })
unfolding slurp_fixed
fixed-cut buflen db all reads (Delivers.last _ rest short) le = absurd (omega arith)
fixed-cut buflen db all reads (Delivers.more bytes rest _ reads' full e d) le =
    rw e (ground (arith, take-append (buflen - 1) bytes rest))
fixed-cut buflen db all reads (Delivers.again _ reads' d) le = fixed-cut buflen db all reads' d le

dynamic-whole :
    (buflen dynamic sl : ℕ) (text all : Str) (reads : List Read)
    → 0 < buflen
    → Delivers buflen all reads
    → slurp_dynamic buflen dynamic sl text reads
      ≡ some (record {
        buffer = some (record {
          text = text ++ all;
          capacity = dynamic + (room_for buflen (length all) - buflen);
        });
        result = some (sl + length all);
      })
unfolding slurp_dynamic
dynamic-whole buflen dynamic sl text all reads some_ (Delivers.last _ rest short) =
    ground (arith, room_for-short buflen (length all) short)
dynamic-whole buflen dynamic sl text all reads some_ (Delivers.more bytes rest _ reads' full e d) =
    let ih =
      dynamic-whole buflen (dynamic + buflen) (sl + length bytes) (text ++ bytes) rest reads' some_
        d in
    let joined : text ++ all ≡ text ++ bytes ++ rest =
      ap (λ (x : Str). text ++ x) e ∙ sym (append_assoc text bytes rest) in
    let long : length all ≡ buflen + length rest =
      omega (arith, full, ap length e, length-append bytes rest) in
    let room : room_for buflen (length all) ≡ buflen + room_for buflen (length rest) =
      ap (room_for buflen) long ∙ room_for-more buflen (length rest) some_ in
    rw joined (ground (arith, room_for-least buflen (length rest)))
dynamic-whole buflen dynamic sl text all reads some_ (Delivers.again _ reads' d) =
    dynamic-whole buflen dynamic sl text all reads' some_ d

-- What slurpfile leaves when the file opens and the reads deliver `all`: without a buffer, all of it
-- in a block of the file's full pieces and one more, which has room for the NUL; with the caller's
-- buffer, all of it if the file is shorter than the buffer, and else its first bytes, one less than
-- the buffer's, though the count that is returned is the buffer's.
pub slurpfile-whole :
    (buffer : Option Buffer) (buflen : ℕ) (all : Str) (reads : List Read)
    → 0 < buflen
    → Delivers buflen all reads
    → slurpfile true buffer buflen reads ≡ elim buffer [
      | none ↦ some (record {
        buffer = some (record { text = all; capacity = room_for buflen (length all) });
        result = some (length all);
      })
      | some db ↦ some (
          if ltb (length all) buflen
          then (record {
            buffer = some (record { text = all; capacity = db.capacity });
            result = some (length all);
          })
          else (record {
            buffer = some (record { text = take (buflen - 1) all; capacity = db.capacity });
            result = some buflen;
          }))
    ]
unfolding slurpfile
slurpfile-whole none buflen all reads some_ d =
    ground (
      arith,
      dynamic-whole buflen buflen 0 [] all reads some_ d,
      room_for-least buflen (length all),
    )
slurpfile-whole (some db) buflen all reads some_ d = elim (Bool-cases (ltb (length all) buflen)) [
  | inl short ↦ ground (arith, fixed-whole buflen db all reads d (ground arith))
  | inr long ↦ ground (arith, fixed-cut buflen db all reads d (ground arith))
]

-- ===== src/Log/Message.antt =====
-- The text of a message in core/log.c.
use syswatcher.Base.{
  ℕ, zero, suc, ◌+◌, ◌-◌, ◌<◌, ◌≤◌, ◌≡◌, refl, Bool, true, false, [], ◌∷◌, ◌++◌, Option, none, some,
  arith, ltb, leb, length, length-append, take,
}
use syswatcher.Channel.{Str}
use syswatcher.Log.{LogMsg, row, header_str, header_of, header_num, blanks, make_msg}

abbrev pub faults : Option Str → Bool
faults none = true
faults (some s) = false

length-take : (n : ℕ) (s : Str) → n ≤ length s → length (take n s) ≡ n
length-take zero s h = refl
length-take (suc n) [] h = absurd (omega arith)
length-take (suc n) (c ∷ s) h = omega (arith, length-take n s (omega arith))

-- Every level has a header, 12 bytes long.
header-length :
    (level : ℕ) → level < 5 → (s : Str) × (header_str level ≡ some s) × (length (header_of s) ≡ 12)
unfolding header_str row header_of blanks
header-length zero h = (_, refl, refl)
header-length (suc zero) h = (_, refl, refl)
header-length (suc (suc zero)) h = (_, refl, refl)
header-length (suc (suc (suc zero))) h = (_, refl, refl)
header-length (suc (suc (suc (suc zero)))) h = (_, refl, refl)
header-length (suc (suc (suc (suc (suc n))))) h = absurd (omega arith)

-- With a time of 25 bytes, as `ctime` gives it, a message of one of the five levels overflows the
-- buffer of its text exactly if it is 4058 bytes long or more.
pub faults-make_msg :
    (time : Str) (msg : LogMsg)
    → length time ≡ 25
    → msg.level < 5
    → faults (make_msg time msg) ≡ leb 4058 (length msg.buf)
unfolding make_msg
faults-make_msg time msg t h =
    let (s, is, n) = header-length msg.level h in
    let text = take (length time - 1) time ++ (b' ' ∷ (header_of s ++ (b' ' ∷ msg.buf))) in
    let size : length text ≡ 38 + length msg.buf = omega (
      arith,
      length-append (take (length time - 1) time) (b' ' ∷ (header_of s ++ (b' ' ∷ msg.buf))),
      length-take (length time - 1) time (omega arith),
      length-append (header_of s) (b' ' ∷ msg.buf),
      n,
    ) in
    let known : ltb msg.level header_num ≡ true = ground arith in
    rw (known, is) (ground (arith, size))

-- ===== src/Memory/Unit.antt =====
-- The size and the unit that __to_unit finds (plugins/mod_memory/libmemory.c).
use syswatcher.Base.{
  ℕ, zero, suc, ◌+◌, ◌*◌, ◌/◌, ◌^◌, ◌≤◌, ◌<◌, ◌≡◌, refl, some, [], ◌∷◌, ltb, arith, length,
  Bool-cases, inl, inr,
}
use syswatcher.Channel.{Str}
use syswatcher.Memory.{shift_loop, to_unit, unit_at, unit_letters}

-- The size after so many shifts by 10.
unfoldable pub shifts : ℕ → ℕ → ℕ
shifts zero size = size
shifts (suc n) size = shifts n (size / 1024)

-- 1024 to the n-th power.
unfoldable pub kilo : ℕ → ℕ
kilo zero = 1
kilo (suc n) = 1024 * kilo n

-- A size that so many shifts bring below 1025.
unfoldable up_to : ℕ → ℕ
up_to zero = 1024
up_to (suc k) = 1024 * up_to k + 1023

-- What the loop has found.
pub record Found (size k left count start : ℕ) : Type 0 where
  pub rounds : ℕ
  pub counted : count ≡ start + rounds
  pub few : rounds ≤ k
  pub shifted : left ≡ shifts rounds size
  pub small : left ≤ 1024
  pub needed : (j : ℕ) → j < rounds → 1024 < shifts j size

needed-suc :
    (size n : ℕ)
    → 1024 < size
    → ((j : ℕ) → j < n → 1024 < shifts j (size / 1024))
    → (j : ℕ) → j < suc n
    → 1024 < shifts j size
unfolding shifts
needed-suc size n big h zero lt = big
needed-suc size n big h (suc j) lt = h j (omega arith)

-- What the loop finds without a round, and with a round more.
Found-none : (k size start : ℕ) → size ≤ 1024 → Found size k size start start
unfolding shifts
Found-none k size start h = record {
  rounds = 0;
  counted = omega arith;
  few = omega arith;
  shifted = refl;
  small = h;
  needed = λ j lt. absurd (omega arith);
}

Found-suc :
    (size k left count start : ℕ)
    → 1024 < size
    → Found (size / 1024) k left count (start + 1)
    → Found size (suc k) left count start
unfolding shifts
Found-suc size k left count start big found = record {
  rounds = suc found.rounds;
  counted = omega (arith, found.counted);
  few = omega (arith, found.few);
  shifted = found.shifted;
  small = found.small;
  needed = needed-suc size found.rounds big found.needed;
}

loop-Found :
    (k size start : ℕ)
    → size ≤ up_to k
    → (left count : ℕ) × (shift_loop (suc k) size start ≡ some (left, count))
      × Found size k left count start
unfolding up_to shift_loop
loop-Found zero size start h = (size, start, ground arith, Found-none zero size start h)
loop-Found (suc k) size start h = elim (Bool-cases (ltb 1024 size)) [
  | inl big ↦
      let (left, count, runs, found) = loop-Found k (size / 1024) (start + 1) (omega arith) in
      (
        left,
        count,
        rw (big, shift_loop) runs,
        Found-suc size k left count start (ground arith) found,
      )
  | inr little ↦
      (size, start, rw (little, shift_loop) refl, Found-none (suc k) size start (ground arith))
]

-- A shifted size is the whole part of a division.
shifts-kilo : (n size : ℕ) → (shifts n size * kilo n ≤ size) × (size < (shifts n size + 1) * kilo n)
unfolding shifts kilo
shifts-kilo zero size = (omega arith, omega arith)
shifts-kilo (suc n) size =
    let (low, high) = shifts-kilo n (size / 1024) in
    (omega (arith, low, high), omega (arith, low, high))

unit_at-some : (n : ℕ) (letters : Str) → n < length letters → (u : ℕ) × (unit_at n letters ≡ some u)
unfolding unit_at
unit_at-some n [] h = absurd (omega arith)
unit_at-some zero (c ∷ s) h = (c, refl)
unit_at-some (suc n) (c ∷ s) h = unit_at-some n s (omega arith)

-- Every size of 64 bits gets a number and a letter: the loop ends, its count is an index of the
-- array of letters, the number is at most 1024 and is the whole part of the size divided by 1024 to
-- the count, and no smaller count brings the size to at most 1024.
pub to_unit_lem :
    (size : ℕ)
    → size < 2 ^ 64
    → (left count unit : ℕ) × (to_unit size ≡ some (left, unit))
      × (unit_at count unit_letters ≡ some unit)
      × (left ≤ 1024)
      × (left * kilo count ≤ size)
      × (size < (left + 1) * kilo count)
      × ((j : ℕ) → j < count → 1024 < shifts j size)
unfolding to_unit
to_unit_lem size h =
    let (left, count, runs, found) = loop-Found 7 size 0 (unfold up_to in omega arith) in
    let same : count ≡ found.rounds = omega (arith, found.counted) in
    let (unit, at) = unit_at-some count unit_letters (omega (arith, found.few)) in
    let (low, high) = shifts-kilo found.rounds size in
    (
      left,
      count,
      unit,
      ground (arith, found.small),
      at,
      found.small,
      rw (same, found.shifted) low,
      rw (same, found.shifted) high,
      rw same found.needed,
    )

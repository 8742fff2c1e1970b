-- ===== src/Display/Decimal.antt =====
-- The numbers that core/metric.c displays.
use syswatcher.Base.{
  ℕ, zero, suc, ◌+◌, ◌-◌, ◌*◌, ◌/◌, ◌%◌, ◌<◌, ◌≡◌, refl, ◌∙◌, [], ◌∷◌, ◌++◌, arith, ltb, Bool-cases,
  inl, inr,
}
use syswatcher.Channel.{Str}
use syswatcher.CpuData.{is_digit, digits}
use syswatcher.Display.{decimal}

abbrev pub ten_to : ℕ → ℕ
ten_to zero = 1
ten_to (suc k) = 10 * ten_to k

-- A digit more at the end.
digits-append :
    (a : ℕ) (s : Str) (n d : ℕ)
    → digits a s ≡ (n, [])
    → d < 10
    → digits a (s ++ (d + b'0') ∷ []) ≡ (n * 10 + d, [])
unfolding digits is_digit
digits-append a [] n d e h = ground arith
digits-append a (c ∷ s) n d e h = elim (Bool-cases (is_digit c)) [
  | inl is ↦ ground (arith, digits-append (a * 10 + (c - b'0')) s n d (ground arith) h)
  | inr other ↦ absurd (ground arith)
]

-- A number of at most `k` digits is read back from the text of at most `k` digits that displays it.
pub digits-decimal : (k n : ℕ) → n < ten_to k → 0 < k → digits 0 (decimal k n) ≡ (n, [])
unfolding decimal digits is_digit
digits-decimal zero n h some_digits = absurd (omega arith)
digits-decimal (suc zero) n h some_digits = ground arith
digits-decimal (suc (suc k)) n h some_digits = elim (Bool-cases (ltb n 10)) [
  | inl small ↦ ground arith
  | inr big ↦
      let front : n / 10 < ten_to (suc k) = omega arith in
      let ih = digits-decimal (suc k) (n / 10) front (omega arith) in
      let whole : n / 10 * 10 + n % 10 ≡ n = omega arith in
      let last : n % 10 < 10 = omega arith in
      rw big (digits-append 0 (decimal (suc k) (n / 10)) (n / 10) (n % 10) ih last ∙ rw whole refl)
]

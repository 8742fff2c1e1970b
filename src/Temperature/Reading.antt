-- ===== src/Temperature/Reading.antt =====
-- The temperature that plugins/mod_temp/libtemp.c reads.
use syswatcher.Base.{
  take_all, ℕ, ◌/◌, ◌<◌, ◌^◌, ◌≡◌, refl, ap, ◌∙◌, true, false, some, [], ◌∷◌, ◌++◌, arith,
  length-append, take, pos, sym, map, ◌==◌, if◌then◌else◌,
}
use syswatcher.Channel.{Str}
use syswatcher.CpuData.{digits, is_digit, skip_whitespace}
use syswatcher.CpuData.Tokens.{digits-all, digit-no_space}
use syswatcher.Display.{decimal}
use syswatcher.Display.Decimal.{digits-decimal}
use syswatcher.Display.Fits.{length-decimal}
use syswatcher.Memory.Reading.{decimal-digits, decimal-first}
use syswatcher.Plugin.{set_data_collect, int32, Datum}
use syswatcher.Temperature.{Sysfs, thousandth, temperature_collect}

digit-no_sign : (c : ℕ) → is_digit c ≡ true → ((c == b'-') ≡ false) × ((c == b'+') ≡ false)
unfolding is_digit
digit-no_sign c h = ground arith

thousandth-first :
    (c : ℕ) (s : Str) → is_digit c ≡ true → thousandth (c ∷ s) ≡ pos ((digits 0 (c ∷ s)).0 / 1000)
unfolding thousandth skip_whitespace
thousandth-first c s digit =
    let (minus, plus) = digit-no_sign c digit in
    rw (thousandth, skip_whitespace, digit-no_space c digit) (rw (minus, plus) refl)

thousandth-decimal : (n : ℕ) → n < 2 ^ 31 → thousandth (decimal 10 n ++ 10 ∷ []) ≡ pos (n / 1000)
thousandth-decimal n small =
    let (c, rest, e, digit) = decimal-first 9 n in
    let value : (digits 0 (decimal 10 n ++ 10 ∷ [])).0 ≡ n =
      ap (λ (r : ℕ × Str). r.0)
        (digits-all 0 (decimal 10 n) 10 [] (decimal-digits 10 n) (unfold is_digit in refl))
      ∙ ap (λ (r : ℕ × Str). r.0) (digits-decimal 10 n (omega arith) (omega arith)) in
    ap (λ (s : Str). thousandth (s ++ 10 ∷ [])) e
    ∙ thousandth-first c (rest ++ 10 ∷ []) digit
    ∙ ap (λ (s : Str). pos ((digits 0 (s ++ 10 ∷ [])).0 / 1000)) (sym e)
    ∙ ap (λ (m : ℕ). pos (m / 1000)) value

-- From a sensor's file that holds a number below 2^31 and a newline, the item's datum is the number
-- in thousandths, rounded down; from a file that cannot be read it is 0.
pub temperature_collect-decimal :
    (fs : Sysfs) (path : Str) (n : ℕ)
    → n < 2 ^ 31
    → fs.contents path ≡ some (decimal 10 n ++ 10 ∷ [])
    → map (λ (v : Datum). v.val) (temperature_collect fs path)
      ≡ int32 (if fs.readable path then pos (n / 1000) else pos 0) ∷ []
unfolding temperature_collect set_data_collect
temperature_collect-decimal fs path n small holds =
    let whole : take 32 (decimal 10 n ++ 10 ∷ []) ≡ decimal 10 n ++ 10 ∷ [] =
      take_all 32 _ (omega (arith, length-append (decimal 10 n) (10 ∷ []), length-decimal 10 n)) in
    ground (arith, thousandth-decimal n small)

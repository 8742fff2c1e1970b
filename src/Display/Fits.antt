-- ===== src/Display/Fits.antt =====
-- The lines of the display in core/metric.c and their buffer.
use syswatcher.Base.{
  ℕ, zero, suc, ◌+◌, ◌*◌, ◌/◌, ◌%◌, ◌<◌, ◌≤◌, List, [], ◌∷◌, arith, All, length, length-append,
}
use syswatcher.Channel.{Str}
use syswatcher.Metric.{SubMetricUnit}
use syswatcher.Display.{Mate, Source, decimal, up_to_nul, mates_of}

-- The texts of a value are within their arrays, and a string within the union.
pub record MateFits (mate : Mate) : Type 0 where
  pub name : length mate.name < 32
  pub unit : length mate.unit < 16
  pub val : length (up_to_nul mate.val) < 128

-- A floating-point number takes less than the 128 bytes of `val_str`.
pub record SourceFits (src : Source) : Type 0 where
  pub show_float : (bytes : Str) → length (src.show_float bytes) < 128
  pub show_double : (bytes : Str) → length (src.show_double bytes) < 128

-- The names are within their arrays, and the item has as many values as it counts.
pub record SubFits (src : Source) (subunit : SubMetricUnit) : Type 0 where
  pub sub_metric_name : length subunit.sub_metric_name < 64
  pub mates : All MateFits (mates_of src subunit.data_collection)
  pub element_num :
      subunit.data_collection.element_num ≤ length (mates_of src subunit.data_collection)

pub length-decimal : (k n : ℕ) → length (decimal k n) ≤ k
unfolding decimal
length-decimal zero n = omega arith
length-decimal (suc k) n =
    ground
      (arith, length-decimal k (n / 10), length-append (decimal k (n / 10)) ((n % 10 + b'0') ∷ []))

-- The lines of the items, at most 255 bytes each.
abbrev pub lines_of : List SubMetricUnit → ℕ
lines_of [] = 0
lines_of (subunit ∷ subs) = 1 + 2 * subunit.data_collection.element_num + lines_of subs

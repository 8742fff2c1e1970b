-- ===== src/Display.antt =====
-- The display of the metrics in core/metric.c: print_val, the text of metric_info, and list_data.
-- The JSON tree that is built beside the text is left out. What printf gives for a floating-point
-- number, and the values behind an item, are arguments. `none` is a write past one of the buffers, or
-- a read past the values.
pub mod Decimal
pub mod Fits
mod Examples
use syswatcher.Base.{
  ℕ, zero, suc, ◌+◌, ◌-◌, ◌*◌, ◌/◌, ◌%◌, ◌^◌, Bool, List, [], ◌∷◌, ◌++◌, Option, none, some,
  if◌then◌else◌, ltb, length, ◌==◌, take,
}
use syswatcher.Channel.{Str, Item}
use syswatcher.CString.{codes, strncmp_eq}
use syswatcher.Metric.{SubMetricUnit, MetricUnit}

-- enum data_type
pub data DataType : Type 0 where
  m_undef m_int8 m_uint8 m_int16 m_uint16 m_int32 m_uint32 m_int64 m_uint64 : DataType
  m_float m_double m_string : DataType

-- mate_t; the union as its bytes.
pub record Mate : Type 0 where
  pub name : Str
  pub unit : Str
  pub t : DataType
  pub val : Str

-- What the display asks for: "%f" of the bytes of a float and of a double, and the values in a block.
pub record Source : Type 0 where
  pub show_float : Str → Str
  pub show_double : Str → Str
  pub values : ℕ → List Mate

-- The number that so many bytes hold.
unfoldable pub le : Str → ℕ
le [] = 0
le (b ∷ bs) = b + 256 * le bs

-- The digits of a number, at most so many.
unfoldable pub decimal : ℕ → ℕ → Str
decimal zero n = []
decimal (suc k) n =
    let front = decimal k (n / 10) in
    if ltb n 10 then (n + b'0') ∷ [] else front ++ (n % 10 + b'0') ∷ []

-- "%u" and "%lu"; twenty digits are enough for 64 bits.
unfoldable pub unsigned : Str → Str
unsigned bytes = decimal 20 (le bytes)

-- "%d" and "%ld" of so many bits.
unfoldable pub signed : ℕ → Str → Str
signed bits bytes =
    if ltb (2 * le bytes) (2 ^ bits)
    then decimal 20 (le bytes)
    else b'-' ∷ decimal 20 (2 ^ bits - le bytes)

-- The bytes up to the first NUL.
unfoldable pub up_to_nul : Str → Str
up_to_nul [] = []
up_to_nul (c ∷ s) = let rest = up_to_nul s in if c == 0 then [] else c ∷ rest

-- The text of a value; for one without a type, what `val_str` held before.
unfoldable pub val_text : Source → DataType → (val val_str : Str) → Str
val_text src m_undef val val_str = val_str
val_text src m_int8 val val_str = signed 8 (take 1 val)
val_text src m_uint8 val val_str = unsigned (take 1 val)
val_text src m_int16 val val_str = signed 16 (take 2 val)
val_text src m_uint16 val val_str = unsigned (take 2 val)
val_text src m_int32 val val_str = signed 32 (take 4 val)
val_text src m_uint32 val val_str = unsigned (take 4 val)
val_text src m_int64 val val_str = signed 64 (take 8 val)
val_text src m_uint64 val val_str = unsigned (take 8 val)
val_text src m_float val val_str = src.show_float (take 4 val)
val_text src m_double val val_str = src.show_double (take 8 val)
val_text src m_string val val_str = up_to_nul val

-- MAX_STRING_SIZE, METRIC_DATA_BUFFER and COLLECTOR_BUFFER
abbrev pub max_string_size : ℕ
max_string_size = 128

abbrev pub metric_data_buffer : ℕ
metric_data_buffer = 524_288

abbrev pub collector_buffer : ℕ
collector_buffer = 1_048_576

-- What `val_str` holds afterwards.
unfoldable pub print_val : Source → DataType → (val val_str : Str) → Option Str
unfolding val_text
print_val src t val val_str =
    let text = val_text src t val val_str in
    if ltb (length text) max_string_size then some text else none

-- strncat to the text of a buffer of so many bytes.
unfoldable pub concat_to : (size : ℕ) → (buffer text : Str) → Option Str
concat_to size buffer text =
    if ltb (length buffer + length text) size then some (buffer ++ text) else none

-- strncat of `tmpstr`, after a write of so much into its 256 bytes.
unfoldable pub append : (metric_data tmpstr : Str) → Option Str
unfolding concat_to
append metric_data tmpstr =
    if ltb (length tmpstr) (max_string_size * 2)
    then concat_to metric_data_buffer metric_data tmpstr
    else none

-- A unit is not shown if it is "N/A".
unfoldable pub shown_unit : Str → Str
shown_unit unit = if strncmp_eq 16 unit (codes "N/A") then [] else unit

-- The loop over the values of an item, with the text so far and `val_str`.
unfoldable pub print_values :
    Source → (left : ℕ) → List Mate → (metric_data val_str : Str) → Option (Str × Str)
print_values src zero mates metric_data val_str = some (metric_data, val_str)
print_values src (suc left) [] metric_data val_str = none
print_values src (suc left) (mate ∷ mates) metric_data val_str =
    elim (append metric_data (codes "        |--" ++ (mate.name ++ codes " "))) [
      | none ↦ none
      | some data1 ↦ elim (print_val src mate.t mate.val val_str) [
        | none ↦ none
        | some val1 ↦ elim (append data1 (val1 ++ (shown_unit mate.unit ++ 10 ∷ []))) [
          | none ↦ none
          | some data2 ↦ print_values src left mates data2 val1
        ]
      ]
    ]

-- The values that a block holds; through NULL the first read is a fault.
abbrev pub mates_of : Source → Item → List Mate
mates_of src item = elim item.block [ none ↦ [] | some block ↦ src.values block ]

-- The loop over the sub-metrics.
unfoldable pub print_subs :
    Source → List SubMetricUnit → (metric_data val_str : Str) → Option (Str × Str)
print_subs src [] metric_data val_str = some (metric_data, val_str)
print_subs src (subunit ∷ subs) metric_data val_str =
    elim (append metric_data
      (codes "    |--sub metric: " ++ (subunit.sub_metric_name ++ 10 ∷ []))) [
        | none ↦ none
        | some data1 ↦
            elim (print_values src subunit.data_collection.element_num
              (mates_of src subunit.data_collection) data1 val_str) [
                | none ↦ none
                | some (data2, val1) ↦ print_subs src subs data2 val1
              ]
      ]

-- `val_str` begins with what is on the stack.
unfoldable pub metric_info : Source → MetricUnit → (metric_data val_str : Str) → Option Str
metric_info src unit metric_data val_str =
    elim (append metric_data (codes "metric: " ++ (unit.metric_name ++ 10 ∷ []))) [
      | none ↦ none
      | some data1 ↦ elim (print_subs src unit.sub_metrics data1 val_str) [
        | none ↦ none
        | some (data2, _) ↦ some data2
      ]
    ]

-- A round of list_data: the units one after the other.
unfoldable pub list_data : Source → List MetricUnit → (visual_data val_str : Str) → Option Str
list_data src [] visual_data val_str = some visual_data
list_data src (unit ∷ units) visual_data val_str = elim (metric_info src unit [] val_str) [
  | none ↦ none
  | some metric_data ↦ elim (concat_to collector_buffer visual_data metric_data) [
    | none ↦ none
    | some data1 ↦ list_data src units data1 val_str
  ]
]

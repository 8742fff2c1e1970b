-- ===== src/Channel.antt =====
-- The types that cross the border between the core and the plugins: include/plugin_ext_def.h and
-- include/defs.h. A text is the list of its bytes up to the NUL; a function pointer is a number.
use syswatcher.Base.{ℕ, Bool, Option, List, ℤ}

abbrev pub Str : Type 0
Str = List ℕ

-- item_t: the number of values, and the block that holds them (NULL is `none`).
pub record Item : Type 0 where
  pub element_num : ℕ
  pub block : Option ℕ

-- collect_item_t: what a plugin offers.
pub record CollectItem : Type 0 where
  pub item_name : Str
  pub item_desc : Str
  pub run_once : Bool
  pub collect_data_func : ℕ
  pub interval : ℤ
  pub data_count : ℕ

-- plugin_info_t: filled in by a plugin's init function.
pub record PluginInfo : Type 0 where
  pub name : Option Str
  pub desc : Option Str
  pub version : Option Str
  pub collect_item : Option (List CollectItem)
  pub item_count : ℕ
  pub argc : ℕ
  pub argv : List Str

-- plugin_sub_channel_t
pub record SubChannel : Type 0 where
  pub subname : Str
  pub subdesc : Str
  pub run_once : Bool
  pub interval : ℤ
  pub item : Item
  pub collect_data_func : ℕ

-- plugin_channel_t: what the plugin manager hands to the metrics.
pub record PluginChannel : Type 0 where
  pub plugin_id : ℕ
  pub name : Str
  pub desc : Str
  pub sub_metric_num : ℕ
  pub sub_channel : Option (List SubChannel)

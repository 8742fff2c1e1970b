-- ===== src/Plugin.antt =====
-- What the plugins share: plugins/plugin_include/plugin_def.h, and the values that a plugin writes
-- (include/plugin_ext_def.h), with a floating-point number as an exact quotient.
pub mod Channels
pub mod Items
pub mod Typed
mod Examples
use syswatcher.Base.{
  ℕ, zero, suc, ◌+◌, ◌<◌, ◌≡◌, Bool, true, false, Option, none, some, List, [], ◌∷◌, ◌++◌, ℤ,
  length, take, drop, ltb, if◌then◌else◌,
}
use syswatcher.Channel.{Str, CollectItem, PluginInfo}
use syswatcher.CString.{codes}
use syswatcher.Display.{DataType, m_int32, m_uint32, m_float, m_double, m_string}
use syswatcher.PluginMgr.{plugin_release_version}

-- (plus - minus) / den
pub record Quotient : Type 0 where
  pub plus : ℕ
  pub minus : ℕ
  pub den : ℕ

-- val_t, by the member that was written last.
pub data Val : Type 0 where
  int32 : ℤ → Val
  uint32 : ℕ → Val
  f : Quotient → Val
  d : Quotient → Val
  str : Str → Val

-- mate_t, as a plugin writes it.
pub record Datum : Type 0 where
  pub name : Str
  pub unit : Str
  pub t : DataType
  pub val : Val

-- set_data_collect of libcpu.c and libtemp.c
unfoldable pub set_data_collect : Str → Str → DataType → Val → Datum
set_data_collect name unit t val = record { name = name; unit = unit; t = t; val = val }

-- The member that the display reads for the type is the one that was written, and a text fits.
abbrev pub HasMember : DataType → Val → Type 0
HasMember t (int32 x) = t ≡ m_int32
HasMember t (uint32 x) = t ≡ m_uint32
HasMember t (f x) = t ≡ m_float
HasMember t (d x) = t ≡ m_double
HasMember t (str x) = (t ≡ m_string) × (length x < 128)

-- The type fits the value, and the name and the unit fit their arrays.
pub record IsDatum (v : Datum) : Type 0 where
  pub member : HasMember v.t v.val
  pub name : length v.name < 32
  pub unit : length v.unit < 16

-- The rows of the array argv.
abbrev pub max_argv : ℕ
max_argv = 64

-- PLUGIN_INIT: `malloc` is what the allocation of the array of items gives; `none` is a copy to NULL,
-- or one of more arguments than the array of the plugin's own record holds.
unfoldable pub plugin_init_macro :
    Bool → List CollectItem → PluginInfo → PluginInfo → Option PluginInfo
plugin_init_macro false items plugin_info mgr_info = none
plugin_init_macro true items plugin_info mgr_info =
    if ltb max_argv mgr_info.argc
    then none
    else some (record {
      name = plugin_info.name;
      desc = plugin_info.desc;
      version = some plugin_release_version;
      collect_item = some items;
      item_count = length items;
      argc = mgr_info.argc;
      argv = take mgr_info.argc mgr_info.argv ++ drop mgr_info.argc plugin_info.argv;
    })

-- PLUGIN_FREE
unfoldable pub plugin_free_macro : PluginInfo → PluginInfo
plugin_free_macro info = record info { collect_item = none }

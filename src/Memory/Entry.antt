-- ===== src/Memory/Entry.antt =====
-- What plugins/mod_memory/libmemory.c offers to the plugin manager. A collector function is a number.
use syswatcher.Base.{Bool, false, Option, none, some, [], ◌∷◌, pos, List}
use syswatcher.Channel.{CollectItem, PluginInfo}
use syswatcher.CString.{codes}
use syswatcher.Plugin.{plugin_init_macro}

abbrev pub memory_item : CollectItem
memory_item = record {
  item_name = codes "memory statistics";
  item_desc = codes "memory total used free...";
  run_once = false;
  collect_data_func = 3;
  interval = pos 1;
  data_count = 4;
}

abbrev pub memory_pluginfo : PluginInfo
memory_pluginfo = record {
  name = some (codes "memory");
  desc = some (codes "memory information");
  version = none;
  collect_item = none;
  item_count = 1;
  argc = 0;
  argv = [];
}

unfoldable pub memory_items : List CollectItem
memory_items = memory_item ∷ []

-- PLUGIN_ENTRY(memory, plugin_info)
unfoldable pub memory_init : Bool → PluginInfo → Option PluginInfo
unfolding memory_items plugin_init_macro
memory_init malloc plugin_info = plugin_init_macro malloc memory_items memory_pluginfo plugin_info

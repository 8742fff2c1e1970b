-- ===== src/Temperature/Entry.antt =====
-- What plugins/mod_temp/libtemp.c offers to the plugin manager. A collector function is a number.
use syswatcher.Base.{Bool, false, Option, none, some, [], ◌∷◌, pos, List}
use syswatcher.Channel.{CollectItem, PluginInfo}
use syswatcher.CString.{codes}
use syswatcher.Plugin.{plugin_init_macro}

abbrev pub temp_item : CollectItem
temp_item = record {
  item_name = codes "cpu temp";
  item_desc = codes "temperature of cpu";
  run_once = false;
  collect_data_func = 4;
  interval = pos 1;
  data_count = 1;
}

abbrev pub temp_pluginfo : PluginInfo
temp_pluginfo = record {
  name = some (codes "temps");
  desc = some (codes "temperature of this board");
  version = none;
  collect_item = none;
  item_count = 1;
  argc = 0;
  argv = [];
}

unfoldable pub temp_items : List CollectItem
temp_items = temp_item ∷ []

-- The first line of PLUGIN_ENTRY(temp, plugin_info)
unfoldable pub temp_fill : Bool → PluginInfo → Option PluginInfo
unfolding temp_items plugin_init_macro
temp_fill malloc plugin_info = plugin_init_macro malloc temp_items temp_pluginfo plugin_info

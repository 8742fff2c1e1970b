-- ===== src/Disk/Entry.antt =====
-- What plugins/mod_disk/libdisk.c offers to the plugin manager. A collector function is a number.
use syswatcher.Base.{Bool, false, Option, none, some, [], ◌∷◌, pos, List}
use syswatcher.Channel.{CollectItem, PluginInfo}
use syswatcher.CString.{codes}
use syswatcher.Plugin.{plugin_init_macro}

abbrev pub disk_item : CollectItem
disk_item = record {
  item_name = codes "disk usage";
  item_desc = codes "disk total free usage";
  run_once = false;
  collect_data_func = 2;
  interval = pos 1;
  data_count = 3;
}

abbrev pub disk_pluginfo : PluginInfo
disk_pluginfo = record {
  name = some (codes "disk misc");
  desc = some (codes "disk informations");
  version = none;
  collect_item = none;
  item_count = 1;
  argc = 0;
  argv = [];
}

unfoldable pub disk_items : List CollectItem
disk_items = disk_item ∷ []

-- PLUGIN_ENTRY(disk, plugin_info)
unfoldable pub disk_init : Bool → PluginInfo → Option PluginInfo
unfolding disk_items plugin_init_macro
disk_init malloc plugin_info = plugin_init_macro malloc disk_items disk_pluginfo plugin_info

-- ===== src/SysInfo/Entry.antt =====
-- What plugins/mod_sysinfo/libsysinfo.c offers to the plugin manager. A collector function is a number.
use syswatcher.Base.{Bool, true, Option, none, some, [], ◌∷◌, pos, List}
use syswatcher.Channel.{CollectItem, PluginInfo}
use syswatcher.CString.{codes}
use syswatcher.Plugin.{plugin_init_macro}

abbrev pub os_item : CollectItem
os_item = record {
  item_name = codes "OS-Information";
  item_desc = codes "system version";
  run_once = true;
  collect_data_func = 5;
  interval = pos 1;
  data_count = 2;
}

abbrev pub bios_item : CollectItem
bios_item = record {
  item_name = codes "BIOS-Infortion";
  item_desc = codes "it is bios version";
  run_once = true;
  collect_data_func = 6;
  interval = pos 1;
  data_count = 1;
}

abbrev pub sysinfo_pluginfo : PluginInfo
sysinfo_pluginfo = record {
  name = some (codes "sysinfo");
  desc = some (codes "included bios-version and os-version");
  version = none;
  collect_item = none;
  item_count = 2;
  argc = 0;
  argv = [];
}

unfoldable pub sysinfo_items : List CollectItem
sysinfo_items = os_item ∷ bios_item ∷ []

-- PLUGIN_ENTRY(sysinfo, plugin_info)
unfoldable pub sysinfo_init : Bool → PluginInfo → Option PluginInfo
unfolding sysinfo_items plugin_init_macro
sysinfo_init malloc plugin_info =
    plugin_init_macro malloc sysinfo_items sysinfo_pluginfo plugin_info

-- ===== src/Plugin/Examples.antt =====
-- PLUGIN_INIT for the cpu plugin.
use syswatcher.Base.{true, none, some, [], ◌∷◌}
use syswatcher.Channel.{PluginInfo}
use syswatcher.CString.{codes}
use syswatcher.CpuPlugin.Entry.{cpu_items}
use syswatcher.PluginMgr.{Env, Plugin, plugin_release_version}
use syswatcher.PluginMgr.Parser.{new_node}
use syswatcher.PluginMgr.Samples.{load_cmd}

abbrev asked : PluginInfo
asked = record {
  name = none;
  desc = none;
  version = none;
  collect_item = none;
  item_count = 0;
  argc = 1;
  argv = codes "SUM=false" ∷ [];
}

abbrev filled : PluginInfo
filled = record {
  name = some (codes "cpu misc");
  desc = some (codes "all information about cpu");
  version = some plugin_release_version;
  collect_item = some (cpu_items 5);
  item_count = 2;
  argc = 1;
  argv = codes "SUM=false" ∷ [];
}

-- The library at 30, whose init function at 31 is that of the cpu plugin.
abbrev memory : Env
memory = record {
  malloc = some 20;
  malloc_sub_channel = true;
  malloc_data = λ i. some i;
  time = 0;
  dlopen = λ path. some 30;
  dlsym = λ h name. some 31;
  run_init = λ f info. (0, filled);
}

abbrev cpu_plugin : Plugin
cpu_plugin = record (new_node 20 (codes "cpu") load_cmd) { plugin_info = asked }

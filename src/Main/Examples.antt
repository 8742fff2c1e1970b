-- ===== src/Main/Examples.antt =====
-- The program of core/main.c after it has loaded one plugin.
use mathlib.Core.List.{reverse}
use syswatcher.Base.{ℕ, ◌≡◌, refl, false, true, [], ◌∷◌, none, some, arith, pos}
use syswatcher.Channel.{CollectItem}
use syswatcher.CString.{codes, after_slash, strncmp_eq}
use syswatcher.Metric.{Watcher, init_syswatcher, add_metric, add_subs, make_unit, make_subunit}
use syswatcher.PluginMgr.{PluginMgr, Env}
use syswatcher.PluginMgr.Load.{
  register, check_version, run_init, plugin_load, make_notify, make_sub_channel, fill_sub_channels,
  sub_channel_for,
}
use syswatcher.PluginMgr.Parser.{
  plugin_name_of, name_in, search_name, plugin_search_by_name, new_plugin, new_node, settle_load,
  parse_unknown, plugin_parser,
}
use syswatcher.PluginMgr.Nodes.{ids}
use syswatcher.PluginMgr.Samples.{answer, load_cmd, offer}
use syswatcher.PluginServer.{
  Server, plugin_server_start, start_mgr, plugin_mgr_init, plugin_mgr_check,
}
use syswatcher.PluginServer.Lifetime.{Reachable, started, parsed, fresh_mgr}
use syswatcher.Main.{metric_host, watched-Reachable}

abbrev item : CollectItem
item = record {
  item_name = codes "idle";
  item_desc = codes "time without work";
  run_once = false;
  collect_data_func = 50;
  interval = pos 2;
  data_count = 1;
}

abbrev cpu_env : Env
cpu_env = record {
  malloc = some 20;
  malloc_sub_channel = true;
  malloc_data = λ i. some 100;
  time = 7;
  dlopen = λ path. some 30;
  dlsym = λ h name. some 31;
  run_init = λ f info. (0, record (offer info) { collect_item = some (item ∷ []); item_count = 1 });
}

abbrev server : Server Watcher
server = record { g_mgr = none; context = init_syswatcher; calls = []; threads = 0 }

abbrev first_mgr : PluginMgr Watcher
first_mgr = fresh_mgr metric_host server

abbrev after_load : PluginMgr Watcher × ℕ
after_load = answer first_mgr (plugin_parser metric_host cpu_env first_mgr load_cmd)

after_load-Reachable : Reachable metric_host after_load.0
unfolding plugin_server_start start_mgr plugin_mgr_init plugin_mgr_check plugin_parser
    plugin_name_of name_in after_slash plugin_search_by_name search_name strncmp_eq parse_unknown
    new_plugin new_node settle_load plugin_load run_init check_version register make_notify
    make_sub_channel fill_sub_channels sub_channel_for add_metric add_subs make_unit make_subunit
    init_syswatcher
after_load-Reachable =
    parsed cpu_env first_mgr after_load.0 load_cmd after_load.1
      (started first_mgr first_mgr init_syswatcher server
        (record server { g_mgr = some first_mgr; threads = 1 }) refl refl refl refl)
      (record { ids = omega arith; count = omega arith }) (λ node is. refl) refl

watched-Reachable_example :
    syswatcher.Metric.Registry.ids after_load.0.context ≡ reverse (ids after_load.0.head)
watched-Reachable_example = watched-Reachable after_load.0 after_load-Reachable

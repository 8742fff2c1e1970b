-- ===== src/Main.antt =====
-- core/main.c: the metrics are what the plugin server tells of the plugins that come and go.
mod Examples
use mathlib.Core.List.{reverse}
use syswatcher.Base.{ℕ, ◌≡◌, refl, List, [], some}
use syswatcher.Metric.{Watcher, init_syswatcher, add_metric, del_metric}
use syswatcher.Metric.Registry.{add_metric-unit_of}
use syswatcher.Metric.Mirror.{ids-add_metric, ids-del_metric}
use syswatcher.PluginMgr.{PluginMgr, Host}
use syswatcher.PluginMgr.Nodes.{ids}
use syswatcher.PluginServer.Lifetime.{Reachable, Reachable-Consistent}

-- What the plugin server is started with: `watcher.add_metric`, `watcher.del_metric` and `watcher`.
abbrev pub metric_host : Host
metric_host = record {
  State = Watcher;
  loaded = syswatcher.Metric.Registry.ids;
  load = add_metric;
  unload = del_metric;
  loaded-load = ids-add_metric;
  load_defined =
      λ s chan (chans, some_chans, count). (_, add_metric-unit_of s chan chans some_chans count);
  loaded-unload = ids-del_metric;
}

-- In every state that the program can come to by plugin commands, the metrics belong to the plugins
-- that are loaded, one unit to each, in the order of loading.
pub watched-Reachable :
    (mgr : PluginMgr Watcher)
    → Reachable metric_host mgr
    → syswatcher.Metric.Registry.ids mgr.context ≡ reverse (ids mgr.head)
watched-Reachable mgr r = (Reachable-Consistent metric_host mgr r).mirrored

-- ===== src/Cleanup/Once.antt =====
-- The exit of core/cleanup.c, once and twice.
use syswatcher.Base.{[]}
use syswatcher.Metric.{Watcher}
use syswatcher.PluginMgr.{PluginMgr}

abbrev pub no_metrics : Watcher
no_metrics = record { metrics = [] }

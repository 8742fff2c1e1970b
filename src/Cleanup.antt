-- ===== src/Cleanup.antt =====
-- core/cleanup.c, and the order of core/main.c: how the daemon starts and ends. A section under the mutex
-- is one step. The metrics are what `context` of the manager points to, while there is one.
pub mod Said
pub mod Once
mod Examples
use syswatcher.Base.{
  ℕ, zero, suc, Bool, true, false, List, [], ◌∷◌, ◌++◌, drop, Option, none, some, if◌then◌else◌, ℤ,
  leb,
}
use syswatcher.Channel.{Str}
use syswatcher.CString.{codes}
use syswatcher.Metric.{SubMetricUnit, MetricUnit, Watcher, init_syswatcher}
use syswatcher.PluginMgr.{PluginMgr, Env}
use syswatcher.PluginServer.{Server, plugin_server_start, plugin_server_finish}
use syswatcher.Log.{level_zero, level_info, Logger, logging, init_logger, exit_logger}
use syswatcher.Main.{metric_host}

pub record Daemon : Type 0 where
  pub clean_done : Bool
  pub server : Server Watcher
  pub log_unit : Logger

-- logging(LEVEL_ZERO, ...) and logging(LEVEL_INFO, ...) of a text and a new line, with memory at hand.
unfoldable pub says : Str → Logger → Logger
says text l = logging level_zero (some (text ++ 10 ∷ [])) true true l

unfoldable pub tells : Str → Logger → Logger
tells text l = logging level_info (some (text ++ 10 ∷ [])) true true l

-- What `_do_del_metric` logs: the unit, and each sub-metric.
unfoldable pub tell_subs : List SubMetricUnit → Logger → Logger
unfolding tells
tell_subs [] l = l
tell_subs (subunit ∷ subs) l =
    tell_subs subs (tells (codes "  |-sub metric: " ++ subunit.sub_metric_name) l)

unfoldable pub tell_unit : MetricUnit → Logger → Logger
unfolding tells tell_subs
tell_unit unit l =
    tell_subs unit.sub_metrics (tells (codes "delete metric: " ++ unit.metric_name) l)

-- The loop over the units that it finds, with what is still in the list; deleting one takes the first
-- of the list out (on the heap: Metric.Destroy).
unfoldable pub delete_all : (found metrics : List MetricUnit) → Logger → List MetricUnit × Logger
unfolding tell_unit
delete_all [] metrics l = (metrics, l)
delete_all (unit ∷ found) metrics l = delete_all found (drop 1 metrics) (tell_unit unit l)

unfoldable pub delete_all_metric : Server Watcher → Logger → Server Watcher × Logger
unfolding delete_all
delete_all_metric s l = elim s.g_mgr [
  | none ↦
      let (metrics, l') = delete_all s.context.metrics s.context.metrics l in
      (record s { context = record { metrics = metrics } }, l')
  | some mgr ↦
      let (metrics, l') = delete_all mgr.context.metrics mgr.context.metrics l in
      (record s { g_mgr = some (record mgr { context = record { metrics = metrics } }) }, l')
]

-- `stop_collector` and `exit_syswatcher` change nothing here.
unfoldable pub cleanup : Env → (late timed_out : Bool) → (time : Str) → Daemon → Option Daemon
unfolding delete_all_metric says
cleanup env late timed_out time d =
    if d.clean_done
    then some d
    else let l1 = says (codes "stop collector") (says (codes "AT EXIT") d.log_unit) in
      let (bare, l2) = delete_all_metric d.server (says (codes "delete all metric") l1) in
      let l3 = says (codes "unload plugin server") l2 in
      elim (plugin_server_finish metric_host env bare) [
        | none ↦ none
        | some (server, ret) ↦
            let l4 = says (codes "DONE") (says (codes "clean syswatcher") l3) in
            elim (exit_logger late timed_out time l4) [
              | none ↦ none
              | some log_unit ↦
                  some (record { clean_done = true; server = server; log_unit = log_unit })
            ]
      ]

-- `main` up to the loop of the traversal; the result is that of `main` if it ends there.
unfoldable pub main :
    (fopen : Bool)
    → Option (PluginMgr Watcher)
    → (malloc_head : Bool) → Daemon
    → Option (Daemon × Option ℕ)
main fopen malloc malloc_head d =
    let (log_unit, failed) = init_logger fopen level_info d.log_unit in
    let ready = record d.server { context = init_syswatcher } in
    elim failed [
      | zero ↦ elim (plugin_server_start malloc malloc_head init_syswatcher ready) [
        | none ↦ none
        | some (server, ret) ↦ some (record d { log_unit = log_unit; server = server }, none)
      ]
      | suc _ ↦ some (record d { log_unit = log_unit }, some 1)
    ]

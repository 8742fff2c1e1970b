-- ===== src/PluginMgr/Unload.antt =====
-- plugin_unload, plugin_reload and plugin_mgr_des of core/plugin_mgr.c.
use syswatcher.Base.{
  ℕ, ◌+◌, ◌-◌, ◌%◌, ◌^◌, false, List, [], ◌∷◌, ◌++◌, Option, none, some, ◌==◌, if◌then◌else◌,
}
use syswatcher.ListHead.{Ptr}
use syswatcher.Channel.{PluginChannel}
use syswatcher.PluginMgr.{
  srm_ok, plugin_mgr_invalid_id, Plugin, Call, closed, exited, PluginMgr, Env, Host,
}
use syswatcher.PluginMgr.Load.{plugin_load}

-- list_del(&plugin_node->node)
unfoldable pub del_node : Ptr → List Plugin → List Plugin
del_node node [] = []
del_node node (p ∷ ps) = if p.node == node then ps else p ∷ del_node node ps

-- The sub-channels are freed, unless the plugin has none or there was no memory for them.
unfoldable pub free_channel : PluginChannel → PluginChannel
free_channel chan = elim chan.sub_channel [
  | none ↦ chan
  | some chans ↦ record chan {
    sub_channel = if chan.sub_metric_num == 0 then some chans else none;
    sub_metric_num = 0;
    plugin_id = plugin_mgr_invalid_id;
    name = [];
    desc = [];
  }
]

-- The first part: a registered plugin leaves the context and the list.
unfoldable pub unregister : (H : Host) → PluginMgr H.State → Plugin → PluginMgr H.State × Plugin
unfolding del_node free_channel
unregister H mgr p =
    if p.load_flags.vers_check
    then (
      record mgr {
        context = H.unload mgr.context p.id;
        plugins = (mgr.plugins + 2 ^ 32 - 1) % 2 ^ 32;
        head = del_node p.node mgr.head;
      },
      record p { id = plugin_mgr_invalid_id; notify_info = free_channel p.notify_info },
    )
    else (mgr, p)

-- The second part: `plugin_exit`, if `plugin_init` has run; the symbol may be missing.
unfoldable pub run_exit : {S : Type 0} → PluginMgr S → Plugin → Option (PluginMgr S)
run_exit mgr p =
    if p.load_flags.init
    then elim p.plugin_exit [
      | none ↦ none
      | some f ↦ some (record mgr { calls = mgr.calls ++ exited f ∷ [] })
    ]
    else some mgr

abbrev pub handle_of : Option ℕ → List Call
handle_of none = []
handle_of (some h) = closed h ∷ []

-- The third part: `dlclose`, if `dlopen` has succeeded.
unfoldable pub run_close : {S : Type 0} → PluginMgr S → Plugin → PluginMgr S
run_close mgr p =
    if p.load_flags.dlopen then record mgr { calls = mgr.calls ++ handle_of p.handler } else mgr

-- The assignments at the end; `load_flags` is not among them.
unfoldable pub reset : Env → Plugin → Plugin
reset env p = record p {
  handler = none;
  flag = false;
  plugin_init = none;
  plugin_exit = none;
  plugin_info = record p.plugin_info {
    desc = none;
    name = none;
    version = none;
    collect_item = none;
    item_count = 0;
  };
  unload_time = env.time;
}

-- NULL is noticed, and then read through all the same.
unfoldable pub plugin_unload :
    (H : Host) → Env → PluginMgr H.State → Option Plugin → Option (PluginMgr H.State × Plugin × ℕ)
unfolding unregister run_exit run_close reset
plugin_unload H env mgr none = none
plugin_unload H env mgr (some p) =
    let (mgr1, p1) = unregister H mgr p in
    elim (run_exit mgr1 p1) [
      | none ↦ none
      | some mgr2 ↦ some (run_close mgr2 p1, reset env p1, srm_ok)
    ]

-- The result of loading again is not looked at.
unfoldable pub plugin_reload :
    (H : Host) → Env → PluginMgr H.State → Plugin → Option (PluginMgr H.State × ℕ)
plugin_reload H env mgr p = elim (plugin_unload H env mgr (some p)) [
  | none ↦ none
  | some (mgr1, p1, _) ↦ elim (plugin_load H env mgr1 p1) [
    | none ↦ none
    | some (mgr2, _, _) ↦ some (mgr2, 0)
  ]
]

-- The loop of `plugin_mgr_des` over the nodes that it finds, each freed after it is unloaded.
unfoldable pub des_loop :
    (H : Host) → Env → PluginMgr H.State → List Plugin → Option (PluginMgr H.State)
des_loop H env mgr [] = some mgr
des_loop H env mgr (p ∷ ps) = elim (plugin_unload H env mgr (some p)) [
  | none ↦ none
  | some (mgr1, _, _) ↦ des_loop H env mgr1 ps
]

-- ===== src/PluginMgr/Parser.antt =====
-- plugin_parser and the searches of core/plugin_mgr.c.
use syswatcher.Base.{
  ℕ, ◌-◌, ◌%◌, ◌||◌, false, List, [], ◌∷◌, Option, none, some, ◌==◌, if◌then◌else◌, ltb, length,
  take, drop,
}
use syswatcher.ListHead.{Ptr}
use syswatcher.Channel.{Str}
use syswatcher.CString.{strncmp_eq, after_slash}
use syswatcher.PluginMgr.{
  srm_ok, srm_alloc_space_err, srm_not_allowed_err, plugin_mgr_invalid_id, plugin_mgr_name_length,
  Plugin, PluginMgr, Env, Host,
}
use syswatcher.PluginMgr.Load.{plugin_load}
use syswatcher.PluginMgr.Unload.{plugin_unload, plugin_reload}

-- The fields of plugin_cmd_t that are read here.
pub record PluginCmd : Type 0 where
  pub type : ℕ
  pub flag : ℕ
  pub argc : ℕ
  pub path : Str
  pub argv : List Str

-- The loops of the two searches: the last match counts.
unfoldable pub search_name : Str → List Plugin → Option Plugin → Option Plugin
unfolding strncmp_eq
search_name name [] found = found
search_name name (p ∷ ps) found =
    search_name name ps (if strncmp_eq plugin_mgr_name_length p.name name then some p else found)

unfoldable pub search_id : ℕ → List Plugin → Option Plugin → Option Plugin
search_id id [] found = found
search_id id (p ∷ ps) found = search_id id ps (if p.id == id then some p else found)

unfoldable pub plugin_search_by_name : {S : Type 0} → PluginMgr S → Str → Option Plugin
unfolding search_name
plugin_search_by_name mgr name = search_name name mgr.head none

unfoldable pub plugin_search_by_id : {S : Type 0} → PluginMgr S → ℕ → Option Plugin
unfolding search_id
plugin_search_by_id mgr id = search_id id mgr.head none

-- The name in a file name: libpluginAA.so -- pluginAA. The copy goes past the buffer for a file name
-- of more than 259 bytes, and before it for one of less than 6.
unfoldable pub name_in : Str → Option Str
name_in p =
    let dlname_size = length p in
    if ltb dlname_size 6 || ltb plugin_mgr_name_length (dlname_size - 3)
    then none
    else some (take (dlname_size - 6) (drop 3 p))

unfoldable pub plugin_name_of : Str → Option Str
plugin_name_of path = name_in (after_slash path path)

-- The array of the path of a plugin.
abbrev pub plugin_mgr_path_length : ℕ
plugin_mgr_path_length = 2048

-- A new node, before it is loaded, with a path that fits.
unfoldable pub new_node : Ptr → Str → PluginCmd → Plugin
new_node node name cmd = record {
  node = node;
  id = plugin_mgr_invalid_id;
  flag = false;
  handler = none;
  name = name;
  path = cmd.path;
  plugin_init = none;
  plugin_exit = none;
  plugin_info = record {
    name = none;
    desc = none;
    version = none;
    collect_item = none;
    item_count = 0;
    argc = cmd.argc;
    argv = cmd.argv;
  };
  notify_info = record {
    plugin_id = plugin_mgr_invalid_id;
    name = [];
    desc = [];
    sub_metric_num = 0;
    sub_channel = none;
  };
  load_time = 0;
  unload_time = 0;
  load_flags = record { dlopen = false; vers_check = false; init = false };
}

-- sprintf of a longer path goes past its array.
unfoldable pub new_plugin : Ptr → Str → PluginCmd → Option Plugin
unfolding new_node
new_plugin node name cmd =
    if ltb (length cmd.path) plugin_mgr_path_length then some (new_node node name cmd) else none

-- The command for a plugin that is loaded.
unfoldable pub parse_known :
    (H : Host) → Env → PluginMgr H.State → ℕ → Plugin → Option (PluginMgr H.State × ℕ)
parse_known H env mgr op p =
    if op == 1
    then elim (plugin_unload H env mgr (some p)) [
      | none ↦ none
      | some (mgr1, _, _) ↦ some (mgr1, srm_ok)
    ]
    else if op == 0 || op == 2
    then elim (plugin_reload H env mgr p) [ none ↦ none | some (mgr1, _) ↦ some (mgr1, srm_ok) ]
    else some (mgr, srm_ok)

-- What `case 0x0` does after a load: a plugin that did not load is unloaded and freed.
unfoldable pub settle_load :
    (H : Host) → Env → PluginMgr H.State → Plugin → ℕ → Option (PluginMgr H.State × ℕ)
settle_load H env mgr p ret =
    if ret == srm_ok then some (mgr, ret) else elim (plugin_unload H env mgr (some p)) [
      | none ↦ none
      | some (mgr1, _, _) ↦ some (mgr1, ret)
    ]

-- The command for a plugin that is not loaded.
unfoldable pub parse_unknown :
    (H : Host) → Env → PluginMgr H.State → PluginCmd → Str → Option (PluginMgr H.State × ℕ)
parse_unknown H env mgr cmd name =
    if cmd.type % 16 == 0
    then elim env.malloc [
      | none ↦ some (mgr, srm_alloc_space_err)
      | some node ↦ elim (new_plugin node name cmd) [
        | none ↦ none
        | some plugin_node ↦ elim (plugin_load H env mgr plugin_node) [
          | none ↦ none
          | some (mgr1, p, ret) ↦ settle_load H env mgr1 p ret
        ]
      ]
    ]
    else if cmd.type % 16 == 1 || cmd.type % 16 == 2
    then some (mgr, srm_not_allowed_err)
    else some (mgr, srm_ok)

unfoldable pub plugin_parser :
    (H : Host) → Env → PluginMgr H.State → PluginCmd → Option (PluginMgr H.State × ℕ)
plugin_parser H env mgr cmd = elim (plugin_name_of cmd.path) [
  | none ↦ none
  | some name ↦ elim (plugin_search_by_name mgr name) [
    | none ↦ parse_unknown H env mgr cmd name
    | some p ↦ parse_known H env mgr (cmd.type % 16) p
  ]
]

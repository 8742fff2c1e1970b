-- ===== src/PluginMgr/Load.antt =====
-- plugin_load of core/plugin_mgr.c.
use syswatcher.Base.{
  ℕ, zero, suc, ◌+◌, ◌%◌, ◌^◌, true, List, [], ◌∷◌, ◌++◌, Option, none, some, ◌==◌, if◌then◌else◌,
  length, take,
}
use syswatcher.Channel.{Str, Item, CollectItem, PluginInfo, SubChannel, PluginChannel}
use syswatcher.CString.{codes, strncmp_eq}
use syswatcher.PluginMgr.{
  srm_ok, srm_version_mismatch_err, srm_register_err, srm_alloc_space_err, plugin_release_version,
  Plugin, opened, inited, PluginMgr, Env, Host,
}

-- strncpy into a buffer of so many bytes, the last of which is then set to NUL.
abbrev pub copy_to : ℕ → Str → Str
copy_to zero s = []
copy_to (suc n) s = take n s

-- The item of a sub-channel: without memory for its values it has none.
abbrev pub item_for : Option ℕ → ℕ → Item
item_for none count = record { element_num = 0; block = none }
item_for (some p) count = record { element_num = count; block = some p }

-- sub_channel[i], filled from collect_item[i].
unfoldable pub sub_channel_for : (ℕ → Option ℕ) → ℕ → CollectItem → SubChannel
sub_channel_for malloc_data i it = record {
  subname = copy_to 64 it.item_name;
  subdesc = copy_to 1024 it.item_desc;
  run_once = it.run_once;
  interval = it.interval;
  item = item_for (malloc_data i) it.data_count;
  collect_data_func = it.collect_data_func;
}

-- The loop over the sub-channels, with `left` rounds to go.
unfoldable pub fill_sub_channels :
    (ℕ → Option ℕ) → (left i : ℕ) → List CollectItem → Option (List SubChannel)
unfolding sub_channel_for
fill_sub_channels malloc_data zero i items = some []
fill_sub_channels malloc_data (suc left) i [] = none
fill_sub_channels malloc_data (suc left) i (it ∷ items) =
    elim (fill_sub_channels malloc_data left (i + 1) items) [
      | none ↦ none
      | some rest ↦ some (sub_channel_for malloc_data i it ∷ rest)
    ]

-- The items that the array holds; through NULL the first read is a fault.
abbrev pub items_of : Option (List CollectItem) → List CollectItem
items_of none = []
items_of (some items) = items

-- The array of sub-channels: NULL when there is no memory for it.
unfoldable pub make_sub_channel : Env → PluginInfo → Option (Option (List SubChannel))
unfolding fill_sub_channels
make_sub_channel env info =
    if env.malloc_sub_channel
    then elim (fill_sub_channels env.malloc_data info.item_count 0 (items_of info.collect_item)) [
      | none ↦ none
      | some chans ↦ some (some chans)
    ]
    else some none

-- `notify_info` of a plugin that passed the checks; a missing name or description is a fault.
unfoldable pub make_notify : Env → ℕ → PluginInfo → Option PluginChannel
unfolding make_sub_channel
make_notify env id info = elim info.name [
  | none ↦ none
  | some name ↦ elim info.desc [
    | none ↦ none
    | some desc ↦ elim (make_sub_channel env info) [
      | none ↦ none
      | some chans ↦ some (record {
        plugin_id = id;
        name = copy_to 64 name;
        desc = copy_to 1024 desc;
        sub_metric_num = info.item_count;
        sub_channel = chans;
      })
    ]
  ]
]

-- After the version check: fill in `notify_info`, put the plugin in front, and tell the context.
unfoldable pub register :
    (H : Host) → Env → PluginMgr H.State → Plugin → Option (PluginMgr H.State × Plugin × ℕ)
register H env mgr p = elim (make_notify env p.id p.plugin_info) [
  | none ↦ none
  | some notify ↦ elim (H.load mgr.context notify) [
    | none ↦ none
    | some context ↦
        let q : Plugin = record p {
          notify_info = notify;
          load_flags = record p.load_flags { vers_check = true };
        } in
        some (
          record mgr {
            head = q ∷ mgr.head;
            plugins = (mgr.plugins + 1) % 2 ^ 32;
            context = context;
          },
          q,
          srm_ok,
        )
  ]
]

-- After the plugin's init function returned 0: the version check.
unfoldable pub check_version :
    (H : Host) → Env → PluginMgr H.State → Plugin → Option (PluginMgr H.State × Plugin × ℕ)
check_version H env mgr p = elim p.plugin_info.version [
  | none ↦ none
  | some version ↦
      if strncmp_eq (length plugin_release_version) version plugin_release_version
      then register H env mgr p
      else some (mgr, p, srm_version_mismatch_err)
]

-- The call of the plugin's init function; the symbol may be missing.
unfoldable pub run_init :
    (H : Host) → Env → PluginMgr H.State → Plugin → Option (PluginMgr H.State × Plugin × ℕ)
run_init H env mgr p = elim p.plugin_init [
  | none ↦ none
  | some f ↦
      (let (ret, info) = env.run_init f p.plugin_info in
        if ret == 0
        then check_version H env (record mgr { calls = mgr.calls ++ inited f ∷ [] })
            (record p { plugin_info = info; load_flags = record p.load_flags { init = true } })
        else some (mgr, record p { plugin_info = info }, srm_register_err))
]

unfoldable pub plugin_load :
    (H : Host) → Env → PluginMgr H.State → Plugin → Option (PluginMgr H.State × Plugin × ℕ)
plugin_load H env mgr p = elim (env.dlopen p.path) [
  | none ↦ some (mgr, record p { handler = none }, srm_alloc_space_err)
  | some h ↦
      run_init H env
        (record mgr {
          plugin_id_inc = (mgr.plugin_id_inc + 1) % 2 ^ 64;
          calls = mgr.calls ++ opened h ∷ [];
        })
        (record p {
          handler = some h;
          load_flags = record p.load_flags { dlopen = true };
          id = mgr.plugin_id_inc;
          flag = true;
          load_time = env.time;
          plugin_init = env.dlsym h (p.name ++ codes "_init");
          plugin_exit = env.dlsym h (p.name ++ codes "_exit");
        })
]

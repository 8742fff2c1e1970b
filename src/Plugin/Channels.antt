-- ===== src/Plugin/Channels.antt =====
-- PLUGIN_INIT (plugins/plugin_include/plugin_def.h) and what plugin_load of core/plugin_mgr.c makes of
-- what it fills in.
use syswatcher.Base.{ltb, false, ℕ, ◌≡◌, refl, Bool, true, Option, some, List, ◌∷◌, length, arith}
use syswatcher.Channel.{Str, CollectItem, PluginInfo, SubChannel, PluginChannel}
use syswatcher.PluginMgr.{Env, Host, Plugin, PluginMgr, srm_ok, plugin_release_version}
use syswatcher.PluginMgr.Load.{copy_to}
use syswatcher.PluginMgr.Filled.{IsFilled}
use syswatcher.Plugin.{max_argv, plugin_init_macro}

-- What a sub-channel takes from the item of a plugin, when there is memory for its values.
abbrev pub as_offered : SubChannel → Str × Bool × ℕ × ℕ
as_offered c = (c.subname, c.run_once, c.item.element_num, c.collect_data_func)

abbrev pub offered : CollectItem → Str × Bool × ℕ × ℕ
offered it = (copy_to 64 it.item_name, it.run_once, it.data_count, it.collect_data_func)

-- A plugin whose init function is PLUGIN_INIT has filled in all that plugin_load reads, where its own
-- record has a name and a description and malloc succeeds.
pub plugin_init_macro-IsFilled :
    (items : List CollectItem) (own mgr info : PluginInfo) (name desc : Str)
    → own.name ≡ some name
    → own.desc ≡ some desc
    → plugin_init_macro true items own mgr ≡ some info
    → IsFilled info
unfolding plugin_init_macro
plugin_init_macro-IsFilled items own mgr info name desc n d e =
    let fits : ltb max_argv mgr.argc ≡ false = ground arith in
    let made : info ≡ record {
      name = own.name;
      desc = own.desc;
      version = some plugin_release_version;
      collect_item = some items;
      item_count = length items;
      argc = mgr.argc;
      argv = info.argv;
    } =
      ground arith in
    rw made (record {
      name = (name, n);
      desc = (desc, d);
      version = (plugin_release_version, refl);
      items = (items, refl, refl);
    })

module _ (H : Host) (env : Env) where
  -- The plugin stands in front of the manager's list, and the context was given its channel.
  abbrev pub IsRegistered :
      PluginMgr H.State → PluginChannel → Option (PluginMgr H.State × Plugin × ℕ) → Type 0
  IsRegistered mgr chan r =
      (mgr' : PluginMgr H.State) × (q : Plugin) × (r ≡ some (mgr', q, srm_ok))
      × (mgr'.head ≡ q ∷ mgr.head)
      × (q.notify_info ≡ chan)
      × (H.load mgr.context chan ≡ some mgr'.context)

-- ===== src/PluginMgr/Filled.antt =====
-- plugin_load of core/plugin_mgr.c: the channel of a plugin that offers all it should.
use syswatcher.Base.{
  ℕ, ◌+◌, ◌≡◌, refl, Bool, true, false, ◌||◌, not, List, [], ◌∷◌, Option, none, some, arith, length,
}
use syswatcher.Channel.{Str, CollectItem, PluginInfo, SubChannel, PluginChannel}
use syswatcher.PluginMgr.{HasChannels, Plugin, Env}
use syswatcher.PluginMgr.Load.{
  items_of, copy_to, sub_channel_for, fill_sub_channels, make_sub_channel, make_notify,
}

-- Unloading the plugin does not call through NULL.
abbrev pub is_some : Option ℕ → Bool
is_some none = false
is_some (some f) = true

abbrev pub exits : Plugin → Bool
exits p = not p.load_flags.init || is_some p.plugin_exit

-- What an init function that returns 0 has filled in.
pub record IsFilled (info : PluginInfo) : Type 0 where
  pub name : (s : Str) × (info.name ≡ some s)
  pub desc : (s : Str) × (info.desc ≡ some s)
  pub version : (s : Str) × (info.version ≡ some s)
  pub items :
      (items : List CollectItem) × (info.collect_item ≡ some items)
      × (info.item_count ≡ length items)

-- Both symbols of every library are there, an init function that returns 0 has filled in what the
-- plugin offers, and there is memory for it.
pub record IsSound (env : Env) : Type 0 where
  pub dlsym : (h : ℕ) (name : Str) → (f : ℕ) × (env.dlsym h name ≡ some f)
  pub run_init :
      (f : ℕ) (info : PluginInfo) → (env.run_init f info).0 ≡ 0 → IsFilled (env.run_init f info).1
  pub malloc_sub_channel : env.malloc_sub_channel ≡ true

fill_sub_channels_total :
    (malloc_data : ℕ → Option ℕ) (i : ℕ) (items : List CollectItem)
    → (chans : List SubChannel) × (fill_sub_channels malloc_data (length items) i items
        ≡ some chans)
      × (length chans ≡ length items)
unfolding fill_sub_channels
fill_sub_channels_total malloc_data i [] = ([], refl, refl)
fill_sub_channels_total malloc_data i (it ∷ items) =
    let (chans, e, l) = fill_sub_channels_total malloc_data (i + 1) items in
    (sub_channel_for malloc_data i it ∷ chans, rw e refl, omega (arith, l))

pub make_notify_total :
    (env : Env) (id : ℕ) (info : PluginInfo)
    → IsSound env
    → IsFilled info
    → (chan : PluginChannel) × (make_notify env id info ≡ some chan) × HasChannels chan
unfolding make_notify make_sub_channel
make_notify_total env id info sound filled =
    let (name, n) = filled.name in
    let (desc, d) = filled.desc in
    let (items, is, count) = filled.items in
    let (chans, e, l) = fill_sub_channels_total env.malloc_data 0 items in
    let filled_in : fill_sub_channels env.malloc_data info.item_count 0 (items_of (some items))
        ≡ some chans =
      rw count e in
    (
      record {
        plugin_id = id;
        name = copy_to 64 name;
        desc = copy_to 1024 desc;
        sub_metric_num = info.item_count;
        sub_channel = some chans;
      },
      rw (n, d, sound.malloc_sub_channel, is, filled_in) refl,
      (chans, refl, omega (arith, count, l)),
    )

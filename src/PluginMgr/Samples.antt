-- ===== src/PluginMgr/Samples.antt =====
-- A small context, environment and command for core/plugin_mgr.c.
use syswatcher.Base.{
  ◌≡◌, ℕ, without, ◌+◌, refl, true, List, [], ◌∷◌, ◌++◌, Option, none, some, arith,
}
use syswatcher.CString.{codes}
use syswatcher.Channel.{Str, PluginInfo, PluginChannel}
use syswatcher.PluginMgr.{plugin_mgr_tag_checksum, plugin_release_version, PluginMgr, Env, Host}
use syswatcher.PluginMgr.Parser.{PluginCmd}
use syswatcher.PluginMgr.Filled.{IsSound}

pub loaded_again :
    (s s' : List ℕ) (chan : PluginChannel)
    → some (s ++ chan.plugin_id ∷ []) ≡ some s'
    → s' ≡ s ++ chan.plugin_id ∷ []
loaded_again s s' chan e = ground arith

-- A context that remembers the ids.
abbrev pub id_host : Host
id_host = record {
  State = List ℕ;
  loaded = λ s. s;
  load = λ s chan. some (s ++ chan.plugin_id ∷ []);
  unload = λ s id. without id s;
  loaded-load = loaded_again;
  load_defined = λ s chan channels. (s ++ chan.plugin_id ∷ [], refl);
  loaded-unload = λ s id. refl;
}

-- A plugin without sub-channels.
abbrev pub offer : PluginInfo → PluginInfo
offer info = record info {
  name = some (codes "cpu");
  desc = some (codes "load of the processors");
  version = some plugin_release_version;
  collect_item = some [];
  item_count = 0;
}

abbrev pub env : Env
env = record {
  malloc = some 20;
  malloc_sub_channel = true;
  malloc_data = λ i. some (100 + i);
  time = 7;
  dlopen = λ path. some 30;
  dlsym = λ h name. some 31;
  run_init = λ f info. (0, offer info);
}

pub env-IsSound : IsSound env
env-IsSound = record {
  dlsym = λ h name. (31, refl);
  run_init = λ f info e. record {
    name = (codes "cpu", refl);
    desc = (codes "load of the processors", refl);
    version = (plugin_release_version, refl);
    items = ([], refl, refl);
  };
  malloc_sub_channel = refl;
}

abbrev pub path : Str
path = codes "/opt/libcpu.so"

abbrev pub load_cmd : PluginCmd
load_cmd = record { type = 0x90; flag = 0x6b; argc = 0; path = path; argv = [] }

-- A manager that has just been started.
abbrev pub new_mgr : PluginMgr (List ℕ)
new_mgr = record {
  tag = plugin_mgr_tag_checksum;
  head = [];
  plugin_id_inc = 1;
  plugins = 0;
  context = [];
  calls = [];
}

-- What a command answers.
abbrev pub answer : {S : Type 0} → PluginMgr S → Option (PluginMgr S × ℕ) → PluginMgr S × ℕ
answer mgr none = (mgr, 0)
answer mgr (some r) = r

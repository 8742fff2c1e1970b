-- ===== src/PluginMgr.antt =====
-- core/plugin_mgr.c and include/plugin_mgr.h: the loaded plugins, newest first.
-- A plugin is named by the address of its node; the list of include/list.h stands as the sequence
-- of its nodes. What the dynamic linker, `malloc`, the clock and the plugins' own functions do during
-- one command is an `Env`. `none` is a fault: a call or a read through NULL, or past a buffer.
pub mod Load
pub mod Unload
pub mod Parser
pub mod Param
pub mod Outcome
pub mod Nodes
pub mod Search
pub mod Consistent
pub mod Commands
pub mod Balance
pub mod Effects
pub mod Names
pub mod Filled
pub mod LoadTotal
pub mod Total
pub mod Samples
mod Examples
use syswatcher.Base.{
  without, ℕ, ◌≡◌, Bool, List, [], ◌∷◌, ◌++◌, Option, some, ◌==◌, if◌then◌else◌, length,
}
use syswatcher.ListHead.{Ptr}
use syswatcher.Channel.{Str, PluginInfo, SubChannel, PluginChannel}
use syswatcher.CString.{codes}

-- include/srm_errno.h
abbrev pub srm_ok : ℕ
srm_ok = 0

abbrev pub srm_version_mismatch_err : ℕ
srm_version_mismatch_err = 2

abbrev pub srm_register_err : ℕ
srm_register_err = 4

abbrev pub srm_alloc_space_err : ℕ
srm_alloc_space_err = 5

abbrev pub srm_not_allowed_err : ℕ
srm_not_allowed_err = 8

abbrev pub plugin_mgr_tag_checksum : ℕ
plugin_mgr_tag_checksum = 0xe50a7d21

abbrev pub plugin_mgr_invalid_id : ℕ
plugin_mgr_invalid_id = 0

abbrev pub plugin_mgr_name_length : ℕ
plugin_mgr_name_length = 256

abbrev pub plugin_release_version : Str
plugin_release_version = codes "v0.1.0"

-- The three bits of `load_flags`.
pub record LoadFlags : Type 0 where
  pub dlopen : Bool
  pub vers_check : Bool
  pub init : Bool

-- plugin_t; functions and handles are numbers, NULL is `none`.
pub record Plugin : Type 0 where
  pub node : Ptr
  pub id : ℕ
  pub flag : Bool
  pub handler : Option ℕ
  pub name : Str
  pub path : Str
  pub plugin_init : Option ℕ
  pub plugin_exit : Option ℕ
  pub plugin_info : PluginInfo
  pub notify_info : PluginChannel
  pub load_time : ℕ
  pub unload_time : ℕ
  pub load_flags : LoadFlags

-- Calls that leave the program: into the dynamic linker and into a plugin.
pub data Call : Type 0 where
  opened closed inited exited : ℕ → Call

-- plugin_mgr_t, with the state behind `context`, and the calls made so far, oldest first.
pub record PluginMgr (S : Type 0) : Type 0 where
  pub tag : ℕ
  pub head : List Plugin
  pub plugin_id_inc : ℕ
  pub plugins : ℕ
  pub context : S
  pub calls : List Call

-- What one command meets outside the program.
pub record Env : Type 0 where
  pub malloc : Option Ptr
  pub malloc_sub_channel : Bool
  pub malloc_data : ℕ → Option ℕ
  pub time : ℕ
  pub dlopen : Str → Option ℕ
  pub dlsym : ℕ → Str → Option ℕ
  pub run_init : ℕ → PluginInfo → ℕ × PluginInfo

-- The channel comes with the array of its sub-channels.
abbrev pub HasChannels : PluginChannel → Type 0
HasChannels chan =
    (chans : List SubChannel) × (chan.sub_channel ≡ some chans)
    × (chan.sub_metric_num ≡ length chans)

-- What the manager is given to call for a plugin that comes or goes: `load`, `unload` and their
-- `context`. `loaded` are the ids that the context holds, oldest first.
pub record Host : Type 1 where
  pub State : Type 0
  pub loaded : State → List ℕ
  pub load : State → PluginChannel → Option State
  pub unload : State → ℕ → State
  pub loaded-load :
      (s s' : State) (chan : PluginChannel)
      → load s chan ≡ some s'
      → loaded s' ≡ loaded s ++ chan.plugin_id ∷ []
  pub load_defined :
      (s : State) (chan : PluginChannel) → HasChannels chan → (s' : State) × (load s chan ≡ some s')
  pub loaded-unload : (s : State) (id : ℕ) → loaded (unload s id) ≡ without id (loaded s)

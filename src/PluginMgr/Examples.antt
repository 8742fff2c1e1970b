-- ===== src/PluginMgr/Examples.antt =====
-- The commands of core/plugin_mgr.c on a manager that has just been started.
use syswatcher.Base.{ℕ, ◌≡◌, refl, List, [], ◌∷◌, ◌++◌, some, arith}
use syswatcher.CString.{codes, strncmp_eq, after_slash, starts_with, contains}
use syswatcher.Channel.{Str}
use syswatcher.PluginMgr.{PluginMgr, Call, Env}
use syswatcher.PluginMgr.Load.{
  register, check_version, run_init, plugin_load, make_notify, make_sub_channel, fill_sub_channels,
}
use syswatcher.PluginMgr.Unload.{plugin_unload, unregister, run_exit, run_close, reset}
use syswatcher.PluginMgr.Parser.{
  plugin_name_of, name_in, search_name, plugin_search_by_name, new_plugin, new_node, settle_load,
  parse_unknown, plugin_parser,
}
use syswatcher.PluginMgr.Param.{find_in}
use syswatcher.PluginMgr.Consistent.{Consistent}
use syswatcher.PluginMgr.Commands.{plugin_parser-Consistent}
use syswatcher.PluginMgr.Balance.{IsBalanced}
use syswatcher.PluginMgr.Effects.{parse_unknown-IsBalanced}
use syswatcher.PluginMgr.Total.{Answers, plugin_parser_total}
use syswatcher.PluginMgr.Names.{library_of, spaces, plugin_name_of-library_of, find_in-value}
use syswatcher.PluginMgr.Samples.{id_host, env, env-IsSound, load_cmd, new_mgr, answer}

new_mgr-Consistent : Consistent id_host new_mgr
new_mgr-Consistent = record {
  counted = refl;
  small = omega arith;
  ordered = tt;
  placed = tt;
  named = tt;
  checked = tt;
  mirrored = refl;
}

abbrev after_load : PluginMgr (List ℕ) × ℕ
after_load = answer new_mgr (plugin_parser id_host env new_mgr load_cmd)

plugin_parser-Consistent_example : Consistent id_host after_load.0
unfolding plugin_parser plugin_name_of name_in after_slash plugin_search_by_name search_name
    strncmp_eq parse_unknown new_plugin new_node settle_load plugin_load run_init check_version
    register make_notify make_sub_channel fill_sub_channels
plugin_parser-Consistent_example =
    plugin_parser-Consistent id_host env new_mgr after_load.0 load_cmd after_load.1
      new_mgr-Consistent (record { ids = omega arith; count = omega arith }) (λ node is. refl) refl

plugin_parser_total_example :
    Answers id_host env env-IsSound (plugin_parser id_host env new_mgr load_cmd)
unfolding plugin_name_of name_in after_slash
plugin_parser_total_example =
    plugin_parser_total id_host env env-IsSound new_mgr load_cmd (codes "cpu") refl (omega arith) tt

-- An environment in which the init function fails.
abbrev bad_env : Env
bad_env = record env { run_init = λ f info. (1, info) }

abbrev after_bad : PluginMgr (List ℕ) × ℕ
after_bad = answer new_mgr (parse_unknown id_host bad_env new_mgr load_cmd (codes "cpu"))

parse_unknown-IsBalanced_example :
    (after_bad.0.head ≡ [])
    × (after_bad.0.plugins ≡ 0)
    × (after_bad.0.context ≡ [])
    × ((extra : List Call) × IsBalanced extra × (after_bad.0.calls ≡ [] ++ extra))
unfolding parse_unknown new_plugin new_node settle_load plugin_load run_init plugin_unload
    unregister run_exit run_close reset
parse_unknown-IsBalanced_example =
    parse_unknown-IsBalanced id_host bad_env new_mgr after_bad.0 load_cmd (codes "cpu") after_bad.1
      refl (λ e. absurd (omega (arith, e))) refl

plugin_name_of-library_of_example :
    plugin_name_of (codes "/opt" ++ b'/' ∷ library_of (codes "cpu")) ≡ some (codes "cpu")
plugin_name_of-library_of_example =
    plugin_name_of-library_of (codes "/opt") (codes "cpu") refl (omega arith)

-- A name of 254 bytes.
abbrev long_name : Str
long_name = spaces 254 []

find_in-value_example :
    find_in 2
      ((codes "x=1" ∷ []) ++ (codes "key" ++ spaces 2 (b'=' ∷ codes "v")) ∷ [])
      (codes "key")
    ≡ some (some (codes "v"))
unfolding contains starts_with
find_in-value_example =
    find_in-value (codes "x=1" ∷ []) [] (codes "key") (codes "v") 2 2 (refl, tt) (omega arith)

-- ===== src/PluginMgr/Total.antt =====
-- The commands of plugin_parser in core/plugin_mgr.c, when plugins and memory are as expected.
use syswatcher.Base.{
  length, ◌<◌, Bool-cases, inl, inr, ℕ, ◌%◌, ◌≡◌, refl, subst, true, ◌||◌, List, [], ◌∷◌, ◌++◌,
  Option, none, some, arith, ◌==◌, All, Option-cases,
}
use syswatcher.Channel.{Str}
use syswatcher.ListHead.{Ptr}
use syswatcher.PluginMgr.Outcome.{plugin_unload-Unloaded}
use syswatcher.PluginMgr.{
  srm_alloc_space_err, srm_ok, srm_not_allowed_err, Plugin, PluginMgr, Env, Host,
}
use syswatcher.PluginMgr.Unload.{del_node, plugin_unload, plugin_reload, des_loop}
use syswatcher.PluginMgr.Parser.{
  PluginCmd, plugin_name_of, search_name, plugin_search_by_name, new_plugin, new_node,
  plugin_mgr_path_length, parse_known, settle_load, parse_unknown, plugin_parser,
}
use syswatcher.PluginMgr.Filled.{exits, IsSound}
use syswatcher.PluginMgr.LoadTotal.{AllExit, plugin_load_total}
use syswatcher.PluginMgr.Search.{Within, search_name-some}

All-middle :
    (xs : List Plugin) (p : Plugin) (ys : List Plugin)
    → All (λ q. exits q ≡ true) (xs ++ p ∷ ys)
    → exits p ≡ true
All-middle [] p ys all = all.0
All-middle (x ∷ xs) p ys all = All-middle xs p ys all.1

module _ (H : Host) (env : Env) where
  del_node-AllExit : (node : Ptr) (ps : List Plugin) → AllExit ps → AllExit (del_node node ps)
  unfolding del_node
  del_node-AllExit node [] all = tt
  del_node-AllExit node (p ∷ ps) (ready, all) = elim (Bool-cases (p.node == node)) [
    | inl is ↦ let head : del_node node (p ∷ ps) ≡ ps = ground arith in rw head all
    | inr other ↦
        let head : del_node node (p ∷ ps) ≡ p ∷ del_node node ps = ground arith in
        rw head (ready, del_node-AllExit node ps all)
  ]

  plugin_unload_total :
      (mgr : PluginMgr H.State) (p : Plugin)
      → exits p ≡ true
      → AllExit mgr.head
      → (mgr' : PluginMgr H.State) × (p' : Plugin) × (ret : ℕ) × (plugin_unload H env mgr (some p)
          ≡ some (mgr', p', ret))
        × AllExit mgr'.head
  unfolding plugin_unload
  plugin_unload_total mgr p ready all = elim (Option-cases (plugin_unload H env mgr (some p))) [
    | inl fault ↦ absurd (ground arith)
    | inr ((mgr', p', ret), is) ↦
        let head = (plugin_unload-Unloaded H env mgr mgr' p p' ret is).head in
        (
          mgr',
          p',
          ret,
          is,
          elim (Bool-cases p.load_flags.vers_check) [
            | inl checked ↦
                let gone : mgr'.head ≡ del_node p.node mgr.head = ground arith in
                rw gone (del_node-AllExit p.node mgr.head all)
            | inr unchecked ↦ let same : mgr'.head ≡ mgr.head = ground arith in rw same all
          ],
        )
  ]

  -- The loop of plugin_mgr_des returns, if every plugin that it finds can be unloaded.
  pub des_loop_total :
      (mgr : PluginMgr H.State) (ps : List Plugin)
      → AllExit ps
      → AllExit mgr.head
      → (mgr' : PluginMgr H.State) × (des_loop H env mgr ps ≡ some mgr')
  unfolding des_loop
  des_loop_total mgr [] ready all = (mgr, refl)
  des_loop_total mgr (p ∷ ps) (is, ready) all =
      let (mgr1, p1, ret, e, all1) = plugin_unload_total mgr p is all in
      let (mgr2, e2) = des_loop_total mgr1 ps ready all1 in (mgr2, ground arith)

module _ (H : Host) (env : Env) (sound : IsSound env) where
  -- A result, on which the manager's plugins can still be unloaded.
  abbrev pub Answers : Option (PluginMgr H.State × ℕ) → Type 0
  Answers r = (mgr' : PluginMgr H.State) × (ret : ℕ) × (r ≡ some (mgr', ret)) × AllExit mgr'.head

  plugin_reload_total :
      (mgr : PluginMgr H.State) (p : Plugin)
      → exits p ≡ true
      → AllExit mgr.head
      → Answers (plugin_reload H env mgr p)
  unfolding plugin_reload
  plugin_reload_total mgr p ready all =
      let (mgr1, p1, ret1, e1, all1) = plugin_unload_total H env mgr p ready all in
      elim (plugin_load_total H env sound mgr1 p1 all1) [
        | inl (no_file, e2) ↦ (mgr1, 0, ground arith, all1)
        | inr (mgr2, p2, ret2, e2, ready2, all2) ↦ (mgr2, 0, ground arith, all2)
      ]

  parse_known_total :
      (mgr : PluginMgr H.State) (op : ℕ) (p : Plugin)
      → exits p ≡ true
      → AllExit mgr.head
      → Answers (parse_known H env mgr op p)
  unfolding parse_known
  parse_known_total mgr op p ready all =
      let (mgr1, p1, ret1, e1, all1) = plugin_unload_total H env mgr p ready all in
      let (mgr2, ret2, e2, all2) = plugin_reload_total mgr p ready all in
      elim (Bool-cases (op == 1)) [
        | inl unload ↦ (mgr1, srm_ok, ground arith, all1)
        | inr other ↦ elim (Bool-cases (op == 0 || op == 2)) [
          | inl reload ↦ (mgr2, srm_ok, ground arith, all2)
          | inr unknown ↦ (mgr, srm_ok, ground arith, all)
        ]
      ]

  parse_unknown_total :
      (mgr : PluginMgr H.State) (cmd : PluginCmd) (name : Str)
      → length cmd.path < plugin_mgr_path_length
      → AllExit mgr.head
      → Answers (parse_unknown H env mgr cmd name)
  unfolding parse_unknown settle_load new_plugin new_node
  parse_unknown_total mgr cmd name fits all = elim (Bool-cases (cmd.type % 16 == 0)) [
    | inl load ↦ elim (Option-cases env.malloc) [
      | inl full ↦ (mgr, srm_alloc_space_err, ground arith, all)
      | inr (node, is) ↦
          let p = new_node node name cmd in
          elim (plugin_load_total H env sound mgr p all) [
            | inl (no_file, e1) ↦
                let p1 = record p { handler = none } in
                let (mgr2, p2, ret2, e2, all2) = plugin_unload_total H env mgr p1 refl all in
                (mgr2, srm_alloc_space_err, ground arith, all2)
            | inr (mgr1, p1, ret1, e1, ready1, all1) ↦
                let (mgr2, p2, ret2, e2, all2) = plugin_unload_total H env mgr1 p1 ready1 all1 in
                elim (Bool-cases (ret1 == srm_ok)) [
                  | inl fine ↦ (mgr1, ret1, ground arith, all1)
                  | inr err ↦ (mgr2, ret1, ground arith, all2)
                ]
          ]
    ]
    | inr other ↦ elim (Bool-cases (cmd.type % 16 == 1 || cmd.type % 16 == 2)) [
      | inl known ↦ (mgr, srm_not_allowed_err, ground arith, all)
      | inr unknown ↦ (mgr, srm_ok, ground arith, all)
    ]
  ]

  AllExit-Within : (ps : List Plugin) (p : Plugin) → Within ps p → AllExit ps → exits p ≡ true
  AllExit-Within ps p w all = All-middle w.before p w.after (subst AllExit w.split all)

  -- Every command whose plugin has a name and a path that fit their buffers is answered, if both symbols of every
  -- library are there, init functions that return 0 fill in what their plugin offers, there is
  -- memory for the sub-channels, and the plugins that are loaded and initialised have an exit
  -- function; the plugins that are loaded then have one again.
  pub plugin_parser_total :
      (mgr : PluginMgr H.State) (cmd : PluginCmd) (name : Str)
      → plugin_name_of cmd.path ≡ some name
      → length cmd.path < plugin_mgr_path_length
      → AllExit mgr.head
      → Answers (plugin_parser H env mgr cmd)
  unfolding plugin_parser plugin_search_by_name
  plugin_parser_total mgr cmd name is fits all =
      elim (Option-cases (search_name name mgr.head none)) [
        | inl missing ↦
            let (mgr', ret, e, all') = parse_unknown_total mgr cmd name fits all in
            (mgr', ret, ground arith, all')
        | inr (p, found) ↦ elim (search_name-some name mgr.head none p found) [
          | inl nothing ↦ cc
          | inr (w, m) ↦
              let ready = AllExit-Within mgr.head p w all in
              let (mgr', ret, e, all') = parse_known_total mgr (cmd.type % 16) p ready all in
              (mgr', ret, ground arith, all')
        ]
      ]

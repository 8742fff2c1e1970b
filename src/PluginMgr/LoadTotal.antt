-- ===== src/PluginMgr/LoadTotal.antt =====
-- plugin_load of core/plugin_mgr.c, when plugins and memory are as expected.
use syswatcher.Base.{
  ℕ, ◌≡◌, ◌⊎◌, inl, inr, true, List, [], ◌∷◌, ◌++◌, Option, none, some, arith, ◌==◌, All,
  Bool-cases, Option-cases, length,
}
use syswatcher.CString.{codes, strncmp_eq}
use syswatcher.PluginMgr.Outcome.{opened_mgr, opened_plugin}
use syswatcher.PluginMgr.{
  srm_version_mismatch_err, srm_register_err, srm_alloc_space_err, plugin_release_version, inited,
  Plugin, PluginMgr, Env, Host,
}
use syswatcher.PluginMgr.Load.{register, check_version, run_init, plugin_load}
use syswatcher.PluginMgr.Filled.{exits, IsFilled, IsSound, make_notify_total}

-- Plugins that can be unloaded.
abbrev pub AllExit : List Plugin → Type 0
AllExit ps = All (λ q. exits q ≡ true) ps

module _ (H : Host) (env : Env) (sound : IsSound env) where
  -- A result, on which the manager's plugins can still be unloaded.
  abbrev pub Loads : Option (PluginMgr H.State × Plugin × ℕ) → Type 0
  Loads r =
      (mgr' : PluginMgr H.State) × (p' : Plugin) × (ret : ℕ) × (r ≡ some (mgr', p', ret))
      × (exits p' ≡ true)
      × AllExit mgr'.head

  register_total :
      (mgr : PluginMgr H.State) (p : Plugin)
      → IsFilled p.plugin_info
      → exits p ≡ true
      → AllExit mgr.head
      → Loads (register H env mgr p)
  unfolding register
  register_total mgr p filled ready all =
      let (chan, e, channels) = make_notify_total env p.id p.plugin_info sound filled in
      let (context, told) = H.load_defined mgr.context chan channels in
      elim (Option-cases (register H env mgr p)) [
        | inl fault ↦ absurd (ground arith)
        | inr ((mgr', p', ret), is) ↦
            let head : mgr'.head ≡ p' ∷ mgr.head = ground arith in
            let same : exits p' ≡ true = ground arith in
            (mgr', p', ret, is, same, rw head (same, all))
      ]

  check_version_total :
      (mgr : PluginMgr H.State) (p : Plugin)
      → IsFilled p.plugin_info
      → exits p ≡ true
      → AllExit mgr.head
      → Loads (check_version H env mgr p)
  unfolding check_version
  check_version_total mgr p filled ready all =
      let (version, v) = filled.version in
      let (mgr', p', ret, is, ready', all') = register_total mgr p filled ready all in
      elim (Bool-cases
        (strncmp_eq (length plugin_release_version) version plugin_release_version)) [
          | inl same ↦ (mgr', p', ret, ground arith, ready', all')
          | inr differs ↦ (mgr, p, srm_version_mismatch_err, ground arith, ready, all)
        ]

  run_init_total :
      (mgr : PluginMgr H.State) (p : Plugin) (f g : ℕ)
      → p.plugin_init ≡ some f
      → p.plugin_exit ≡ some g
      → AllExit mgr.head
      → Loads (run_init H env mgr p)
  unfolding run_init
  run_init_total mgr p f g init exit all =
      elim (Bool-cases ((env.run_init f p.plugin_info).0 == 0)) [
        | inl fine ↦
            let mgr1 = record mgr { calls = mgr.calls ++ inited f ∷ [] } in
            let p1 : Plugin = record p {
              plugin_info = (env.run_init f p.plugin_info).1;
              load_flags = record p.load_flags { init = true };
            } in
            let (mgr', p', ret, is, ready', all') =
              check_version_total mgr1 p1 (sound.run_init f p.plugin_info (ground arith))
                (ground arith) all in
            (mgr', p', ret, ground arith, ready', all')
        | inr bad ↦ (
          mgr,
          record p { plugin_info = (env.run_init f p.plugin_info).1 },
          srm_register_err,
          ground arith,
          ground arith,
          all,
        )
      ]

  pub plugin_load_total :
      (mgr : PluginMgr H.State) (p : Plugin)
      → AllExit mgr.head
      → ((env.dlopen p.path ≡ none)
          × (plugin_load H env mgr p
              ≡ some (mgr, record p { handler = none }, srm_alloc_space_err)))
        ⊎ Loads (plugin_load H env mgr p)
  unfolding plugin_load
  plugin_load_total mgr p all = elim (Option-cases (env.dlopen p.path)) [
    | inl no_file ↦ inl (no_file, ground arith)
    | inr (h, is) ↦
        let (f, init) = sound.dlsym h (p.name ++ codes "_init") in
        let (g, exit) = sound.dlsym h (p.name ++ codes "_exit") in
        let (mgr', p', ret, runs, ready, all') =
          run_init_total (opened_mgr H mgr h) (opened_plugin H env mgr p h) f g init exit all in
        inr (mgr', p', ret, ground arith, ready, all')
  ]

-- ===== src/PluginMgr/Outcome.antt =====
-- What plugin_load and plugin_unload of core/plugin_mgr.c can do to the manager.
use syswatcher.Base.{
  ℕ, ◌+◌, ◌-◌, ◌%◌, ◌^◌, ◌≡◌, ◌≢◌, ◌⊎◌, inl, inr, true, [], ◌∷◌, ◌++◌, none, some, arith,
  if◌then◌else◌, Option-cases,
}
use syswatcher.Channel.{PluginInfo, PluginChannel}
use syswatcher.CString.{codes}
use syswatcher.PluginMgr.{srm_ok, srm_alloc_space_err, opened, inited, Plugin, PluginMgr, Env, Host}
use syswatcher.PluginMgr.Load.{make_notify, register, check_version, run_init, plugin_load}
use syswatcher.PluginMgr.Unload.{del_node, plugin_unload}

module _ (H : Host) where
  -- The plugin was put in front and the context was told of it, under the plugin's id.
  pub record Registered (mgr mgr' : PluginMgr H.State) (p p' : Plugin) (ret : ℕ) : Type 0 where
    pub ret_ok : ret ≡ srm_ok
    pub head : mgr'.head ≡ p' ∷ mgr.head
    pub plugins : mgr'.plugins ≡ (mgr.plugins + 1) % 2 ^ 32
    pub inc : mgr'.plugin_id_inc ≡ mgr.plugin_id_inc
    pub told : H.load mgr.context p'.notify_info ≡ some mgr'.context
    pub same_id : p'.notify_info.plugin_id ≡ p.id
    pub id : p'.id ≡ p.id
    pub node : p'.node ≡ p.node
    pub name : p'.name ≡ p.name
    pub vers_check : p'.load_flags.vers_check ≡ true

  -- The plugin was not registered: the list, the count and the context are as they were.
  pub record Refused (mgr mgr' : PluginMgr H.State) (p p' : Plugin) (ret : ℕ) : Type 0 where
    pub ret_err : ret ≢ srm_ok
    pub head : mgr'.head ≡ mgr.head
    pub plugins : mgr'.plugins ≡ mgr.plugins
    pub inc : mgr'.plugin_id_inc ≡ mgr.plugin_id_inc
    pub context : mgr'.context ≡ mgr.context
    pub vers_check : p'.load_flags.vers_check ≡ p.load_flags.vers_check

  abbrev pub Outcome : (mgr mgr' : PluginMgr H.State) (p p' : Plugin) (ret : ℕ) → Type 0
  Outcome mgr mgr' p p' ret = Registered mgr mgr' p p' ret ⊎ Refused mgr mgr' p p' ret

  make_notify-plugin_id :
      (env : Env) (id : ℕ) (info : PluginInfo) (chan : PluginChannel)
      → make_notify env id info ≡ some chan
      → chan.plugin_id ≡ id
  unfolding make_notify
  make_notify-plugin_id env id info chan e = ground arith

  register-Registered :
      (env : Env) (mgr mgr' : PluginMgr H.State) (p p' : Plugin) (ret : ℕ)
      → register H env mgr p ≡ some (mgr', p', ret)
      → Registered mgr mgr' p p' ret
  unfolding register
  register-Registered env mgr mgr' p p' ret e =
      ground (arith, make_notify-plugin_id env p.id p.plugin_info p'.notify_info)

  check_version-Outcome :
      (env : Env) (mgr mgr' : PluginMgr H.State) (p p' : Plugin) (ret : ℕ)
      → check_version H env mgr p ≡ some (mgr', p', ret)
      → Outcome mgr mgr' p p' ret
  unfolding check_version
  check_version-Outcome env mgr mgr' p p' ret e =
      ground (arith, register-Registered env mgr mgr' p p' ret)

  -- The manager and the plugin once `dlopen` has returned the handle `h`.
  abbrev pub opened_mgr : PluginMgr H.State → ℕ → PluginMgr H.State
  opened_mgr mgr h = record mgr {
    plugin_id_inc = (mgr.plugin_id_inc + 1) % 2 ^ 64;
    calls = mgr.calls ++ opened h ∷ [];
  }

  abbrev pub opened_plugin : Env → PluginMgr H.State → Plugin → ℕ → Plugin
  opened_plugin env mgr p h = record p {
    handler = some h;
    load_flags = record p.load_flags { dlopen = true };
    id = mgr.plugin_id_inc;
    flag = true;
    load_time = env.time;
    plugin_init = env.dlsym h (p.name ++ codes "_init");
    plugin_exit = env.dlsym h (p.name ++ codes "_exit");
  }

  run_init-Outcome :
      (env : Env) (mgr mgr' : PluginMgr H.State) (p p' : Plugin) (ret : ℕ)
      → run_init H env mgr p ≡ some (mgr', p', ret)
      → Outcome mgr mgr' p p' ret
  unfolding run_init
  run_init-Outcome env mgr mgr' p p' ret e = elim (Option-cases p.plugin_init) [
    | inl missing ↦ absurd (ground arith)
    | inr (f, is) ↦
        let mgr1 = record mgr { calls = mgr.calls ++ inited f ∷ [] } in
        let p1 : Plugin = record p {
          plugin_info = (env.run_init f p.plugin_info).1;
          load_flags = record p.load_flags { init = true };
        } in
        ground (arith, check_version-Outcome env mgr1 mgr' p1 p' ret)
  ]

  pub plugin_load-Outcome :
      (env : Env) (mgr mgr' : PluginMgr H.State) (p p' : Plugin) (ret : ℕ)
      → plugin_load H env mgr p ≡ some (mgr', p', ret)
      → ((h : ℕ) × (env.dlopen p.path ≡ some h)
          × Outcome (opened_mgr mgr h) mgr' (opened_plugin env mgr p h) p' ret)
        ⊎ ((env.dlopen p.path ≡ none)
            × (mgr' ≡ mgr)
            × (p' ≡ record p { handler = none })
            × (ret ≡ srm_alloc_space_err))
  unfolding plugin_load
  plugin_load-Outcome env mgr mgr' p p' ret e = elim (Option-cases (env.dlopen p.path)) [
    | inl no_file ↦ inr (ground arith)
    | inr (h, is) ↦ inl (
      h,
      is,
      run_init-Outcome env (opened_mgr mgr h) mgr' (opened_plugin env mgr p h) p' ret
          (ground arith),
    )
  ]

  -- What a call of `plugin_unload` that returns has done.
  pub record Unloaded (mgr mgr' : PluginMgr H.State) (p p' : Plugin) (ret : ℕ) : Type 0 where
    pub ret_ok : ret ≡ srm_ok
    pub head : mgr'.head ≡ (if p.load_flags.vers_check then del_node p.node mgr.head else mgr.head)
    pub plugins :
        mgr'.plugins
        ≡ (if p.load_flags.vers_check then (mgr.plugins + 2 ^ 32 - 1) % 2 ^ 32 else mgr.plugins)
    pub context :
        mgr'.context ≡ (if p.load_flags.vers_check then H.unload mgr.context p.id else mgr.context)
    pub inc : mgr'.plugin_id_inc ≡ mgr.plugin_id_inc
    pub node : p'.node ≡ p.node
    pub name : p'.name ≡ p.name
    pub path : p'.path ≡ p.path

  pub plugin_unload-Unloaded :
      (env : Env) (mgr mgr' : PluginMgr H.State) (p p' : Plugin) (ret : ℕ)
      → plugin_unload H env mgr (some p) ≡ some (mgr', p', ret)
      → Unloaded mgr mgr' p p' ret
  unfolding plugin_unload
  plugin_unload-Unloaded env mgr mgr' p p' ret e = ground arith

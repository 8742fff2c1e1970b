-- ===== src/PluginMgr/Effects.antt =====
-- What a load in plugin_parser of core/plugin_mgr.c calls outside.
use mathlib.Core.List.{append-nil}
use syswatcher.Base.{
  length, ltb, Bool-cases, inl, inr, ℕ, ◌%◌, ◌≡◌, refl, sym, ◌∙◌, ◌≢◌, ◌⊎◌, true, false, List, [],
  ◌∷◌, ◌++◌, some, arith, ◌==◌, Option-cases, if◌then◌else◌,
}
use syswatcher.Channel.{Str}
use syswatcher.PluginMgr.{srm_ok, Plugin, Call, opened, inited, exited, PluginMgr, Env, Host}
use syswatcher.PluginMgr.Load.{register, check_version, run_init, plugin_load}
use syswatcher.PluginMgr.Unload.{handle_of, plugin_unload}
use syswatcher.PluginMgr.Parser.{
  PluginCmd, new_plugin, new_node, plugin_mgr_path_length, settle_load, parse_unknown,
}
use syswatcher.PluginMgr.Commands.{load_refused}
use syswatcher.PluginMgr.Outcome.{
  opened_mgr, opened_plugin, plugin_load-Outcome, plugin_unload-Unloaded,
}
use syswatcher.PluginMgr.Balance.{IsBalanced, nothing, Traced, Untraced, Untraced-IsBalanced}

module _ (H : Host) where
  check_version-calls :
      (env : Env) (mgr mgr' : PluginMgr H.State) (p p' : Plugin) (ret : ℕ)
      → check_version H env mgr p ≡ some (mgr', p', ret)
      → (mgr'.calls ≡ mgr.calls)
        × (p'.handler ≡ p.handler)
        × (p'.load_flags.dlopen ≡ p.load_flags.dlopen)
        × (p'.load_flags.init ≡ p.load_flags.init)
  unfolding check_version register
  check_version-calls env mgr mgr' p p' ret e = ground arith

  -- The init function of a plugin just opened as `h` returned 0, or the plugin is not initialised.
  run_init-calls :
      (env : Env) (mgr mgr' : PluginMgr H.State) (p p' : Plugin) (h ret : ℕ)
      → p.handler ≡ some h
      → p.load_flags.dlopen ≡ true
      → p.load_flags.init ≡ false
      → run_init H env mgr p ≡ some (mgr', p', ret)
      → (p'.handler ≡ some h)
        × (p'.load_flags.dlopen ≡ true)
        × (((p'.load_flags.init ≡ false) × (mgr'.calls ≡ mgr.calls))
            ⊎ ((f : ℕ) × (p'.load_flags.init ≡ true) × (mgr'.calls ≡ mgr.calls ++ inited f ∷ [])))
  unfolding run_init
  run_init-calls env mgr mgr' p p' h ret handler dlopen init e = elim (Option-cases p.plugin_init) [
    | inl missing ↦ absurd (ground arith)
    | inr (f, is) ↦ elim (Bool-cases ((env.run_init f p.plugin_info).0 == 0)) [
      | inl fine ↦
          let mgr1 = record mgr { calls = mgr.calls ++ inited f ∷ [] } in
          let p1 : Plugin = record p {
            plugin_info = (env.run_init f p.plugin_info).1;
            load_flags = record p.load_flags { init = true };
          } in
          let (calls, same, opens, inits) =
            check_version-calls env mgr1 mgr' p1 p' ret (ground arith) in
          (same ∙ handler, opens ∙ dlopen, inr (f, inits, calls))
      | inr bad ↦ (ground arith, ground arith, inl (ground arith, ground arith))
    ]
  ]

  plugin_load-Traced :
      (env : Env) (mgr mgr' : PluginMgr H.State) (p p' : Plugin) (ret : ℕ)
      → p.load_flags.dlopen ≡ false
      → p.load_flags.init ≡ false
      → plugin_load H env mgr p ≡ some (mgr', p', ret)
      → Traced mgr.calls mgr'.calls p'
  unfolding plugin_load
  plugin_load-Traced env mgr mgr' p p' ret dlopen init e = elim (Option-cases (env.dlopen p.path)) [
    | inl no_file ↦ record {
      opens = [];
      inits = [];
      all = ground (arith, append-nil mgr.calls);
      of_dlopen = inl (ground arith, refl);
      of_init = inl (ground arith, refl);
    }
    | inr (h, is) ↦
        let (handler, opens, after) =
          run_init-calls env (opened_mgr H mgr h) mgr' (opened_plugin H env mgr p h) p' h ret refl
            refl init (ground arith) in
        elim after [
          | inl (not_run, calls) ↦ record {
            opens = opened h ∷ [];
            inits = [];
            all = calls ∙ sym (append-nil (mgr.calls ++ opened h ∷ []));
            of_dlopen = inr (h, opens, handler, refl);
            of_init = inl (not_run, refl);
          }
          | inr (f, has_run, calls) ↦ record {
            opens = opened h ∷ [];
            inits = inited f ∷ [];
            all = calls;
            of_dlopen = inr (h, opens, handler, refl);
            of_init = inr (f, has_run, opens, refl);
          }
        ]
  ]

  load_kept :
      (env : Env) (mgr mgr' : PluginMgr H.State) (p p' : Plugin) (ret : ℕ)
      → plugin_load H env mgr p ≡ some (mgr', p', ret)
      → ret ≢ srm_ok
      → (mgr'.head ≡ mgr.head) × (mgr'.plugins ≡ mgr.plugins) × (mgr'.context ≡ mgr.context)
  load_kept env mgr mgr' p p' ret e err = elim (plugin_load-Outcome H env mgr mgr' p p' ret e) [
    | inl (h, opens, inl r) ↦ absurd (err r.ret_ok)
    | inl (h, opens, inr r) ↦ (r.head, r.plugins, r.context)
    | inr (no_file, same, _, _) ↦ rw same (refl, refl, refl)
  ]

  plugin_unload-calls :
      (env : Env) (mgr mgr' : PluginMgr H.State) (p p' : Plugin) (ret : ℕ)
      → plugin_unload H env mgr (some p) ≡ some (mgr', p', ret)
      → Untraced mgr.calls mgr'.calls p
  unfolding plugin_unload
  plugin_unload-calls env mgr mgr' p p' ret e = elim (Bool-cases p.load_flags.init) [
    | inl has_run ↦ elim (Option-cases p.plugin_exit) [
      | inl missing ↦ absurd (ground arith)
      | inr (g, is) ↦ record {
        exits = exited g ∷ [];
        closes = if p.load_flags.dlopen then handle_of p.handler else [];
        all = ground (arith, append-nil (mgr.calls ++ exited g ∷ []));
        of_init = inr (g, has_run, refl);
        of_dlopen = refl;
      }
    ]
    | inr not_run ↦ record {
      exits = [];
      closes = if p.load_flags.dlopen then handle_of p.handler else [];
      all = ground (arith, append-nil mgr.calls);
      of_init = inl (not_run, refl);
      of_dlopen = refl;
    }
  ]

  -- A command to load a plugin that is not loaded, answered by an error other than for want of a
  -- node, leaves the list of plugins, their count and the context as they were, and the calls that it
  -- made gave back what they took.
  pub parse_unknown-IsBalanced :
      (env : Env) (mgr mgr' : PluginMgr H.State) (cmd : PluginCmd) (name : Str) (ret : ℕ)
      → cmd.type % 16 ≡ 0
      → ret ≢ srm_ok
      → parse_unknown H env mgr cmd name ≡ some (mgr', ret)
      → (mgr'.head ≡ mgr.head)
        × (mgr'.plugins ≡ mgr.plugins)
        × (mgr'.context ≡ mgr.context)
        × ((extra : List Call) × IsBalanced extra × (mgr'.calls ≡ mgr.calls ++ extra))
  unfolding parse_unknown settle_load new_plugin new_node
  parse_unknown-IsBalanced env mgr mgr' cmd name ret op err e = elim (Option-cases env.malloc) [
    | inl full ↦ (
      ground arith,
      ground arith,
      ground arith,
      ([], nothing, ground (arith, append-nil mgr.calls)),
    )
    | inr (node, is) ↦ elim (Bool-cases (ltb (length cmd.path) plugin_mgr_path_length)) [
      | inr long ↦ absurd (ground arith)
      | inl fits ↦
          let p = new_node node name cmd in
          elim (Option-cases (plugin_load H env mgr p)) [
            | inl gone ↦ absurd (ground arith)
            | inr ((mgr1, p1, r1), e1) ↦ elim (Option-cases (plugin_unload H env mgr1 (some p1))) [
              | inl gone ↦ absurd (ground arith)
              | inr ((mgr2, p2, r2), e2) ↦
                  let same : mgr' ≡ mgr2 = ground arith in
                  let ret1 : ret ≡ r1 = ground arith in
                  let p1_unchecked = load_refused H env mgr mgr1 p p1 r1 refl e1 (ground arith) in
                  let (head, plugins, context) = load_kept env mgr mgr1 p p1 r1 e1 (ground arith) in
                  let u = plugin_unload-Unloaded H env mgr1 mgr2 p1 p2 r2 e2 in
                  let t = plugin_load-Traced env mgr mgr1 p p1 r1 refl refl e1 in
                  let v = plugin_unload-calls env mgr1 mgr2 p1 p2 r2 e2 in
                  rw same (
                    u.head ∙ rw p1_unchecked head,
                    u.plugins ∙ rw p1_unchecked plugins,
                    u.context ∙ rw p1_unchecked context,
                    Untraced-IsBalanced mgr.calls mgr1.calls mgr2.calls p1 t v,
                  )
            ]
          ]
    ]
  ]

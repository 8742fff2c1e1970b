-- ===== src/PluginMgr/Commands.antt =====
-- The commands of plugin_parser in core/plugin_mgr.c and the consistency of the manager.
use syswatcher.Base.{
  length, ltb, Bool-cases, inl, inr, ℕ, ◌%◌, ◌≡◌, refl, ◌∙◌, ◌≢◌, false, ◌||◌, none, some, arith,
  ◌==◌, has, Option-cases,
}
use syswatcher.Channel.{Str}
use syswatcher.PluginMgr.{srm_ok, Plugin, PluginMgr, Env, Host}
use syswatcher.PluginMgr.Load.{plugin_load}
use syswatcher.PluginMgr.Unload.{plugin_unload, plugin_reload}
use syswatcher.PluginMgr.Parser.{
  PluginCmd, plugin_name_of, search_name, plugin_search_by_name, new_plugin, new_node,
  plugin_mgr_path_length, parse_known, settle_load, parse_unknown, plugin_parser,
}
use syswatcher.PluginMgr.Outcome.{plugin_load-Outcome, plugin_unload-Unloaded}
use syswatcher.PluginMgr.Nodes.{nodes, NoneNamed}
use syswatcher.PluginMgr.Search.{Within, search_name-some, search_name-none}
use syswatcher.PluginMgr.Consistent.{
  Consistent, HasRoom, Taken, Unloaded-Taken, plugin_load-Consistent,
}

module _ (H : Host) (env : Env) where
  -- Unloading a plugin that never was registered leaves the list, the count and the context alone.
  unload_unregistered :
      (mgr mgr' : PluginMgr H.State) (p p' : Plugin) (ret : ℕ)
      → Consistent H mgr
      → p.load_flags.vers_check ≡ false
      → plugin_unload H env mgr (some p) ≡ some (mgr', p', ret)
      → Consistent H mgr'
  unload_unregistered mgr mgr' p p' ret c no_check e =
      let u = plugin_unload-Unloaded H env mgr mgr' p p' ret e in
      let head = rw no_check at u.head in
      let plugins = rw no_check at u.plugins in
      let context = rw no_check at u.context in
      record {
        counted = rw (head, plugins) c.counted;
        small = rw plugins c.small;
        ordered = rw (head, u.inc) c.ordered;
        placed = rw head c.placed;
        named = rw head c.named;
        checked = rw head c.checked;
        mirrored = rw (head, context) c.mirrored;
      }

  -- A plugin that does not load is not registered.
  pub load_refused :
      (mgr mgr' : PluginMgr H.State) (p p' : Plugin) (ret : ℕ)
      → p.load_flags.vers_check ≡ false
      → plugin_load H env mgr p ≡ some (mgr', p', ret)
      → ret ≢ srm_ok
      → p'.load_flags.vers_check ≡ false
  load_refused mgr mgr' p p' ret no_check e err =
      elim (plugin_load-Outcome H env mgr mgr' p p' ret e) [
        | inl (h, opens, inl r) ↦ absurd (err r.ret_ok)
        | inl (h, opens, inr r) ↦ r.vers_check ∙ no_check
        | inr (no_file, _, same, _) ↦ rw same no_check
      ]

  module _ (mgr mgr' : PluginMgr H.State) (c : Consistent H mgr) where
    plugin_unload-Consistent :
        (p p' : Plugin) (ret : ℕ)
        → Within mgr.head p
        → plugin_unload H env mgr (some p) ≡ some (mgr', p', ret)
        → Taken H mgr mgr' p p'
    plugin_unload-Consistent p p' ret w e =
        Unloaded-Taken H mgr mgr' p p' ret c w (plugin_unload-Unloaded H env mgr mgr' p p' ret e)

  pub plugin_reload-Consistent :
      (mgr mgr' : PluginMgr H.State) (p : Plugin) (ret : ℕ)
      → Consistent H mgr
      → HasRoom mgr
      → Within mgr.head p
      → plugin_reload H env mgr p ≡ some (mgr', ret)
      → Consistent H mgr'
  unfolding plugin_reload
  plugin_reload-Consistent mgr mgr' p ret c room w e =
      elim (Option-cases (plugin_unload H env mgr (some p))) [
        | inl gone ↦ absurd (ground arith)
        | inr ((mgr1, p1, r1), e1) ↦ elim (Option-cases (plugin_load H env mgr1 p1)) [
          | inl gone ↦ absurd (ground arith)
          | inr ((mgr2, p2, r2), e2) ↦
              let t = plugin_unload-Consistent mgr mgr1 c p p1 r1 w e1 in
              let room1 : HasRoom mgr1 = omega (arith, t.inc, t.plugins, room.ids, room.count) in
              let same : mgr' ≡ mgr2 = ground arith in
              rw same (
                plugin_load-Consistent H env mgr1 mgr2 p1 p2 r2 t.consistent room1 t.fresh t.other
                  e2)
        ]
      ]

  parse_known-Consistent :
      (mgr mgr' : PluginMgr H.State) (op : ℕ) (p : Plugin) (ret : ℕ)
      → Consistent H mgr
      → HasRoom mgr
      → Within mgr.head p
      → parse_known H env mgr op p ≡ some (mgr', ret)
      → Consistent H mgr'
  unfolding parse_known
  parse_known-Consistent mgr mgr' op p ret c room w e = elim (Bool-cases (op == 1)) [
    | inl unload ↦ elim (Option-cases (plugin_unload H env mgr (some p))) [
      | inl gone ↦ absurd (ground arith)
      | inr ((mgr1, p1, r1), e1) ↦
          let same : mgr' ≡ mgr1 = ground arith in
          rw same ((plugin_unload-Consistent mgr mgr1 c p p1 r1 w e1).consistent)
    ]
    | inr other ↦ elim (Bool-cases (op == 0 || op == 2)) [
      | inl reload ↦ elim (Option-cases (plugin_reload H env mgr p)) [
        | inl gone ↦ absurd (ground arith)
        | inr ((mgr1, r1), e1) ↦
            let same : mgr' ≡ mgr1 = ground arith in
            rw same (plugin_reload-Consistent mgr mgr1 p r1 c room w e1)
      ]
      | inr unknown ↦ let same : mgr' ≡ mgr = ground arith in rw same c
    ]
  ]

  settle_load-Consistent :
      (mgr mgr' : PluginMgr H.State) (p : Plugin) (ret ret' : ℕ)
      → Consistent H mgr
      → (ret ≢ srm_ok → p.load_flags.vers_check ≡ false)
      → settle_load H env mgr p ret ≡ some (mgr', ret')
      → Consistent H mgr'
  unfolding settle_load
  settle_load-Consistent mgr mgr' p ret ret' c refused e = elim (Bool-cases (ret == srm_ok)) [
    | inl fine ↦ let same : mgr' ≡ mgr = ground arith in rw same c
    | inr err ↦ elim (Option-cases (plugin_unload H env mgr (some p))) [
      | inl gone ↦ absurd (ground arith)
      | inr ((mgr1, p1, r1), e1) ↦
          let same : mgr' ≡ mgr1 = ground arith in
          rw same (unload_unregistered mgr mgr1 p p1 r1 c (refused (ground arith)) e1)
    ]
  ]

  -- `malloc` returns a block that is not in use.
  abbrev pub IsFresh : PluginMgr H.State → Type 0
  IsFresh mgr = (node : ℕ) → env.malloc ≡ some node → has node (nodes mgr.head) ≡ false

  parse_unknown-Consistent :
      (mgr mgr' : PluginMgr H.State) (cmd : PluginCmd) (name : Str) (ret : ℕ)
      → Consistent H mgr
      → HasRoom mgr
      → IsFresh mgr
      → NoneNamed name mgr.head
      → parse_unknown H env mgr cmd name ≡ some (mgr', ret)
      → Consistent H mgr'
  unfolding parse_unknown new_plugin new_node
  parse_unknown-Consistent mgr mgr' cmd name ret c room fresh other e =
      elim (Bool-cases (cmd.type % 16 == 0)) [
        | inl load ↦ elim (Option-cases env.malloc) [
          | inl full ↦ let same : mgr' ≡ mgr = ground arith in rw same c
          | inr (node, is) ↦ elim (Bool-cases (ltb (length cmd.path) plugin_mgr_path_length)) [
            | inr long ↦ absurd (ground arith)
            | inl fits ↦
                let p = new_node node name cmd in
                elim (Option-cases (plugin_load H env mgr p)) [
                  | inl gone ↦ absurd (ground arith)
                  | inr ((mgr1, p1, r1), e1) ↦
                      settle_load-Consistent mgr1 mgr' p1 r1 ret
                        (plugin_load-Consistent H env mgr mgr1 p p1 r1 c room (fresh node is) other
                          e1)
                        (load_refused mgr mgr1 p p1 r1 refl e1) (ground arith)
                ]
          ]
        ]
        | inr other_op ↦ let same : mgr' ≡ mgr = ground arith in rw same c
      ]

  -- Every command that the manager survives, whatever it is and whatever the plugin and the linker
  -- do, leaves the manager consistent, as long as the two counters do not wrap and `malloc` returns
  -- a block that is not in use.
  pub plugin_parser-Consistent :
      (mgr mgr' : PluginMgr H.State) (cmd : PluginCmd) (ret : ℕ)
      → Consistent H mgr
      → HasRoom mgr
      → IsFresh mgr
      → plugin_parser H env mgr cmd ≡ some (mgr', ret)
      → Consistent H mgr'
  unfolding plugin_parser plugin_search_by_name
  plugin_parser-Consistent mgr mgr' cmd ret c room fresh e =
      elim (Option-cases (plugin_name_of cmd.path)) [
        | inl bad ↦ absurd (ground arith)
        | inr (name, is) ↦ elim (Option-cases (search_name name mgr.head none)) [
          | inl missing ↦
              parse_unknown-Consistent mgr mgr' cmd name ret c room fresh
                (search_name-none name mgr.head none missing).1 (ground arith)
          | inr (p, found) ↦ elim (search_name-some name mgr.head none p found) [
            | inl nothing ↦ cc
            | inr (w, m) ↦
                parse_known-Consistent mgr mgr' (cmd.type % 16) p ret c room w (ground arith)
          ]
        ]
      ]

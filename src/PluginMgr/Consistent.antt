-- ===== src/PluginMgr/Consistent.antt =====
-- The consistency of the manager of core/plugin_mgr.c between two commands.
use mathlib.Core.List.{reverse, reverse-cons}
use syswatcher.Base.{
  without, ℕ, ◌+◌, ◌^◌, ◌<◌, ◌≡◌, sym, ap, subst, ◌∙◌, inl, inr, true, false, ◌++◌, some, arith,
  has, Distinct, All, length,
}
use syswatcher.PluginMgr.{Plugin, PluginMgr, Env, Host}
use syswatcher.PluginMgr.Load.{plugin_load}
use syswatcher.PluginMgr.Outcome.{
  Registered, Refused, Unloaded, opened_mgr, opened_plugin, plugin_load-Outcome,
}
use syswatcher.PluginMgr.Nodes.{
  ids, nodes, Below, NoneNamed, DistinctNames, Below-drop, without-ids, without-reverse, Below-mono,
  del_node-split, nodes-drop, names-drop, All-drop, length-drop,
}
use syswatcher.PluginMgr.Search.{Within}

-- Registered, as the last bit of `load_flags` says.
abbrev pub IsChecked : Plugin → Type 0
IsChecked p = p.load_flags.vers_check ≡ true

-- The count is the length of the list; the ids are distinct and were all given out; the names are
-- distinct, as far as they are compared; every plugin is registered; and the context holds the
-- same ids in the order of loading.
pub record Consistent (H : Host) (mgr : PluginMgr H.State) : Type 0 where
  pub counted : mgr.plugins ≡ length mgr.head
  pub small : mgr.plugins < 2 ^ 32
  pub ordered : Below mgr.plugin_id_inc mgr.head
  pub placed : Distinct (nodes mgr.head)
  pub named : DistinctNames mgr.head
  pub checked : All IsChecked mgr.head
  pub mirrored : H.loaded mgr.context ≡ reverse (ids mgr.head)

-- The counters are not about to wrap.
pub record HasRoom {S : Type 0} (mgr : PluginMgr S) : Type 0 where
  pub ids : mgr.plugin_id_inc + 1 < 2 ^ 64
  pub count : mgr.plugins + 1 < 2 ^ 32

module _ (H : Host) where
  Registered-Consistent :
      (env : Env) (mgr mgr' : PluginMgr H.State) (p p' : Plugin) (h ret : ℕ)
      → Consistent H mgr
      → HasRoom mgr
      → has p.node (nodes mgr.head) ≡ false
      → NoneNamed p.name mgr.head
      → Registered H (opened_mgr H mgr h) mgr' (opened_plugin H env mgr p h) p' ret
      → Consistent H mgr'
  Registered-Consistent env mgr mgr' p p' h ret c room fresh other r = record {
    counted = rw (r.head, r.plugins) (omega (arith, c.counted));
    small = rw r.plugins (omega arith);
    ordered = rw r.head (omega (arith, r.inc, r.id), rw r.id c.ordered);
    placed = rw r.head (rw r.node fresh, c.placed);
    named = rw r.head (rw r.name other, c.named);
    checked = rw r.head (r.vers_check, c.checked);
    mirrored = rw r.head (
        H.loaded-load mgr.context mgr'.context p'.notify_info r.told
        ∙ rw (c.mirrored, r.same_id, r.id) (sym (reverse-cons mgr.plugin_id_inc (ids mgr.head))));
  }

  Refused-Consistent :
      (env : Env) (mgr mgr' : PluginMgr H.State) (p p' : Plugin) (h ret : ℕ)
      → Consistent H mgr
      → HasRoom mgr
      → Refused H (opened_mgr H mgr h) mgr' (opened_plugin H env mgr p h) p' ret
      → Consistent H mgr'
  Refused-Consistent env mgr mgr' p p' h ret c room r = record {
    counted = rw (r.head, r.plugins) c.counted;
    small = rw r.plugins c.small;
    ordered =
        rw r.head (
          Below-mono mgr.plugin_id_inc mgr'.plugin_id_inc mgr.head (omega (arith, r.inc))
            c.ordered);
    placed = rw r.head c.placed;
    named = rw r.head c.named;
    checked = rw r.head c.checked;
    mirrored = rw (r.head, r.context) c.mirrored;
  }

  -- What is known after a plugin of the list has been unloaded.
  pub record Taken (mgr mgr' : PluginMgr H.State) (p p' : Plugin) : Type 0 where
    pub consistent : Consistent H mgr'
    pub inc : mgr'.plugin_id_inc ≡ mgr.plugin_id_inc
    pub plugins : mgr'.plugins < mgr.plugins
    pub fresh : has p'.node (nodes mgr'.head) ≡ false
    pub other : NoneNamed p'.name mgr'.head

  pub Unloaded-Taken :
      (mgr mgr' : PluginMgr H.State) (p p' : Plugin) (ret : ℕ)
      → Consistent H mgr
      → Within mgr.head p
      → Unloaded H mgr mgr' p p' ret
      → Taken mgr mgr' p p'
  Unloaded-Taken mgr mgr' p p' ret c w u =
      let xs = w.before in
      let ys = w.after in
      let placed = subst (λ l. Distinct (nodes l)) w.split c.placed in
      let ordered = subst (Below mgr.plugin_id_inc) w.split c.ordered in
      let (named, other) = names-drop xs p ys (subst DistinctNames w.split c.named) in
      let (is, checked) = All-drop IsChecked xs p ys (subst (All IsChecked) w.split c.checked) in
      let (nodes', fresh) = nodes-drop xs p ys placed in
      let head : mgr'.head ≡ xs ++ ys = u.head ∙ rw (is, w.split) (del_node-split xs p ys placed) in
      let count = ap length w.split ∙ length-drop xs p ys in
      let plugins = rw is at u.plugins in
      let context = rw is at u.context in
      record {
        consistent = record {
          counted = rw head (omega (arith, plugins, c.counted, count, c.small));
          small = omega (arith, plugins);
          ordered = rw (head, u.inc) (Below-drop mgr.plugin_id_inc xs p ys ordered);
          placed = rw head nodes';
          named = rw head named;
          checked = rw head checked;
          mirrored =
              ap H.loaded context
              ∙ H.loaded-unload mgr.context p.id
              ∙ ap (without p.id) c.mirrored
              ∙ without-reverse p.id (ids mgr.head)
              ∙ ap reverse (
                  ap (λ l. without p.id (ids l)) w.split
                  ∙ without-ids mgr.plugin_id_inc xs p ys ordered)
              ∙ ap (λ l. reverse (ids l)) (sym head);
        };
        inc = u.inc;
        plugins = omega (arith, plugins, c.counted, count, c.small);
        fresh = rw (head, u.node) fresh;
        other = rw (head, u.name) other;
      }

  pub plugin_load-Consistent :
      (env : Env) (mgr mgr' : PluginMgr H.State) (p p' : Plugin) (ret : ℕ)
      → Consistent H mgr
      → HasRoom mgr
      → has p.node (nodes mgr.head) ≡ false
      → NoneNamed p.name mgr.head
      → plugin_load H env mgr p ≡ some (mgr', p', ret)
      → Consistent H mgr'
  plugin_load-Consistent env mgr mgr' p p' ret c room fresh other e =
      elim (plugin_load-Outcome H env mgr mgr' p p' ret e) [
        | inl (h, opens, inl r) ↦ Registered-Consistent env mgr mgr' p p' h ret c room fresh other r
        | inl (h, opens, inr r) ↦ Refused-Consistent env mgr mgr' p p' h ret c room r
        | inr (no_file, same, _, _) ↦ rw same c
      ]

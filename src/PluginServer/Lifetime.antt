-- ===== src/PluginServer/Lifetime.antt =====
-- The life of the manager in core/plugin_server.c: started, served, finished.
use mathlib.Core.List.{reverse}
use syswatcher.Base.{
  ℕ, suc, ◌≡◌, refl, ap, subst, ◌∙◌, inl, inr, true, false, [], ◌∷◌, List, none, some, arith,
  Option-cases, pos, negsuc, All, Distinct,
}
use syswatcher.PluginMgr.{plugin_mgr_tag_checksum, Plugin, PluginMgr, Env, Host}
use syswatcher.PluginMgr.Unload.{plugin_unload, des_loop}
use syswatcher.PluginMgr.Parser.{PluginCmd, plugin_parser}
use syswatcher.PluginMgr.Outcome.{plugin_unload-Unloaded}
use syswatcher.PluginMgr.LoadTotal.{AllExit}
use syswatcher.PluginMgr.Total.{des_loop_total}
use syswatcher.PluginMgr.Nodes.{ids, nodes, del_node-split}
use syswatcher.PluginMgr.Consistent.{IsChecked, Consistent, HasRoom, Unloaded-Taken}
use syswatcher.PluginMgr.Commands.{IsFresh, plugin_parser-Consistent}
use syswatcher.PluginServer.{
  Server, plugin_mgr_init, plugin_mgr_check, start_mgr, plugin_server_start, plugin_mgr_des,
  plugin_server_finish,
}

module _ (H : Host) where
  -- The managers that a started server can come to by commands that it survives. A command is taken
  -- while the counters have room, and meets a `malloc` that returns no block in use.
  pub data Reachable : PluginMgr H.State → Type 0 where
    started :
        (raw mgr : PluginMgr H.State) (null : H.State) (s s' : Server H.State)
        → H.loaded s.context ≡ []
        → plugin_mgr_check s.g_mgr ≡ false
        → plugin_server_start (some raw) true null s ≡ some (s', pos 0)
        → s'.g_mgr ≡ some mgr
        → Reachable mgr
    parsed :
        (env : Env) (mgr mgr' : PluginMgr H.State) (cmd : PluginCmd) (ret : ℕ)
        → Reachable mgr
        → HasRoom mgr
        → IsFresh H env mgr
        → plugin_parser H env mgr cmd ≡ some (mgr', ret)
        → Reachable mgr'

  -- A manager without plugins, whose first id will be 1.
  abbrev pub fresh_mgr : Server H.State → PluginMgr H.State
  fresh_mgr s = record {
    tag = plugin_mgr_tag_checksum;
    head = [];
    plugin_id_inc = 1;
    plugins = 0;
    context = s.context;
    calls = s.calls;
  }

  start-fresh_mgr :
      (raw : PluginMgr H.State) (null : H.State) (s : Server H.State)
      → plugin_mgr_check s.g_mgr ≡ false
      → plugin_server_start (some raw) true null s
        ≡ some (record s { g_mgr = some (fresh_mgr s); threads = suc s.threads }, pos 0)
  unfolding plugin_server_start plugin_mgr_init plugin_mgr_check start_mgr
  start-fresh_mgr raw null s h = ground arith

  check-none : plugin_mgr_check {S = H.State} none ≡ false
  unfolding plugin_mgr_check
  check-none = refl

  started-Consistent :
      (raw mgr : PluginMgr H.State) (null : H.State) (s s' : Server H.State)
      → H.loaded s.context ≡ []
      → plugin_mgr_check s.g_mgr ≡ false
      → plugin_server_start (some raw) true null s ≡ some (s', pos 0)
      → s'.g_mgr ≡ some mgr
      → Consistent H mgr
  started-Consistent raw mgr null s s' empty fresh e is =
      let same : mgr ≡ fresh_mgr s = ground (arith, start-fresh_mgr raw null s fresh) in
      rw same (record {
        counted = refl;
        small = omega arith;
        ordered = tt;
        placed = tt;
        named = tt;
        checked = tt;
        mirrored = empty;
      })

  -- Every manager that a started server can come to is consistent.
  pub Reachable-Consistent : (mgr : PluginMgr H.State) → Reachable mgr → Consistent H mgr
  Reachable-Consistent mgr (started raw _ null s s' empty fresh e is) =
      started-Consistent raw mgr null s s' empty fresh e is
  Reachable-Consistent mgr' (parsed env mgr _ cmd ret r room fresh e) =
      plugin_parser-Consistent H env mgr mgr' cmd ret (Reachable-Consistent mgr r) room fresh e

  -- If the loop of plugin_mgr_des returns, it has emptied the list.
  des_loop-Consistent :
      (env : Env) (mgr mgr' : PluginMgr H.State) (ps : List Plugin)
      → Consistent H mgr
      → mgr.head ≡ ps
      → des_loop H env mgr ps ≡ some mgr'
      → Consistent H mgr' × (mgr'.head ≡ [])
  unfolding des_loop
  des_loop-Consistent env mgr mgr' [] c all e =
      let same : mgr' ≡ mgr = ground arith in rw same (c, all)
  des_loop-Consistent env mgr mgr' (p ∷ ps) c all e =
      elim (Option-cases (plugin_unload H env mgr (some p))) [
        | inl gone ↦ absurd (ground arith)
        | inr ((mgr1, p1, ret), e1) ↦
            let u = plugin_unload-Unloaded H env mgr mgr1 p p1 ret e1 in
            let t =
              Unloaded-Taken H mgr mgr1 p p1 ret c (record { before = []; after = ps; split = all })
                u in
            let checked = (subst (All IsChecked) all c.checked).0 in
            let placed = subst (λ l. Distinct (nodes l)) all c.placed in
            let head = u.head ∙ rw (checked, all) (del_node-split [] p ps placed) in
            des_loop-Consistent env mgr1 mgr' ps t.consistent head (ground arith)
      ]

  -- On a server whose manager was reached from its start and passes the check, and whose plugins have an
  -- exit function if they are initialised, plugin_server_finish returns -1; it leaves no manager, and
  -- a context that holds no plugin, but the thread that reads the pipe is not ended: a server that is
  -- then started again runs one thread more.
  pub plugin_server_finish_lem :
      (env : Env) (mgr raw : PluginMgr H.State) (null : H.State) (s : Server H.State)
      → Reachable mgr
      → s.g_mgr ≡ some mgr
      → plugin_mgr_check s.g_mgr ≡ true
      → AllExit mgr.head
      → (s' : Server H.State) × (plugin_server_finish H env s ≡ some (s', negsuc 0))
        × (s'.g_mgr ≡ none)
        × (H.loaded s'.context ≡ [])
        × (plugin_server_start (some raw) true null s'
            ≡ some (record s' { g_mgr = some (fresh_mgr s'); threads = suc s.threads }, pos 0))
  unfolding plugin_server_finish plugin_mgr_des
  plugin_server_finish_lem env mgr raw null s r is tagged ready =
      let (mgr1, e1) = des_loop_total H env mgr mgr.head ready ready in
      let (c, none_left) =
        des_loop-Consistent env mgr mgr1 mgr.head (Reachable-Consistent mgr r) refl e1 in
      let s' : Server H.State = record s {
        g_mgr = none;
        context = mgr1.context;
        calls = mgr1.calls;
      } in
      (
        s',
        ground arith,
        refl,
        c.mirrored ∙ ap (λ l. reverse (ids l)) none_left,
        start-fresh_mgr raw null s' check-none,
      )

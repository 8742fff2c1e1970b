-- ===== src/PluginServer/Examples.antt =====
-- core/plugin_server.c started, given the command of a client, and finished.
use syswatcher.Base.{ℕ, ◌≡◌, refl, true, List, [], ◌∷◌, Option, none, some, arith, negsuc, pos}
use syswatcher.Channel.{Str}
use syswatcher.CString.{codes}
use syswatcher.PluginMgr.Samples.{id_host, env, path, new_mgr}
use syswatcher.PluginProtocol.{encode}
use syswatcher.PluginServer.{
  Server, plugin_mgr_init, plugin_mgr_check, start_mgr, plugin_server_start, plugin_server_finish,
  plugin_run,
}
use syswatcher.PluginServer.Lifetime.{Reachable, started, fresh_mgr, plugin_server_finish_lem}
use syswatcher.PluginServer.Commands.{
  Request, bytes_of, parse_all, left_of, all_read, plugin_run-parse_all,
}

abbrev server : Server (List ℕ)
server = record { g_mgr = none; context = []; calls = []; threads = 0 }

abbrev running : Server (List ℕ)
running = record { g_mgr = some new_mgr; context = []; calls = []; threads = 1 }

new_mgr-Reachable : Reachable id_host new_mgr
unfolding plugin_server_start plugin_mgr_init plugin_mgr_check start_mgr
new_mgr-Reachable = started new_mgr new_mgr [] server running refl refl refl refl

plugin_server_finish_lem_example :
    (s' : Server (List ℕ)) × (plugin_server_finish id_host env running ≡ some (s', negsuc 0))
    × (s'.g_mgr ≡ none)
    × (s'.context ≡ [])
    × (plugin_server_start (some new_mgr) true [] s'
        ≡ some (record s' { g_mgr = some (fresh_mgr id_host s'); threads = 2 }, pos 0))
unfolding plugin_mgr_check
plugin_server_finish_lem_example =
    plugin_server_finish_lem id_host env new_mgr new_mgr [] running new_mgr-Reachable refl refl tt

abbrev request : Request
request = record { type = 0; path = path; args = codes "key=1" ∷ [] }

-- Its bytes.
abbrev request_bytes : Option Str → Str
request_bytes none = []
request_bytes (some bytes) = bytes

plugin_run-parse_all_example :
    let bytes = request_bytes (bytes_of (request ∷ [])) in
    left_of id_host
      (plugin_run id_host (λ n. env) 3 0 (record { mgr = new_mgr; cmd_data = []; pipe = bytes }))
    ≡ all_read id_host (parse_all id_host (λ n. env) 0 new_mgr (request ∷ []))
unfolding bytes_of encode
plugin_run-parse_all_example =
    plugin_run-parse_all id_host (λ n. env) 3 0 new_mgr [] (request_bytes (bytes_of (request ∷ [])))
      (request ∷ []) (record { path = refl; args = (refl, tt); few = omega arith }, tt) refl
      (omega arith)

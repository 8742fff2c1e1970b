-- ===== src/PluginServer.antt =====
-- core/plugin_server.c, with plugin_mgr_init, plugin_mgr_check and plugin_mgr_des of
-- core/plugin_mgr.c: the manager's life, and the loop that reads commands from the pipe. What `context`
-- points to outlives the manager, and so do the calls that were made.
pub mod Commands
pub mod Lifetime
mod Examples
use syswatcher.Base.{
  ℕ, zero, suc, ◌+◌, ◌/◌, ◌%◌, ◌&&◌, ◌^◌, Bool, true, false, List, [], ◌∷◌, ◌++◌, Option, none,
  some, ◌==◌, if◌then◌else◌, length, take, drop, ℤ, pos, negsuc,
}
use syswatcher.Channel.{Str}
use syswatcher.PluginMgr.{
  plugin_mgr_tag_checksum, plugin_mgr_invalid_id, Call, PluginMgr, Env, Host,
}
use syswatcher.PluginMgr.Unload.{des_loop}
use syswatcher.PluginMgr.Parser.{PluginCmd, plugin_parser}
use syswatcher.PluginProtocol.{decode, body_len}

-- plugin_mgr_init, given what the block from `malloc` holds, whether there is memory for the head
-- of the list, and what NULL is as a context. The head is written to before it is tested for NULL.
unfoldable pub plugin_mgr_init :
    {S : Type 0} → Option (PluginMgr S) → Bool → S → Option (Option (PluginMgr S))
plugin_mgr_init none malloc_head null = some none
plugin_mgr_init (some mgr) malloc_head null =
    if malloc_head
    then some (
        some (record mgr {
          head = [];
          tag = plugin_mgr_tag_checksum;
          plugin_id_inc = plugin_mgr_invalid_id;
          context = null;
          plugins = 0;
        }))
    else none

unfoldable pub plugin_mgr_check : {S : Type 0} → Option (PluginMgr S) → Bool
plugin_mgr_check none = false
plugin_mgr_check (some mgr) = mgr.tag == plugin_mgr_tag_checksum

-- The server: `g_mgr`, the context that it is started with, the calls made so far, and the number of
-- threads in `plugin_run`.
pub record Server (S : Type 0) : Type 0 where
  pub g_mgr : Option (PluginMgr S)
  pub context : S
  pub calls : List Call
  pub threads : ℕ

-- What plugin_server_start does with the manager that it got.
unfoldable pub start_mgr : {S : Type 0} → Option (PluginMgr S) → Server S → Server S × ℤ
unfolding plugin_mgr_check
start_mgr none s = (record s { g_mgr = none }, negsuc 0)
start_mgr (some mgr) s =
    if plugin_mgr_check (some mgr)
    then (
      record s {
        g_mgr = some (record mgr {
          context = s.context;
          calls = s.calls;
          plugin_id_inc = (mgr.plugin_id_inc + 1) % 2 ^ 64;
        });
        threads = s.threads + 1;
      },
      pos 0,
    )
    else (record s { g_mgr = some mgr }, negsuc 0)

unfoldable pub plugin_server_start :
    {S : Type 0} → Option (PluginMgr S) → Bool → S → Server S → Option (Server S × ℤ)
unfolding plugin_mgr_init plugin_mgr_check start_mgr
plugin_server_start malloc malloc_head null s =
    if plugin_mgr_check s.g_mgr
    then some (s, negsuc 0)
    else elim (plugin_mgr_init malloc malloc_head null) [
      | none ↦ none
      | some g_mgr ↦ some (start_mgr g_mgr s)
    ]

-- plugin_mgr_des on a manager: what is left of it.
unfoldable pub plugin_mgr_des : (H : Host) → Env → PluginMgr H.State → Option (H.State × List Call)
plugin_mgr_des H env mgr = elim (des_loop H env mgr mgr.head) [
  | none ↦ none
  | some mgr1 ↦ some (mgr1.context, mgr1.calls)
]

-- The test of `g_mgr` for NULL comes after the check, which fails on NULL: the thread is never cancelled.
unfoldable pub plugin_server_finish :
    (H : Host) → Env → Server H.State → Option (Server H.State × ℤ)
unfolding plugin_mgr_check plugin_mgr_des
plugin_server_finish H env s =
    if plugin_mgr_check s.g_mgr
    then elim s.g_mgr [
      | none ↦ none
      | some mgr ↦ elim (plugin_mgr_des H env mgr) [
        | none ↦ none
        | some (context, calls) ↦
            some (record s { g_mgr = none; context = context; calls = calls }, negsuc 0)
      ]
    ]
    else some (s, negsuc 0)

-- read(fd, p + at, len) into a buffer, from a pipe that holds these bytes: it takes what is there.
unfoldable pub read : (at len : ℕ) → (buf pipe : Str) → Str × Str
read at len buf pipe =
    let got = take len pipe in (take at buf ++ (got ++ drop (at + length got) buf), drop len pipe)

-- The test of the header, the first two bytes of the buffer.
unfoldable pub is_command : Str → Bool
is_command (type ∷ flag ∷ s) = (flag == 0x6b) && ((type / 16) % 16 == 9)
is_command _ = false

-- What a thread in `plugin_run` works on.
pub record Reader (S : Type 0) : Type 0 where
  pub mgr : PluginMgr S
  pub cmd_data : Str
  pub pipe : Str

-- What a round does once it has read a whole command, and once it has read a header.
unfoldable pub run_command :
    (H : Host) → Env → PluginMgr H.State → Str × Str → Option (Reader H.State)
run_command H env mgr (cmd_data, rest) = elim (plugin_parser H env mgr (decode cmd_data)) [
  | none ↦ none
  | some (mgr1, _) ↦ some (record { mgr = mgr1; cmd_data = cmd_data; pipe = rest })
]

unfoldable pub run_header :
    (H : Host) → Env → PluginMgr H.State → Str × Str → Option (Reader H.State)
run_header H env mgr (header, rest) =
    if is_command header
    then run_command H env mgr (read 4 body_len header rest)
    else some (record { mgr = mgr; cmd_data = header; pipe = rest })

-- A round of the loop, when `select` has found bytes in the pipe.
unfoldable pub plugin_run_round : (H : Host) → Env → Reader H.State → Option (Reader H.State)
plugin_run_round H env r = run_header H env r.mgr (read 0 4 r.cmd_data r.pipe)

-- At most so many rounds, the first of them number `n`; `select` waits when the pipe is empty.
unfoldable pub plugin_run :
    (H : Host) → (ℕ → Env) → (fuel n : ℕ) → Reader H.State → Option (Reader H.State)
plugin_run H envs zero n r = some r
plugin_run H envs (suc fuel) n r = elim r.pipe [
  | [] ↦ some r
  | _ ∷ _ ↦ elim (plugin_run_round H (envs n) r) [
    | none ↦ none
    | some r1 ↦ plugin_run H envs fuel (n + 1) r1
  ]
]

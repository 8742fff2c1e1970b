-- ===== src/Cleanup/Examples.antt =====
-- core/cleanup.c on a daemon that has just started.
use syswatcher.Base.{ℕ, true, false, [], Option, none, some}
use syswatcher.PluginServer.Lifetime.{fresh_mgr}
use syswatcher.Main.{metric_host}
use syswatcher.Cleanup.{Daemon, main}
use syswatcher.Cleanup.Once.{no_metrics}

abbrev off : Daemon
off = record {
  clean_done = false;
  server = record { g_mgr = none; context = no_metrics; calls = []; threads = 0 };
  log_unit = record {
    logfile = [];
    level = 0;
    log_buffer = [];
    thread_running = false;
    closed = true;
  };
}

-- After `main` has begun.
abbrev or_off : Option (Daemon × Option ℕ) → Daemon
or_off none = off
or_off (some (d, ret)) = d

abbrev daemon : Daemon
daemon = or_off (main true (some (fresh_mgr metric_host off.server)) true off)

abbrev or_daemon : Option Daemon → Daemon
or_daemon none = daemon
or_daemon (some d) = d

-- ===== src/Log/Examples.antt =====
-- core/log.c with three messages.
use syswatcher.Base.{◌≡◌, refl, true, false, List, [], ◌∷◌, ◌++◌, Option, none, some}
use syswatcher.Channel.{Str}
use syswatcher.CString.{codes}
use syswatcher.Log.{
  LogMsg, Logger, header_str, header_of, row, blanks, make_msg, write_all, logging_round,
  rest_of_round, print_msg, logging,
}
use syswatcher.Log.History.{
  prints, round, Event, written, passing, printed, run_events, run_events-passing,
}

abbrev time : Str
time = codes "Thu Nov 26 08:00:00 2026."

abbrev note : LogMsg
note = record { level = 4; buf = codes "add metric" }

abbrev warning : LogMsg
warning = record { level = 2; buf = codes "plugin init failed" }

-- A logger that lets warnings through.
abbrev logger : Logger
logger = record {
  logfile = [];
  level = 2;
  log_buffer = note ∷ warning ∷ [];
  thread_running = true;
  closed = false;
}

abbrev events : List Event
events = round true time ∷ prints warning ∷ round false time ∷ prints note ∷ []

abbrev or_first : Option Logger → Logger
or_first none = logger
or_first (some l) = l

run_events-passing_example :
    let l = or_first (run_events events logger) in
    written l ++ passing 2 l.log_buffer ≡ [] ++ passing 2 ((note ∷ warning ∷ []) ++ printed events)
unfolding run_events logging print_msg logging_round rest_of_round write_all make_msg header_str
    header_of row blanks
run_events-passing_example =
    run_events-passing events logger (or_first (run_events events logger)) refl refl

-- ===== src/Cleanup/Said.antt =====
-- What core/cleanup.c logs, and what the deletion of the metrics logs in it.
use mathlib.Core.List.{append_assoc, append-nil}
use syswatcher.Base.{
  Option-cases, inl, inr, none, some, ◌≡◌, refl, ap, sym, ◌∙◌, false, List, [], ◌∷◌, ◌++◌,
}
use syswatcher.Channel.{Str}
use syswatcher.CString.{codes}
use syswatcher.Metric.{SubMetricUnit, MetricUnit, Watcher}
use syswatcher.Log.{LogMsg, Logger, level_zero, level_info, logging, print_msg}
use syswatcher.PluginServer.{Server}
use syswatcher.Cleanup.{delete_all_metric, says, tells, tell_subs, tell_unit, delete_all}

-- A logger with more messages behind those that it holds.
abbrev pub log_with : Logger → List LogMsg → Logger
log_with l ms = record l { log_buffer = l.log_buffer ++ ms }

-- The messages that an operation adds to a logger that is open.
abbrev pub Adds : (Logger → Logger) → List LogMsg → Type 0
Adds change ms = (l : Logger) → l.closed ≡ false → change l ≡ log_with l ms

pub Adds-then :
    (first second : Logger → Logger) (ms ns : List LogMsg)
    → Adds first ms
    → Adds second ns
    → Adds (λ l. second (first l)) (ms ++ ns)
Adds-then first second ms ns one two l is_open =
    ap second (one l is_open)
    ∙ two (log_with l ms) is_open
    ∙ ap (λ buffer. record l { log_buffer = buffer }) (append_assoc l.log_buffer ms ns)

abbrev pub zero_msg : Str → LogMsg
zero_msg text = record { level = level_zero; buf = text ++ 10 ∷ [] }

abbrev pub info_msg : Str → LogMsg
info_msg text = record { level = level_info; buf = text ++ 10 ∷ [] }

pub says-Adds : (text : Str) → Adds (says text) (zero_msg text ∷ [])
unfolding says logging print_msg
says-Adds text l is_open = rw is_open refl

tells-Adds : (text : Str) → Adds (tells text) (info_msg text ∷ [])
unfolding tells logging print_msg
tells-Adds text l is_open = rw is_open refl

abbrev pub of_subs : List SubMetricUnit → List LogMsg
of_subs [] = []
of_subs (subunit ∷ subs) =
    info_msg (codes "  |-sub metric: " ++ subunit.sub_metric_name) ∷ of_subs subs

tell_subs-Adds : (subs : List SubMetricUnit) → Adds (tell_subs subs) (of_subs subs)
unfolding tell_subs
tell_subs-Adds [] l is_open =
    ap (λ buffer. record l { log_buffer = buffer }) (sym (append-nil l.log_buffer))
tell_subs-Adds (subunit ∷ subs) l is_open =
    let text = codes "  |-sub metric: " ++ subunit.sub_metric_name in
    Adds-then (tells text) (tell_subs subs) (info_msg text ∷ []) (of_subs subs) (tells-Adds text)
      (tell_subs-Adds subs) l is_open

-- What the deletion of units logs.
abbrev pub of_units : List MetricUnit → List LogMsg
of_units [] = []
of_units (unit ∷ units) =
    (info_msg (codes "delete metric: " ++ unit.metric_name) ∷ of_subs unit.sub_metrics)
    ++ of_units units

tell_unit-Adds :
    (unit : MetricUnit)
    → Adds
        (tell_unit unit)
        (info_msg (codes "delete metric: " ++ unit.metric_name) ∷ of_subs unit.sub_metrics)
unfolding tell_unit
tell_unit-Adds unit =
    let text = codes "delete metric: " ++ unit.metric_name in
    Adds-then (tells text) (tell_subs unit.sub_metrics) (info_msg text ∷ [])
      (of_subs unit.sub_metrics) (tells-Adds text) (tell_subs-Adds unit.sub_metrics)

pub delete_all-Adds :
    (units : List MetricUnit) → Adds (λ l. (delete_all units units l).1) (of_units units)
unfolding delete_all
delete_all-Adds [] l is_open =
    ap (λ buffer. record l { log_buffer = buffer }) (sym (append-nil l.log_buffer))
delete_all-Adds (unit ∷ units) l is_open =
    Adds-then (tell_unit unit) (λ l. (delete_all units units l).1)
      (info_msg (codes "delete metric: " ++ unit.metric_name) ∷ of_subs unit.sub_metrics)
      (of_units units) (tell_unit-Adds unit) (delete_all-Adds units) l is_open

pub delete_all-none : (units : List MetricUnit) (l : Logger) → (delete_all units units l).0 ≡ []
unfolding delete_all
delete_all-none [] l = refl
delete_all-none (unit ∷ units) l = delete_all-none units (tell_unit unit l)

-- The units that the deletion finds.
abbrev pub metrics_of : Server Watcher → List MetricUnit
metrics_of s = elim s.g_mgr [ none ↦ s.context.metrics | some mgr ↦ mgr.context.metrics ]

delete_all_metric-Adds :
    (s : Server Watcher) → Adds (λ l. (delete_all_metric s l).1) (of_units (metrics_of s))
unfolding delete_all_metric
delete_all_metric-Adds s l is_open = elim (Option-cases s.g_mgr) [
  | inl no_mgr ↦ rw no_mgr (delete_all-Adds s.context.metrics l is_open)
  | inr (mgr, is) ↦ rw is (delete_all-Adds mgr.context.metrics l is_open)
]

-- What a daemon logs when it ends.
abbrev pub exit_messages : Server Watcher → List LogMsg
exit_messages s =
    (zero_msg (codes "AT EXIT")
      ∷ zero_msg (codes "stop collector")
      ∷ zero_msg (codes "delete all metric")
      ∷ of_units (metrics_of s))
    ++ (zero_msg (codes "unload plugin server")
        ∷ zero_msg (codes "clean syswatcher")
        ∷ zero_msg (codes "DONE")
        ∷ [])

abbrev pub before_delete : Logger → Logger
before_delete l =
    says (codes "delete all metric") (says (codes "stop collector") (says (codes "AT EXIT") l))

abbrev pub after_delete : Logger → Logger
after_delete l =
    says (codes "DONE") (says (codes "clean syswatcher") (says (codes "unload plugin server") l))

three-Adds :
    (a b c : Str)
    → Adds (λ l. says c (says b (says a l))) (zero_msg a ∷ zero_msg b ∷ zero_msg c ∷ [])
three-Adds a b c =
    Adds-then (λ l. says b (says a l)) (says c) (zero_msg a ∷ zero_msg b ∷ []) (zero_msg c ∷ [])
      (Adds-then (says a) (says b) (zero_msg a ∷ []) (zero_msg b ∷ []) (says-Adds a) (says-Adds b))
      (says-Adds c)

pub exit_messages-Adds :
    (s : Server Watcher)
    → Adds (λ l. after_delete (delete_all_metric s (before_delete l)).1) (exit_messages s)
exit_messages-Adds s =
    let first =
      zero_msg (codes "AT EXIT")
      ∷ zero_msg (codes "stop collector")
      ∷ zero_msg (codes "delete all metric")
      ∷ [] in
    Adds-then (λ l. (delete_all_metric s (before_delete l)).1) after_delete
      (first ++ of_units (metrics_of s))
      (zero_msg (codes "unload plugin server")
        ∷ zero_msg (codes "clean syswatcher")
        ∷ zero_msg (codes "DONE")
        ∷ [])
      (Adds-then before_delete (λ l. (delete_all_metric s l).1) first (of_units (metrics_of s))
        (three-Adds (codes "AT EXIT") (codes "stop collector") (codes "delete all metric"))
        (delete_all_metric-Adds s))
      (three-Adds (codes "unload plugin server") (codes "clean syswatcher") (codes "DONE"))

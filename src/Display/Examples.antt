-- ===== src/Display/Examples.antt =====
-- The display of core/metric.c on one unit.
use syswatcher.Base.{false, true, [], ◌∷◌, some, negsuc, pos}
use syswatcher.CString.{codes}
use syswatcher.Metric.{SubMetricUnit, MetricUnit}
use syswatcher.Display.{Source, m_int8, m_string}

-- A temperature below zero, and a text.
abbrev source : Source
source = record {
  show_float = λ bytes. codes "0.000000";
  show_double = λ bytes. codes "0.000000";
  values = λ block.
      record { name = codes "temp"; unit = codes "C"; t = m_int8; val = 251 ∷ [] }
      ∷ record { name = codes "state"; unit = codes "N/A"; t = m_string; val = codes "cold" }
      ∷ [];
}

abbrev subunit : SubMetricUnit
subunit = record {
  node = 0;
  sub_metric_name = codes "core";
  sub_metric_description = [];
  run_time = negsuc 0;
  interval = pos 3;
  time_ring_left = pos 3;
  data_collection = record { element_num = 2; block = some 40 };
  do_update = 7;
}

abbrev unit : MetricUnit
unit = record {
  metric_name = codes "temperature";
  metric_description = [];
  plugin_id = 4;
  exiting = false;
  sub_metrics = subunit ∷ [];
  thread_running = true;
  action_fifo = [];
}

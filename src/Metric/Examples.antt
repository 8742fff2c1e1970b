-- ===== src/Metric/Examples.antt =====
-- The metrics of core/metric.c on one unit with three sub-metrics.
use syswatcher.Base.{
  as_int, signed_int, ℕ, List, Option, length, ◌<◌, ◌+◌, ◌/◌, ◌-◌, ◌≡◌, refl, true, false, [], ◌∷◌,
  ◌++◌, some, arith, All, map, pos, negsuc, inl, inr,
}
use syswatcher.Channel.{Item, SubChannel, PluginChannel}
use syswatcher.CString.{codes}
use syswatcher.Metric.{SubMetricUnit, MetricUnit, Watcher, target, traverse, add_metric, del_metric}
use syswatcher.Metric.Tick.{Has, due, any_due}
use syswatcher.Metric.Schedule.{queued, seconds, queued-seconds, queued_starved}
use syswatcher.Metric.Actions.{second, round, after, fired, calls, calls-fired}
use syswatcher.Metric.Served.{rounds, queued-called}
use syswatcher.Metric.Registry.{ids, del_metric-add_metric}
use syswatcher.Metric.Bounds.{InRing, traverse-InRing}

-- Collected every 3 seconds, once after 1 second, and once after 5 seconds.
abbrev every_three : SubMetricUnit
every_three = record {
  node = 0;
  sub_metric_name = codes "load";
  sub_metric_description = [];
  run_time = negsuc 0;
  interval = pos 3;
  time_ring_left = pos 3;
  data_collection = record { element_num = 1; block = some 40 };
  do_update = 7;
}

abbrev once_soon : SubMetricUnit
once_soon = record every_three {
  node = 1;
  run_time = pos 1;
  interval = pos 1;
  time_ring_left = pos 1;
  do_update = 8;
}

abbrev once_later : SubMetricUnit
once_later = record every_three {
  node = 2;
  run_time = pos 1;
  interval = pos 5;
  time_ring_left = pos 5;
  do_update = 9;
}

abbrev unit : MetricUnit
unit = record {
  metric_name = codes "cpu";
  metric_description = [];
  plugin_id = 4;
  exiting = false;
  sub_metrics = every_three ∷ once_soon ∷ once_later ∷ [];
  thread_running = true;
  action_fifo = [];
}

unit-Has : Has unit every_three
unit-Has = record {
  before = [];
  after = once_soon ∷ once_later ∷ [];
  split = refl;
  alone_before = refl;
  alone_after = refl;
}

queued-seconds_example : queued 0 (seconds 10 unit) ≡ 0 + (10 + (3 - 3)) / 3
queued-seconds_example =
    queued-seconds 10 3 3 unit-Has (record { for_ever = refl; every = refl; left = refl })
      (omega arith) (omega arith)

queued_starved_example : queued 2 (seconds 20 unit) ≡ 0
unfolding any_due due as_int signed_int
queued_starved_example =
    queued_starved 20 3
      (record {
        before = every_three ∷ once_soon ∷ [];
        after = [];
        split = refl;
        alone_before = refl;
        alone_after = refl;
      })
      refl refl refl

calls-fired_example :
    let es = second ∷ round ∷ second ∷ second ∷ round ∷ round ∷ [] in
    calls es unit ++ map (target unit.sub_metrics) (after es unit).action_fifo
    ≡ map (target unit.sub_metrics) ([] ++ fired es unit)
calls-fired_example = calls-fired (second ∷ round ∷ second ∷ second ∷ round ∷ round ∷ []) unit

abbrev sub_channel : SubChannel
sub_channel = record {
  subname = codes "idle";
  subdesc = [];
  run_once = false;
  interval = pos 2;
  item = record { element_num = 1; block = some 41 };
  collect_data_func = 10;
}

abbrev channel : PluginChannel
channel = record {
  plugin_id = 5;
  name = codes "mem";
  desc = [];
  sub_metric_num = 2;
  sub_channel = some (sub_channel ∷ sub_channel ∷ []);
}

abbrev watcher : Watcher
watcher = record { metrics = unit ∷ [] }

del_metric-add_metric_example :
    (added : Watcher) × (add_metric watcher channel ≡ some added)
    × (ids added ≡ (4 ∷ []) ++ 5 ∷ [])
    × (del_metric added 5 ≡ watcher)
del_metric-add_metric_example =
    del_metric-add_metric watcher channel (sub_channel ∷ sub_channel ∷ []) refl refl refl

traverse-InRing_example : All (λ u. All InRing u.sub_metrics) (traverse (unit ∷ []))
traverse-InRing_example = traverse-InRing (unit ∷ []) (
    (
      (
        record { runs = inl refl; within = omega arith },
        (
          record { runs = inr (inl refl); within = omega arith },
          (record { runs = inr (inl refl); within = omega arith }, tt),
        ),
      ),
      tt,
    ))

-- Two actions are queued; the second of them is called in the second round.
abbrev two_queued : MetricUnit
two_queued = record unit { action_fifo = 1 ∷ 0 ∷ [] }

queued-called_example :
    (later : List (Option (ℕ × Item))) × (calls (round ∷ second ∷ round ∷ []) two_queued
      ≡ map (target two_queued.sub_metrics) (1 ∷ []) ++ target two_queued.sub_metrics 0 ∷ later)
queued-called_example =
    queued-called (round ∷ second ∷ round ∷ []) two_queued (1 ∷ []) 0 [] refl two_rounds
  where
    two_rounds : length {A = ℕ} (1 ∷ []) < rounds (round ∷ second ∷ round ∷ [])
    two_rounds = unfold rounds in omega arith

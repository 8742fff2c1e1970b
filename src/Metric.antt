-- ===== src/Metric.antt =====
-- core/metric.c and include/metric.h: the metrics of the loaded plugins, each with its
-- sub-metrics, their time rings, and the queue of actions that its update thread works off.
-- A sub-metric is named by its place in its unit (`node`), which an action carries as `priv`. The
-- queue is the list of the sub-metrics queued, oldest first, as core/fifo.c promises it. A section
-- under a lock is one step. `malloc`, whose result is not tested here, succeeds. `none` is a read through
-- NULL.
pub mod Tick
pub mod Schedule
pub mod Actions
pub mod Served
pub mod Registry
pub mod Bounds
pub mod Mirror
pub mod Build
pub mod Built
pub mod Parts
pub mod Added
pub mod Destroy
pub mod Thread
pub mod Destroyed
mod Examples
mod DestroyExamples
use syswatcher.Base.{
  ℕ, zero, suc, ◌+◌, Bool, true, false, List, [], ◌∷◌, ◌++◌, Option, none, some, ◌==◌,
  if◌then◌else◌, ℤ, pos, negsuc, pred_ℤ, is_zero, is_minus_one, as_int,
}
use syswatcher.Channel.{Str, Item, SubChannel, PluginChannel}

-- struct sub_metric_unit
pub record SubMetricUnit : Type 0 where
  pub node : ℕ
  pub sub_metric_name : Str
  pub sub_metric_description : Str
  pub run_time : ℤ
  pub interval : ℤ
  pub time_ring_left : ℤ
  pub data_collection : Item
  pub do_update : ℕ

-- struct metric_unit, with the two fields of its thread_info that are read.
pub record MetricUnit : Type 0 where
  pub metric_name : Str
  pub metric_description : Str
  pub plugin_id : ℕ
  pub exiting : Bool
  pub sub_metrics : List SubMetricUnit
  pub thread_running : Bool
  pub action_fifo : List ℕ

-- struct syswatcher
pub record Watcher : Type 0 where
  pub metrics : List MetricUnit

pub reset_time_ring : SubMetricUnit → SubMetricUnit
reset_time_ring subunit = record subunit { time_ring_left = subunit.interval }

-- Returns the steps left.
pub go_one_step : SubMetricUnit → SubMetricUnit × ℤ
go_one_step subunit =
    if is_zero subunit.time_ring_left then (subunit, as_int subunit.time_ring_left) else (
      record subunit { time_ring_left = pred_ℤ subunit.time_ring_left },
      as_int (pred_ℤ subunit.time_ring_left),
    )

-- The loop of `_time_ring_move_forward`.
pub move_forward : List SubMetricUnit → Bool → List SubMetricUnit × Bool
unfolding go_one_step
move_forward [] trigger = ([], trigger)
move_forward (subunit ∷ rest) trigger =
    if is_zero subunit.run_time
    then (let (done, t) = move_forward rest trigger in (subunit ∷ done, t))
    else (let (moved, left) = go_one_step subunit in
        let (done, t) = move_forward rest (if is_zero left then true else trigger) in
        (moved ∷ done, t))

pub time_ring_move_forward : MetricUnit → MetricUnit × Bool
unfolding move_forward
time_ring_move_forward unit =
    let (subs, trigger) = move_forward unit.sub_metrics false in
    (record unit { sub_metrics = subs }, trigger)

-- One round of the loop of `do_run_sub_metric`, past its `continue`.
pub run_one : SubMetricUnit → List ℕ → SubMetricUnit × List ℕ
unfolding reset_time_ring
run_one subunit fifo =
    let counted =
      if is_minus_one subunit.run_time
      then subunit
      else record subunit { run_time = pred_ℤ subunit.run_time } in
    if is_zero counted.time_ring_left
    then (reset_time_ring counted, fifo ++ subunit.node ∷ [])
    else (counted, fifo)

pub run_all : List SubMetricUnit → List ℕ → List SubMetricUnit × List ℕ
unfolding run_one
run_all [] fifo = ([], fifo)
run_all (subunit ∷ rest) fifo =
    if is_zero subunit.run_time
    then (let (done, q) = run_all rest fifo in (subunit ∷ done, q))
    else (let (counted, q) = run_one subunit fifo in
        let (done, q') = run_all rest q in (counted ∷ done, q'))

pub do_run_sub_metric : MetricUnit → MetricUnit
unfolding run_all
do_run_sub_metric unit =
    let (subs, fifo) = run_all unit.sub_metrics unit.action_fifo in
    record unit { sub_metrics = subs; action_fifo = fifo }

pub run_sub_metric : MetricUnit → MetricUnit
unfolding time_ring_move_forward do_run_sub_metric
run_sub_metric unit =
    let (moved, trigger) = time_ring_move_forward unit in
    if trigger then do_run_sub_metric moved else moved

-- One pass of `do_traversal_metric_units`, once a second.
pub traverse : List MetricUnit → List MetricUnit
unfolding run_sub_metric
traverse [] = []
traverse (unit ∷ rest) = (if unit.exiting then unit else run_sub_metric unit) ∷ traverse rest

-- The sub-metric that an action points to.
pub find_sub : ℕ → List SubMetricUnit → Option SubMetricUnit
find_sub node [] = none
find_sub node (subunit ∷ rest) = if subunit.node == node then some subunit else find_sub node rest

-- What `do_update(data_collection)` calls, for the sub-metric at this place.
pub target : List SubMetricUnit → ℕ → Option (ℕ × Item)
unfolding find_sub
target subs node = elim (find_sub node subs) [
  | none ↦ none
  | some subunit ↦ some (subunit.do_update, subunit.data_collection)
]

-- One round of `update_thread`: `none` when the queue is empty, otherwise what it called.
pub update_round : MetricUnit → MetricUnit × Option (Option (ℕ × Item))
unfolding target
update_round unit = elim unit.action_fifo [
  | [] ↦ (unit, none)
  | node ∷ rest ↦ (record unit { action_fifo = rest }, some (target unit.sub_metrics node))
]

unfoldable pub make_unit : MetricUnit
make_unit = record {
  metric_name = [];
  metric_description = [];
  plugin_id = 0;
  exiting = false;
  sub_metrics = [];
  thread_running = false;
  action_fifo = [];
}

unfoldable pub make_subunit : ℕ → Str → Str → ℤ → ℤ → Item → ℕ → SubMetricUnit
make_subunit node name description run_time interval item update = record {
  node = node;
  sub_metric_name = name;
  sub_metric_description = description;
  run_time = run_time;
  interval = interval;
  time_ring_left = interval;
  data_collection = item;
  do_update = update;
}

-- The loop of `_add_metric`, from sub-channel `count` on, with `left` rounds to go.
unfoldable pub add_subs :
    (left count : ℕ) → List SubChannel → List SubMetricUnit → Option (List SubMetricUnit)
unfolding make_subunit
add_subs zero count chans subs = some subs
add_subs (suc left) count [] subs = none
add_subs (suc left) count (chan ∷ chans) subs = add_subs left (count + 1) chans (
    subs
    ++ make_subunit count chan.subname chan.subdesc (if chan.run_once then pos 1 else negsuc 0)
        chan.interval chan.item chan.collect_data_func
      ∷ [])

-- The sub-channels that the array holds; through NULL the first read is a fault.
abbrev pub channels : Option (List SubChannel) → List SubChannel
channels none = []
channels (some chans) = chans

-- `make_ti` starts the update thread on an empty queue.
unfoldable pub add_metric : Watcher → PluginChannel → Option Watcher
unfolding make_unit add_subs
add_metric watcher plugin_metrics =
    elim (add_subs plugin_metrics.sub_metric_num 0 (channels plugin_metrics.sub_channel) []) [
      | none ↦ none
      | some subs ↦ some (record {
        metrics =
            watcher.metrics
            ++ record make_unit {
              metric_name = plugin_metrics.name;
              metric_description = plugin_metrics.desc;
              plugin_id = plugin_metrics.plugin_id;
              sub_metrics = subs;
              thread_running = true;
            }
              ∷ [];
      })
    ]

-- The loop of `_del_metric`: a unit of the plugin is taken out, its thread joined, its queue and
-- its sub-metrics freed.
pub del_units : ℕ → List MetricUnit → List MetricUnit
del_units id [] = []
del_units id (unit ∷ rest) =
    if unit.plugin_id == id then del_units id rest else unit ∷ del_units id rest

pub del_metric : Watcher → ℕ → Watcher
unfolding del_units
del_metric watcher id = record { metrics = del_units id watcher.metrics }

unfoldable pub init_syswatcher : Watcher
init_syswatcher = record { metrics = [] }

-- ===== src/Metric/Registry.antt =====
-- Adding and deleting the metrics of a plugin in core/metric.c.
use mathlib.Core.List.{append_assoc, append-nil, map-append}
use syswatcher.Base.{
  ℕ, zero, suc, ◌+◌, ◌<◌, ◌≡◌, refl, ◌∙◌, ap, true, false, List, [], ◌∷◌, ◌++◌, none, some, arith,
  if◌then◌else◌, ◌==◌, map, length, has, Distinct, pos, negsuc,
}
use syswatcher.Channel.{SubChannel, PluginChannel}
use syswatcher.Metric.{
  SubMetricUnit, MetricUnit, Watcher, add_subs, add_metric, del_units, del_metric,
}
use syswatcher.Metric.Tick.{nodes}

abbrev pub ids : Watcher → List ℕ
ids watcher = map (λ u. u.plugin_id) watcher.metrics

-- The sub-metric that a sub-channel asks for, at its place.
abbrev pub sub_of : ℕ → SubChannel → SubMetricUnit
sub_of n chan = record {
  node = n;
  sub_metric_name = chan.subname;
  sub_metric_description = chan.subdesc;
  run_time = if chan.run_once then pos 1 else negsuc 0;
  interval = chan.interval;
  time_ring_left = chan.interval;
  data_collection = chan.item;
  do_update = chan.collect_data_func;
}

abbrev pub subs_from : ℕ → List SubChannel → List SubMetricUnit
subs_from n [] = []
subs_from n (chan ∷ chans) = sub_of n chan ∷ subs_from (n + 1) chans

-- The unit that a channel asks for.
abbrev pub unit_of : PluginChannel → List SubChannel → MetricUnit
unit_of chan chans = record {
  metric_name = chan.name;
  metric_description = chan.desc;
  plugin_id = chan.plugin_id;
  exiting = false;
  sub_metrics = subs_from 0 chans;
  thread_running = true;
  action_fifo = [];
}

add_subs-subs_from :
    (n : ℕ) (chans : List SubChannel) (subs : List SubMetricUnit)
    → add_subs (length chans) n chans subs ≡ some (subs ++ subs_from n chans)
unfolding add_subs
add_subs-subs_from n [] subs = rw append-nil
add_subs-subs_from n (chan ∷ chans) subs =
    add_subs-subs_from (n + 1) chans _ ∙ ap some (append_assoc subs _ _)

add_subs-none :
    (k n : ℕ) (chans : List SubChannel) (subs : List SubMetricUnit)
    → length chans < k
    → add_subs k n chans subs ≡ none
unfolding add_subs
add_subs-none zero n chans subs h = absurd (omega arith)
add_subs-none (suc k) n [] subs h = refl
add_subs-none (suc k) n (chan ∷ chans) subs h = add_subs-none k (n + 1) chans _ (omega arith)

-- A channel with as many sub-channels as it counts adds one unit at the end, with a sub-metric for each
-- sub-channel in its order: its ring set to the interval, and one run or endless ones to go.
pub add_metric-unit_of :
    (watcher : Watcher) (chan : PluginChannel) (chans : List SubChannel)
    → chan.sub_channel ≡ some chans
    → chan.sub_metric_num ≡ length chans
    → add_metric watcher chan
      ≡ some (record { metrics = watcher.metrics ++ unit_of chan chans ∷ [] })
unfolding add_metric
add_metric-unit_of watcher chan chans e n = ground (arith, add_subs-subs_from 0 chans [])

-- A channel that counts sub-channels but has no array of them makes `_add_metric` read through NULL.
pub add_metric-none :
    (watcher : Watcher) (chan : PluginChannel)
    → chan.sub_channel ≡ none
    → 0 < chan.sub_metric_num
    → add_metric watcher chan ≡ none
unfolding add_metric
add_metric-none watcher chan e n = ground (arith, add_subs-none chan.sub_metric_num 0 [] [] n)

-- The places of a new unit's sub-metrics are distinct.
has-subs_from :
    (a n : ℕ) (chans : List SubChannel) → a < n → has a (nodes (subs_from n chans)) ≡ false
has-subs_from a n [] h = refl
has-subs_from a n (chan ∷ chans) h = ground (arith, has-subs_from a (n + 1) chans (omega arith))

pub subs_from-Distinct : (n : ℕ) (chans : List SubChannel) → Distinct (nodes (subs_from n chans))
subs_from-Distinct n [] = tt
subs_from-Distinct n (chan ∷ chans) =
    (has-subs_from n (n + 1) chans (omega arith), subs_from-Distinct (n + 1) chans)

-- The units of one plugin, in order.
pub of_plugin : ℕ → List MetricUnit → List MetricUnit
of_plugin id [] = []
of_plugin id (u ∷ us) = if u.plugin_id == id then u ∷ of_plugin id us else of_plugin id us

del_units-absent :
    (id : ℕ) (us : List MetricUnit)
    → has id (map (λ u. u.plugin_id) us) ≡ false
    → del_units id us ≡ us
unfolding del_units
del_units-absent id [] out = refl
del_units-absent id (u ∷ us) out = ground (arith, del_units-absent id us)

del_units-append :
    (id : ℕ) (xs ys : List MetricUnit)
    → del_units id (xs ++ ys) ≡ del_units id xs ++ del_units id ys
unfolding del_units
del_units-append id [] ys = refl
del_units-append id (x ∷ xs) ys = ground (arith, del_units-append id xs ys)

of_plugin-del_units :
    (id other : ℕ) (us : List MetricUnit)
    → of_plugin other (del_units id us) ≡ (if other == id then [] else of_plugin other us)
unfolding of_plugin del_units
of_plugin-del_units id other [] = ground arith
of_plugin-del_units id other (u ∷ us) = ground (arith, of_plugin-del_units id other us)

-- Deleting a plugin's metrics leaves none of them, and every other plugin's as they were.
pub of_plugin-del_metric :
    (watcher : Watcher) (id other : ℕ)
    → of_plugin other (del_metric watcher id).metrics
      ≡ (if other == id then [] else of_plugin other watcher.metrics)
unfolding del_metric
of_plugin-del_metric watcher id other = of_plugin-del_units id other watcher.metrics

-- A channel with as many sub-channels as it counts, under an id that is not in use, can be added; its
-- id then stands last, and deleting it again leaves the metrics as they were.
pub del_metric-add_metric :
    (watcher : Watcher) (chan : PluginChannel) (chans : List SubChannel)
    → chan.sub_channel ≡ some chans
    → chan.sub_metric_num ≡ length chans
    → has chan.plugin_id (ids watcher) ≡ false
    → (added : Watcher) × (add_metric watcher chan ≡ some added)
      × (ids added ≡ ids watcher ++ chan.plugin_id ∷ [])
      × (del_metric added chan.plugin_id ≡ watcher)
unfolding del_metric del_units
del_metric-add_metric watcher chan chans e n out = (
  record { metrics = watcher.metrics ++ unit_of chan chans ∷ [] },
  add_metric-unit_of watcher chan chans e n,
  map-append (λ u. u.plugin_id) watcher.metrics (unit_of chan chans ∷ []),
  ground (
    arith,
    del_units-append chan.plugin_id watcher.metrics (unit_of chan chans ∷ []),
    del_units-absent chan.plugin_id watcher.metrics out,
    append-nil watcher.metrics,
  ),
)

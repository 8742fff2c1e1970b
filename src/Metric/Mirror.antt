-- ===== src/Metric/Mirror.antt =====
-- Which plugins the metrics of core/metric.c belong to, after an addition and a deletion.
use mathlib.Core.List.{map-append}
use syswatcher.Base.{
  without, ℕ, ◌≡◌, refl, ap, ◌∙◌, List, [], ◌∷◌, ◌++◌, true, some, arith, map, Option-cases, inl,
  inr,
}
use syswatcher.Channel.{PluginChannel}
use syswatcher.Metric.{
  MetricUnit, Watcher, make_unit, add_subs, channels, add_metric, del_units, del_metric,
}
use syswatcher.Metric.Registry.{ids}

-- A channel that is added, with or without sub-channels, brings one unit, under its plugin's id.
pub ids-add_metric :
    (s s' : Watcher) (chan : PluginChannel)
    → add_metric s chan ≡ some s'
    → ids s' ≡ ids s ++ chan.plugin_id ∷ []
unfolding add_metric
ids-add_metric s s' chan e =
    elim (Option-cases (add_subs chan.sub_metric_num 0 (channels chan.sub_channel) [])) [
      | inl fault ↦ absurd (ground arith)
      | inr (subs, is) ↦
          let unit : MetricUnit = record make_unit {
            metric_name = chan.name;
            metric_description = chan.desc;
            plugin_id = chan.plugin_id;
            sub_metrics = subs;
            thread_running = true;
          } in
          let same : s'.metrics ≡ s.metrics ++ unit ∷ [] = ground arith in
          ap (map (λ u. u.plugin_id)) same ∙ map-append (λ u. u.plugin_id) s.metrics (unit ∷ [])
    ]

ids-del_units :
    (id : ℕ) (us : List MetricUnit)
    → map (λ u. u.plugin_id) (del_units id us) ≡ without id (map (λ u. u.plugin_id) us)
unfolding del_units
ids-del_units id [] = refl
ids-del_units id (u ∷ us) = ground (arith, ids-del_units id us)

pub ids-del_metric : (s : Watcher) (id : ℕ) → ids (del_metric s id) ≡ without id (ids s)
unfolding del_metric
ids-del_metric s id = ids-del_units id s.metrics

-- Without metrics there is nothing to delete.
pub del_metric-empty : (id : ℕ) → del_metric (record { metrics = [] }) id ≡ record { metrics = [] }
unfolding del_metric del_units
del_metric-empty id = refl

-- ===== src/Metric/Actions.antt =====
-- The actions of core/metric.c between the timer, which queues them, and the update thread.
use mathlib.Core.Path.{fun_ext}
use mathlib.Core.List.{append_assoc, append-nil, map-append}
use syswatcher.Base.{
  ℕ, ◌≡◌, refl, sym, ap, ◌∙◌, List, [], ◌∷◌, ◌++◌, Option, none, some, arith, if◌then◌else◌, map,
  Bool-cases, inl, inr,
}
use syswatcher.Channel.{Item}
use syswatcher.Metric.{SubMetricUnit, MetricUnit, target, update_round, run_sub_metric}
use syswatcher.Metric.Tick.{stepped, settled, any_due, firing, run_sub_metric-closed}

-- A second passes, or the update thread makes a round; any interleaving is possible.
pub data Event : Type 0 where
  second round : Event

-- What the unit queues in one second.
pub fired_now : MetricUnit → List ℕ
fired_now unit = if any_due unit.sub_metrics then firing (map stepped unit.sub_metrics) else []

pub after : List Event → MetricUnit → MetricUnit
after [] unit = unit
after (second ∷ es) unit = after es (run_sub_metric unit)
after (round ∷ es) unit = after es (update_round unit).0

-- The sub-metrics that were queued, in that order.
pub fired : List Event → MetricUnit → List ℕ
fired [] unit = []
fired (second ∷ es) unit = fired_now unit ++ fired es (run_sub_metric unit)
fired (round ∷ es) unit = fired es (update_round unit).0

abbrev pub called : Option (Option (ℕ × Item)) → List (Option (ℕ × Item))
called none = []
called (some c) = c ∷ []

-- The collector functions that the update thread called, in that order.
unfoldable pub calls : List Event → MetricUnit → List (Option (ℕ × Item))
calls [] unit = []
calls (second ∷ es) unit = calls es (run_sub_metric unit)
calls (round ∷ es) unit = called (update_round unit).1 ++ calls es (update_round unit).0

target-map :
    (f : SubMetricUnit → SubMetricUnit)
    → ((s : SubMetricUnit) → (f s).node ≡ s.node)
    → ((s : SubMetricUnit) → (f s).do_update ≡ s.do_update)
    → ((s : SubMetricUnit) → (f s).data_collection ≡ s.data_collection)
    → (ss : List SubMetricUnit) (n : ℕ) → target (map f ss) n ≡ target ss n
unfolding target
target-map f a b c [] n = refl
target-map f a b c (s ∷ ss) n = ground (arith, a s, b s, c s, target-map f a b c ss n)

target-stepped : (ss : List SubMetricUnit) (n : ℕ) → target (map stepped ss) n ≡ target ss n
unfolding stepped
target-stepped = target-map stepped (λ s. ground arith) (λ s. ground arith) (λ s. ground arith)

target-settled : (ss : List SubMetricUnit) (n : ℕ) → target (map settled ss) n ≡ target ss n
unfolding settled
target-settled = target-map settled (λ s. ground arith) (λ s. ground arith) (λ s. ground arith)

-- A second appends what fires, and leaves alone which function belongs to a place.
pub second-queue :
    (unit : MetricUnit)
    → ((run_sub_metric unit).action_fifo ≡ unit.action_fifo ++ fired_now unit)
      × (target (run_sub_metric unit).sub_metrics ≡ target unit.sub_metrics)
unfolding fired_now
second-queue unit = elim (Bool-cases (any_due unit.sub_metrics)) [
  | inl e ↦
      rw (run_sub_metric-closed unit, e)
        (
          refl,
          fun_ext λ n.
              target-settled (map stepped unit.sub_metrics) n ∙ target-stepped unit.sub_metrics n,
        )
  | inr e ↦
      rw (run_sub_metric-closed unit, e)
        (sym (append-nil unit.action_fifo), fun_ext λ n. target-stepped unit.sub_metrics n)
]

pub round-queue :
    (unit : MetricUnit)
    → (called (update_round unit).1
          ++ map (target unit.sub_metrics) (update_round unit).0.action_fifo
        ≡ map (target unit.sub_metrics) unit.action_fifo)
      × ((update_round unit).0.sub_metrics ≡ unit.sub_metrics)
unfolding update_round
round-queue unit = (ground arith, ground arith)

-- However the timer and the update thread are interleaved: what has been called, then what is still
-- queued, is what was queued at first, with what has fired since, in the same order.
pub calls-fired :
    (es : List Event) (unit : MetricUnit)
    → calls es unit ++ map (target unit.sub_metrics) (after es unit).action_fifo
      ≡ map (target unit.sub_metrics) (unit.action_fifo ++ fired es unit)
unfolding calls after fired
calls-fired [] unit = rw append-nil
calls-fired (second ∷ es) unit =
    let (q, t) = second-queue unit in
    rw (← t) (
      calls-fired es (run_sub_metric unit)
      ∙ ap (map (target (run_sub_metric unit).sub_metrics))
          (rw q (append_assoc unit.action_fifo (fired_now unit) _)))
calls-fired (round ∷ es) unit =
    let (q, t) = round-queue unit in
    let next = (update_round unit).0 in
    let ran = called (update_round unit).1 in
    let T = target unit.sub_metrics in
    let ih = rw t at (calls-fired es next) in
    append_assoc ran _ _
    ∙ ap (λ l. ran ++ l) (ih ∙ map-append T next.action_fifo (fired es next))
    ∙ sym (append_assoc ran _ _)
    ∙ ap (λ l. l ++ map T (fired es next)) q
    ∙ sym (map-append T unit.action_fifo (fired es next))

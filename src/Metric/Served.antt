-- ===== src/Metric/Served.antt =====
-- The update thread of core/metric.c comes to every action that is queued.
use mathlib.Core.List.{append_assoc}
use syswatcher.Base.{ℕ, suc, ◌<◌, ◌≡◌, ap, ◌∙◌, List, [], ◌∷◌, ◌++◌, Option, arith, map, length}
use syswatcher.Channel.{Item}
use syswatcher.Metric.{SubMetricUnit, MetricUnit, target, update_round, run_sub_metric}
use syswatcher.Metric.Actions.{
  Event, second, round, called, calls, fired_now, second-queue, round-queue,
}

-- How often the update thread has looked into the queue.
unfoldable pub rounds : List Event → ℕ
rounds [] = 0
rounds (second ∷ es) = rounds es
rounds (round ∷ es) = suc (rounds es)

round-cons :
    (unit : MetricUnit) (n : ℕ) (rest : List ℕ)
    → unit.action_fifo ≡ n ∷ rest
    → (called (update_round unit).1 ≡ target unit.sub_metrics n ∷ [])
      × ((update_round unit).0.action_fifo ≡ rest)
unfolding update_round
round-cons unit n rest e = (ground arith, ground arith)

-- However the timer and the update thread are interleaved, an action with p others before it in the
-- queue is called once the update thread has made more than p rounds: it makes the call number p,
-- after those of the actions before it.
pub queued-called :
    (es : List Event) (unit : MetricUnit) (before : List ℕ) (n : ℕ) (rest : List ℕ)
    → unit.action_fifo ≡ before ++ n ∷ rest
    → length before < rounds es
    → (later : List (Option (ℕ × Item))) × (calls es unit
        ≡ map (target unit.sub_metrics) before ++ target unit.sub_metrics n ∷ later)
unfolding calls rounds
queued-called [] unit before n rest e lt = absurd (omega arith)
queued-called (second ∷ es) unit before n rest e lt =
    let (q, t) = second-queue unit in
    let longer : (run_sub_metric unit).action_fifo ≡ before ++ n ∷ (rest ++ fired_now unit) =
      q
      ∙ (ap (λ (l : List ℕ). l ++ fired_now unit) e
          ∙ append_assoc before (n ∷ rest) (fired_now unit)) in
    let (later, c) =
      queued-called es (run_sub_metric unit) before n (rest ++ fired_now unit) longer lt in
    (later, c ∙ ap (λ (T : ℕ → Option (ℕ × Item)). map T before ++ T n ∷ later) t)
queued-called (round ∷ es) unit [] n rest e lt =
    let (c, q) = round-cons unit n rest e in
    (
      calls es (update_round unit).0,
      ap (λ (l : List (Option (ℕ × Item))). l ++ calls es (update_round unit).0) c,
    )
queued-called (round ∷ es) unit (b ∷ before) n rest e lt =
    let (c, q) = round-cons unit b (before ++ n ∷ rest) e in
    let (q', t) = round-queue unit in
    let (later, c') = queued-called es (update_round unit).0 before n rest q (omega arith) in
    (
      later,
      ap (λ (l : List (Option (ℕ × Item))). l ++ calls es (update_round unit).0) c
          ∙ ap (λ (l : List (Option (ℕ × Item))). target unit.sub_metrics b ∷ l)
              (c'
                ∙ ap
                    (λ (subs : List SubMetricUnit).
                      map (target subs) before ++ target subs n ∷ later)
                    t),
    )

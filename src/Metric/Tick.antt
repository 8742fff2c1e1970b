-- ===== src/Metric/Tick.antt =====
-- One second of `_run_sub_metric` in closed form: what becomes of each sub-metric, and which of
-- them are queued.
use mathlib.Core.List.{map-append, append_assoc, append-nil}
use syswatcher.Base.{
  ℕ, ◌+◌, ◌≡◌, refl, ap, Bool, true, false, ◌||◌, ◌&&◌, List, [], ◌∷◌, ◌++◌, arith, if◌then◌else◌,
  map, has, count, count-append, is_zero, Bool-cases, inl, inr,
}
use syswatcher.Metric.{
  SubMetricUnit, MetricUnit, go_one_step, move_forward, run_one, run_all, run_sub_metric,
}

-- A sub-metric after its step on the ring; one that is done does not move.
unfoldable pub stepped : SubMetricUnit → SubMetricUnit
unfolding go_one_step
stepped s = if is_zero s.run_time then s else (go_one_step s).0

-- Does this step reach the end of the ring?
unfoldable pub due : SubMetricUnit → Bool
unfolding go_one_step
due s = if is_zero s.run_time then false else is_zero (go_one_step s).1

-- A sub-metric after its round of `do_run_sub_metric`.
unfoldable pub settled : SubMetricUnit → SubMetricUnit
unfolding run_one
settled s = if is_zero s.run_time then s else (run_one s []).0

-- Does this round queue it?
unfoldable pub fires : SubMetricUnit → Bool
fires s = if is_zero s.run_time then false else is_zero s.time_ring_left

unfoldable pub any_due : List SubMetricUnit → Bool
any_due [] = false
any_due (s ∷ ss) = due s || any_due ss

pub firing : List SubMetricUnit → List ℕ
firing [] = []
firing (s ∷ ss) = (if fires s then s.node ∷ [] else []) ++ firing ss

move_forward-map :
    (ss : List SubMetricUnit) (t : Bool) → move_forward ss t ≡ (map stepped ss, any_due ss || t)
unfolding move_forward stepped any_due due
move_forward-map [] t = refl
move_forward-map (s ∷ ss) t = ground (
  arith,
  move_forward-map ss t,
  move_forward-map ss (if is_zero (go_one_step s).1 then true else t),
)

run_one-fires :
    (s : SubMetricUnit) (q : List ℕ)
    → is_zero s.run_time ≡ false
    → run_one s q ≡ (settled s, q ++ (if fires s then s.node ∷ [] else []))
unfolding run_one settled fires
run_one-fires s q e = ground (arith, append-nil q)

settled-done : (s : SubMetricUnit) → is_zero s.run_time ≡ true → (settled s ≡ s) × (fires s ≡ false)
unfolding settled fires
settled-done s e = (rw e, rw e)

run_all-map :
    (ss : List SubMetricUnit) (q : List ℕ) → run_all ss q ≡ (map settled ss, q ++ firing ss)
unfolding run_all firing
run_all-map [] q = ground (arith, append-nil q)
run_all-map (s ∷ ss) q = elim (Bool-cases (is_zero s.run_time)) [
  | inl e ↦ let (same, quiet) = settled-done s e in rw (e, run_all-map ss q, same, quiet)
  | inr e ↦
      rw (e, run_one-fires s q e, run_all-map ss _)
        (ap (λ l. (settled s ∷ map settled ss, l)) (append_assoc q _ (firing ss)))
]

pub run_sub_metric-closed :
    (unit : MetricUnit)
    → run_sub_metric unit ≡ (
        if any_due unit.sub_metrics
        then record unit {
          sub_metrics = map settled (map stepped unit.sub_metrics);
          action_fifo = unit.action_fifo ++ firing (map stepped unit.sub_metrics);
        }
        else record unit { sub_metrics = map stepped unit.sub_metrics })
unfolding run_sub_metric
run_sub_metric-closed unit = ground (
  arith,
  move_forward-map unit.sub_metrics false,
  run_all-map (map stepped unit.sub_metrics) unit.action_fifo,
)

-- The places of the sub-metrics in their unit.
abbrev pub nodes : List SubMetricUnit → List ℕ
nodes ss = map (λ s. s.node) ss

node-stepped : (s : SubMetricUnit) → (stepped s).node ≡ s.node
unfolding stepped
node-stepped s = ground arith

node-settled : (s : SubMetricUnit) → (settled s).node ≡ s.node
unfolding settled
node-settled s = ground arith

nodes-stepped : (ss : List SubMetricUnit) → nodes (map stepped ss) ≡ nodes ss
nodes-stepped [] = refl
nodes-stepped (s ∷ ss) = rw (node-stepped s, nodes-stepped ss)

nodes-settled : (ss : List SubMetricUnit) → nodes (map settled ss) ≡ nodes ss
nodes-settled [] = refl
nodes-settled (s ∷ ss) = rw (node-settled s, nodes-settled ss)

count-firing_absent :
    (n : ℕ) (ss : List SubMetricUnit) → has n (nodes ss) ≡ false → count n (firing ss) ≡ 0
unfolding firing
count-firing_absent n [] out = omega arith
count-firing_absent n (s ∷ ss) out = ground (arith, count-firing_absent n ss)

firing-append : (xs ys : List SubMetricUnit) → firing (xs ++ ys) ≡ firing xs ++ firing ys
unfolding firing
firing-append [] ys = refl
firing-append (x ∷ xs) ys = rw (firing-append xs ys, append_assoc)

any_due-append : (xs ys : List SubMetricUnit) → any_due (xs ++ ys) ≡ (any_due xs || any_due ys)
unfolding any_due
any_due-append [] ys = refl
any_due-append (x ∷ xs) ys = ground (arith, any_due-append xs ys)

-- `s` is a sub-metric of the unit, and no other one has its place.
pub record Has (unit : MetricUnit) (s : SubMetricUnit) : Type 0 where
  pub before : List SubMetricUnit
  pub after : List SubMetricUnit
  pub split : unit.sub_metrics ≡ before ++ s ∷ after
  pub alone_before : has s.node (nodes before) ≡ false
  pub alone_after : has s.node (nodes after) ≡ false

pub any_due-Has :
    {unit : MetricUnit} {s : SubMetricUnit}
    → Has unit s
    → due s ≡ true
    → any_due unit.sub_metrics ≡ true
unfolding any_due
any_due-Has {s} h e =
    rw (h.split, any_due-append h.before (s ∷ h.after), e) (ground (arith, any_due h.before))

-- A sub-metric after one second of its unit.
abbrev pub ticked : MetricUnit → SubMetricUnit → SubMetricUnit
ticked unit s = if any_due unit.sub_metrics then settled (stepped s) else stepped s

count-firing_Has :
    (n : ℕ) (xs ys : List SubMetricUnit) (s : SubMetricUnit)
    → s.node ≡ n
    → has n (nodes xs) ≡ false
    → has n (nodes ys) ≡ false
    → count n (firing (xs ++ s ∷ ys)) ≡ (if fires s then 1 else 0)
unfolding firing
count-firing_Has n xs ys s e a b = ground (
  arith,
  firing-append xs (s ∷ ys),
  count-append n (firing xs) (firing (s ∷ ys)),
  count-firing_absent n xs a,
  count-firing_absent n ys b,
)

count-firing_split :
    (n : ℕ) (unit : MetricUnit) (s : SubMetricUnit)
    → s.node ≡ n
    → Has unit s
    → count n (firing unit.sub_metrics) ≡ (if fires s then 1 else 0)
count-firing_split n unit s e h =
    rw h.split
      (count-firing_Has n h.before h.after s e (rw (← e) h.alone_before) (rw (← e) h.alone_after))

-- A change of every sub-metric that keeps the places.
map-Has :
    (unit : MetricUnit) (s : SubMetricUnit) (f : SubMetricUnit → SubMetricUnit) (q : List ℕ)
    → ((x : SubMetricUnit) → (f x).node ≡ x.node)
    → ((xs : List SubMetricUnit) → nodes (map f xs) ≡ nodes xs)
    → Has unit s
    → Has (record unit { sub_metrics = map f unit.sub_metrics; action_fifo = q }) (f s)
map-Has unit s f q keep keeps h = record {
  before = map f h.before;
  after = map f h.after;
  split = rw h.split (map-append f h.before (s ∷ h.after));
  alone_before = rw (keep s, keeps h.before) h.alone_before;
  alone_after = rw (keep s, keeps h.after) h.alone_after;
}

pub run_sub_metric-Has :
    {unit : MetricUnit} {s : SubMetricUnit}
    → Has unit s
    → Has (run_sub_metric unit) (ticked unit s)
      × (count s.node (run_sub_metric unit).action_fifo
          ≡ count s.node unit.action_fifo
            + (if any_due unit.sub_metrics && fires (stepped s) then 1 else 0))
run_sub_metric-Has {unit} {s} h = elim (Bool-cases (any_due unit.sub_metrics)) [
  | inl t ↦
      let u1 = record unit { sub_metrics = map stepped unit.sub_metrics } in
      let h1 = map-Has unit s stepped unit.action_fifo node-stepped nodes-stepped h in
      let q = unit.action_fifo ++ firing u1.sub_metrics in
      rw (run_sub_metric-closed unit, t)
        (
          map-Has u1 (stepped s) settled q node-settled nodes-settled h1,
          omega (
            arith,
            count-append s.node unit.action_fifo (firing u1.sub_metrics),
            count-firing_split s.node u1 (stepped s) (node-stepped s) h1,
          ),
        )
  | inr t ↦
      rw (run_sub_metric-closed unit, t)
        (map-Has unit s stepped unit.action_fifo node-stepped nodes-stepped h, omega arith)
]

-- ===== src/Metric/Schedule.antt =====
-- When the sub-metrics of core/metric.c are collected, over any number of seconds.
use syswatcher.Base.{
  ℕ, zero, suc, ◌+◌, ◌-◌, ◌/◌, ◌≤◌, ◌<◌, ◌≡◌, refl, ap, Bool, true, false, ◌&&◌, arith,
  if◌then◌else◌, count, pos, negsuc, as_int-zero,
}
use syswatcher.Metric.{SubMetricUnit, MetricUnit, run_sub_metric}
use syswatcher.Metric.Tick.{
  stepped, due, settled, fires, any_due, Has, any_due-Has, ticked, run_sub_metric-Has,
}

-- The unit after so many seconds.
pub seconds : ℕ → MetricUnit → MetricUnit
seconds zero unit = unit
seconds (suc t) unit = seconds t (run_sub_metric unit)

-- How often the unit has queued the sub-metric at this place, as far as no action is taken out.
abbrev pub queued : ℕ → MetricUnit → ℕ
queued n unit = count n unit.action_fifo

-- A sub-metric that is collected for ever, `k` seconds before its ring of `n` seconds is round.
pub record IsPeriodic (s : SubMetricUnit) (n k : ℕ) : Type 0 where
  pub for_ever : s.run_time ≡ negsuc 0
  pub every : s.interval ≡ pos n
  pub left : s.time_ring_left ≡ pos k

ring_start : (n k : ℕ) → 0 < k → k ≤ n → (0 + (n - k)) / n ≡ 0
ring_start n k lo hi = grind arith

ring_round : (t n : ℕ) → 1 ≤ n → (suc t + (n - 1)) / n ≡ 1 + (t + (n - n)) / n
ring_round t n h = grind arith

ring_step : (t n k : ℕ) → suc (suc k) ≤ n → suc t + (n - suc (suc k)) ≡ t + (n - suc k)
ring_step t n k h = omega arith

abbrev one_if : Bool → ℕ
one_if b = if b then 1 else 0

quiet : (b c : Bool) → c ≡ false → one_if (b && c) ≡ 0
quiet b c e = ground arith

loud : (b c : Bool) → b ≡ true → c ≡ true → one_if (b && c) ≡ 1
loud b c d e = ground arith

module _ (unit : MetricUnit) (s : SubMetricUnit) (n : ℕ) where
  IsPeriodic-ticked :
      (k : ℕ)
      → IsPeriodic s n (suc (suc k))
      → IsPeriodic (ticked unit s) n (suc k) × (fires (stepped s) ≡ false)
  unfolding stepped settled fires
  IsPeriodic-ticked k p =
      let a = p.for_ever in
      let b = p.left in
      (
        record { for_ever = ground arith; every = ground (arith, p.every); left = ground arith },
        ground arith,
      )

  IsPeriodic-round :
      IsPeriodic s n 1
      → any_due unit.sub_metrics ≡ true
      → IsPeriodic (ticked unit s) n n × (fires (stepped s) ≡ true)
  unfolding stepped settled fires
  IsPeriodic-round p t =
      let a = p.for_ever in
      let b = p.left in
      let c = p.every in
      (record { for_ever = ground arith; every = ground arith; left = ground arith }, ground arith)

IsPeriodic-due : (s : SubMetricUnit) (n : ℕ) → IsPeriodic s n 1 → due s ≡ true
unfolding due
IsPeriodic-due s n p = let a = p.for_ever in let b = p.left in ground (arith, as_int-zero)

node-ticked : (unit : MetricUnit) (s : SubMetricUnit) → (ticked unit s).node ≡ s.node
unfolding stepped settled
node-ticked unit s = ground arith

-- A sub-metric that is collected for ever every `n` seconds, `k` seconds before its ring is round, has
-- been queued `(t + n - k) / n` times more after `t` seconds, whatever else is in its unit.
pub queued-seconds :
    (t n k : ℕ) {unit : MetricUnit} {s : SubMetricUnit}
    → Has unit s
    → IsPeriodic s n k
    → 0 < k
    → k ≤ n
    → queued s.node (seconds t unit) ≡ queued s.node unit + (t + (n - k)) / n
unfolding seconds
queued-seconds zero n k h p lo hi = omega (arith, ring_start n k lo hi)
queued-seconds (suc t) n zero h p lo hi = absurd (omega arith)
queued-seconds (suc t) n (suc zero) {unit} {s} h p lo hi =
    let d = any_due-Has h (IsPeriodic-due s n p) in
    let (p', f) = IsPeriodic-round unit s n p d in
    let (h', q) = run_sub_metric-Has h in
    let ih = rw (node-ticked unit s) at (queued-seconds t n n h' p' hi (omega arith)) in
    omega (arith, loud (any_due unit.sub_metrics) (fires (stepped s)) d f, ring_round t n hi)
queued-seconds (suc t) n (suc (suc k)) {unit} {s} h p lo hi =
    let (p', f) = IsPeriodic-ticked unit s n k p in
    let (h', q) = run_sub_metric-Has h in
    let ih =
      rw (node-ticked unit s) at (queued-seconds t n (suc k) h' p' (omega arith) (omega arith)) in
    omega (
      arith,
      quiet (any_due unit.sub_metrics) (fires (stepped s)) f,
      ap (λ m. m / n) (ring_step t n k hi),
    )

-- A sub-metric whose `run_time` is used up.
abbrev IsDone : SubMetricUnit → Type 0
IsDone s = s.run_time ≡ pos 0

IsDone-ticked :
    (unit : MetricUnit) (s : SubMetricUnit)
    → IsDone s
    → IsDone (ticked unit s) × (fires (stepped s) ≡ false)
unfolding stepped settled fires
IsDone-ticked unit s d = (ground arith, ground arith)

-- It is never queued again.
queued-done :
    (t : ℕ) {unit : MetricUnit} {s : SubMetricUnit}
    → Has unit s
    → IsDone s
    → queued s.node (seconds t unit) ≡ queued s.node unit
unfolding seconds
queued-done zero h d = refl
queued-done (suc t) {unit} {s} h d =
    let (d', f) = IsDone-ticked unit s d in
    let (h', q) = run_sub_metric-Has h in
    let ih = rw (node-ticked unit s) at (queued-done t h' d') in
    omega (arith, quiet (any_due unit.sub_metrics) (fires (stepped s)) f)

module _ (unit : MetricUnit) (s : SubMetricUnit) (once : s.run_time ≡ pos 1) where
  once-due : (k : ℕ) → k ≤ 1 → s.time_ring_left ≡ pos k → due s ≡ true
  unfolding due
  once-due zero le e = ground (arith, as_int-zero)
  once-due (suc zero) le e = ground (arith, as_int-zero)
  once-due (suc (suc k)) le e = absurd (omega arith)

  once-ticked : any_due unit.sub_metrics ≡ true → IsDone (ticked unit s)
  unfolding stepped settled
  once-ticked t = ground arith

  once-fires : (k : ℕ) → k ≤ 1 → s.time_ring_left ≡ pos k → fires (stepped s) ≡ true
  unfolding stepped fires
  once-fires zero le e = ground arith
  once-fires (suc zero) le e = ground arith
  once-fires (suc (suc k)) le e = absurd (omega arith)

  once-waits : (k : ℕ) → s.time_ring_left ≡ pos (suc (suc k)) → fires (stepped s) ≡ false
  unfolding stepped fires
  once-waits k e = ground arith

-- A sub-metric that runs once and whose ring is at most one step from its end is queued in the next
-- second, and never again.
pub queued_once :
    (t k : ℕ) {unit : MetricUnit} {s : SubMetricUnit}
    → Has unit s
    → s.run_time ≡ pos 1
    → s.time_ring_left ≡ pos k
    → k ≤ 1
    → queued s.node (seconds (suc t) unit) ≡ queued s.node unit + 1
unfolding seconds
queued_once t k {unit} {s} h once e le =
    let d = any_due-Has h (once-due unit s once k le e) in
    let (h', q) = run_sub_metric-Has h in
    let f = once-fires unit s once k le e in
    let one = loud (any_due unit.sub_metrics) (fires (stepped s)) d f in
    let ih = rw (node-ticked unit s) at (queued-done t h' (once-ticked unit s once d)) in
    omega arith

-- A sub-metric that runs once, and whose ring is still two steps or more from its end in a second
-- in which another one of the unit is due, is used up by that second: it is never collected.
pub queued_starved :
    (t k : ℕ) {unit : MetricUnit} {s : SubMetricUnit}
    → Has unit s
    → s.run_time ≡ pos 1
    → s.time_ring_left ≡ pos (suc (suc k))
    → any_due unit.sub_metrics ≡ true
    → queued s.node (seconds t unit) ≡ queued s.node unit
unfolding seconds
queued_starved zero k h once e d = refl
queued_starved (suc t) k {unit} {s} h once e d =
    let (h', q) = run_sub_metric-Has h in
    let f = once-waits unit s once k e in
    let no_more = quiet (any_due unit.sub_metrics) (fires (stepped s)) f in
    let ih = rw (node-ticked unit s) at (queued-done t h' (once-ticked unit s once d)) in
    omega arith

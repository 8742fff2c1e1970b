-- ===== src/Metric/Bounds.antt =====
-- The ranges of the time rings and of the run counts of core/metric.c.
use syswatcher.Base.{
  zero, suc, ◌≤◌, ◌≡◌, false, List, [], ◌∷◌, arith, All, map, Bool-cases, inl, inr, ◌⊎◌, ℤ, pos,
  negsuc, pred_ℤ, is_zero,
}
use syswatcher.Metric.{SubMetricUnit, MetricUnit, run_sub_metric, traverse}
use syswatcher.Metric.Tick.{stepped, settled, any_due, run_sub_metric-closed}

-- -1 (for ever), 1 (once) or 0 (done).
abbrev pub IsRunTime : ℤ → Type 0
IsRunTime r = (r ≡ negsuc 0) ⊎ (r ≡ pos 1) ⊎ (r ≡ pos 0)

-- 0 ≤ left ≤ interval
abbrev pub IsWithin : ℤ → ℤ → Type 0
IsWithin (pos k) (pos n) = k ≤ n
IsWithin (pos k) (negsuc n) = ⊥
IsWithin (negsuc k) i = ⊥

pub record InRing (s : SubMetricUnit) : Type 0 where
  pub runs : IsRunTime s.run_time
  pub within : IsWithin s.time_ring_left s.interval

IsWithin-pred : (l i : ℤ) → is_zero l ≡ false → IsWithin l i → IsWithin (pred_ℤ l) i
IsWithin-pred (pos zero) i e w = cc
IsWithin-pred (pos (suc k)) (pos n) e w = omega arith
IsWithin-pred (pos (suc k)) (negsuc n) e w = absurd w
IsWithin-pred (negsuc k) i e w = absurd w

IsWithin-full : (l i : ℤ) → IsWithin l i → IsWithin i i
IsWithin-full (pos k) (pos n) w = omega arith
IsWithin-full (pos k) (negsuc n) w = absurd w
IsWithin-full (negsuc k) i w = absurd w

stepped-InRing : (s : SubMetricUnit) → InRing s → InRing (stepped s)
unfolding stepped
stepped-InRing s r = ground (arith, IsWithin-pred s.time_ring_left s.interval)

settled-InRing : (s : SubMetricUnit) → InRing s → InRing (settled s)
unfolding settled
settled-InRing s r = ground (arith, IsWithin-full s.time_ring_left s.interval)

All-map :
    (f : SubMetricUnit → SubMetricUnit)
    → ((s : SubMetricUnit) → InRing s → InRing (f s))
    → (ss : List SubMetricUnit) → All InRing ss
    → All InRing (map f ss)
All-map f keep [] r = tt
All-map f keep (s ∷ ss) r = (keep s r.0, All-map f keep ss r.1)

run_sub_metric-InRing :
    (unit : MetricUnit) → All InRing unit.sub_metrics → All InRing (run_sub_metric unit).sub_metrics
run_sub_metric-InRing unit r =
    let moved = All-map stepped stepped-InRing unit.sub_metrics r in
    elim (Bool-cases (any_due unit.sub_metrics)) [
      | inl e ↦ rw (run_sub_metric-closed unit, e) (All-map settled settled-InRing _ moved)
      | inr e ↦ rw (run_sub_metric-closed unit, e) moved
    ]

-- A pass over all units keeps every ring between 0 and its interval, and every run count at -1, 1
-- or 0, if they were so before.
pub traverse-InRing :
    (units : List MetricUnit)
    → All (λ u. All InRing u.sub_metrics) units
    → All (λ u. All InRing u.sub_metrics) (traverse units)
unfolding traverse
traverse-InRing [] r = tt
traverse-InRing (u ∷ us) r = (ground (arith, run_sub_metric-InRing u), traverse-InRing us r.1)

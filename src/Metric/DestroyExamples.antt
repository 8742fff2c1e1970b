-- ===== src/Metric/DestroyExamples.antt =====
-- How core/metric.c builds a unit and takes it apart, at a small heap.
use syswatcher.Base.{ℕ, ◌≡◌, [], ◌∷◌, ◌++◌, arith, ltb, false, ◌==◌, if◌then◌else◌}
use syswatcher.ListHead.{Heap, ok, ◌>>=◌}
use syswatcher.ListHead.Ring.{Ring}
use syswatcher.ListHead.Traverse.{Freed}
use syswatcher.Metric.Destroy.{ThreadInfo, UnitBlock, do_del_metric}
use syswatcher.Metric.Build.{add_unit}
use syswatcher.Metric.Added.{do_del_metric-add_unit}
use syswatcher.Metric.Destroyed.{thread_blocks, IsLinked, do_del_metric-Freed}

-- The metrics 2 and 3 with their head at 1; the unit 3 has the sub-metrics 5 and 6 with the head 4;
-- the action 8 is queued at the head 7.
abbrev heap : Heap
heap = record {
  live = λ p. ltb p 12;
  next = λ p.
      if p == 1
      then 2
      else if p == 2
      then 3
      else if p == 3
      then 1
      else if p == 4
      then 5
      else if p == 5
      then 6
      else if p == 6
      then 4
      else if p == 7
      then 8
      else if p == 8
      then 7
      else p;
  prev = λ p.
      if p == 1
      then 3
      else if p == 2
      then 1
      else if p == 3
      then 2
      else if p == 4
      then 6
      else if p == 5
      then 4
      else if p == 6
      then 5
      else if p == 7
      then 8
      else if p == 8
      then 7
      else p;
}

abbrev ti : ThreadInfo
ti = record { block = 9; action_fifo = record { head = 7; exit_flag = false } }

abbrev unit : UnitBlock
unit = record { node = 3; sub_node_head = 4; update_thread_info = ti }

heap-IsLinked : IsLinked heap 1 (2 ∷ []) [] unit (5 ∷ 6 ∷ []) (8 ∷ [])
heap-IsLinked = record {
  metrics = ground arith;
  sub_metrics = ground arith;
  actions = ground arith;
  thread = ground arith;
  thread_once = ground arith;
  thread_metrics = λ c m. ground arith;
  thread_subs = λ c m. ground arith;
  subs_metrics = λ c m. ground arith;
}

do_del_metric-Freed_example :
    (g : Heap) × (do_del_metric 1 3 unit heap ≡ ok tt g)
    × Ring g 1 (2 ∷ [])
    × Freed (thread_blocks ti (8 ∷ []) ++ (5 ∷ 6 ∷ 3 ∷ 4 ∷ [])) heap g
do_del_metric-Freed_example =
    do_del_metric-Freed 1 3 heap 1 (2 ∷ []) [] unit (5 ∷ 6 ∷ []) (8 ∷ []) heap-IsLinked
      (omega arith) (omega arith)

-- The metrics 1 and 2, with the addresses from 3 on free.
abbrev two : Heap
two = record {
  live = λ p. ltb p 3;
  next = λ p. if p == 1 then 2 else if p == 2 then 1 else p;
  prev = λ p. if p == 1 then 2 else if p == 2 then 1 else p;
}

do_del_metric-add_unit_example :
    (g : Heap) × ((add_unit 1 3 4 (7 ∷ 8 ∷ []) 5 6 >>= do_del_metric 2 3) two ≡ ok tt g)
    × Ring g 1 (2 ∷ [])
    × ((c : ℕ) → g.live c ≡ two.live c)
do_del_metric-add_unit_example =
    do_del_metric-add_unit 2 3 two 1 (2 ∷ []) 3 4 5 6 (7 ∷ 8 ∷ []) (ground arith) (ground arith)
      (ground arith) (omega arith)

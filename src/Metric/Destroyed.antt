-- ===== src/Metric/Destroyed.antt =====
-- How core/metric.c takes a unit apart (`_do_del_metric`): which blocks go, and what stays linked.
use syswatcher.Base.{
  sym, ◌∙◌, ℕ, ◌≡◌, refl, ◌<◌, true, false, List, [], ◌∷◌, ◌++◌, arith, has, has-append, length,
  ◌==◌,
}
use syswatcher.ListHead.{Ptr, Heap, ok, reads, list_del, list_for_each_safe, ◌>>◌}
use syswatcher.ListHead.Ring.{Ring, SameOutside, readable_of_has}
use syswatcher.ListHead.Remove.{Distinct-once, list_del-Removed}
use syswatcher.ListHead.Traverse.{Freed, list_for_each_safe-clear}
use syswatcher.ListHead.Away.{Away, Apart, Apart-sym, Ring-Away, Freed-append}
use syswatcher.Fifo.Queue.{IsFifo}
use syswatcher.Metric.Destroy.{
  UnitBlock, ThreadInfo, destroy_subunit, free_metric_unit, do_del_metric,
}
use syswatcher.Metric.Thread.{free-Freed, IsFifo-Away, destroy_ti-Freed}

-- The blocks of the thread of a unit with the actions `q` queued.
abbrev pub thread_blocks : ThreadInfo → List Ptr → List Ptr
thread_blocks ti q = ti.block ∷ ti.action_fifo.head ∷ q

-- The unit stands in the list of the metrics between `ys` and `zs`, has the sub-metrics `subs` and the
-- actions `q`, and no two of these share a block.
pub record IsLinked (h : Heap) (head : Ptr) (ys zs : List Ptr) (unit : UnitBlock)
    (subs q : List Ptr) : Type 0 where
  pub metrics : Ring h head (ys ++ unit.node ∷ zs)
  pub sub_metrics : Ring h unit.sub_node_head subs
  pub actions : IsFifo h unit.update_thread_info.action_fifo q
  pub thread : reads h unit.update_thread_info.block ≡ true
  pub thread_once :
      has unit.update_thread_info.block (unit.update_thread_info.action_fifo.head ∷ q) ≡ false
  pub thread_metrics : Apart (thread_blocks unit.update_thread_info q) (head ∷ ys ++ unit.node ∷ zs)
  pub thread_subs : Apart (thread_blocks unit.update_thread_info q) (unit.sub_node_head ∷ subs)
  pub subs_metrics : Apart (unit.sub_node_head ∷ subs) (head ∷ ys ++ unit.node ∷ zs)

free_metric_unit-Freed :
    (h : Heap) (unit : UnitBlock)
    → reads h unit.node ≡ true
    → reads h unit.sub_node_head ≡ true
    → (unit.sub_node_head == unit.node) ≡ false
    → (g : Heap) × (free_metric_unit unit h ≡ ok tt g)
      × Freed (unit.node ∷ unit.sub_node_head ∷ []) h g
      × SameOutside [] h g
unfolding free_metric_unit
free_metric_unit-Freed h unit r r' ne =
    let (g, e, freed, same) = free-Freed h unit.node r in
    let r'' : reads g unit.sub_node_head ≡ true = ground (arith, freed.1 unit.sub_node_head) in
    let (g', e', freed', same') = free-Freed g unit.sub_node_head r'' in
    (
      g',
      rw e e',
      Freed-append (unit.node ∷ []) (unit.sub_node_head ∷ []) h g g' freed freed',
      λ c m. ground (arith, same c, same' c),
    )

destroy_subunits-Freed :
    {h : Heap} {head : Ptr} {xs : List Ptr} (fuel : ℕ)
    → Ring h head xs
    → length xs < fuel
    → (g : Heap) × (list_for_each_safe fuel destroy_subunit head tt h ≡ ok tt g)
      × Ring g head []
      × Freed xs h g
      × SameOutside (head ∷ xs) h g
unfolding destroy_subunit
destroy_subunits-Freed fuel ring enough = list_for_each_safe-clear fuel ring enough

-- The unit is out of the list of the metrics `xs`, and everything else is as it was.
record IsUnlinked (h : Heap) (head : Ptr) (xs : List Ptr) (unit : UnitBlock) (subs q : List Ptr)
    : Type 0 where
  metrics : Ring h head xs
  sub_metrics : Ring h unit.sub_node_head subs
  actions : IsFifo h unit.update_thread_info.action_fifo q
  thread : reads h unit.update_thread_info.block ≡ true
  thread_once :
      has unit.update_thread_info.block (unit.update_thread_info.action_fifo.head ∷ q) ≡ false
  thread_metrics : Apart (thread_blocks unit.update_thread_info q) (unit.node ∷ head ∷ xs)
  thread_subs : Apart (thread_blocks unit.update_thread_info q) (unit.sub_node_head ∷ subs)
  subs_metrics : Apart (unit.sub_node_head ∷ subs) (unit.node ∷ head ∷ xs)
  node : reads h unit.node ≡ true
  node_once : has unit.node (head ∷ xs) ≡ false

-- The members of a list with one more in the middle.
has-middle : (c x : Ptr) (xs ys : List Ptr) → has c (xs ++ x ∷ ys) ≡ has c (x ∷ xs ++ ys)
has-middle c x xs ys = ground (arith, has-append c xs (x ∷ ys), has-append c xs ys)

Apart-middle :
    (ts : List Ptr) (x : Ptr) (xs ys : List Ptr) → Apart ts (xs ++ x ∷ ys) → Apart ts (x ∷ xs ++ ys)
Apart-middle ts x xs ys apart c m = sym (has-middle c x xs ys) ∙ apart c m

list_del-IsUnlinked :
    (h : Heap) (head : Ptr) (ys zs : List Ptr) (unit : UnitBlock) (subs q : List Ptr)
    → IsLinked h head ys zs unit subs q
    → (g : Heap) × (list_del unit.node h ≡ ok tt g)
      × IsUnlinked g head (ys ++ zs) unit subs q
      × (g.live ≡ h.live)
list_del-IsUnlinked h head ys zs unit subs q is =
    let (g, e, rem) = list_del-Removed ys zs is.metrics in
    let node = unit.node in
    let away : Away (node ∷ head ∷ ys ++ zs) h g = (rem.same, λ c m. rw rem.live refl) in
    let ts = thread_blocks unit.update_thread_info q in
    let ss = unit.sub_node_head ∷ subs in
    let apart_t = Apart-middle ts node (head ∷ ys) zs is.thread_metrics in
    let apart_s = Apart-middle ss node (head ∷ ys) zs is.subs_metrics in
    let inside : has node (head ∷ ys ++ node ∷ zs) ≡ true =
      ground (arith, has-middle node node (head ∷ ys) zs) in
    let r = readable_of_has h node (head ∷ ys ++ node ∷ zs) is.metrics.readable inside in
    (
      g,
      e,
      record {
        metrics = rem.ring;
        sub_metrics =
            Ring-Away h g (node ∷ head ∷ ys ++ zs) away unit.sub_node_head subs is.sub_metrics
              apart_s;
        actions =
            IsFifo-Away h unit.update_thread_info.action_fifo q g (node ∷ head ∷ ys ++ zs)
              is.actions away (λ c m. apart_t c (ground arith));
        thread = rw rem.live is.thread;
        thread_once = is.thread_once;
        thread_metrics = apart_t;
        thread_subs = is.thread_subs;
        subs_metrics = apart_s;
        node = rw rem.live r;
        node_once = Distinct-once node (head ∷ ys) zs is.metrics.distinct;
      },
      rem.live,
    )

-- The loop over the sub-metrics, and the unit itself, when the thread is gone.
destroy_subunits-unit :
    (fuel : ℕ) (h : Heap) (head : Ptr) (xs : List Ptr) (unit : UnitBlock) (subs : List Ptr)
    → Ring h head xs
    → Ring h unit.sub_node_head subs
    → Apart (unit.sub_node_head ∷ subs) (unit.node ∷ head ∷ xs)
    → reads h unit.node ≡ true
    → has unit.node (head ∷ xs) ≡ false
    → length subs < fuel
    → (g : Heap) × ((list_for_each_safe fuel destroy_subunit unit.sub_node_head tt
            >> free_metric_unit unit)
          h
        ≡ ok tt g)
      × Ring g head xs
      × Freed (subs ++ unit.node ∷ unit.sub_node_head ∷ []) h g
destroy_subunits-unit fuel h head xs unit subs ring ring_s apart r once enough =
    let (g, e, empty, freed, same) = destroy_subunits-Freed fuel ring_s enough in
    let ss = unit.sub_node_head ∷ subs in
    let ring' =
      Ring-Away h g ss (same, λ c m. freed.1 c (ground arith)) head xs ring
        (λ c m. Apart-sym ss (unit.node ∷ head ∷ xs) apart c (ground arith)) in
    let out = Apart-sym ss (unit.node ∷ head ∷ xs) apart unit.node (ground arith) in
    let r' : reads g unit.node ≡ true = ground (arith, freed.1 unit.node) in
    let ne : (unit.sub_node_head == unit.node) ≡ false = ground arith in
    let (g', e', freed', same') = free_metric_unit-Freed g unit r' empty.readable.0 ne in
    (
      g',
      rw e e',
      Ring-Away g g' (unit.node ∷ unit.sub_node_head ∷ []) ((λ c m. same' c refl), freed'.1) head xs
          ring' (λ c m. ground (arith, apart unit.sub_node_head)),
      Freed-append subs (unit.node ∷ unit.sub_node_head ∷ []) h g g' freed freed',
    )

-- However many rounds the update thread still makes, `do_del_metric` on a unit that is linked into
-- the metrics ends without a fault, if there is fuel for its sub-metrics and for the actions queued.
-- The metrics stay linked in their order, without the unit, and the blocks freed are those of the
-- unit, its thread, the queue with its actions, and its sub-metrics: none is left, and no other goes.
pub do_del_metric-Freed :
    (rounds fuel : ℕ) (h : Heap) (head : Ptr) (ys zs : List Ptr) (unit : UnitBlock)
    (subs q : List Ptr)
    → IsLinked h head ys zs unit subs q
    → length subs < fuel
    → length q < fuel
    → (g : Heap) × (do_del_metric rounds fuel unit h ≡ ok tt g)
      × Ring g head (ys ++ zs)
      × Freed
          (thread_blocks unit.update_thread_info q ++ (subs ++ unit.node ∷ unit.sub_node_head ∷ []))
          h
          g
unfolding do_del_metric
do_del_metric-Freed rounds fuel h head ys zs unit subs q is enough enough' =
    let ti = unit.update_thread_info in
    let (g, e, is', live) = list_del-IsUnlinked h head ys zs unit subs q is in
    let ts = thread_blocks ti q in
    let (g', e', freed, same) =
      destroy_ti-Freed rounds fuel g ti q is'.actions enough' is'.thread is'.thread_once in
    let away : Away ts g g' = (same, freed.1) in
    let out = Apart-sym ts (unit.node ∷ head ∷ ys ++ zs) is'.thread_metrics in
    let ring = Ring-Away g g' ts away head (ys ++ zs) is'.metrics (λ c m. out c (ground arith)) in
    let ring_s =
      Ring-Away g g' ts away unit.sub_node_head subs is'.sub_metrics
        (Apart-sym ts (unit.sub_node_head ∷ subs) is'.thread_subs) in
    let r : reads g' unit.node ≡ true =
      ground (arith, freed.1 unit.node, out unit.node, is'.node) in
    let (g'', e'', ring', freed') =
      destroy_subunits-unit fuel g' head (ys ++ zs) unit subs ring ring_s is'.subs_metrics r
        is'.node_once enough in
    let all = Freed-append ts (subs ++ unit.node ∷ unit.sub_node_head ∷ []) g g' g'' freed freed' in
    (g'', rw (e, e') e'', ring', (all.0, λ c m. rw (sym live) (all.1 c m)))

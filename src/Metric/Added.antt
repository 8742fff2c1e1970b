-- ===== src/Metric/Added.antt =====
-- How core/metric.c adds a unit (`_add_metric`), and deletes it again: what becomes of the blocks.
use mathlib.Core.List.{append-nil}
use syswatcher.Base.{
  subst, ℕ, ◌≡◌, refl, true, false, List, [], ◌∷◌, ◌++◌, ◌<◌, arith, has, has-append, length,
  Distinct, All,
}
use syswatcher.ListHead.{Cmd, Ptr, Heap, ok, list_add_tail, ◌>>=◌}
use syswatcher.ListHead.Ring.{Ring}
use syswatcher.ListHead.Insert.{list_add_tail-Inserted}
use syswatcher.ListHead.Traverse.{Freed}
use syswatcher.ListHead.Away.{Away, Apart, Apart-sym, Ring-Away}
use syswatcher.Metric.Build.{make_metric_unit, add_sub_metrics, make_ti, add_unit}
use syswatcher.Metric.Built.{Fresh, Grown}
use syswatcher.Metric.Destroy.{UnitBlock, do_del_metric}
use syswatcher.Metric.Thread.{IsFifo-Away}
use syswatcher.Metric.Parts.{ti_at, HasParts, add_unit-HasParts, Fresh-Apart}
use syswatcher.Metric.Destroyed.{thread_blocks, IsLinked, do_del_metric-Freed}

abbrev block_at : (node sub block fifo : Ptr) → UnitBlock
block_at node sub block fifo = record {
  node = node;
  sub_node_head = sub;
  update_thread_info = ti_at block fifo;
}

add_unit-parts :
    (head node sub block fifo : Ptr) (subs : List Ptr) (h g1 g2 g3 g4 : Heap)
    → make_metric_unit node sub h ≡ ok tt g1
    → add_sub_metrics sub subs g1 ≡ ok tt g2
    → make_ti block fifo g2 ≡ ok (ti_at block fifo) g3
    → list_add_tail node head g3 ≡ ok tt g4
    → add_unit head node sub subs block fifo h ≡ ok (block_at node sub block fifo) g4
unfolding add_unit
add_unit-parts head node sub block fifo subs h g1 g2 g3 g4 e1 e2 e3 e4 = rw (e1, e2, e3, e4) refl

-- The unit goes behind the metrics `xs`.
link-IsLinked :
    (h g3 : Heap) (head : Ptr) (xs : List Ptr) (node sub block fifo : Ptr) (subs : List Ptr)
    → Ring h head xs
    → Distinct (node ∷ sub ∷ block ∷ fifo ∷ subs)
    → Apart (node ∷ sub ∷ block ∷ fifo ∷ subs) (head ∷ xs)
    → HasParts h node sub block fifo subs g3
    → (g : Heap) × (list_add_tail node head g3 ≡ ok tt g)
      × IsLinked g head xs [] (block_at node sub block fifo) subs []
      × (g.live ≡ g3.live)
link-IsLinked h g3 head xs node sub block fifo subs ring once apart has_ =
    let news = node ∷ sub ∷ block ∷ fifo ∷ subs in
    let ring3 =
      Ring-Away h g3 news (has_.same, has_.grown.1) head xs ring
        (Apart-sym news (head ∷ xs) apart) in
    let (g, e, ins) = list_add_tail-Inserted ring3 has_.node_reads (apart node (ground arith)) in
    let away : Away (node ∷ head ∷ xs) g3 g = (ins.same, λ c m. rw ins.live refl) in
    let live = ins.live in
    (
      g,
      e,
      record {
        metrics = ins.ring;
        sub_metrics =
            Ring-Away g3 g (node ∷ head ∷ xs) away sub subs has_.sub_metrics
              (λ c m. ground (arith, apart c));
        actions =
            IsFifo-Away g3 (ti_at block fifo).action_fifo [] g (node ∷ head ∷ xs) has_.actions away
              (λ c m. ground (arith, apart c));
        thread = rw live has_.thread;
        thread_once = ground arith;
        thread_metrics = λ c m. ground (arith, apart c, has-append c xs (node ∷ []));
        thread_subs = λ c m. ground arith;
        subs_metrics = λ c m. ground (arith, apart c, has-append c xs (node ∷ []));
      },
      live,
    )

Fresh-absent :
    (h : Heap) (ps : List Ptr) (c : Ptr) → All (Fresh h) ps → has c ps ≡ true → h.live c ≡ false
Fresh-absent h [] c fresh m = cc
Fresh-absent h (p ∷ ps) c fresh m = ground (arith, Fresh-absent h ps c fresh.1)

module _ (h : Heap) (head : Ptr) (xs : List Ptr) (node sub block fifo : Ptr) (subs : List Ptr)
    (ring : Ring h head xs) (fresh : All (Fresh h) (node ∷ sub ∷ block ∷ fifo ∷ subs))
    (once : Distinct (node ∷ sub ∷ block ∷ fifo ∷ subs)) where
  add_unit-IsLinked :
      (g : Heap) × (add_unit head node sub subs block fifo h ≡ ok (block_at node sub block fifo) g)
      × IsLinked g head xs [] (block_at node sub block fifo) subs []
      × Grown (node ∷ sub ∷ block ∷ fifo ∷ subs) h g
  add_unit-IsLinked =
      let (g1, g2, g3, e1, e2, e3, has_) =
        add_unit-HasParts h node sub block fifo subs fresh once in
      let apart = Fresh-Apart h (node ∷ sub ∷ block ∷ fifo ∷ subs) head xs fresh ring in
      let (g, e, is, live) =
        link-IsLinked h g3 head xs node sub block fifo subs ring once apart has_ in
      (
        g,
        add_unit-parts head node sub block fifo subs h g1 g2 g3 g e1 e2 e3 e,
        is,
        (λ c m. rw live (has_.grown.0 c m), λ c m. rw live (has_.grown.1 c m)),
      )

module _ (h g g' : Heap) (node sub block fifo : Ptr) (subs : List Ptr)
    (fresh : All (Fresh h) (node ∷ sub ∷ block ∷ fifo ∷ subs)) where
  live-Freed :
      Grown (node ∷ sub ∷ block ∷ fifo ∷ subs) h g
      → Freed (thread_blocks (ti_at block fifo) [] ++ (subs ++ node ∷ sub ∷ [])) g g'
      → (c : Ptr) → g'.live c ≡ h.live c
  live-Freed grown freed c = ground (
    arith,
    grown.1 c,
    freed.0 c,
    freed.1 c,
    has-append c subs (node ∷ sub ∷ []),
    Fresh-absent h (node ∷ sub ∷ block ∷ fifo ∷ subs) c fresh,
  )

run_both :
    {A : Type 0} (c : Cmd A) (k : A → Cmd (Unit {0})) (a : A) (h g g' : Heap)
    → c h ≡ ok a g
    → k a g ≡ ok tt g'
    → (c >>= k) h ≡ ok tt g'
run_both c k a h g g' e e' = rw e e'

-- Where `malloc` gives a new block at each call, a unit can be added to the metrics and deleted again
-- without a fault, whatever its update thread does. The metrics are linked as before, and the blocks
-- that are allocated are those from before: nothing is lost, and nothing of the others is freed.
pub do_del_metric-add_unit :
    (rounds fuel : ℕ) (h : Heap) (head : Ptr) (xs : List Ptr) (node sub block fifo : Ptr)
    (subs : List Ptr)
    → Ring h head xs
    → All (Fresh h) (node ∷ sub ∷ block ∷ fifo ∷ subs)
    → Distinct (node ∷ sub ∷ block ∷ fifo ∷ subs)
    → length subs < fuel
    → (g : Heap) × ((add_unit head node sub subs block fifo >>= do_del_metric rounds fuel) h
        ≡ ok tt g)
      × Ring g head xs
      × ((c : Ptr) → g.live c ≡ h.live c)
do_del_metric-add_unit rounds fuel h head xs node sub block fifo subs ring fresh once enough =
    let (g, e, is, grown) = add_unit-IsLinked h head xs node sub block fifo subs ring fresh once in
    let unit = block_at node sub block fifo in
    let (g', e', ring', freed) =
      do_del_metric-Freed rounds fuel g head xs [] unit subs [] is enough (omega arith) in
    (
      g',
      run_both (add_unit head node sub subs block fifo) (do_del_metric rounds fuel) unit h g g' e
          e',
      subst (Ring g' head) (append-nil xs) ring',
      live-Freed h g g' node sub block fifo subs fresh grown freed,
    )

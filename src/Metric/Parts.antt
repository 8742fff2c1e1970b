-- ===== src/Metric/Parts.antt =====
-- How core/metric.c builds a unit (`make_unit`, `make_ti`): the blocks and links of its parts.
use syswatcher.Base.{◌≡◌, refl, ◌∙◌, true, false, List, [], ◌∷◌, arith, has, Distinct, All, ◌==◌}
use syswatcher.ListHead.{Ptr, null, Heap, ok, reads, init_list_head}
use syswatcher.ListHead.Ring.{Ring, SameOutside, readable_of_has}
use syswatcher.ListHead.Away.{Apart, Ring-Away, SameOutside-append, SameOutside-weaken}
use syswatcher.Fifo.{malloc, init_fifo}
use syswatcher.Fifo.Queue.{IsFifo}
use syswatcher.Metric.Build.{make_metric_unit, add_sub_metrics, make_ti}
use syswatcher.Metric.Built.{
  Fresh, Grown, Grown-same, Grown-append, malloc-Grown, init_list_head-Ring, All-Fresh,
  add_sub_metrics-Ring,
}
use syswatcher.Metric.Destroy.{ThreadInfo}

make_metric_unit-parts :
    (node sub : Ptr) (h g1 g2 g3 g4 : Heap)
    → malloc node h ≡ ok tt g1
    → malloc sub g1 ≡ ok tt g2
    → init_list_head node g2 ≡ ok tt g3
    → init_list_head sub g3 ≡ ok tt g4
    → make_metric_unit node sub h ≡ ok tt g4
unfolding make_metric_unit
make_metric_unit-parts node sub h g1 g2 g3 g4 e1 e2 e3 e4 = rw (e1, e2, e3) e4

make_metric_unit-Ring :
    (h : Heap) (node sub : Ptr)
    → Fresh h node
    → Fresh h sub
    → (node == sub) ≡ false
    → (g : Heap) × (make_metric_unit node sub h ≡ ok tt g)
      × (reads g node ≡ true)
      × Ring g sub []
      × Grown (node ∷ sub ∷ []) h g
      × SameOutside (node ∷ sub ∷ []) h g
make_metric_unit-Ring h node sub fresh fresh_sub ne =
    let (g1, e1, grown1, same1) = malloc-Grown h node fresh in
    let fresh1 : Fresh g1 sub = (fresh_sub.0, ground (arith, grown1.1 sub)) in
    let (g2, e2, grown2, same2) = malloc-Grown g1 sub fresh1 in
    let r : reads g2 node ≡ true = ground (arith, grown1.0 node, grown2.1 node) in
    let (g3, e3, ring3, live3, same3) = init_list_head-Ring g2 node r in
    let r' : reads g3 sub ≡ true = ground (arith, grown2.0 sub) in
    let (g4, e4, ring4, live4, same4) = init_list_head-Ring g3 sub r' in
    (
      g4,
      make_metric_unit-parts node sub h g1 g2 g3 g4 e1 e2 e3 e4,
      rw live4 ring3.readable.0,
      ring4,
      Grown-append (node ∷ []) (sub ∷ []) h g1 g4 grown1
          (Grown-append (sub ∷ []) [] g1 g2 g4 grown2 (Grown-same g2 g4 (live4 ∙ live3))),
      SameOutside-append [] (node ∷ sub ∷ []) h g1 g4 same1 (
          SameOutside-append [] (node ∷ sub ∷ []) g1 g2 g4 same2
            (SameOutside-append (node ∷ []) (sub ∷ []) g2 g3 g4 same3 same4)),
    )

abbrev pub ti_at : (block fifo : Ptr) → ThreadInfo
ti_at block fifo = record { block = block; action_fifo = record { head = fifo; exit_flag = false } }

make_ti-parts :
    (block fifo : Ptr) (h g1 g2 g3 : Heap)
    → malloc block h ≡ ok tt g1
    → (fifo == null) ≡ false
    → malloc fifo g1 ≡ ok tt g2
    → init_list_head fifo g2 ≡ ok tt g3
    → make_ti block fifo h ≡ ok (ti_at block fifo) g3
unfolding make_ti init_fifo
make_ti-parts block fifo h g1 g2 g3 e1 ne e2 e3 = rw (e1, ne, e2, e3) refl

make_ti-IsFifo :
    (h : Heap) (block fifo : Ptr)
    → Fresh h block
    → Fresh h fifo
    → (block == fifo) ≡ false
    → (g : Heap) × (make_ti block fifo h ≡ ok (ti_at block fifo) g)
      × IsFifo g (ti_at block fifo).action_fifo []
      × (reads g block ≡ true)
      × Grown (block ∷ fifo ∷ []) h g
      × SameOutside (block ∷ fifo ∷ []) h g
make_ti-IsFifo h block fifo fresh fresh_fifo ne =
    let (g1, e1, grown1, same1) = malloc-Grown h block fresh in
    let fresh1 : Fresh g1 fifo = (fresh_fifo.0, ground (arith, grown1.1 fifo)) in
    let (g2, e2, grown2, same2) = malloc-Grown g1 fifo fresh1 in
    let r : reads g2 fifo ≡ true = ground (arith, grown2.0 fifo) in
    let (g3, e3, ring3, live3, same3) = init_list_head-Ring g2 fifo r in
    (
      g3,
      make_ti-parts block fifo h g1 g2 g3 e1 fresh_fifo.0 e2 e3,
      record { ring = ring3; open_ = refl },
      rw live3 (ground (arith, grown1.0 block, grown2.1 block)),
      Grown-append (block ∷ []) (fifo ∷ []) h g1 g3 grown1
          (Grown-append (fifo ∷ []) [] g1 g2 g3 grown2 (Grown-same g2 g3 live3)),
      SameOutside-weaken block (fifo ∷ []) h g3 (
          SameOutside-append [] (fifo ∷ []) h g1 g3 same1
            (SameOutside-append [] (fifo ∷ []) g1 g2 g3 same2 same3)),
    )

-- What is not yet there is not in a ring.
pub Fresh-Apart :
    (h : Heap) (ps : List Ptr) (head : Ptr) (xs : List Ptr)
    → All (Fresh h) ps
    → Ring h head xs
    → Apart ps (head ∷ xs)
Fresh-Apart h [] head xs fresh ring c m = cc
Fresh-Apart h (p ∷ ps) head xs fresh ring c m =
    ground (
      arith,
      Fresh-Apart h ps head xs fresh.1 ring c,
      readable_of_has h c (head ∷ xs) ring.readable,
    )

-- The parts of a unit, before it is put into the list of the metrics.
pub record HasParts (h : Heap) (node sub block fifo : Ptr) (subs : List Ptr) (g : Heap)
    : Type 0 where
  pub node_reads : reads g node ≡ true
  pub sub_metrics : Ring g sub subs
  pub actions : IsFifo g (ti_at block fifo).action_fifo []
  pub thread : reads g block ≡ true
  pub grown : Grown (node ∷ sub ∷ block ∷ fifo ∷ subs) h g
  pub same : SameOutside (node ∷ sub ∷ block ∷ fifo ∷ subs) h g

module _ (h g1 g2 g3 : Heap) (node sub block fifo : Ptr) (subs : List Ptr)
    (once : Distinct (node ∷ sub ∷ block ∷ fifo ∷ subs)) where
  HasParts-steps :
      (reads g1 node ≡ true)
      → Grown (node ∷ sub ∷ []) h g1
      → SameOutside (node ∷ sub ∷ []) h g1
      → Ring g2 sub subs
      → Grown subs g1 g2
      → SameOutside (sub ∷ subs) g1 g2
      → IsFifo g3 (ti_at block fifo).action_fifo []
      → (reads g3 block ≡ true)
      → Grown (block ∷ fifo ∷ []) g2 g3
      → SameOutside (block ∷ fifo ∷ []) g2 g3
      → HasParts h node sub block fifo subs g3
  HasParts-steps r grown1 same1 ring grown2 same2 is r' grown3 same3 = record {
    node_reads = ground (arith, grown2.1 node, grown3.1 node);
    sub_metrics =
        Ring-Away g2 g3 (block ∷ fifo ∷ []) (same3, grown3.1) sub subs ring (λ c m. ground arith);
    actions = is;
    thread = r';
    grown = (
      λ c m. ground (arith, grown1.0 c, grown2.0 c, grown3.0 c, grown2.1 c, grown3.1 c),
      λ c m. ground (arith, grown1.1 c, grown2.1 c, grown3.1 c),
    );
    same = λ c m. ground (arith, same1 c, same2 c, same3 c);
  }

module _ (h : Heap) (node sub block fifo : Ptr) (subs : List Ptr)
    (fresh : All (Fresh h) (node ∷ sub ∷ block ∷ fifo ∷ subs))
    (once : Distinct (node ∷ sub ∷ block ∷ fifo ∷ subs)) where
  Fresh-later :
      (g : Heap) (zs : List Ptr) (p : Ptr) → Fresh h p → Grown zs h g → has p zs ≡ false → Fresh g p
  Fresh-later g zs p f grown out = (f.0, ground (arith, grown.1 p))

  pub add_unit-HasParts :
      (g1 : Heap) × (g2 : Heap) × (g3 : Heap) × (make_metric_unit node sub h ≡ ok tt g1)
      × (add_sub_metrics sub subs g1 ≡ ok tt g2)
      × (make_ti block fifo g2 ≡ ok (ti_at block fifo) g3)
      × HasParts h node sub block fifo subs g3
  add_unit-HasParts =
      let ne : (node == sub) ≡ false = ground arith in
      let ne' : (block == fifo) ≡ false = ground arith in
      let (g1, e1, r1, ring1, grown1, same1) =
        make_metric_unit-Ring h node sub fresh.0 fresh.1.0 ne in
      let subs1 =
        All-Fresh h g1 (node ∷ sub ∷ []) subs grown1 (λ c m. ground arith) fresh.1.1.1.1 in
      let (g2, e2, ring2, grown2, same2) =
        add_sub_metrics-Ring g1 sub [] subs ring1 subs1 once.1.1.1.1 (λ c m. ground arith) in
      let grown12 = Grown-append (node ∷ sub ∷ []) subs h g1 g2 grown1 grown2 in
      let fresh_b = Fresh-later g2 (node ∷ sub ∷ subs) block fresh.1.1.0 grown12 (ground arith) in
      let fresh_f = Fresh-later g2 (node ∷ sub ∷ subs) fifo fresh.1.1.1.0 grown12 (ground arith) in
      let (g3, e3, is3, r3, grown3, same3) = make_ti-IsFifo g2 block fifo fresh_b fresh_f ne' in
      (
        g1,
        g2,
        g3,
        e1,
        e2,
        e3,
        HasParts-steps h g1 g2 g3 node sub block fifo subs once r1 grown1 same1 ring2 grown2 same2
            is3 r3 grown3 same3,
      )

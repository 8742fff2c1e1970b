-- ===== src/Metric/Built.antt =====
-- How core/metric.c builds a unit: which blocks are new, and how its parts are linked.
use mathlib.Core.List.{append_assoc, append-nil}
use syswatcher.Base.{
  ◌≡◌, refl, sym, ◌∙◌, subst, true, false, List, [], ◌∷◌, ◌++◌, arith, has, has-append, Distinct,
  All, ◌==◌,
}
use syswatcher.ListHead.{
  Ptr, null, Heap, Run, ok, fault, out_of_fuel, Cmd, then_run, ◌>>◌, reads, update, init_list_head,
}
use syswatcher.ListHead.Ring.{Ring, SameOutside}
use syswatcher.ListHead.Insert.{list_add_tail-Inserted}
use syswatcher.ListHead.Away.{Apart, Ring-Away}
use syswatcher.Fifo.{malloc}
use syswatcher.Metric.Build.{make_sub_block, add_sub_metric, add_sub_metrics}

-- What malloc can give: a block that is not there yet, and not NULL.
abbrev pub Fresh : Heap → Ptr → Type 0
Fresh h p = ((p == null) ≡ false) × (h.live p ≡ false)

-- The blocks `xs` are there now, and every other one as before.
abbrev pub Grown : List Ptr → Heap → Heap → Type 0
Grown xs h g =
    ((c : Ptr) → has c xs ≡ true → g.live c ≡ true)
    × ((c : Ptr) → has c xs ≡ false → g.live c ≡ h.live c)

pub Grown-same : (h g : Heap) → g.live ≡ h.live → Grown [] h g
Grown-same h g live = (λ c m. cc, λ c m. rw live refl)

pub Grown-append :
    (xs ys : List Ptr) (h g i : Heap) → Grown xs h g → Grown ys g i → Grown (xs ++ ys) h i
Grown-append xs ys h g i a b = (
  λ c m. ground (arith, has-append c xs ys, a.0 c, b.0 c, b.1 c),
  λ c m. ground (arith, has-append c xs ys, a.1 c, b.1 c),
)

pub malloc-Grown :
    (h : Heap) (p : Ptr)
    → Fresh h p
    → (g : Heap) × (malloc p h ≡ ok tt g) × Grown (p ∷ []) h g × SameOutside [] h g
unfolding malloc
malloc-Grown h p fresh = (
  record h { live = update h.live p true },
  rw fresh.0 refl,
  (λ c m. ground arith, λ c m. ground arith),
  λ c m. (refl, refl),
)

pub init_list_head-Ring :
    (h : Heap) (p : Ptr)
    → reads h p ≡ true
    → (g : Heap) × (init_list_head p h ≡ ok tt g)
      × Ring g p []
      × (g.live ≡ h.live)
      × SameOutside (p ∷ []) h g
unfolding init_list_head
init_list_head-Ring h p r = (
  record h { next = update h.next p p; prev = update h.prev p p },
  ground arith,
  ground arith,
  refl,
  λ c m. ground arith,
)

-- A new block with one list head.
pub make_sub_block-Ring :
    (h : Heap) (p : Ptr)
    → Fresh h p
    → (g : Heap) × (make_sub_block p h ≡ ok tt g)
      × Ring g p []
      × Grown (p ∷ []) h g
      × SameOutside (p ∷ []) h g
unfolding make_sub_block
make_sub_block-Ring h p fresh =
    let (g, e, grown, same) = malloc-Grown h p fresh in
    let r : reads g p ≡ true = ground (arith, grown.0 p) in
    let (g', e', ring, live, same') = init_list_head-Ring g p r in
    (
      g',
      rw e e',
      ring,
      (λ c m. rw live (grown.0 c m), λ c m. rw live (grown.1 c m)),
      λ c m. ground (arith, same c, same' c),
    )

add_one-Ring :
    (h : Heap) (head : Ptr) (xs : List Ptr) (p : Ptr)
    → Ring h head xs
    → Fresh h p
    → has p (head ∷ xs) ≡ false
    → (g : Heap) × ((make_sub_block p >> add_sub_metric head p) h ≡ ok tt g)
      × Ring g head (xs ++ p ∷ [])
      × Grown (p ∷ []) h g
      × SameOutside (p ∷ head ∷ xs) h g
unfolding add_sub_metric
add_one-Ring h head xs p ring fresh out =
    let (g, e, single, grown, same) = make_sub_block-Ring h p fresh in
    let apart : Apart (head ∷ xs) (p ∷ []) = λ c m. ground arith in
    let ring' = Ring-Away h g (p ∷ []) (same, grown.1) head xs ring apart in
    let (g', e', ins) = list_add_tail-Inserted ring' single.readable.0 out in
    (
      g',
      rw e e',
      ins.ring,
      (λ c m. rw ins.live (grown.0 c m), λ c m. rw ins.live (grown.1 c m)),
      λ c m. ground (arith, same c, ins.same c),
    )

pub All-Fresh :
    (h g : Heap) (zs ps : List Ptr)
    → Grown zs h g
    → Apart ps zs
    → All (Fresh h) ps
    → All (Fresh g) ps
All-Fresh h g zs [] grown apart fresh = tt
All-Fresh h g zs (p ∷ ps) grown apart fresh = (
  (fresh.0.0, ground (arith, grown.1 p, apart p)),
  All-Fresh h g zs ps grown (λ c m. apart c (ground arith)) fresh.1,
)

then_run_assoc :
    (r : Run (Unit {0})) (k l : Cmd (Unit {0}))
    → then_run (then_run r (λ _. k)) (λ _. l) ≡ then_run r (λ _ h. then_run (k h) (λ _. l))
then_run_assoc (ok a h) k l = refl
then_run_assoc fault k l = refl
then_run_assoc out_of_fuel k l = refl

add_more :
    (head p : Ptr) (ps : List Ptr) (h g : Heap) (r : Run (Unit {0}))
    → (make_sub_block p >> add_sub_metric head p) h ≡ ok tt g
    → add_sub_metrics head ps g ≡ r
    → add_sub_metrics head (p ∷ ps) h ≡ r
unfolding add_sub_metrics
add_more head p ps h g r e e' =
    sym (then_run_assoc (make_sub_block p h) (add_sub_metric head p) (add_sub_metrics head ps))
    ∙ rw e e'

-- The sub-metrics are added behind those that are there.
pub add_sub_metrics-Ring :
    (h : Heap) (head : Ptr) (xs ps : List Ptr)
    → Ring h head xs
    → All (Fresh h) ps
    → Distinct ps
    → Apart ps (head ∷ xs)
    → (g : Heap) × (add_sub_metrics head ps h ≡ ok tt g)
      × Ring g head (xs ++ ps)
      × Grown ps h g
      × SameOutside (head ∷ xs ++ ps) h g
unfolding add_sub_metrics
add_sub_metrics-Ring h head xs [] ring fresh once apart = (
  h,
  refl,
  subst (Ring h head) (sym (append-nil xs)) ring,
  (λ c m. ground arith, λ c m. refl),
  λ c m. (refl, refl),
)
add_sub_metrics-Ring h head xs (p ∷ ps) ring fresh once apart =
    let (g, e, ring', grown, same) =
      add_one-Ring h head xs p ring fresh.0 (apart p (ground arith)) in
    let later : Apart ps (p ∷ []) = λ c m. ground arith in
    let fresh' = All-Fresh h g (p ∷ []) ps grown later fresh.1 in
    let apart' : Apart ps (head ∷ xs ++ p ∷ []) =
      λ c m. ground (arith, apart c, has-append c xs (p ∷ [])) in
    let (g', e', ring'', grown', same') =
      add_sub_metrics-Ring g head (xs ++ p ∷ []) ps ring' fresh' once.1 apart' in
    (
      g',
      add_more head p ps h g (ok tt g') e e',
      subst (Ring g' head) (append_assoc xs (p ∷ []) ps) ring'',
      (
        λ c m. ground (arith, grown.0 c, grown'.0 c, grown'.1 c),
        λ c m. ground (arith, grown.1 c, grown'.1 c),
      ),
      λ c m. ground (
        arith,
        same c,
        same' c,
        has-append c xs (p ∷ ps),
        has-append c xs (p ∷ []),
        has-append c (xs ++ p ∷ []) ps,
      ),
    )

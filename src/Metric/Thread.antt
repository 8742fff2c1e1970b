-- ===== src/Metric/Thread.antt =====
-- How core/metric.c ends the update thread of a unit (`destroy_ti`): which blocks go.
use mathlib.Core.List.{reverse, reverse-cons}
use syswatcher.Base.{
  subst, Distinct, ℕ, zero, suc, ◌≡◌, refl, ◌≤◌, ◌<◌, ◌||◌, true, false, List, [], ◌∷◌, ◌++◌, arith,
  has, has-append, length, ◌==◌,
}
use syswatcher.ListHead.{Ptr, null, Heap, ok, reads, update, free}
use syswatcher.ListHead.Ring.{SameOutside, readable_of_has}
use syswatcher.ListHead.Remove.{Distinct-once}
use syswatcher.ListHead.Traverse.{Freed}
use syswatcher.ListHead.Away.{Away, Apart, Ring-Away, Freed-append}
use syswatcher.Fifo.{FifoHead}
use syswatcher.Fifo.Queue.{IsFifo, pop-IsFifo, del_fifo-Freed}
use syswatcher.Metric.Destroy.{thread_round, thread_rounds, ThreadInfo, destroy_ti, del_action}

has-reverse : (c : ℕ) (xs : List ℕ) → has c (reverse xs) ≡ has c xs
has-reverse c [] = refl
has-reverse c (x ∷ xs) =
    rw (reverse-cons x xs, has-append c (reverse xs) (x ∷ []), has-reverse c xs) (ground arith)

length-append_one : (xs : List ℕ) (x : ℕ) → length (xs ++ x ∷ []) ≡ suc (length xs)
length-append_one [] x = refl
length-append_one (y ∷ xs) x = rw (length-append_one xs x) refl

length-reverse : (xs : List ℕ) → length (reverse xs) ≡ length xs
length-reverse [] = refl
length-reverse (x ∷ xs) =
    rw (reverse-cons x xs, length-append_one (reverse xs) x, length-reverse xs) refl

pub free-Freed :
    (h : Heap) (x : Ptr)
    → reads h x ≡ true
    → (g : Heap) × (free x h ≡ ok tt g) × Freed (x ∷ []) h g × SameOutside [] h g
unfolding free
free-Freed h x r = (
  record h { live = update h.live x false },
  rw r refl,
  (λ c m. ground arith, λ c m. ground arith),
  λ c m. (refl, refl),
)

module _ (h : Heap) (f : FifoHead) where
  pub IsFifo-Away :
      (q : List Ptr) (g : Heap) (zs : List Ptr)
      → IsFifo h f q
      → Away zs h g
      → Apart (f.head ∷ q) zs
      → IsFifo g f q
  IsFifo-Away q g zs is away apart = record {
    ring =
        Ring-Away h g zs away f.head (reverse q) is.ring
          (λ c m. apart c (ground (arith, has-reverse c q)));
    open_ = is.open_;
  }

-- What `gone` and `left` are to a queue: its nodes, shared out.
record Shared (q gone left : List Ptr) : Type 0 where
  all : (c : Ptr) → has c q ≡ (has c gone || has c left)
  shorter : length left ≤ length q

-- One round on a queue with a node takes the oldest out and frees it.
thread_round-some :
    (h : Heap) (f : FifoHead) (x : Ptr) (q : List Ptr)
    → IsFifo h f (x ∷ q)
    → (g : Heap) × (thread_round f h ≡ ok tt g)
      × IsFifo g f q
      × Freed (x ∷ []) h g
      × SameOutside (f.head ∷ x ∷ q) h g
unfolding thread_round del_action
thread_round-some h f x q is =
    let (g, e, is', live, same) = pop-IsFifo h f (x ∷ q) is in
    let member : has x (f.head ∷ reverse (x ∷ q)) ≡ true = ground (arith, has-reverse x (x ∷ q)) in
    let r = readable_of_has h x (f.head ∷ reverse (x ∷ q)) is.ring.readable member in
    let r' : reads g x ≡ true = ground arith in
    let (g', e', freed, same') = free-Freed g x r' in
    let d = subst (λ q'. Distinct (f.head ∷ q')) (reverse-cons x q) is.ring.distinct in
    let once : has x (f.head ∷ q) ≡ false = ground (
      arith,
      Distinct-once x (f.head ∷ reverse q) [] d,
      has-append x (f.head ∷ reverse q) [],
      has-reverse x q,
    ) in
    let ne : (x == null) ≡ false = ground arith in
    (
      g',
      rw (e, ne) e',
      IsFifo-Away g f q g' (x ∷ []) is' ((λ c m. same' c refl), freed.1) (λ c m. ground arith),
      (λ c m. freed.0 c m, λ c m. ground (arith, freed.1 c)),
      λ c m. ground (arith, same c, same' c, has-reverse c (x ∷ q)),
    )

thread_rounds-Freed :
    (k : ℕ) (h : Heap) (f : FifoHead) (q : List Ptr)
    → IsFifo h f q
    → (g : Heap) × (gone : List Ptr) × (left : List Ptr) × (thread_rounds k f h ≡ ok tt g)
      × IsFifo g f left
      × Shared q gone left
      × Freed gone h g
      × SameOutside (f.head ∷ q) h g
unfolding thread_rounds
thread_rounds-Freed zero h f q is = (
  h,
  [],
  q,
  refl,
  is,
  record { all = λ c. refl; shorter = omega arith },
  (λ c m. ground arith, λ c m. refl),
  λ c m. (refl, refl),
)
thread_rounds-Freed (suc k) h f [] is =
    let (g, e, is', live, same) = pop-IsFifo h f [] is in
    let round : thread_round f h ≡ ok tt g = rw e refl in
    let (g', gone, left, e', is'', shared, freed, same') = thread_rounds-Freed k g f [] is' in
    (
      g',
      gone,
      left,
      rw round e',
      is'',
      shared,
      (λ c m. freed.0 c m, λ c m. ground (arith, freed.1 c)),
      λ c m. ground (arith, same c, same' c),
    )
thread_rounds-Freed (suc k) h f (x ∷ q) is =
    let (g, e, is', freed, same) = thread_round-some h f x q is in
    let (g', gone, left, e', is'', shared, freed', same') = thread_rounds-Freed k g f q is' in
    (
      g',
      x ∷ gone,
      left,
      rw e e',
      is'',
      record { all = λ c. ground (arith, shared.all c); shorter = omega (arith, shared.shorter) },
      Freed-append (x ∷ []) gone h g g' freed freed',
      λ c m. ground (arith, same c, same' c),
    )

-- However many rounds the thread still makes, `destroy_ti` frees its block, the head of its queue and
-- every action queued, and no other block; only links of the queue change.
pub destroy_ti-Freed :
    (rounds fuel : ℕ) (h : Heap) (ti : ThreadInfo) (q : List Ptr)
    → IsFifo h ti.action_fifo q
    → length q < fuel
    → reads h ti.block ≡ true
    → has ti.block (ti.action_fifo.head ∷ q) ≡ false
    → (g : Heap) × (destroy_ti rounds fuel ti h ≡ ok tt g)
      × Freed (ti.block ∷ ti.action_fifo.head ∷ q) h g
      × SameOutside (ti.block ∷ ti.action_fifo.head ∷ q) h g
unfolding destroy_ti
destroy_ti-Freed rounds fuel h ti q is enough r out =
    let f = ti.action_fifo in
    let (g, gone, left, e, is', shared, freed, same) = thread_rounds-Freed rounds h f q is in
    let short : length (reverse left) < fuel = omega (arith, shared.shorter, length-reverse left) in
    let (g', e', freed', same') = del_fifo-Freed f fuel is'.ring short in
    let r' : reads g' ti.block ≡ true = ground (
      arith,
      shared.all ti.block,
      freed.1 ti.block,
      freed'.1 ti.block,
      has-reverse ti.block left,
    ) in
    let (g'', e'', freed'', same'') = free-Freed g' ti.block r' in
    (
      g'',
      rw (e, e') e'',
      (
        λ c m. ground (
          arith,
          shared.all c,
          has-reverse c left,
          freed.0 c,
          freed'.0 c,
          freed''.0 c,
          freed'.1 c,
          freed''.1 c,
        ),
        λ c m. ground (arith, shared.all c, has-reverse c left, freed.1 c, freed'.1 c, freed''.1 c),
      ),
      λ c m. ground (arith, same c, same' c, same'' c, shared.all c, has-reverse c left),
    )

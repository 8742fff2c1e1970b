-- ===== src/Fifo/Queue.antt =====
-- core/fifo.c as a queue, first in first out.
use mathlib.Core.List.{reverse, reverse-cons, reverse-append, append-nil}
use syswatcher.Base.{
  ℕ, ◌≡◌, refl, subst, Bool, has-append, true, false, List, [], ◌∷◌, ◌++◌, arith, has, length, ◌<◌,
  Option, none, some, ◌==◌,
}
use syswatcher.ListHead.{Ptr, null, Heap, Cmd, ok, pure, ◌>>=◌, ◌>>◌, reads, free, update}
use syswatcher.ListHead.Ring.{Ring, SameOutside, last_of, Seg-prev, readable_of_has}
use syswatcher.ListHead.Insert.{list_add-Inserted}
use syswatcher.ListHead.Remove.{list_del-Removed}
use syswatcher.ListHead.Traverse.{Freed, list_for_each_safe-clear}
use syswatcher.Fifo.{FifoHead, push, pop, clear_all_node, del_fifo}

-- The queue holds the nodes `q`, oldest first, and is open.
pub record IsFifo (h : Heap) (f : FifoHead) (q : List Ptr) : Type 0 where
  pub ring : Ring h f.head (reverse q)
  pub open_ : f.exit_flag ≡ false

-- What `pop` returns, as a pointer.
abbrev pub as_ptr : Option Ptr → Ptr
as_ptr none = null
as_ptr (some p) = p

pub data Op : Type 0 where
  pushes : Ptr → Op
  pops : Op

-- The specification: a list, oldest first.
abbrev pub oldest : List Ptr → Option Ptr
oldest [] = none
oldest (x ∷ q) = some x

abbrev pub rest : List Ptr → List Ptr
rest [] = []
rest (x ∷ q) = q

last_of-append_one : (a x : Ptr) (xs : List Ptr) → last_of a (xs ++ x ∷ []) ≡ x
last_of-append_one a x [] = refl
last_of-append_one a x (y ∷ xs) = last_of-append_one y x xs

module _ (h : Heap) (f : FifoHead) where
  push-IsFifo :
      (node : Ptr) (q : List Ptr)
      → IsFifo h f q
      → reads h node ≡ true
      → has node (f.head ∷ reverse q) ≡ false
      → (g : Heap) × (push f node h ≡ ok tt g) × IsFifo g f (q ++ node ∷ []) × (g.live ≡ h.live)
  unfolding push
  push-IsFifo node q is live out =
      let (g, e, ins) = list_add-Inserted is.ring live out in
      (
        g,
        rw is.open_ e,
        record { ring = rw (reverse-append q (node ∷ [])) ins.ring; open_ = is.open_ },
        ins.live,
      )

  pub pop-IsFifo :
      (q : List Ptr)
      → IsFifo h f q
      → (g : Heap) × (pop f h ≡ ok (as_ptr (oldest q)) g)
        × IsFifo g f (rest q)
        × (g.live ≡ h.live)
        × SameOutside (f.head ∷ reverse q) h g
  unfolding pop
  pop-IsFifo [] is =
      let e = is.open_ in
      (h, ground (arith, is.ring.readable, is.ring.linked), is, refl, λ c m. (refl, refl))
  pop-IsFifo (x ∷ q) is =
      let ring = subst (Ring h f.head) (reverse-cons x q) is.ring in
      let e = is.open_ in
      let (g, d, rem) = list_del-Removed (reverse q) [] ring in
      let last = Seg-prev h f.head f.head (reverse q ++ x ∷ []) ring.linked in
      let at = last_of-append_one f.head x (reverse q) in
      let inside = has-append x (f.head ∷ reverse q) (x ∷ []) in
      let live = readable_of_has h x (f.head ∷ reverse q ++ x ∷ []) ring.readable in
      let ne = has-append f.head (reverse q) (x ∷ []) in
      (
        g,
        ground (arith, ring.readable, ring.distinct),
        record { ring = rw append-nil at rem.ring; open_ = e },
        rem.live,
        λ c m. rem.same c (
            ground
              (arith, reverse-cons x q, has-append c (reverse q) (x ∷ []), append-nil (reverse q))),
      )

-- Histories of calls: what the code returns and leaves, and what the specification does.
pub run : FifoHead → List Op → Cmd (List Ptr)
run f [] = pure []
run f (pushes node ∷ os) = push f node >> run f os
run f (pops ∷ os) = do p ← pop f; ps ← run f os; pure (p ∷ ps)

abbrev popped : List Ptr → List Op → List Ptr
popped q [] = []
popped q (pushes node ∷ os) = popped (q ++ node ∷ []) os
popped q (pops ∷ os) = as_ptr (oldest q) ∷ popped (rest q) os

abbrev left : List Ptr → List Op → List Ptr
left q [] = q
left q (pushes node ∷ os) = left (q ++ node ∷ []) os
left q (pops ∷ os) = left (rest q) os

-- Each node pushed is a live block that is not in the queue at that time.
abbrev Allowed : (Ptr → Bool) → Ptr → List Ptr → List Op → Type 0
Allowed live head q [] = Unit
Allowed live head q (pushes node ∷ os) =
    ((node == null) ≡ false)
    × (live node ≡ true)
    × (has node (head ∷ reverse q) ≡ false)
    × Allowed live head (q ++ node ∷ []) os
Allowed live head q (pops ∷ os) = Allowed live head (rest q) os

-- Any history of pushes and pops of an open queue, where each node pushed is live and not queued at
-- that time, returns what the list specification returns, and leaves what it leaves: the nodes come
-- out in the order in which they went in.
pub run-popped :
    (f : FifoHead) (os : List Op) {h : Heap} {q : List Ptr}
    → IsFifo h f q
    → Allowed h.live f.head q os
    → (g : Heap) × (run f os h ≡ ok (popped q os) g) × IsFifo g f (left q os)
unfolding run
run-popped f [] {h} is a = (h, refl, is)
run-popped f (pushes node ∷ os) {h} {q} is (ne, live, out, a) =
    let (g, e, is', same) = push-IsFifo h f node q is (ground arith) out in
    let (g', e', is'') = run-popped f os is' (rw same a) in (g', rw e e', is'')
run-popped f (pops ∷ os) {h} {q} is a =
    let (g, e, is', same, _) = pop-IsFifo h f q is in
    let (g', e', is'') = run-popped f os is' (rw same a) in (g', rw (e, e'), is'')

-- A queue that is closed takes no node and gives none.
pub closed_fifo :
    (h : Heap) (f : FifoHead) (node : Ptr)
    → f.exit_flag ≡ true
    → (push f node h ≡ ok tt h) × (pop f h ≡ ok null h)
unfolding push pop
closed_fifo h f node e = (rw e, rw e)

-- On a queue with fewer nodes than fuel, `del_fifo` ends, and frees the head and every node that is
-- still queued, and nothing else; no link outside of the queue changes.
pub del_fifo-Freed :
    {h : Heap} (f : FifoHead) {xs : List Ptr} (fuel : ℕ)
    → Ring h f.head xs
    → length xs < fuel
    → (g : Heap) × (del_fifo fuel f h ≡ ok tt g)
      × Freed (f.head ∷ xs) h g
      × SameOutside (f.head ∷ xs) h g
unfolding del_fifo clear_all_node free
del_fifo-Freed {h} f {xs} fuel ring enough =
    let (g, e, empty, freed, same) = list_for_each_safe-clear fuel ring enough in
    let r = empty.readable.0 in
    (
      record g { live = update g.live f.head false },
      rw (e, r),
      (λ c m. ground (arith, freed.0 c), λ c m. ground (arith, freed.1 c)),
      same,
    )

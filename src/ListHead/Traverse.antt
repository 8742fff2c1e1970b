-- ===== src/ListHead/Traverse.antt =====
-- The loops list_for_each and list_for_each_safe of include/list.h.
use mathlib.Core.List.{foldl}
use syswatcher.Base.{
  zero, suc, ◌<◌, ℕ, ◌≡◌, refl, true, false, List, [], ◌∷◌, arith, has, length, ◌==◌, All,
}
use syswatcher.ListHead.{
  Ptr, Heap, Cmd, ok, fault, pure, ◌>>◌, reads, update, get_next, list_del, free, for_each_from,
  list_for_each, for_each_safe_from, list_for_each_safe,
}
use syswatcher.ListHead.Ring.{
  Seg, Ring, first_of, has-first_of, readable_of_has, Seg-next, Seg-frame, SameOutside,
}
use syswatcher.ListHead.Remove.{list_del-Removed}

get_next-ok : (h : Heap) (p : Ptr) → reads h p ≡ true → get_next p h ≡ ok (h.next p) h
unfolding get_next
get_next-ok h p r = rw r

module _ {ℓ} {S : Type ℓ} (f : Ptr → S → S) (h : Heap) (head : Ptr) where
  for_each_from-foldl :
      (k : ℕ) (a : Ptr) (xs : List Ptr) (s : S)
      → Seg h a xs head
      → has head xs ≡ false
      → All (λ p. reads h p ≡ true) xs
      → length xs < k
      → for_each_from k (λ p t. pure (f p t)) (first_of xs head) head s h
        ≡ ok (foldl (λ t p. f p t) s xs) h
  unfolding for_each_from
  for_each_from-foldl zero a xs s seg out r fuel = absurd (omega arith)
  for_each_from-foldl (suc k) a [] s seg out r fuel = ground arith
  for_each_from-foldl (suc k) a (x ∷ xs) s seg out r fuel =
      let ih = for_each_from-foldl k x xs (f x s) seg.1 (ground arith) r.1 (omega arith) in
      let e : (x == head) ≡ false = ground arith in
      rw (e, get_next-ok h x r.0, Seg-next h x head xs seg.1) ih

-- On a well-formed ring with fewer nodes than fuel, `list_for_each` with a body that leaves the heap
-- alone ends, and has gone through every node once, in order.
pub list_for_each-foldl {ℓ} :
    {S : Type ℓ} {h : Heap} {head : Ptr} (xs : List Ptr) (f : Ptr → S → S) (s : S) (fuel : ℕ)
    → Ring h head xs
    → length xs < fuel
    → list_for_each fuel (λ p t. pure (f p t)) head s h ≡ ok (foldl (λ t p. f p t) s xs) h
unfolding list_for_each
list_for_each-foldl {h} {head} xs f s fuel ring enough =
    rw (get_next-ok h head ring.readable.0, Seg-next h head head xs ring.linked)
      (for_each_from-foldl f h head fuel head xs s ring.linked ring.distinct.0 ring.readable.1
        enough)

-- The body of `_clear_all_node`: take the node out, and free it.
abbrev pub drop_node : Ptr → Unit {0} → Cmd (Unit {0})
drop_node p _ = list_del p >> free p

-- Every node is freed, every other one lives on as before.
abbrev pub Freed : List Ptr → Heap → Heap → Type 0
Freed xs h g =
    ((c : Ptr) → has c xs ≡ true → g.live c ≡ false)
    × ((c : Ptr) → has c xs ≡ false → g.live c ≡ h.live c)

All-freed :
    (h : Heap) (x : Ptr) (xs : List Ptr)
    → has x xs ≡ false
    → All (λ p. reads h p ≡ true) xs
    → All (λ p. reads (record h { live = update h.live x false }) p ≡ true) xs
All-freed h x [] out r = tt
All-freed h x (y ∷ xs) out r = (ground arith, All-freed h x xs (ground arith) r.1)

-- One round of the loop, with what the next round needs.
drop_node-ok :
    (h : Heap) (head x : Ptr) (xs : List Ptr)
    → Ring h head (x ∷ xs)
    → (g : Heap) × (drop_node x tt h ≡ ok tt g)
      × Ring g head xs
      × Freed (x ∷ []) h g
      × SameOutside (x ∷ head ∷ xs) h g
unfolding free
drop_node-ok h head x xs ring =
    let (g, e, rem) = list_del-Removed [] xs ring in
    let g' = record g { live = update g.live x false } in
    let live = rem.live in
    let old = ring.readable.1.0 in
    (
      g',
      rw e (ground arith),
      record {
        linked =
            Seg-frame g g' head head xs rem.ring.linked
              (record { next = λ c m. refl; prev = λ c m. refl });
        distinct = rem.ring.distinct;
        readable = All-freed g x (head ∷ xs) (ground (arith, ring.distinct)) rem.ring.readable;
      },
      (λ c m. ground arith, λ c m. ground arith),
      rem.same,
    )

module _ (head : Ptr) where
  for_each_safe_from-clear :
      (k : ℕ) (h : Heap) (xs : List Ptr)
      → Ring h head xs
      → length xs < k
      → (g : Heap) × (for_each_safe_from k drop_node
            (first_of xs head)
            (h.next (first_of xs head))
            head
            tt
            h
          ≡ ok tt g)
        × Ring g head []
        × Freed xs h g
        × SameOutside (head ∷ xs) h g
  unfolding for_each_safe_from
  for_each_safe_from-clear zero h xs ring enough = absurd (omega arith)
  for_each_safe_from-clear (suc k) h [] ring enough =
      (h, ground arith, ring, (λ c m. cc, λ c m. refl), λ c m. (refl, refl))
  for_each_safe_from-clear (suc k) h (x ∷ xs) ring enough =
      let (g, e, ring', freed, same) = drop_node-ok h head x xs ring in
      let (g', e', ring'', freed', same') = for_each_safe_from-clear k g xs ring' (omega arith) in
      let ne : (x == head) ≡ false = ground (arith, ring.distinct) in
      let n = first_of xs head in
      let ok_n = readable_of_has g n (head ∷ xs) ring'.readable (has-first_of xs head) in
      (
        g',
        rw (ne, e, Seg-next h x head xs ring.linked.1, get_next-ok g n ok_n) e',
        ring'',
        (
          λ c m. ground (arith, freed.0 c, freed'.0 c, freed'.1 c),
          λ c m. ground (arith, freed.1 c, freed'.1 c),
        ),
        λ c m. ground (arith, same c, same' c),
      )

-- On a well-formed ring with fewer nodes than fuel, `list_for_each_safe` with a body that takes out
-- and frees its node ends, leaves an empty ring, has freed exactly the nodes, and changes no
-- link outside of the ring.
pub list_for_each_safe-clear :
    {h : Heap} {head : Ptr} {xs : List Ptr} (fuel : ℕ)
    → Ring h head xs
    → length xs < fuel
    → (g : Heap) × (list_for_each_safe fuel drop_node head tt h ≡ ok tt g)
      × Ring g head []
      × Freed xs h g
      × SameOutside (head ∷ xs) h g
unfolding list_for_each_safe
list_for_each_safe-clear {h} {head} {xs} fuel ring enough =
    let (g, e, empty, freed, same) = for_each_safe_from-clear head fuel h xs ring enough in
    let n = first_of xs head in
    let ok_n = readable_of_has h n (head ∷ xs) ring.readable (has-first_of xs head) in
    (
      g,
      rw
          (
            get_next-ok h head ring.readable.0,
            Seg-next h head head xs ring.linked,
            get_next-ok h n ok_n,
          )
          e,
      empty,
      freed,
      same,
    )

-- `list_for_each` with that body, on a ring that is not empty, reads the link of a freed node: a fault.
pub list_for_each-drop_node :
    {h : Heap} {head x : Ptr} {xs : List Ptr} (fuel : ℕ)
    → Ring h head (x ∷ xs)
    → 0 < fuel
    → list_for_each fuel drop_node head tt h ≡ fault
unfolding list_for_each get_next
list_for_each-drop_node zero ring enough = absurd (omega arith)
list_for_each-drop_node {h} {head} {x} {xs} (suc k) ring enough =
    let (g, e, ring', freed, same) = drop_node-ok h head x xs ring in
    let ne : (x == head) ≡ false = ground (arith, ring.distinct) in
    let gone : reads g x ≡ false = ground (arith, freed.0 x) in
    rw (ring.readable.0, ring.linked.0.0, ne, e, gone)

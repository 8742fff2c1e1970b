-- ===== src/ListHead/Remove.antt =====
-- list_del of include/list.h.
use mathlib.Core.List.{append-nil}
use syswatcher.Base.{
  ◌≡◌, refl, true, false, List, [], ◌∷◌, ◌++◌, arith, has, has-append, Distinct, All,
}
use syswatcher.ListHead.{Ptr, null, Heap, ok, reads, update, list_del}
use syswatcher.ListHead.Ring.{
  Seg, Ring, SameOutside, last_of, first_of, has-last_of, has-first_of, readable_of_has, Seg-next,
  Seg-prev, Seg-append, Seg-split, Seg-frame, Seg-retarget,
}

-- The heap after `list_del(x)`, whose neighbours were `p` and `n`.
abbrev pub cut_out : Heap → Ptr → Ptr → Ptr → Heap
cut_out h x p n = record h {
  prev = update (update h.prev n p) x null;
  next = update (update h.next p n) x null;
}

Distinct-left : (xs ys : List Ptr) → Distinct (xs ++ ys) → Distinct xs
Distinct-left [] ys d = tt
Distinct-left (x ∷ xs) ys d = (ground (arith, has-append x xs ys), Distinct-left xs ys d.1)

Distinct-right : (xs ys : List Ptr) → Distinct (xs ++ ys) → Distinct ys
Distinct-right [] ys d = d
Distinct-right (x ∷ xs) ys d = Distinct-right xs ys d.1

Distinct-apart :
    (c : Ptr) (xs ys : List Ptr) → Distinct (xs ++ ys) → has c xs ≡ true → has c ys ≡ false
Distinct-apart c [] ys d m = cc
Distinct-apart c (x ∷ xs) ys d m = ground (arith, has-append x xs ys, Distinct-apart c xs ys d.1)

Distinct-drop : (x : Ptr) (xs ys : List Ptr) → Distinct (xs ++ x ∷ ys) → Distinct (xs ++ ys)
Distinct-drop x [] ys d = d.1
Distinct-drop x (y ∷ xs) ys d =
    (ground (arith, has-append y xs (x ∷ ys), has-append y xs ys), Distinct-drop x xs ys d.1)

pub Distinct-once :
    (x : Ptr) (xs ys : List Ptr) → Distinct (xs ++ x ∷ ys) → has x (xs ++ ys) ≡ false
Distinct-once x [] ys d = d.0
Distinct-once x (y ∷ xs) ys d = ground (arith, Distinct-once x xs ys d.1, has-append y xs (x ∷ ys))

All-drop :
    (h : Heap) (x : Ptr) (xs ys : List Ptr)
    → All (λ p. reads h p ≡ true) (xs ++ x ∷ ys)
    → (reads h x ≡ true) × All (λ p. reads h p ≡ true) (xs ++ ys)
All-drop h x [] ys r = r
All-drop h x (y ∷ xs) ys r = let t = All-drop h x xs ys r.1 in (t.0, (r.0, t.1))

module _ (h : Heap) (head x : Ptr) (xs : List Ptr) where
  -- Before `x` the last node now leads to what followed `x`.
  front-Seg :
      (ys : List Ptr)
      → Seg h head xs x
      → Distinct (head ∷ xs ++ x ∷ ys)
      → Seg (cut_out h x (last_of head xs) (first_of ys head)) head xs (first_of ys head)
  front-Seg ys s d =
      let g = cut_out h x (last_of head xs) (first_of ys head) in
      let m = has-last_of head xs in
      let n = has-first_of ys head in
      let apart = λ (c : Ptr). Distinct-apart c (head ∷ xs) (x ∷ ys) d in
      let free = Distinct-left (head ∷ xs) (x ∷ ys) d in
      Seg-retarget h g head x (first_of ys head) xs s free
        (ground (arith, apart (first_of ys head))) (ground (arith, apart (last_of head xs)))
        (ground (arith, Distinct-right (head ∷ xs) (x ∷ ys) d, apart head))
        (λ c i ne. ground (arith, apart c)) (λ c i. ground (arith, apart c, apart head))

  list_del-Seg :
      (ys : List Ptr)
      → Seg h head xs x
      → Seg h x ys head
      → Distinct (head ∷ xs ++ x ∷ ys)
      → Seg (cut_out h x (last_of head xs) (first_of ys head)) head (xs ++ ys) head
  list_del-Seg [] s t d = rw append-nil (front-Seg [] s d)
  list_del-Seg (y ∷ r) s t d =
      let g = cut_out h x (last_of head xs) y in
      let m = has-last_of head xs in
      let apart = λ (c : Ptr). Distinct-apart c (head ∷ xs) (x ∷ y ∷ r) d in
      let back = Distinct-right (head ∷ xs) (x ∷ y ∷ r) d in
      Seg-append g head y head xs r (front-Seg (y ∷ r) s d) (
        Seg-frame h g y head r t.1 (record {
          next = λ c i. ground (arith, apart (last_of head xs));
          prev = λ c i. ground (arith, has-append c r (head ∷ []), apart head);
        }))

-- What `list_del` leaves behind: the other nodes in their order, and the node cut off by NULLs.
pub record Removed (h : Heap) (head x : Ptr) (xs ys : List Ptr) (g : Heap) : Type 0 where
  pub ring : Ring g head (xs ++ ys)
  pub live : g.live ≡ h.live
  pub next_null : g.next x ≡ null
  pub prev_null : g.prev x ≡ null
  pub same : SameOutside (x ∷ head ∷ xs ++ ys) h g

module _ {h : Heap} {head x : Ptr} (xs ys : List Ptr) (ring : Ring h head (xs ++ x ∷ ys)) where
  open ring use {linked, distinct, readable}

  -- On a well-formed ring, `list_del` of one of its nodes succeeds: the ring is well-formed without it,
  -- its links are NULL, and what is neither in the ring nor the node is unchanged.
  pub list_del-Removed : (g : Heap) × (list_del x h ≡ ok tt g) × Removed h head x xs ys g
  unfolding list_del
  list_del-Removed =
      let st = Seg-split h head x head xs ys linked in
      let p = last_of head xs in
      let n = first_of ys head in
      let all = All-drop h x (head ∷ xs) ys readable in
      let e = Seg-prev h head x xs st.0 in
      let f = Seg-next h x head ys st.1 in
      let i = has-last_of head xs in
      let j = has-first_of ys head in
      let k = has-append p xs ys in
      let l = has-append n xs ys in
      let rp = readable_of_has h p (head ∷ xs ++ ys) all.1 in
      let rn = readable_of_has h n (head ∷ xs ++ ys) all.1 in
      (
        cut_out h x p n,
        ground arith,
        record {
          ring = record {
            linked = list_del-Seg h head x xs ys st.0 st.1 distinct;
            distinct = Distinct-drop x (head ∷ xs) ys distinct;
            readable = all.1;
          };
          live = refl;
          next_null = ground arith;
          prev_null = ground arith;
          same = λ c o. ground (arith, has-append c xs ys);
        },
      )

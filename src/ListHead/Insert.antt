-- ===== src/ListHead/Insert.antt =====
-- list_add and list_add_tail of include/list.h.
use syswatcher.Base.{
  ◌≡◌, refl, true, false, List, [], ◌∷◌, ◌++◌, arith, has, has-append, Distinct, All,
}
use syswatcher.ListHead.{Ptr, Heap, ok, reads, update, link_between, list_add, list_add_tail}
use syswatcher.ListHead.Ring.{
  Seg, Ring, SameOutside, last_of, first_of, has-last_of, has-first_of, readable_of_has, Seg-next,
  Seg-prev, Seg-append, Seg-frame, Seg-retarget,
}

-- The heap after `__list_add(new, p, n)`.
abbrev pub linked_in : Heap → Ptr → Ptr → Ptr → Heap
linked_in h new p n = record h {
  prev = update (update h.prev n new) new p;
  next = update (update h.next new n) p new;
}

link_between-ok :
    (h : Heap) (new p n : Ptr)
    → reads h new ≡ true
    → reads h p ≡ true
    → reads h n ≡ true
    → link_between new p n h ≡ ok tt (linked_in h new p n)
unfolding link_between
link_between-ok h new p n a b c = ground arith

pub Distinct-append_one :
    (new : Ptr) (xs : List Ptr) → has new xs ≡ false → Distinct xs → Distinct (xs ++ new ∷ [])
Distinct-append_one new [] out d = (refl, tt)
Distinct-append_one new (x ∷ xs) out d =
    (ground (arith, has-append x xs (new ∷ [])), Distinct-append_one new xs (ground arith) d.1)

list_add-Seg :
    (h : Heap) (head new : Ptr) (ys : List Ptr)
    → Seg h head ys head
    → Distinct (head ∷ ys)
    → has new (head ∷ ys) ≡ false
    → Seg (linked_in h new head (first_of ys head)) head (new ∷ ys) head
list_add-Seg h head new [] s d out = (ground arith, ground arith)
list_add-Seg h head new (x ∷ r) s d out = (
  ground arith,
  (
    ground arith,
    Seg-frame h (linked_in h new head x) x head r s.1 (record {
      next = λ c m. ground arith;
      prev = λ c m. ground (arith, has-append c r (head ∷ []), has-append x r (head ∷ []));
    }),
  ),
)

list_add_tail-Seg :
    (h : Heap) (head new : Ptr) (ys : List Ptr)
    → Seg h head ys head
    → Distinct (head ∷ ys)
    → has new (head ∷ ys) ≡ false
    → Seg (linked_in h new (last_of head ys) head) head (ys ++ new ∷ []) head
list_add_tail-Seg h head new ys s d out =
    let g = linked_in h new (last_of head ys) head in
    let m = has-last_of head ys in
    Seg-append g head new head ys []
      (Seg-retarget h g head head new ys s d (ground arith) (ground arith) (ground arith)
        (λ c i ne. ground arith) (λ c i. ground arith))
      (ground arith, ground arith)

pub All-append_one :
    (h : Heap) (new : Ptr) (xs : List Ptr)
    → reads h new ≡ true
    → All (λ p. reads h p ≡ true) xs
    → All (λ p. reads h p ≡ true) (xs ++ new ∷ [])
All-append_one h new [] live r = (live, tt)
All-append_one h new (x ∷ xs) live r = (r.0, All-append_one h new xs live r.1)

-- What both functions do to the heap, besides the order of the nodes.
pub record Inserted (h : Heap) (head new : Ptr) (xs ys : List Ptr) (g : Heap) : Type 0 where
  pub ring : Ring g head ys
  pub live : g.live ≡ h.live
  pub same : SameOutside (new ∷ head ∷ xs) h g

module _ {h : Heap} {head new : Ptr} {xs : List Ptr} (ring : Ring h head xs)
    (live : reads h new ≡ true) (out : has new (head ∷ xs) ≡ false) where
  open ring use {linked, distinct, readable}

  -- On a well-formed ring, `list_add` of a readable node that is not in it succeeds: the ring is
  -- well-formed with the new node first, and what is neither in it nor the new node is unchanged.
  pub list_add-Inserted :
      (g : Heap) × (list_add new head h ≡ ok tt g) × Inserted h head new xs (new ∷ xs) g
  unfolding list_add
  list_add-Inserted =
      let e = Seg-next h head head xs linked in
      let m = readable_of_has h (first_of xs head) (head ∷ xs) readable (has-first_of xs head) in
      (
        linked_in h new head (first_of xs head),
        ground arith,
        record {
          ring = record {
            linked = list_add-Seg h head new xs linked distinct out;
            distinct = (ground arith, (ground arith, distinct.1));
            readable = (readable.0, (live, readable.1));
          };
          live = refl;
          same = λ c o. ground (arith, has-first_of xs head);
        },
      )

  -- On a well-formed ring, `list_add_tail` of a readable node that is not in it succeeds: the ring is
  -- well-formed with the new node last, and what is neither in it nor the new node is unchanged.
  pub list_add_tail-Inserted :
      (g : Heap) × (list_add_tail new head h ≡ ok tt g) × Inserted h head new xs (xs ++ new ∷ []) g
  unfolding list_add_tail
  list_add_tail-Inserted =
      let e = Seg-prev h head head xs linked in
      let m = readable_of_has h (last_of head xs) (head ∷ xs) readable (has-last_of head xs) in
      (
        linked_in h new (last_of head xs) head,
        ground arith,
        record {
          ring = record {
            linked = list_add_tail-Seg h head new xs linked distinct out;
            distinct = Distinct-append_one new (head ∷ xs) out distinct;
            readable = All-append_one h new (head ∷ xs) live readable;
          };
          live = refl;
          same = λ c o. ground (arith, has-last_of head xs);
        },
      )

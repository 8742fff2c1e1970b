-- ===== src/ListHead/Ring.antt =====
-- What a circular list of include/list.h stands for: the sequence of its nodes.
use syswatcher.Base.{◌≡◌, ◌≢◌, true, false, List, [], ◌∷◌, ◌++◌, arith, has, Distinct, All}
use syswatcher.ListHead.{Ptr, Heap, reads}

-- `b` follows `a`, both ways.
abbrev pub Linked : Heap → Ptr → Ptr → Type 0
Linked h a b = (h.next a ≡ b) × (h.prev b ≡ a)

-- From `a` the links lead through `xs` to `b`.
abbrev pub Seg : Heap → Ptr → List Ptr → Ptr → Type 0
Seg h a [] b = Linked h a b
Seg h a (x ∷ xs) b = Linked h a x × Seg h x xs b

-- The last node of `a ∷ xs`.
abbrev pub last_of : Ptr → List Ptr → Ptr
last_of a [] = a
last_of a (x ∷ xs) = last_of x xs

-- The first node of `xs ++ b`.
abbrev pub first_of : List Ptr → Ptr → Ptr
first_of [] b = b
first_of (x ∷ xs) b = x

-- `head` is the head of a list with the nodes `xs`, all of them live and distinct.
pub record Ring (h : Heap) (head : Ptr) (xs : List Ptr) : Type 0 where
  pub linked : Seg h head xs head
  pub distinct : Distinct (head ∷ xs)
  pub readable : All (λ p. reads h p ≡ true) (head ∷ xs)

pub has-last_of : (a : Ptr) (xs : List Ptr) → has (last_of a xs) (a ∷ xs) ≡ true
has-last_of a [] = ground arith
has-last_of a (x ∷ xs) = ground (arith, has-last_of x xs)

pub has-first_of : (xs : List Ptr) (b : Ptr) → has (first_of xs b) (b ∷ xs) ≡ true
has-first_of [] b = ground arith
has-first_of (x ∷ xs) b = ground arith

-- The nodes outside `xs` keep their links.
abbrev pub SameOutside : List Ptr → Heap → Heap → Type 0
SameOutside xs h g = (c : Ptr) → has c xs ≡ false → (g.next c ≡ h.next c) × (g.prev c ≡ h.prev c)

pub readable_of_has :
    (h : Heap) (a : Ptr) (xs : List Ptr)
    → All (λ p. reads h p ≡ true) xs
    → has a xs ≡ true
    → reads h a ≡ true
readable_of_has h a [] r m = cc
readable_of_has h a (x ∷ xs) r m = ground (arith, readable_of_has h a xs r.1)

module _ (h : Heap) where
  pub Seg-next : (a b : Ptr) (xs : List Ptr) → Seg h a xs b → h.next a ≡ first_of xs b
  Seg-next a b [] s = s.0
  Seg-next a b (x ∷ xs) s = s.0.0

  pub Seg-prev : (a b : Ptr) (xs : List Ptr) → Seg h a xs b → h.prev b ≡ last_of a xs
  Seg-prev a b [] s = s.1
  Seg-prev a b (x ∷ xs) s = Seg-prev x b xs s.1

  pub Seg-append :
      (a x b : Ptr) (xs ys : List Ptr) → Seg h a xs x → Seg h x ys b → Seg h a (xs ++ x ∷ ys) b
  Seg-append a x b [] ys s t = (s, t)
  Seg-append a x b (y ∷ xs) ys s t = (s.0, Seg-append y x b xs ys s.1 t)

  pub Seg-split :
      (a x b : Ptr) (xs ys : List Ptr) → Seg h a (xs ++ x ∷ ys) b → Seg h a xs x × Seg h x ys b
  Seg-split a x b [] ys s = s
  Seg-split a x b (y ∷ xs) ys s = let t = Seg-split y x b xs ys s.1 in ((s.0, t.0), t.1)

-- The heaps agree on the links that a segment from `a` through `xs` to `b` uses.
pub record SameLinks (h g : Heap) (a : Ptr) (xs : List Ptr) (b : Ptr) : Type 0 where
  pub next : (c : Ptr) → has c (a ∷ xs) ≡ true → g.next c ≡ h.next c
  pub prev : (c : Ptr) → has c (xs ++ b ∷ []) ≡ true → g.prev c ≡ h.prev c

module _ (h g : Heap) where
  pub Seg-frame : (a b : Ptr) (xs : List Ptr) → Seg h a xs b → SameLinks h g a xs b → Seg g a xs b
  Seg-frame a b [] s same = ground (arith, same.next a, same.prev b)
  Seg-frame a b (x ∷ xs) s same = (
    ground (arith, same.next a, same.prev x),
    Seg-frame x b xs s.1 (record {
      next = λ c m. same.next c (ground arith);
      prev = λ c m. same.prev c (ground arith);
    }),
  )

  -- A segment led to `x`; now its last node leads to `n`.
  pub Seg-retarget :
      (a x n : Ptr) (xs : List Ptr)
      → Seg h a xs x
      → Distinct (a ∷ xs)
      → has n xs ≡ false
      → g.next (last_of a xs) ≡ n
      → g.prev n ≡ last_of a xs
      → ((c : Ptr) → has c (a ∷ xs) ≡ true → c ≢ last_of a xs → g.next c ≡ h.next c)
      → ((c : Ptr) → has c xs ≡ true → g.prev c ≡ h.prev c)
      → Seg g a xs n
  Seg-retarget a x n [] s d out e f same_next same_prev = (e, f)
  Seg-retarget a x n (y ∷ xs) s d out e f same_next same_prev = (
    ground (arith, same_next a, same_prev y, has-last_of y xs),
    Seg-retarget y x n xs s.1 d.1 (ground arith) e f (λ c m ne. same_next c (ground arith) ne)
        (λ c m. same_prev c (ground arith)),
  )

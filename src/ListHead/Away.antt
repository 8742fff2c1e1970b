-- ===== src/ListHead/Away.antt =====
-- Circular lists of include/list.h that share a heap: what is done to the nodes of one leaves those
-- that are apart from it alone.
use syswatcher.Base.{◌≡◌, ◌∙◌, true, false, List, [], ◌∷◌, ◌++◌, arith, has, has-append, All}
use syswatcher.ListHead.{Ptr, Heap, reads}
use syswatcher.ListHead.Ring.{Ring, SameOutside, Seg-frame}
use syswatcher.ListHead.Traverse.{Freed}

abbrev pub Apart : List Ptr → List Ptr → Type 0
Apart xs ys = (c : Ptr) → has c xs ≡ true → has c ys ≡ false

-- The nodes outside `xs` keep their links, and live on or not as before.
abbrev pub Away : List Ptr → Heap → Heap → Type 0
Away xs h g = SameOutside xs h g × ((c : Ptr) → has c xs ≡ false → g.live c ≡ h.live c)

pub Apart-sym : (xs ys : List Ptr) → Apart xs ys → Apart ys xs
Apart-sym xs ys apart c m = ground (arith, apart c)

module _ (h g : Heap) (zs : List Ptr) (away : Away zs h g) where
  All-Away :
      (xs : List Ptr)
      → Apart xs zs
      → All (λ p. reads h p ≡ true) xs
      → All (λ p. reads g p ≡ true) xs
  All-Away [] apart r = tt
  All-Away (x ∷ xs) apart r =
      (ground (arith, away.1 x, apart x), All-Away xs (λ c m. apart c (ground arith)) r.1)

  pub Ring-Away :
      (head : Ptr) (xs : List Ptr) → Ring h head xs → Apart (head ∷ xs) zs → Ring g head xs
  Ring-Away head xs ring apart = record {
    linked = Seg-frame h g head head xs ring.linked (record {
      next = λ c m. (away.0 c (apart c m)).0;
      prev = λ c m. (away.0 c (apart c (ground (arith, has-append c xs (head ∷ []))))).1;
    });
    distinct = ring.distinct;
    readable = All-Away (head ∷ xs) apart ring.readable;
  }

-- Freeing one list of nodes, and then another.
pub Freed-append :
    (xs ys : List Ptr) (h g i : Heap) → Freed xs h g → Freed ys g i → Freed (xs ++ ys) h i
Freed-append xs ys h g i a b = (
  λ c m. ground (arith, has-append c xs ys, a.0 c, b.0 c, b.1 c),
  λ c m. ground (arith, has-append c xs ys, a.1 c, b.1 c),
)

pub SameOutside-append :
    (xs ys : List Ptr) (h g i : Heap)
    → SameOutside xs h g
    → SameOutside ys g i
    → SameOutside (xs ++ ys) h i
SameOutside-append xs ys h g i a b c m =
    let out : has c xs ≡ false = ground (arith, has-append c xs ys) in
    let out' : has c ys ≡ false = ground (arith, has-append c xs ys) in
    ((b c out').0 ∙ (a c out).0, (b c out').1 ∙ (a c out).1)

pub SameOutside-weaken :
    (x : Ptr) (xs : List Ptr) (h g : Heap) → SameOutside xs h g → SameOutside (x ∷ xs) h g
SameOutside-weaken x xs h g same c m = same c (ground arith)

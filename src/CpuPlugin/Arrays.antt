-- ===== src/CpuPlugin/Arrays.antt =====
-- The accesses to arrays in plugins/mod_cpu/libcpu.c.
use syswatcher.Base.{
  ℕ, zero, suc, ◌+◌, ◌≤◌, ◌<◌, ◌≡◌, refl, ap, ◌∙◌, some, List, [], ◌∷◌, ◌++◌, length, length-append,
  arith,
}
use syswatcher.CpuPlugin.{entry, set_entry, set_entries}

pub entry-some {ℓ} :
    {A : Type ℓ} (n : ℕ) (xs : List A) → n < length xs → (x : A) × (entry n xs ≡ some x)
unfolding entry
entry-some n [] h = absurd (omega arith)
entry-some zero (x ∷ xs) h = (x, refl)
entry-some (suc n) (x ∷ xs) h = entry-some n xs (omega arith)

pub set_entry-some {ℓ} :
    {A : Type ℓ} (n : ℕ) (v : A) (xs : List A)
    → n < length xs
    → (ys : List A) × (set_entry n v xs ≡ some ys) × (length ys ≡ length xs)
unfolding set_entry
set_entry-some n v [] h = absurd (omega arith)
set_entry-some zero v (x ∷ xs) h = (v ∷ xs, refl, refl)
set_entry-some (suc n) v (x ∷ xs) h =
    let (ys, e, l) = set_entry-some n v xs (omega arith) in (x ∷ ys, rw e refl, ap suc l)

set_entry-append {ℓ} :
    {A : Type ℓ} (v x : A) (done todo : List A)
    → set_entry (length done) v (done ++ x ∷ todo) ≡ some (done ++ v ∷ todo)
unfolding set_entry
set_entry-append v x [] todo = refl
set_entry-append v x (y ∷ done) todo = rw (set_entry-append v x done todo) refl

append-one {ℓ} :
    {A : Type ℓ} (done : List A) (v : A) (todo : List A) → done ++ v ∷ [] ++ todo ≡ done ++ v ∷ todo
append-one [] v todo = refl
append-one (x ∷ done) v todo = ap (◌∷◌ x) (append-one done v todo)

set_entries-step {ℓ} :
    {A : Type ℓ} (i : ℕ) (v : A) (vs xs ys : List A)
    → set_entry i v xs ≡ some ys
    → set_entries i (v ∷ vs) xs ≡ set_entries (i + 1) vs ys
unfolding set_entries
set_entries-step i v vs xs ys e = rw (e, set_entries) refl

-- Values that are written where `old` stood.
pub set_entries-append {ℓ} :
    {A : Type ℓ} (vs old done todo : List A)
    → length old ≡ length vs
    → set_entries (length done) vs (done ++ (old ++ todo)) ≡ some (done ++ (vs ++ todo))
set_entries-append [] [] done todo l = unfold set_entries in refl
set_entries-append [] (x ∷ old) done todo l = absurd (omega arith)
set_entries-append (v ∷ vs) [] done todo l = absurd (omega arith)
set_entries-append (v ∷ vs) (x ∷ old) done todo l =
    let next : length (done ++ v ∷ []) ≡ length done + 1 =
      omega (arith, length-append done (v ∷ [])) in
    let ih = set_entries-append vs old (done ++ v ∷ []) todo (omega arith) in
    set_entries-step (length done) v vs _ _ (set_entry-append v x done (old ++ todo))
    ∙ (rw (← next, ← append-one done v (old ++ todo)) ih ∙ ap some (append-one done v (vs ++ todo)))

-- A list of at least `n` entries, taken apart after the n-th.
pub split_at {ℓ} :
    {A : Type ℓ} (n : ℕ) (xs : List A)
    → n ≤ length xs
    → (front : List A) × (back : List A) × (xs ≡ front ++ back)
      × (length front ≡ n)
      × (length front + length back ≡ length xs)
split_at zero xs h = ([], xs, refl, refl, omega arith)
split_at (suc n) [] h = absurd (omega arith)
split_at (suc n) (x ∷ xs) h =
    let (front, back, e, l, both) = split_at n xs (omega arith) in
    (x ∷ front, back, ap (◌∷◌ x) e, ap suc l, omega (arith, both))

-- ===== src/DeviceTable/Refines.antt =====
-- The hash table as a set of names: seen_before and DFcleanup of plugins/mod_disk/libdisk.c.
use mathlib.Core.Path.{fun_ext}
use syswatcher.Base.{
  ℕ, zero, suc, ◌+◌, ◌<◌, ◌≡◌, ◌≢◌, refl, ap, ◌∙◌, Bool, true, false, ◌||◌, List, [], ◌∷◌, length,
  arith, inl, inr, Bool-cases,
}
use syswatcher.Channel.{Str}
use syswatcher.CString.{strcmp_eq, strcmp_eq_sound}
use syswatcher.DeviceTable.{
  dfhashsize, df_hash, Hashvector, chain_at, set_chain, find_name, DfState, seen_before,
}

-- Is the name in one of the chains?
unfoldable pub holds : Hashvector → Str → Bool
holds [] name = false
holds (chain ∷ t) name = find_name name chain || holds t name

-- Every name of a chain has the chain's number as its hash.
abbrev pub AllHash : ℕ → List Str → Type 0
AllHash i [] = Unit
AllHash i (n ∷ chain) = (df_hash n ≡ i) × AllHash i chain

-- The chains from number `i` on hold names of their hash.
abbrev pub Placed : ℕ → Hashvector → Type 0
Placed i [] = Unit
Placed i (chain ∷ t) = AllHash i chain × Placed (suc i) t

-- No name stands twice in a chain.
abbrev pub NoTwice : List Str → Type 0
NoTwice [] = Unit
NoTwice (n ∷ chain) = (find_name n chain ≡ false) × NoTwice chain

abbrev pub AllNoTwice : Hashvector → Type 0
AllNoTwice [] = Unit
AllNoTwice (chain ∷ t) = NoTwice chain × AllNoTwice t

pub record IsTable (t : Hashvector) : Type 0 where
  pub size : length t ≡ dfhashsize
  pub placed : Placed 0 t
  pub once : AllNoTwice t

find_name-hash :
    (i : ℕ) (x : Str) (chain : List Str)
    → AllHash i chain
    → df_hash x ≢ i
    → find_name x chain ≡ false
unfolding find_name
find_name-hash i x [] h ne = refl
find_name-hash i x (n ∷ chain) h ne = elim (Bool-cases (strcmp_eq x n)) [
  | inl same ↦ let e : x ≡ n = strcmp_eq_sound x n same in absurd (ne (ap df_hash e ∙ h.0))
  | inr other ↦ ground (arith, find_name-hash i x chain h.1 ne)
]

holds-below : (k : ℕ) (x : Str) (t : Hashvector) → Placed k t → df_hash x < k → holds t x ≡ false
unfolding holds
holds-below k x [] h lt = refl
holds-below k x (chain ∷ t) h lt =
    ground
      (arith, find_name-hash k x chain h.0 (omega arith), holds-below (suc k) x t h.1 (omega arith))

-- A name is in the table when it is in the chain of its hash.
pub holds-chain_at :
    (k i : ℕ) (x : Str) (t : Hashvector)
    → Placed k t
    → df_hash x ≡ k + i
    → holds t x ≡ find_name x (chain_at i t)
unfolding holds chain_at find_name
holds-chain_at k zero x [] h e = refl
holds-chain_at k (suc i) x [] h e = refl
holds-chain_at k zero x (chain ∷ t) h e = ground (arith, holds-below (suc k) x t h.1 (omega arith))
holds-chain_at k (suc i) x (chain ∷ t) h e = ground (
  arith,
  find_name-hash k x chain h.0 (omega arith),
  holds-chain_at (suc k) i x t h.1 (omega arith),
)

holds-set_chain :
    (i : ℕ) (x y : Str) (t : Hashvector)
    → i < length t
    → holds (set_chain i (x ∷ chain_at i t) t) y ≡ (strcmp_eq y x || holds t y)
unfolding holds set_chain chain_at find_name
holds-set_chain i x y [] h = absurd (omega arith)
holds-set_chain zero x y (chain ∷ t) h = ground arith
holds-set_chain (suc i) x y (chain ∷ t) h = ground (arith, holds-set_chain i x y t (omega arith))

length-set_chain : (i : ℕ) (c : List Str) (t : Hashvector) → length (set_chain i c t) ≡ length t
unfolding set_chain
length-set_chain i c [] = refl
length-set_chain zero c (d ∷ t) = refl
length-set_chain (suc i) c (d ∷ t) = ground (arith, length-set_chain i c t)

set_chain-Placed :
    (k i : ℕ) (x : Str) (t : Hashvector)
    → Placed k t
    → df_hash x ≡ k + i
    → Placed k (set_chain i (x ∷ chain_at i t) t)
unfolding set_chain chain_at
set_chain-Placed k i x [] h e = tt
set_chain-Placed k zero x (chain ∷ t) h e = ((omega arith, h.0), h.1)
set_chain-Placed k (suc i) x (chain ∷ t) h e =
    (h.0, set_chain-Placed (suc k) i x t h.1 (omega arith))

set_chain-AllNoTwice :
    (i : ℕ) (x : Str) (t : Hashvector)
    → AllNoTwice t
    → find_name x (chain_at i t) ≡ false
    → AllNoTwice (set_chain i (x ∷ chain_at i t) t)
unfolding set_chain chain_at
set_chain-AllNoTwice i x [] h new = tt
set_chain-AllNoTwice zero x (chain ∷ t) h new = ((new, h.0), h.1)
set_chain-AllNoTwice (suc i) x (chain ∷ t) h new = (h.0, set_chain-AllNoTwice i x t h.1 new)

pub df_hash-bounded : (x : Str) → df_hash x < dfhashsize
unfolding df_hash
df_hash-bounded x = omega arith

-- seen_before keeps the table well formed: 101 chains, each name in the chain of its hash, and no
-- name twice in a chain. So it does when an allocation fails.
pub seen_before-IsTable :
    (alloc : ℕ → Bool) (name : Str) (s : DfState)
    → IsTable s.table
    → IsTable (seen_before alloc name s).1.table
unfolding seen_before
seen_before-IsTable alloc name s h =
    let i = df_hash name in
    let placed = set_chain-Placed 0 i name s.table h.placed (omega arith) in
    elim (Bool-cases (find_name name (chain_at i s.table))) [
      | inl old ↦ rw old h
      | inr new ↦
          let once = set_chain-AllNoTwice i name s.table h.once new in
          let added : IsTable (set_chain i (name ∷ chain_at i s.table) s.table) = record {
            size = length-set_chain i (name ∷ chain_at i s.table) s.table ∙ h.size;
            placed = placed;
            once = once;
          } in
          ground (arith, added, h)
    ]

-- Whether the allocations succeed or not, seen_before answers whether the name is in the table.
pub seen_before-holds :
    (alloc : ℕ → Bool) (name : Str) (s : DfState)
    → IsTable s.table
    → (seen_before alloc name s).0 ≡ holds s.table name
unfolding seen_before
seen_before-holds alloc name s h =
    let e = holds-chain_at 0 (df_hash name) name s.table h.placed (omega arith) in ground arith

holds-add :
    (alloc : ℕ → Bool) (name : Str) (s : DfState)
    → ((n : ℕ) → alloc n ≡ true)
    → IsTable s.table
    → (other : Str)
    → holds (seen_before alloc name s).1.table other ≡ (strcmp_eq other name || holds s.table other)
unfolding seen_before
holds-add alloc name s ok h other =
    let i = df_hash name in
    let e = holds-chain_at 0 i name s.table h.placed (omega arith) in
    let lt : i < length s.table = omega (arith, h.size, df_hash-bounded name) in
    let added = holds-set_chain i name other s.table lt in
    elim (Bool-cases (strcmp_eq other name)) [
      | inl same ↦
          let eq : other ≡ name = strcmp_eq_sound other name same in
          ground (arith, ok s.allocs, ok (s.allocs + 1), ap (holds s.table) eq)
      | inr differs ↦ ground (arith, ok s.allocs, ok (s.allocs + 1))
    ]

-- On a well-formed table, and when the allocations succeed, seen_before is the operation of a set
-- of names: it answers whether the name is in the set, and the set after it is the set with the
-- name added.
pub seen_before-refines :
    (alloc : ℕ → Bool) (name : Str) (s : DfState)
    → ((n : ℕ) → alloc n ≡ true)
    → IsTable s.table
    → ((seen_before alloc name s).0 ≡ holds s.table name)
      × (holds (seen_before alloc name s).1.table
          ≡ (λ other. strcmp_eq other name || holds s.table other))
seen_before-refines alloc name s ok h =
    (seen_before-holds alloc name s h, fun_ext (holds-add alloc name s ok h))

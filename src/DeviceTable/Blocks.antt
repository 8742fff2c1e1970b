-- ===== src/DeviceTable/Blocks.antt =====
-- The blocks of the hash table, and what DFcleanup leaves (plugins/mod_disk/libdisk.c).
use syswatcher.Base.{
  ℕ, zero, suc, ◌+◌, ◌-◌, ◌*◌, ◌<◌, ◌≡◌, refl, ap, ◌∙◌, Bool, true, false, List, [], ◌∷◌, length,
  arith,
}
use syswatcher.Channel.{Str}
use syswatcher.DeviceTable.{
  dfhashsize, df_hash, Hashvector, chain_at, set_chain, find_name, DfState, seen_before, df_cleanup,
  free_chains, free_chain, empty_chains,
}
use syswatcher.DeviceTable.Refines.{holds, Placed, AllNoTwice, IsTable, df_hash-bounded}

-- The blocks that the nodes of the table take: each node and its name.
unfoldable pub blocks : Hashvector → ℕ
blocks [] = 0
blocks (chain ∷ t) = 2 * length chain + blocks t

blocks-set_chain :
    (i : ℕ) (x : Str) (t : Hashvector)
    → i < length t
    → blocks (set_chain i (x ∷ chain_at i t) t) ≡ blocks t + 2
unfolding blocks set_chain chain_at
blocks-set_chain i x [] h = absurd (omega arith)
blocks-set_chain zero x (chain ∷ t) h = omega arith
blocks-set_chain (suc i) x (chain ∷ t) h = omega (arith, blocks-set_chain i x t (omega arith))

-- When the allocations succeed, seen_before keeps the count of live blocks to those of the table.
pub seen_before-blocks :
    (alloc : ℕ → Bool) (name : Str) (s : DfState)
    → ((n : ℕ) → alloc n ≡ true)
    → IsTable s.table
    → s.live ≡ blocks s.table
    → (seen_before alloc name s).1.live ≡ blocks (seen_before alloc name s).1.table
unfolding seen_before
seen_before-blocks alloc name s ok h live =
    let lt : df_hash name < length s.table = omega (arith, h.size, df_hash-bounded name) in
    let added = blocks-set_chain (df_hash name) name s.table lt in
    ground (arith, ok s.allocs, ok (s.allocs + 1))

free_chain-live : (live : ℕ) (chain : List Str) → free_chain live chain ≡ live - 2 * length chain
unfolding free_chain
free_chain-live live [] = omega arith
free_chain-live live (n ∷ chain) = omega (arith, free_chain-live (live - 2) chain)

free_chains-live : (live : ℕ) (t : Hashvector) → (free_chains live t).0 ≡ live - blocks t
unfolding free_chains blocks
free_chains-live live [] = omega arith
free_chains-live live (chain ∷ t) =
    omega (arith, free_chain-live live chain, free_chains-live (free_chain live chain) t)

free_chains-empty : (live : ℕ) (t : Hashvector) → (free_chains live t).1 ≡ empty_chains (length t)
unfolding free_chains empty_chains
free_chains-empty live [] = refl
free_chains-empty live (chain ∷ t) = ap (◌∷◌ []) (free_chains-empty (free_chain live chain) t)

empty_chains-Placed : (k n : ℕ) → Placed k (empty_chains n)
unfolding empty_chains
empty_chains-Placed k zero = tt
empty_chains-Placed k (suc n) = (tt, empty_chains-Placed (suc k) n)

empty_chains-AllNoTwice : (n : ℕ) → AllNoTwice (empty_chains n)
unfolding empty_chains
empty_chains-AllNoTwice zero = tt
empty_chains-AllNoTwice (suc n) = (tt, empty_chains-AllNoTwice n)

length-empty_chains : (n : ℕ) → length (empty_chains n) ≡ n
unfolding empty_chains
length-empty_chains zero = refl
length-empty_chains (suc n) = ap suc (length-empty_chains n)

pub holds-empty_chains : (n : ℕ) (x : Str) → holds (empty_chains n) x ≡ false
unfolding empty_chains holds find_name
holds-empty_chains zero x = refl
holds-empty_chains (suc n) x = holds-empty_chains n x

pub blocks-empty_chains : (n : ℕ) → blocks (empty_chains n) ≡ 0
unfolding empty_chains blocks
blocks-empty_chains zero = refl
blocks-empty_chains (suc n) = omega (arith, blocks-empty_chains n)

-- The table as it is at first, and after each DFcleanup.
pub empty-IsTable : IsTable (empty_chains dfhashsize)
empty-IsTable = record {
  size = length-empty_chains dfhashsize;
  placed = empty_chains-Placed 0 dfhashsize;
  once = empty_chains-AllNoTwice dfhashsize;
}

-- DFcleanup leaves 101 empty chains and no live block, when the live blocks are the table's.
pub df_cleanup-empty :
    (s : DfState)
    → IsTable s.table
    → s.live ≡ blocks s.table
    → ((df_cleanup s).table ≡ empty_chains dfhashsize) × ((df_cleanup s).live ≡ 0)
unfolding df_cleanup
df_cleanup-empty s h live = (
  free_chains-empty s.live s.table ∙ ap empty_chains h.size,
  omega (arith, free_chains-live s.live s.table),
)

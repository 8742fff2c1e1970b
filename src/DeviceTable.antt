-- ===== src/DeviceTable.antt =====
-- The hash table of device names of the disk plugin (plugins/mod_disk/libdisk.c). malloc and strdup
-- are a function that says which allocation succeeds.
pub mod Refines
pub mod Blocks
mod Examples
use syswatcher.Base.{
  ℕ, zero, suc, ◌+◌, ◌-◌, ◌*◌, ◌%◌, ◌^◌, Bool, true, false, ◌||◌, not, List, [], ◌∷◌, ltb,
  if◌then◌else◌,
}
use syswatcher.Channel.{Str}
use syswatcher.CString.{strcmp_eq}

-- A `char` is signed: as an unsigned int, a byte from 128 on has all high bits set.
abbrev pub char_as_unsigned : ℕ → ℕ
char_as_unsigned c = if ltb c 128 then c else c + 2 ^ 32 - 256

abbrev pub dfhashsize : ℕ
dfhashsize = 101

unfoldable pub hash_loop : ℕ → Str → ℕ
hash_loop hashval [] = hashval
hash_loop hashval (c ∷ s) = hash_loop ((char_as_unsigned c + 31 * hashval) % 2 ^ 32) s

unfoldable pub df_hash : Str → ℕ
unfolding hash_loop
df_hash s = hash_loop 0 s % dfhashsize

-- The chains of DFhashvector, each as the names of its nodes.
abbrev pub Hashvector : Type 0
Hashvector = List (List Str)

unfoldable pub chain_at : ℕ → Hashvector → List Str
chain_at i [] = []
chain_at zero (chain ∷ t) = chain
chain_at (suc i) (chain ∷ t) = chain_at i t

unfoldable pub set_chain : ℕ → List Str → Hashvector → Hashvector
set_chain i chain [] = []
set_chain zero chain (old ∷ t) = chain ∷ t
set_chain (suc i) chain (old ∷ t) = old ∷ set_chain i chain t

unfoldable pub empty_chains : ℕ → Hashvector
empty_chains zero = []
empty_chains (suc n) = [] ∷ empty_chains n

unfoldable pub find_name : Str → List Str → Bool
unfolding strcmp_eq
find_name name [] = false
find_name name (n ∷ chain) = strcmp_eq name n || find_name name chain

-- The hash table, the allocations asked for so far, and the blocks that are not freed.
pub record DfState : Type 0 where
  pub table : Hashvector
  pub allocs : ℕ
  pub live : ℕ

-- `alloc n`: does the n-th allocation succeed? The answer is (seen_before(name) != NULL, the state after it)
unfoldable pub seen_before : (ℕ → Bool) → Str → DfState → Bool × DfState
unfolding find_name chain_at set_chain df_hash
seen_before alloc name s =
    let hashval = df_hash name in
    let chain = chain_at hashval s.table in
    if find_name name chain
    then (true, s)
    else if not (alloc s.allocs)
    then (false, record { table = s.table; allocs = s.allocs + 1; live = s.live })
    else if not (alloc (s.allocs + 1))
    then (false, record { table = s.table; allocs = s.allocs + 2; live = s.live + 1 })
    else (
      false,
      record {
        table = set_chain hashval (name ∷ chain) s.table;
        allocs = s.allocs + 2;
        live = s.live + 2;
      },
    )

-- free(np->name); free(np); for each node
unfoldable pub free_chain : ℕ → List Str → ℕ
free_chain live [] = live
free_chain live (n ∷ chain) = free_chain (live - 2) chain

unfoldable pub free_chains : ℕ → Hashvector → ℕ × Hashvector
unfolding free_chain
free_chains live [] = (live, [])
free_chains live (chain ∷ t) =
    let (left, rest) = free_chains (free_chain live chain) t in (left, [] ∷ rest)

unfoldable pub df_cleanup : DfState → DfState
unfolding free_chains
df_cleanup s =
    let (left, t) = free_chains s.live s.table in
    record { table = t; allocs = s.allocs; live = left }

-- ===== src/PluginMgr/Nodes.antt =====
-- The list of plugins: its ids, its nodes and its names.
use mathlib.Core.List.{reverse, reverse-cons, append-nil}
use syswatcher.Base.{
  without, ℕ, ◌<◌, ◌≤◌, ◌≡◌, refl, ap, ◌∙◌, false, List, [], ◌∷◌, ◌++◌, arith, ◌==◌, ◌||◌, suc, map,
  has, Distinct, All, length,
}
use syswatcher.CString.{strncmp_eq, strncmp_eq_sym}
use syswatcher.PluginMgr.{plugin_mgr_name_length, Plugin}
use syswatcher.PluginMgr.Unload.{del_node}

abbrev pub ids : List Plugin → List ℕ
ids ps = map (λ p. p.id) ps

abbrev pub nodes : List Plugin → List ℕ
nodes ps = map (λ p. p.node) ps

-- The ids fall along the list and stay under the bound.
abbrev pub Below : ℕ → List Plugin → Type 0
Below n [] = Unit
Below n (p ∷ ps) = (p.id < n) × Below p.id ps

-- No plugin has this name, as far as the search looks.
abbrev pub NoneNamed : List ℕ → List Plugin → Type 0
NoneNamed name ps = All (λ p. strncmp_eq plugin_mgr_name_length p.name name ≡ false) ps

abbrev pub DistinctNames : List Plugin → Type 0
DistinctNames [] = Unit
DistinctNames (p ∷ ps) = NoneNamed p.name ps × DistinctNames ps

pub Below-mono : (m n : ℕ) (ps : List Plugin) → m ≤ n → Below m ps → Below n ps
Below-mono m n [] h b = tt
Below-mono m n (p ∷ ps) h b = (omega arith, b.1)

Below-mem :
    (n : ℕ) (xs : List Plugin) (p : Plugin) (ys : List Plugin) → Below n (xs ++ p ∷ ys) → p.id < n
Below-mem n [] p ys b = b.0
Below-mem n (x ∷ xs) p ys b = omega (arith, Below-mem x.id xs p ys b.1)

pub Below-drop :
    (n : ℕ) (xs : List Plugin) (p : Plugin) (ys : List Plugin)
    → Below n (xs ++ p ∷ ys)
    → Below n (xs ++ ys)
Below-drop n [] p ys b = Below-mono p.id n ys (omega arith) b.1
Below-drop n (x ∷ xs) p ys b = (b.0, Below-drop x.id xs p ys b.1)

without-Below : (id n : ℕ) (ps : List Plugin) → n ≤ id → Below n ps → without id (ids ps) ≡ ids ps
without-Below id n [] h b = refl
without-Below id n (p ∷ ps) h b = ground (arith, without-Below id p.id ps)

pub without-ids :
    (n : ℕ) (xs : List Plugin) (p : Plugin) (ys : List Plugin)
    → Below n (xs ++ p ∷ ys)
    → without p.id (ids (xs ++ p ∷ ys)) ≡ ids (xs ++ ys)
without-ids n [] p ys b = ground (arith, without-Below p.id p.id ys)
without-ids n (x ∷ xs) p ys b = ground (arith, without-ids x.id xs p ys, Below-mem x.id xs p ys)

without-append : (id : ℕ) (xs ys : List ℕ) → without id (xs ++ ys) ≡ without id xs ++ without id ys
without-append id [] ys = refl
without-append id (x ∷ xs) ys = ground (arith, without-append id xs ys)

pub without-reverse : (id : ℕ) (xs : List ℕ) → without id (reverse xs) ≡ reverse (without id xs)
without-reverse id [] = refl
without-reverse id (x ∷ xs) =
    rw (reverse-cons x xs, without-append id (reverse xs), without-reverse id xs)
      (ground (arith, reverse-cons x (without id xs), append-nil (reverse (without id xs))))

-- An element taken out of the middle.
has-drop :
    (c : ℕ) (xs : List Plugin) (p : Plugin) (ys : List Plugin)
    → has c (nodes (xs ++ p ∷ ys)) ≡ ((c == p.node) || has c (nodes (xs ++ ys)))
has-drop c [] p ys = refl
has-drop c (x ∷ xs) p ys = ground (arith, has-drop c xs p ys)

pub All-drop :
    (P : Plugin → Type 0) (xs : List Plugin) (p : Plugin) (ys : List Plugin)
    → All P (xs ++ p ∷ ys)
    → P p × All P (xs ++ ys)
All-drop P [] p ys a = a
All-drop P (x ∷ xs) p ys a = let t = All-drop P xs p ys a.1 in (t.0, (a.0, t.1))

pub length-drop :
    (xs : List Plugin) (p : Plugin) (ys : List Plugin)
    → length (xs ++ p ∷ ys) ≡ suc (length (xs ++ ys))
length-drop [] p ys = refl
length-drop (x ∷ xs) p ys = ap suc (length-drop xs p ys)

pub del_node-split :
    (xs : List Plugin) (p : Plugin) (ys : List Plugin)
    → Distinct (nodes (xs ++ p ∷ ys))
    → del_node p.node (xs ++ p ∷ ys) ≡ xs ++ ys
unfolding del_node
del_node-split [] p ys d = ground arith
del_node-split (x ∷ xs) p ys d = ground (arith, del_node-split xs p ys d.1, has-drop x.node xs p ys)

pub nodes-drop :
    (xs : List Plugin) (p : Plugin) (ys : List Plugin)
    → Distinct (nodes (xs ++ p ∷ ys))
    → Distinct (nodes (xs ++ ys)) × (has p.node (nodes (xs ++ ys)) ≡ false)
nodes-drop [] p ys d = (d.1, d.0)
nodes-drop (x ∷ xs) p ys d =
    let (rest, out) = nodes-drop xs p ys d.1 in
    ((ground (arith, has-drop x.node xs p ys), rest), ground (arith, has-drop x.node xs p ys))

pub names-drop :
    (xs : List Plugin) (p : Plugin) (ys : List Plugin)
    → DistinctNames (xs ++ p ∷ ys)
    → DistinctNames (xs ++ ys) × NoneNamed p.name (xs ++ ys)
names-drop [] p ys d = (d.1, d.0)
names-drop (x ∷ xs) p ys d =
    let (rest, out) = names-drop xs p ys d.1 in
    let (ne, others) =
      All-drop (λ q. strncmp_eq plugin_mgr_name_length q.name x.name ≡ false) xs p ys d.0 in
    ((others, rest), (strncmp_eq_sym plugin_mgr_name_length x.name p.name ∙ ne, out))

-- ===== src/ListHead.antt =====
-- include/list.h: the circular doubly linked list that every component threads through its nodes.
-- A heap holds the two links of each live node; a read or a write through NULL or through a node
-- that is not live is a fault.
pub mod Ring
pub mod Insert
pub mod Remove
pub mod Traverse
pub mod Away
use syswatcher.Base.{ℕ, zero, suc, Bool, false, List, [], ◌∷◌, ◌==◌, if◌then◌else◌}

abbrev pub Ptr : Type 0
Ptr = ℕ

abbrev pub null : Ptr
null = 0

-- struct list_head, for every node at once.
pub record Heap : Type 0 where
  pub live : Ptr → Bool
  pub prev : Ptr → Ptr
  pub next : Ptr → Ptr

pub data Run {ℓ} (A : Type ℓ) : Type ℓ where
  ok : A → Heap → Run A
  fault : Run A
  out_of_fuel : Run A

abbrev pub Cmd {ℓ} : Type ℓ → Type ℓ
Cmd A = Heap → Run A

abbrev pub then_run {ℓ κ} : {A : Type ℓ} {B : Type κ} → Run A → (A → Cmd B) → Run B
then_run (ok a h) k = k a h
then_run fault k = fault
then_run out_of_fuel k = out_of_fuel

infixl 5 ◌>>=◌ ◌>>◌
abbrev pub ◌>>=◌ {ℓ κ} : {A : Type ℓ} {B : Type κ} → Cmd A → (A → Cmd B) → Cmd B
c >>= k = λ h. then_run (c h) k

abbrev pub ◌>>◌ {κ} : {B : Type κ} → Cmd (Unit {0}) → Cmd B → Cmd B
c >> d = c >>= λ _. d

abbrev pub pure {ℓ} : {A : Type ℓ} → A → Cmd A
pure a h = ok a h

-- May the node at this address be accessed?
abbrev pub reads : Heap → Ptr → Bool
reads h p = if p == null then false else h.live p

abbrev pub update {ℓ} : {A : Type ℓ} → (Ptr → A) → Ptr → A → Ptr → A
update f p v q = if q == p then v else f q

unfoldable pub get_prev : Ptr → Cmd Ptr
get_prev p h = if reads h p then ok (h.prev p) h else fault

unfoldable pub get_next : Ptr → Cmd Ptr
get_next p h = if reads h p then ok (h.next p) h else fault

unfoldable pub set_prev : Ptr → Ptr → Cmd (Unit {0})
set_prev p q h = if reads h p then ok tt (record h { prev = update h.prev p q }) else fault

unfoldable pub set_next : Ptr → Ptr → Cmd (Unit {0})
set_next p q h = if reads h p then ok tt (record h { next = update h.next p q }) else fault

-- free(container_of(p, ...))
unfoldable pub free : Ptr → Cmd (Unit {0})
free p h = if reads h p then ok tt (record h { live = update h.live p false }) else fault

unfoldable pub init_list_head : Ptr → Cmd (Unit {0})
unfolding set_prev set_next
init_list_head list = do set_next list list; set_prev list list

unfoldable pub link_between : (new prev next : Ptr) → Cmd (Unit {0})
unfolding set_prev set_next
link_between new prev next = do
  set_prev next new
  set_next new next
  set_prev new prev
  set_next prev new

unfoldable pub list_add : (new head : Ptr) → Cmd (Unit {0})
unfolding get_next link_between
list_add new head = do first ← get_next head; link_between new head first

unfoldable pub list_add_tail : (new head : Ptr) → Cmd (Unit {0})
unfolding get_prev link_between
list_add_tail new head = do last ← get_prev head; link_between new last head

unfoldable pub unlink_between : (prev next : Ptr) → Cmd (Unit {0})
unfolding set_prev set_next
unlink_between prev next = do set_prev next prev; set_next prev next

unfoldable pub list_del : Ptr → Cmd (Unit {0})
unfolding get_prev get_next set_prev set_next unlink_between
list_del entry = do
  p ← get_prev entry
  n ← get_next entry
  unlink_between p n
  set_next entry null
  set_prev entry null

module _ {ℓ} {S : Type ℓ} where
  -- The rounds of `list_for_each(pos, head) body`, from `pos` on. The body may use and change the
  -- variables `s` around the loop.
  for_each_from : ℕ → (Ptr → S → Cmd S) → (pos head : Ptr) → S → Cmd S
  for_each_from zero body pos head s = λ _. out_of_fuel
  for_each_from (suc k) body pos head s =
      if pos == head
      then pure s
      else do s' ← body pos s; n ← get_next pos; for_each_from k body n head s'

  unfoldable pub list_for_each : ℕ → (Ptr → S → Cmd S) → (head : Ptr) → S → Cmd S
  unfolding for_each_from get_next
  list_for_each fuel body head s = do first ← get_next head; for_each_from fuel body first head s

  -- The rounds of `list_for_each_safe(pos, n, head) body`: `n` is read before the body runs.
  for_each_safe_from : ℕ → (Ptr → S → Cmd S) → (pos n head : Ptr) → S → Cmd S
  for_each_safe_from zero body pos n head s = λ _. out_of_fuel
  for_each_safe_from (suc k) body pos n head s =
      if pos == head
      then pure s
      else do s' ← body pos s; after ← get_next n; for_each_safe_from k body n after head s'

  unfoldable pub list_for_each_safe : ℕ → (Ptr → S → Cmd S) → (head : Ptr) → S → Cmd S
  unfolding for_each_safe_from get_next
  list_for_each_safe fuel body head s = do
    first ← get_next head
    n ← get_next first
    for_each_safe_from fuel body first n head s

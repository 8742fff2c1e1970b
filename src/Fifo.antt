-- ===== src/Fifo.antt =====
-- core/fifo.c and include/fifo.h: the queue of actions between the timer and an update thread, on
-- top of the lists of include/list.h. A section under `fifo_mtx` is one step.
pub mod Queue
mod Examples
use syswatcher.Base.{ℕ, Bool, true, false, ◌==◌, if◌then◌else◌}
use syswatcher.ListHead.{
  Ptr, null, Cmd, pure, ◌>>=◌, ◌>>◌, update, get_prev, free, init_list_head, list_add, list_del,
  list_for_each_safe,
}

-- struct fifo_head: the address of its list head, and its flag.
pub record FifoHead : Type 0 where
  pub head : Ptr
  pub exit_flag : Bool

-- `malloc` returned `p`: the new block is live, or `p` is NULL.
unfoldable pub malloc : Ptr → Cmd (Unit {0})
malloc p h = if p == null then pure tt h else pure tt (record h { live = update h.live p true })

-- `p` is what `malloc` returns; without memory there is no queue.
unfoldable pub init_fifo : Ptr → Cmd FifoHead
unfolding malloc init_list_head
init_fifo p =
    if p == null
    then pure (record { head = null; exit_flag = false })
    else do malloc p; init_list_head p; pure (record { head = p; exit_flag = false })

pub push : FifoHead → Ptr → Cmd (Unit {0})
unfolding list_add
push fifo node = if fifo.exit_flag then pure tt else list_add node fifo.head

is_empty : FifoHead → Cmd Bool
unfolding get_prev
is_empty fifo = do last ← get_prev fifo.head; pure (last == fifo.head)

pub pop : FifoHead → Cmd Ptr
unfolding is_empty get_prev list_del
pop fifo = if fifo.exit_flag then pure null else do
  empty ← is_empty fifo
  if empty then pure null else do list_node ← get_prev fifo.head; list_del list_node; pure list_node

-- The body of the loop takes the node out and frees it.
pub clear_all_node : ℕ → FifoHead → Cmd (Unit {0})
unfolding list_for_each_safe list_del free
clear_all_node fuel fifo = list_for_each_safe fuel (λ pos _. list_del pos >> free pos) fifo.head tt

pub del_fifo : ℕ → FifoHead → Cmd (Unit {0})
unfolding clear_all_node free
del_fifo fuel fifo = do
  let closed : FifoHead = record fifo { exit_flag = true }
  clear_all_node fuel closed
  free closed.head

-- ===== src/Metric/Destroy.antt =====
-- How core/metric.c takes a unit apart: `_do_del_metric` and `destroy_ti`, on the heap of the lists.
-- A block is there as the list heads that stand in it.
use syswatcher.Base.{ℕ, zero, suc, ◌==◌, if◌then◌else◌}
use syswatcher.ListHead.{Ptr, null, Cmd, pure, ◌>>=◌, ◌>>◌, free, list_del, list_for_each_safe}
use syswatcher.Fifo.{FifoHead, pop, del_fifo}

pub record ThreadInfo : Type 0 where
  pub block : Ptr
  pub action_fifo : FifoHead

-- The two list heads of the block of a struct metric_unit, and its thread.
pub record UnitBlock : Type 0 where
  pub node : Ptr
  pub sub_node_head : Ptr
  pub update_thread_info : ThreadInfo

unfoldable pub del_action : Ptr → Cmd (Unit {0})
unfolding free
del_action action = free action

-- One round of `update_thread`; the function of the plugin that it calls does not see the lists.
unfoldable pub thread_round : FifoHead → Cmd (Unit {0})
unfolding del_action
thread_round fifo = do action ← pop fifo; if action == null then pure tt else del_action action

-- What the thread still does before it is joined.
unfoldable pub thread_rounds : ℕ → FifoHead → Cmd (Unit {0})
unfolding thread_round
thread_rounds zero fifo = pure tt
thread_rounds (suc k) fifo = thread_round fifo >> thread_rounds k fifo

unfoldable pub destroy_ti : (rounds fuel : ℕ) → ThreadInfo → Cmd (Unit {0})
unfolding thread_rounds free
destroy_ti rounds fuel ti = do
  thread_rounds rounds ti.action_fifo
  del_fifo fuel ti.action_fifo
  free ti.block

unfoldable pub destroy_subunit : Ptr → Unit {0} → Cmd (Unit {0})
unfolding list_del free
destroy_subunit sub_node _ = do list_del sub_node; free sub_node

-- free(unit)
unfoldable pub free_metric_unit : UnitBlock → Cmd (Unit {0})
unfolding free
free_metric_unit unit = do free unit.node; free unit.sub_node_head

unfoldable pub do_del_metric : (rounds fuel : ℕ) → UnitBlock → Cmd (Unit {0})
unfolding list_del destroy_ti list_for_each_safe destroy_subunit free_metric_unit
do_del_metric rounds fuel unit = do
  list_del unit.node
  destroy_ti rounds fuel unit.update_thread_info
  list_for_each_safe fuel destroy_subunit unit.sub_node_head tt
  free_metric_unit unit

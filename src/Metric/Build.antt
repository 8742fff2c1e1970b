-- ===== src/Metric/Build.antt =====
-- How core/metric.c builds a unit (`_add_metric` and what it calls), on the heap of the lists. The
-- arguments are what the calls of `malloc` give; the results are not tested.
use syswatcher.Base.{List, [], ◌∷◌}
use syswatcher.ListHead.{Ptr, Cmd, pure, ◌>>=◌, ◌>>◌, init_list_head, list_add_tail}
use syswatcher.Fifo.{malloc, init_fifo}
use syswatcher.Metric.Destroy.{ThreadInfo, UnitBlock}

-- The block of a struct metric_unit has two list heads.
unfoldable pub make_metric_unit : (node sub_node_head : Ptr) → Cmd (Unit {0})
make_metric_unit node sub_node_head = do
  malloc node
  malloc sub_node_head
  init_list_head node
  init_list_head sub_node_head

unfoldable pub make_sub_block : Ptr → Cmd (Unit {0})
make_sub_block sub_node = do malloc sub_node; init_list_head sub_node

unfoldable pub add_sub_metric : (sub_node_head sub_node : Ptr) → Cmd (Unit {0})
add_sub_metric sub_node_head sub_node = list_add_tail sub_node sub_node_head

-- The loop over the sub-channels.
unfoldable pub add_sub_metrics : (sub_node_head : Ptr) → List Ptr → Cmd (Unit {0})
add_sub_metrics sub_node_head [] = pure tt
add_sub_metrics sub_node_head (p ∷ ps) = do
  make_sub_block p
  add_sub_metric sub_node_head p
  add_sub_metrics sub_node_head ps

unfoldable pub make_ti : (block fifo_head : Ptr) → Cmd ThreadInfo
make_ti block fifo_head = do
  malloc block
  fifo ← init_fifo fifo_head
  pure (record { block = block; action_fifo = fifo })

unfoldable pub add_unit :
    (metrics_head node sub_node_head : Ptr) → List Ptr → (block fifo_head : Ptr) → Cmd UnitBlock
add_unit metrics_head node sub_node_head subs block fifo_head = do
  make_metric_unit node sub_node_head
  add_sub_metrics sub_node_head subs
  ti ← make_ti block fifo_head
  list_add_tail node metrics_head
  pure (record { node = node; sub_node_head = sub_node_head; update_thread_info = ti })

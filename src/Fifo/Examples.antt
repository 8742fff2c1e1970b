-- ===== src/Fifo/Examples.antt =====
-- The action queue of core/fifo.c at a small heap.
use syswatcher.Base.{◌≡◌, false, [], ◌∷◌, arith, ltb}
use syswatcher.ListHead.{null, Heap, ok}
use syswatcher.Fifo.{FifoHead}
use syswatcher.Fifo.Queue.{IsFifo, pushes, pops, run, run-popped}

-- The empty queue with its head at 1; the blocks 2 to 9 are allocated.
abbrev heap : Heap
heap = record { live = λ p. ltb p 10; prev = λ p. p; next = λ p. p }

abbrev fifo : FifoHead
fifo = record { head = 1; exit_flag = false }

fifo-IsFifo : IsFifo heap fifo []
fifo-IsFifo = ground arith

run-popped_example :
    (g : Heap) × (run fifo (pops ∷ pushes 5 ∷ pushes 3 ∷ pops ∷ pushes 5 ∷ []) heap
      ≡ ok (null ∷ 5 ∷ []) g)
    × IsFifo g fifo (3 ∷ 5 ∷ [])
run-popped_example =
    run-popped fifo (pops ∷ pushes 5 ∷ pushes 3 ∷ pops ∷ pushes 5 ∷ []) fifo-IsFifo (ground arith)

-- ===== src/Collector/Examples.antt =====
-- A buffer of eight bytes.
use syswatcher.Base.{arith}
use syswatcher.CString.{codes}
use syswatcher.Collector.{Service, init_service, publish, Step, Reaches}
use syswatcher.Collector.Answers.{IsServed, Reaches-IsServed}

abbrev one_text : Service
one_text = publish (codes "abc") (init_service 8)

one_text-Reaches : Reaches 8 one_text
one_text-Reaches =
    Reaches.next (init_service 8) one_text Reaches.start
      (Step.published (init_service 8) (codes "abc") (omega arith) (omega arith))

Reaches-IsServed_example : IsServed 8 one_text
Reaches-IsServed_example = Reaches-IsServed 8 one_text (omega arith) one_text-Reaches

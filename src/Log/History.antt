-- ===== src/Log/History.antt =====
-- What core/log.c writes, over any history of messages and rounds of its thread.
use mathlib.Core.List.{append_assoc, append-nil, map-append}
use syswatcher.Base.{
  ℕ, ◌≡◌, refl, sym, ap, ◌∙◌, inl, inr, Bool, true, false, List, [], ◌∷◌, ◌++◌, Option, none, some,
  arith, map, if◌then◌else◌, leb, Bool-cases, Option-cases,
}
use syswatcher.Channel.{Str}
use syswatcher.Log.{
  LogMsg, Write, Logger, make_msg, write_all, logging_round, rest_of_round, logging, print_msg,
  clear_all_bufferd_msg, exit_logger,
}

-- A message is logged by `logging` with memory at hand, or the thread makes a round.
pub data Event : Type 0 where
  prints : LogMsg → Event
  round : (timed_out : Bool) → (time : Str) → Event

-- The messages that the level lets through.
pub passing : ℕ → List LogMsg → List LogMsg
passing level [] = []
passing level (m ∷ ms) = if leb m.level level then m ∷ passing level ms else passing level ms

pub printed : List Event → List LogMsg
printed [] = []
printed (prints m ∷ es) = m ∷ printed es
printed (round timed_out time ∷ es) = printed es

unfoldable pub run_events : List Event → Logger → Option Logger
run_events [] l = some l
run_events (prints m ∷ es) l = run_events es (logging m.level (some m.buf) true true l)
run_events (round timed_out time ∷ es) l = elim (logging_round timed_out time l) [
  | none ↦ none
  | some l1 ↦ run_events es l1
]

-- The messages written.
abbrev pub written : Logger → List LogMsg
written l = map (λ w. w.msg) l.logfile

passing-append :
    (level : ℕ) (xs ys : List LogMsg)
    → passing level (xs ++ ys) ≡ passing level xs ++ passing level ys
unfolding passing
passing-append level [] ys = refl
passing-append level (m ∷ xs) ys = ground (arith, passing-append level xs ys)

write_all-passing :
    (time : Str) (level : ℕ) (ms : List LogMsg) (f g : List Write)
    → write_all time level ms f ≡ some g
    → map (λ w. w.msg) g ≡ map (λ w. w.msg) f ++ passing level ms
unfolding write_all passing
write_all-passing time level [] f g e =
    let same : g ≡ f = ground arith in rw same (sym (append-nil (map (λ w. w.msg) f)))
write_all-passing time level (m ∷ ms) f g e = elim (Bool-cases (leb m.level level)) [
  | inr quiet ↦ rw quiet (write_all-passing time level ms f g (ground arith))
  | inl passes ↦ elim (Option-cases (make_msg time m)) [
    | inl fault ↦ absurd (ground arith)
    | inr (text, is) ↦
        let w : Write = record { msg = m; text = text } in
        rw passes (
          write_all-passing time level ms (f ++ w ∷ []) g (ground arith)
          ∙ ap (λ l. l ++ passing level ms) (map-append (λ w. w.msg) f (w ∷ []))
          ∙ append_assoc (map (λ w. w.msg) f) (m ∷ []) (passing level ms))
  ]
]

-- What a round does to the messages.
record Moved (l l1 : Logger) : Type 0 where
  is_open : l1.closed ≡ false
  level : l1.level ≡ l.level
  moved : written l1 ++ passing l.level l1.log_buffer ≡ written l ++ passing l.level l.log_buffer

logging_round-passing :
    (timed_out : Bool) (time : Str) (l l1 : Logger)
    → logging_round timed_out time l ≡ some l1
    → Moved l l1
unfolding logging_round rest_of_round passing
logging_round-passing true time l l1 e = record {
  is_open = ground arith;
  level = ground arith;
  moved = let same : l1 ≡ record l { closed = false } = ground arith in rw same refl;
}
logging_round-passing false time l l1 e =
    elim (Option-cases (write_all time l.level l.log_buffer l.logfile)) [
      | inl fault ↦ absurd (ground arith)
      | inr (g, is) ↦
          let file : l1.logfile ≡ g = ground arith in
          let empty : l1.log_buffer ≡ [] = ground arith in
          record {
            is_open = ground arith;
            level = ground arith;
            moved =
                rw (file, empty)
                  (append-nil (map (λ w. w.msg) g)
                    ∙ write_all-passing time l.level l.log_buffer l.logfile g is);
          }
    ]

logging-open :
    (l : Logger) (m : LogMsg)
    → l.closed ≡ false
    → logging m.level (some m.buf) true true l ≡ record l { log_buffer = l.log_buffer ++ m ∷ [] }
unfolding logging print_msg
logging-open l m is_open = rw is_open refl

-- Over any history of an open logger that does not fault, messages and rounds of its thread interleaved
-- in any way: the messages written, then those of the buffer that the level lets through, are those
-- written and buffered at first, then those that were logged since and pass, in the same order.
pub run_events-passing :
    (es : List Event) (l l' : Logger)
    → l.closed ≡ false
    → run_events es l ≡ some l'
    → written l' ++ passing l.level l'.log_buffer
      ≡ written l ++ passing l.level (l.log_buffer ++ printed es)
unfolding run_events printed
run_events-passing [] l l' is_open e =
    let same : l' ≡ l = ground arith in rw (same, append-nil l.log_buffer) refl
run_events-passing (prints m ∷ es) l l' is_open e =
    let l1 : Logger = record l { log_buffer = l.log_buffer ++ m ∷ [] } in
    let e1 : run_events es l1 ≡ some l' = rw (logging-open l m is_open) at e in
    run_events-passing es l1 l' is_open e1
    ∙ ap (λ ms. written l ++ passing l.level ms) (append_assoc l.log_buffer (m ∷ []) (printed es))
run_events-passing (round timed_out time ∷ es) l l' is_open e =
    elim (Option-cases (logging_round timed_out time l)) [
      | inl fault ↦ absurd (ground arith)
      | inr (l1, e1) ↦
          let r = logging_round-passing timed_out time l l1 e1 in
          let ih = run_events-passing es l1 l' r.is_open (ground arith) in
          ap (λ n. written l' ++ passing n l'.log_buffer) (sym r.level)
          ∙ ih
          ∙ ap (λ n. written l1 ++ passing n (l1.log_buffer ++ printed es)) r.level
          ∙ ap (λ ms. written l1 ++ ms) (passing-append l.level l1.log_buffer (printed es))
          ∙ sym (
              append_assoc (written l1) (passing l.level l1.log_buffer)
                (passing l.level (printed es)))
          ∙ ap (λ ms. ms ++ passing l.level (printed es)) r.moved
          ∙ append_assoc (written l) (passing l.level l.log_buffer) (passing l.level (printed es))
          ∙ ap (λ ms. written l ++ ms) (sym (passing-append l.level l.log_buffer (printed es)))
    ]

-- Ending a logger, when that does not fault: if its thread was waked, what was buffered and passes has
-- been written, but if the wait timed out nothing more has; the buffer is empty either way. The logger
-- stays open if its thread is late.
pub exit_logger_lem :
    (late timed_out : Bool) (time : Str) (l l' : Logger)
    → exit_logger late timed_out time l ≡ some l'
    → (written l' ≡ (if timed_out then written l else written l ++ passing l.level l.log_buffer))
      × (l'.log_buffer ≡ [])
      × (l'.closed ≡ (if late then false else true))
unfolding exit_logger logging_round rest_of_round clear_all_bufferd_msg passing
exit_logger_lem late true time l l' e = (ground arith, ground arith, ground arith)
exit_logger_lem late false time l l' e =
    elim (Option-cases (write_all time l.level l.log_buffer l.logfile)) [
      | inl fault ↦ absurd (ground arith)
      | inr (g, is) ↦
          let file : l'.logfile ≡ g = ground arith in
          (
            rw file (write_all-passing time l.level l.log_buffer l.logfile g is),
            ground arith,
            ground arith,
          )
    ]

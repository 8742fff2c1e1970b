-- ===== src/Log.antt =====
-- core/log.c and include/log.h: the messages, and the thread that writes them to the log.
-- The list of messages stands as the sequence of its nodes; a section under a lock is one step, and so
-- is a pass of the thread over the buffer. What a format comes to, `malloc`, the clock and the result of
-- a wait are arguments. `none` is a fault: a read past the table of headers, or a write past a buffer.
pub mod History
pub mod Deadline
pub mod Message
mod Examples
use syswatcher.Base.{
  ℕ, zero, suc, ◌+◌, ◌-◌, ◌*◌, Bool, true, false, List, [], ◌∷◌, ◌++◌, Option, none, some,
  if◌then◌else◌, ltb, leb, length, take,
}
use syswatcher.Channel.{Str}
use syswatcher.CString.{codes}

-- enum log_level
abbrev pub level_zero : ℕ
level_zero = 0

abbrev pub level_plugin : ℕ
level_plugin = 3

abbrev pub level_info : ℕ
level_info = 4

-- HEADER_NUM, the bytes of a row of `header_str`.
abbrev pub header_num : ℕ
header_num = 20

abbrev pub header_rows : List Str
header_rows = codes "BASE" ∷ codes "ERR" ∷ codes "WARN" ∷ codes "PLUGIN" ∷ codes "INFO" ∷ []

-- A row of a table.
unfoldable pub row : List Str → ℕ → Option Str
row [] n = none
row (s ∷ ss) zero = some s
row (s ∷ ss) (suc n) = row ss n

unfoldable pub header_str : ℕ → Option Str
unfolding row
header_str level = row header_rows level

-- struct log_msg
pub record LogMsg : Type 0 where
  pub level : ℕ
  pub buf : Str

-- A call of `fwrite`: the text, and the message that it is of.
pub record Write : Type 0 where
  pub msg : LogMsg
  pub text : Str

-- struct logger, with what has been written to its file.
pub record Logger : Type 0 where
  pub logfile : List Write
  pub level : ℕ
  pub log_buffer : List LogMsg
  pub thread_running : Bool
  pub closed : Bool

-- So many spaces.
unfoldable pub blanks : ℕ → Str
blanks zero = []
blanks (suc n) = b' ' ∷ blanks n

-- sprintf(header, "[%10s]", s)
unfoldable pub header_of : Str → Str
unfolding blanks
header_of s = b'[' ∷ (blanks (10 - length s) ++ (s ++ b']' ∷ []))

-- The text of a message, in a buffer of 4096 bytes; `time` is what `ctime` gives, with a newline last.
unfoldable pub make_msg : (time : Str) → LogMsg → Option Str
unfolding header_str header_of
make_msg time msg =
    if ltb msg.level header_num
    then elim (header_str msg.level) [
      | none ↦ none
      | some s ↦
          let sysmsg = take (length time - 1) time ++ (b' ' ∷ (header_of s ++ (b' ' ∷ msg.buf))) in
          if ltb (length sysmsg) 4096 then some sysmsg else none
    ]
    else some []

-- The loop of `logging_thread` over the buffered messages.
unfoldable pub write_all :
    (time : Str) → (level : ℕ) → List LogMsg → List Write → Option (List Write)
write_all time level [] logfile = some logfile
write_all time level (msg ∷ msgs) logfile = elim (leb msg.level level) [
  | false ↦ write_all time level msgs logfile
  | true ↦ elim (make_msg time msg) [
    | none ↦ none
    | some text ↦ write_all time level msgs (logfile ++ record { msg = msg; text = text } ∷ [])
  ]
]

-- What `logging_thread` does in a round after its wait, by the result of the wait.
unfoldable pub rest_of_round : (timed_out : Bool) → (time : Str) → Logger → Option Logger
rest_of_round timed_out time l =
    if timed_out then some l else elim (write_all time l.level l.log_buffer l.logfile) [
      | none ↦ none
      | some logfile ↦ some (record l { log_buffer = []; logfile = logfile })
    ]

-- A round of `logging_thread`.
unfoldable pub logging_round : (timed_out : Bool) → (time : Str) → Logger → Option Logger
unfolding rest_of_round
logging_round timed_out time l = rest_of_round timed_out time (record l { closed = false })

-- The time at which the wait of `logging_thread` ends, from the seconds and microseconds of now.
unfoldable pub deadline : (tv_sec tv_usec : ℕ) → ℕ × ℕ
deadline tv_sec tv_usec =
    let tv_nsec = tv_usec * 1000 + 100000000 in
    if leb 1000000000 tv_nsec then (tv_sec + 1, tv_nsec - 1000000000) else (tv_sec, tv_nsec)

unfoldable pub print_msg : Logger → LogMsg → Logger
print_msg l msg = record l { log_buffer = l.log_buffer ++ msg ∷ [] }

-- `formatted` is what the format comes to, or none; then two blocks are allocated.
unfoldable pub logging :
    (level : ℕ) → (formatted : Option Str) → (malloc_buf malloc_msg : Bool) → Logger → Logger
unfolding print_msg
logging level formatted malloc_buf malloc_msg l = if l.closed then l else elim formatted [
  | none ↦ l
  | some p ↦
      if malloc_buf
      then if malloc_msg then print_msg l (record { level = level; buf = p }) else l
      else l
]

unfoldable pub plugin_print_log : Option Str → (malloc_buf malloc_msg : Bool) → Logger → Logger
unfolding logging
plugin_print_log formatted malloc_buf malloc_msg l =
    logging level_plugin formatted malloc_buf malloc_msg l

unfoldable pub clear_all_bufferd_msg : Logger → Logger
clear_all_bufferd_msg l = record l { log_buffer = [] }

-- Returns when the thread has begun its first round.
unfoldable pub init_logger : (fopen : Bool) → (level : ℕ) → Logger → Logger × ℕ
init_logger fopen level l =
    if fopen
    then (
      record {
        logfile = [];
        level = level;
        log_buffer = [];
        thread_running = true;
        closed = false;
      },
      0,
    )
    else (l, 1)

-- The thread is joined after the round that it is in. If it is `late`, it has tested `thread_running`
-- and sets `closed` to 0 only now; otherwise it waits.
unfoldable pub exit_logger : (late timed_out : Bool) → (time : Str) → Logger → Option Logger
unfolding clear_all_bufferd_msg logging_round rest_of_round
exit_logger late timed_out time l =
    let stopped = record l { closed = true; thread_running = false } in
    elim (if late
      then logging_round timed_out time stopped
      else rest_of_round timed_out time stopped) [
        | none ↦ none
        | some joined ↦ some (clear_all_bufferd_msg joined)
      ]

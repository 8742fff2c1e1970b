-- ===== src/Collector.antt =====
-- The collector (core/collector.c): a thread that answers clients from a buffer, while list_data of
-- core/metric.c prints new texts into it. Neither takes a lock for it, so a step is one call: sprintf,
-- strlen or write. There are two such buffers and threads, for the text and for the JSON, which do not
-- touch each other. The sockets are left out.
pub mod Answers
mod Examples
use syswatcher.Base.{
  ℕ, zero, suc, ◌+◌, ◌<◌, ◌≡◌, Option, none, some, List, [], ◌∷◌, ◌++◌, ◌==◌, length, take, drop,
  Bool, true, false,
}
use syswatcher.Channel.{Str}

-- The bytes up to the first NUL; none if there is no NUL.
unfoldable pub strlen : Str → Option ℕ
strlen [] = none
strlen (c ∷ s) = elim (c == 0) [
  | true ↦ some 0
  | false ↦ elim (strlen s) [ none ↦ none | some n ↦ some (suc n) ]
]

-- sprintf(buffer, "%s", text): the text and its NUL over what was there.
unfoldable pub print_over : Str → Str → Str
print_over text buffer = text ++ 0 ∷ drop (length text + 1) buffer

-- The array, the length that the thread has measured for the client it has accepted, and what the
-- clients got.
pub record Service : Type 0 where
  pub buffer : Str
  pub measured : Option ℕ
  pub sent : List Str

unfoldable pub cleared : ℕ → Str
cleared zero = []
cleared (suc n) = 0 ∷ cleared n

unfoldable pub init_service : ℕ → Service
unfolding cleared
init_service size = record { buffer = cleared size; measured = none; sent = [] }

unfoldable pub publish : Str → Service → Service
unfolding print_over
publish text s = record s { buffer = print_over text s.buffer }

-- accept, and the argument strlen(...) of write; `none` is a read past the array.
unfoldable pub measure : Service → Option Service
unfolding strlen
measure s = elim (strlen s.buffer) [ none ↦ none | some n ↦ some (record s { measured = some n }) ]

-- write(cli_fd, buffer, n) and close. Of the n bytes the first `arrived` reach the client: write may take
-- fewer than it is given, which is not looked at, and a close under SO_LINGER of 0 seconds drops what
-- is still on its way.
unfoldable pub send : (n arrived : ℕ) → Service → Service
send n arrived s = record s {
  measured = none;
  sent = s.sent ++ take arrived (take n s.buffer) ∷ [];
}

-- A text has no NUL, and is printed only if it fits.
abbrev pub IsText : Str → Type 0
IsText [] = Unit
IsText (c ∷ s) = (0 < c) × IsText s

-- The steps of the two threads.
pub data Step (size : ℕ) : Service → Service → Type 0 where
  published :
      (s : Service) (text : Str) → IsText text → length text < size → Step size s (publish text s)
  accepted : (s s' : Service) → s.measured ≡ none → measure s ≡ some s' → Step size s s'
  answered : (s : Service) (n arrived : ℕ) → s.measured ≡ some n → Step size s (send n arrived s)

-- The states that steps lead to.
pub data Reaches (size : ℕ) : Service → Type 0 where
  start : Reaches size (init_service size)
  next : (s s' : Service) → Reaches size s → Step size s s' → Reaches size s'

-- ===== src/PluginProtocol.antt =====
-- include/plugin_protocol.h and tools/plugin_client.c: a command as the bytes that the client writes
-- and the server reads. The layout is that of the compilers the program is built with: a little-endian
-- int of 4 bytes at offset 4, after two bytes of padding.
pub mod RoundTrip
pub mod Client
mod Examples
use syswatcher.Base.{
  ℕ, zero, suc, ◌+◌, ◌-◌, ◌*◌, ◌/◌, ◌%◌, ◌<◌, ◌||◌, not, Bool, true, false, List, [], ◌∷◌, ◌++◌,
  Option, none, some, ◌==◌, if◌then◌else◌, ltb, length, take, drop,
}
use syswatcher.Channel.{Str}
use syswatcher.CString.{codes, strncmp_eq}
use syswatcher.PluginMgr.{srm_ok}
use syswatcher.PluginMgr.Parser.{PluginCmd}

abbrev pub file_path_len : ℕ
file_path_len = 1024

abbrev pub max_argv : ℕ
max_argv = 64

abbrev pub argv_len : ℕ
argv_len = 128

-- sizeof(plugin_cmd_t) - 4
abbrev pub body_len : ℕ
body_len = 9220

-- The text that begins with these bytes: up to the first NUL.
unfoldable pub text : Str → Str
text [] = []
text (c ∷ s) = elim (c == 0) [ true ↦ [] | false ↦ c ∷ text s ]

-- The rows of `argv`, so many of them.
unfoldable pub rows : ℕ → Str → List Str
rows zero s = []
rows (suc n) s = text s ∷ rows n (drop argv_len s)

-- An int as a count: a negative one counts nothing.
unfoldable pub count_of : Str → ℕ
count_of (a ∷ b ∷ c ∷ d ∷ s) = if ltb d 128 then a + 256 * b + 65536 * c + 16777216 * d else 0
count_of _ = 0

-- plugin_cmd_t in the server's buffer.
unfoldable pub decode : Str → PluginCmd
decode (type ∷ flag ∷ _ ∷ _ ∷ body) = record {
  type = type;
  flag = flag;
  argc = count_of body;
  path = text (drop 4 body);
  argv = rows max_argv (drop file_path_len (drop 4 body));
}
decode _ = record { type = 0; flag = 0; argc = 0; path = []; argv = [] }

-- So many NULs.
unfoldable pub zeros : ℕ → Str
zeros zero = []
zeros (suc n) = 0 ∷ zeros n

-- A text in a buffer that was all NUL.
unfoldable pub padded : ℕ → Str → Str
padded n s = s ++ zeros (n - length s)

-- The loop over `cmd.argv`: what does not fit is cut off, rows without an argument stay NUL.
unfoldable pub argv_bytes : ℕ → List Str → Str
argv_bytes zero args = []
argv_bytes (suc n) [] = zeros argv_len ++ argv_bytes n []
argv_bytes (suc n) (a ∷ args) = padded argv_len (take 127 a) ++ argv_bytes n args

unfoldable pub int_bytes : ℕ → Str
int_bytes n = n % 256 ∷ (n / 256) % 256 ∷ (n / 65536) % 256 ∷ (n / 16777216) % 256 ∷ []

-- The command as `main` fills it in. A longer path is written past its buffer, a fault.
unfoldable pub encode : (type : ℕ) → Str → List Str → Option Str
encode type path args =
    if ltb (length path) file_path_len
    then some (
        (type % 16 + 144)
        ∷ 0x6b
        ∷ 0
        ∷ 0
        ∷ (int_bytes (length args) ++ (padded file_path_len path ++ argv_bytes max_argv args)))
    else none

-- What plugin_client.c asks the system: may the file be read, what is the working directory, is
-- there memory, and is there a reader on the pipe.
pub record ClientEnv : Type 0 where
  pub readable : Str → Bool
  pub getcwd : Option Str
  pub malloc : Bool
  pub can_open : Bool

-- *p == '/'
unfoldable pub is_absolute : Str → Bool
is_absolute [] = false
is_absolute (c ∷ s) = c == b'/'

unfoldable pub plugin_path_parser : ClientEnv → Str → Option Str
plugin_path_parser env path =
    if env.readable path
    then if is_absolute path then some path else elim env.getcwd [
      | none ↦ none
      | some buf ↦ if env.malloc then some (buf ++ b'/' ∷ path) else none
    ]
    else none

unfoldable pub type_of : Str → Option ℕ
type_of op =
    if strncmp_eq 4 op (codes "load")
    then some 0
    else if strncmp_eq 6 op (codes "unload")
    then some 1
    else if strncmp_eq 6 op (codes "reload")
    then some 2
    else none

abbrev pub srm_parameter_err : ℕ
srm_parameter_err = 9

-- `main` on the arguments after its own name: its result, and the bytes that it writes.
unfoldable pub plugin_client : ClientEnv → List Str → Option (ℕ × Str)
plugin_client env (op ∷ path ∷ args) = elim (plugin_path_parser env path) [
  | none ↦ some (srm_parameter_err, [])
  | some plugin_path ↦ elim (type_of op) [
    | none ↦ some (srm_parameter_err, [])
    | some type ↦
        if env.can_open
        then elim (encode type plugin_path args) [ none ↦ none | some bytes ↦ some (srm_ok, bytes) ]
        else some (srm_parameter_err, [])
  ]
]
plugin_client env _ = some (srm_parameter_err, [])

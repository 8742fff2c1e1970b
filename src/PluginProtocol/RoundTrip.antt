-- ===== src/PluginProtocol/RoundTrip.antt =====
-- What the client encodes and the server decodes: include/plugin_protocol.h.
use mathlib.Core.List.{append_assoc}
use syswatcher.Base.{
  ℕ, zero, suc, ◌+◌, ◌-◌, ◌*◌, ◌%◌, ◌<◌, ◌≤◌, ◌≡◌, refl, sym, ap, ◌∙◌, List, [], ◌∷◌, ◌++◌, some,
  arith, has, All, length, length-append, take, drop, false,
}
use syswatcher.Channel.{Str}
use syswatcher.PluginMgr.Parser.{PluginCmd}
use syswatcher.PluginProtocol.{
  text, rows, count_of, decode, zeros, padded, argv_bytes, int_bytes, encode, argv_len,
  file_path_len, max_argv, body_len,
}

-- A C string holds no NUL.
abbrev pub NoNul : Str → Type 0
NoNul s = has 0 s ≡ false

text-append : (s t : Str) → NoNul s → text (s ++ 0 ∷ t) ≡ s
unfolding text
text-append [] t h = refl
text-append (c ∷ s) t h = ground (arith, text-append s t)

zeros-suc : (n m : ℕ) → m < n → zeros (n - m) ≡ 0 ∷ zeros (n - suc m)
unfolding zeros
zeros-suc n m h = let e : n - m ≡ suc (n - suc m) = omega arith in rw e refl

text-padded : (n : ℕ) (s rest : Str) → NoNul s → length s < n → text (padded n s ++ rest) ≡ s
unfolding padded
text-padded n s rest h l = rw (zeros-suc n (length s) l, append_assoc) (text-append s _ h)

length-zeros : (n : ℕ) → length (zeros n) ≡ n
unfolding zeros
length-zeros zero = refl
length-zeros (suc n) = omega (arith, length-zeros n)

length-padded : (n : ℕ) (s : Str) → length s ≤ n → length (padded n s) ≡ n
unfolding padded
length-padded n s h =
    omega (arith, length-append s (zeros (n - length s)), length-zeros (n - length s))

drop-length : (s t : Str) → drop (length s) (s ++ t) ≡ t
drop-length [] t = refl
drop-length (c ∷ s) t = drop-length s t

drop-padded : (n : ℕ) (s t : Str) → length s ≤ n → drop n (padded n s ++ t) ≡ t
drop-padded n s t h =
    ap (λ k. drop k (padded n s ++ t)) (sym (length-padded n s h)) ∙ drop-length (padded n s) t

-- The arguments as the plugin sees them: cut off, and filled up with empty ones.
abbrev pub seen : ℕ → List Str → List Str
seen zero args = []
seen (suc n) [] = [] ∷ seen n []
seen (suc n) (a ∷ args) = take 127 a ∷ seen n args

NoNul-take : (n : ℕ) (s : Str) → NoNul s → NoNul (take n s)
NoNul-take zero s h = refl
NoNul-take (suc n) [] h = refl
NoNul-take (suc n) (c ∷ s) h = ground (arith, NoNul-take n s)

length-take_le : (n : ℕ) (s : Str) → length (take n s) ≤ n
length-take_le zero s = omega arith
length-take_le (suc n) [] = omega arith
length-take_le (suc n) (c ∷ s) = omega (arith, length-take_le n s)

text-zeros : (rest : Str) → text (zeros argv_len ++ rest) ≡ []
unfolding padded
text-zeros rest = text-padded argv_len [] rest refl (omega arith)

drop-zeros : (rest : Str) → drop argv_len (zeros argv_len ++ rest) ≡ rest
unfolding padded
drop-zeros rest = drop-padded argv_len [] rest (omega arith)

rows-argv_bytes :
    (n : ℕ) (args : List Str) (tail : Str)
    → All NoNul args
    → rows n (argv_bytes n args ++ tail) ≡ seen n args
unfolding rows argv_bytes
rows-argv_bytes zero args tail h = refl
rows-argv_bytes (suc n) [] tail h =
    rw
      (
        append_assoc,
        text-zeros (argv_bytes n [] ++ tail),
        drop-zeros (argv_bytes n [] ++ tail),
        rows-argv_bytes n [] tail tt,
      )
      refl
rows-argv_bytes (suc n) (a ∷ args) tail (is, h) =
    let fits : length (take 127 a) < argv_len = omega (arith, length-take_le 127 a) in
    let fits_too : length (take 127 a) ≤ argv_len = omega arith in
    rw
      (
        append_assoc,
        text-padded argv_len (take 127 a) (argv_bytes n args ++ tail) (NoNul-take 127 a is) fits,
        drop-padded argv_len (take 127 a) (argv_bytes n args ++ tail) fits_too,
        rows-argv_bytes n args tail h,
      )
      refl

count_of-int_bytes : (n : ℕ) (s : Str) → n < 2147483648 → count_of (int_bytes n ++ s) ≡ n
unfolding count_of int_bytes
count_of-int_bytes n s h = ground arith

drop-int_bytes : (n : ℕ) (s : Str) → drop 4 (int_bytes n ++ s) ≡ s
unfolding int_bytes
drop-int_bytes n s = refl

length-int_bytes : (n : ℕ) (s : Str) → length (int_bytes n ++ s) ≡ 4 + length s
unfolding int_bytes
length-int_bytes n s = omega arith

length-argv_bytes : (n : ℕ) (args : List Str) → length (argv_bytes n args) ≡ n * argv_len
unfolding argv_bytes
length-argv_bytes zero args = refl
length-argv_bytes (suc n) [] = omega (
  arith,
  length-append (zeros argv_len) (argv_bytes n []),
  length-zeros argv_len,
  length-argv_bytes n [],
)
length-argv_bytes (suc n) (a ∷ args) =
    let fits : length (take 127 a) ≤ argv_len = omega (arith, length-take_le 127 a) in
    omega (
      arith,
      length-append (padded argv_len (take 127 a)) (argv_bytes n args),
      length-padded argv_len (take 127 a) fits,
      length-argv_bytes n args,
    )

-- The command that arrives when these arguments are sent.
abbrev pub sent : ℕ → Str → List Str → PluginCmd
sent type path args = record {
  type = type % 16 + 144;
  flag = 0x6b;
  argc = length args;
  path = path;
  argv = seen max_argv args;
}

decode-body :
    (a b : ℕ) (path : Str) (args : List Str) (tail : Str)
    → NoNul path
    → All NoNul args
    → length path < file_path_len
    → length args < 2147483648
    → decode (
        a
        ∷ b
        ∷ 0
        ∷ 0
        ∷ (int_bytes (length args)
            ++ ((padded file_path_len path ++ argv_bytes max_argv args) ++ tail)))
      ≡ record { type = a; flag = b; argc = length args; path = path; argv = seen max_argv args }
unfolding decode
decode-body a b path args tail h hs fits few =
    let rest = argv_bytes max_argv args ++ tail in
    let fits_too : length path ≤ file_path_len = omega arith in
    rw
      (
        append_assoc (padded file_path_len path) (argv_bytes max_argv args) tail,
        count_of-int_bytes (length args) (padded file_path_len path ++ rest) few,
        drop-int_bytes (length args) (padded file_path_len path ++ rest),
        text-padded file_path_len path rest h fits,
        drop-padded file_path_len path rest fits_too,
        rows-argv_bytes max_argv args tail hs,
      )
      refl

-- The bytes after the type, the mark and the padding.
abbrev pub body_of : Str → List Str → Str
body_of path args =
    int_bytes (length args) ++ (padded file_path_len path ++ argv_bytes max_argv args)

pub length-body_of :
    (path : Str) (args : List Str)
    → length path < file_path_len
    → length (body_of path args) ≡ body_len
length-body_of path args fits =
    let fits_too : length path ≤ file_path_len = omega arith in
    omega (
      arith,
      length-int_bytes (length args) (padded file_path_len path ++ argv_bytes max_argv args),
      length-append (padded file_path_len path) (argv_bytes max_argv args),
      length-padded file_path_len path fits_too,
      length-argv_bytes max_argv args,
    )

pub encode-some :
    (type : ℕ) (path : Str) (args : List Str) (bytes : Str)
    → encode type path args ≡ some bytes
    → (length path < file_path_len) × (bytes ≡ (type % 16 + 144) ∷ 0x6b ∷ 0 ∷ 0 ∷ body_of path args)
unfolding encode
encode-some type path args bytes e = (ground arith, ground arith)

-- A command that the client could encode arrives at the server as it was sent, whatever follows it:
-- the operation in the low bits of its type, the mark, the path, the number of arguments, and the
-- first 64 of them cut to 127 bytes. Its bytes are as many as the server reads for a command.
pub decode-encode :
    (type : ℕ) (path : Str) (args : List Str) (bytes tail : Str)
    → encode type path args ≡ some bytes
    → NoNul path
    → All NoNul args
    → length args < 2147483648
    → (decode (bytes ++ tail) ≡ sent type path args)
      × (length bytes ≡ 4 + body_len)
      × ((sent type path args).type % 16 ≡ type % 16)
decode-encode type path args bytes tail e h hs few =
    let (fits, is) = encode-some type path args bytes e in
    (
      rw (is, append_assoc) (decode-body (type % 16 + 144) 0x6b path args tail h hs fits few),
      rw is (omega (arith, length-body_of path args fits)),
      omega arith,
    )

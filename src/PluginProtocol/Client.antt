-- ===== src/PluginProtocol/Client.antt =====
-- What tools/plugin_client.c sends for its arguments.
use syswatcher.Base.{
  ℕ, ◌<◌, ◌≡◌, inl, inr, List, ◌∷◌, ◌++◌, some, arith, All, has-append, length, Bool-cases,
  Option-cases,
}
use syswatcher.Channel.{Str}
use syswatcher.PluginMgr.{srm_ok}
use syswatcher.PluginProtocol.{
  ClientEnv, decode, encode, is_absolute, plugin_path_parser, type_of, plugin_client,
}
use syswatcher.PluginProtocol.RoundTrip.{NoNul, sent, decode-encode}

plugin_path_parser-NoNul :
    (env : ClientEnv) (path plugin_path : Str)
    → NoNul path
    → ((buf : Str) → env.getcwd ≡ some buf → NoNul buf)
    → plugin_path_parser env path ≡ some plugin_path
    → NoNul plugin_path
unfolding plugin_path_parser
plugin_path_parser-NoNul env path plugin_path h cwd e = elim (Option-cases env.getcwd) [
  | inl gone ↦ let same : plugin_path ≡ path = ground arith in rw same h
  | inr (buf, is) ↦ elim (Bool-cases (is_absolute path)) [
    | inl absolute ↦ let same : plugin_path ≡ path = ground arith in rw same h
    | inr relative ↦
        let same : plugin_path ≡ buf ++ b'/' ∷ path = ground arith in
        rw same (ground (arith, has-append 0 buf (b'/' ∷ path), cwd buf is))
  ]
]

-- If the client succeeds, on arguments and a working directory that are C strings and fewer arguments than
-- an int counts, then its operation has a type and its path was resolved, and the server decodes the
-- bytes that it wrote, whatever follows them, to that type, that path and those arguments.
pub plugin_client-sent :
    (env : ClientEnv) (op path : Str) (args : List Str) (bytes tail : Str)
    → NoNul path
    → All NoNul args
    → length args < 2147483648
    → ((buf : Str) → env.getcwd ≡ some buf → NoNul buf)
    → plugin_client env (op ∷ path ∷ args) ≡ some (srm_ok, bytes)
    → (type : ℕ) × (plugin_path : Str) × (type_of op ≡ some type)
      × (plugin_path_parser env path ≡ some plugin_path)
      × (decode (bytes ++ tail) ≡ sent type plugin_path args)
unfolding plugin_client
plugin_client-sent env op path args bytes tail h hs few cwd e =
    elim (Option-cases (plugin_path_parser env path)) [
      | inl gone ↦ absurd (ground arith)
      | inr (plugin_path, is) ↦ elim (Option-cases (type_of op)) [
        | inl unknown ↦ absurd (ground arith)
        | inr (type, t) ↦ elim (Option-cases (encode type plugin_path args)) [
          | inl long ↦ absurd (ground arith)
          | inr (sent_bytes, s) ↦
              let same : bytes ≡ sent_bytes = ground arith in
              let no_nul = plugin_path_parser-NoNul env path plugin_path h cwd is in
              (
                type,
                plugin_path,
                t,
                is,
                rw same (decode-encode type plugin_path args sent_bytes tail s no_nul hs few).0,
              )
        ]
      ]
    ]

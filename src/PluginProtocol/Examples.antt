-- ===== src/PluginProtocol/Examples.antt =====
-- A command of tools/plugin_client.c and what the server makes of it.
use syswatcher.Base.{
  ℕ, true, ◌+◌, ◌%◌, ◌≡◌, refl, [], ◌∷◌, ◌++◌, List, Option, none, some, arith, length,
}
use syswatcher.Channel.{Str}
use syswatcher.CString.{codes, strncmp_eq}
use syswatcher.PluginProtocol.{
  body_len, decode, encode, ClientEnv, is_absolute, plugin_path_parser, type_of, plugin_client,
}
use syswatcher.PluginProtocol.Client.{plugin_client-sent}
use syswatcher.PluginProtocol.RoundTrip.{NoNul, sent, decode-encode}

abbrev args : List Str
args = codes "key=1" ∷ codes "x" ∷ []

abbrev bytes_or_none : Option Str → Str
bytes_or_none none = []
bytes_or_none (some bytes) = bytes

abbrev bytes : Str
bytes = bytes_or_none (encode 2 (codes "/opt/libcpu.so") args)

decode-encode_example :
    (decode (bytes ++ codes "tail") ≡ sent 2 (codes "/opt/libcpu.so") args)
    × (length bytes ≡ 4 + body_len)
    × ((sent 2 (codes "/opt/libcpu.so") args).type % 16 ≡ 2 % 16)
unfolding encode
decode-encode_example =
    decode-encode 2 (codes "/opt/libcpu.so") args bytes (codes "tail") refl refl (refl, (refl, tt))
      (omega arith)

abbrev client_env : ClientEnv
client_env = record {
  readable = λ path. true;
  getcwd = some (codes "/root");
  malloc = true;
  can_open = true;
}

abbrev written_by : Option (ℕ × Str) → Str
written_by none = []
written_by (some (ret, bytes)) = bytes

abbrev client_bytes : Str
client_bytes = written_by (plugin_client client_env (codes "reload" ∷ codes "libcpu.so" ∷ args))

root-NoNul : (buf : Str) → some (codes "/root") ≡ some buf → NoNul buf
root-NoNul buf e = let is : buf ≡ codes "/root" = ground arith in rw is refl

plugin_client-sent_example :
    (type : ℕ) × (plugin_path : Str) × (type_of (codes "reload") ≡ some type)
    × (plugin_path_parser client_env (codes "libcpu.so") ≡ some plugin_path)
    × (decode (client_bytes ++ codes "tail") ≡ sent type plugin_path args)
unfolding plugin_client plugin_path_parser type_of is_absolute encode strncmp_eq
plugin_client-sent_example =
    plugin_client-sent client_env (codes "reload") (codes "libcpu.so") args client_bytes
      (codes "tail") refl (refl, (refl, tt)) (omega arith) root-NoNul refl

-- ===== src/PluginServer/Commands.antt =====
-- plugin_run of core/plugin_server.c and what tools/plugin_client.c sends.
use syswatcher.Base.{
  ℕ, zero, suc, ◌+◌, ◌%◌, ◌<◌, ◌≤◌, ◌≡◌, refl, sym, ap, subst, ◌∙◌, true, List, [], ◌∷◌, ◌++◌,
  Option, none, some, arith, All, length, take, drop, Option-cases, inl, inr,
}
use syswatcher.Channel.{Str}
use syswatcher.PluginMgr.{PluginMgr, Env, Host}
use syswatcher.PluginMgr.Parser.{PluginCmd, plugin_parser}
use syswatcher.PluginProtocol.{encode, decode, body_len}
use syswatcher.PluginProtocol.RoundTrip.{
  NoNul, body_of, length-body_of, sent, encode-some, decode-encode,
}
use syswatcher.PluginServer.{
  Reader, read, is_command, run_command, run_header, plugin_run_round, plugin_run,
}

take-all : (n : ℕ) (xs ys : Str) → length xs ≡ n → take n (xs ++ ys) ≡ xs
take-all zero [] ys h = refl
take-all zero (x ∷ xs) ys h = absurd (omega arith)
take-all (suc n) [] ys h = absurd (omega arith)
take-all (suc n) (x ∷ xs) ys h = ap (◌∷◌ x) (take-all n xs ys (omega arith))

drop-all : (n : ℕ) (xs ys : Str) → length xs ≡ n → drop n (xs ++ ys) ≡ ys
drop-all zero [] ys h = refl
drop-all zero (x ∷ xs) ys h = absurd (omega arith)
drop-all (suc n) [] ys h = absurd (omega arith)
drop-all (suc n) (x ∷ xs) ys h = drop-all n xs ys (omega arith)

-- A run of the client that got as far as the pipe.
pub record Request : Type 0 where
  pub type : ℕ
  pub path : Str
  pub args : List Str

-- Its texts are C strings, and there are no more arguments than an int counts.
pub record IsRequest (q : Request) : Type 0 where
  pub path : NoNul q.path
  pub args : All NoNul q.args
  pub few : length q.args < 2147483648

abbrev pub cmd_of : Request → PluginCmd
cmd_of q = sent q.type q.path q.args

-- The bytes that several clients write one after the other.
unfoldable pub bytes_of : List Request → Option Str
bytes_of [] = some []
bytes_of (q ∷ qs) = elim (encode q.type q.path q.args) [
  | none ↦ none
  | some bytes ↦ elim (bytes_of qs) [ none ↦ none | some more ↦ some (bytes ++ more) ]
]

module _ (H : Host) where
  -- The commands of the requests, one after the other.
  pub parse_all : (ℕ → Env) → ℕ → PluginMgr H.State → List Request → Option (PluginMgr H.State)
  parse_all envs n mgr [] = some mgr
  parse_all envs n mgr (q ∷ qs) = elim (plugin_parser H (envs n) mgr (cmd_of q)) [
    | none ↦ none
    | some (mgr1, _) ↦ parse_all envs (n + 1) mgr1 qs
  ]

  is_command-sent : (t : ℕ) (s : Str) → is_command ((t % 16 + 144) ∷ 0x6b ∷ s) ≡ true
  unfolding is_command
  is_command-sent t s = ground arith

  read-header :
      (buf more : Str) (a b : ℕ)
      → read 0 4 buf (a ∷ b ∷ 0 ∷ 0 ∷ more) ≡ (a ∷ b ∷ 0 ∷ 0 ∷ drop 4 buf, more)
  unfolding read
  read-header buf more a b = refl

  read-body :
      (buf body more : Str) (a b : ℕ)
      → length body ≡ body_len
      → (tail : Str) × (read 4 body_len (a ∷ b ∷ 0 ∷ 0 ∷ buf) (body ++ more)
          ≡ (a ∷ b ∷ 0 ∷ 0 ∷ (body ++ tail), more))
  unfolding read
  read-body buf body more a b h = (
    drop (4 + length body) (a ∷ b ∷ 0 ∷ 0 ∷ buf),
    rw (take-all body_len body more h, drop-all body_len body more h) refl,
  )

  -- The first command of the pipe is parsed as it was sent, and only its bytes are taken.
  round-sent :
      (env : Env) (mgr : PluginMgr H.State) (buf bytes more : Str) (q : Request)
      → IsRequest q
      → encode q.type q.path q.args ≡ some bytes
      → (cmd_data : Str) × (plugin_run_round H env
            (record { mgr = mgr; cmd_data = buf; pipe = bytes ++ more })
          ≡ elim (plugin_parser H env mgr (cmd_of q)) [
            | none ↦ none
            | some (mgr1, _) ↦ some (record { mgr = mgr1; cmd_data = cmd_data; pipe = more })
          ])
  unfolding plugin_run_round run_header run_command
  round-sent env mgr buf bytes more q is e =
      let (fits, shape) = encode-some q.type q.path q.args bytes e in
      let body = body_of q.path q.args in
      let t = q.type % 16 + 144 in
      let (tail, reads) =
        read-body (drop 4 buf) body more t 0x6b (length-body_of q.path q.args fits) in
      let (decoded, _, _) =
        decode-encode q.type q.path q.args bytes tail e is.path is.args is.few in
      let same : decode (t ∷ 0x6b ∷ 0 ∷ 0 ∷ (body ++ tail)) ≡ cmd_of q =
        ap (λ b. decode (b ++ tail)) (sym shape) ∙ decoded in
      (
        t ∷ 0x6b ∷ 0 ∷ 0 ∷ (body ++ tail),
        rw
            (
              shape,
              read-header buf (body ++ more) t 0x6b,
              is_command-sent q.type (0 ∷ 0 ∷ drop 4 buf),
              reads,
            )
            (ap
              (λ c. elim (plugin_parser H env mgr c) [
                | none ↦ none
                | some (mgr1, _) ↦ some (record {
                  mgr = mgr1;
                  cmd_data = t ∷ 0x6b ∷ 0 ∷ 0 ∷ (body ++ tail);
                  pipe = more;
                })
              ])
              same),
      )

  -- What is left of a reader, but for its buffer.
  abbrev pub left_of : Option (Reader H.State) → Option (PluginMgr H.State × Str)
  left_of none = none
  left_of (some r) = some (r.mgr, r.pipe)

  abbrev pub all_read : Option (PluginMgr H.State) → Option (PluginMgr H.State × Str)
  all_read none = none
  all_read (some mgr) = some (mgr, [])

  -- The server does the commands of its clients, in the order in which they were written: from a pipe
  -- that holds the bytes of so many clients, as many rounds or more leave the manager as the commands
  -- leave it one after the other, and the pipe empty; they fault exactly if one of the commands does.
  pub plugin_run-parse_all :
      (envs : ℕ → Env) (fuel n : ℕ) (mgr : PluginMgr H.State) (buf bytes : Str) (qs : List Request)
      → All IsRequest qs
      → bytes_of qs ≡ some bytes
      → length qs ≤ fuel
      → left_of (plugin_run H envs fuel n (record { mgr = mgr; cmd_data = buf; pipe = bytes }))
        ≡ all_read (parse_all envs n mgr qs)
  unfolding plugin_run parse_all bytes_of
  plugin_run-parse_all envs zero n mgr buf bytes [] is e enough = ground arith
  plugin_run-parse_all envs (suc fuel) n mgr buf bytes [] is e enough =
      let empty : bytes ≡ [] = ground arith in
      subst
        (λ b.
          left_of (plugin_run H envs (suc fuel) n (record { mgr = mgr; cmd_data = buf; pipe = b }))
          ≡ some (mgr, []))
        (sym empty) refl
  plugin_run-parse_all envs zero n mgr buf bytes (q ∷ qs) is e enough = absurd (omega arith)
  plugin_run-parse_all envs (suc fuel) n mgr buf bytes (q ∷ qs) (is, are) e enough =
      elim (Option-cases (encode q.type q.path q.args)) [
        | inl long ↦ absurd (ground arith)
        | inr (first, e1) ↦ elim (Option-cases (bytes_of qs)) [
          | inl long ↦ absurd (ground arith)
          | inr (more, e2) ↦
              let shape : bytes ≡ first ++ more = ground arith in
              let (cmd_data, round) = round-sent (envs n) mgr buf first more q is e1 in
              let (fits, cons) = encode-some q.type q.path q.args first e1 in
              let at_bytes =
                ap
                  (λ b. left_of (
                    plugin_run H envs (suc fuel) n
                      (record { mgr = mgr; cmd_data = buf; pipe = b })))
                  shape in
              let at_first =
                subst
                  (λ b.
                    plugin_run H envs (suc fuel) n
                      (record { mgr = mgr; cmd_data = buf; pipe = b ++ more })
                    ≡ elim (plugin_run_round H (envs n)
                        (record { mgr = mgr; cmd_data = buf; pipe = b ++ more })) [
                          | none ↦ none
                          | some r1 ↦ plugin_run H envs fuel (n + 1) r1
                        ])
                  (sym cons) refl in
              elim (Option-cases (plugin_parser H (envs n) mgr (cmd_of q))) [
                | inl fault ↦
                    let none_left : parse_all envs n mgr (q ∷ qs) ≡ none =
                      rw (parse_all, fault) refl in
                    at_bytes ∙ ap left_of at_first ∙ rw (round, fault) (sym (ap all_read none_left))
                | inr ((mgr1, ret), next) ↦
                    let others : parse_all envs n mgr (q ∷ qs) ≡ parse_all envs (n + 1) mgr1 qs =
                      rw (parse_all, next) refl in
                    at_bytes
                    ∙ ap left_of at_first
                    ∙ rw (round, next)
                        (plugin_run-parse_all envs fuel (n + 1) mgr1 cmd_data more qs are e2
                          (omega arith))
                    ∙ sym (ap all_read others)
              ]
        ]
      ]

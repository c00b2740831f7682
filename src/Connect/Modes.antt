-- ===== src/Connect/Modes.antt =====
-- rust/src/connect.rs: what `connect` does with a configuration that the command line accepted.
use mcpway.Base.{
  Option, String, ◌≡◌, refl, sym, ap, subst, ◌∙◌, ◌⊎◌, inl, inr, Bool, true, false, not, ◌||◌, none,
  some, [], ◌∷◌, arith, ◌==◌, Bool-cases, is_some, any, if◌then◌else◌,
}
use mcpway.Base.Text.{◌++◌}
use mcpway.Base.Dict.{keys}
use mcpway.Base.Result.{Result, ok, map_ok, ◌>>=◌, bind-eq-ok, ok_inj, is_ok}
use mcpway.Discovery.Search.Registry.{ResolvedImportedServer, ConnectProtocol}
use mcpway.Config.{ArgMatches, parse_headers}
use mcpway.Config.Accepted.{one_of_three}
use mcpway.Config.Modes.{has_one_mode, check_modes-is_ok}
use mcpway.Config.Connect.{
  ConnectConfig, ConnectOauthConfig, parse_connect_config_from, check_modes, oauth_config,
}
use mcpway.Connect.{
  Outside, start, remote, run, run_target, run_endpoint, run_server_mode, asks_logout,
  infer_protocol, remote_headers, has_authorization_header, same_letters, chosen_protocol,
  resolve_connect_stdio_command,
}
use mcpway.Base.Dict.{Dict, lookup, insert, lookup-insert}

-- The modes of a configuration: exactly one of an endpoint, a server and a command.
unfoldable pub HasOneMode : ConnectConfig → Type 0
HasOneMode c =
    one_of_three (is_some c.endpoint) (is_some c.server)
      (is_some c.stdio_cmd || is_some c.stdio_wrapper)
    ≡ true

has_one_mode-one_of_three :
    (m : ArgMatches)
    → has_one_mode m ≡ true
    → one_of_three
        (is_some (m.get_one "endpoint"))
        (is_some (m.get_one "server"))
        (is_some (m.get_one "stdio-cmd") || is_some (m.get_one "stdio-wrapper"))
      ≡ true
unfolding has_one_mode
has_one_mode-one_of_three m h = ground (arith, h)

parse_connect_config_from-one :
    (m : ArgMatches) (c : ConnectConfig)
    → parse_connect_config_from (some m) ≡ ok c
    → one_of_three
        (is_some (m.get_one "endpoint"))
        (is_some (m.get_one "server"))
        (is_some (m.get_one "stdio-cmd") || is_some (m.get_one "stdio-wrapper"))
      ≡ true
unfolding parse_connect_config_from
parse_connect_config_from-one m c h =
    let (chosen, e, more) = bind-eq-ok _ (check_modes m) h in
    has_one_mode-one_of_three m (sym (check_modes-is_ok m) ∙ ap is_ok e)

parse_connect_config_from-HasOneMode :
    (m : ArgMatches) (c : ConnectConfig) → parse_connect_config_from (some m) ≡ ok c → HasOneMode c
unfolding parse_connect_config_from parse_headers HasOneMode
parse_connect_config_from-HasOneMode m c h =
    let (chosen, e, h1) = bind-eq-ok _ (check_modes m) h in
    let (oauth, eo, h2) = bind-eq-ok _ (oauth_config m) h1 in
    subst HasOneMode (ok_inj h2) (parse_connect_config_from-one m c h)

module _ (o : Outside) (resolve : String → Result String ResolvedImportedServer)
    (c : ConnectConfig) where
  run-stdio :
      asks_logout c.oauth ≡ none
      → (is_some c.stdio_cmd || is_some c.stdio_wrapper) ≡ true
      → run o resolve c ≡ map_ok (start c.save_wrapper_dir) (resolve_connect_stdio_command o c)
  unfolding run
  run-stdio no_logout e = rw (run, no_logout, e) refl

  run-server :
      (name : String)
      → asks_logout c.oauth ≡ none
      → (is_some c.stdio_cmd || is_some c.stdio_wrapper) ≡ false
      → c.server ≡ some name
      → run o resolve c ≡ (resolve name >>= run_server_mode c)
  unfolding run run_target
  run-server name no_logout e f = rw (run, no_logout, e) (ap (run_target o resolve c) f)

  endpoint_found :
      (endpoint : String)
      → c.endpoint ≡ some endpoint
      → run_endpoint o c ≡ map_ok (remote c endpoint) (chosen_protocol o c.protocol endpoint)
  unfolding run_endpoint
  endpoint_found endpoint g = ground (arith, g)

  run-endpoint :
      (endpoint : String)
      → asks_logout c.oauth ≡ none
      → (is_some c.stdio_cmd || is_some c.stdio_wrapper) ≡ false
      → c.server ≡ none
      → c.endpoint ≡ some endpoint
      → run o resolve c ≡ map_ok (remote c endpoint) (chosen_protocol o c.protocol endpoint)
  unfolding run run_target
  run-endpoint endpoint no_logout e f g =
      let found : run_endpoint o c
          ≡ map_ok (remote c endpoint) (chosen_protocol o c.protocol endpoint) =
        endpoint_found endpoint g in
      rw (run, no_logout, e) (ap (run_target o resolve c) f ∙ found)

-- What the command line gives, as the configuration has it.
unfoldable pub IsGiven : ArgMatches → ConnectConfig → Type 0
IsGiven m c =
    (c.endpoint ≡ m.get_one "endpoint")
    × (c.server ≡ m.get_one "server")
    × (c.stdio_cmd ≡ m.get_one "stdio-cmd")
    × (c.stdio_wrapper ≡ m.get_one "stdio-wrapper")
    × (c.protocol ≡ m.get_protocol "protocol")
    × (c.save_wrapper_dir ≡ m.get_one "save-wrapper")

parse_connect_config_from-IsGiven :
    (m : ArgMatches) (c : ConnectConfig) → parse_connect_config_from (some m) ≡ ok c → IsGiven m c
unfolding parse_connect_config_from parse_headers IsGiven
parse_connect_config_from-IsGiven m c h =
    let (chosen, e, h1) = bind-eq-ok _ (check_modes m) h in
    let (oauth, eo, h2) = bind-eq-ok _ (oauth_config m) h1 in
    subst (IsGiven m) (ok_inj h2) (refl, refl, refl, refl, refl, refl)

-- Of the modes only the one that is given is there.
server_only :
    (c : ConnectConfig) (name : String)
    → HasOneMode c
    → c.server ≡ some name
    → (is_some c.stdio_cmd || is_some c.stdio_wrapper) ≡ false
unfolding HasOneMode
server_only c name h f = ground (arith, h, f)

endpoint_only :
    (c : ConnectConfig) (endpoint : String)
    → HasOneMode c
    → c.endpoint ≡ some endpoint
    → ((is_some c.stdio_cmd || is_some c.stdio_wrapper) ≡ false) × (c.server ≡ none)
unfolding HasOneMode
endpoint_only c endpoint h f = ground (arith, h, f)

chosen_protocol-given :
    (o : Outside) (given : Option ConnectProtocol) (endpoint : String)
    → chosen_protocol o given endpoint
      ≡ elim given [ none ↦ infer_protocol o endpoint | some protocol ↦ ok protocol ]
unfolding chosen_protocol
chosen_protocol-given o none endpoint = refl
chosen_protocol-given o (some protocol) endpoint = refl

-- `connect` does what its command line asks for, if that is accepted and does not ask to log out. With a
-- command or a wrapper the command is resolved and started; with a server that server is looked up
-- and used; with an endpoint that is connected to, by the given protocol or else by the one that is
-- inferred from it. One of these is given, so the error that there is no mode does not come up.
pub run-modes :
    (o : Outside) (resolve : String → Result String ResolvedImportedServer) (m : ArgMatches)
    (c : ConnectConfig)
    → parse_connect_config_from (some m) ≡ ok c
    → asks_logout c.oauth ≡ none
    → (one_of_three
          (is_some (m.get_one "endpoint"))
          (is_some (m.get_one "server"))
          (is_some (m.get_one "stdio-cmd") || is_some (m.get_one "stdio-wrapper"))
        ≡ true)
      × ((is_some (m.get_one "stdio-cmd") || is_some (m.get_one "stdio-wrapper")) ≡ true
          → run o resolve c
            ≡ map_ok (start (m.get_one "save-wrapper")) (resolve_connect_stdio_command o c))
      × ((name : String)
          → m.get_one "server" ≡ some name
          → run o resolve c ≡ (resolve name >>= run_server_mode c))
      × ((endpoint : String)
          → m.get_one "endpoint" ≡ some endpoint
          → run o resolve c
            ≡ map_ok (remote c endpoint) (elim (m.get_protocol "protocol") [
              | none ↦ infer_protocol o endpoint
              | some protocol ↦ ok protocol
            ]))
unfolding IsGiven
run-modes o resolve m c h no_logout =
    let one = parse_connect_config_from-HasOneMode m c h in
    let (endpoint_is, server_is, cmd_is, wrapper_is, protocol_is, save_is) =
      parse_connect_config_from-IsGiven m c h in
    (
      parse_connect_config_from-one m c h,
      (λ given.
          run-stdio o resolve c no_logout (ground (arith, given, cmd_is, wrapper_is))
          ∙ ap (λ dir. map_ok (start dir) (resolve_connect_stdio_command o c)) save_is),
      (λ name given.
          let f = server_is ∙ given in
          run-server o resolve c name no_logout (server_only c name one f) f),
      λ endpoint given.
          let f = endpoint_is ∙ given in
          let (no_stdio, no_server) = endpoint_only c endpoint one f in
          run-endpoint o resolve c endpoint no_logout no_stdio no_server f
          ∙ ap (λ protocol. map_ok (remote c endpoint) (chosen_protocol o protocol endpoint))
              protocol_is
          ∙ ap (map_ok (remote c endpoint))
              (chosen_protocol-given o (m.get_protocol "protocol") endpoint),
    )

any-keys-insert :
    (p : String → Bool) (k v : String) (d : Dict String)
    → p k ≡ true
    → any p (keys (insert k v d)) ≡ true
unfolding insert
any-keys-insert p k v [] h = ground (arith, h)
any-keys-insert p k v ((j, w) ∷ d) h = ground (arith, h, any-keys-insert p k v d h)

-- Where OAuth is configured and the token is there: if a login is asked for, or no header is an
-- authorization in whatever letters, the token is the bearer token that is sent and every other header
-- stays; if neither holds, the headers are sent as they are. In both cases an authorization is sent.
pub remote_headers-authorized :
    (oauth : ConnectOauthConfig) (token : String) (headers out : Dict String)
    → remote_headers (some oauth) (ok token) headers ≡ ok out
    → ((oauth.login ≡ true) ⊎ (has_authorization_header headers ≡ false)
        → (k : String)
        → lookup k out
          ≡ (if "Authorization" == k then some ("Bearer " ++ token) else lookup k headers))
      × (oauth.login ≡ false → has_authorization_header headers ≡ true → out ≡ headers)
      × (has_authorization_header out ≡ true)
unfolding remote_headers has_authorization_header
remote_headers-authorized oauth token headers out h =
    let bearer = "Bearer " ++ token in
    let named = λ (key : String). same_letters key "authorization" in
    elim (Bool-cases (oauth.login || not (has_authorization_header headers))) [
      | inl e ↦
          (let same : insert "Authorization" bearer headers ≡ out =
              ok_inj (sym (rw (remote_headers, e) refl) ∙ h) in
            (
              λ asked k.
                  subst
                    (λ d.
                      lookup k d ≡ (if "Authorization" == k then some bearer else lookup k headers))
                    same (lookup-insert "Authorization" k bearer headers),
              (λ login has. absurd (ground (arith, e, login, has))),
              subst (λ d. has_authorization_header d ≡ true) same
                  (any-keys-insert named "Authorization" bearer headers refl),
            ))
      | inr e ↦
          (let same : headers ≡ out = ok_inj (sym (rw (remote_headers, e) refl) ∙ h) in
            (
              (λ asked k. absurd (ground (arith, e, asked))),
              (λ login has. sym same),
              subst (λ d. has_authorization_header d ≡ true) same (ground (arith, e)),
            ))
    ]

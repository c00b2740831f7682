-- ===== src/Config/Modes.antt =====
-- rust/src/config.rs: when `parse_connect_config_from` succeeds.
use mcpway.Base.{◌≡◌, Bool, not, ◌&&◌, ◌||◌, [], ◌∷◌, arith, ltb, is_some, unwrap_or, length, any}
use mcpway.Base.Result.{is_ok}
use mcpway.Config.{ArgMatches}
use mcpway.Config.Accepted.{one_of_three}
use mcpway.Config.Connect.{check_modes}

-- The modes of `connect`: one of an endpoint, a server and a command, the command in one of its two
-- forms, and no protocol for a command.
unfoldable pub has_one_mode : ArgMatches → Bool
has_one_mode m =
    let cmd = is_some (m.get_one "stdio-cmd") in
    let wrapper = is_some (m.get_one "stdio-wrapper") in
    one_of_three (is_some (m.get_one "endpoint")) (is_some (m.get_one "server")) (cmd || wrapper)
    && not (cmd && wrapper)
    && not (is_some (m.get_protocol "protocol") && (cmd || wrapper))

-- Some option of OAuth stands.
unfoldable pub asks_oauth : ArgMatches → Bool
asks_oauth m =
    any (λ key. is_some (m.get_one key))
      ("oauth-profile" ∷ "oauth-issuer" ∷ "oauth-client-id" ∷ "oauth-cache" ∷ "oauth-audience" ∷ [])
    || any m.get_flag ("oauth-no-browser" ∷ "oauth-login" ∷ "oauth-logout" ∷ [])
    || ltb 0 (length (unwrap_or (m.get_many "oauth-scope") []))

-- Where OAuth is asked for it has an issuer and a client.
unfoldable pub has_oauth : ArgMatches → Bool
unfolding asks_oauth
has_oauth m =
    not (asks_oauth m)
    || (is_some (m.get_one "oauth-issuer") && is_some (m.get_one "oauth-client-id"))

pub check_modes-is_ok : (m : ArgMatches) → is_ok (check_modes m) ≡ has_one_mode m
unfolding check_modes has_one_mode
check_modes-is_ok m = ground arith

-- ===== src/Config/Accepted.antt =====
-- rust/src/config.rs: when `parse_config_from` succeeds, and what the configuration is
-- then worth.
use mcpway.Base.{
  ℕ, ◌≤◌, String, ◌≡◌, refl, sym, ap, subst, ◌∙◌, inl, inr, Bool, true, false, not, ◌&&◌, ◌||◌,
  Option, none, some, List, ◌-◌, ◌^◌, arith, leb, ◌==◌, Option-cases, is_some, or_else, any,
}
use mcpway.Base.Result.{ok, is_ok, bind-eq-ok, ok_inj}
use mcpway.Base.Decimal.{parse_i64, parse_unsigned, parse_unsigned-le}
use mcpway.Base.Text.{is_empty, trim}
use mcpway.Config.{ArgMatches, non_blank, parse_headers, default_output_transport}
use mcpway.Config.Run.{
  Config, parse_config_from, check_transports, select_output, parse_session_timeout,
  parse_admin_port, parse_port,
}
use mcpway.Base.Int.{pos, negsuc}

-- Exactly one of three.
abbrev pub one_of_three : Bool → Bool → Bool → Bool
one_of_three true b c = not b && not c
one_of_three false true c = not c
one_of_three false false c = c

-- The text is absent or an integer from 1 to `max`.
unfoldable pub absent_or_upto : ℕ → Option String → Bool
unfolding parse_i64
absent_or_upto max none = true
absent_or_upto max (some raw) = elim (parse_i64 raw) [
  | none ↦ false
  | some (pos n) ↦ leb 1 n && leb n max
  | some (negsuc n) ↦ false
]

-- The arguments say which transport to put out.
unfoldable pub has_output : ArgMatches → List String → Bool
has_output m raw_args =
    is_some (m.get_output_transport "output-transport")
    || any (λ arg. arg == "--stdio") raw_args
    || any (λ arg. arg == "--sse") raw_args
    || any (λ arg. arg == "--streamable-http") raw_args

check_transports-is_ok :
    (m : ArgMatches)
    → is_ok (check_transports m)
      ≡ one_of_three
          (is_some (m.get_one "stdio"))
          (is_some (m.get_one "sse"))
          (is_some (m.get_one "streamable-http"))
unfolding check_transports
check_transports-is_ok m = ground arith

select_output-is_ok :
    (m : ArgMatches) (raw_args : List String)
    → is_ok (select_output m raw_args) ≡ has_output m raw_args
unfolding select_output default_output_transport has_output
select_output-is_ok m raw_args = ground arith

parse_session_timeout-is_ok :
    (raw : Option String) → is_ok (parse_session_timeout raw) ≡ absent_or_upto (2 ^ 63 - 1) raw
unfolding parse_session_timeout absent_or_upto parse_i64
parse_session_timeout-is_ok none = refl
parse_session_timeout-is_ok (some raw) = ground arith

parse_admin_port-is_ok :
    (raw : Option String) → is_ok (parse_admin_port raw) ≡ absent_or_upto 65535 raw
unfolding parse_admin_port absent_or_upto
parse_admin_port-is_ok none = refl
parse_admin_port-is_ok (some raw) = ground arith

-- The gateway is configured exactly if one and only one of the transports `--stdio`, `--sse` and
-- `--streamable-http` is given, the transport to put out is given or one of these words stands alone
-- among the arguments, and the session's timeout and the administration's port are each absent or
-- an integer from 1 to the largest signed 64-bit integer and to 65535.
pub parse_config_from-is_ok :
    (m : ArgMatches) (env_var : String → Option String) (raw_args : List String)
    → is_ok (parse_config_from m env_var raw_args) ≡ (
        one_of_three
          (is_some (m.get_one "stdio"))
          (is_some (m.get_one "sse"))
          (is_some (m.get_one "streamable-http"))
        && has_output m raw_args
        && absent_or_upto (2 ^ 63 - 1) (m.get_one "session-timeout")
        && absent_or_upto 65535 (m.get_one "runtime-admin-port"))
unfolding parse_config_from parse_headers
parse_config_from-is_ok m env_var raw_args = ground (
  arith,
  check_transports-is_ok m,
  select_output-is_ok m raw_args,
  parse_session_timeout-is_ok (m.get_one "session-timeout"),
  parse_admin_port-is_ok (m.get_one "runtime-admin-port"),
)

-- The number is absent or from 1 to `max`.
abbrev pub absent_or_number : ℕ → Option ℕ → Bool
absent_or_number max none = true
absent_or_number max (some n) = leb 1 n && leb n max

-- What the other parts rely on: the fields are in the range of their types, one transport is chosen,
-- and a token of the administration is not empty.
unfoldable pub IsProper : Config → Type 0
unfolding trim
IsProper c =
    (one_of_three (is_some c.stdio) (is_some c.sse) (is_some c.streamable_http) ≡ true)
    × (c.port ≤ 65535)
    × (absent_or_number (2 ^ 63 - 1) c.session_timeout ≡ true)
    × (absent_or_number 65535 c.runtime_admin_port ≡ true)
    × ((token : String) → c.runtime_admin_token ≡ some token → is_empty token ≡ false)

parse_port-le : (raw : Option String) → parse_port raw ≤ 65535
unfolding parse_port
parse_port-le none = omega arith
parse_port-le (some s) = elim (Option-cases (parse_unsigned 65535 s)) [
  | inl e ↦ rw e (omega arith)
  | inr (n, e) ↦ rw e (parse_unsigned-le 65535 s n e)
]

parse_session_timeout-range :
    (raw : Option String) (t : Option ℕ)
    → parse_session_timeout raw ≡ ok t
    → absent_or_number (2 ^ 63 - 1) t ≡ true
unfolding parse_session_timeout parse_i64
parse_session_timeout-range none t h = ground arith
parse_session_timeout-range (some raw) t h = ground arith

parse_admin_port-range :
    (raw : Option String) (t : Option ℕ)
    → parse_admin_port raw ≡ ok t
    → absent_or_number 65535 t ≡ true
unfolding parse_admin_port
parse_admin_port-range none t h = ground arith
parse_admin_port-range (some raw) t h = ground arith

non_blank-is_empty :
    (value : Option String) (token : String) → non_blank value ≡ some token → is_empty token ≡ false
unfolding non_blank
non_blank-is_empty none token h = ground arith
non_blank-is_empty (some value) token h = ground arith

-- A configuration that is accepted is proper: one transport is chosen, the ports fit 16 bits, the
-- timeout is positive, the administration's port is not 0, and its token is not empty.
pub parse_config_from-IsProper :
    (m : ArgMatches) (env_var : String → Option String) (raw_args : List String) (c : Config)
    → parse_config_from m env_var raw_args ≡ ok c
    → IsProper c
unfolding parse_config_from parse_headers IsProper
parse_config_from-IsProper m env_var raw_args c h =
    let (chosen, e, h1) = bind-eq-ok _ (check_transports m) h in
    let (output_transport, eo, h2) = bind-eq-ok _ (select_output m raw_args) h1 in
    let (session_timeout, et, h3) =
      bind-eq-ok _ (parse_session_timeout (m.get_one "session-timeout")) h2 in
    let (port, ep, h4) = bind-eq-ok _ (parse_admin_port (m.get_one "runtime-admin-port")) h3 in
    subst IsProper (ok_inj h4) (
      sym (check_transports-is_ok m) ∙ ap is_ok e,
      parse_port-le (or_else (m.get_one "port") (env_var "PORT")),
      parse_session_timeout-range (m.get_one "session-timeout") session_timeout et,
      parse_admin_port-range (m.get_one "runtime-admin-port") port ep,
      non_blank-is_empty
          (or_else (m.get_one "runtime-admin-token") (env_var "MCPWAY_RUNTIME_ADMIN_TOKEN")),
    )

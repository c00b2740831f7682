-- ===== src/Admin/Tests.antt =====
-- rust/src/runtime/admin.rs: requests with and without the token.
use mcpway.Base.{◌≡◌, refl, ◌↔◌, [], ◌∷◌, true, false, Option, none, some, String, ◌||◌}
use mcpway.Base.Result.{Result, err}
use mcpway.Base.Text.{
  strip_prefix, trim, trim_matches, trim_start_matches, trim_end_matches, is_whitespace,
}
use mcpway.Discovery.{SourceKind, DiscoveryReport}
use mcpway.Runtime.{
  RuntimeArgsStore, RuntimeArgsUpdate, RuntimeUpdate, RuntimeApplyResult, apply_ok, default_args,
}
use mcpway.Admin.{
  AdminServerOptions, AdminState, Request, defaults, new_metrics, authorize_and_record, authorize,
  run_route, apply_runtime, matches_admin_token, record_request,
}
use mcpway.Admin.Access.{is_remote, lacks_token, IsUntouched, authorize_and_record-refused}
use mcpway.Admin.Metrics.{serve, paths_of, IsCount, serve-IsCount}

abbrev options : AdminServerOptions
options = record {
  bearer_token = some "t";
  loopback_only = true;
  discovery_project_root = none;
  discovery_source = none;
}

abbrev no_update : RuntimeArgsUpdate
no_update = record { extra_cli_args = none; env = none; headers = none }

abbrev good : Request
good = record {
  path = "/v1/runtime/defaults";
  is_loopback = true;
  authorization = some "Bearer t";
  route = defaults no_update;
}

abbrev bad : Request
bad = record good { authorization = some "Bearer u" }

abbrev store : RuntimeArgsStore
store = record { global = default_args; sessions = [] }

abbrev handler : RuntimeUpdate → RuntimeArgsStore → RuntimeArgsStore × RuntimeApplyResult
handler update s = (s, apply_ok "Updated" false)

abbrev discover : Option SourceKind → Option String → Result String DiscoveryReport
discover source path = err "no"

abbrev start : AdminState
start = record { runtime = store; metrics = new_metrics }

serve-two : (serve handler discover options (bad ∷ good ∷ []) start).0 ≡ "401" ∷ "200" ∷ []
unfolding serve authorize_and_record authorize run_route apply_runtime matches_admin_token
    strip_prefix trim trim_matches trim_start_matches trim_end_matches is_whitespace record_request
serve-two = refl

authorize_and_record-refused_example :
    (((authorize_and_record handler discover options bad start).0.status ≡ "403")
      ↔ (is_remote options bad ≡ true))
    × (((authorize_and_record handler discover options bad start).0.status ≡ "401")
        ↔ ((is_remote options bad ≡ false) × (lacks_token options bad ≡ true)))
    × ((is_remote options bad || lacks_token options bad) ≡ true
        → IsUntouched start (authorize_and_record handler discover options bad start).1)
authorize_and_record-refused_example =
    authorize_and_record-refused handler discover options bad start

serve-IsCount_example :
    IsCount
      (good.path ∷ good.path ∷ [])
      (serve handler discover options (bad ∷ good ∷ []) start).0
      (serve handler discover options (bad ∷ good ∷ []) start).1.metrics
unfolding paths_of
serve-IsCount_example = serve-IsCount handler discover options (bad ∷ good ∷ []) store

-- ===== src/Admin.antt =====
-- rust/src/runtime/admin.rs: the HTTP interface for runtime updates, its authorization and its metrics.
-- Status codes are the texts of their numbers, and bodies stand as they are before they are printed. The
-- gateway that applies an update and the search for servers are parameters. What axum answers itself,
-- where no route matches or a body does not parse, is left out.
pub mod Access
pub mod Metrics
mod Tests
use mcpway.Base.{
  ◌^◌, ◌%◌, ℕ, zero, suc, ◌+◌, ◌-◌, ◌*◌, ◌≤◌, ◌<◌, String, Char, code, ◌≡◌, refl, sym, ap, subst,
  ◌∙◌, ◌≢◌, ◌⊎◌, inl, inr, Bool, true, false, not, ◌&&◌, ◌||◌, Option, none, some, List, [], ◌∷◌,
  ◌++◌, map, arith, eq_iff, ltb, leb, eqb, ◌==◌, if◌then◌else◌, Bool-cases, Option-cases, is_some,
  or_else, unwrap_or, and_then, keep_if, eq-false_of_ne, length, any, select,
}
use mcpway.Base.Result.{Result, ok, err}
use mcpway.Base.Text.{strip_prefix, trim}
use mcpway.Discovery.{SourceKind, DiscoveryReport}
use mcpway.Discovery.Search.{DiscoverySearchOptions, apply_search}
use mcpway.Runtime.{
  RuntimeArgsStore, RuntimeArgsUpdate, RuntimeUpdate, RuntimeApplyResult, global, session,
  list_sessions,
}
use mcpway.Base.Int.{ℤ, pos, negsuc, fits_i64}
use mcpway.Base.Dict.{
  Dict, lookup, insert, remove, contains, insert_all, lookup-insert, lookup-remove,
}
use mcpway.Json.{
  Value, Fields, Items, null, bool, int, float, str, arr, obj, end, field, no_items, item, get,
  get_field, insert_field, as_str, as_object, as_array, as_i64, elems,
}

pub record AdminServerOptions : Type 0 where
  pub bearer_token : Option String
  pub loopback_only : Bool
  pub discovery_project_root : Option String
  pub discovery_source : Option SourceKind

-- The counters are `u64`.
pub record AdminMetrics : Type 0 where
  pub requests_total : ℕ
  pub unauthorized_total : ℕ
  pub forbidden_total : ℕ
  pub runtime_updates_total : ℕ
  pub discovery_search_total : ℕ
  pub route_requests : Dict ℕ
  pub status_counts : Dict ℕ

abbrev pub new_metrics : AdminMetrics
new_metrics = record {
  requests_total = 0;
  unauthorized_total = 0;
  forbidden_total = 0;
  runtime_updates_total = 0;
  discovery_search_total = 0;
  route_requests = [];
  status_counts = [];
}

-- `AdminState`, without the options and the handler.
pub record AdminState : Type 0 where
  pub runtime : RuntimeArgsStore
  pub metrics : AdminMetrics

-- `fetch_add(1, _)`
abbrev pub fetch_add : ℕ → ℕ
fetch_add n = (n + 1) % 2 ^ 64

-- `*map.entry(key).or_insert(0) += 1`
unfoldable pub count_one : String → Dict ℕ → Dict ℕ
unfolding lookup insert
count_one key counts = insert key (fetch_add (unwrap_or (lookup key counts) 0)) counts

unfoldable pub record_request : String → String → AdminMetrics → AdminMetrics
unfolding count_one
record_request route status m = record m {
  requests_total = fetch_add m.requests_total;
  unauthorized_total =
      if status == "401" then fetch_add m.unauthorized_total else m.unauthorized_total;
  forbidden_total = if status == "403" then fetch_add m.forbidden_total else m.forbidden_total;
  route_requests = count_one route m.route_requests;
  status_counts = count_one status m.status_counts;
}

abbrev pub record_runtime_update : AdminMetrics → AdminMetrics
record_runtime_update m = record m { runtime_updates_total = fetch_add m.runtime_updates_total }

abbrev pub record_discovery_search : AdminMetrics → AdminMetrics
record_discovery_search m = record m { discovery_search_total = fetch_add m.discovery_search_total }

pub record DiscoverySearchRequest : Type 0 where
  pub from : Option SourceKind
  pub project_root : Option String
  pub search : DiscoverySearchOptions

pub data Body : Type 0 where
  applied : RuntimeApplyResult → Body
  session_ids : List String → Body
  health : (session_count : ℕ) → (loopback_only auth_enabled : Bool) → Body
  metrics_json metrics_prometheus : AdminMetrics → Body
  report : (total returned : ℕ) → DiscoveryReport → Body
  error : String → Body

pub record Response : Type 0 where
  pub status : String
  pub body : Body

abbrev pub json_error : String → String → Response
json_error status message = record { status = status; body = error message }

-- `Json`
abbrev pub json : Body → Response
json body = record { status = "200"; body = body }

pub data Route : Type 0 where
  defaults : RuntimeArgsUpdate → Route
  session_route : String → RuntimeArgsUpdate → Route
  sessions_route health_route metrics_route prometheus_route : Route
  search_route : DiscoverySearchRequest → Route

-- What the middleware reads: the matched path, whether the peer is on the loopback, and the value of the
-- authorization header, if it is there and a text.
pub record Request : Type 0 where
  pub path : String
  pub is_loopback : Bool
  pub authorization : Option String
  pub route : Route

unfoldable pub matches_admin_token : Option String → String → Bool
unfolding strip_prefix trim
matches_admin_token authorization expected =
    elim (and_then authorization (strip_prefix "Bearer ")) [
      | none ↦ false
      | some actual ↦ trim actual == expected
    ]

module _ (handler : RuntimeUpdate → RuntimeArgsStore → RuntimeArgsStore × RuntimeApplyResult)
    (discover : Option SourceKind → Option String → Result String DiscoveryReport)
    (options : AdminServerOptions) where
  -- `update_defaults` and `update_session`
  unfoldable pub apply_runtime : RuntimeUpdate → AdminState → Response × AdminState
  apply_runtime update s =
      let (runtime, result) = handler update s.runtime in
      (
        json (applied result),
        record { runtime = runtime; metrics = record_runtime_update s.metrics },
      )

  unfoldable pub discovery_search : DiscoverySearchRequest → Response
  unfolding apply_search
  discovery_search request =
      elim (discover (or_else request.from options.discovery_source)
        (or_else request.project_root options.discovery_project_root)) [
          | err e ↦ json_error "400" e
          | ok found ↦
              let filtered = apply_search found request.search in
              json (report (length found.servers) (length filtered.servers) filtered)
        ]

  -- `next.run(req)`: the handler of the route.
  unfoldable pub run_route : Route → AdminState → Response × AdminState
  unfolding apply_runtime discovery_search list_sessions
  run_route (defaults update) s = apply_runtime (record { scope = global; update = update }) s
  run_route (session_route id update) s =
      apply_runtime (record { scope = session id; update = update }) s
  run_route sessions_route s = (json (session_ids (list_sessions s.runtime)), s)
  run_route health_route s = (
    json (
        health (length (list_sessions s.runtime)) options.loopback_only
          (is_some options.bearer_token)),
    s,
  )
  run_route metrics_route s = (json (metrics_json s.metrics), s)
  run_route prometheus_route s = (json (metrics_prometheus s.metrics), s)
  run_route (search_route request) s =
      (discovery_search request, record s { metrics = record_discovery_search s.metrics })

  unfoldable pub authorize : Request → AdminState → Response × AdminState
  unfolding run_route matches_admin_token
  authorize req s =
      if options.loopback_only && not req.is_loopback
      then (json_error "403" "runtime admin endpoint is loopback-only", s)
      else (elim options.bearer_token [
        | none ↦ run_route req.route s
        | some expected ↦
            if matches_admin_token req.authorization expected
            then run_route req.route s
            else (json_error "401" "missing or invalid admin token", s)
      ])

  unfoldable pub authorize_and_record : Request → AdminState → Response × AdminState
  unfolding authorize record_request
  authorize_and_record req s =
      let (response, after) = authorize req s in
      (response, record after { metrics = record_request req.path response.status after.metrics })

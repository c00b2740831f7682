-- ===== src/Admin/Metrics.antt =====
-- rust/src/runtime/admin.rs: the metrics are the counts of what was answered.
use mcpway.Base.{
  ◌^◌, ◌%◌, ℕ, ◌+◌, String, ◌≡◌, refl, ap, ◌∙◌, inl, inr, Option, List, [], ◌∷◌, arith, eq_iff,
  ◌==◌, if◌then◌else◌, Bool-cases, unwrap_or, length,
}
use mcpway.Admin.{
  AdminServerOptions, AdminMetrics, AdminState, new_metrics, fetch_add, count_one, record_request,
  Request, Route, defaults, session_route, sessions_route, health_route, metrics_route,
  prometheus_route, search_route, apply_runtime, run_route, authorize, authorize_and_record,
}
use mcpway.Base.Result.{Result}
use mcpway.Discovery.{SourceKind, DiscoveryReport}
use mcpway.Runtime.{RuntimeArgsStore, RuntimeUpdate, RuntimeApplyResult}
use mcpway.Base.Dict.{Dict, lookup, lookup-insert}

-- How many entries of a list are the key.
unfoldable pub occurrences : String → List String → ℕ
occurrences key [] = 0
occurrences key (k ∷ more) = let rest = occurrences key more in if k == key then rest + 1 else rest

-- The metrics are those of the paths and the statuses of the requests so far, as `u64`.
unfoldable pub IsCount : List String → List String → AdminMetrics → Type 0
unfolding occurrences lookup
IsCount paths statuses m =
    (m.requests_total ≡ length paths % 2 ^ 64)
    × (m.unauthorized_total ≡ occurrences "401" statuses % 2 ^ 64)
    × (m.forbidden_total ≡ occurrences "403" statuses % 2 ^ 64)
    × ((path : String)
        → unwrap_or (lookup path m.route_requests) 0 ≡ occurrences path paths % 2 ^ 64)
    × ((status : String)
        → unwrap_or (lookup status m.status_counts) 0 ≡ occurrences status statuses % 2 ^ 64)

fetch_add-mod : (n m : ℕ) → m ≡ n % 2 ^ 64 → fetch_add m ≡ (n + 1) % 2 ^ 64
fetch_add-mod n m h = omega (arith, h)

fetch_if-mod :
    (key k : String) (ks : List String) (m : ℕ)
    → m ≡ occurrences key ks % 2 ^ 64
    → (if k == key then fetch_add m else m) ≡ occurrences key (k ∷ ks) % 2 ^ 64
unfolding occurrences
fetch_if-mod key k ks m h = elim (Bool-cases (k == key)) [
  | inl e ↦ rw e (fetch_add-mod (occurrences key ks) m h)
  | inr e ↦ rw e h
]

count_one-mod :
    (key k : String) (ks : List String) (counts : Dict ℕ)
    → ((j : String) → unwrap_or (lookup j counts) 0 ≡ occurrences j ks % 2 ^ 64)
    → unwrap_or (lookup key (count_one k counts)) 0 ≡ occurrences key (k ∷ ks) % 2 ^ 64
unfolding count_one occurrences lookup
count_one-mod key k ks counts h = elim (Bool-cases (k == key)) [
  | inl e ↦
      rw (lookup-insert k key (fetch_add (unwrap_or (lookup k counts) 0)) counts, e)
        (fetch_add-mod (occurrences key ks) (unwrap_or (lookup k counts) 0)
          (h k ∙ ap (λ j. occurrences j ks % 2 ^ 64) ((eq_iff k key).0 e)))
  | inr e ↦ rw (lookup-insert k key (fetch_add (unwrap_or (lookup k counts) 0)) counts, e) (h key)
]

record_request-IsCount :
    (path status : String) (paths statuses : List String) (m : AdminMetrics)
    → IsCount paths statuses m
    → IsCount (path ∷ paths) (status ∷ statuses) (record_request path status m)
unfolding IsCount record_request
record_request-IsCount path status paths statuses m (total, una, forb, routes, codes) = (
  omega (arith, total),
  fetch_if-mod "401" status statuses m.unauthorized_total una,
  fetch_if-mod "403" status statuses m.forbidden_total forb,
  λ key. count_one-mod key path paths m.route_requests routes,
  λ key. count_one-mod key status statuses m.status_counts codes,
)

module _ (handler : RuntimeUpdate → RuntimeArgsStore → RuntimeArgsStore × RuntimeApplyResult)
    (discover : Option SourceKind → Option String → Result String DiscoveryReport)
    (options : AdminServerOptions) where
  -- Requests one after the other, the latest first, with the statuses of their answers.
  unfoldable pub serve : List Request → AdminState → List String × AdminState
  serve [] s = ([], s)
  serve (req ∷ earlier) s =
      let (statuses, before) = serve earlier s in
      let (answer, after) = authorize_and_record handler discover options req before in
      (answer.status ∷ statuses, after)

  unfoldable pub paths_of : List Request → List String
  paths_of [] = []
  paths_of (req ∷ earlier) = req.path ∷ paths_of earlier

  run_route-IsCount :
      (route : Route) (paths statuses : List String) (s : AdminState)
      → IsCount paths statuses s.metrics
      → IsCount paths statuses (run_route handler discover options route s).1.metrics
  unfolding IsCount run_route apply_runtime
  run_route-IsCount (defaults update) paths statuses s h = h
  run_route-IsCount (session_route id update) paths statuses s h = h
  run_route-IsCount sessions_route paths statuses s h = h
  run_route-IsCount health_route paths statuses s h = h
  run_route-IsCount metrics_route paths statuses s h = h
  run_route-IsCount prometheus_route paths statuses s h = h
  run_route-IsCount (search_route request) paths statuses s h = h

  authorize-IsCount :
      (req : Request) (paths statuses : List String) (s : AdminState)
      → IsCount paths statuses s.metrics
      → IsCount paths statuses (authorize handler discover options req s).1.metrics
  unfolding authorize
  authorize-IsCount req paths statuses s h =
      ground (arith, h, run_route-IsCount req.route paths statuses s h)

  -- After any requests to a new interface the metrics are, as numbers of 64 bits, how many requests there
  -- were, how many of the answers had the status 401 and 403, and, for each path and each status, how
  -- many requests had the path and how many answers the status, refused requests included.
  pub serve-IsCount :
      (requests : List Request) (runtime : RuntimeArgsStore)
      → let (statuses, after) =
          serve requests (record { runtime = runtime; metrics = new_metrics }) in
        IsCount (paths_of requests) statuses after.metrics
  unfolding serve paths_of IsCount authorize_and_record lookup occurrences
  serve-IsCount [] runtime = (refl, refl, refl, (λ path. refl), λ status. refl)
  serve-IsCount (req ∷ earlier) runtime =
      let start : AdminState = record { runtime = runtime; metrics = new_metrics } in
      let before = (serve earlier start).1 in
      let statuses = (serve earlier start).0 in
      let answered = authorize handler discover options req before in
      record_request-IsCount req.path answered.0.status (paths_of earlier) statuses
        answered.1.metrics
        (authorize-IsCount req (paths_of earlier) statuses before (serve-IsCount earlier runtime))

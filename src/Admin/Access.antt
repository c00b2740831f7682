-- ===== src/Admin/Access.antt =====
-- rust/src/runtime/admin.rs: who is refused, and that a refused request changes nothing but the counts.
use mcpway.Base.{
  ◌↔◌, String, ◌≡◌, refl, sym, ◌∙◌, ◌⊎◌, inl, inr, Bool, true, false, not, ◌&&◌, ◌||◌, Option, none,
  some, arith, eq_iff, Bool-cases, Option-cases,
}
use mcpway.Base.Result.{Result}
use mcpway.Discovery.{SourceKind, DiscoveryReport}
use mcpway.Runtime.{RuntimeArgsStore, RuntimeUpdate, RuntimeApplyResult}
use mcpway.Admin.{
  AdminServerOptions, AdminState, record_request, Request, Route, defaults, session_route,
  sessions_route, health_route, metrics_route, prometheus_route, search_route, matches_admin_token,
  apply_runtime, discovery_search, run_route, authorize, authorize_and_record,
}

-- A request is not from the loopback where the options ask for that.
unfoldable pub is_remote : AdminServerOptions → Request → Bool
is_remote options req = options.loopback_only && not req.is_loopback

-- A token is asked for and the request has no other one that is equal to it.
unfoldable pub lacks_token : AdminServerOptions → Request → Bool
unfolding matches_admin_token
lacks_token options req = elim options.bearer_token [
  | none ↦ false
  | some expected ↦ not (matches_admin_token req.authorization expected)
]

-- What the metrics count of the updates and the searches, and the runtime arguments, are the same.
unfoldable pub IsUntouched : AdminState → AdminState → Type 0
IsUntouched before after =
    (after.runtime ≡ before.runtime)
    × (after.metrics.runtime_updates_total ≡ before.metrics.runtime_updates_total)
    × (after.metrics.discovery_search_total ≡ before.metrics.discovery_search_total)

forbidden_not_unauthorized : ◌≡◌ {A = String} "403" "401" → ⊥
forbidden_not_unauthorized h = absurd (ground (arith, (eq_iff "403" "401").1 h))

module _ (handler : RuntimeUpdate → RuntimeArgsStore → RuntimeArgsStore × RuntimeApplyResult)
    (discover : Option SourceKind → Option String → Result String DiscoveryReport)
    (options : AdminServerOptions) where
  -- A status with which a handler of a route answers.
  IsHandled : String → Type 0
  IsHandled status = (status ≡ "200") ⊎ (status ≡ "400")

  handled_not_refused :
      (status : String) → IsHandled status → (status ≡ "403" → ⊥) × (status ≡ "401" → ⊥)
  unfolding IsHandled
  handled_not_refused status (inl e) = (
    (λ h. absurd (ground (arith, (eq_iff "200" "403").1 (sym e ∙ h)))),
    λ h. absurd (ground (arith, (eq_iff "200" "401").1 (sym e ∙ h))),
  )
  handled_not_refused status (inr e) = (
    (λ h. absurd (ground (arith, (eq_iff "400" "403").1 (sym e ∙ h)))),
    λ h. absurd (ground (arith, (eq_iff "400" "401").1 (sym e ∙ h))),
  )

  run_route-IsHandled :
      (route : Route) (s : AdminState)
      → IsHandled (run_route handler discover options route s).0.status
  unfolding IsHandled run_route apply_runtime discovery_search
  run_route-IsHandled (defaults update) s = inl refl
  run_route-IsHandled (session_route id update) s = inl refl
  run_route-IsHandled sessions_route s = inl refl
  run_route-IsHandled health_route s = inl refl
  run_route-IsHandled metrics_route s = inl refl
  run_route-IsHandled prometheus_route s = inl refl
  run_route-IsHandled (search_route request) s = ground arith

  -- The answer has the status 403 exactly if the request is remote, and 401 exactly if it is not and
  -- lacks the token. In both cases the runtime arguments stay as they are, and the request is counted
  -- neither as an update nor as a search.
  pub authorize_and_record-refused :
      (req : Request) (s : AdminState)
      → let (answer, after) = authorize_and_record handler discover options req s in
        ((answer.status ≡ "403") ↔ (is_remote options req ≡ true))
        × ((answer.status ≡ "401")
            ↔ ((is_remote options req ≡ false) × (lacks_token options req ≡ true)))
        × ((is_remote options req || lacks_token options req) ≡ true → IsUntouched s after)
  unfolding authorize_and_record record_request authorize is_remote lacks_token IsUntouched
  authorize_and_record-refused req s =
      let route = run_route handler discover options req.route s in
      let (not_forbidden, not_unauthorized) =
        handled_not_refused route.0.status (run_route-IsHandled req.route s) in
      elim (Bool-cases (options.loopback_only && not req.is_loopback)) [
        | inl remote ↦ rw (authorize, remote) ground (arith, remote, forbidden_not_unauthorized)
        | inr near ↦ elim (Option-cases options.bearer_token) [
          | inl e ↦ rw (authorize, near, e) ground (arith, near, not_forbidden, not_unauthorized)
          | inr (expected, e) ↦ elim (Bool-cases (matches_admin_token req.authorization expected)) [
            | inl m ↦
                rw (authorize, near, e, m) ground (arith, near, not_forbidden, not_unauthorized)
            | inr m ↦ rw (authorize, near, e, m) ground (arith, near, forbidden_not_unauthorized)
          ]
        ]
      ]

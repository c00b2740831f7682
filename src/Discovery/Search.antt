-- ===== src/Discovery/Search.antt =====
-- `apply_search` of rust/src/discovery/mod.rs: the servers of a report filtered, sorted and paged;
-- and `resolve_server` of rust/src/discovery/registry.rs, once the registry's file is read.
pub mod Filters
pub mod Among
pub mod Order
pub mod Laws
pub mod Registry
use Prim.Native.String.{compare}
use Prim.Native.Nat.{compare as compare_nat}
use mcpway.Base.{
  ℕ, String, Bool, true, false, Option, none, some, List, [], ◌∷◌, ◌++◌, Ordering, eqb, select,
  take, drop, ltb, if◌then◌else◌, ◌||◌, ◌&&◌, not, unwrap_or, keep_if, is_some,
}
use mcpway.Base.Text.{trim, is_empty, to_ascii_lowercase, contains}
use mcpway.Discovery.Sort.{sort_by}
use mcpway.Discovery.{
  SourceKind, DiscoveryScope, DiscoveredTransport, DiscoveredServer, DiscoveryReport, cursor,
  claude, codex, windsurf, open_code, nodecode, vs_code, project, global, stdio, sse, ws,
  streamable_http, grpc, same_source, scope_priority, then_with,
}

pub data DiscoverySortField : Type 0 where
  by_name by_source by_scope by_transport by_origin_path : DiscoverySortField

pub data DiscoverySortOrder : Type 0 where
  asc desc : DiscoverySortOrder

pub record DiscoverySearchOptions : Type 0 where
  pub query : Option String
  pub transport : Option DiscoveredTransport
  pub scope : Option DiscoveryScope
  pub source : Option SourceKind
  pub enabled_only : Bool
  pub sort_field : DiscoverySortField
  pub sort_order : DiscoverySortOrder
  pub offset : ℕ
  pub limit : Option ℕ

-- `SourceKind::as_str`
abbrev pub source_name : SourceKind → String
source_name cursor = "cursor"
source_name claude = "claude"
source_name codex = "codex"
source_name windsurf = "windsurf"
source_name open_code = "opencode"
source_name nodecode = "nodecode"
source_name vs_code = "vscode"

abbrev pub transport_priority : DiscoveredTransport → ℕ
transport_priority stdio = 0
transport_priority sse = 1
transport_priority ws = 2
transport_priority streamable_http = 3
transport_priority grpc = 4

abbrev transport_name : DiscoveredTransport → String
transport_name stdio = "stdio"
transport_name sse = "sse"
transport_name ws = "ws"
transport_name streamable_http = "streamable-http"
transport_name grpc = "grpc"

abbrev scope_name : DiscoveryScope → String
scope_name project = "project"
scope_name global = "global"

unfoldable pub server_matches_query : DiscoveredServer → String → Bool
server_matches_query server query =
    contains query (to_ascii_lowercase server.name)
    || contains query (to_ascii_lowercase (source_name server.source))
    || contains query (scope_name server.scope)
    || contains query (transport_name server.transport)
    || contains query (to_ascii_lowercase server.origin_path)
    || contains query (to_ascii_lowercase server.raw_format)
    || contains query (to_ascii_lowercase (unwrap_or server.command ""))
    || contains query (to_ascii_lowercase (unwrap_or server.url ""))

abbrev primary : DiscoverySortField → DiscoveredServer → DiscoveredServer → Ordering
primary by_name l r = compare l.name r.name
primary by_source l r = compare (source_name l.source) (source_name r.source)
primary by_scope l r = compare_nat (scope_priority l.scope) (scope_priority r.scope)
primary by_transport l r =
    compare_nat (transport_priority l.transport) (transport_priority r.transport)
primary by_origin_path l r = compare l.origin_path r.origin_path

unfoldable pub compare_servers : DiscoverySortField → DiscoveredServer → DiscoveredServer → Ordering
compare_servers by l r = then_with (primary by l r) (
    then_with
      (then_with (compare l.name r.name) (compare (source_name l.source) (source_name r.source)))
      (compare l.origin_path r.origin_path))

-- The query trimmed and in lower case, if it is not blank.
unfoldable pub query_of : Option String → Option String
query_of none = none
query_of (some q) = if is_empty (trim q) then none else some (to_ascii_lowercase (trim q))

-- An option that is not given asks for nothing.
abbrev pub asks {ℓ} : {A : Type ℓ} → Option A → (A → Bool) → Bool
asks none p = true
asks (some a) p = p a

-- The derived equality of transports and of scopes compares the variants.
unfoldable pub passes : DiscoverySearchOptions → DiscoveredServer → Bool
unfolding query_of server_matches_query
passes o s =
    asks o.transport (λ t. eqb (transport_priority s.transport) (transport_priority t))
    && asks o.scope (λ c. eqb (scope_priority s.scope) (scope_priority c))
    && asks o.source (same_source s.source)
    && not (o.enabled_only && not s.enabled)
    && asks (query_of o.query) (server_matches_query s)

-- `Vec::reverse`
abbrev pub reverse : List DiscoveredServer → List DiscoveredServer
reverse [] = []
reverse (x ∷ xs) = reverse xs ++ (x ∷ [])

abbrev pub in_order : DiscoverySortOrder → List DiscoveredServer → List DiscoveredServer
in_order asc servers = servers
in_order desc servers = reverse servers

abbrev pub page : ℕ → Option ℕ → List DiscoveredServer → List DiscoveredServer
page offset limit servers =
    let rest = if ltb 0 offset then drop offset servers else servers in
    elim limit [ none ↦ rest | some n ↦ take n rest ]

unfoldable pub apply_search : DiscoveryReport → DiscoverySearchOptions → DiscoveryReport
unfolding passes compare_servers
apply_search report o = record report {
  servers = page o.offset o.limit (
      in_order o.sort_order
        (sort_by (compare_servers o.sort_field) (select (passes o) report.servers)));
}

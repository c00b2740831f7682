-- ===== src/Discovery/Search/Registry.antt =====
-- `resolve_server` of rust/src/discovery/registry.rs, once the registry's file is read.
use mcpway.Base.{
  String, none, some, List, ◌⊎◌, inl, inr, ◌≡◌, refl, sym, subst, arith, Option-cases,
}
use mcpway.Base.Text.{◌++◌}
use mcpway.Base.Dict.{Dict}
use mcpway.Discovery.Precedence.{find}
use mcpway.Discovery.{DiscoveredServer, DiscoveredTransport}

-- `ConnectProtocol` of rust/src/config.rs
pub data ConnectProtocol : Type 0 where
  sse ws streamable_http grpc : ConnectProtocol

pub data ResolvedImportedServer : Type 0 where
  -- The name, the endpoint, the protocol and the headers.
  remote : String → String → ConnectProtocol → Dict String → ResolvedImportedServer
  -- `Stdio`: the name, the command, its arguments and its environment.
  local : String → String → List String → Dict String → ResolvedImportedServer

resolve_remote : String → ConnectProtocol → DiscoveredServer → ResolvedImportedServer ⊎ String
resolve_remote name protocol server = elim server.url [
  | none ↦ inr ("Server '" ++ name ++ "' is remote but missing URL")
  | some endpoint ↦ inl (remote server.name endpoint protocol server.headers)
]

resolve_stdio : String → DiscoveredServer → ResolvedImportedServer ⊎ String
resolve_stdio name server = elim server.command [
  | none ↦ inr ("Server '" ++ name ++ "' is stdio but missing command")
  | some command ↦ inl (local server.name command server.args server.env)
]

resolve_found : String → DiscoveredServer → DiscoveredTransport → ResolvedImportedServer ⊎ String
unfolding resolve_remote resolve_stdio
resolve_found name server DiscoveredTransport.stdio = resolve_stdio name server
resolve_found name server DiscoveredTransport.sse = resolve_remote name ConnectProtocol.sse server
resolve_found name server DiscoveredTransport.ws = resolve_remote name ConnectProtocol.ws server
resolve_found name server DiscoveredTransport.streamable_http =
    resolve_remote name ConnectProtocol.streamable_http server
resolve_found name server DiscoveredTransport.grpc = resolve_remote name ConnectProtocol.grpc server

-- `path` is how the registry's path prints.
unfoldable pub resolve_server :
    String → String → List DiscoveredServer → ResolvedImportedServer ⊎ String
unfolding resolve_found
resolve_server path name servers = elim (find name servers) [
  | none ↦ inr ("Server '" ++ name ++ "' not found in registry " ++ path)
  | some server ↦ resolve_found name server server.transport
]

-- How an imported server is reached.
pub data Wire : DiscoveredTransport → ConnectProtocol → Type 0 where
  sse_wire : Wire DiscoveredTransport.sse ConnectProtocol.sse
  ws_wire : Wire DiscoveredTransport.ws ConnectProtocol.ws
  http_wire : Wire DiscoveredTransport.streamable_http ConnectProtocol.streamable_http
  grpc_wire : Wire DiscoveredTransport.grpc ConnectProtocol.grpc

-- What the resolved server keeps of the one that the registry has.
abbrev pub Matches : DiscoveredServer → ResolvedImportedServer → Type 0
Matches server (remote name endpoint protocol headers) =
    (name ≡ server.name)
    × (server.url ≡ some endpoint)
    × (headers ≡ server.headers)
    × Wire server.transport protocol
Matches server (local name command args env) =
    (name ≡ server.name)
    × (server.command ≡ some command)
    × (args ≡ server.args)
    × (env ≡ server.env)
    × (server.transport ≡ DiscoveredTransport.stdio)

remote-Matches :
    (name : String) (p : ConnectProtocol) (server : DiscoveredServer) (r : ResolvedImportedServer)
    → Wire server.transport p
    → resolve_remote name p server ≡ inl r
    → Matches server r
unfolding resolve_remote
remote-Matches name p server (remote n e q h) w k = elim (Option-cases server.url) [
  | inl g ↦ absurd (ground arith)
  | inr (u, g) ↦
      (ground arith, ground arith, ground arith, subst (Wire server.transport) (ground arith) w)
]
remote-Matches name p server (local n c a e) w k = absurd (ground arith)

local-Matches :
    (name : String) (server : DiscoveredServer) (r : ResolvedImportedServer)
    → server.transport ≡ DiscoveredTransport.stdio
    → resolve_stdio name server ≡ inl r
    → Matches server r
unfolding resolve_stdio
local-Matches name server (remote n e q h) w k = absurd (ground arith)
local-Matches name server (local n c a e) w k = ground arith

found-Matches :
    (name : String) (server : DiscoveredServer) (t : DiscoveredTransport)
    (r : ResolvedImportedServer)
    → server.transport ≡ t
    → resolve_found name server t ≡ inl r
    → Matches server r
unfolding resolve_found
found-Matches name server DiscoveredTransport.stdio r e h = local-Matches name server r e h
found-Matches name server DiscoveredTransport.sse r e h =
    remote-Matches name ConnectProtocol.sse server r
      (subst (λ t. Wire t ConnectProtocol.sse) (sym e) sse_wire) h
found-Matches name server DiscoveredTransport.ws r e h =
    remote-Matches name ConnectProtocol.ws server r
      (subst (λ t. Wire t ConnectProtocol.ws) (sym e) ws_wire) h
found-Matches name server DiscoveredTransport.streamable_http r e h =
    remote-Matches name ConnectProtocol.streamable_http server r
      (subst (λ t. Wire t ConnectProtocol.streamable_http) (sym e) http_wire) h
found-Matches name server DiscoveredTransport.grpc r e h =
    remote-Matches name ConnectProtocol.grpc server r
      (subst (λ t. Wire t ConnectProtocol.grpc) (sym e) grpc_wire) h

-- A server that resolves is the first of its name in the registry, with its name, its URL and
-- headers and the protocol of its transport, or its command, arguments and environment if it talks
-- over stdio.
pub resolve_server-Matches :
    (path name : String) (servers : List DiscoveredServer) (r : ResolvedImportedServer)
    → resolve_server path name servers ≡ inl r
    → (server : DiscoveredServer) × (find name servers ≡ some server) × Matches server r
unfolding resolve_server
resolve_server-Matches path name servers r h = elim (Option-cases (find name servers)) [
  | inl e ↦ absurd (ground arith)
  | inr (server, e) ↦ (server, e, found-Matches name server server.transport r refl (ground arith))
]

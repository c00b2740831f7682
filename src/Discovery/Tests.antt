-- ===== src/Discovery/Tests.antt =====
-- The theorems on discovery at two sources that know the same name.
use mcpway.Base.{true, none, some, [], ◌∷◌, ◌≡◌, refl, inl, length}
use mcpway.Discovery.{
  DiscoveredServer, DiscoveryReport, cursor, claude, codex, windsurf, open_code, nodecode, vs_code,
  project, global, stdio, Found, discover,
}
use mcpway.Discovery.Precedence.{find}
use mcpway.Discovery.Precedence.Winner.{discover-winner, project_first}
use mcpway.Discovery.Search.{DiscoverySearchOptions, by_name, desc, apply_search}
use mcpway.Discovery.Sort.{IsOrdered}
use mcpway.Discovery.Search.Order.{Follows}
use mcpway.Discovery.Search.Laws.{apply_search-hits, page_size, unpaged}
use mcpway.Discovery.Search.Registry.{local, resolve_server}

abbrev of_cursor : DiscoveredServer
of_cursor = record {
  name = "files";
  source = cursor;
  scope = global;
  origin_path = "/home/.cursor";
  transport = stdio;
  command = some "node";
  args = [];
  url = none;
  headers = [];
  env = [];
  enabled = true;
  raw_format = "json";
}

abbrev of_claude : DiscoveredServer
of_claude = record of_cursor { source = claude; scope = project; origin_path = "/work" }

abbrev found : Found
found cursor = (of_cursor ∷ [], [])
found claude = (of_claude ∷ [], [])
found codex = ([], [])
found windsurf = ([], [])
found open_code = ([], [])
found nodecode = ([], [])
found vs_code = ([], [])

discover-winner_example : find "files" (discover found "/work" none).servers ≡ some of_cursor
unfolding project_first
discover-winner_example = discover-winner found "/work" "files" none

abbrev report : DiscoveryReport
report = record {
  project_root = "/work";
  servers = of_cursor ∷ of_claude ∷ [];
  conflicts = [];
  issues = [];
}

abbrev options : DiscoverySearchOptions
options = record {
  query = some "NODE";
  transport = none;
  scope = some global;
  source = none;
  enabled_only = true;
  sort_field = by_name;
  sort_order = desc;
  offset = 0;
  limit = some 5;
}

apply_search-hits_example :
    (length (apply_search report options).servers
      ≡ page_size 0 (some 5) (length (apply_search report (unpaged options)).servers))
    × IsOrdered (Follows desc by_name) (apply_search report options).servers
apply_search-hits_example =
    ((apply_search-hits report options).3, (apply_search-hits report options).4)

resolved : resolve_server "/r" "files" (of_cursor ∷ []) ≡ inl (local "files" "node" [] [])
unfolding resolve_server
resolved = refl

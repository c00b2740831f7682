-- ===== src/Discovery.antt =====
-- rust/src/discovery/mod.rs: the servers that other tools' configurations name. What the modules
-- under sources/ read from files is a parameter, one list of servers and issues per source.
pub mod Sort
pub mod Precedence
pub mod Search
mod Tests
use mcpway.Base.{
  ℕ, String, Bool, true, false, Option, none, some, List, [], ◌∷◌, ◌++◌, map, Ordering, eqb, any,
  select, if◌then◌else◌,
}
use mcpway.Base.Dict.{Dict, lookup, insert}
use mcpway.Discovery.Sort.{sort_by}
use Prim.Native.String.{compare}
use Prim.Native.Nat.{compare as compare_nat}

pub data SourceKind : Type 0 where
  cursor claude codex windsurf open_code nodecode vs_code : SourceKind

pub data DiscoveryScope : Type 0 where
  project global : DiscoveryScope

pub data DiscoveredTransport : Type 0 where
  stdio sse ws streamable_http grpc : DiscoveredTransport

pub record DiscoveredServer : Type 0 where
  pub name : String
  pub source : SourceKind
  pub scope : DiscoveryScope
  pub origin_path : String
  pub transport : DiscoveredTransport
  pub command : Option String
  pub args : List String
  pub url : Option String
  pub headers : Dict String
  pub env : Dict String
  pub enabled : Bool
  pub raw_format : String

-- The source, the path and the message; the level is a warning in all of them.
pub record DiscoveryIssue : Type 0 where
  pub source : SourceKind
  pub origin_path : String
  pub message : String

pub record DiscoveryConflict : Type 0 where
  pub name : String
  pub kept_source : SourceKind
  pub kept_scope : DiscoveryScope
  pub kept_origin_path : String
  pub dropped_source : SourceKind
  pub dropped_scope : DiscoveryScope
  pub dropped_origin_path : String

pub record DiscoveryReport : Type 0 where
  pub project_root : String
  pub servers : List DiscoveredServer
  pub conflicts : List DiscoveryConflict
  pub issues : List DiscoveryIssue

-- `SOURCE_PRIORITY`
abbrev pub source_priority : List SourceKind
source_priority = cursor ∷ claude ∷ codex ∷ windsurf ∷ open_code ∷ nodecode ∷ vs_code ∷ []

-- The derived equality compares the variants.
abbrev pub source_index : SourceKind → ℕ
source_index cursor = 0
source_index claude = 1
source_index codex = 2
source_index windsurf = 3
source_index open_code = 4
source_index nodecode = 5
source_index vs_code = 6

abbrev pub same_source : SourceKind → SourceKind → Bool
same_source a b = eqb (source_index a) (source_index b)

abbrev pub scope_priority : DiscoveryScope → ℕ
scope_priority project = 0
scope_priority global = 1

-- `then_with`
abbrev pub then_with : Ordering → Ordering → Ordering
then_with Ordering.eq o = o
then_with Ordering.lt o = Ordering.lt
then_with Ordering.gt o = Ordering.gt

abbrev pub by_name_then : (DiscoveredServer → ℕ) → DiscoveredServer → DiscoveredServer → Ordering
by_name_then rank a b = then_with (compare a.name b.name) (compare_nat (rank a) (rank b))

abbrev pub by_name : DiscoveredServer → DiscoveredServer → Ordering
by_name a b = compare a.name b.name

abbrev pub rank_of_scope : DiscoveredServer → ℕ
rank_of_scope s = scope_priority s.scope

-- `entry(name).or_insert(server)` for each server in turn.
unfoldable pub insert_missing :
    Dict DiscoveredServer → List DiscoveredServer → Dict DiscoveredServer
insert_missing d [] = d
insert_missing d (s ∷ ss) =
    insert_missing (elim (lookup s.name d) [ none ↦ insert s.name s d | some e ↦ d ]) ss

abbrev pub values : Dict DiscoveredServer → List DiscoveredServer
values [] = []
values ((k, v) ∷ d) = v ∷ values d

unfoldable pub collapse_source_scope_precedence : List DiscoveredServer → List DiscoveredServer
unfolding insert_missing
collapse_source_scope_precedence servers =
    values (insert_missing [] (sort_by (by_name_then rank_of_scope) servers))

pub record Merged : Type 0 where
  pub conflicts : List DiscoveryConflict
  pub by_name : Dict DiscoveredServer

abbrev pub conflict : DiscoveredServer → DiscoveredServer → DiscoveryConflict
conflict kept dropped = record {
  name = dropped.name;
  kept_source = kept.source;
  kept_scope = kept.scope;
  kept_origin_path = kept.origin_path;
  dropped_source = dropped.source;
  dropped_scope = dropped.scope;
  dropped_origin_path = dropped.origin_path;
}

abbrev pub add_server : DiscoveredServer → Merged → Merged
add_server s m = elim (lookup s.name m.by_name) [
  | some existing ↦ record m { conflicts = m.conflicts ++ (conflict existing s ∷ []) }
  | none ↦ record m { by_name = insert s.name s m.by_name }
]

-- The inner loop, over one source's servers.
unfoldable pub merge_servers : List DiscoveredServer → Merged → Merged
merge_servers [] m = m
merge_servers (s ∷ ss) m = merge_servers ss (add_server s m)

-- What a source's module finds.
abbrev pub Found : Type 0
Found = SourceKind → List DiscoveredServer × List DiscoveryIssue

unfoldable pub merge_sources : Found → List SourceKind → Merged → Merged
unfolding merge_servers collapse_source_scope_precedence
merge_sources found [] m = m
merge_sources found (source ∷ sources) m =
    merge_sources found sources
      (merge_servers (sort_by by_name (collapse_source_scope_precedence (found source).0)) m)

all_issues : Found → List SourceKind → List DiscoveryIssue
all_issues found [] = []
all_issues found (source ∷ sources) = (found source).1 ++ all_issues found sources

abbrev pub selected_sources : Option SourceKind → List SourceKind
selected_sources none = source_priority
selected_sources (some source) = source ∷ []

-- The sources in order of priority that are selected.
abbrev pub searched : Option SourceKind → List SourceKind
searched from = select (λ s. any (same_source s) (selected_sources from)) source_priority

-- The report, once `resolve_project_root` gave the root.
unfoldable pub discover : Found → String → Option SourceKind → DiscoveryReport
unfolding merge_sources all_issues
discover found root from =
    let merged = merge_sources found (searched from) (record { conflicts = []; by_name = [] }) in
    record {
      project_root = root;
      servers = values merged.by_name;
      conflicts = merged.conflicts;
      issues = all_issues found (selected_sources from);
    }

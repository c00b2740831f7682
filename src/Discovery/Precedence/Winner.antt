-- ===== src/Discovery/Precedence/Winner.antt =====
-- Which server of a name a report keeps, through `discover`.
use mcpway.Base.{
  String, Bool, true, false, Option, none, some, List, [], ◌∷◌, ◌++◌, ◌≡◌, refl, ◌∙◌, subst, arith,
  eq_iff, or_else, Option-cases, fun_ext, inl, inr, select,
}
use mcpway.Base.Dict.{Dict, lookup, insert, lookup-insert}
use mcpway.Discovery.Sort.{sort_by}
use mcpway.Discovery.Precedence.{find, best, sort_by-best}
use mcpway.Discovery.{
  DiscoveredServer, SourceKind, DiscoveryScope, project, global, by_name_then, by_name,
  rank_of_scope, insert_missing, values, collapse_source_scope_precedence, Merged, merge_servers,
  merge_sources, Found, searched, discover, conflict,
}

abbrev Named : Dict DiscoveredServer → Type 0
Named [] = Unit
Named ((k, v) ∷ d) = (v.name ≡ k) × Named d

find-values : (n : String) (d : Dict DiscoveredServer) → Named d → find n (values d) ≡ lookup n d
unfolding lookup
find-values n [] h = refl
find-values n ((k, v) ∷ d) h = ground (arith, find-values n d h.1)

insert-Named :
    (s : DiscoveredServer) (d : Dict DiscoveredServer) → Named d → Named (insert s.name s d)
unfolding insert
insert-Named s [] h = (refl, tt)
insert-Named s ((k, v) ∷ d) h = ground (arith, insert-Named s d h.1)

insert_missing-lookup :
    (n : String) (d : Dict DiscoveredServer) (ss : List DiscoveredServer)
    → Named d
    → (lookup n (insert_missing d ss) ≡ or_else (lookup n d) (find n ss))
      × Named (insert_missing d ss)
unfolding insert_missing
insert_missing-lookup n d [] h = (ground arith, h)
insert_missing-lookup n d (s ∷ ss) h = elim (Option-cases (lookup s.name d)) [
  | inl e ↦
      (let (f, w) = insert_missing-lookup n (insert s.name s d) ss (insert-Named s d h) in
        (ground (arith, eq_iff s.name n, lookup-insert s.name n s d), ground arith))
  | inr (v, e) ↦
      (let (f, w) = insert_missing-lookup n d ss h in
        (ground (arith, eq_iff s.name n), ground arith))
]

is_project : DiscoveryScope → Bool
is_project project = true
is_project global = false

-- The server of this name that is the project's, or else the first of this name.
unfoldable pub project_first : String → List DiscoveredServer → Option DiscoveredServer
unfolding is_project
project_first n xs = or_else (find n (select (λ s. is_project s.scope) xs)) (find n xs)

find-scope :
    (n : String) (xs : List DiscoveredServer) (f : DiscoveredServer)
    → find n (select (λ s. is_project s.scope) xs) ≡ some f
    → f.scope ≡ project
unfolding is_project
find-scope n [] f h = absurd (ground arith)
find-scope n (x ∷ xs) f h = ground (arith, find-scope n xs f)

find-no_project :
    (n : String) (xs : List DiscoveredServer) (f : DiscoveredServer)
    → find n (select (λ s. is_project s.scope) xs) ≡ none
    → find n xs ≡ some f
    → f.scope ≡ global
unfolding is_project
find-no_project n [] f h k = absurd (ground arith)
find-no_project n (x ∷ xs) f h k = ground (arith, find-no_project n xs f)

best-project_first :
    (n : String) (xs : List DiscoveredServer) → best rank_of_scope n xs ≡ project_first n xs
unfolding project_first is_project
best-project_first n [] = refl
best-project_first n (x ∷ xs) = elim (Option-cases (find n (select (λ s. is_project s.scope) xs))) [
  | inr (f, e) ↦ ground (arith, best-project_first n xs, find-scope n xs f e)
  | inl e ↦ elim (Option-cases (find n xs)) [
    | inl g ↦ ground (arith, best-project_first n xs)
    | inr (f, g) ↦ ground (arith, best-project_first n xs, find-no_project n xs f e g)
  ]
]

collapse-find :
    (n : String) (xs : List DiscoveredServer)
    → find n (collapse_source_scope_precedence xs) ≡ project_first n xs
unfolding collapse_source_scope_precedence lookup
collapse-find n xs =
    let sorted = sort_by (by_name_then rank_of_scope) xs in
    let (f, w) = insert_missing-lookup n [] sorted tt in
    find-values n (insert_missing [] sorted) w
    ∙ f
    ∙ (sort_by-best rank_of_scope n xs).0
    ∙ best-project_first n xs

by_name-rank : by_name_then (λ s. 0) ≡ by_name
by_name-rank = fun_ext (λ a. fun_ext (λ b. ground arith))

best-find : (n : String) (xs : List DiscoveredServer) → best (λ s. 0) n xs ≡ find n xs
best-find n [] = refl
best-find n (x ∷ xs) = ground (arith, best-find n xs)

sort_by_name-find :
    (n : String) (xs : List DiscoveredServer) → find n (sort_by by_name xs) ≡ find n xs
sort_by_name-find n xs =
    subst (λ cmp. find n (sort_by cmp xs) ≡ find n xs) by_name-rank
      ((sort_by-best (λ s. 0) n xs).0 ∙ best-find n xs)

merge_servers-lookup :
    (n : String) (ss : List DiscoveredServer) (m : Merged)
    → Named m.by_name
    → (lookup n (merge_servers ss m).by_name ≡ or_else (lookup n m.by_name) (find n ss))
      × Named (merge_servers ss m).by_name
unfolding merge_servers
merge_servers-lookup n [] m h = (ground arith, h)
merge_servers-lookup n (s ∷ ss) m h = elim (Option-cases (lookup s.name m.by_name)) [
  | inl e ↦
      (let next : Merged = record m { by_name = insert s.name s m.by_name } in
        let (f, w) = merge_servers-lookup n ss next (insert-Named s m.by_name h) in
        (ground (arith, eq_iff s.name n, lookup-insert s.name n s m.by_name), ground arith))
  | inr (v, e) ↦
      (let next : Merged = record m { conflicts = m.conflicts ++ (conflict v s ∷ []) } in
        let (f, w) = merge_servers-lookup n ss next h in
        (ground (arith, eq_iff s.name n), ground arith))
]

-- The first source that has the name.
abbrev pub first_source : Found → String → List SourceKind → Option DiscoveredServer
first_source found n [] = none
first_source found n (source ∷ sources) =
    or_else (project_first n (found source).0) (first_source found n sources)

merge_sources-lookup :
    (found : Found) (n : String) (sources : List SourceKind) (m : Merged)
    → Named m.by_name
    → (lookup n (merge_sources found sources m).by_name
        ≡ or_else (lookup n m.by_name) (first_source found n sources))
      × Named (merge_sources found sources m).by_name
unfolding merge_sources
merge_sources-lookup found n [] m h = (ground arith, h)
merge_sources-lookup found n (source ∷ sources) m h =
    let servers = collapse_source_scope_precedence (found source).0 in
    let (f, w) = merge_servers-lookup n (sort_by by_name servers) m h in
    let (g, v) =
      merge_sources-lookup found n sources (merge_servers (sort_by by_name servers) m) w in
    let same = sort_by_name-find n servers ∙ collapse-find n (found source).0 in (ground arith, v)

-- A report has for each name the server of the first source, in the order of priority and among
-- those asked for, that knows the name; within the source a server of the project goes before a
-- global one, and an earlier one before a later. It has no server of any other name.
pub discover-winner :
    (found : Found) (root n : String) (from : Option SourceKind)
    → find n (discover found root from).servers ≡ first_source found n (searched from)
unfolding discover lookup
discover-winner found root n from =
    let start : Merged = record { conflicts = []; by_name = [] } in
    let (f, w) = merge_sources-lookup found n (searched from) start tt in
    find-values n (merge_sources found (searched from) start).by_name w ∙ f

-- ===== src/Discovery/Search/Laws.antt =====
-- What a search returns.
use mcpway.Base.{
  inr, inl, ℕ, ◌-◌, min, Option, none, some, List, [], ◌∷◌, ◌≡◌, refl, arith, All, All-append,
  All-take, All-drop, length, length-append, length-take, length-drop, select, Bool-cases,
}
use mcpway.Discovery.Search.Filters.{IsAsked, passes-IsAsked, IsAsked-passes}
use mcpway.Discovery.Search.Order.{Follows, page-IsOrdered}
use mcpway.Discovery.Search.Among.{
  Among, first, later, Among-in_order, Among-select, Among-sort_by, Within, page-Within,
}
use mcpway.Discovery.Sort.{IsOrdered, sort_by, All-sort_by}
use mcpway.Discovery.{DiscoveredServer, DiscoveryReport}
use mcpway.Discovery.Search.{
  DiscoverySearchOptions, DiscoverySortOrder, asc, desc, apply_search, passes, compare_servers,
  reverse, in_order, page,
}

abbrev Hit : DiscoverySearchOptions → List DiscoveredServer → DiscoveredServer → Type 0
Hit o servers s = IsAsked o s × Among s servers

All-weaken :
    (o : DiscoverySearchOptions) (t : DiscoveredServer) (servers ss : List DiscoveredServer)
    → All (Hit o servers) ss
    → All (Hit o (t ∷ servers)) ss
All-weaken o t servers [] a = tt
All-weaken o t servers (s ∷ ss) a = ((a.0.0, later a.0.1), All-weaken o t servers ss a.1)

select-Hit :
    (o : DiscoverySearchOptions) (servers : List DiscoveredServer)
    → All (Hit o servers) (select (passes o) servers)
select-Hit o [] = tt
select-Hit o (s ∷ ss) =
    let rest = All-weaken o s ss (select (passes o) ss) (select-Hit o ss) in
    elim (Bool-cases (passes o s)) [
      | inl e ↦ rw e ((passes-IsAsked o s e, first), rest)
      | inr e ↦ rw e rest
    ]

reverse-All :
    (P : DiscoveredServer → Type 0) (ss : List DiscoveredServer) → All P ss → All P (reverse ss)
reverse-All P [] a = tt
reverse-All P (s ∷ ss) a = All-append P (reverse ss) (s ∷ []) (reverse-All P ss a.1) (a.0, tt)

length-reverse : (ss : List DiscoveredServer) → length (reverse ss) ≡ length ss
length-reverse [] = refl
length-reverse (s ∷ ss) = ground (arith, length-append (reverse ss) (s ∷ []), length-reverse ss)

in_order-All :
    (P : DiscoveredServer → Type 0) (order : DiscoverySortOrder) (ss : List DiscoveredServer)
    → All P ss
    → All P (in_order order ss)
in_order-All P asc ss a = a
in_order-All P desc ss a = reverse-All P ss a

page-All :
    (P : DiscoveredServer → Type 0) (offset : ℕ) (limit : Option ℕ) (ss : List DiscoveredServer)
    → All P ss
    → All P (page offset limit ss)
page-All P offset none ss a = ground (arith, All-drop P offset ss a)
page-All P offset (some n) ss a =
    All-take P n (page offset none ss) (ground (arith, All-drop P offset ss a))

length-in_order :
    (order : DiscoverySortOrder) (ss : List DiscoveredServer)
    → length (in_order order ss) ≡ length ss
length-in_order asc ss = refl
length-in_order desc ss = length-reverse ss

-- The size of a page.
abbrev pub page_size : ℕ → Option ℕ → ℕ → ℕ
page_size offset none total = total - offset
page_size offset (some n) total = min n (total - offset)

length-page :
    (offset : ℕ) (limit : Option ℕ) (ss : List DiscoveredServer)
    → length (page offset limit ss) ≡ page_size offset limit (length ss)
length-page offset none ss = ground (arith, length-drop offset ss)
length-page offset (some n) ss =
    ground (arith, length-take n (page offset none ss), length-drop offset ss)

-- A search without an offset and a limit.
abbrev pub unpaged : DiscoverySearchOptions → DiscoverySearchOptions
unpaged o = record o { offset = 0; limit = none }

-- Without an offset and a limit a search finds the servers of the report that pass every filter that is
-- given, and no others. With them it finds the part of these, in their order, that stands after
-- as many servers as the offset says, if there are so many, and is as long as what is left, but at
-- most the limit. Each server comes not before its neighbour on the left by the field of the sort,
-- and not after it where the order is descending. Conflicts and issues stay.
pub apply_search-hits :
    (report : DiscoveryReport) (o : DiscoverySearchOptions)
    → let found = apply_search report o in
      let whole = (apply_search report (unpaged o)).servers in
      All (Hit o report.servers) whole
      × ((s : DiscoveredServer) → IsAsked o s → Among s report.servers → Among s whole)
      × Within found.servers whole (min o.offset (length whole))
      × (length found.servers ≡ page_size o.offset o.limit (length whole))
      × IsOrdered (Follows o.sort_order o.sort_field) found.servers
      × (found.conflicts ≡ report.conflicts)
      × (found.issues ≡ report.issues)
unfolding apply_search
apply_search-hits report o =
    let by = compare_servers o.sort_field in
    let chosen = select (passes o) report.servers in
    let ordered = in_order o.sort_order (sort_by by chosen) in
    (
      in_order-All (Hit o report.servers) o.sort_order (sort_by by chosen)
          (All-sort_by (Hit o report.servers) by chosen (select-Hit o report.servers)),
      (λ s asked there. Among-in_order s o.sort_order (sort_by by chosen) (
          Among-sort_by by s chosen
            (Among-select o s report.servers (IsAsked-passes o s asked) there))),
      page-Within o.offset o.limit ordered,
      length-page o.offset o.limit ordered,
      page-IsOrdered o.sort_field o.sort_order o.offset o.limit chosen,
      refl,
      refl,
    )

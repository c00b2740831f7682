-- ===== src/Discovery/Search/Order.antt =====
-- The order of a search's result.
use Prim.Native.String.{compare}
use Prim.Native.Nat.{compare as compare_nat}
use mcpway.Base.{
  ℕ, zero, suc, ◌≤◌, String, Ordering, ◌≡◌, ◌≢◌, sym, Option, none, some, List, [], ◌∷◌, ◌++◌,
  arith, take, drop,
}
use mcpway.Base.Dict.{compare_eq, compare_ne}
use mcpway.Base.Order.{compare_gt}
use mcpway.Discovery.Sort.{IsOrdered, IsTotal, sort_by, sort_by-IsOrdered}
use mcpway.Discovery.{DiscoveredServer, then_with, scope_priority}
use mcpway.Discovery.Search.{
  DiscoverySortField, by_name, by_source, by_scope, by_transport, by_origin_path,
  DiscoverySortOrder, asc, desc, compare_servers, primary, source_name, transport_priority, reverse,
  in_order, page,
}

-- The first server does not come after the second by the field.
unfoldable pub IsNotAfter : DiscoverySortField → DiscoveredServer → DiscoveredServer → Type 0
IsNotAfter by_name l r = compare l.name r.name ≢ Ordering.gt
IsNotAfter by_source l r = compare (source_name l.source) (source_name r.source) ≢ Ordering.gt
IsNotAfter by_scope l r = scope_priority l.scope ≤ scope_priority r.scope
IsNotAfter by_transport l r = transport_priority l.transport ≤ transport_priority r.transport
IsNotAfter by_origin_path l r = compare l.origin_path r.origin_path ≢ Ordering.gt

-- As the result's neighbours stand: in the order, or in the reversed one.
unfoldable pub Follows :
    DiscoverySortOrder → DiscoverySortField → DiscoveredServer → DiscoveredServer → Type 0
unfolding IsNotAfter
Follows asc by l r = IsNotAfter by l r
Follows desc by l r = IsNotAfter by r l

-- What a comparison says of the reversed one.
abbrev Flips : Ordering → Ordering → Type 0
Flips a b = (a ≡ Ordering.gt → b ≡ Ordering.lt) × (a ≡ Ordering.eq → b ≡ Ordering.eq)

compare-Flips : (s t : String) → Flips (compare s t) (compare t s)
compare-Flips s t = (compare_gt s t, λ h. compare_ne t s (sym (compare_eq s t h)))

compare_nat-Flips : (m n : ℕ) → Flips (compare_nat m n) (compare_nat n m)
compare_nat-Flips m n = ground arith

then_with-Flips :
    (a b c d : Ordering) → Flips a b → Flips c d → Flips (then_with a c) (then_with b d)
then_with-Flips a b c d f g = ground (arith, f, g)

primary-Flips :
    (by : DiscoverySortField) (l r : DiscoveredServer) → Flips (primary by l r) (primary by r l)
primary-Flips by_name l r = compare-Flips l.name r.name
primary-Flips by_source l r = compare-Flips (source_name l.source) (source_name r.source)
primary-Flips by_scope l r = compare_nat-Flips (scope_priority l.scope) (scope_priority r.scope)
primary-Flips by_transport l r =
    compare_nat-Flips (transport_priority l.transport) (transport_priority r.transport)
primary-Flips by_origin_path l r = compare-Flips l.origin_path r.origin_path

-- The comparison of names and then of sources, and then of paths.
abbrev by_rest : DiscoveredServer → DiscoveredServer → Ordering
by_rest l r =
    then_with
      (then_with (compare l.name r.name) (compare (source_name l.source) (source_name r.source)))
      (compare l.origin_path r.origin_path)

by_rest-Flips : (l r : DiscoveredServer) → Flips (by_rest l r) (by_rest r l)
by_rest-Flips l r =
    then_with-Flips
      (then_with (compare l.name r.name) (compare (source_name l.source) (source_name r.source)))
      (then_with (compare r.name l.name) (compare (source_name r.source) (source_name l.source)))
      (compare l.origin_path r.origin_path) (compare r.origin_path l.origin_path)
      (then_with-Flips (compare l.name r.name) (compare r.name l.name)
        (compare (source_name l.source) (source_name r.source))
        (compare (source_name r.source) (source_name l.source)) (compare-Flips l.name r.name)
        (compare-Flips (source_name l.source) (source_name r.source)))
      (compare-Flips l.origin_path r.origin_path)

compare_servers-IsTotal : (by : DiscoverySortField) → IsTotal (compare_servers by)
unfolding compare_servers
compare_servers-IsTotal by l r after back =
    let flipped =
      (then_with-Flips (primary by l r) (primary by r l) (by_rest l r) (by_rest r l)
          (primary-Flips by l r) (by_rest-Flips l r)).0
        after in
    cc (flipped, back)

number_le : (m n : ℕ) → compare_nat m n ≢ Ordering.gt → m ≤ n
number_le m n h = ground arith

primary_first : (a b : Ordering) → then_with a b ≢ Ordering.gt → a ≢ Ordering.gt
primary_first a b h e = ground (arith, h, e)

compare_servers-IsNotAfter :
    (by : DiscoverySortField) (l r : DiscoveredServer)
    → compare_servers by l r ≢ Ordering.gt
    → IsNotAfter by l r
unfolding compare_servers IsNotAfter
compare_servers-IsNotAfter by_name l r h = primary_first (compare l.name r.name) (by_rest l r) h
compare_servers-IsNotAfter by_source l r h =
    primary_first (compare (source_name l.source) (source_name r.source)) (by_rest l r) h
compare_servers-IsNotAfter by_scope l r h =
    number_le (scope_priority l.scope) (scope_priority r.scope) (
      primary_first (compare_nat (scope_priority l.scope) (scope_priority r.scope)) (by_rest l r) h)
compare_servers-IsNotAfter by_transport l r h =
    number_le (transport_priority l.transport) (transport_priority r.transport) (
      primary_first (compare_nat (transport_priority l.transport) (transport_priority r.transport))
        (by_rest l r) h)
compare_servers-IsNotAfter by_origin_path l r h =
    primary_first (compare l.origin_path r.origin_path) (by_rest l r) h

module _ (R : DiscoveredServer → DiscoveredServer → Type 0) where
  IsOrdered-weaken :
      (Q : DiscoveredServer → DiscoveredServer → Type 0) (ss : List DiscoveredServer)
      → ((l r : DiscoveredServer) → R l r → Q l r)
      → IsOrdered R ss
      → IsOrdered Q ss
  unfolding IsOrdered
  IsOrdered-weaken Q [] f h = tt
  IsOrdered-weaken Q (s ∷ []) f h = tt
  IsOrdered-weaken Q (s ∷ t ∷ ss) f h = (f s t h.0, IsOrdered-weaken Q (t ∷ ss) f h.1)

  -- The last of the servers, if there is one, is related to this one.
  EndsAt : List DiscoveredServer → DiscoveredServer → Type 0
  EndsAt [] x = Unit
  EndsAt (s ∷ []) x = R s x
  EndsAt (s ∷ t ∷ ss) x = EndsAt (t ∷ ss) x

  EndsAt-append :
      (ss : List DiscoveredServer) (s x : DiscoveredServer) → R s x → EndsAt (ss ++ (s ∷ [])) x
  unfolding EndsAt
  EndsAt-append [] s x h = h
  EndsAt-append (t ∷ []) s x h = h
  EndsAt-append (t ∷ u ∷ ss) s x h = EndsAt-append (u ∷ ss) s x h

  IsOrdered-append :
      (ss : List DiscoveredServer) (x : DiscoveredServer)
      → IsOrdered R ss
      → EndsAt ss x
      → IsOrdered R (ss ++ (x ∷ []))
  unfolding IsOrdered EndsAt
  IsOrdered-append [] x h e = tt
  IsOrdered-append (s ∷ []) x h e = (e, tt)
  IsOrdered-append (s ∷ t ∷ ss) x h e = (h.0, IsOrdered-append (t ∷ ss) x h.1 e)

  IsOrdered-reverse :
      (ss : List DiscoveredServer) → IsOrdered (λ l r. R r l) ss → IsOrdered R (reverse ss)
  unfolding IsOrdered EndsAt
  IsOrdered-reverse [] h = tt
  IsOrdered-reverse (s ∷ []) h = tt
  IsOrdered-reverse (s ∷ t ∷ ss) h =
      IsOrdered-append (reverse (t ∷ ss)) s (IsOrdered-reverse (t ∷ ss) h.1)
        (EndsAt-append (reverse ss) t s h.0)

  IsOrdered-drop : (n : ℕ) (ss : List DiscoveredServer) → IsOrdered R ss → IsOrdered R (drop n ss)
  unfolding IsOrdered
  IsOrdered-drop zero ss h = h
  IsOrdered-drop (suc n) [] h = tt
  IsOrdered-drop (suc n) (s ∷ []) h = IsOrdered-drop n [] tt
  IsOrdered-drop (suc n) (s ∷ t ∷ ss) h = IsOrdered-drop n (t ∷ ss) h.1

  IsOrdered-take : (n : ℕ) (ss : List DiscoveredServer) → IsOrdered R ss → IsOrdered R (take n ss)
  unfolding IsOrdered
  IsOrdered-take zero ss h = tt
  IsOrdered-take (suc n) [] h = tt
  IsOrdered-take (suc zero) (s ∷ []) h = tt
  IsOrdered-take (suc (suc n)) (s ∷ []) h = tt
  IsOrdered-take (suc zero) (s ∷ t ∷ ss) h = tt
  IsOrdered-take (suc (suc n)) (s ∷ t ∷ ss) h = (h.0, IsOrdered-take (suc n) (t ∷ ss) h.1)

  IsOrdered-rest :
      (offset : ℕ) (ss : List DiscoveredServer) → IsOrdered R ss → IsOrdered R (page offset none ss)
  IsOrdered-rest offset ss h = ground (arith, h, IsOrdered-drop offset ss h)

  IsOrdered-page :
      (offset : ℕ) (limit : Option ℕ) (ss : List DiscoveredServer)
      → IsOrdered R ss
      → IsOrdered R (page offset limit ss)
  IsOrdered-page offset none ss h = IsOrdered-rest offset ss h
  IsOrdered-page offset (some n) ss h =
      IsOrdered-take n (page offset none ss) (IsOrdered-rest offset ss h)

-- Sorted, turned where that is asked for and cut to a page, the servers stand in the order of the field.
pub page-IsOrdered :
    (by : DiscoverySortField) (order : DiscoverySortOrder) (offset : ℕ) (limit : Option ℕ)
    (ss : List DiscoveredServer)
    → IsOrdered
        (Follows order by)
        (page offset limit (in_order order (sort_by (compare_servers by) ss)))
unfolding Follows
page-IsOrdered by asc offset limit ss =
    let sorted = sort_by (compare_servers by) ss in
    IsOrdered-page (IsNotAfter by) offset limit sorted (
      IsOrdered-weaken (λ l r. compare_servers by l r ≢ Ordering.gt) (IsNotAfter by) sorted
        (compare_servers-IsNotAfter by)
        (sort_by-IsOrdered (compare_servers by) ss (compare_servers-IsTotal by)))
page-IsOrdered by desc offset limit ss =
    let sorted = sort_by (compare_servers by) ss in
    IsOrdered-page (λ l r. IsNotAfter by r l) offset limit (reverse sorted)
      (IsOrdered-reverse (λ l r. IsNotAfter by r l) sorted
        (IsOrdered-weaken (λ l r. compare_servers by l r ≢ Ordering.gt) (IsNotAfter by) sorted
          (compare_servers-IsNotAfter by)
          (sort_by-IsOrdered (compare_servers by) ss (compare_servers-IsTotal by))))

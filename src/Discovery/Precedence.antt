-- ===== src/Discovery/Precedence.antt =====
-- Which server of a name a report keeps.
pub mod Winner
use Prim.Native.String.{compare}
use Prim.Native.Nat.{compare as compare_nat}
use mcpway.Base.{
  ℕ, String, Bool, true, false, Option, none, some, List, [], ◌∷◌, ◌++◌, Ordering, ◌≡◌, ◌≢◌, refl,
  sym, ap, ◌∙◌, subst, arith, eq_iff, ◌==◌, ltb, if◌then◌else◌, or_else, Option-cases, All, fun_ext,
  inl, inr, Bool-cases,
}
use mcpway.Base.Order.{compare_gt, compare_trans, compare_irrefl}
use mcpway.Base.Dict.{Dict, lookup, insert, lookup-insert, compare_eq, compare_ne}
use mcpway.Discovery.Sort.{insert_by, sort_by, All-insert_by}
use mcpway.Discovery.{
  DiscoveredServer, SourceKind, DiscoveryScope, project, global, by_name_then, by_name, then_with,
  rank_of_scope, insert_missing, values, collapse_source_scope_precedence, Merged, add_server,
  merge_servers, merge_sources, Found, searched, discover, conflict,
}

-- The first server of this name.
abbrev pub find : String → List DiscoveredServer → Option DiscoveredServer
find n [] = none
find n (x ∷ xs) = if x.name == n then some x else find n xs

-- The server of this name that has the least rank, and among those the first.
abbrev pub pick :
    (DiscoveredServer → ℕ) → DiscoveredServer → Option DiscoveredServer → DiscoveredServer
pick rank x none = x
pick rank x (some f) = if ltb (rank f) (rank x) then f else x

abbrev pub best : (DiscoveredServer → ℕ) → String → List DiscoveredServer → Option DiscoveredServer
best rank n [] = none
best rank n (x ∷ xs) = if x.name == n then some (pick rank x (best rank n xs)) else best rank n xs

abbrev NotBefore : DiscoveredServer → DiscoveredServer → Type 0
NotBefore y z = compare z.name y.name ≢ Ordering.lt

abbrev Rising : List DiscoveredServer → Type 0
Rising [] = Unit
Rising (y ∷ ys) = All (NotBefore y) ys × Rising ys

lower :
    (x y : DiscoveredServer) (zs : List DiscoveredServer)
    → compare x.name y.name ≢ Ordering.gt
    → All (NotBefore y) zs
    → All (NotBefore x) zs
lower x y [] h a = tt
lower x y (z ∷ zs) h a = (
  ground (arith, compare_trans z.name x.name y.name, compare_eq x.name y.name, a.0),
  lower x y zs h a.1,
)

compared-gt :
    (rank : DiscoveredServer → ℕ) (x y : DiscoveredServer)
    → by_name_then rank x y ≡ Ordering.gt
    → NotBefore y x
compared-gt rank x y h = ground arith

compared-le :
    (rank : DiscoveredServer → ℕ) (x y : DiscoveredServer)
    → by_name_then rank x y ≢ Ordering.gt
    → compare x.name y.name ≢ Ordering.gt
compared-le rank x y h = ground arith

not_below : (x y : DiscoveredServer) → compare x.name y.name ≢ Ordering.gt → NotBefore x y
not_below x y h l =
    ground
      (arith, compare_trans x.name y.name x.name, compare_irrefl x.name, compare_eq x.name y.name)

insert_by-gt :
    (rank : DiscoveredServer → ℕ) (x y : DiscoveredServer) (ys : List DiscoveredServer)
    → by_name_then rank x y ≡ Ordering.gt
    → insert_by (by_name_then rank) x (y ∷ ys) ≡ y ∷ insert_by (by_name_then rank) x ys
unfolding insert_by
insert_by-gt rank x y ys e = ground arith

insert_by-le :
    (rank : DiscoveredServer → ℕ) (x y : DiscoveredServer) (ys : List DiscoveredServer)
    → by_name_then rank x y ≢ Ordering.gt
    → insert_by (by_name_then rank) x (y ∷ ys) ≡ x ∷ y ∷ ys
unfolding insert_by
insert_by-le rank x y ys e = ground arith

insert_by-Rising :
    (rank : DiscoveredServer → ℕ) (x : DiscoveredServer) (ys : List DiscoveredServer)
    → Rising ys
    → Rising (insert_by (by_name_then rank) x ys)
unfolding insert_by
insert_by-Rising rank x [] r = (tt, tt)
insert_by-Rising rank x (y ∷ ys) r =
    go (insert_by-Rising rank x ys r.1) (by_name_then rank x y) refl
  where
    front : by_name_then rank x y ≢ Ordering.gt → Rising (x ∷ y ∷ ys)
    front h = let le = compared-le rank x y h in ((not_below x y le, lower x y ys le r.0), r)

    go :
        Rising (insert_by (by_name_then rank) x ys)
        → (o : Ordering) → by_name_then rank x y ≡ o
        → Rising (insert_by (by_name_then rank) x (y ∷ ys))
    go rest Ordering.gt e =
        subst Rising (sym (insert_by-gt rank x y ys e))
          (All-insert_by (NotBefore y) (by_name_then rank) x ys (compared-gt rank x y e) r.0, rest)
    go rest Ordering.lt e =
        subst Rising (sym (insert_by-le rank x y ys (ground arith))) (front (ground arith))
    go rest Ordering.eq e =
        subst Rising (sym (insert_by-le rank x y ys (ground arith))) (front (ground arith))

-- No server of a list that starts after `n` has this name.
find-above :
    (n : String) (y : DiscoveredServer) (zs : List DiscoveredServer)
    → compare n y.name ≡ Ordering.lt
    → All (NotBefore y) zs
    → find n zs ≡ none
find-above n y [] h a = refl
find-above n y (z ∷ zs) h a = ground (arith, eq_iff z.name n, find-above n y zs h a.1)

find-insert_by :
    (rank : DiscoveredServer → ℕ) (n : String) (x : DiscoveredServer) (ys : List DiscoveredServer)
    → Rising ys
    → find n (insert_by (by_name_then rank) x ys)
      ≡ (if x.name == n then some (pick rank x (find n ys)) else find n ys)
unfolding insert_by
find-insert_by rank n x [] r = ground arith
find-insert_by rank n x (y ∷ ys) r = ground (
  arith,
  eq_iff x.name n,
  eq_iff y.name n,
  compare_eq x.name y.name,
  compare_ne x.name y.name,
  find-above n y ys,
  find-insert_by rank n x ys r.1,
)

pub sort_by-best :
    (rank : DiscoveredServer → ℕ) (n : String) (xs : List DiscoveredServer)
    → (find n (sort_by (by_name_then rank) xs) ≡ best rank n xs)
      × Rising (sort_by (by_name_then rank) xs)
unfolding sort_by
sort_by-best rank n [] = (refl, tt)
sort_by-best rank n (x ∷ xs) =
    let (f, r) = sort_by-best rank n xs in
    (
      ground (arith, find-insert_by rank n x (sort_by (by_name_then rank) xs) r),
      insert_by-Rising rank x (sort_by (by_name_then rank) xs) r,
    )

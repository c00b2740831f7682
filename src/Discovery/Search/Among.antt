-- ===== src/Discovery/Search/Among.antt =====
-- What is in the result of a search, and where.
use mcpway.Base.{
  zero, suc, ◌++◌, append-nil, take, drop, Ordering, ℕ, suc, drop, take, Ordering, sym, inr, inl,
  min, true, Option, none, some, List, [], ◌∷◌, ◌≡◌, refl, arith, length, length-take, select, ap,
  ◌∙◌, Bool-cases,
}
use mcpway.Discovery.Sort.{insert_by, sort_by}
use mcpway.Discovery.{DiscoveredServer}
use mcpway.Discovery.Search.{
  DiscoverySearchOptions, DiscoverySortOrder, asc, desc, passes, reverse, in_order, page,
}

-- The server is one of these.
pub data Among (s : DiscoveredServer) : List DiscoveredServer → Type 0 where
  first : {rest : List DiscoveredServer} → Among s (s ∷ rest)
  later : {t : DiscoveredServer} {rest : List DiscoveredServer} → Among s rest → Among s (t ∷ rest)

Among-append_left :
    (s : DiscoveredServer) (ss ts : List DiscoveredServer) → Among s ss → Among s (ss ++ ts)
Among-append_left s [] ts m = elim m [ ]
Among-append_left s (t ∷ ss) ts first = first
Among-append_left s (t ∷ ss) ts (later m) = later (Among-append_left s ss ts m)

Among-append_end : (s : DiscoveredServer) (ss : List DiscoveredServer) → Among s (ss ++ (s ∷ []))
Among-append_end s [] = first
Among-append_end s (t ∷ ss) = later (Among-append_end s ss)

Among-reverse :
    (s : DiscoveredServer) (ss : List DiscoveredServer) → Among s ss → Among s (reverse ss)
Among-reverse s [] m = elim m [ ]
Among-reverse s (t ∷ ss) first = Among-append_end s (reverse ss)
Among-reverse s (t ∷ ss) (later m) =
    Among-append_left s (reverse ss) (t ∷ []) (Among-reverse s ss m)

pub Among-in_order :
    (s : DiscoveredServer) (order : DiscoverySortOrder) (ss : List DiscoveredServer)
    → Among s ss
    → Among s (in_order order ss)
Among-in_order s asc ss m = m
Among-in_order s desc ss m = Among-reverse s ss m

pub Among-select :
    (o : DiscoverySearchOptions) (s : DiscoveredServer) (ss : List DiscoveredServer)
    → passes o s ≡ true
    → Among s ss
    → Among s (select (passes o) ss)
Among-select o s [] h m = elim m [ ]
Among-select o s (t ∷ ss) h first = rw h first
Among-select o s (t ∷ ss) h (later m) =
    let rest = Among-select o s ss h m in
    elim (Bool-cases (passes o t)) [ inl e ↦ rw e (later rest) | inr e ↦ rw e rest ]

Among-swap :
    (x s t : DiscoveredServer) (ss inserted : List DiscoveredServer)
    → (Among s (x ∷ ss) → Among s inserted)
    → Among s (x ∷ t ∷ ss)
    → Among s (t ∷ inserted)
Among-swap x s t ss inserted f first = later (f first)
Among-swap x s t ss inserted f (later first) = first
Among-swap x s t ss inserted f (later (later m)) = later (f (later m))

Among-insert_by :
    (cmp : DiscoveredServer → DiscoveredServer → Ordering) (x s : DiscoveredServer)
    (ss : List DiscoveredServer)
    → Among s (x ∷ ss)
    → Among s (insert_by cmp x ss)
unfolding insert_by
Among-insert_by cmp x s [] m = m
Among-insert_by cmp x s (t ∷ ss) m = either (cmp x t) (Among-insert_by cmp x s ss)
  where
    either :
        (o : Ordering)
        → (Among s (x ∷ ss) → Among s (insert_by cmp x ss))
        → Among s (elim o [ Ordering.gt ↦ t ∷ insert_by cmp x ss | _ ↦ x ∷ t ∷ ss ])
    either Ordering.gt f = Among-swap x s t ss (insert_by cmp x ss) f m
    either Ordering.lt f = m
    either Ordering.eq f = m

pub Among-sort_by :
    (cmp : DiscoveredServer → DiscoveredServer → Ordering) (s : DiscoveredServer)
    (ss : List DiscoveredServer)
    → Among s ss
    → Among s (sort_by cmp ss)
unfolding sort_by
Among-sort_by cmp s [] m = elim m [ ]
Among-sort_by cmp s (t ∷ ss) first = Among-insert_by cmp s s (sort_by cmp ss) first
Among-sort_by cmp s (t ∷ ss) (later m) =
    Among-insert_by cmp t s (sort_by cmp ss) (later (Among-sort_by cmp s ss m))

take-drop : (n : ℕ) (ss : List DiscoveredServer) → ss ≡ take n ss ++ drop n ss
take-drop zero ss = refl
take-drop (suc n) [] = refl
take-drop (suc n) (s ∷ ss) = ap (λ rest. s ∷ rest) (take-drop n ss)

rest-drop : (offset : ℕ) (ss : List DiscoveredServer) → page offset none ss ≡ drop offset ss
rest-drop zero ss = refl
rest-drop (suc n) ss = ground arith

-- A list with this part of it, after so many other servers.
abbrev pub Within : List DiscoveredServer → List DiscoveredServer → ℕ → Type 0
Within part whole skipped =
    (before : List DiscoveredServer) × (after : List DiscoveredServer) × (whole
      ≡ before ++ (part ++ after))
    × (length before ≡ skipped)

pub page-Within :
    (offset : ℕ) (limit : Option ℕ) (ss : List DiscoveredServer)
    → Within (page offset limit ss) ss (min offset (length ss))
page-Within offset none ss = (
  take offset ss,
  [],
  take-drop offset ss
      ∙ ap (λ rest. take offset ss ++ rest)
          (sym (rest-drop offset ss) ∙ sym (append-nil (page offset none ss))),
  length-take offset ss,
)
page-Within offset (some n) ss =
    let rest = page offset none ss in
    (
      take offset ss,
      drop n rest,
      take-drop offset ss
          ∙ ap (λ more. take offset ss ++ more) (sym (rest-drop offset ss) ∙ take-drop n rest),
      length-take offset ss,
    )

-- ===== src/Discovery/Search/Filters.antt =====
-- Which servers pass the filters of a search.
use mcpway.Base.{
  subst, String, Bool, sym, eqb, not, ◌&&◌, ℕ, true, Option, none, some, ◌≡◌, refl, arith, ap, ◌∙◌,
}
use mcpway.Discovery.{
  DiscoveredServer, DiscoveredTransport, DiscoveryScope, SourceKind, same_source, scope_priority,
}
use mcpway.Discovery.Search.{
  DiscoverySearchOptions, passes, asks, query_of, server_matches_query, transport_priority,
}

-- What the options ask of a server; an option that is not given asks for nothing.
unfoldable pub IsAsked : DiscoverySearchOptions → DiscoveredServer → Type 0
IsAsked o s =
    ((t : DiscoveredTransport) → o.transport ≡ some t → s.transport ≡ t)
    × ((c : DiscoveryScope) → o.scope ≡ some c → s.scope ≡ c)
    × ((k : SourceKind) → o.source ≡ some k → s.source ≡ k)
    × (o.enabled_only ≡ true → s.enabled ≡ true)
    × ((q : String) → query_of o.query ≡ some q → server_matches_query s q ≡ true)

same_transport :
    (t u : DiscoveredTransport) → eqb (transport_priority t) (transport_priority u) ≡ true → t ≡ u
same_transport t u h = ground (arith, h)

same_scope : (c d : DiscoveryScope) → eqb (scope_priority c) (scope_priority d) ≡ true → c ≡ d
same_scope c d h = ground (arith, h)

same_kind : (k j : SourceKind) → same_source k j ≡ true → k ≡ j
same_kind k j h = ground (arith, h)

asks-some {ℓ} :
    {A : Type ℓ} (o : Option A) (a : A) (p : A → Bool) → asks o p ≡ true → o ≡ some a → p a ≡ true
asks-some o a p h e = sym (ap (λ q. asks q p) e) ∙ h

all_five :
    (a b c d e : Bool)
    → (a && b && c && d && e) ≡ true
    → (a ≡ true) × (b ≡ true) × (c ≡ true) × (d ≡ true) × (e ≡ true)
all_five a b c d e h = ground (arith, h)

pub passes-IsAsked :
    (o : DiscoverySearchOptions) (s : DiscoveredServer) → passes o s ≡ true → IsAsked o s
unfolding passes IsAsked
passes-IsAsked o s h =
    let by_transport =
      λ (t : DiscoveredTransport). eqb (transport_priority s.transport) (transport_priority t) in
    let by_scope = λ (c : DiscoveryScope). eqb (scope_priority s.scope) (scope_priority c) in
    let asked : (asks o.transport by_transport ≡ true)
        × (asks o.scope by_scope ≡ true)
        × (asks o.source (same_source s.source) ≡ true)
        × (not (o.enabled_only && not s.enabled) ≡ true)
        × (asks (query_of o.query) (server_matches_query s) ≡ true) =
      all_five (asks o.transport by_transport) (asks o.scope by_scope)
        (asks o.source (same_source s.source)) (not (o.enabled_only && not s.enabled))
        (asks (query_of o.query) (server_matches_query s)) h in
    (
      (λ t e. same_transport s.transport t (asks-some o.transport t by_transport asked.0 e)),
      (λ c e. same_scope s.scope c (asks-some o.scope c by_scope asked.1 e)),
      (λ k e. same_kind s.source k (asks-some o.source k (same_source s.source) asked.2 e)),
      (λ e. ground (arith, e, asked.3)),
      λ q e. asks-some (query_of o.query) q (server_matches_query s) asked.4 e,
    )

all_asked {ℓ} :
    {A : Type ℓ} (o : Option A) (p : A → Bool)
    → ((a : A) → o ≡ some a → p a ≡ true)
    → asks o p ≡ true
all_asked none p f = refl
all_asked (some a) p f = f a refl

eqb_of_eq : (m n : ℕ) → m ≡ n → eqb m n ≡ true
eqb_of_eq m n h = ground (arith, h)

kind_of_eq : (k j : SourceKind) → k ≡ j → same_source k j ≡ true
kind_of_eq k j h = subst (λ i. same_source k i ≡ true) h (ground arith)

five_hold :
    (a b c d e : Bool)
    → a ≡ true
    → b ≡ true
    → c ≡ true
    → d ≡ true
    → e ≡ true
    → (a && b && c && d && e) ≡ true
five_hold a b c d e f g h i j = ground (arith, f, g, h, i, j)

pub IsAsked-passes :
    (o : DiscoverySearchOptions) (s : DiscoveredServer) → IsAsked o s → passes o s ≡ true
unfolding passes IsAsked
IsAsked-passes o s asked =
    let by_transport =
      λ (t : DiscoveredTransport). eqb (transport_priority s.transport) (transport_priority t) in
    let by_scope = λ (c : DiscoveryScope). eqb (scope_priority s.scope) (scope_priority c) in
    five_hold (asks o.transport by_transport) (asks o.scope by_scope)
      (asks o.source (same_source s.source)) (not (o.enabled_only && not s.enabled))
      (asks (query_of o.query) (server_matches_query s))
      (all_asked o.transport by_transport (λ t e.
        eqb_of_eq (transport_priority s.transport) (transport_priority t)
          (ap transport_priority (asked.0 t e))))
      (all_asked o.scope by_scope (λ c e.
        eqb_of_eq (scope_priority s.scope) (scope_priority c) (ap scope_priority (asked.1 c e))))
      (all_asked o.source (same_source s.source) (λ k e. kind_of_eq s.source k (asked.2 k e)))
      (ground (arith, asked.3)) (all_asked (query_of o.query) (server_matches_query s) asked.4)

-- ===== src/Generator/Bindings.antt =====
-- rust/src/generator/normalize.rs: each header gets a variable of its own.
use mcpway.Base.{
  String, ◌≡◌, refl, ap, inl, inr, true, false, List, [], ◌∷◌, eq_refl, arith, eq_iff, ◌==◌,
  Bool-cases, length,
}
use mcpway.Generator.{HeaderBinding, member, free_name, header_base, bind_headers}
use mcpway.Generator.Free.{free_name-member}

-- The variables of bindings, and their headers.
unfoldable pub sources : List HeaderBinding → List String
sources [] = []
sources (b ∷ more) = b.source_env ∷ sources more

unfoldable pub bound : List HeaderBinding → List String
bound [] = []
bound (b ∷ more) = b.header ∷ bound more

unfoldable pub HasNoRepeat : List String → Type 0
HasNoRepeat [] = Unit
HasNoRepeat (s ∷ more) = (member s more ≡ false) × HasNoRepeat more

member-clash :
    (s t : String) (names : List String)
    → member s names ≡ false
    → member t names ≡ true
    → (s == t) ≡ false
member-clash s t names f h = elim (Bool-cases (s == t)) [
  | inl e ↦ absurd (ground (arith, f, h, ap (λ x. member x names) ((eq_iff s t).0 e)))
  | inr e ↦ e
]

sources-used :
    (headers used : List String) (taken : String)
    → member taken used ≡ true
    → member taken (sources (bind_headers headers used)) ≡ false
unfolding sources bind_headers
sources-used [] used taken h = refl
sources-used (header ∷ more) used taken h =
    let name = free_name (length used) (header_base header) 0 used in
    let other = member-clash name taken used (free_name-member (header_base header) used) h in
    let rest = sources-used more (name ∷ used) taken (ground (arith, h)) in rw (other, rest) refl

-- The variables that headers are bound to differ from each other, whatever the headers are called, and
-- the bindings are of these headers in their order.
pub bind_headers-HasNoRepeat :
    (headers used : List String)
    → HasNoRepeat (sources (bind_headers headers used))
      × (bound (bind_headers headers used) ≡ headers)
unfolding HasNoRepeat sources bound bind_headers
bind_headers-HasNoRepeat [] used = (tt, refl)
bind_headers-HasNoRepeat (header ∷ more) used =
    let name = free_name (length used) (header_base header) 0 used in
    let rest = bind_headers-HasNoRepeat more (name ∷ used) in
    (
      (sources-used more (name ∷ used) name (rw (eq_refl name) refl), rest.0),
      ap (λ hs. header ∷ hs) rest.1,
    )

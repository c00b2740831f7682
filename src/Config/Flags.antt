-- ===== src/Config/Flags.antt =====
-- rust/src/config.rs, `parse_cors_flags`: what the loop over the raw arguments finds.
use mcpway.Base.{
  ◌<◌, String, ◌≡◌, ap, ◌↔◌, inl, inr, true, false, ◌||◌, List, [], ◌∷◌, ◌++◌ as append, All,
  All-append, arith, eq_iff, ◌==◌, Bool-cases, length, any,
}
use mcpway.Base.Text.{starts_with}
use mcpway.Config.{
  CorsInput, CorsConfig, disabled, allow_all, allow_list, cors_loop, add_value, parse_cors_flags,
  cors_of,
}

-- A value that is kept: no star, and no word that starts like an option.
unfoldable pub IsOrigin : String → Type 0
unfolding starts_with
IsOrigin v = ((v == "*") ≡ false) × (starts_with v "--" ≡ false)

All-snoc :
    (v : String) (vs : List String)
    → All IsOrigin vs
    → IsOrigin v
    → All IsOrigin (append vs (v ∷ []))
All-snoc v vs h o = All-append IsOrigin vs (v ∷ []) h (o, tt)

add_value-IsOrigin :
    (v : String) (input : CorsInput)
    → starts_with v "--" ≡ false
    → All IsOrigin input.values
    → All IsOrigin (add_value v input).values
unfolding IsOrigin
add_value-IsOrigin v input s h = elim (Bool-cases (v == "*")) [
  | inl e ↦ rw e h
  | inr e ↦ rw e (All-snoc v input.values h (e, s))
]

cors_loop-IsOrigin :
    (args : List String) (input : CorsInput)
    → All IsOrigin input.values
    → All IsOrigin (cors_loop args input).values
unfolding cors_loop
cors_loop-IsOrigin [] input h = h
cors_loop-IsOrigin (arg ∷ []) input h = elim (Bool-cases (arg == "--cors")) [
  | inl e ↦ rw e h
  | inr e ↦ rw e h
]
cors_loop-IsOrigin (arg ∷ next ∷ rest) input h =
    let flagged =
      cors_loop-IsOrigin (next ∷ rest) (record input { present = true; allow_all = true }) h in
    let given = record input { present = true } in
    let valued = λ (s : starts_with next "--" ≡ false).
      cors_loop-IsOrigin rest (add_value next given) (add_value-IsOrigin next given s h) in
    let skipped = cors_loop-IsOrigin (next ∷ rest) input h in
    elim (Bool-cases (arg == "--cors")) [
      | inl e ↦ elim (Bool-cases (starts_with next "--")) [
        | inl s ↦ rw (e, s) flagged
        | inr s ↦ rw (e, s) (valued s)
      ]
      | inr e ↦ rw e skipped
    ]

-- A value after `--cors` that is taken as one is not `--cors` itself.
value_not_flag : (next : String) → starts_with next "--" ≡ false → (next == "--cors") ≡ false
unfolding starts_with
value_not_flag next s = elim (Bool-cases (next == "--cors")) [
  | inl e ↦ absurd (ground (arith, s, ap (λ t. starts_with t "--") ((eq_iff next "--cors").0 e)))
  | inr e ↦ e
]

cors_loop-present :
    (args : List String) (input : CorsInput)
    → (cors_loop args input).present ≡ (input.present || any (λ arg. arg == "--cors") args)
unfolding cors_loop
cors_loop-present [] input = ground arith
cors_loop-present (arg ∷ []) input = ground arith
cors_loop-present (arg ∷ next ∷ rest) input =
    let flagged =
      cors_loop-present (next ∷ rest) (record input { present = true; allow_all = true }) in
    let given = record input { present = true } in
    let valued = cors_loop-present rest (add_value next given) in
    let skipped = cors_loop-present (next ∷ rest) input in
    ground (arith, flagged, valued, skipped, value_not_flag next)

-- What `cors_of` makes of origins that are all proper.
unfoldable pub HasOrigins : CorsConfig → Type 0
HasOrigins disabled = Unit
HasOrigins allow_all = Unit
HasOrigins (allow_list raw) = (0 < length raw) × All IsOrigin raw

cors_of-HasOrigins : (input : CorsInput) → All IsOrigin input.values → HasOrigins (cors_of input)
unfolding HasOrigins
cors_of-HasOrigins input h = elim (Bool-cases input.present) [
  | inl e ↦ elim (Bool-cases input.allow_all) [
    | inl a ↦ rw (e, a) tt
    | inr a ↦ rw (e, a) (listed input.values h)
  ]
  | inr e ↦ rw e tt
]
  where
    listed :
        (values : List String)
        → All IsOrigin values
        → HasOrigins (elim values [ [] ↦ allow_all | v ∷ vs ↦ allow_list (v ∷ vs) ])
    listed [] h = tt
    listed (v ∷ vs) h = (omega arith, h)

-- Cross-origin requests are refused exactly if no argument is `--cors`. A list of allowed origins has
-- at least one, and none of them is a star or starts like an option.
pub cors_of-parse_cors_flags :
    (args : List String)
    → ((cors_of (parse_cors_flags args) ≡ disabled) ↔ (any (λ arg. arg == "--cors") args ≡ false))
      × HasOrigins (cors_of (parse_cors_flags args))
unfolding parse_cors_flags
cors_of-parse_cors_flags args =
    let start : CorsInput = record { present = false; allow_all = false; values = [] } in
    (
      ground (arith, cors_loop-present args start),
      cors_of-HasOrigins (cors_loop args start) (cors_loop-IsOrigin args start tt),
    )

-- ===== src/ToolApi/Schema/Required.antt =====
-- Which arguments `validate_required` accepts, and what its error names.
use mcpway.Base.{
  String, true, Option, none, some, ◌==◌, ◌≡◌, refl, sym, ap, subst, ◌∙◌, arith, Option-cases,
  Bool-cases, inl, inr, and_then, is_some, or_else,
}
use mcpway.Base.Text.{◌++◌}
use mcpway.Json.{
  Value, Items, Fields, null, bool, int, float, str, arr, obj, no_items, item, end, field,
  get_field, as_object, as_array,
}
use mcpway.ToolApi.Schema.Defaults.{object_of}
use mcpway.ToolApi.{ToolCallError, missing_required}
use mcpway.ToolApi.Schema.{
  validate_required, validate_required_object, required_of, required_each, required_loop,
  nested_error, missing_key, first_missing, is_object_schema,
}

pub data HasField (key : String) (v : Value) : Fields → Type 0 where
  first : {rest : Fields} → HasField key v (field key v rest)
  later :
      {k : String} {w : Value} {rest : Fields}
      → HasField key v rest
      → HasField key v (field k w rest)

pub data HasItem (v : Value) : Items → Type 0 where
  first_item : {rest : Items} → HasItem v (item v rest)
  later_item : {w : Value} {rest : Items} → HasItem v rest → HasItem v (item w rest)

-- The schema requires this key.
abbrev pub Requires : Value → String → Type 0
Requires schema key =
    (fs : Fields) × (keys : Items) × (schema ≡ obj fs)
    × (and_then (get_field "required" fs) as_array ≡ some keys)
    × HasItem (str key) keys

-- From a schema, arguments and a path to those of a nested object: each step goes to a property
-- that is an object in the schema and in the arguments.
pub data Reaches : Value → Fields → String → Value → Fields → String → Type 0 where
  here :
      {schema : Value} {args : Fields} {path : String} → Reaches schema args path schema args path
  into :
      {fs ps args current last_args : Fields} {property last : Value} {key path last_path : String}
      → and_then (get_field "properties" fs) as_object ≡ some ps
      → HasField key property ps
      → is_object_schema property ≡ true
      → get_field key args ≡ some (obj current)
      → Reaches property current (path ++ "." ++ key) last last_args last_path
      → Reaches (obj fs) args path last last_args last_path

required_of-some :
    (tool : String) (fs ps args : Fields) (path : String)
    → and_then (get_field "properties" fs) as_object ≡ some ps
    → required_of tool fs args path ≡ required_loop tool ps args path
unfolding get_field required_of
required_of-some tool end ps args path h = ground arith
required_of-some tool (field k v fs) ps args path h = elim (Bool-cases (k == "properties")) [
  | inr e ↦ rw e (required_of-some tool fs ps args path (ground arith))
  | inl e ↦ rw e (each v (ground arith))
]
  where
    each :
        (v : Value)
        → as_object v ≡ some ps
        → required_each tool v args path ≡ required_loop tool ps args path
    each (obj qs) g = ground arith
    each null g = ground arith
    each (bool b) g = ground arith
    each (int b) g = ground arith
    each (float b) g = ground arith
    each (str b) g = ground arith
    each (arr b) g = ground arith

first_missing-none :
    (key : String) (keys : Items) (args : Fields)
    → HasItem (str key) keys
    → first_missing keys args ≡ none
    → is_some (get_field key args) ≡ true
unfolding first_missing
first_missing-none key _ args first_item h = ground arith
first_missing-none key (item (str k) rest) args (later_item i) h =
    first_missing-none key rest args i (ground arith)
first_missing-none key (item null rest) args (later_item i) h = first_missing-none key rest args i h
first_missing-none key (item (bool b) rest) args (later_item i) h =
    first_missing-none key rest args i h
first_missing-none key (item (int b) rest) args (later_item i) h =
    first_missing-none key rest args i h
first_missing-none key (item (float b) rest) args (later_item i) h =
    first_missing-none key rest args i h
first_missing-none key (item (arr b) rest) args (later_item i) h =
    first_missing-none key rest args i h
first_missing-none key (item (obj b) rest) args (later_item i) h =
    first_missing-none key rest args i h

or_else-none : (a b : Option ToolCallError) → or_else a b ≡ none → (a ≡ none) × (b ≡ none)
or_else-none none b h = (refl, h)
or_else-none (some e) b h = absurd (ground arith)

required_loop-none :
    (tool key path : String) (property : Value) (ps args : Fields)
    → HasField key property ps
    → required_loop tool ps args path ≡ none
    → nested_error key property
        (λ current. validate_required_object tool property current (path ++ "." ++ key))
        args
      ≡ none
unfolding required_loop
required_loop-none tool key path property end args i h = elim i [ ]
required_loop-none tool key path property (field _ _ rest) args first h = (or_else-none _ _ h).0
required_loop-none tool key path property (field k w rest) args (later i) h =
    required_loop-none tool key path property rest args i (or_else-none _ _ h).1

object-none :
    (tool : String) (fs args : Fields) (path : String)
    → validate_required_object tool (obj fs) args path ≡ none
    → (missing_key fs args ≡ none) × (required_of tool fs args path ≡ none)
unfolding validate_required_object
object-none tool fs args path h = elim (Option-cases (missing_key fs args)) [
  | inl e ↦ (e, ground arith)
  | inr (k, e) ↦ absurd (ground arith)
]

nested-eq :
    (key : String) (property : Value) (f : Fields → Option ToolCallError) (args current : Fields)
    → is_object_schema property ≡ true
    → get_field key args ≡ some (obj current)
    → nested_error key property f args ≡ f current
nested-eq key property f args current o g = rw (o, g) refl

object-step :
    (tool : String) (fs args : Fields) (path : String)
    → missing_key fs args ≡ none
    → validate_required_object tool (obj fs) args path ≡ required_of tool fs args path
unfolding validate_required_object
object-step tool fs args path e = ground arith

accepted :
    {schema last : Value} {args last_args : Fields} {path last_path : String} (tool key : String)
    → Reaches schema args path last last_args last_path
    → validate_required_object tool schema args path ≡ none
    → Requires last key
    → is_some (get_field key last_args) ≡ true
accepted {schema} {args} {path} tool key here h (fs, keys, e, f, i) =
    let missing =
      (object-none tool fs args path
        (subst (λ v. validate_required_object tool v args path ≡ none) e h)).0 in
    first_missing-none key keys args i
      (sym (ap (λ o. and_then o (λ ks. first_missing ks args)) f) ∙ missing)
accepted {path} tool key (into {fs} {ps} {args} {current} {property} {key = k} p i o g r) h q =
    let inner = (object-none tool fs args path h).1 in
    let all = sym (required_of-some tool fs ps args path p) ∙ inner in
    let one = required_loop-none tool k path property ps args i all in
    accepted tool key r (sym (nested-eq k property _ args current o g) ∙ one) q

-- What an error tells: the tool, and the path of a reached object with a required key that it lacks.
abbrev pub Lacks : String → Value → Fields → String → ToolCallError → Type 0
Lacks tool schema args path error =
    (last : Value) × (last_args : Fields) × (last_path : String) × (key : String) × Reaches schema
      args path last last_args last_path
    × Requires last key
    × (get_field key last_args ≡ none)
    × (error ≡ missing_required tool last_path key)

-- The same of the objects one step below.
abbrev LacksBelow : String → Fields → Fields → String → ToolCallError → Type 0
LacksBelow tool ps args path error =
    (key : String) × (property : Value) × (current : Fields) × HasField key property ps
    × (is_object_schema property ≡ true)
    × (get_field key args ≡ some (obj current))
    × Lacks tool property current (path ++ "." ++ key) error

first_missing-some :
    (key : String) (keys : Items) (args : Fields)
    → first_missing keys args ≡ some key
    → HasItem (str key) keys × (get_field key args ≡ none)
unfolding first_missing
first_missing-some key no_items args h = absurd (ground arith)
first_missing-some key (item (str k) rest) args h = elim (Option-cases (get_field k args)) [
  | inl e ↦
      let same : k ≡ key = ground arith in
      subst (λ j. HasItem (str j) (item (str k) rest) × (get_field j args ≡ none)) same
        (first_item, e)
  | inr (v, e) ↦ let (i, g) = first_missing-some key rest args (ground arith) in (later_item i, g)
]
first_missing-some key (item null rest) args h =
    let (i, g) = first_missing-some key rest args h in (later_item i, g)
first_missing-some key (item (bool b) rest) args h =
    let (i, g) = first_missing-some key rest args h in (later_item i, g)
first_missing-some key (item (int b) rest) args h =
    let (i, g) = first_missing-some key rest args h in (later_item i, g)
first_missing-some key (item (float b) rest) args h =
    let (i, g) = first_missing-some key rest args h in (later_item i, g)
first_missing-some key (item (arr b) rest) args h =
    let (i, g) = first_missing-some key rest args h in (later_item i, g)
first_missing-some key (item (obj b) rest) args h =
    let (i, g) = first_missing-some key rest args h in (later_item i, g)

nested-some :
    (key : String) (property : Value) (f : Fields → Option ToolCallError) (args : Fields)
    (error : ToolCallError)
    → nested_error key property f args ≡ some error
    → (current : Fields) × (is_object_schema property ≡ true)
      × (get_field key args ≡ some (obj current))
      × (f current ≡ some error)
nested-some key property f args error h = elim (Bool-cases (is_object_schema property)) [
  | inr e ↦ absurd (ground arith)
  | inl e ↦ elim (Option-cases (get_field key args)) [
    | inl g ↦ absurd (ground arith)
    | inr (v, g) ↦ elim (Option-cases (as_object v)) [
      | inl o ↦ absurd (ground arith)
      | inr (c, o) ↦ (c, e, ground (arith, object_of v c), ground arith)
    ]
  ]
]

missing_key-some :
    (key : String) (fs args : Fields)
    → missing_key fs args ≡ some key
    → Requires (obj fs) key × (get_field key args ≡ none)
missing_key-some key fs args h = elim (Option-cases (and_then (get_field "required" fs) as_array)) [
  | inl e ↦ absurd (ground arith)
  | inr (keys, e) ↦
      let (i, g) = first_missing-some key keys args (ground arith) in ((fs, keys, refl, e, i), g)
]

mutual
  unfolding validate_required_object get_field

  object-some :
      (schema : Value) (tool : String) (args : Fields) (path : String) (error : ToolCallError)
      → validate_required_object tool schema args path ≡ some error
      → Lacks tool schema args path error
  object-some (obj fs) tool args path error h = elim (Option-cases (missing_key fs args)) [
    | inr (key, e) ↦
        let (q, g) = missing_key-some key fs args e in
        (obj fs, args, path, key, here, q, g, ground arith)
    | inl e ↦
        let below = sym (object-step tool fs args path e) ∙ h in
        let (ps, p, inner) = of-some fs tool args path error below in
        let (key, property, current, i, o, g, found) = inner in
        let (l, la, lp, k, r, q, miss, w) = found in (l, la, lp, k, into p i o g r, q, miss, w)
  ]
  object-some null tool args path error h = absurd (ground arith)
  object-some (bool b) tool args path error h = absurd (ground arith)
  object-some (int b) tool args path error h = absurd (ground arith)
  object-some (float b) tool args path error h = absurd (ground arith)
  object-some (str b) tool args path error h = absurd (ground arith)
  object-some (arr b) tool args path error h = absurd (ground arith)

  of-some :
      (fs : Fields) (tool : String) (args : Fields) (path : String) (error : ToolCallError)
      → required_of tool fs args path ≡ some error
      → (ps : Fields) × (and_then (get_field "properties" fs) as_object ≡ some ps)
        × LacksBelow tool ps args path error
  of-some end tool args path error h = absurd (ground arith)
  of-some (field k v fs) tool args path error h =
      let there = each-some v tool args path error in
      let rest = of-some fs tool args path error in
      elim (Bool-cases (k == "properties")) [
        | inl e ↦ let (ps, o, found) = there (ground arith) in (ps, ground arith, found)
        | inr e ↦ let (ps, o, found) = rest (ground arith) in (ps, ground arith, found)
      ]

  each-some :
      (v : Value) (tool : String) (args : Fields) (path : String) (error : ToolCallError)
      → required_each tool v args path ≡ some error
      → (ps : Fields) × (as_object v ≡ some ps) × LacksBelow tool ps args path error
  each-some (obj ps) tool args path error h = (ps, refl, loop-some ps tool args path error h)
  each-some null tool args path error h = absurd (ground arith)
  each-some (bool b) tool args path error h = absurd (ground arith)
  each-some (int b) tool args path error h = absurd (ground arith)
  each-some (float b) tool args path error h = absurd (ground arith)
  each-some (str b) tool args path error h = absurd (ground arith)
  each-some (arr b) tool args path error h = absurd (ground arith)

  loop-some :
      (ps : Fields) (tool : String) (args : Fields) (path : String) (error : ToolCallError)
      → required_loop tool ps args path ≡ some error
      → LacksBelow tool ps args path error
  loop-some end tool args path error h = absurd (ground arith)
  loop-some (field k p ps) tool args path error h =
      let f = λ (current : Fields). validate_required_object tool p current (path ++ "." ++ k) in
      let below = λ (current : Fields). object-some p tool current (path ++ "." ++ k) error in
      let rest = loop-some ps tool args path error in
      elim (Option-cases (nested_error k p f args)) [
        | inl e ↦
            let (key, property, current, i, o, g, found) =
              rest (sym (ap (λ o. or_else o (required_loop tool ps args path)) e) ∙ h) in
            (key, property, current, later i, o, g, found)
        | inr (e', e) ↦
            let (current, o, g, w) = nested-some k p f args error (ground arith) in
            (k, p, current, first, o, g, below current w)
      ]

-- `validate_required` accepts object arguments of an object schema exactly if every object that it
-- reaches through the schema's properties has all its required keys; and an error is about the
-- tool and about a reached object and a key that its schema requires and that it lacks.
pub validate_required-exact :
    (tool : String) (schema : Value) (args : Fields)
    → is_object_schema schema ≡ true
    → (validate_required tool schema (obj args) ≡ none
        → (last : Value) (last_args : Fields) (path key : String)
        → Reaches schema args "$" last last_args path
        → Requires last key
        → is_some (get_field key last_args) ≡ true)
      × ((error : ToolCallError)
          → validate_required tool schema (obj args) ≡ some error
          → Lacks tool schema args "$" error)
unfolding validate_required
validate_required-exact tool schema args o = (
  λ h last last_args path key r q. accepted tool key r (ground arith) q,
  λ error h. object-some schema tool args "$" error (ground arith),
)

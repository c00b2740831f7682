-- ===== src/ToolApi/Schema/Defaults.antt =====
-- What `apply_defaults` leaves as it is.
use mcpway.Base.{
  String, Option, none, some, List, [], ◌∷◌, ◌==◌, ◌≡◌, arith, eq_iff, Option-cases, Bool-cases,
  inl, inr,
}
use mcpway.Json.{
  Value, Fields, null, bool, int, float, str, arr, obj, end, field, get, get_field, insert_field,
  as_object, get_field-insert_field,
}
use mcpway.ToolApi.Schema.{
  apply_defaults, apply_defaults_object, defaults_of, defaults_each, defaults_loop, put_default,
  put_nested, is_object_schema,
}

-- The value that the keys lead to.
unfoldable pub value_at : List String → Value → Option Value
value_at [] v = some v
value_at (k ∷ ks) v = elim (get k v) [ none ↦ none | some w ↦ value_at ks w ]

-- The values of `a` that are no objects stand in `b` at the same places.
abbrev Keeps : Fields → Fields → Type 0
Keeps a b =
    (path : List String) (leaf : Value)
    → value_at path (obj a) ≡ some leaf
    → as_object leaf ≡ none
    → value_at path (obj b) ≡ some leaf

Keeps-trans : (a b c : Fields) → Keeps a b → Keeps b c → Keeps a c
Keeps-trans a b c f g path leaf h n = g path leaf (f path leaf h n) n

insert_fresh-Keeps :
    (k : String) (v : Value) (a : Fields) → get_field k a ≡ none → Keeps a (insert_field k v a)
unfolding value_at get
insert_fresh-Keeps k v a fresh [] leaf h n = ground arith
insert_fresh-Keeps k v a fresh (j ∷ path) leaf h n =
    ground (arith, eq_iff k j, get_field-insert_field k j v a)

insert_nested-Keeps :
    (k : String) (a c d : Fields)
    → get_field k a ≡ some (obj c)
    → Keeps c d
    → Keeps a (insert_field k (obj d) a)
unfolding value_at get
insert_nested-Keeps k a c d at keeps [] leaf h n = ground arith
insert_nested-Keeps k a c d at keeps (j ∷ path) leaf h n =
    ground (arith, eq_iff k j, get_field-insert_field k j (obj d) a, keeps path leaf)

put_default-Keeps : (k : String) (p : Value) (a : Fields) → Keeps a (put_default k p a)
put_default-Keeps k p a = elim (Option-cases (get_field k a)) [
  | inr (v, e) ↦ rw e (λ path leaf h n. h)
  | inl e ↦ elim (Option-cases (get "default" p)) [
    | inl f ↦ rw (e, f) (λ path leaf h n. h)
    | inr (v, f) ↦ rw (e, f) (insert_fresh-Keeps k v a e)
  ]
]

pub object_of : (v : Value) (c : Fields) → as_object v ≡ some c → v ≡ obj c
object_of (obj fs) c h = ground arith
object_of null c h = ground arith
object_of (bool b) c h = ground arith
object_of (int b) c h = ground arith
object_of (float b) c h = ground arith
object_of (str b) c h = ground arith
object_of (arr b) c h = ground arith

put_nested-Keeps :
    (k : String) (p : Value) (f : Fields → Fields) (a : Fields)
    → ((c : Fields) → Keeps c (f c))
    → Keeps a (put_nested k p f a)
put_nested-Keeps k p f a keeps = elim (Bool-cases (is_object_schema p)) [
  | inr e ↦ rw e (λ path leaf h n. h)
  | inl e ↦ elim (Option-cases (get_field k a)) [
    | inl g ↦ rw (e, g) (λ path leaf h n. h)
    | inr (v, g) ↦ elim (Option-cases (as_object v)) [
      | inl o ↦ rw (e, g, o) (λ path leaf h n. h)
      | inr (c, o) ↦
          rw (e, g, o) (insert_nested-Keeps k a c (f c) (ground (arith, object_of v c)) (keeps c))
    ]
  ]
]

mutual
  unfolding apply_defaults_object

  object-Keeps : (schema : Value) (a : Fields) → Keeps a (apply_defaults_object schema a)
  object-Keeps (obj fs) a = of-Keeps fs a
  object-Keeps null a = λ path leaf h n. h
  object-Keeps (bool b) a = λ path leaf h n. h
  object-Keeps (int b) a = λ path leaf h n. h
  object-Keeps (float b) a = λ path leaf h n. h
  object-Keeps (str b) a = λ path leaf h n. h
  object-Keeps (arr b) a = λ path leaf h n. h

  of-Keeps : (fs a : Fields) → Keeps a (defaults_of fs a)
  of-Keeps end a = λ path leaf h n. h
  of-Keeps (field k v fs) a =
      let here = each-Keeps v a in
      let rest = of-Keeps fs a in
      elim (Bool-cases (k == "properties")) [ inl e ↦ rw e here | inr e ↦ rw e rest ]

  each-Keeps : (v : Value) (a : Fields) → Keeps a (defaults_each v a)
  each-Keeps (obj ps) a = loop-Keeps ps a
  each-Keeps null a = λ path leaf h n. h
  each-Keeps (bool b) a = λ path leaf h n. h
  each-Keeps (int b) a = λ path leaf h n. h
  each-Keeps (float b) a = λ path leaf h n. h
  each-Keeps (str b) a = λ path leaf h n. h
  each-Keeps (arr b) a = λ path leaf h n. h

  loop-Keeps : (ps a : Fields) → Keeps a (defaults_loop ps a)
  loop-Keeps end a = λ path leaf h n. h
  loop-Keeps (field k p ps) a =
      let filled = put_default k p a in
      let nested = put_nested k p (apply_defaults_object p) filled in
      Keeps-trans a filled (defaults_loop ps nested) (put_default-Keeps k p a) (
        Keeps-trans filled nested (defaults_loop ps nested)
          (put_nested-Keeps k p (apply_defaults_object p) filled (object-Keeps p))
          (loop-Keeps ps nested))

-- Arguments that were given are kept: whatever value that is no object stands at some place of the
-- arguments, however deep, still stands there after the defaults are put in.
pub apply_defaults-keeps :
    (schema args leaf : Value) (path : List String)
    → value_at path args ≡ some leaf
    → as_object leaf ≡ none
    → value_at path (apply_defaults schema args) ≡ some leaf
unfolding apply_defaults
apply_defaults-keeps schema (obj args) leaf path h n = elim (Bool-cases (is_object_schema schema)) [
  | inl e ↦ rw e (object-Keeps schema args path leaf h n)
  | inr e ↦ rw e h
]
apply_defaults-keeps schema null leaf path h n = h
apply_defaults-keeps schema (bool b) leaf path h n = h
apply_defaults-keeps schema (int b) leaf path h n = h
apply_defaults-keeps schema (float b) leaf path h n = h
apply_defaults-keeps schema (str b) leaf path h n = h
apply_defaults-keeps schema (arr b) leaf path h n = h

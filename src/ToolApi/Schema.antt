-- ===== src/ToolApi/Schema.antt =====
-- Defaults and required keys of a tool's JSON schema. The source recurses into the value of a
-- schema's field `properties`; here that field is found by the recursion itself, field by field,
-- so that it is structural.
pub mod Defaults
pub mod Required
use mcpway.Base.{
  String, Bool, true, false, Option, none, some, List, [], ◌∷◌, ◌==◌, ◌||◌, is_some, if◌then◌else◌,
  and_then, or_else,
}
use mcpway.Base.Text.{◌++◌}
use mcpway.Json.{
  Value, Items, Fields, null, bool, int, float, str, arr, obj, no_items, item, end, field,
  get_field, insert_field, as_object, as_array, get,
}
use mcpway.ToolApi.{ToolCallError, missing_required, invalid_arguments}

-- The arm of a `type` field that is there.
abbrev pub is_object_type : Value → Bool
is_object_type (str t) = t == "object"
is_object_type _ = false

unfoldable pub is_object_schema : Value → Bool
unfolding get_field
is_object_schema schema = elim (as_object schema) [
  | none ↦ false
  | some fs ↦ elim (get_field "type" fs) [
    | some t ↦ is_object_type t
    | none ↦ is_some (get_field "properties" fs) || is_some (get_field "required" fs)
  ]
]

-- The default of a property put where its key is missing.
abbrev pub put_default : String → Value → Fields → Fields
put_default key property args =
    if is_some (get_field key args)
    then args
    else elim (get "default" property) [ none ↦ args | some value ↦ insert_field key value args ]

-- The value of a key replaced in place, if it is an object and the property's schema is one.
abbrev pub put_nested : String → Value → (Fields → Fields) → Fields → Fields
put_nested key property f args =
    if is_object_schema property
    then elim (and_then (get_field key args) as_object) [
      | none ↦ args
      | some current ↦ insert_field key (obj (f current)) args
    ]
    else args

unfoldable mutual
  pub apply_defaults_object : Value → Fields → Fields
  apply_defaults_object (obj fs) args = defaults_of fs args
  apply_defaults_object _ args = args

  -- The field `properties` of a schema.
  pub defaults_of : Fields → Fields → Fields
  defaults_of end args = args
  defaults_of (field k v fs) args =
      let here = defaults_each v args in
      let rest = defaults_of fs args in if k == "properties" then here else rest

  pub defaults_each : Value → Fields → Fields
  defaults_each (obj properties) args = defaults_loop properties args
  defaults_each _ args = args

  pub defaults_loop : Fields → Fields → Fields
  defaults_loop end args = args
  defaults_loop (field key property rest) args =
      defaults_loop rest
        (put_nested key property (apply_defaults_object property) (put_default key property args))

unfoldable pub apply_defaults : Value → Value → Value
apply_defaults schema (obj args) =
    if is_object_schema schema then obj (apply_defaults_object schema args) else obj args
apply_defaults schema args = args

-- `as_str` with `continue`: the first text of `required` that is no key of `args`.
unfoldable pub first_missing : Items → Fields → Option String
first_missing no_items args = none
first_missing (item (str key) keys) args =
    let rest = first_missing keys args in if is_some (get_field key args) then rest else some key
first_missing (item _ keys) args = first_missing keys args

abbrev pub missing_key : Fields → Fields → Option String
missing_key schema args =
    and_then (and_then (get_field "required" schema) as_array) (λ keys. first_missing keys args)

-- The error of the object that a property's value is.
abbrev pub nested_error :
    String → Value → (Fields → Option ToolCallError) → Fields → Option ToolCallError
nested_error key property f args =
    if is_object_schema property then and_then (and_then (get_field key args) as_object) f else none

unfoldable mutual
  pub validate_required_object : String → Value → Fields → String → Option ToolCallError
  validate_required_object tool (obj fs) args path = elim (missing_key fs args) [
    | some key ↦ some (missing_required tool path key)
    | none ↦ required_of tool fs args path
  ]
  validate_required_object tool _ args path = none

  pub required_of : String → Fields → Fields → String → Option ToolCallError
  required_of tool end args path = none
  required_of tool (field k v fs) args path =
      let here = required_each tool v args path in
      let rest = required_of tool fs args path in if k == "properties" then here else rest

  pub required_each : String → Value → Fields → String → Option ToolCallError
  required_each tool (obj properties) args path = required_loop tool properties args path
  required_each tool _ args path = none

  pub required_loop : String → Fields → Fields → String → Option ToolCallError
  required_loop tool end args path = none
  required_loop tool (field key property rest) args path =
      or_else
        (nested_error key property
          (λ current. validate_required_object tool property current (path ++ "." ++ key)) args)
        (required_loop tool rest args path)

unfoldable pub validate_required : String → Value → Value → Option ToolCallError
validate_required tool schema args =
    if is_object_schema schema
    then elim (as_object args) [
      | none ↦ some (invalid_arguments ("Tool '" ++ tool ++ "' expects JSON object arguments"))
      | some fs ↦ validate_required_object tool schema fs "$"
    ]
    else none

-- ===== src/Generator/Definition.antt =====
-- rust/src/generator/definition.rs: a server that is written into a definition is read from it.
use mcpway.Base.{String, ◌≡◌, refl, ap, ◌∙◌, false, none, some, List, [], ◌∷◌, arith, eq_iff}
use mcpway.Base.Text.{trim, is_empty}
use mcpway.Base.Result.{ok, ◌>>=◌}
use mcpway.Base.Dict.{lookup-insert_all}
use mcpway.Base.Dict.Sorted.{IsSorted, last_entry-IsSorted}
use mcpway.Connect.{items_of}
use mcpway.Generator.{
  ParsedServerDefinition, parse_definition_value, select_server, parse_server_object, parse_fields,
  trimmed_text, parse_string_array, parse_string_map, string_items, string_fields,
}
use mcpway.Base.Dict.{Dict, lookup, insert, insert_all}
use mcpway.Json.{Value, Fields, str, arr, obj, end, field, get_field}

-- The fields of an object with texts, in the order of a `BTreeMap`.
unfoldable pub listed : Dict String → Fields
listed [] = end
listed ((k, s) ∷ more) = field k (str s) (listed more)

-- The definition with this server alone.
unfoldable pub definition_value : ParsedServerDefinition → Value
unfolding items_of listed
definition_value p = obj (
    field "mcpServers"
      (obj (
        field p.server_name
          (obj (
            field "args" (arr (items_of p.args)) (
              field "command" (str p.command)
                (field "env" (obj (listed p.env)) (field "headers" (obj (listed p.headers)) end)))))
          end))
      end)

string_items-items_of : (args : List String) → string_items (items_of args) ≡ some args
unfolding string_items items_of
string_items-items_of [] = refl
string_items-items_of (s ∷ more) = ground (arith, string_items-items_of more)

string_fields-listed :
    (name server : String) (d out : Dict String)
    → string_fields name server (listed d) out ≡ ok (insert_all out d)
unfolding string_fields listed insert_all
string_fields-listed name server [] out = refl
string_fields-listed name server ((k, s) ∷ more) out =
    string_fields-listed name server more (insert k s out)

-- What is read back from the definition.
abbrev pub read_back : ParsedServerDefinition → ParsedServerDefinition
unfolding insert_all
read_back p = record p { env = insert_all [] p.env; headers = insert_all [] p.headers }

lookup-read_back :
    (k : String) (d : Dict String) → IsSorted d → lookup k (insert_all [] d) ≡ lookup k d
unfolding lookup
lookup-read_back k d h = ground (arith, lookup-insert_all k [] d, last_entry-IsSorted k d h)

-- The parser asks for the fields one after another; the command is trimmed.
parse_fields-listed :
    (p : ParsedServerDefinition)
    → trim p.command ≡ p.command
    → is_empty p.command ≡ false
    → parse_definition_value (definition_value p) none ≡ ok (read_back p)
unfolding parse_definition_value definition_value select_server parse_server_object parse_fields
    get_field trimmed_text parse_string_array parse_string_map read_back
parse_fields-listed p t e =
    rw (t, e, string_items-items_of p.args)
      (rw (string_fields-listed "env" p.server_name p.env [])
        (rw (string_fields-listed "headers" p.server_name p.headers []) refl))

select_server-only :
    (name : String) (v : Value) → select_server (some name) (field name v end) ≡ ok (name, v)
unfolding select_server get_field
select_server-only name v = ground (arith, eq_iff name name)

parse_definition_value-named :
    (p : ParsedServerDefinition)
    → parse_definition_value (definition_value p) (some p.server_name)
      ≡ parse_definition_value (definition_value p) none
unfolding parse_definition_value definition_value select_server get_field
parse_definition_value-named p =
    ap (λ chosen. chosen >>= λ c. parse_server_object c.0 c.1) (select_server-only p.server_name _)

-- A server with a command that is not empty and has no blanks at its ends, written into a definition
-- as its only server, is read back, asked for by its name or not: its name, command and
-- arguments are the same, and so is what each variable and each header has.
pub parse_definition_value-definition_value :
    (p : ParsedServerDefinition) (k : String)
    → trim p.command ≡ p.command
    → is_empty p.command ≡ false
    → IsSorted p.env
    → IsSorted p.headers
    → (q : ParsedServerDefinition) × (parse_definition_value (definition_value p) none ≡ ok q)
      × (parse_definition_value (definition_value p) (some p.server_name) ≡ ok q)
      × (q.server_name ≡ p.server_name)
      × (q.command ≡ p.command)
      × (q.args ≡ p.args)
      × (lookup k q.env ≡ lookup k p.env)
      × (lookup k q.headers ≡ lookup k p.headers)
unfolding read_back
parse_definition_value-definition_value p k t e env headers =
    let found = parse_fields-listed p t e in
    (
      read_back p,
      found,
      parse_definition_value-named p ∙ found,
      refl,
      refl,
      refl,
      lookup-read_back k p.env env,
      lookup-read_back k p.headers headers,
    )

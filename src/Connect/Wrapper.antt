-- ===== src/Connect/Wrapper.antt =====
-- rust/src/connect.rs: a command that was saved as a wrapper is started again from its file.
use mcpway.Base.{
  String, ◌≡◌, refl, ap, ◌∙◌, inl, inr, true, Option, none, some, List, [], ◌∷◌, ◌++◌ as append,
  ◌==◌, Bool-cases, or_else,
}
use mcpway.Base.Dict.{last_entry, lookup-insert_all}
use mcpway.Base.Result.{ok}
use mcpway.Config.Connect.{ConnectConfig}
use mcpway.Json.{get_field-insert_field}
use mcpway.Connect.{
  Outside, LaunchSpec, launch_of, template_env, texts_of, items_of, fields_of, wrapper_value,
  normalized, resolve_env_template_value, resolve_from_wrapper_json, resolve_wrapper,
  resolve_connect_stdio_command, is_json, stem_of,
}
use mcpway.Base.Dict.{Dict, lookup, insert_all, lookup-insert}
use mcpway.Json.{Value, Fields, str, end, field, get, get_field, as_str}

-- The value of a variable in a saved environment, as it is when it is read again.
unfoldable pub resolved : Outside → Option String → Option String
resolved o none = none
resolved o (some value) = some (resolve_env_template_value o value)

texts_of-items_of : (args : List String) → texts_of (items_of args) ≡ args
unfolding texts_of items_of
texts_of-items_of [] = refl
texts_of-items_of (s ∷ more) = ap (λ xs. s ∷ xs) (texts_of-items_of more)

-- The text of a field, resolved.
field_value : Outside → Option Value → Option String
field_value o none = none
field_value o (some v) =
    some (elim (as_str v) [ none ↦ "" | some s ↦ resolve_env_template_value o s ])

lookup-template_env :
    (o : Outside) (k : String) (fs : Fields)
    → lookup k (template_env o fs) ≡ field_value o (get_field k fs)
unfolding template_env field_value lookup get_field
lookup-template_env o k end = refl
lookup-template_env o k (field j v fs) =
    let value : String = elim (as_str v) [ none ↦ "" | some s ↦ resolve_env_template_value o s ] in
    let step = lookup-insert j k value (template_env o fs) in
    elim (Bool-cases (j == k)) [
      | inl e ↦ rw e (step ∙ rw e refl)
      | inr e ↦ rw e (step ∙ rw e (lookup-template_env o k fs))
    ]

field_value-fields_of :
    (o : Outside) (k : String) (d : Dict String)
    → field_value o (get_field k (fields_of d)) ≡ resolved o (lookup k d)
unfolding fields_of field_value resolved lookup get_field
field_value-fields_of o k [] = refl
field_value-fields_of o k ((j, s) ∷ more) =
    let step = get_field-insert_field j k (str s) (fields_of more) in
    elim (Bool-cases (j == k)) [
      | inl e ↦ rw (step, e) refl
      | inr e ↦ rw (step, e) (field_value-fields_of o k more)
    ]

-- The environment of a command that is started again.
abbrev pub launch_env : Outside → ConnectConfig → LaunchSpec → Dict String
unfolding template_env fields_of insert_all
launch_env o config spec = insert_all (template_env o (fields_of spec.env)) config.stdio_env

launch_of-wrapper_value :
    (o : Outside) (path : String) (config : ConnectConfig) (spec : LaunchSpec)
    → launch_of o path config (wrapper_value spec)
      ≡ ok (record {
        name = stem_of o path;
        command = spec.command;
        args = append spec.args config.stdio_args;
        env = launch_env o config spec;
      })
unfolding launch_of wrapper_value normalized get get_field launch_env
launch_of-wrapper_value o path config spec = rw (texts_of-items_of spec.args) refl

-- The file at `path` holds what was written for the command `spec`, this JSON reads back as it
-- was, and `connect` is told to use the file. Then it starts the same command with the same
-- arguments, those of the command line behind them; a variable has the value of the command line
-- if that names it, and otherwise the saved value, resolved where it is `${NAME}`.
pub resolve_connect_stdio_command-saved :
    (o : Outside) (path : String) (config : ConnectConfig) (spec : LaunchSpec)
    → config.stdio_cmd ≡ none
    → config.stdio_wrapper ≡ some path
    → is_json o path ≡ true
    → o.read_to_string path ≡ ok (o.write_json (wrapper_value spec))
    → o.read_json (o.write_json (wrapper_value spec)) ≡ ok (wrapper_value spec)
    → (env : Dict String) × (resolve_connect_stdio_command o config
        ≡ ok (record {
          name = stem_of o path;
          command = spec.command;
          args = append spec.args config.stdio_args;
          env = env;
        }))
      × ((k : String)
          → lookup k env ≡ or_else (last_entry k config.stdio_env) (resolved o (lookup k spec.env)))
unfolding resolve_connect_stdio_command resolve_wrapper resolve_from_wrapper_json launch_env
resolve_connect_stdio_command-saved o path config spec no_cmd wrapper json file reads = (
  launch_env o config spec,
  rw (no_cmd, wrapper, json, file, reads) (launch_of-wrapper_value o path config spec),
  λ k.
      lookup-insert_all k (template_env o (fields_of spec.env)) config.stdio_env
      ∙ ap (or_else (last_entry k config.stdio_env))
          (lookup-template_env o k (fields_of spec.env) ∙ field_value-fields_of o k spec.env),
)

-- ===== src/Generator/Templates.antt =====
-- rust/src/generator/normalize.rs and connect.rs: a template that the generator writes is resolved when
-- a command is started.
use Prim.Native.String.{[], ◌∷◌}
use text.Mathlib.TextLemmas.{nil-append, cons-append}
use mcpway.Base.{String, false, some, ◌≡◌, refl, ap, ◌∙◌, unwrap_or}
use mcpway.Base.Text.{
  ◌++◌, is_empty, is_whitespace, trim, trim_matches, trim_start_matches, trim_end_matches,
  strip_prefix, strip_last,
}
use mcpway.Connect.{Outside, resolve_env_template_value}
use mcpway.Generator.{template}

append_brace_not_empty : (s : String) → is_empty (s ++ "}") ≡ false
append_brace_not_empty [] = refl
append_brace_not_empty (c ∷ s) = rw (cons-append c s "}") refl

trim_end-brace : (s : String) → trim_end_matches is_whitespace (s ++ "}") ≡ s ++ "}"
unfolding trim_end_matches is_whitespace
trim_end-brace [] = refl
trim_end-brace (c ∷ s) = rw (cons-append c s "}", trim_end-brace s, append_brace_not_empty s) refl

strip_last-brace : (s : String) → strip_last b'}' (s ++ "}") ≡ some s
unfolding strip_last
strip_last-brace [] = refl
strip_last-brace (c ∷ s) =
    rw (cons-append c s "}", strip_last-brace s, append_brace_not_empty s) refl

template_text : (name : String) → template name ≡ "$" ∷ "{" ∷ (name ++ "}")
template_text name =
    cons-append "$" "{" (name ++ "}")
    ∙ ap (λ s. "$" ∷ s)
        (cons-append "{" "" (name ++ "}") ∙ ap (λ s. "{" ∷ s) (nil-append (name ++ "}")))

trim-template : (name : String) → trim (template name) ≡ "$" ∷ "{" ∷ (name ++ "}")
unfolding trim trim_matches trim_start_matches trim_end_matches is_whitespace
trim-template name =
    ap trim (template_text name) ∙ rw (trim_end-brace name, append_brace_not_empty name) refl

-- A template of a variable with a name is resolved to the variable's value, if it is set, and stays the
-- template otherwise.
pub resolve_env_template_value-template :
    (o : Outside) (name : String)
    → is_empty name ≡ false
    → resolve_env_template_value o (template name) ≡ unwrap_or (o.env_var name) (template name)
unfolding resolve_env_template_value strip_prefix
resolve_env_template_value-template o name h =
    rw (resolve_env_template_value, trim-template name) (rw (strip_last-brace name, h) refl)

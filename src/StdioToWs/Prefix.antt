-- ===== src/StdioToWs/Prefix.antt =====
-- rust/src/gateways/stdio_to_ws.rs: where the first colon of a prefixed id stands.
use Prim.Native.String.{[], ◌∷◌}
use text.Mathlib.TextLemmas.{nil-append, cons-append}
use mcpway.Base.{String, code, false, some, ◌≡◌, refl, eqb}
use mcpway.Base.Text.{◌++◌, split_once}

-- The text has no colon; a `Uuid` has hexadecimal digits and dashes only.
unfoldable pub HasNoColon : String → Type 0
HasNoColon [] = Unit
HasNoColon (c ∷ s) = (eqb (code c) b':' ≡ false) × HasNoColon s

pub split_once-append :
    (client raw : String)
    → HasNoColon client
    → split_once b':' (client ++ ":" ++ raw) ≡ some (client, raw)
unfolding split_once HasNoColon
split_once-append [] raw h =
    rw (nil-append (":" ++ raw), cons-append ":" [] raw, nil-append raw) refl
split_once-append (c ∷ client) raw h =
    rw (cons-append c client (":" ++ raw), h.0, split_once-append client raw h.1) refl

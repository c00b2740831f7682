-- ===== src/Sources/Comments.antt =====
-- rust/src/discovery/sources/mod.rs, `strip_jsonc_comments`: comments are cut out of JSON, but not out of
-- its texts.
use Prim.Native.String.{[], ◌∷◌}
use text.Mathlib.TextLemmas.{nil-append, cons-append}
use mcpway.Base.{String, Char, code, Bool, false, ◌&&◌, ◌≡◌, refl, ap, sym, ◌∙◌, eqb, if◌then◌else◌}
use mcpway.Base.Text.{◌++◌}

-- Where the loop stands: outside, in a text, after a backslash in it, in a comment to the end of the
-- line, or in one to the next `*/`, with whether the last character was a star.
pub data Place : Type 0 where
  outside literal escaped line : Place
  block : Bool → Place

quote : Char → Bool
quote c = eqb (code c) 34

slash : Char → Bool
slash c = eqb (code c) b'/'

star : Char → Bool
star c = eqb (code c) b'*'

unfoldable pub strip_from : Place → String → String
unfolding quote slash star
strip_from place [] = []
strip_from outside (c ∷ []) = c ∷ []
strip_from outside (c ∷ d ∷ s) =
    let opened = c ∷ strip_from literal (d ∷ s) in
    let to_line = strip_from line s in
    let to_block = strip_from (block false) s in
    let kept = c ∷ strip_from outside (d ∷ s) in
    if quote c
    then opened
    else if slash c && slash d
    then to_line
    else if slash c && star d
    then to_block
    else kept
strip_from literal (c ∷ s) =
    let next = c ∷ strip_from escaped s in
    let done = c ∷ strip_from outside s in
    let kept = c ∷ strip_from literal s in
    if eqb (code c) 92 then next else if quote c then done else kept
strip_from escaped (c ∷ s) = c ∷ strip_from literal s
strip_from line (c ∷ s) =
    let done = c ∷ strip_from outside s in
    let more = strip_from line s in if eqb (code c) 10 then done else more
strip_from (block starred) (c ∷ s) =
    let done = strip_from outside s in
    let more = strip_from (block (star c)) s in if starred && slash c then done else more

unfoldable pub strip_jsonc_comments : String → String
unfolding strip_from
strip_jsonc_comments input = strip_from outside input

-- The text of a string without a quote and without a backslash.
unfoldable pub IsPlain : String → Type 0
unfolding quote
IsPlain [] = Unit
IsPlain (c ∷ s) = (quote c ≡ false) × (eqb (code c) 92 ≡ false) × IsPlain s

-- One line.
unfoldable pub IsLine : String → Type 0
IsLine [] = Unit
IsLine (c ∷ s) = (eqb (code c) 10 ≡ false) × IsLine s

after_nothing : (c : Char) (s : String) → "" ++ (c ∷ "") ++ s ≡ c ∷ s
after_nothing c s = nil-append ((c ∷ "") ++ s) ∙ cons-append c "" s ∙ ap (λ t. c ∷ t) (nil-append s)

strip_from-literal :
    (body s : String)
    → IsPlain body
    → strip_from literal (body ++ "\"" ++ s) ≡ body ++ "\"" ++ strip_from outside s
unfolding strip_from IsPlain
strip_from-literal [] s h =
    ap (strip_from literal) (after_nothing "\"" s) ∙ sym (after_nothing "\"" (strip_from outside s))
strip_from-literal (c ∷ body) s h =
    rw (cons-append c body ("\"" ++ s), h.1, h.0, strip_from-literal body s h.2)
      (sym (cons-append c body ("\"" ++ strip_from outside s)))

strip_from-line :
    (body s : String)
    → IsLine body
    → strip_from line (body ++ "\n" ++ s) ≡ "\n" ∷ strip_from outside s
unfolding strip_from IsLine
strip_from-line [] s h = ap (strip_from line) (after_nothing "\n" s)
strip_from-line (c ∷ body) s h =
    rw (cons-append c body ("\n" ++ s), h.0) (strip_from-line body s h.1)

strip_from-quote : (s : String) → strip_from outside ("\"" ∷ s) ≡ "\"" ∷ strip_from literal s
unfolding strip_from
strip_from-quote [] = refl
strip_from-quote (c ∷ s) = refl

-- A text of the input, without an escape in it, stays as it is, whatever marks of comments stand in it,
-- and a comment that starts with two slashes is cut out up to the end of its line.
pub strip_jsonc_comments-parts :
    (body words s : String)
    → IsPlain body
    → IsLine words
    → (strip_jsonc_comments ("\"" ∷ (body ++ "\"" ++ s))
        ≡ "\"" ∷ (body ++ "\"" ++ strip_jsonc_comments s))
      × (strip_jsonc_comments ("/" ∷ "/" ∷ (words ++ "\n" ++ s)) ≡ "\n" ∷ strip_jsonc_comments s)
unfolding strip_jsonc_comments strip_from
strip_jsonc_comments-parts body words s plain one = (
  strip_from-quote (body ++ "\"" ++ s) ∙ ap (λ t. "\"" ∷ t) (strip_from-literal body s plain),
  strip_from-line words s one,
)

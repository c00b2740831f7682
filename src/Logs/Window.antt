-- ===== src/Logs/Window.antt =====
-- The window of recent lines, and what is printed of it.
use mcpway.Base.{
  ℕ, zero, suc, ◌-◌, ◌≤◌, ◌<◌, max, String, none, some, List, [], ◌∷◌, ◌++◌, ◌≡◌, refl, sym, ap,
  ◌∙◌, arith, leb, length, length-append, drop, length-drop, if◌then◌else◌, append_assoc,
  append-nil, Bool-cases, leb→le, inl, inr,
}
use mcpway.Logs.{Outside, LogsTailConfig, emit_line}

-- `VecDeque::pop_front`
abbrev pop_front : List String → List String
pop_front [] = []
pop_front (x ∷ xs) = xs

-- The loop over the lines of the file, from a window.
unfoldable pub recent_lines : ℕ → List String → List String → List String
recent_lines lines window [] = window
recent_lines lines window (line ∷ more) =
    recent_lines lines
      ((if leb lines (length window) then pop_front window else window) ++ (line ∷ [])) more

abbrev pub emitted : Outside → LogsTailConfig → List String → List String
emitted outside config [] = []
emitted outside config (line ∷ more) =
    let rest = emitted outside config more in
    elim (emit_line outside config line) [ none ↦ rest | some text ↦ text ∷ rest ]

-- What `print_recent_lines` prints for a file with these lines.
unfoldable pub print_recent_lines : Outside → LogsTailConfig → List String → List String
unfolding recent_lines emit_line
print_recent_lines outside config body = emitted outside config (recent_lines config.lines [] body)

-- The last lines, at most this many.
abbrev pub last : ℕ → List String → List String
last n xs = drop (length xs - n) xs

drop-append : (k : ℕ) (xs ys : List String) → k ≤ length xs → drop k (xs ++ ys) ≡ drop k xs ++ ys
drop-append zero xs ys h = refl
drop-append (suc k) [] ys h = absurd (omega (arith, h))
drop-append (suc k) (x ∷ xs) ys h = drop-append k xs ys (ground arith)

pop_front-drop : (k : ℕ) (xs : List String) → pop_front (drop k xs) ≡ drop (suc k) xs
pop_front-drop zero [] = refl
pop_front-drop zero (x ∷ xs) = refl
pop_front-drop (suc k) [] = refl
pop_front-drop (suc k) (x ∷ xs) = pop_front-drop k xs

-- One line more, at a window with the last lines of those before: it is full, or it is not.
full-push :
    (n : ℕ) (seen : List String) (line : String)
    → 1 ≤ n
    → n ≤ length seen
    → pop_front (last n seen) ++ (line ∷ []) ≡ last n (seen ++ (line ∷ []))
full-push n seen line pos full =
    let k = length seen - n in
    let grown : length (seen ++ (line ∷ [])) - n ≡ suc k =
      omega (arith, length-append seen (line ∷ []), full) in
    let within : suc k ≤ length seen = omega (arith, pos, full) in
    ap (λ l. l ++ (line ∷ [])) (pop_front-drop k seen)
    ∙ sym (drop-append (suc k) seen (line ∷ []) within)
    ∙ ap (λ j. drop j (seen ++ (line ∷ []))) (sym grown)

room-push :
    (n : ℕ) (seen : List String) (line : String)
    → length seen < n
    → last n seen ++ (line ∷ []) ≡ last n (seen ++ (line ∷ []))
room-push n seen line room =
    let before : length seen - n ≡ 0 = omega (arith, room) in
    let after : length (seen ++ (line ∷ [])) - n ≡ 0 =
      omega (arith, length-append seen (line ∷ []), room) in
    ap (λ j. drop j seen ++ (line ∷ [])) before ∙ ap (λ j. drop j (seen ++ (line ∷ []))) (sym after)

last-push :
    (lines : ℕ) (seen : List String) (line : String)
    → let window = last (max lines 1) seen in
      (if leb lines (length window) then pop_front window else window) ++ (line ∷ [])
      ≡ last (max lines 1) (seen ++ (line ∷ []))
last-push lines [] line = ground arith
last-push lines (first ∷ seen) line =
    let all = first ∷ seen in
    let n = max lines 1 in
    let size = length-drop (length all - n) all in
    elim (Bool-cases (leb lines (length (last n all)))) [
      | inl e ↦ rw e (
          full-push n all line (omega arith)
            (omega (arith, size, leb→le lines (length (last n all)) e)))
      | inr e ↦ rw e (room-push n all line (ground (arith, size)))
    ]

recent_lines-last :
    (lines : ℕ) (seen more : List String)
    → recent_lines lines (last (max lines 1) seen) more ≡ last (max lines 1) (seen ++ more)
unfolding recent_lines
recent_lines-last lines seen [] = ap (last (max lines 1)) (sym (append-nil seen))
recent_lines-last lines seen (line ∷ more) =
    ap (λ w. recent_lines lines w more) (last-push lines seen line)
    ∙ recent_lines-last lines (seen ++ (line ∷ [])) more
    ∙ ap (last (max lines 1)) (append_assoc seen (line ∷ []) more)

nothing-last : (lines : ℕ) → last (max lines 1) [] ≡ []
nothing-last lines =
    let start : 0 - max lines 1 ≡ 0 = omega arith in ap (λ k. drop {A = String} k []) start

-- What is printed first is what the last lines of the file give, each as `emit_line` has it and in
-- order: as many lines as were asked for, but one where none was asked for.
pub print_recent_lines-last :
    (outside : Outside) (config : LogsTailConfig) (body : List String)
    → print_recent_lines outside config body
      ≡ emitted outside config (last (max config.lines 1) body)
unfolding print_recent_lines
print_recent_lines-last outside config body =
    let none_left : last (max config.lines 1) [] ≡ [] = nothing-last config.lines in
    ap (λ w. emitted outside config (recent_lines config.lines w body)) (sym none_left)
    ∙ ap (emitted outside config) (recent_lines-last config.lines [] body)

-- ===== src/Config/Expansion/Indents.antt =====
-- The `vars` block in cli/src/config.rs: a value of several lines stays at the indent of the line that
-- its placeholder stands in.
use mathlib.Core.List.{append-nil}
use coulisse.Prelude.{
  Lacks, join, split_on-join, ℕ, ◌≡◌, ◌≢◌, ◌⊎◌, inl, inr, refl, sym, ap, ◌∙◌, codes, none, some,
  List, [], ◌∷◌, ◌++◌, ok, map, is_nil, if◌then◌else◌, split_at, split_on, All, arith, String,
  nat_eq,
}
use coulisse.Config.Expansion.{
  expand_config_vars, var_named, indented, push_lines, after_newline, take_blanks,
  leading_indent_of_last_line,
}
use coulisse.Config.Expansion.Filling.{
  Placeholder, Piece, render, fill, var_piece, HasVarValue, expand_config_vars-render,
}

abbrev pub OneLine : List ℕ → Type 0
OneLine = Lacks 10

abbrev pub IsBlank : ℕ → Type 0
IsBlank c = (c ≡ 32) ⊎ (c ≡ 9)

-- The last line of a text starts with the blanks `indent`, and no others.
pub record IsIndent (text indent : List ℕ) : Type 0 where
  pub before : List ℕ
  pub rest : List ℕ
  pub split : text ≡ before ++ (indent ++ rest)
  pub starts : (before ≡ []) ⊎ ((lines : List ℕ) × (before ≡ lines ++ 10 ∷ []))
  pub one_line : OneLine (indent ++ rest)
  pub blank : All IsBlank indent
  pub stops : (rest ≡ []) ⊎ ((c : ℕ) × (cs : List ℕ) × (rest ≡ c ∷ cs) × (c ≢ 32) × (c ≢ 9))

-- A line moved to an indent, which an empty one is not.
unfoldable pub shift : List ℕ → List ℕ → List ℕ
shift indent [] = []
shift indent (c ∷ cs) = indent ++ (c ∷ cs)

after_newline-OneLine : (s : List ℕ) → OneLine s → after_newline s ≡ none
after_newline-OneLine [] h = refl
after_newline-OneLine (c ∷ cs) h = rw (after_newline-OneLine cs h.1) (ground (arith, h.0))

after_newline-append :
    (lines line : List ℕ) → OneLine line → after_newline ((lines ++ 10 ∷ []) ++ line) ≡ some line
after_newline-append [] line h = rw (after_newline-OneLine line h) refl
after_newline-append (c ∷ lines) line h = rw (after_newline-append lines line h) refl

take_blanks-append :
    (indent rest : List ℕ)
    → All IsBlank indent
    → (rest ≡ []) ⊎ ((c : ℕ) × (cs : List ℕ) × (rest ≡ c ∷ cs) × (c ≢ 32) × (c ≢ 9))
    → take_blanks (indent ++ rest) ≡ indent
take_blanks-append [] rest h (inl e) = rw e refl
take_blanks-append [] rest h (inr (c, cs, e, n, m)) = rw e (ground (arith, n, m))
take_blanks-append (c ∷ indent) rest h stops =
    rw (take_blanks-append indent rest h.1 stops) (ground (arith, h.0))

leading_indent-IsIndent :
    (text indent : List ℕ) → IsIndent text indent → leading_indent_of_last_line text ≡ indent
unfolding leading_indent_of_last_line
leading_indent-IsIndent text indent h = elim h.starts [
  | inl e ↦
      rw (h.split, e)
        (rw (after_newline-OneLine (indent ++ h.rest) h.one_line)
          (take_blanks-append indent h.rest h.blank h.stops))
  | inr (lines, e) ↦
      rw (h.split, e)
        (rw (after_newline-append lines (indent ++ h.rest) h.one_line)
          (take_blanks-append indent h.rest h.blank h.stops))
]

push_lines-join :
    (indent first : List ℕ) (lines : List (List ℕ))
    → first ++ push_lines indent lines ≡ join 10 first (map (shift indent) lines)
unfolding join shift
push_lines-join indent first [] = append-nil first
push_lines-join indent first (line ∷ lines) =
    ap (λ rest. first ++ (10 ∷ rest))
      (ap (λ l. l ++ push_lines indent lines) (shifted line)
        ∙ push_lines-join indent (shift indent line) lines)
  where
    shifted : (l : List ℕ) → ((if is_nil l then [] else indent) ++ l) ≡ shift indent l
    shifted [] = refl
    shifted (c ∷ cs) = refl

-- A placeholder with the lines of its value.
pub record Lines : Type 0 where
  pub text : List ℕ
  pub name : List ℕ
  pub first : List ℕ
  pub others : List (List ℕ)

abbrev pub HasLines : List (String × String) → Lines → Type 0
HasLines vars p =
    (split_at (codes "${vars.") p.text ≡ none)
    × (split_at (codes "}") p.name ≡ none)
    × ((v : String × String) × (var_named vars p.name ≡ some v)
        × (codes v.1 ≡ join 10 p.first p.others))
    × OneLine p.first
    × All OneLine p.others

-- The text with its placeholders, and what it becomes after `result`: each value stands in its place
-- with its later lines shifted to the indent of the line that is being written.
unfoldable pub written : List Lines → List ℕ → List ℕ
written [] end = end
written (p ∷ ps) end = p.text ++ (codes "${vars." ++ (p.name ++ (codes "}" ++ written ps end)))

abbrev pub Becomes : List ℕ → List Lines → List ℕ → List ℕ → Type 0
Becomes result [] end out = out ≡ result ++ end
Becomes result (p ∷ ps) end out =
    (indent : List ℕ) × IsIndent (result ++ p.text) indent
    × Becomes ((result ++ p.text) ++ join 10 p.first (map (shift indent) p.others)) ps end out

abbrev placeholder : Lines → Placeholder
placeholder p = record { text = p.text; name = p.name; value = join 10 p.first p.others }

abbrev pieces : List Lines → List Piece
pieces ps = map var_piece (map placeholder ps)

written-render :
    (ps : List Lines) (end : List ℕ) → written ps end ≡ render (codes "${vars.") (pieces ps) end
unfolding written
written-render [] end = refl
written-render (p ∷ ps) end =
    ap (λ rest. p.text ++ (codes "${vars." ++ (p.name ++ (codes "}" ++ rest))))
      (written-render ps end)

indented-join :
    (text indent : List ℕ) (p : Lines)
    → IsIndent text indent
    → OneLine p.first
    → All OneLine p.others
    → indented (leading_indent_of_last_line text) (split_on 10 (join 10 p.first p.others))
      ≡ join 10 p.first (map (shift indent) p.others)
indented-join text indent p is_indent one many =
    ap (λ i. indented i (split_on 10 (join 10 p.first p.others)))
      (leading_indent-IsIndent text indent is_indent)
    ∙ ap (indented indent) (split_on-join 10 p.first p.others one many)
    ∙ push_lines-join indent p.first p.others

fill-Becomes :
    (vars : List (String × String)) (result : List ℕ) (ps : List Lines) (end out : List ℕ)
    → All (HasLines vars) ps
    → Becomes result ps end out
    → fill result (pieces ps) end ≡ out
fill-Becomes vars result [] end out h b = sym b
fill-Becomes vars result (p ∷ ps) end out h (indent, is_indent, b) =
    ap (λ inserted. fill ((result ++ p.text) ++ inserted) (pieces ps) end)
      (indented-join (result ++ p.text) indent p is_indent h.0.3 h.0.4)
    ∙ fill-Becomes vars ((result ++ p.text) ++ join 10 p.first (map (shift indent) p.others)) ps end
        out h.1 b

-- A text of placeholders whose names have values in the `vars` block expands to the text with the
-- values in their places; each line of a value but the first, unless it is empty, is moved to the
-- blanks that the line starts with in which the placeholder stands.
pub expand_config_vars-Becomes :
    (vars : List (String × String)) (ps : List Lines) (end out : List ℕ)
    → All (HasLines vars) ps
    → split_at (codes "${vars.") end ≡ none
    → Becomes [] ps end out
    → expand_config_vars (written ps end) vars ≡ ok out
expand_config_vars-Becomes vars ps end out h e b =
    ap (λ text. expand_config_vars text vars) (written-render ps end)
    ∙ expand_config_vars-render vars (map placeholder ps) end (values ps h) e
    ∙ ap ok (fill-Becomes vars [] ps end out h b)
  where
    values :
        (qs : List Lines) → All (HasLines vars) qs → All (HasVarValue vars) (map placeholder qs)
    values [] k = tt
    values (q ∷ qs) k = ((k.0.0, k.0.1, k.0.2), values qs k.1)

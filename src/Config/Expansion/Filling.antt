-- ===== src/Config/Expansion/Filling.antt =====
-- The expansions of cli/src/config.rs fill in a template: its texts stay, and each name is replaced
-- by what it stands for.
use mathlib.Core.List.{append_assoc}
use coulisse.Prelude.{
  ℕ, zero, suc, ◌+◌, ◌-◌, ◌≤◌, ◌≢◌, ◌≡◌, refl, sym, ap, ◌∙◌, codes, true, false, Option, none, some,
  List, [], ◌∷◌, ◌++◌, Result, ok, err, ◌>>=◌, length, starts_with, split_at, split_at-shorter,
  split_at-append, All, arith, Option-cases, inl, inr, String, split_on, map, All-map, ◌⊎◌, member,
  not_member_iff, nat_eq,
}
use coulisse.Config.Expansion.{
  ExpandError, expand_loop, resolve_env, expand_env_vars_with, resolve_var, expand_config_vars,
  var_named, indented, leading_indent_of_last_line, byte_len,
}

abbrev Resolver : Type 0
Resolver = ℕ → List ℕ → List ℕ → Result ExpandError (List ℕ)

bind_ext :
    {E A B : Type 0} (r : Result E A) (g h : A → Result E B)
    → ((a : A) → g a ≡ h a)
    → (r >>= g) ≡ (r >>= h)
bind_ext (ok a) g h same = same a
bind_ext (err e) g h same = refl

module _ (opener : List ℕ) (resolve : ℕ → List ℕ → List ℕ → Result ExpandError (List ℕ))
    (s : List ℕ) where
  stop :
      (n : ℕ) (result rest : List ℕ)
      → split_at opener rest ≡ none
      → expand_loop opener resolve s n result rest ≡ ok (result ++ rest)
  unfolding expand_loop
  stop zero result rest e = refl
  stop (suc n) result rest e = rw (e, expand_loop) refl

  no_room : (rest : List ℕ) → 1 ≤ length opener → length rest ≤ 0 → split_at opener rest ≡ none
  no_room rest some_opener h = elim (Option-cases (split_at opener rest)) [
    | inl e ↦ e
    | inr ((before, opened), e) ↦
        let shorter = split_at-shorter opener rest before opened e in
        absurd (omega (arith, shorter, h, some_opener))
  ]

  abbrev Agree : ℕ → ℕ → List ℕ → Type 0
  Agree n m rest =
      (result : List ℕ)
      → expand_loop opener resolve s n result rest ≡ expand_loop opener resolve s m result rest

  step :
      (n m : ℕ) (rest : List ℕ)
      → ((before opened var closed : List ℕ)
          → split_at opener rest ≡ some (before, opened)
          → split_at (codes "}") opened ≡ some (var, closed)
          → Agree n m closed)
      → Agree (suc n) (suc m) rest
  unfolding expand_loop
  step n m rest deeper result = elim (Option-cases (split_at opener rest)) [
    | inl e ↦ rw (e, expand_loop) refl
    | inr ((before, opened), e) ↦
        rw (e, expand_loop)
          (elim (Option-cases (split_at (codes "}") opened)) [
            | inl c ↦ rw c refl
            | inr ((var, closed), c) ↦ rw c (
                bind_ext
                  (resolve (byte_len s - byte_len rest + byte_len before) (result ++ before) var) _
                  _ (deeper before opened var closed e c))
          ])
  ]

  -- Where an opener is not empty, fuel of the length of what is left is enough for the expansion:
  -- any two such amounts give the same result.
  pub expand_loop_fuel :
      (n m : ℕ) (rest : List ℕ)
      → 1 ≤ length opener
      → length rest ≤ n
      → length rest ≤ m
      → (result : List ℕ)
      → expand_loop opener resolve s n result rest ≡ expand_loop opener resolve s m result rest
  expand_loop_fuel zero m rest some_opener h k result =
      let none_left = no_room rest some_opener h in
      stop zero result rest none_left ∙ sym (stop m result rest none_left)
  expand_loop_fuel (suc n) zero rest some_opener h k result =
      let none_left = no_room rest some_opener k in
      stop (suc n) result rest none_left ∙ sym (stop zero result rest none_left)
  expand_loop_fuel (suc n) (suc m) rest some_opener h k result =
      step n m rest
        (λ before opened var closed e c.
          let a = split_at-shorter opener rest before opened e in
          let b = split_at-shorter (codes "}") opened var closed c in
          expand_loop_fuel n m closed some_opener (omega (arith, a, b, h, some_opener))
            (omega (arith, a, b, k, some_opener)))
        result

-- A piece of a template: a text, a name, and what the name does to the text before it.
pub record Piece : Type 0 where
  pub text : List ℕ
  pub name : List ℕ
  pub append : List ℕ → List ℕ

-- The template as it is written, and as it is filled in after `result`.
abbrev pub render : List ℕ → List Piece → List ℕ → List ℕ
render opener [] end = end
render opener (p ∷ ps) end = p.text ++ (opener ++ (p.name ++ (codes "}" ++ render opener ps end)))

abbrev pub fill : List ℕ → List Piece → List ℕ → List ℕ
fill result [] end = result ++ end
fill result (p ∷ ps) end = fill (p.append (result ++ p.text)) ps end

-- The texts have no opener, the names no closing brace, and the names resolve.
abbrev pub IsFillable :
    List ℕ → (ℕ → List ℕ → List ℕ → Result ExpandError (List ℕ)) → Piece → Type 0
IsFillable opener resolve p =
    (split_at opener p.text ≡ none)
    × (split_at (codes "}") p.name ≡ none)
    × ((offset : ℕ) (result : List ℕ) → resolve offset result p.name ≡ ok (p.append result))

module _ (o : ℕ) (os : List ℕ) (resolve : ℕ → List ℕ → List ℕ → Result ExpandError (List ℕ))
    (s : List ℕ) (distinct : All (λ x. o ≢ x) os) where
  expand_loop-render :
      (n : ℕ) (result : List ℕ) (ps : List Piece) (end : List ℕ)
      → length (render (o ∷ os) ps end) ≤ n
      → All (IsFillable (o ∷ os) resolve) ps
      → split_at (o ∷ os) end ≡ none
      → expand_loop (o ∷ os) resolve s n result (render (o ∷ os) ps end) ≡ ok (fill result ps end)
  unfolding expand_loop
  expand_loop-render n result [] end h good e = stop (o ∷ os) resolve s n result end e
  expand_loop-render zero result (p ∷ ps) end h good e =
      let opens =
        split_at-append o os p.text (p.name ++ (codes "}" ++ render (o ∷ os) ps end)) distinct
          good.0.0 in
      let shorter = split_at-shorter (o ∷ os) (render (o ∷ os) (p ∷ ps) end) _ _ opens in
      absurd (omega (arith, shorter, h))
  expand_loop-render (suc n) result (p ∷ ps) end h good e =
      let rest = render (o ∷ os) ps end in
      let opens = split_at-append o os p.text (p.name ++ (codes "}" ++ rest)) distinct good.0.0 in
      let closes = split_at-append b'}' [] p.name rest tt good.0.1 in
      let a = split_at-shorter (o ∷ os) (render (o ∷ os) (p ∷ ps) end) _ _ opens in
      let b = split_at-shorter (codes "}") (p.name ++ (codes "}" ++ rest)) _ _ closes in
      rw (opens, expand_loop) rw closes rw (good.0.2 _ (result ++ p.text))
        (expand_loop-render n (p.append (result ++ p.text)) ps end (omega (arith, a, b, h)) good.1
          e)

-- A text before a placeholder, the placeholder's name, and the value that the name has.
pub record Placeholder : Type 0 where
  pub text : List ℕ
  pub name : List ℕ
  pub value : List ℕ

abbrev pub env_piece : Placeholder → Piece
env_piece p = record { text = p.text; name = p.name; append = λ result. result ++ p.value }

-- A variable of the environment has its value; a name of the `vars` block stays as it is written.
abbrev pub HasEnvValue : (List ℕ → Option (List ℕ)) → Placeholder → Type 0
HasEnvValue lookup p =
    (split_at (codes "${") p.text ≡ none)
    × (split_at (codes "}") p.name ≡ none)
    × (((starts_with (codes "vars.") p.name ≡ false) × (lookup p.name ≡ some p.value))
        ⊎ ((starts_with (codes "vars.") p.name ≡ true)
            × (p.value ≡ codes "${" ++ (p.name ++ codes "}"))))

-- Every line of a value but the first gets the indent of the line that the placeholder stands in.
abbrev pub var_piece : Placeholder → Piece
var_piece p = record {
  text = p.text;
  name = p.name;
  append = λ result. result ++ indented (leading_indent_of_last_line result) (split_on 10 p.value);
}

abbrev pub HasVarValue : List (String × String) → Placeholder → Type 0
HasVarValue vars p =
    (split_at (codes "${vars.") p.text ≡ none)
    × (split_at (codes "}") p.name ≡ none)
    × ((v : String × String) × (var_named vars p.name ≡ some v) × (codes v.1 ≡ p.value))

-- The two pushes after the opener, joined.
kept_whole :
    (result opener name closer : List ℕ)
    → result ++ opener ++ name ++ closer ≡ result ++ (opener ++ (name ++ closer))
kept_whole result opener name closer =
    append_assoc (result ++ opener) name closer ∙ append_assoc result opener (name ++ closer)

env-IsFillable :
    (lookup : List ℕ → Option (List ℕ)) (p : Placeholder)
    → HasEnvValue lookup p
    → IsFillable (codes "${") (resolve_env lookup) (env_piece p)
env-IsFillable lookup p h = (
  h.0,
  h.1,
  λ offset result. elim h.2 [
    | inl (plain, known) ↦ rw plain rw known refl
    | inr (prefixed, kept) ↦ rw prefixed (
        ap ok
          (kept_whole result (codes "${") p.name (codes "}") ∙ ap (λ v. result ++ v) (sym kept)))
  ],
)

var-IsFillable :
    (vars : List (String × String)) (p : Placeholder)
    → HasVarValue vars p
    → IsFillable (codes "${vars.") (resolve_var vars) (var_piece p)
var-IsFillable vars p h = (h.0, h.1, λ offset result. rw h.2.1 rw h.2.2 refl)

All-of_map :
    {A : Type 0} (P : Piece → Type 0) (g : A → Piece) (xs : List A)
    → All (λ x. P (g x)) xs
    → All P (map g xs)
All-of_map P g [] h = tt
All-of_map P g (x ∷ xs) h = (h.0, All-of_map P g xs h.1)

no_dollar : (os : List ℕ) → member b'$' os ≡ false → All (λ x. b'$' ≢ x) os
no_dollar os e = All-map _ _ os (λ x ne same. ne (sym same)) ((not_member_iff b'$' os).0 e)

-- A text that is made of placeholders whose names have values expands to the text with the values
-- in their places; those of the `vars` block stay for the second pass.
pub expand_env_vars_with-render :
    (lookup : List ℕ → Option (List ℕ)) (ps : List Placeholder) (end : List ℕ)
    → All (HasEnvValue lookup) ps
    → split_at (codes "${") end ≡ none
    → expand_env_vars_with lookup (render (codes "${") (map env_piece ps) end)
      ≡ ok (fill [] (map env_piece ps) end)
unfolding expand_env_vars_with
expand_env_vars_with-render lookup ps end h e =
    let text = render (codes "${") (map env_piece ps) end in
    expand_loop-render b'$' (codes "{") (resolve_env lookup) text (no_dollar (codes "{") refl)
      (length text) [] (map env_piece ps) end (omega arith)
      (All-of_map _ env_piece ps (All-map _ _ ps (env-IsFillable lookup) h)) e

-- A text that is made of placeholders of the `vars` block whose names have values there expands to
-- the text with the values in their places, where the lines of a value keep the indent of the
-- placeholder's.
pub expand_config_vars-render :
    (vars : List (String × String)) (ps : List Placeholder) (end : List ℕ)
    → All (HasVarValue vars) ps
    → split_at (codes "${vars.") end ≡ none
    → expand_config_vars (render (codes "${vars.") (map var_piece ps) end) vars
      ≡ ok (fill [] (map var_piece ps) end)
unfolding expand_config_vars
expand_config_vars-render vars ps end h e =
    let text = render (codes "${vars.") (map var_piece ps) end in
    expand_loop-render b'$' (codes "{vars.") (resolve_var vars) text
      (no_dollar (codes "{vars.") refl) (length text) [] (map var_piece ps) end (omega arith)
      (All-of_map _ var_piece ps (All-map _ _ ps (var-IsFillable vars) h)) e

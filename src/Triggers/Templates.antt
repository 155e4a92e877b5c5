-- ===== src/Triggers/Templates.antt =====
-- What crates/triggers/src/webhook.rs makes of a template, and of a request.
use coulisse.Prelude.{
  ℕ, zero, suc, ◌+◌, ◌≤◌, ◌≡◌, inl, inr, refl, sym, ◌∙◌, codes, none, List, ◌++◌, length, split_at,
  split_at-shorter, arith, Option-cases,
}
use coulisse.Triggers.Webhook.{JsonCrate, substitute_loop}

module _ (json : JsonCrate) (payload : json.Value) where
  stop :
      (n : ℕ) (out rest : List ℕ)
      → split_at (codes "{{") rest ≡ none
      → substitute_loop json payload n out rest ≡ out ++ rest
  unfolding substitute_loop
  stop zero out rest e = refl
  stop (suc n) out rest e = rw (e, substitute_loop) refl

  no_room : (rest : List ℕ) → length rest ≤ 0 → split_at (codes "{{") rest ≡ none
  no_room rest h = elim (Option-cases (split_at (codes "{{") rest)) [
    | inl e ↦ e
    | inr ((before, opened), e) ↦
        let shorter = split_at-shorter (codes "{{") rest before opened e in
        absurd (omega (arith, shorter, h))
  ]

  abbrev Agree : ℕ → ℕ → List ℕ → Type 0
  Agree n m rest =
      (out : List ℕ)
      → substitute_loop json payload n out rest ≡ substitute_loop json payload m out rest

  step :
      (n m : ℕ) (rest : List ℕ)
      → ((left : List ℕ) → 1 + length left ≤ length rest → Agree n m left)
      → Agree (suc n) (suc m) rest
  unfolding substitute_loop
  step n m rest deeper out = elim (Option-cases (split_at (codes "{{") rest)) [
    | inl e ↦ rw (e, substitute_loop) refl
    | inr ((before, opened), e) ↦
        let a = split_at-shorter (codes "{{") rest before opened e in
        rw (e, substitute_loop)
          (elim (Option-cases (split_at (codes "}}") opened)) [
            | inl c ↦ rw c (deeper opened (omega (arith, a)) _)
            | inr ((inner, closed), c) ↦
                let b = split_at-shorter (codes "}}") opened inner closed c in
                rw c (deeper closed (omega (arith, a, b)) _)
          ])
  ]

  -- Fuel of the length of the template is enough: more changes nothing of the text.
  pub substitute_loop_fuel :
      (n m : ℕ) (rest : List ℕ)
      → length rest ≤ n
      → length rest ≤ m
      → (out : List ℕ)
      → substitute_loop json payload n out rest ≡ substitute_loop json payload m out rest
  substitute_loop_fuel zero m rest h k out =
      let none_left = no_room rest h in
      stop zero out rest none_left ∙ sym (stop m out rest none_left)
  substitute_loop_fuel (suc n) zero rest h k out =
      let none_left = no_room rest k in
      stop (suc n) out rest none_left ∙ sym (stop zero out rest none_left)
  substitute_loop_fuel (suc n) (suc m) rest h k out =
      step n m rest
        (λ left shorter.
          substitute_loop_fuel n m left (omega (arith, shorter, h)) (omega (arith, shorter, k)))
        out

-- ===== src/Sanitize/Names.antt =====
-- The names that `apply` of crates/mcp/src/sanitize.rs gives are fit for a provider and distinct.
use coulisse.Prelude.{
  ℕ, zero, suc, ◌+◌, ◌≤◌, ◌≡◌, ◌≢◌, refl, sym, ap, true, false, List, [], ◌∷◌, map, if◌then◌else◌,
  length, All, All-append, All-map, Distinct, arith, Bool-cases, inl, inr, nat_eq,
}
use coulisse.Decimal.{print, print-digits}
use coulisse.Sanitize.{
  Name, eq_name, is_allowed, take, sanitize_name, suffixed, contains, free_suffix, dedupe, Exposed,
  passed, sanitized, exposed_name, expose, apply_from, apply,
}
use coulisse.Sanitize.Suffixes.{eq_name_iff, dedupe-fresh}

-- Every character is one that a provider takes.
abbrev pub IsAllowed : Name → Type 0
IsAllowed name = All (λ c. is_allowed c ≡ true) name

IsAllowed-take : (n : ℕ) (xs : Name) → IsAllowed xs → IsAllowed (take n xs)
IsAllowed-take zero xs h = tt
IsAllowed-take (suc n) [] h = tt
IsAllowed-take (suc n) (x ∷ xs) h = (h.0, IsAllowed-take n xs h.1)

map-IsAllowed : (xs : Name) → IsAllowed (map (λ c. if is_allowed c then c else b'_') xs)
map-IsAllowed [] = tt
map-IsAllowed (c ∷ cs) = elim (Bool-cases (is_allowed c)) [
  | inl e ↦ rw (e, All) (e, map-IsAllowed cs)
  | inr e ↦ rw (e, All) (refl, map-IsAllowed cs)
]

sanitize_name-IsAllowed : (raw : Name) → IsAllowed (sanitize_name raw)
unfolding sanitize_name
sanitize_name-IsAllowed raw = IsAllowed-take 128 _ (map-IsAllowed raw)

length-take_le : (n : ℕ) (xs : Name) → length (take n xs) ≤ n
length-take_le zero xs = omega arith
length-take_le (suc n) [] = omega arith
length-take_le (suc n) (x ∷ xs) = omega (arith, length-take_le n xs)

-- A sanitized name has at most 128 characters, each of them one that a provider takes.
pub sanitize_name-fits :
    (raw : Name) → (length (sanitize_name raw) ≤ 128) × IsAllowed (sanitize_name raw)
unfolding sanitize_name
sanitize_name-fits raw = (length-take_le 128 _, sanitize_name-IsAllowed raw)

suffixed-IsAllowed :
    (candidate : Name) (n : ℕ) → IsAllowed candidate → IsAllowed (suffixed candidate n)
suffixed-IsAllowed candidate n h =
    All-append _ candidate (b'_' ∷ print n) h
      (refl, All-map _ _ (print n) (λ c d. ground (arith, d)) (print-digits n))

free_suffix-IsAllowed :
    (fuel : ℕ) (taken : List Name) (candidate : Name) (n : ℕ)
    → IsAllowed candidate
    → IsAllowed (free_suffix fuel taken candidate n)
unfolding free_suffix
free_suffix-IsAllowed zero taken candidate n h = suffixed-IsAllowed candidate n h
free_suffix-IsAllowed (suc fuel) taken candidate n h =
    elim (Bool-cases (contains taken (suffixed candidate n))) [
      | inl e ↦ rw e (free_suffix-IsAllowed fuel taken candidate (n + 1) h)
      | inr e ↦ rw e (suffixed-IsAllowed candidate n h)
    ]

dedupe-IsAllowed :
    (candidate : Name) (taken : List Name)
    → IsAllowed candidate
    → IsAllowed (dedupe candidate taken)
unfolding dedupe
dedupe-IsAllowed candidate taken h = elim (Bool-cases (contains taken candidate)) [
  | inl e ↦ rw e (free_suffix-IsAllowed (length taken + 1) taken candidate 2 h)
  | inr e ↦ rw e h
]

module _ {Tool : Type 0} (name_of : Tool → Name) where
  -- The name under which a tool is exposed is the one it was given.
  exposed_name-expose :
      (tool : Tool) (unique : Name) → exposed_name name_of (expose name_of tool unique) ≡ unique
  exposed_name-expose tool unique = elim (Bool-cases (eq_name unique (name_of tool))) [
    | inl e ↦ rw e (sym ((eq_name_iff unique (name_of tool)).0 e))
    | inr e ↦ rw e refl
  ]

  apply_from-IsAllowed :
      (taken : List Name) (tools : List Tool)
      → All IsAllowed (map (exposed_name name_of) (apply_from name_of taken tools))
  unfolding apply_from
  apply_from-IsAllowed taken [] = tt
  apply_from-IsAllowed taken (tool ∷ tools) = (
    rw (exposed_name-expose tool (dedupe (sanitize_name (name_of tool)) taken)) (
        dedupe-IsAllowed (sanitize_name (name_of tool)) taken
          (sanitize_name-IsAllowed (name_of tool))),
    apply_from-IsAllowed (dedupe (sanitize_name (name_of tool)) taken ∷ taken) tools,
  )

  contains-cons :
      (t : Name) (taken : List Name) (name : Name)
      → contains (t ∷ taken) name ≡ false
      → (t ≢ name) × (contains taken name ≡ false)
  contains-cons t taken name e = elim (Bool-cases (eq_name t name)) [
    | inl h ↦ absurd (ground arith)
    | inr h ↦ ((λ same. absurd (ground (arith, (eq_name_iff t name).1 same))), rw h at e)
  ]

  apply_from-fresh :
      (taken : List Name) (tools : List Tool)
      → All
          (λ name. contains taken name ≡ false)
          (map (exposed_name name_of) (apply_from name_of taken tools))
  unfolding apply_from
  apply_from-fresh taken [] = tt
  apply_from-fresh taken (tool ∷ tools) =
      let unique = dedupe (sanitize_name (name_of tool)) taken in
      (
        rw (exposed_name-expose tool unique) (dedupe-fresh (sanitize_name (name_of tool)) taken),
        All-map _ _ _ (λ name h. (contains-cons unique taken name h).1)
            (apply_from-fresh (unique ∷ taken) tools),
      )

  apply_from-Distinct :
      (taken : List Name) (tools : List Tool)
      → Distinct (map (exposed_name name_of) (apply_from name_of taken tools))
  unfolding apply_from
  apply_from-Distinct taken [] = tt
  apply_from-Distinct taken (tool ∷ tools) =
      let unique = dedupe (sanitize_name (name_of tool)) taken in
      (
        rw (exposed_name-expose tool unique) (
            All-map _ _ _ (λ name h. (contains-cons unique taken name h).0)
              (apply_from-fresh (unique ∷ taken) tools)),
        apply_from-Distinct (unique ∷ taken) tools,
      )

  -- The tool that an exposed tool delegates its calls to.
  abbrev pub inner : Exposed Tool → Tool
  inner (passed tool) = tool
  inner (sanitized tool name) = tool

  inner-expose : (tool : Tool) (unique : Name) → inner (expose name_of tool unique) ≡ tool
  inner-expose tool unique = elim (Bool-cases (eq_name unique (name_of tool))) [
    | inl e ↦ rw e refl
    | inr e ↦ rw e refl
  ]

  apply_from-inner :
      (taken : List Name) (tools : List Tool) → map inner (apply_from name_of taken tools) ≡ tools
  unfolding apply_from
  apply_from-inner taken [] = refl
  apply_from-inner taken (tool ∷ tools) =
      let unique = dedupe (sanitize_name (name_of tool)) taken in
      rw (inner-expose tool unique) (ap (λ ts. tool ∷ ts) (apply_from-inner (unique ∷ taken) tools))

  -- Whatever the tools are called, `apply` exposes each of them once and in order, under names that
  -- are pairwise different and have only characters that a provider takes.
  pub apply-Distinct :
      (tools : List Tool)
      → Distinct (map (exposed_name name_of) (apply name_of tools))
        × All IsAllowed (map (exposed_name name_of) (apply name_of tools))
        × (map inner (apply name_of tools) ≡ tools)
  apply-Distinct tools =
      (apply_from-Distinct [] tools, apply_from-IsAllowed [] tools, apply_from-inner [] tools)

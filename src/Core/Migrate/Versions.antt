-- ===== src/Core/Migrate/Versions.antt =====
-- The version list that `validate` of crates/core/src/migrate.rs accepts, and the runs on it.
use coulisse.Prelude.{
  String, ◌≡◌, inl, inr, refl, sym, ap, ◌∙◌, subst, Bool, true, false, ◌||◌, some, List, [], ◌∷◌,
  ◌==◌, ==_iff, string_eq, Result, ok, Result-cases, Option-cases, Bool-cases, arith,
}
use coulisse.Core.Migrate.{MigrateError, SemverCrate, last, from_stored, parse_versions, unsorted}

-- SemVer's order is strict and transitive.
pub record IsOrder (crate : SemverCrate) : Type 0 where
  pub reflexive : (v : crate.Version) → crate.at_least v v ≡ true
  pub transitive :
      (u v w : crate.Version)
      → crate.at_least u v ≡ false
      → crate.at_least v w ≡ false
      → crate.at_least u w ≡ false

or-false : (a b : Bool) → (a || b) ≡ false → (a ≡ false) × (b ≡ false)
or-false true b h = cc h
or-false false b h = (refl, h)

module _ (crate : SemverCrate) (name : String) where
  parse_versions-cons :
      (v : String) (vs : List String) (parsed : List crate.Version)
      → parse_versions crate name (v ∷ vs) ≡ ok parsed
      → (pv : crate.Version) × (ps : List crate.Version) × (crate.parse v ≡ some pv)
        × (parse_versions crate name vs ≡ ok ps)
        × (pv ∷ ps ≡ parsed)
  parse_versions-cons v vs parsed h = elim (Option-cases (crate.parse v)) [
    | inl e ↦ absurd (cc (rw e at h))
    | inr (pv, e) ↦ elim (Result-cases (parse_versions crate name vs)) [
      | inl (ps, f) ↦ (pv, ps, e, f, ok-injective (pv ∷ ps) parsed (rw (e, f) at h))
      | inr (e', f) ↦ absurd (cc (rw (e, f) at h))
    ]
  ]
    where
      Parsed : Type 0
      Parsed = Result MigrateError (List crate.Version)

      ok-injective : (a b : List crate.Version) → ◌≡◌ {A = Parsed} (ok a) (ok b) → a ≡ b
      ok-injective a b e = ground arith

  tail_below :
      (u v : crate.Version) (vs : List crate.Version)
      → unsorted crate (u ∷ v ∷ vs) ≡ false
      → (crate.at_least u v ≡ false) × (unsorted crate (v ∷ vs) ≡ false)
  tail_below u v vs h = or-false (crate.at_least u v) (unsorted crate (v ∷ vs)) h

  module _ (order : IsOrder crate) where
    -- The first of an ascending list is below the last of the rest.
    below_last :
        (pv : crate.Version) (vs : List String) (ps : List crate.Version) (target : String)
        → parse_versions crate name vs ≡ ok ps
        → unsorted crate (pv ∷ ps) ≡ false
        → last vs ≡ some target
        → (pt : crate.Version) × (crate.parse target ≡ some pt) × (crate.at_least pv pt ≡ false)
    below_last pv [] ps target h s l = cc l
    below_last pv (v ∷ []) ps target h s l =
        let (q, qs, e, f, same) = parse_versions-cons v [] ps h in
        let first = rw (← same) at s in
        (q, ap crate.parse (ground arith) ∙ e, (tail_below pv q qs first).0)
    below_last pv (v ∷ w ∷ vs) ps target h s l =
        let (q, qs, e, f, same) = parse_versions-cons v (w ∷ vs) ps h in
        let first = rw (← same) at s in
        let (pt, g, lt) = below_last q (w ∷ vs) qs target f (tail_below pv q qs first).1 l in
        (pt, g, order.transitive pv q pt (tail_below pv q qs first).0 lt)

    -- The last version of an ascending list is found at its end.
    pub from_stored-last :
        (vs : List String) (ps : List crate.Version) (target : String)
        → parse_versions crate name vs ≡ ok ps
        → unsorted crate ps ≡ false
        → last vs ≡ some target
        → from_stored target vs ≡ some (target ∷ [])
    from_stored-last [] ps target h s l = cc l
    from_stored-last (v ∷ []) ps target h s l =
        let same : v ≡ target = ground arith in
        rw ((==_iff v target).1 same) (ap (λ t. some (t ∷ [])) same)
    from_stored-last (v ∷ w ∷ vs) ps target h s l =
        let (q, qs, e, f, same) = parse_versions-cons v (w ∷ vs) ps h in
        let sorted = rw (← same) at s in
        let (pt, g, lt) = below_last q (w ∷ vs) qs target f sorted l in
        elim (Bool-cases (v == target)) [
          | inl twice ↦
              let equal : q ≡ pt =
                some-injective q pt (sym e ∙ ap crate.parse ((==_iff v target).0 twice) ∙ g) in
              absurd
                (cc (subst (λ p. crate.at_least q p ≡ false) (sym equal) lt, order.reflexive q))
          | inr apart ↦
              rw apart (from_stored-last (w ∷ vs) qs target f (tail_unsorted q qs sorted) l)
        ]
      where
        some-injective : (a b : crate.Version) → some a ≡ some b → a ≡ b
        some-injective a b e = ground arith

        tail_unsorted :
            (q : crate.Version) (qs : List crate.Version)
            → unsorted crate (q ∷ qs) ≡ false
            → unsorted crate qs ≡ false
        tail_unsorted q [] s = refl
        tail_unsorted q (r ∷ qs) s = (tail_below q r qs s).1

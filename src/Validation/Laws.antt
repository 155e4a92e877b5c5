-- ===== src/Validation/Laws.antt =====
-- When the loops of a configuration's checks succeed.
use coulisse.Prelude.{
  String, ◌≡◌, ◌≢◌, ◌↔◌, refl, Bool, true, false, not, List, [], ◌∷◌, map, Result, ok, err, ◌>>◌,
  ◌>>=◌, member, string_eq, not_member_iff, All, All-map, All-zip, All-iff, All-intro, map_err,
  Distinct, arith,
}
use coulisse.Validation.{reject_if, each, each_distinct, no_check}

module _ {E : Type 0} where
  -- Two checks in a row succeed exactly when both do.
  pub >>_iff : (m k : Result E (Unit {0})) → ((m >> k) ≡ ok tt) ↔ ((m ≡ ok tt) × (k ≡ ok tt))
  >>_iff (ok tt) k = ((λ h. (refl, h)), λ h. h.1)
  >>_iff (err e) k = ((λ h. absurd (ground arith)), λ h. absurd (ground arith))

  pub reject_if_iff : (b : Bool) (e : E) → (reject_if b e ≡ ok tt) ↔ (b ≡ false)
  reject_if_iff true e = ((λ h. absurd (ground arith)), λ h. absurd (ground arith))
  reject_if_iff false e = ((λ h. refl), λ h. refl)

  pub seq_iff :
      {P Q : Type 0} {m k : Result E (Unit {0})}
      → (m ≡ ok tt) ↔ P
      → (k ≡ ok tt) ↔ Q
      → ((m >> k) ≡ ok tt) ↔ (P × Q)
  seq_iff {m = m} {k = k} p q = (
    (λ h. let r = (>>_iff m k).0 h in (p.0 r.0, q.0 r.1)),
    λ h. (>>_iff m k).1 (p.1 h.0, q.1 h.1),
  )

  -- A loop that hands on a value to the next check.
  pub hand_on_iff :
      {B P Q : Type 0} (b : B) (k : B → Result E (Unit {0})) (m : Result E (Unit {0}))
      → (m ≡ ok tt) ↔ P
      → (k b ≡ ok tt) ↔ Q
      → (((m >> ok b) >>= k) ≡ ok tt) ↔ (P × Q)
  hand_on_iff b k (ok tt) p q = ((λ h. (p.0 refl, q.0 h)), λ h. q.1 h.1)
  hand_on_iff b k (err e) p q =
      ((λ h. absurd (ground arith)), λ h. absurd (ground (arith, p.1 h.0)))

  pub require_iff : (b : Bool) (e : E) → (reject_if (not b) e ≡ ok tt) ↔ (b ≡ true)
  require_iff true e = ((λ h. refl), λ h. refl)
  require_iff false e = ((λ h. absurd (ground arith)), λ h. absurd (ground arith))

  pub require_as :
      {P : Type 0} (b : Bool) (e : E) → (b ≡ true) ↔ P → (reject_if (not b) e ≡ ok tt) ↔ P
  require_as b e p = ((λ h. p.0 ((require_iff b e).0 h)), λ h. (require_iff b e).1 (p.1 h))

  pub refuse_as : {P : Type 0} (b : Bool) (e : E) → (b ≡ false) ↔ P → (reject_if b e ≡ ok tt) ↔ P
  refuse_as b e p = ((λ h. p.0 ((reject_if_iff b e).0 h)), λ h. (reject_if_iff b e).1 (p.1 h))

  -- A check that always succeeds.
  pub pass_iff : (m : Result E (Unit {0})) → m ≡ ok tt → (m ≡ ok tt) ↔ (Unit {0})
  pass_iff m e = ((λ h. tt), λ h. e)

  module _ {A : Type 0} where
    pub each_iff :
        (check : A → Result E (Unit {0})) (xs : List A)
        → (each check xs ≡ ok tt) ↔ All (λ x. check x ≡ ok tt) xs
    unfolding each
    each_iff check [] = ((λ h. tt), λ h. refl)
    each_iff check (x ∷ xs) =
        let both = >>_iff (check x) (each check xs) in
        (
          (λ h. let p = both.0 h in (p.0, (each_iff check xs).0 p.1)),
          λ h. both.1 (h.0, (each_iff check xs).1 h.1),
        )

    module _ (name : A → String) (duplicate : A → E) (before after : A → Result E (Unit {0})) where
      -- Every element passes both checks and has a name of its own, not among `seen`.
      abbrev pub PassDistinct : List String → List A → Type 0
      PassDistinct seen [] = Unit
      PassDistinct seen (x ∷ xs) =
          (before x ≡ ok tt)
          × All (λ s. s ≢ name x) seen
          × (after x ≡ ok tt)
          × PassDistinct (name x ∷ seen) xs

      each_distinct-PassDistinct :
          (seen : List String) (xs : List A)
          → each_distinct name duplicate before after seen xs ≡ ok tt
          → PassDistinct seen xs
      unfolding each_distinct
      each_distinct-PassDistinct seen [] h = tt
      each_distinct-PassDistinct seen (x ∷ xs) h =
          let a = (>>_iff (before x) _).0 h in
          let b = (>>_iff (reject_if (member (name x) seen) (duplicate x)) _).0 a.1 in
          let c = (>>_iff (after x) _).0 b.1 in
          (
            a.0,
            (not_member_iff (name x) seen).0
                ((reject_if_iff (member (name x) seen) (duplicate x)).0 b.0),
            c.0,
            each_distinct-PassDistinct (name x ∷ seen) xs c.1,
          )

      PassDistinct-each_distinct :
          (seen : List String) (xs : List A)
          → PassDistinct seen xs
          → each_distinct name duplicate before after seen xs ≡ ok tt
      unfolding each_distinct
      PassDistinct-each_distinct seen [] h = refl
      PassDistinct-each_distinct seen (x ∷ xs) h =
          rw h.0 rw ((not_member_iff (name x) seen).1 h.1) rw h.2
            (PassDistinct-each_distinct (name x ∷ seen) xs h.3)

      PassDistinct-before :
          (seen : List String) (xs : List A)
          → PassDistinct seen xs
          → All (λ x. before x ≡ ok tt) xs × All (λ x. after x ≡ ok tt) xs
      PassDistinct-before seen [] h = (tt, tt)
      PassDistinct-before seen (x ∷ xs) h =
          let r = PassDistinct-before (name x ∷ seen) xs h.3 in ((h.0, r.0), (h.2, r.1))

      PassDistinct-fresh :
          (seen : List String) (xs : List A)
          → PassDistinct seen xs
          → All (λ s. All (λ n. s ≢ n) (map name xs)) seen
      PassDistinct-fresh seen [] h = All-intro _ seen (λ s. tt)
      PassDistinct-fresh seen (x ∷ xs) h =
          All-zip _ _ seen h.1 (PassDistinct-fresh (name x ∷ seen) xs h.3).1

      PassDistinct-Distinct :
          (seen : List String) (xs : List A) → PassDistinct seen xs → Distinct (map name xs)
      PassDistinct-Distinct seen [] h = tt
      PassDistinct-Distinct seen (x ∷ xs) h = (
        (PassDistinct-fresh (name x ∷ seen) xs h.3).0,
        PassDistinct-Distinct (name x ∷ seen) xs h.3,
      )

      Distinct-PassDistinct :
          (seen : List String) (xs : List A)
          → All (λ x. before x ≡ ok tt) xs
          → All (λ s. All (λ n. s ≢ n) (map name xs)) seen
          → Distinct (map name xs)
          → All (λ x. after x ≡ ok tt) xs
          → PassDistinct seen xs
      Distinct-PassDistinct seen [] b s d a = tt
      Distinct-PassDistinct seen (x ∷ xs) b s d a = (
        b.0,
        All-map _ _ seen (λ t h. h.0) s,
        a.0,
        Distinct-PassDistinct (name x ∷ seen) xs b.1 (d.0, All-map _ _ seen (λ t h. h.1) s) d.1 a.1,
      )

      -- The loop succeeds exactly when every element passes both checks and no name stands twice.
      pub each_distinct_iff :
          (xs : List A)
          → (each_distinct name duplicate before after [] xs ≡ ok tt) ↔ (
              All (λ x. before x ≡ ok tt) xs
              × Distinct (map name xs)
              × All (λ x. after x ≡ ok tt) xs)
      each_distinct_iff xs = (
        (λ h.
            let p = each_distinct-PassDistinct [] xs h in
            let b = PassDistinct-before [] xs p in (b.0, PassDistinct-Distinct [] xs p, b.1)),
        λ h. PassDistinct-each_distinct [] xs (Distinct-PassDistinct [] xs h.0 tt h.1 h.2),
      )

module _ {E A : Type 0} where
  -- The same with each check replaced by the condition that it stands for.
  pub each_as :
      {P : A → Type 0} (check : A → Result E (Unit {0})) (xs : List A)
      → ((a : A) → (check a ≡ ok tt) ↔ P a)
      → (each check xs ≡ ok tt) ↔ All P xs
  each_as check xs f =
      let p = All-iff _ _ xs f in
      ((λ h. p.0 ((each_iff check xs).0 h)), λ h. (each_iff check xs).1 (p.1 h))

  pub each_distinct_as :
      {P Q : A → Type 0} (name : A → String) (duplicate : A → E)
      (before after : A → Result E (Unit {0})) (xs : List A)
      → ((a : A) → (before a ≡ ok tt) ↔ P a)
      → ((a : A) → (after a ≡ ok tt) ↔ Q a)
      → (each_distinct name duplicate before after [] xs ≡ ok tt)
        ↔ (All P xs × Distinct (map name xs) × All Q xs)
  each_distinct_as name duplicate before after xs f g =
      let p = All-iff _ _ xs f in
      let q = All-iff _ _ xs g in
      let r = each_distinct_iff name duplicate before after xs in
      ((λ h. let t = r.0 h in (p.0 t.0, t.1, q.0 t.2)), λ h. r.1 (p.1 h.0, h.1, q.1 h.2))

  pub each_distinct_after :
      {Q : A → Type 0} (name : A → String) (duplicate : A → E) (after : A → Result E (Unit {0}))
      (xs : List A)
      → ((a : A) → (after a ≡ ok tt) ↔ Q a)
      → (each_distinct name duplicate no_check after [] xs ≡ ok tt)
        ↔ (Distinct (map name xs) × All Q xs)
  each_distinct_after name duplicate after xs g =
      let r =
        each_distinct_as {P = λ a. Unit} name duplicate no_check after xs
          (λ a. ((λ h. tt), λ h. refl)) g in
      ((λ h. let t = r.0 h in (t.1, t.2)), λ h. r.1 (All-intro (λ a. Unit) xs (λ a. tt), h.0, h.1))

  pub each_distinct_before :
      {P : A → Type 0} (name : A → String) (duplicate : A → E) (before : A → Result E (Unit {0}))
      (xs : List A)
      → ((a : A) → (before a ≡ ok tt) ↔ P a)
      → (each_distinct name duplicate before no_check [] xs ≡ ok tt)
        ↔ (All P xs × Distinct (map name xs))
  each_distinct_before name duplicate before xs f =
      let r =
        each_distinct_as {Q = λ a. Unit} name duplicate before no_check xs f
          (λ a. ((λ h. tt), λ h. refl)) in
      ((λ h. let t = r.0 h in (t.0, t.1)), λ h. r.1 (h.0, h.1, All-intro (λ a. Unit) xs (λ a. tt)))

module _ {E F : Type 0} where
  pub map_err_iff :
      (wrap : E → F) (m : Result E (Unit {0})) → (map_err wrap m ≡ ok tt) ↔ (m ≡ ok tt)
  map_err_iff wrap (ok tt) = ((λ h. refl), λ h. refl)
  map_err_iff wrap (err e) = ((λ h. absurd (ground arith)), λ h. absurd (ground arith))

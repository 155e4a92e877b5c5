-- ===== src/Validation.antt =====
-- The two loops that the checks of a configuration are made of (cli/src/config.rs): a check of each
-- element, and a check of each element whose name has not been seen before.
pub mod Laws
use coulisse.Prelude.{
  String, Bool, true, false, List, [], ◌∷◌, if◌then◌else◌, Result, ok, err, ◌>>◌, ◌>>=◌, member,
  string_eq,
}

module _ {E : Type 0} where
  -- `if refused { return Err(e) }`.
  abbrev pub reject_if : Bool → E → Result E (Unit {0})
  reject_if refused e = if refused then err e else ok tt

  module _ {A : Type 0} where
    -- `for x in xs { check(x)? }`.
    unfoldable pub each : (A → Result E (Unit {0})) → List A → Result E (Unit {0})
    each check [] = ok tt
    each check (x ∷ xs) = check x >> each check xs

    -- The same with `if !seen.insert(name) { return Err(duplicate) }` between two checks.
    unfoldable pub each_distinct :
        (A → String)
        → (A → E)
        → (A → Result E (Unit {0}))
        → (A → Result E (Unit {0}))
        → List String
        → List A
        → Result E (Unit {0})
    each_distinct name duplicate before after seen [] = ok tt
    each_distinct name duplicate before after seen (x ∷ xs) =
        before x
        >> (reject_if (member (name x) seen) (duplicate x)
            >> (after x >> each_distinct name duplicate before after (name x ∷ seen) xs))

    abbrev pub no_check : A → Result E (Unit {0})
    no_check x = ok tt

-- ===== src/Sanitize/Tests.antt =====
-- Two tools of one sanitized name, and one of a name of 128 characters twice.
use coulisse.Prelude.{ℕ, zero, suc, ◌≡◌, refl, List, [], ◌∷◌, map, codes, length, All, Distinct}
use coulisse.Decimal.{print_fuel, print}
use coulisse.Sanitize.{Name, sanitize_name, dedupe, free_suffix, apply, apply_from, exposed_name}
use coulisse.Sanitize.Names.{IsAllowed, inner, apply-Distinct}

abbrev tools : List Name
tools = codes "service.send" ∷ codes "service_send" ∷ codes "service-send" ∷ []

abbrev itself : Name → Name
itself name = name

collides_once :
    map (exposed_name itself) (apply itself tools)
    ≡ codes "service_send" ∷ codes "service_send_2" ∷ codes "service-send" ∷ []
unfolding apply_from dedupe sanitize_name free_suffix print print_fuel
collides_once = refl

abbrev repeated : ℕ → Name
repeated zero = []
repeated (suc n) = b'x' ∷ repeated n

-- The second of two tools of one long name is exposed under a name of 130 characters.
too_long :
    map length (map (exposed_name itself) (apply itself (repeated 128 ∷ repeated 128 ∷ [])))
    ≡ 128 ∷ 130 ∷ []
unfolding apply_from dedupe sanitize_name free_suffix print print_fuel
too_long = refl

apply-Distinct_example :
    Distinct (map (exposed_name itself) (apply itself tools))
    × All IsAllowed (map (exposed_name itself) (apply itself tools))
    × (map (inner itself) (apply itself tools) ≡ tools)
apply-Distinct_example = apply-Distinct itself tools

-- ===== src/Sanitize.antt =====
-- crates/mcp/src/sanitize.rs: tool names as code points, made fit for a model provider and told
-- apart by numeric suffixes. A tool is of a type of the caller's, with its name.
pub mod Suffixes
pub mod Names
pub mod Tests
use coulisse.Prelude.{
  ℕ, zero, suc, ◌+◌, ◌≡◌, ◌↔◌, refl, Bool, true, false, ◌&&◌, ◌||◌, Option, some, none, List, [],
  ◌∷◌, ◌++◌, map, if◌then◌else◌, leb, ◌==◌, nat_eq, PartialEq, any, length, arith,
}
use coulisse.Decimal.{is_digit, print}

abbrev pub Name : Type 0
Name = List ℕ

abbrev pub eq_name : Name → Name → Bool
eq_name [] [] = true
eq_name [] (y ∷ ys) = false
eq_name (x ∷ xs) [] = false
eq_name (x ∷ xs) (y ∷ ys) = let rest = eq_name xs ys in if x == y then rest else false

-- A character that a provider takes: `[a-zA-Z0-9_-]`.
abbrev pub is_allowed : ℕ → Bool
is_allowed c =
    leb b'a' c && leb c b'z'
    || (leb b'A' c && leb c b'Z' || (is_digit c || (c == b'_' || c == b'-')))

abbrev pub take : ℕ → Name → Name
take zero xs = []
take (suc n) [] = []
take (suc n) (x ∷ xs) = x ∷ take n xs

-- After the replacement every character is one byte, so the bytes counted are characters.
unfoldable pub sanitize_name : Name → Name
sanitize_name raw = take 128 (map (λ c. if is_allowed c then c else b'_') raw)

abbrev pub suffixed : Name → ℕ → Name
suffixed candidate n = candidate ++ (b'_' ∷ print n)

-- `HashSet::contains`.
abbrev pub contains : List Name → Name → Bool
contains taken name = any (λ t. eq_name t name) taken

-- The loop of `dedupe`, from the suffix `n` on.
unfoldable pub free_suffix : ℕ → List Name → Name → ℕ → Name
free_suffix zero taken candidate n = suffixed candidate n
free_suffix (suc fuel) taken candidate n =
    let later = free_suffix fuel taken candidate (n + 1) in
    if contains taken (suffixed candidate n) then later else suffixed candidate n

-- The name given; the caller adds it to the names taken.
unfoldable pub dedupe : Name → List Name → Name
dedupe candidate taken =
    if contains taken candidate then free_suffix (length taken + 1) taken candidate 2 else candidate

-- A tool whose name already complies is passed on, and any other is wrapped.
pub data Exposed (Tool : Type 0) : Type 0 where
  passed : Tool → Exposed Tool
  sanitized : Tool → Name → Exposed Tool

module _ {Tool : Type 0} (name_of : Tool → Name) where
  abbrev pub exposed_name : Exposed Tool → Name
  exposed_name (passed tool) = name_of tool
  exposed_name (sanitized inner name) = name

  abbrev pub expose : Tool → Name → Exposed Tool
  expose tool unique = if eq_name unique (name_of tool) then passed tool else sanitized tool unique

  unfoldable pub apply_from : List Name → List Tool → List (Exposed Tool)
  apply_from taken [] = []
  apply_from taken (tool ∷ tools) =
      let unique = dedupe (sanitize_name (name_of tool)) taken in
      expose tool unique ∷ apply_from (unique ∷ taken) tools

  abbrev pub apply : List Tool → List (Exposed Tool)
  apply tools = apply_from [] tools

-- ===== src/Storage/Mime.antt =====
-- crates/storage/src/mime.rs: the content types that an upload may have. The `infer` crate, which
-- reads a type from the first bytes of a file, is a parameter.
use coulisse.Prelude.{ℕ, Bool, Option, none, some, List, [], ◌∷◌, map, any, codes, starts_with}

abbrev pub allowed_mime_prefixes : List (List ℕ)
allowed_mime_prefixes =
    map codes (
      "application/json" ∷ "application/octet-stream" ∷ "application/pdf" ∷ "image/" ∷ "text/" ∷ [])

unfoldable pub is_allowed : List ℕ → Bool
is_allowed mime_type = any (λ prefix. starts_with prefix mime_type) allowed_mime_prefixes

unfoldable pub infer_mime : (List ℕ → Option (List ℕ)) → List ℕ → List ℕ
infer_mime infer data' = elim (infer data') [
  | none ↦ codes "application/octet-stream"
  | some mime_type ↦ mime_type
]

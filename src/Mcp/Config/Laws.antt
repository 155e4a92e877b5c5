-- ===== src/Mcp/Config/Laws.antt =====
-- What crates/mcp/src/config.rs infers from the URL of an entry, for a URL as it is written: a scheme, a
-- host, the segments of a path and a query or a fragment.
use coulisse.Prelude.{
  ℕ, String, ◌≡◌, ◌⊎◌, codes, Bool, none, some, List, [], ◌∷◌, ◌++◌, Option, any, split_at, join,
  Lacks, All, nat_eq, string_eq,
}
use coulisse.Mcp.Config.{RawTransportPayload, eq_ignore_ascii_case}

pub record Parts : Type 0 where
  pub scheme : List ℕ
  pub host : List ℕ
  pub first : List ℕ
  pub others : List (List ℕ)
  pub query : List ℕ

abbrev pub path : Parts → List ℕ
path p = join b'/' p.first p.others

abbrev pub IsQuery : List ℕ → Type 0
IsQuery query = (query ≡ []) ⊎ ((cs : List ℕ) × ((query ≡ b'?' ∷ cs) ⊎ (query ≡ b'#' ∷ cs)))

-- The URL is written from the parts, each without what ends it.
pub record IsWritten (url : String) (p : Parts) : Type 0 where
  pub text : codes url ≡ p.scheme ++ (codes "://" ++ (p.host ++ (codes "/" ++ (path p ++ p.query))))
  pub scheme_ends : split_at (codes "://") p.scheme ≡ none
  pub host_ends : Lacks b'/' p.host
  pub first_ends : Lacks b'/' p.first
  pub others_end : All (Lacks b'/') p.others
  pub no_question : Lacks b'?' (path p)
  pub no_fragment : Lacks b'#' (path p)
  pub query_starts : IsQuery p.query

-- A segment of the path is `sse`, in any case of its letters.
abbrev pub names_sse : Parts → Bool
names_sse p = any (λ s. eq_ignore_ascii_case s (codes "sse")) (p.first ∷ p.others)

abbrev pub with_url :
    List String → List (String × String) → Option String → String → RawTransportPayload
with_url args env tag url = record {
  args = args;
  command = none;
  env = env;
  transport = tag;
  url = some url;
}

-- ===== src/Mcp/Config/Tests.antt =====
-- The transports and the OAuth modes of small entries.
use coulisse.Prelude.{
  codes, nat_eq, String, ◌≡◌, refl, true, Option, some, [], ◌∷◌, err, split_at, split_on,
}
use coulisse.Mcp.Config.{RawTransportPayload, try_from, url_path_includes_sse, effective_scopes}
use coulisse.Mcp.Config.McpOAuthConfig.{discover}
use coulisse.Mcp.Config.Laws.{Parts}
use coulisse.Mcp.Config.TransportShapeError.{unknown_tag}

abbrev entry : Option String → Option String → Option String → RawTransportPayload
entry transport url command = record {
  args = [];
  command = command;
  env = [];
  transport = transport;
  url = url;
}

-- The path decides, in any case of its letters.
infers_sse : url_path_includes_sse "https://mcp.example/v1/SSE?x=1" ≡ true
unfolding url_path_includes_sse split_at split_on
infers_sse = refl

-- An entry with the tag `http`, a URL and a command is refused for an unknown tag.
known_tag_unknown :
    try_from (entry (some "http") (some "https://x.example") (some "uvx"))
    ≡ err (unknown_tag "http")
unfolding try_from
known_tag_unknown = refl

pinned_scopes : effective_scopes (discover ("data" ∷ [])) ("other" ∷ []) ≡ "data" ∷ []
unfolding effective_scopes
pinned_scopes = refl

-- A host and a query that name `sse`, and a path that does so in capitals.
abbrev atlassian : Parts
atlassian = record {
  scheme = codes "https";
  host = codes "sse.example";
  first = codes "v1";
  others = codes "SSE" ∷ [];
  query = codes "?next=/x";
}

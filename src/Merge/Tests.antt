-- ===== src/Merge/Tests.antt =====
-- The merge's theorems at three agents of the file and four rows of the database.
use mathlib.Core.List.{Memᴰ}
use coulisse.Prelude.{
  ◌+◌, String, ◌≡◌, refl, true, false, none, some, List, [], ◌∷◌, ◌↔◌, filter_map, length, inl, inr,
  insert_by, sort_by, str_leb,
}
use coulisse.Prelude.Int.{pos}
use coulisse.Merge.{
  Source, Merged, MergeReport, DynamicRow, merge, get_by_name, merge_entries, merge_rows,
}
use coulisse.Merge.Effective.{IsEffective, merge_effective}
use coulisse.Merge.Agreement.{running, admin_view_agrees}
use coulisse.Merge.Counts.{running_count, merge_tally}
use coulisse.Agents.{AgentConfig, agents_merge, agents_admin_view}
use coulisse.Providers.ProviderKind.{openai}

abbrev agent : String → String → AgentConfig
agent name model = record {
  judges = [];
  max_turns = none;
  mcp_tools = [];
  model = model;
  name = name;
  preamble = "";
  provider = openai;
  purpose = none;
  skills = [];
  subagents = [];
}

abbrev active : String → DynamicRow AgentConfig
active name = record {
  config = some (agent name "db");
  created_at = pos 0;
  disabled = false;
  name = name;
  updated_at = pos 0;
}

abbrev tombstone : String → DynamicRow AgentConfig
tombstone name = record {
  config = none;
  created_at = pos 0;
  disabled = true;
  name = name;
  updated_at = pos 0;
}

abbrev declared : List AgentConfig
declared = agent "charlie" "yaml" ∷ agent "bob" "yaml" ∷ agent "alice" "yaml" ∷ []

abbrev rows : List (DynamicRow AgentConfig)
rows = active "alice" ∷ tombstone "bob" ∷ active "dave" ∷ tombstone "ghost" ∷ []

abbrev alice : Merged AgentConfig
alice = record { config = agent "alice" "db"; source = Source.overridden }

merges_all_classes : agents_merge declared rows ≡ (
  alice
      ∷ record { config = agent "charlie" "yaml"; source = Source.from_yaml }
      ∷ record { config = agent "dave" "db"; source = Source.dynamic }
      ∷ [],
  record { dynamic_count = 1; override_count = 1; tombstone_count = 2; yaml_count = 1 },
)
unfolding merge merge_entries merge_rows get_by_name sort_by insert_by str_leb
merges_all_classes = refl

merge_effective_example :
    Memᴰ alice (agents_merge declared rows).0 ↔ IsEffective (λ cfg. cfg.name) declared rows alice
merge_effective_example = merge_effective (λ cfg. cfg.name) declared rows alice

admin_view_agrees_example :
    filter_map running (agents_admin_view declared rows) ≡ (agents_merge declared rows).0
admin_view_agrees_example =
    admin_view_agrees (λ cfg. cfg.name) declared rows (refl, (tt, (refl, (tt, tt))))

merge_tally_example :
    (running_count (agents_merge declared rows).1 ≡ length (agents_merge declared rows).0)
    × (length (agents_merge declared rows).0
          + MergeReport.tombstone_count (agents_merge declared rows).1
        ≡ length (agents_admin_view declared rows))
merge_tally_example =
    merge_tally (λ cfg. cfg.name) declared rows
      (
        inl (refl, agent "alice" "db", refl),
        (inr refl, (inl (refl, agent "dave" "db", refl), (inr refl, tt))),
      )

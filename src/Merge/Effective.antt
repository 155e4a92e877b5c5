-- ===== src/Merge/Effective.antt =====
-- Which configurations `merge` of crates/agents/src/merge.rs lets run, and how many rows of each
-- class it reports.
use mathlib.Core.List.Permᴰ
use mathlib.Core.List.{Memᴰ}
use mathlib.Core.Option.{some-injective}
use coulisse.Prelude.{
  String, ◌≡◌, refl, sym, subst, false, Option, none, some, List, arith, filter_map, mem-perm,
  mem-append, append-mem_left, append-mem_right, mem-filter_map, filter_map-mem, sort_by-perm,
  sort_by-IsSortedByName, IsSortedByName, Bool-cases, Option-cases, inl, inr, ◌↔◌,
}
use coulisse.Merge.{Source, Merged, DynamicRow, merge, row_of, declares}
use coulisse.Merge.Loops.{labelled, entry_result, row_result, results, merge-results}

-- Why a configuration runs.
pub data IsEffective {Config : Type 0} (name_of : Config → String) (yaml : List Config)
    (db : List (DynamicRow Config)) : Merged Config → Type 0 where
  untouched :
      (cfg : Config)
      → Memᴰ cfg yaml
      → row_of name_of db cfg ≡ none
      → IsEffective name_of yaml db (record { config = cfg; source = Source.from_yaml })
  shadowed :
      (cfg chosen : Config) (row : DynamicRow Config)
      → Memᴰ cfg yaml
      → row_of name_of db cfg ≡ some row
      → row.disabled ≡ false
      → row.config ≡ some chosen
      → IsEffective name_of yaml db (record { config = chosen; source = Source.overridden })
  added :
      (chosen : Config) (row : DynamicRow Config)
      → Memᴰ row db
      → declares name_of yaml row.name ≡ false
      → row.disabled ≡ false
      → row.config ≡ some chosen
      → IsEffective name_of yaml db (record { config = chosen; source = Source.dynamic })

module _ {Config : Type 0} (name_of : Config → String) (yaml : List Config)
    (db : List (DynamicRow Config)) where
  labelled-inverse :
      (source : Source) (o : Option Config) {m : Merged Config}
      → labelled source o ≡ some m
      → (cfg : Config) × (o ≡ some cfg) × (record { config = cfg; source = source } ≡ m)
  labelled-inverse source none e = absurd (ground arith)
  labelled-inverse source (some cfg) e = (cfg, refl, some-injective _ _ e)

  entry-IsEffective :
      (cfg : Config) {m : Merged Config}
      → Memᴰ cfg yaml
      → entry_result cfg (row_of name_of db cfg) ≡ some m
      → IsEffective name_of yaml db m
  entry-IsEffective cfg mem e = elim (Option-cases (row_of name_of db cfg)) [
    | inl n ↦
        subst (IsEffective name_of yaml db) (some-injective _ _ (rw n at e)) (untouched cfg mem n)
    | inr (row, n) ↦ elim (Bool-cases row.disabled) [
      | inl d ↦ absurd (ground arith)
      | inr d ↦
          let r = labelled-inverse Source.overridden row.config (rw d at (rw n at e)) in
          subst (IsEffective name_of yaml db) r.2 (shadowed cfg r.0 row mem n d r.1)
    ]
  ]

  row-IsEffective :
      (row : DynamicRow Config) {m : Merged Config}
      → Memᴰ row db
      → row_result (declares name_of yaml row.name) row ≡ some m
      → IsEffective name_of yaml db m
  row-IsEffective row mem e = elim (Bool-cases (declares name_of yaml row.name)) [
    | inl n ↦ absurd (ground arith)
    | inr n ↦ elim (Bool-cases row.disabled) [
      | inl d ↦ absurd (ground arith)
      | inr d ↦
          let r = labelled-inverse Source.dynamic row.config (rw d at (rw n at e)) in
          subst (IsEffective name_of yaml db) r.2 (added r.0 row mem n d r.1)
    ]
  ]

  results-IsEffective :
      {m : Merged Config} → Memᴰ m (results name_of yaml db) → IsEffective name_of yaml db m
  results-IsEffective {m} mem =
      elim (mem-append (filter_map (λ cfg. entry_result cfg (row_of name_of db cfg)) yaml) _ mem) [
        | inl l ↦
            let r =
              mem-filter_map (λ cfg. entry_result cfg (row_of name_of db cfg)) yaml {b = m} l in
            entry-IsEffective r.0 r.1 r.2
        | inr l ↦
            let r =
              mem-filter_map (λ row. row_result (declares name_of yaml row.name) row) db {b = m}
                l in
            row-IsEffective r.0 r.1 r.2
      ]

  IsEffective-results :
      {m : Merged Config} → IsEffective name_of yaml db m → Memᴰ m (results name_of yaml db)
  IsEffective-results (untouched cfg mem n) =
      append-mem_left (filter_map (λ c. entry_result c (row_of name_of db c)) yaml) _
        (filter_map-mem (λ c. entry_result c (row_of name_of db c)) yaml mem (rw n refl))
  IsEffective-results (shadowed cfg chosen row mem n d c) =
      append-mem_left (filter_map (λ c'. entry_result c' (row_of name_of db c')) yaml) _ (
        filter_map-mem (λ c'. entry_result c' (row_of name_of db c')) yaml mem
          (rw n rw d rw c refl))
  IsEffective-results (added chosen row mem n d c) =
      append-mem_right (filter_map (λ c'. entry_result c' (row_of name_of db c')) yaml) _ (
        filter_map-mem (λ r. row_result (declares name_of yaml r.name) r) db mem
          (rw n rw d rw c refl))

  -- A configuration is in the merged list, with a source, exactly when the file has it and the
  -- database has no row of its name, or an active row carries it and shadows an entry of the file
  -- or names none.
  pub merge_effective :
      (m : Merged Config) → Memᴰ m (merge name_of yaml db).0 ↔ IsEffective name_of yaml db m
  merge_effective m = (
    λ mem. results-IsEffective (
        mem-perm (sort_by-perm (λ c. name_of c.config) (results name_of yaml db))
          (subst (Memᴰ m) (merge-results name_of yaml db) mem)),
    λ e. subst (Memᴰ m) (sym (merge-results name_of yaml db)) (
        mem-perm (Permᴰ.symm (sort_by-perm (λ c. name_of c.config) (results name_of yaml db)))
          (IsEffective-results e)),
  )

  -- The merged list is sorted by name.
  pub merge-IsSortedByName : IsSortedByName (λ m. name_of m.config) (merge name_of yaml db).0
  merge-IsSortedByName =
      subst (IsSortedByName (λ m. name_of m.config)) (sym (merge-results name_of yaml db))
        (sort_by-IsSortedByName (λ m. name_of m.config) (results name_of yaml db))

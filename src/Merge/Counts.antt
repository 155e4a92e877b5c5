-- ===== src/Merge/Counts.antt =====
-- What the report of `merge` (crates/agents/src/merge.rs) counts.
use coulisse.Prelude.{
  ap, subst, ℕ, suc, ◌+◌, String, ◌≡◌, refl, Bool, true, false, Option, none, some, List, [], ◌∷◌,
  ◌++◌, map, All, arith, length, length-append, cons_option, filter_map, length-sort_by, Bool-cases,
  Option-cases, inl, inr, All-mem, ◌⊎◌,
}
use coulisse.Merge.{
  Source, Merging, MergeReport, DynamicRow, merge, merge_entry, merge_row, merge_entries,
  merge_rows, row_of, declares, admin_row, admin_entry, admin_view,
}
use coulisse.Merge.Agreement.{get_by_name-some}

-- A row is active with a configuration, or it is a tombstone.
abbrev pub IsRow : {Config : Type 0} → DynamicRow Config → Type 0
IsRow {Config} row =
    ((row.disabled ≡ false) × (cfg : Config) × (row.config ≡ some cfg)) ⊎ (row.disabled ≡ true)

abbrev pub running_count : MergeReport → ℕ
running_count r = r.yaml_count + r.override_count + r.dynamic_count

module _ {Config : Type 0} where
  -- The counts are those of the list, and list and tombstones account for `n` lines.
  abbrev Tallied : ℕ → Merging Config → Type 0
  Tallied n s =
      (running_count s.report ≡ length s.merged) × (length s.merged + s.report.tombstone_count ≡ n)

  merge_entry-Tallied :
      (n : ℕ) (cfg : Config) (o : Option (DynamicRow Config)) (s : Merging Config)
      → ((row : DynamicRow Config) → o ≡ some row → IsRow row)
      → Tallied n s
      → Tallied (suc n) (merge_entry cfg o s)
  merge_entry-Tallied n cfg none s rows h = (
    ground (
      arith,
      h,
      length-append s.merged (record { config = cfg; source = Source.from_yaml } ∷ []),
    ),
    ground (
      arith,
      h,
      length-append s.merged (record { config = cfg; source = Source.from_yaml } ∷ []),
    ),
  )
  merge_entry-Tallied n cfg (some row) s rows h = elim (rows row refl) [
    | inl (d, c, e) ↦ rw d rw e (
      ground (
        arith,
        h,
        length-append s.merged (record { config = c; source = Source.overridden } ∷ []),
      ),
      ground (
        arith,
        h,
        length-append s.merged (record { config = c; source = Source.overridden } ∷ []),
      ),
    )
    | inr d ↦ rw d (h.0, omega (arith, h.1))
  ]

  merge_row-Tallied :
      (n : ℕ) (declared : Bool) (row : DynamicRow Config) (s : Merging Config)
      → Tallied n s
      → Tallied (n + length (cons_option (admin_row declared row) [])) (merge_row declared row s)
  merge_row-Tallied n true row s h = (h.0, omega (arith, h.1))
  merge_row-Tallied n false row s h = elim (Bool-cases row.disabled) [
    | inl d ↦ rw d (h.0, omega (arith, h.1))
    | inr d ↦ rw d elim (Option-cases row.config) [
      | inl e ↦ rw e (h.0, omega (arith, h.1))
      | inr (c, e) ↦ rw e (
        ground (
          arith,
          h,
          length-append s.merged (record { config = c; source = Source.dynamic } ∷ []),
        ),
        ground (
          arith,
          h,
          length-append s.merged (record { config = c; source = Source.dynamic } ∷ []),
        ),
      )
    ]
  ]

length-cons_option :
    {A : Type 0} (o : Option A) (xs : List A)
    → length (cons_option o xs) ≡ length (cons_option o []) + length xs
length-cons_option none xs = omega arith
length-cons_option (some x) xs = omega arith

length-map : {A B : Type 0} (f : A → B) (xs : List A) → length (map f xs) ≡ length xs
length-map f [] = refl
length-map f (x ∷ xs) = ap suc (length-map f xs)

module _ {Config : Type 0} (name_of : Config → String) where
  merge_entries-Tallied :
      (n : ℕ) (db : List (DynamicRow Config)) (yaml : List Config) (s : Merging Config)
      → All IsRow db
      → Tallied n s
      → Tallied (n + length yaml) (merge_entries name_of db yaml s)
  unfolding merge_entries
  merge_entries-Tallied n db [] s rows h = (h.0, omega (arith, h.1))
  merge_entries-Tallied n db (cfg ∷ yaml) s rows h =
      subst (λ k. Tallied k (merge_entries name_of db (cfg ∷ yaml) s)) (omega arith)
        (merge_entries-Tallied (suc n) db yaml _ rows (
          merge_entry-Tallied n cfg (row_of name_of db cfg) s
            (λ row e.
              All-mem IsRow rows (get_by_name-some (λ r. r.name) (name_of cfg) db {r = row} e).0)
            h))

  merge_rows-Tallied :
      (yaml : List Config) (db : List (DynamicRow Config)) (n : ℕ) (s : Merging Config)
      → Tallied n s
      → Tallied
          (n + length (filter_map (λ row. admin_row (declares name_of yaml row.name) row) db))
          (merge_rows name_of yaml db s)
  unfolding merge_rows
  merge_rows-Tallied yaml [] n s h = (h.0, omega (arith, h.1))
  merge_rows-Tallied yaml (row ∷ db) n s h =
      subst (λ k. Tallied k (merge_rows name_of yaml (row ∷ db) s))
        (omega (
          arith,
          length-cons_option (admin_row (declares name_of yaml row.name) row)
              (filter_map (λ r. admin_row (declares name_of yaml r.name) r) db),
        ))
        (merge_rows-Tallied yaml db _ _
          (merge_row-Tallied n (declares name_of yaml row.name) row s h))

  -- When every row of the database is active with a configuration or a tombstone, the report's
  -- counts of entries that run sum to the length of the merged list, and with the tombstones they
  -- account for every line of the administrator's list.
  pub merge_tally :
      (yaml : List Config) (db : List (DynamicRow Config))
      → All IsRow db
      → (running_count (merge name_of yaml db).1 ≡ length (merge name_of yaml db).0)
        × (length (merge name_of yaml db).0 + MergeReport.tombstone_count (merge name_of yaml db).1
            ≡ length (admin_view name_of yaml db))
  unfolding merge admin_view
  merge_tally yaml db rows =
      let start : Merging Config = record {
        merged = [];
        report = record {
          dynamic_count = 0;
          override_count = 0;
          tombstone_count = 0;
          yaml_count = 0;
        };
      } in
      let tallied =
        merge_rows-Tallied yaml db _ _
          (merge_entries-Tallied 0 db yaml start rows (omega arith, omega arith)) in
      let sorted =
        length-sort_by (λ m. name_of m.config)
          (merge_rows name_of yaml db (merge_entries name_of db yaml start)).merged in
      let shown =
        length-sort_by (λ e. e.name)
          (map (λ cfg. admin_entry name_of cfg (row_of name_of db cfg)) yaml
            ++ filter_map (λ row. admin_row (declares name_of yaml row.name) row) db) in
      (
        omega (arith, tallied.0, sorted),
        omega (
          arith,
          tallied.1,
          sorted,
          shown,
          length-append (map (λ cfg. admin_entry name_of cfg (row_of name_of db cfg)) yaml)
              (filter_map (λ row. admin_row (declares name_of yaml row.name) row) db),
          length-map (λ cfg. admin_entry name_of cfg (row_of name_of db cfg)) yaml,
        ),
      )

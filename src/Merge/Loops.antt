-- ===== src/Merge/Loops.antt =====
-- What the two loops of `merge` (crates/agents/src/merge.rs) push and count.
use mathlib.Core.List.{append_assoc, append-nil}
use coulisse.Prelude.{
  String, ◌≡◌, refl, ap, ◌∙◌, sym, Bool, true, false, Option, none, some, List, [], ◌∷◌, ◌++◌,
  if◌then◌else◌, cons_option, filter_map, sort_by, Bool-cases, Option-cases, inl, inr,
}
use coulisse.Merge.{
  Source, Merged, Merging, DynamicRow, merge_entry, merge_row, merge_entries, merge_rows, merge,
  row_of, declares,
}

module _ {Config : Type 0} where
  abbrev pub labelled : Source → Option Config → Option (Merged Config)
  labelled source none = none
  labelled source (some cfg) = some (record { config = cfg; source = source })

  -- What an entry of the file and a row of the database contribute to the list.
  abbrev pub entry_result : Config → Option (DynamicRow Config) → Option (Merged Config)
  entry_result cfg none = labelled Source.from_yaml (some cfg)
  entry_result cfg (some row) = if row.disabled then none else labelled Source.overridden row.config

  abbrev pub row_result : Bool → DynamicRow Config → Option (Merged Config)
  row_result declared row =
      if declared then none else if row.disabled then none else labelled Source.dynamic row.config

  merge_entry-merged :
      (cfg : Config) (o : Option (DynamicRow Config)) (s : Merging Config)
      → (merge_entry cfg o s).merged ≡ s.merged ++ cons_option (entry_result cfg o) []
  merge_entry-merged cfg none s = refl
  merge_entry-merged cfg (some row) s = elim (Bool-cases row.disabled) [
    | inl e ↦ rw e (sym (append-nil s.merged))
    | inr e ↦ rw e elim (Option-cases row.config) [
      | inl n ↦ rw n (sym (append-nil s.merged))
      | inr (c, n) ↦ rw n refl
    ]
  ]

  merge_row-merged :
      (declared : Bool) (row : DynamicRow Config) (s : Merging Config)
      → (merge_row declared row s).merged ≡ s.merged ++ cons_option (row_result declared row) []
  merge_row-merged true row s = sym (append-nil s.merged)
  merge_row-merged false row s = elim (Bool-cases row.disabled) [
    | inl e ↦ rw e (sym (append-nil s.merged))
    | inr e ↦ rw e elim (Option-cases row.config) [
      | inl n ↦ rw n (sym (append-nil s.merged))
      | inr (c, n) ↦ rw n refl
    ]
  ]

append-cons_option :
    {A : Type 0} (xs ys : List A) (o : Option A)
    → (xs ++ cons_option o []) ++ ys ≡ xs ++ cons_option o ys
append-cons_option xs ys none = ap (λ zs. zs ++ ys) (append-nil xs)
append-cons_option xs ys (some x) = append_assoc xs (x ∷ []) ys

module _ {Config : Type 0} (name_of : Config → String) where
  -- The list before it is sorted.
  abbrev pub results : List Config → List (DynamicRow Config) → List (Merged Config)
  results yaml db =
      filter_map (λ cfg. entry_result cfg (row_of name_of db cfg)) yaml
      ++ filter_map (λ row. row_result (declares name_of yaml row.name) row) db

  merge_entries-merged :
      (db : List (DynamicRow Config)) (yaml : List Config) (s : Merging Config)
      → (merge_entries name_of db yaml s).merged
        ≡ s.merged ++ filter_map (λ cfg. entry_result cfg (row_of name_of db cfg)) yaml
  unfolding merge_entries
  merge_entries-merged db [] s = sym (append-nil s.merged)
  merge_entries-merged db (cfg ∷ yaml) s =
      merge_entries-merged db yaml (merge_entry cfg (row_of name_of db cfg) s)
      ∙ rw (merge_entry-merged cfg (row_of name_of db cfg) s)
          (append-cons_option s.merged _ (entry_result cfg (row_of name_of db cfg)))

  merge_rows-merged :
      (yaml : List Config) (db : List (DynamicRow Config)) (s : Merging Config)
      → (merge_rows name_of yaml db s).merged
        ≡ s.merged ++ filter_map (λ row. row_result (declares name_of yaml row.name) row) db
  unfolding merge_rows
  merge_rows-merged yaml [] s = sym (append-nil s.merged)
  merge_rows-merged yaml (row ∷ db) s =
      merge_rows-merged yaml db (merge_row (declares name_of yaml row.name) row s)
      ∙ rw (merge_row-merged (declares name_of yaml row.name) row s)
          (append-cons_option s.merged _ (row_result (declares name_of yaml row.name) row))

  pub merge-results :
      (yaml : List Config) (db : List (DynamicRow Config))
      → (merge name_of yaml db).0 ≡ sort_by (λ m. name_of m.config) (results yaml db)
  unfolding merge
  merge-results yaml db = ap (sort_by (λ m. name_of m.config)) (
      merge_rows-merged yaml db _
      ∙ ap
          (λ front. front ++ filter_map (λ row. row_result (declares name_of yaml row.name) row) db)
          (merge_entries-merged db yaml _))

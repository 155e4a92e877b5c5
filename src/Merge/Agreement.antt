-- ===== src/Merge/Agreement.antt =====
-- `merge` and `admin_view` of crates/agents/src/merge.rs show the same list.
use mathlib.Core.List.{Memᴰ}
use coulisse.Prelude.{
  subst, String, ◌≡◌, refl, ap, ◌∙◌, sym, Bool, Option, none, some, List, [], ◌∷◌, map, All,
  All-append, All-mem, arith, cons_option, filter_map, filter_map-append, sort_by,
  filter_map-sort_by, Bool-cases, Option-cases, inl, inr, ◌==◌, string_eq, ==_iff, All-map,
}
use coulisse.Merge.{
  Source, AdminSource, Merged, DynamicRow, AdminEntry, merge, admin_view, admin_entry, admin_row,
  row_of, declares, get_by_name,
}
use coulisse.Merge.Loops.{labelled, entry_result, row_result, merge-results}

-- A configuration carries the name it is listed under.
abbrev pub IsNamed : {Config : Type 0} → (Config → String) → String → Option Config → Type 0
IsNamed name_of name none = Unit
IsNamed name_of name (some cfg) = name_of cfg ≡ name

-- What an administrator's entry says of the list that runs.
abbrev pub as_source : {Config : Type 0} → AdminSource → Option Config → Option (Merged Config)
as_source AdminSource.dynamic config = labelled Source.dynamic config
as_source AdminSource.overridden config = labelled Source.overridden config
as_source AdminSource.tombstoned config = none
as_source AdminSource.from_yaml config = labelled Source.from_yaml config

abbrev pub running : {Config : Type 0} → AdminEntry Config → Option (Merged Config)
running entry = as_source entry.source entry.config

pub get_by_name-some :
    {R : Type 0} (key : R → String) (name : String) (rows : List R) {r : R}
    → get_by_name key name rows ≡ some r
    → Memᴰ r rows × (key r ≡ name)
unfolding get_by_name
get_by_name-some key name [] e = absurd (ground arith)
get_by_name-some key name (q ∷ rows) {r} e = elim (Option-cases (get_by_name key name rows)) [
  | inl n ↦ elim (Bool-cases (key q == name)) [
    | inl h ↦ (Memᴰ.head (ground arith), ground (arith, (==_iff (key q) name).0 h))
    | inr h ↦ absurd (ground arith)
  ]
  | inr (later, n) ↦
      let found = get_by_name-some key name rows {r = r} (ground arith) in
      (Memᴰ.tail found.0, found.1)
]

module _ {Config : Type 0} (name_of : Config → String) where
  running-admin_entry :
      (cfg : Config) (o : Option (DynamicRow Config))
      → running (admin_entry name_of cfg o) ≡ entry_result cfg o
  running-admin_entry cfg none = refl
  running-admin_entry cfg (some row) = elim (Bool-cases row.disabled) [
    | inl e ↦ rw e refl
    | inr e ↦ rw e refl
  ]

  running-entries :
      (db : List (DynamicRow Config)) (yaml : List Config)
      → filter_map running (map (λ cfg. admin_entry name_of cfg (row_of name_of db cfg)) yaml)
        ≡ filter_map (λ cfg. entry_result cfg (row_of name_of db cfg)) yaml
  running-entries db [] = refl
  running-entries db (cfg ∷ yaml) =
      rw (running-admin_entry cfg (row_of name_of db cfg))
        (ap (cons_option (entry_result cfg (row_of name_of db cfg))) (running-entries db yaml))

  running-rows :
      (declared : DynamicRow Config → Bool) (db : List (DynamicRow Config))
      → filter_map running (filter_map (λ row. admin_row (declared row) row) db)
        ≡ filter_map (λ row. row_result (declared row) row) db
  running-rows declared [] = refl
  running-rows declared (row ∷ db) = elim (Bool-cases (declared row)) [
    | inl d ↦ rw d (running-rows declared db)
    | inr d ↦ rw d elim (Bool-cases row.disabled) [
      | inl e ↦ rw e (running-rows declared db)
      | inr e ↦ rw e elim (Option-cases row.config) [
        | inl n ↦ rw n (running-rows declared db)
        | inr (c, n) ↦
            rw n (ap (cons_option (labelled Source.dynamic (some c))) (running-rows declared db))
      ]
    ]
  ]

  admin_entry-IsNamed :
      (db : List (DynamicRow Config)) (cfg : Config)
      → All (λ row. IsNamed name_of row.name row.config) db
      → IsNamed name_of
          (admin_entry name_of cfg (row_of name_of db cfg)).name
          (admin_entry name_of cfg (row_of name_of db cfg)).config
  admin_entry-IsNamed db cfg named = elim (Option-cases (row_of name_of db cfg)) [
    | inl n ↦ rw n refl
    | inr (row, n) ↦
        let found = get_by_name-some (λ r. r.name) (name_of cfg) db {r = row} n in
        rw n elim (Bool-cases row.disabled) [
          | inl e ↦ rw e tt
          | inr e ↦ rw e (
              subst (λ name. IsNamed name_of name row.config) found.1
                (All-mem (λ r. IsNamed name_of r.name r.config) named found.0))
        ]
  ]

  admin_entries-IsNamed :
      (db : List (DynamicRow Config)) (yaml : List Config)
      → All (λ row. IsNamed name_of row.name row.config) db
      → All
          (λ entry. IsNamed name_of entry.name entry.config)
          (map (λ cfg. admin_entry name_of cfg (row_of name_of db cfg)) yaml)
  admin_entries-IsNamed db [] named = tt
  admin_entries-IsNamed db (cfg ∷ yaml) named =
      (admin_entry-IsNamed db cfg named, admin_entries-IsNamed db yaml named)

  admin_rows-IsNamed :
      (declared : DynamicRow Config → Bool) (db : List (DynamicRow Config))
      → All (λ row. IsNamed name_of row.name row.config) db
      → All
          (λ entry. IsNamed name_of entry.name entry.config)
          (filter_map (λ row. admin_row (declared row) row) db)
  admin_rows-IsNamed declared [] named = tt
  admin_rows-IsNamed declared (row ∷ db) named = elim (Bool-cases (declared row)) [
    | inl d ↦ rw (d, All) (admin_rows-IsNamed declared db named.1)
    | inr d ↦
        rw (d, All)
          elim (Bool-cases row.disabled) [
            | inl e ↦ rw (e, All) (tt, admin_rows-IsNamed declared db named.1)
            | inr e ↦
                rw (e, All)
                  elim (Option-cases row.config) [
                    | inl n ↦ rw (n, All) (admin_rows-IsNamed declared db named.1)
                    | inr (c, n) ↦
                        rw (n, All)
                          (
                            subst (IsNamed name_of row.name) n named.0,
                            admin_rows-IsNamed declared db named.1,
                          )
                  ]
          ]
  ]

  as_source-KeepsKey :
      (source : AdminSource) (name : String) (config : Option Config)
      → IsNamed name_of name config
      → (m : Merged Config) → as_source source config ≡ some m
      → name_of m.config ≡ name
  as_source-KeepsKey AdminSource.dynamic name none named m e = absurd (ground arith)
  as_source-KeepsKey AdminSource.overridden name none named m e = absurd (ground arith)
  as_source-KeepsKey AdminSource.tombstoned name none named m e = absurd (ground arith)
  as_source-KeepsKey AdminSource.from_yaml name none named m e = absurd (ground arith)
  as_source-KeepsKey AdminSource.dynamic name (some c) named m e = ground (arith, named)
  as_source-KeepsKey AdminSource.overridden name (some c) named m e = ground (arith, named)
  as_source-KeepsKey AdminSource.tombstoned name (some c) named m e = absurd (ground arith)
  as_source-KeepsKey AdminSource.from_yaml name (some c) named m e = ground (arith, named)

  -- When each active row's configuration has the row's name, the list that runs is the
  -- administrator's list without its tombstones, entry by entry in the same order, with the same
  -- configurations and sources.
  pub admin_view_agrees :
      (yaml : List Config) (db : List (DynamicRow Config))
      → All (λ row. IsNamed name_of row.name row.config) db
      → filter_map running (admin_view name_of yaml db) ≡ (merge name_of yaml db).0
  unfolding admin_view
  admin_view_agrees yaml db named =
      filter_map-sort_by (λ entry. entry.name) (λ m. name_of m.config) running _
        (All-map _ _ _ (λ entry h. as_source-KeepsKey entry.source entry.name entry.config h)
          (All-append (λ entry. IsNamed name_of entry.name entry.config)
            (map (λ cfg. admin_entry name_of cfg (row_of name_of db cfg)) yaml) _
            (admin_entries-IsNamed db yaml named)
            (admin_rows-IsNamed (λ row. declares name_of yaml row.name) db named)))
      ∙ ap (sort_by (λ m. name_of m.config)) (
          filter_map-append running
            (map (λ cfg. admin_entry name_of cfg (row_of name_of db cfg)) yaml) _
          ∙ rw (running-entries db yaml) rw
              (running-rows (λ row. declares name_of yaml row.name) db) refl)
      ∙ sym (merge-results name_of yaml db)

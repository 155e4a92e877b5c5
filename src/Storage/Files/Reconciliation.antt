-- ===== src/Storage/Files/Reconciliation.antt =====
-- What the reconciliation of crates/storage/src/store.rs at boot removes.
use coulisse.Prelude.{
  String, ◌≡◌, ◌≢◌, inl, inr, refl, sym, ap, ◌∙◌, Bool, true, false, not, none, List, [], ◌∷◌, ◌++◌,
  ok, Bool-cases, ==_refl, string_eq, keep, All, All-append, All-map, All-zip, All-keep, member,
}
use mathlib.Core.List.{append_assoc}
use coulisse.Sql.{delete_where}
use coulisse.Storage.{FileRow, Index, Store, has_id}
use coulisse.Storage.Eviction.{IsKeyed, keep-others, other_sym}
use coulisse.Storage.Backend.{Backend}
use coulisse.Storage.Backend.Contract.{Contract}
use coulisse.Storage.Files.{reconcile_rows, reconcile_at_boot}

keep-append :
    (p : FileRow → Bool) (xs ys : List FileRow) → keep p (xs ++ ys) ≡ keep p xs ++ keep p ys
keep-append p [] ys = refl
keep-append p (x ∷ xs) ys = elim (Bool-cases (p x)) [
  | inl e ↦ rw e (ap (λ rs. x ∷ rs) (keep-append p xs ys))
  | inr e ↦ rw e (keep-append p xs ys)
]

-- No row of `done` has the identifier of one of `rows`.
abbrev Apart : List FileRow → List FileRow → Type 0
Apart done rows = All (λ row. All (λ r. has_id row.id r ≡ false) done) rows

delete-here :
    (done : List FileRow) (row : FileRow) (rows : List FileRow)
    → Apart done (row ∷ rows)
    → IsKeyed (row ∷ rows)
    → delete_where (has_id row.id) (done ++ row ∷ rows) ≡ done ++ rows
unfolding delete_where
delete-here done row rows a k =
    let own = ==_refl row.id in
    keep-append (λ r. not (has_id row.id r)) done (row ∷ rows)
    ∙ rw (keep-others row.id done a.0, own) (ap (λ rs. done ++ rs) (keep-others row.id rows k.0))

module _ (b : Backend) (keys : List String) where
  abbrev on_disk : FileRow → Bool
  on_disk row = member row.storage_key keys

  reconcile_rows-keep :
      (rows done : List FileRow)
      → Apart done rows
      → IsKeyed rows
      → reconcile_rows b keys rows (done ++ rows) ≡ done ++ keep on_disk rows
  reconcile_rows-keep [] done a k = refl
  reconcile_rows-keep (row ∷ rows) done a k = elim (Bool-cases (member row.storage_key keys)) [
    | inr e ↦ rw (e, delete-here done row rows a k) (reconcile_rows-keep rows done a.1 k.1)
    | inl e ↦
        let later =
          All-map (λ r. All (λ d. has_id r.id d ≡ false) done × (has_id row.id r ≡ false))
            (λ r. All (λ d. has_id r.id d ≡ false) (done ++ row ∷ [])) rows
            (λ r h.
              All-append (λ d. has_id r.id d ≡ false) done (row ∷ []) h.0 (other_sym row r h.1, tt))
            (All-zip (λ r. All (λ d. has_id r.id d ≡ false) done) (λ r. has_id row.id r ≡ false)
              rows a.1 k.0) in
        let rest = reconcile_rows-keep rows (done ++ row ∷ []) later k.1 in
        rw e (
          rw (append_assoc done (row ∷ []) rows, append_assoc done (row ∷ []) (keep on_disk rows))
            at rest)
  ]

  reconcile_rows-all :
      (index : Index) → IsKeyed index → reconcile_rows b keys index index ≡ keep on_disk index
  reconcile_rows-all index k = reconcile_rows-keep index [] (none_done index) k
    where
      none_done : (rows : List FileRow) → Apart [] rows
      none_done [] = tt
      none_done (row ∷ rows) = (tt, none_done rows)

module _ (b : Backend) (contract : Contract b) where
  open contract use {holds}

  -- On a backend that keeps its contract and enumerates some keys, and where no two rows have one
  -- identifier, the reconciliation at boot keeps exactly the rows whose key was enumerated, in
  -- their order, each of which has its blob; and it removes no blob.
  pub reconcile_at_boot-exact :
      (keys : List String) (store : Store b.Blobs)
      → IsKeyed store.index
      → (b.list_keys store.blobs).0 ≡ ok keys
      → keys ≢ []
      → ((reconcile_at_boot b store).index ≡ keep (λ row. member row.storage_key keys) store.index)
        × All
            (λ row. holds (reconcile_at_boot b store).blobs row.storage_key ≢ none)
            (reconcile_at_boot b store).index
        × ((j : String) → holds (reconcile_at_boot b store).blobs j ≡ holds store.blobs j)
  unfolding reconcile_at_boot
  reconcile_at_boot-exact [] store k listed some_keys = absurd (some_keys refl)
  reconcile_at_boot-exact (first ∷ rest) store k listed some_keys =
      let keys = first ∷ rest in
      let exact = reconcile_rows-all b keys store.index k in
      rw (listed, reconcile_at_boot)
        (
          exact,
          rw exact (
              All-keep _ (λ row. member row.storage_key keys) store.index
                (λ row m on. backed row.storage_key on)),
          λ j. contract.list_keeps j store.blobs,
        )
    where
      backed :
          (j : String) → member j (first ∷ rest) ≡ true → holds (b.list_keys store.blobs).1 j ≢ none
      backed j on = elim (contract.list_names store.blobs listed) [
        | inl e ↦ absurd (cc e)
        | inr names ↦ λ gone. (names j).0 on (sym (contract.list_keeps j store.blobs) ∙ gone)
      ]

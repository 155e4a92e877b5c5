-- ===== src/Storage/Files/Calls.antt =====
-- Each call of crates/storage/src/store.rs keeps the invariant of the index.
use coulisse.Prelude.{
  String, ◌≡◌, ◌⊎◌, inl, inr, refl, sym, subst, not, List, [], ◌∷◌, err, Result-cases, Bool-cases,
  string_eq, is_nil, member,
}
use coulisse.Sql.{delete_where}
use coulisse.Storage.{
  FileRow, FileObject, StorageError, backend, file_too_large, migrate, not_found, quota_exceeded,
  unsupported_content_type, Store, has_id, blob_key_for, get_metadata,
}
use coulisse.Storage.Backend.{Bytes, Backend}
use coulisse.Storage.Backend.Contract.{Contract}
use coulisse.Storage.Files.{
  delete_found, delete, content_read, get_content, reconcile_rows, reconcile_at_boot,
}
use coulisse.Storage.Files.Soundness.{IsSound, fade-IsSound, shrink-IsSound, delete-Fades}

delete_found-err :
    (b : Backend) (id : String) (e : StorageError) (store : Store b.Blobs)
    → (delete_found b id (err e) store).1 ≡ store
delete_found-err b id (backend m) store = refl
delete_found-err b id (file_too_large l s) store = refl
delete_found-err b id (migrate m) store = refl
delete_found-err b id (not_found m) store = refl
delete_found-err b id (quota_exceeded l s) store = refl
delete_found-err b id (unsupported_content_type m) store = refl

-- A failed read removes the row, or nothing.
content_read-err :
    (b : Backend) (id : String) (meta : FileObject) (e : StorageError) (store : Store b.Blobs)
    → let after = (content_read b id meta (err e) store).1 in
      (after ≡ store) ⊎ (after ≡ record store { index = delete_where (has_id id) store.index })
content_read-err b id meta (backend m) store = inl refl
content_read-err b id meta (file_too_large l s) store = inl refl
content_read-err b id meta (migrate m) store = inl refl
content_read-err b id meta (not_found m) store = inr refl
content_read-err b id meta (quota_exceeded l s) store = inl refl
content_read-err b id meta (unsupported_content_type m) store = inl refl

module _ (b : Backend) (contract : Contract b) (sha256 : Bytes → String) where
  open contract use {holds}

  abbrev Sound : Store b.Blobs → Type 0
  Sound = IsSound b contract sha256

  remove-IsSound :
      (id : String) (store : Store b.Blobs)
      → Sound store
      → Sound (record { blobs = store.blobs; index = delete_where (has_id id) store.index })
  unfolding delete_where
  remove-IsSound id store h = shrink-IsSound b contract sha256 store (λ r. not (has_id id r)) h

  pub delete-IsSound :
      (id : String) (store : Store b.Blobs) → Sound store → Sound (delete b id store).1
  unfolding delete
  delete-IsSound id store h = elim (Result-cases (blob_key_for id store.index)) [
    | inr (e, f) ↦ rw f (subst Sound (sym (delete_found-err b id e store)) h)
    | inl (key, f) ↦
        let faded =
          fade-IsSound b contract sha256 store (b.delete key store.blobs).1
            (delete-Fades b contract sha256 key store.blobs) h in
        rw f elim (Result-cases (b.delete key store.blobs).0) [
          | inl (_, g) ↦
              rw (g, delete_found)
                (remove-IsSound id
                  (record { blobs = (b.delete key store.blobs).1; index = store.index }) faded)
          | inr (_, g) ↦ rw (g, delete_found) faded
        ]
  ]

  pub get_content-IsSound :
      (id : String) (store : Store b.Blobs) → Sound store → Sound (get_content b id store).1
  unfolding get_content
  get_content-IsSound id store h = elim (Result-cases (get_metadata id store.index)) [
    | inr (e, f) ↦ rw (f, get_content) h
    | inl (meta, f) ↦
        rw (f, get_content)
          elim (Result-cases (blob_key_for id store.index)) [
            | inr (e, g) ↦ rw g h
            | inl (key, g) ↦
                let read = record store { blobs = (b.get key store.blobs).1 } in
                let kept =
                  fade-IsSound b contract sha256 store (b.get key store.blobs).1
                    (λ j. inr (contract.get_keeps key j store.blobs)) h in
                rw g elim (Result-cases (b.get key store.blobs).0) [
                  | inl (content, k) ↦ rw k kept
                  | inr (e, k) ↦ rw k elim (content_read-err b id meta e read) [
                    | inl same ↦ subst Sound (sym same) kept
                    | inr gone ↦ subst Sound (sym gone) (remove-IsSound id read kept)
                  ]
                ]
          ]
  ]

  reconcile_rows-IsSound :
      (keys : List String) (rows : List FileRow) (store : Store b.Blobs)
      → Sound store
      → Sound (record { blobs = store.blobs; index = reconcile_rows b keys rows store.index })
  reconcile_rows-IsSound keys [] store h = h
  reconcile_rows-IsSound keys (row ∷ rows) store h =
      elim (Bool-cases (member row.storage_key keys)) [
        | inl e ↦ rw e (reconcile_rows-IsSound keys rows store h)
        | inr e ↦ rw e (
            reconcile_rows-IsSound keys rows
              (record { blobs = store.blobs; index = delete_where (has_id row.id) store.index })
              (remove-IsSound row.id store h))
      ]

  pub reconcile_at_boot-IsSound :
      (store : Store b.Blobs) → Sound store → Sound (reconcile_at_boot b store)
  unfolding reconcile_at_boot
  reconcile_at_boot-IsSound store h =
      let listed = record store { blobs = (b.list_keys store.blobs).1 } in
      let kept =
        fade-IsSound b contract sha256 store (b.list_keys store.blobs).1
          (λ j. inr (contract.list_keeps j store.blobs)) h in
      elim (Result-cases (b.list_keys store.blobs).0) [
        | inr (e, f) ↦ rw (f, reconcile_at_boot) kept
        | inl (keys, f) ↦
            rw (f, reconcile_at_boot)
              elim (Bool-cases (is_nil keys)) [
                | inl g ↦ rw g kept
                | inr g ↦ rw g (reconcile_rows-IsSound keys store.index listed kept)
              ]
      ]

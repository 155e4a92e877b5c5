-- ===== src/Storage/Files.antt =====
-- crates/storage/src/store.rs: `Store` over a blob backend. The `sha2` crate, the `infer` crate,
-- the clock and the identifiers that a call draws are parameters. The statements of the index
-- succeed, and a transaction that is dropped leaves the index as it was and the blobs as they are.
pub mod Rows
pub mod Soundness
pub mod Evictions
pub mod Calls
pub mod Additions
pub mod History
pub mod Uploads
pub mod Quota
pub mod Reconciliation
pub mod Tests
use coulisse.Prelude.{
  ℕ, String, Bool, false, not, Option, none, some, List, [], ◌∷◌, ◌++◌, if◌then◌else◌, ◌==◌,
  string_eq, Result, ok, err, ◌>>◌, length, find, map, member, is_nil, codes, split_on, trim,
}
use coulisse.Prelude.Int.{ℤ, neg_part, pos_part, sub_ℕ}
use coulisse.Core.{u64_to_i64, i64_to_u64}
use coulisse.Sql.{Ordering, delete_where}
use coulisse.Storage.{
  FileRow, Index, FileObject, StorageError, not_found, unsupported_content_type, QuotaConfig, Store,
  check_file_size, into_object, has_id, get_metadata, blob_key_for, evict_for_size,
}
use coulisse.Storage.Mime.{is_allowed, infer_mime}
use coulisse.Storage.Backend.{Bytes, Backend}

pub record Upload : Type 0 where
  pub content : Bytes
  pub content_type : String
  pub filename : String
  pub purpose : String
  pub user_id : String

-- What an upload draws: the key of its blob, the file's identifier and the seconds of the clock.
pub record Draw : Type 0 where
  pub blob_key : String
  pub id : String
  pub now_secs : ℕ

-- `split(';').next()`, trimmed.
abbrev pub declared : String → List ℕ
declared content_type = trim (split_on b';' (codes content_type)).0

abbrev pub require_allowed : List ℕ → Result StorageError (Unit {0})
require_allowed mime_type =
    if not (is_allowed mime_type) then err (unsupported_content_type mime_type) else ok tt

abbrev pub has_sha256 : String → FileRow → Bool
has_sha256 sha256 row = row.sha256 == sha256

abbrev pub as_object : Option FileRow → Option FileObject
as_object none = none
as_object (some row) = some (into_object row)

unfoldable pub find_by_sha256 : String → Index → Option FileObject
find_by_sha256 sha256 index = as_object (find (has_sha256 sha256) index)

-- `ORDER BY created_at DESC`.
abbrev pub newest_first : FileRow → ℤ
newest_first row = sub_ℕ (neg_part row.created_at) (pos_part row.created_at)

unfoldable pub list : Ordering → Index → List FileObject
list o index = map into_object (o.order_by FileRow newest_first index)

module _ (infer : Bytes → Option (List ℕ)) where
  unfoldable pub check_content_type : Upload → Result StorageError (Unit {0})
  check_content_type upload =
      require_allowed (infer_mime infer upload.content)
      >> require_allowed (declared upload.content_type)

-- The row that `upload` inserts, and the object that it returns.
abbrev pub new_row : Draw → String → Upload → FileRow
new_row draw sha256 upload = record {
  bytes = u64_to_i64 (length upload.content);
  content_type = upload.content_type;
  created_at = u64_to_i64 draw.now_secs;
  filename = upload.filename;
  id = draw.id;
  purpose = upload.purpose;
  sha256 = sha256;
  storage_key = draw.blob_key;
  user_id = upload.user_id;
}

abbrev pub new_object : Draw → Upload → FileObject
new_object draw upload = record {
  bytes = length upload.content;
  content_type = upload.content_type;
  created_at = i64_to_u64 (u64_to_i64 draw.now_secs);
  filename = upload.filename;
  id = draw.id;
  object = "file";
  purpose = upload.purpose;
}

module _ (b : Backend) where
  abbrev pub delete_blob : String → b.Blobs → b.Blobs
  delete_blob key blobs = (b.delete key blobs).1

  -- `Store::delete`: the blob first, and the row only where that succeeds.
  abbrev pub delete_found :
      String
      → Result StorageError String
      → Store b.Blobs
      → Result StorageError (Unit {0}) × Store b.Blobs
  delete_found id (err (not_found name)) store = (ok tt, store)
  delete_found id (err e) store = (err e, store)
  delete_found id (ok key) store =
      let gone = b.delete key store.blobs in
      elim gone.0 [
        | ok _ ↦ (ok tt, record { blobs = gone.1; index = delete_where (has_id id) store.index })
        | err e ↦ (err e, record { blobs = gone.1; index = store.index })
      ]

  unfoldable pub delete : String → Store b.Blobs → Result StorageError (Unit {0}) × Store b.Blobs
  delete id store = delete_found id (blob_key_for id store.index) store

  -- `get_content`: a row whose blob is gone is removed.
  abbrev pub content_read :
      String
      → FileObject
      → Result StorageError Bytes
      → Store b.Blobs
      → Result StorageError (FileObject × Bytes) × Store b.Blobs
  content_read id meta (ok content) store = (ok (meta, content), store)
  content_read id meta (err (not_found name)) store =
      (err (not_found id), record store { index = delete_where (has_id id) store.index })
  content_read id meta (err e) store = (err e, store)

  abbrev pub content_found :
      String
      → FileObject
      → Result StorageError String
      → Store b.Blobs
      → Result StorageError (FileObject × Bytes) × Store b.Blobs
  content_found id meta (ok key) store =
      let got = b.get key store.blobs in content_read id meta got.0 (record store { blobs = got.1 })
  content_found id meta (err e) store = (err e, store)

  unfoldable pub get_content :
      String → Store b.Blobs → Result StorageError (FileObject × Bytes) × Store b.Blobs
  get_content id store = elim (get_metadata id store.index) [
    | ok meta ↦ content_found id meta (blob_key_for id store.index) store
    | err e ↦ (err e, store)
  ]

  -- The rows that the loop of `reconcile_at_boot` deletes, in its order.
  abbrev pub reconcile_rows : List String → List FileRow → Index → Index
  reconcile_rows physical_set [] index = index
  reconcile_rows physical_set (row ∷ rows) index = reconcile_rows physical_set rows (
      if not (member row.storage_key physical_set)
      then delete_where (has_id row.id) index
      else index)

  unfoldable pub reconcile_at_boot : Store b.Blobs → Store b.Blobs
  reconcile_at_boot store =
      let listed = b.list_keys store.blobs in
      elim listed.0 [
        | err e ↦ record store { blobs = listed.1 }
        | ok physical_keys ↦
            if is_nil physical_keys then record store { blobs = listed.1 } else record {
              blobs = listed.1;
              index = reconcile_rows physical_keys store.index store.index;
            }
      ]

  module _ (o : Ordering) (quota : QuotaConfig) (sha256 : Bytes → String) where
    -- The commit of the new row, or the rollback where the eviction failed.
    abbrev pub insert_row :
        Draw
        → Upload
        → Result StorageError (Unit {0})
        → Store b.Blobs
        → Index
        → Result StorageError FileObject × Store b.Blobs
    insert_row draw upload (ok _) evicted before = (
      ok (new_object draw upload),
      record evicted { index = evicted.index ++ new_row draw (sha256 upload.content) upload ∷ [] },
    )
    insert_row draw upload (err e) evicted before = (err e, record evicted { index = before })

    -- The transaction of `upload`, with the blob written.
    abbrev pub index_file :
        Draw
        → Upload
        → Option FileObject
        → Store b.Blobs
        → Result StorageError FileObject × Store b.Blobs
    index_file draw upload (some existing) store =
        let gone = b.delete draw.blob_key store.blobs in
        elim gone.0 [
          | ok _ ↦ (ok existing, record store { blobs = gone.1 })
          | err e ↦ (err e, record store { blobs = gone.1 })
        ]
    index_file draw upload none store =
        let evicted = evict_for_size delete_blob o quota (length upload.content) store in
        insert_row draw upload evicted.0 evicted.1 store.index

    abbrev pub put_file :
        Draw → Upload → Store b.Blobs → Result StorageError FileObject × Store b.Blobs
    put_file draw upload store =
        let put = b.put draw.blob_key upload.content store.blobs in
        elim put.0 [
          | ok _ ↦
              index_file draw upload (find_by_sha256 (sha256 upload.content) store.index)
                (record store { blobs = put.1 })
          | err e ↦ (err e, record store { blobs = put.1 })
        ]

    unfoldable pub upload :
        (Bytes → Option (List ℕ))
        → Draw
        → Upload
        → Store b.Blobs
        → Result StorageError FileObject × Store b.Blobs
    upload infer draw up store =
        elim (check_content_type infer up >> check_file_size quota (length up.content)) [
          | ok _ ↦ put_file draw up store
          | err e ↦ (err e, store)
        ]

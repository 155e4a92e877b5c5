-- ===== src/Storage.antt =====
-- crates/storage/src/store.rs and crates/storage/src/config.rs: the index of stored files, its
-- quotas and the eviction of the oldest files. The blobs are a state of the caller's, of which an
-- eviction uses the deletion, whose failure it ignores. A row's size is not negative, since it is the
-- length of an upload; a negative one would count as 0 here. Sizes are summed without the wrap-around
-- of 64 bits, which no store of files reaches.
pub mod Mime
pub mod Backend
pub mod Files
pub mod Eviction
pub mod Tests
use coulisse.Prelude.{
  ℕ, ◌+◌, ◌-◌, String, Bool, Option, none, some, List, [], ◌∷◌, map, if◌then◌else◌, ltb, leb, ◌==◌,
  string_eq, Result, ok, err, ◌>>=◌, ok_or, find,
}
use coulisse.Prelude.Int.{ℤ, pos, negsuc, pos_part}
use coulisse.Core.{i64_to_u64}
use coulisse.Sql.{Ordering, first, delete_where}

-- A row of `storage_files`.
pub record FileRow : Type 0 where
  pub bytes : ℤ
  pub content_type : String
  pub created_at : ℤ
  pub filename : String
  pub id : String
  pub purpose : String
  pub sha256 : String
  pub storage_key : String
  pub user_id : String

abbrev pub Index : Type 0
Index = List FileRow

pub record FileObject : Type 0 where
  pub bytes : ℕ
  pub content_type : String
  pub created_at : ℕ
  pub filename : String
  pub id : String
  pub object : String
  pub purpose : String

-- The errors that carry one of the database library are left out.
pub data StorageError : Type 0 where
  backend : String → StorageError
  file_too_large : (limit size : ℕ) → StorageError
  migrate : String → StorageError
  not_found : String → StorageError
  quota_exceeded : (limit stored : ℕ) → StorageError
  unsupported_content_type : List ℕ → StorageError

pub record QuotaConfig : Type 0 where
  pub max_file_bytes : Option ℕ
  pub max_total_bytes : Option ℕ

abbrev pub check_limit : Option ℕ → ℕ → Result StorageError (Unit {0})
check_limit none size = ok tt
check_limit (some limit) size = if ltb limit size then err (file_too_large limit size) else ok tt

unfoldable pub check_file_size : QuotaConfig → ℕ → Result StorageError (Unit {0})
check_file_size quota size = check_limit quota.max_file_bytes size

unfoldable pub into_object : FileRow → FileObject
into_object row = record {
  bytes = i64_to_u64 row.bytes;
  content_type = row.content_type;
  created_at = i64_to_u64 row.created_at;
  filename = row.filename;
  id = row.id;
  object = "file";
  purpose = row.purpose;
}

abbrev pub has_id : String → FileRow → Bool
has_id id row = row.id == id

abbrev pub get_row : String → Index → Result StorageError FileRow
get_row id index = ok_or (find (has_id id) index) (not_found id)

unfoldable pub get_metadata : String → Index → Result StorageError FileObject
get_metadata id index = get_row id index >>= λ row. ok (into_object row)

unfoldable pub blob_key_for : String → Index → Result StorageError String
blob_key_for id index = get_row id index >>= λ row. ok row.storage_key

-- `SUM(bytes)`, where a negative size counts as none.
abbrev pub stored_bytes : Index → ℕ
stored_bytes [] = 0
stored_bytes (row ∷ index) = pos_part row.bytes + stored_bytes index

pub record Store (Blobs : Type 0) : Type 0 where
  pub blobs : Blobs
  pub index : Index

module _ {Blobs : Type 0} (delete_blob : String → Blobs → Blobs) where
  abbrev pub evict : FileRow → String → Store Blobs → Store Blobs
  evict row key store = record {
    blobs = delete_blob key store.blobs;
    index = delete_where (has_id row.id) store.index;
  }

  -- The loop of `evict_for_size` over the rows from the oldest on.
  unfoldable pub evict_rows :
      List FileRow → ℕ → ℕ → Store Blobs → Result StorageError (Unit {0}) × Store Blobs
  evict_rows [] needed freed store = (ok tt, store)
  evict_rows (row ∷ rows) needed freed store =
      if leb needed freed then (ok tt, store) else elim (blob_key_for row.id store.index) [
        | ok key ↦ evict_rows rows needed (freed + pos_part row.bytes) (evict row key store)
        | err e ↦ (err e, store)
      ]

  module _ (o : Ordering) where
    unfoldable pub evict_within : ℕ → ℕ → Store Blobs → Result StorageError (Unit {0}) × Store Blobs
    evict_within max_total incoming store =
        if leb (stored_bytes store.index + incoming) max_total
        then (ok tt, store)
        else evict_rows (o.order_by FileRow (λ r. r.created_at) store.index)
            (stored_bytes store.index + incoming - max_total) 0 store

    unfoldable pub evict_for_size :
        QuotaConfig → ℕ → Store Blobs → Result StorageError (Unit {0}) × Store Blobs
    evict_for_size quota incoming store = elim quota.max_total_bytes [
      | none ↦ (ok tt, store)
      | some max_total ↦ evict_within max_total incoming store
    ]

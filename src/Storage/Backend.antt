-- ===== src/Storage/Backend.antt =====
-- crates/storage/src/backend.rs: what the store asks of a blob backend, and the backend on the
-- file system. The calls of the file system are a parameter; a path under the root stands for
-- its last part, the blob's key. An error keeps the message of the system, less the path and the
-- verb that the code puts before it.
pub mod Contract
pub mod Shelf
use coulisse.Prelude.{
  ℕ, String, ◌≡◌, ◌≢◌, Bool, Option, none, some, List, [], ◌∷◌, ◌++◌, Result, ok, err,
}
use coulisse.Storage.{StorageError, backend, not_found}

abbrev pub Bytes : Type 0
Bytes = List ℕ

-- The trait `Backend`; each call returns its result with the blobs as it leaves them.
pub record Backend : Type 1 where
  pub Blobs : Type 0
  pub delete : String → Blobs → Result StorageError (Unit {0}) × Blobs
  pub get : String → Blobs → Result StorageError Bytes × Blobs
  pub list_keys : Blobs → Result StorageError (List String) × Blobs
  pub put : String → Bytes → Blobs → Result StorageError (Unit {0}) × Blobs

pub data IoError : Type 0 where
  missing : IoError
  other : String → IoError

-- The calls of `tokio::fs` in one directory. `read_dir` lists a name that is not Unicode as
-- `none`.
pub record FileSystem : Type 1 where
  pub Disk : Type 0
  pub create : String → Disk → Result IoError (Unit {0}) × Disk
  pub write_all : String → Bytes → Disk → Result IoError (Unit {0}) × Disk
  pub flush : String → Disk → Result IoError (Unit {0}) × Disk
  pub read : String → Disk → Result IoError Bytes × Disk
  pub remove_file : String → Disk → Result IoError (Unit {0}) × Disk
  pub read_dir : Disk → Result IoError (List (Option String)) × Disk

abbrev pub backend_error : IoError → StorageError
backend_error missing = backend "entity not found"
backend_error (other message) = backend message

-- `match remove_file`: a file that is missing is no error.
abbrev pub forgive_missing : Result IoError (Unit {0}) → Result StorageError (Unit {0})
forgive_missing (ok _) = ok tt
forgive_missing (err missing) = ok tt
forgive_missing (err (other message)) = err (backend message)

-- `map_err` of a read: a file that is missing is the blob's absence.
abbrev pub as_not_found : String → Result IoError Bytes → Result StorageError Bytes
as_not_found key (ok content) = ok content
as_not_found key (err missing) = err (not_found key)
as_not_found key (err (other message)) = err (backend message)

-- `file_name().to_str()` of each entry, where it is text.
abbrev pub text_names : List (Option String) → List String
text_names [] = []
text_names (none ∷ entries) = text_names entries
text_names (some name ∷ entries) = name ∷ text_names entries

abbrev pub as_keys : Result IoError (List (Option String)) → Result StorageError (List String)
as_keys (ok entries) = ok (text_names entries)
as_keys (err e) = err (backend_error e)

-- The next call, unless the last one failed.
abbrev pub and_then :
    {D : Type 0}
    → Result IoError (Unit {0}) × D
    → (D → Result StorageError (Unit {0}) × D)
    → Result StorageError (Unit {0}) × D
and_then (ok _, disk) next = next disk
and_then (err e, disk) next = (err (backend_error e), disk)

module _ (fs : FileSystem) where
  unfoldable pub fs_put : String → Bytes → fs.Disk → Result StorageError (Unit {0}) × fs.Disk
  fs_put key content disk = and_then (fs.create key disk) λ created.
      and_then (fs.write_all key content created)
        λ written. and_then (fs.flush key written) λ flushed. (ok tt, flushed)

  -- `FsBackend`.
  abbrev pub fs_backend : Backend
  fs_backend = record {
    Blobs = fs.Disk;
    delete = λ key disk. let r = fs.remove_file key disk in (forgive_missing r.0, r.1);
    get = λ key disk. let r = fs.read key disk in (as_not_found key r.0, r.1);
    list_keys = λ disk. let r = fs.read_dir disk in (as_keys r.0, r.1);
    put = fs_put;
  }

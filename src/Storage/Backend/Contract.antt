-- ===== src/Storage/Backend/Contract.antt =====
-- What the store relies on in a blob backend, what the file system promises, and the backend of
-- crates/storage/src/backend.rs between the two.
use coulisse.Prelude.{
  String, ◌≡◌, ◌≢◌, ◌↔◌, ◌⊎◌, inl, inr, refl, ap, ◌∙◌, true, Option, none, some, List, [], ◌++◌,
  Result, ok, err, member, string_eq, arith,
}
use coulisse.Storage.{StorageError, not_found}
use coulisse.Storage.Backend.{
  Bytes, Backend, FileSystem, IoError, missing, other, text_names, as_keys, forgive_missing,
  as_not_found, and_then, fs_put, fs_backend,
}

-- `holds` is what each key names. A failed `put` may leave anything under its own key, and an
-- enumeration is of all the keys or, where the backend cannot enumerate, of none.
pub record Contract (b : Backend) : Type 0 where
  pub holds : b.Blobs → String → Option Bytes
  pub put_stores :
      (key : String) (content : Bytes) (s : b.Blobs)
      → (b.put key content s).0 ≡ ok tt
      → holds (b.put key content s).1 key ≡ some content
  pub put_spares :
      (key j : String) (content : Bytes) (s : b.Blobs)
      → key ≢ j
      → holds (b.put key content s).1 j ≡ holds s j
  pub delete_removes :
      (key : String) (s : b.Blobs)
      → (b.delete key s).0 ≡ ok tt
      → holds (b.delete key s).1 key ≡ none
  pub delete_leaves :
      (key : String) (s : b.Blobs)
      → (holds (b.delete key s).1 key ≡ none) ⊎ (holds (b.delete key s).1 key ≡ holds s key)
  pub delete_spares :
      (key j : String) (s : b.Blobs) → key ≢ j → holds (b.delete key s).1 j ≡ holds s j
  pub get_keeps : (key j : String) (s : b.Blobs) → holds (b.get key s).1 j ≡ holds s j
  pub get_reads :
      (key : String) (s : b.Blobs) {content : Bytes}
      → (b.get key s).0 ≡ ok content
      → holds s key ≡ some content
  pub get_misses :
      (key : String) (s : b.Blobs) {name : String}
      → (b.get key s).0 ≡ err (not_found name)
      → holds s key ≡ none
  pub list_keeps : (j : String) (s : b.Blobs) → holds (b.list_keys s).1 j ≡ holds s j
  pub list_names :
      (s : b.Blobs) {keys : List String}
      → (b.list_keys s).0 ≡ ok keys
      → (keys ≡ []) ⊎ ((j : String) → (member j keys ≡ true) ↔ (holds s j ≢ none))

-- The contract, with what the comments on `BlobBackend` say of a missing key: its deletion is no
-- error, and a read says that it is missing. A read of a key that is there does not say so.
pub record Promise (b : Backend) : Type 0 where
  pub contract : Contract b
  pub delete_missing :
      (key : String) (s : b.Blobs) → contract.holds s key ≡ none → (b.delete key s).0 ≡ ok tt
  pub get_missing :
      (key : String) (s : b.Blobs)
      → contract.holds s key ≡ none
      → (b.get key s).0 ≡ err (not_found key)

-- The documented behaviour of the calls: `contents` is what a file reads as once its buffers are
-- flushed.
pub record Documented (fs : FileSystem) : Type 0 where
  pub contents : fs.Disk → String → Option Bytes
  pub create_empties :
      (key : String) (d : fs.Disk)
      → (fs.create key d).0 ≡ ok tt
      → contents (fs.create key d).1 key ≡ some []
  pub create_spares :
      (key j : String) (d : fs.Disk) → key ≢ j → contents (fs.create key d).1 j ≡ contents d j
  pub write_appends :
      (key : String) (content : Bytes) (d : fs.Disk) {old : Bytes}
      → contents d key ≡ some old
      → (fs.write_all key content d).0 ≡ ok tt
      → contents (fs.write_all key content d).1 key ≡ some (old ++ content)
  pub write_spares :
      (key j : String) (content : Bytes) (d : fs.Disk)
      → key ≢ j
      → contents (fs.write_all key content d).1 j ≡ contents d j
  pub flush_keeps :
      (key : String) (d : fs.Disk)
      → (fs.flush key d).0 ≡ ok tt
      → contents (fs.flush key d).1 key ≡ contents d key
  pub flush_spares :
      (key j : String) (d : fs.Disk) → key ≢ j → contents (fs.flush key d).1 j ≡ contents d j
  pub read_keeps : (key j : String) (d : fs.Disk) → contents (fs.read key d).1 j ≡ contents d j
  pub read_reads :
      (key : String) (d : fs.Disk) {content : Bytes}
      → (fs.read key d).0 ≡ ok content
      → contents d key ≡ some content
  pub read_misses :
      (key : String) (d : fs.Disk) → (fs.read key d).0 ≡ err missing → contents d key ≡ none
  pub read_missing :
      (key : String) (d : fs.Disk) → contents d key ≡ none → (fs.read key d).0 ≡ err missing
  pub remove_missing :
      (key : String) (d : fs.Disk) → contents d key ≡ none → (fs.remove_file key d).0 ≡ err missing
  pub remove_removes :
      (key : String) (d : fs.Disk)
      → ((fs.remove_file key d).0 ≡ ok tt) ⊎ ((fs.remove_file key d).0 ≡ err missing)
      → contents (fs.remove_file key d).1 key ≡ none
  pub remove_leaves :
      (key : String) (d : fs.Disk)
      → (contents (fs.remove_file key d).1 key ≡ none)
        ⊎ (contents (fs.remove_file key d).1 key ≡ contents d key)
  pub remove_spares :
      (key j : String) (d : fs.Disk) → key ≢ j → contents (fs.remove_file key d).1 j ≡ contents d j
  pub list_keeps : (j : String) (d : fs.Disk) → contents (fs.read_dir d).1 j ≡ contents d j
  pub list_names :
      (d : fs.Disk) {entries : List (Option String)}
      → (fs.read_dir d).0 ≡ ok entries
      → (j : String) → (member j (text_names entries) ≡ true) ↔ (contents d j ≢ none)

forgive_missing-ok :
    (r : Result IoError (Unit {0})) → forgive_missing r ≡ ok tt → (r ≡ ok tt) ⊎ (r ≡ err missing)
forgive_missing-ok (ok tt) h = inl refl
forgive_missing-ok (err missing) h = inr refl
forgive_missing-ok (err (other m)) h = cc

as_not_found-ok :
    (key : String) (r : Result IoError Bytes) {content : Bytes}
    → as_not_found key r ≡ ok content
    → r ≡ ok content
as_not_found-ok key (ok c) h = ground arith
as_not_found-ok key (err missing) h = cc
as_not_found-ok key (err (other m)) h = cc

as_not_found-missing :
    (key : String) (r : Result IoError Bytes) {name : String}
    → as_not_found key r ≡ err (not_found name)
    → r ≡ err missing
as_not_found-missing key (ok c) h = cc
as_not_found-missing key (err missing) h = refl
as_not_found-missing key (err (other m)) h = ground arith

as_keys-ok :
    (r : Result IoError (List (Option String))) {keys : List String}
    → as_keys r ≡ ok keys
    → (entries : List (Option String)) × (r ≡ ok entries) × (text_names entries ≡ keys)
as_keys-ok (ok entries) h = (entries, refl, ground arith)
as_keys-ok (err e) h = cc

-- What `and_then` ends in, where every call keeps a predicate of the disk.
and_then-keeps :
    {D : Type 0} (P : D → Type 0) (first : Result IoError (Unit {0}) × D)
    (next : D → Result StorageError (Unit {0}) × D)
    → P first.1
    → ((d : D) → P d → P (next d).1)
    → P (and_then first next).1
and_then-keeps P (ok _, d) next p keep = keep d p
and_then-keeps P (err e, d) next p keep = p

-- A chain that succeeds is two calls that do.
and_then-ok :
    {D : Type 0} (first : Result IoError (Unit {0}) × D)
    (next : D → Result StorageError (Unit {0}) × D)
    → (and_then first next).0 ≡ ok tt
    → (first.0 ≡ ok tt) × ((next first.1).0 ≡ ok tt) × ((and_then first next).1 ≡ (next first.1).1)
and_then-ok (ok tt, d) next h = (refl, h, refl)
and_then-ok (err e, d) next h = cc

module _ (fs : FileSystem) (documented : Documented fs) where
  open documented use {contents}

  put_spares :
      (key j : String) (content : Bytes) (d : fs.Disk)
      → key ≢ j
      → contents (fs_put fs key content d).1 j ≡ contents d j
  unfolding fs_put
  put_spares key j content d n =
      let P : fs.Disk → Type 0 = λ after. contents after j ≡ contents d j in
      and_then-keeps P (fs.create key d) _ (documented.create_spares key j d n) λ d1 p1.
        and_then-keeps P (fs.write_all key content d1) _
          (documented.write_spares key j content d1 n ∙ p1)
          λ d2 p2.
            and_then-keeps P (fs.flush key d2) _ (documented.flush_spares key j d2 n ∙ p2)
              λ d3 p3. p3

  put_iff :
      (key : String) (content : Bytes) (d : fs.Disk)
      → let created = fs.create key d in
        let written = fs.write_all key content created.1 in
        ((fs_put fs key content d).0 ≡ ok tt)
        ↔ ((created.0 ≡ ok tt) × (written.0 ≡ ok tt) × ((fs.flush key written.1).0 ≡ ok tt))
  unfolding fs_put
  put_iff key content d = (
    λ h.
        let created = and_then-ok (fs.create key d) _ h in
        let written = and_then-ok (fs.write_all key content (fs.create key d).1) _ created.1 in
        let flushed =
          and_then-ok (fs.flush key (fs.write_all key content (fs.create key d).1).1)
            (λ after. (ok tt, after)) written.1 in
        (created.0, written.0, flushed.0),
    λ h. rw (h.0, h.1, h.2) refl,
  )

  put_stores :
      (key : String) (content : Bytes) (d : fs.Disk)
      → (fs_put fs key content d).0 ≡ ok tt
      → contents (fs_put fs key content d).1 key ≡ some content
  unfolding fs_put
  put_stores key content d h =
      let created = and_then-ok (fs.create key d) _ h in
      let written = and_then-ok (fs.write_all key content (fs.create key d).1) _ created.1 in
      let flushed =
        and_then-ok (fs.flush key (fs.write_all key content (fs.create key d).1).1)
          (λ after. (ok tt, after)) written.1 in
      rw (created.2, written.2, flushed.2)
        (documented.flush_keeps key _ flushed.0
          ∙ documented.write_appends key content _ (documented.create_empties key d created.0)
              written.0)

  pub fs_backend-Promise :
      Promise (fs_backend fs)
      × ((key : String) (content : Bytes) (d : fs.Disk)
          → let created = fs.create key d in
            let written = fs.write_all key content created.1 in
            (((fs_backend fs).put key content d).0 ≡ ok tt)
            ↔ ((created.0 ≡ ok tt) × (written.0 ≡ ok tt) × ((fs.flush key written.1).0 ≡ ok tt)))
  fs_backend-Promise = (
    record {
      contract = record {
        holds = contents;
        put_stores = put_stores;
        put_spares = put_spares;
        delete_removes = λ key d h.
            documented.remove_removes key d (forgive_missing-ok (fs.remove_file key d).0 h);
        delete_leaves = documented.remove_leaves;
        delete_spares = documented.remove_spares;
        get_keeps = documented.read_keeps;
        get_reads = λ key d {content} h.
            documented.read_reads key d (as_not_found-ok key (fs.read key d).0 h);
        get_misses = λ key d {name} h.
            documented.read_misses key d (as_not_found-missing key (fs.read key d).0 h);
        list_keeps = documented.list_keeps;
        list_names = λ d {keys} h.
            let (entries, e, names) = as_keys-ok (fs.read_dir d).0 h in
            inr (rw (← names) (documented.list_names d e));
      };
      delete_missing =
          λ key d none_there. ap forgive_missing (documented.remove_missing key d none_there);
      get_missing =
          λ key d none_there. ap (as_not_found key) (documented.read_missing key d none_there);
    },
    put_iff,
  )

  -- The contract alone.
  pub fs_backend-Contract : Contract (fs_backend fs)
  fs_backend-Contract = fs_backend-Promise.0.contract

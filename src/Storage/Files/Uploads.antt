-- ===== src/Storage/Files/Uploads.antt =====
-- What an upload of crates/storage/src/store.rs leaves for the reads after it.
use coulisse.Prelude.{
  ℕ, ◌≤◌, String, ◌≡◌, ◌≢◌, ◌⊎◌, inl, inr, refl, sym, ap, subst, ◌∙◌, Option, none, some, List, [],
  ◌∷◌, ◌++◌, ok, err, ◌>>◌, Result-cases, Option-cases, ==_refl, string_eq, length, find, All,
  arith,
}
use coulisse.Core.{i64_max, u64_to_i64, i64_to_u64, i64_to_u64-u64_to_i64}
use coulisse.Sql.{Ordering}
use coulisse.Storage.{
  FileRow, Index, FileObject, StorageError, backend, file_too_large, migrate, not_found,
  quota_exceeded, unsupported_content_type, QuotaConfig, Store, into_object, has_id, blob_key_for,
  get_metadata, evict_for_size, check_file_size,
}
use coulisse.Storage.Eviction.{IsKeyed, evict_within_fits}
use coulisse.Storage.Backend.{Bytes, Backend}
use coulisse.Storage.Backend.Contract.{Contract}
use coulisse.Storage.Files.{
  Upload, Draw, find_by_sha256, check_content_type, new_row, new_object, delete_blob, content_read,
  get_content, insert_row, index_file, put_file, upload,
}
use coulisse.Storage.Files.Rows.{ne_test}
use coulisse.Storage.Files.Evictions.{evict_for_size-All, evict_for_size-spares}
use coulisse.Storage.Files.Additions.{IsFresh}

find_last :
    (rows : Index) (new : FileRow)
    → All (λ row. row.id ≢ new.id) rows
    → find (has_id new.id) (rows ++ new ∷ []) ≡ some new
find_last [] new f = rw (==_refl new.id) refl
find_last (row ∷ rows) new f = rw (ne_test row.id new.id f.0) (find_last rows new f.1)

into_object-new_row :
    (draw : Draw) (sha256 : String) (up : Upload)
    → length up.content ≤ i64_max
    → into_object (new_row draw sha256 up) ≡ new_object draw up
unfolding into_object
into_object-new_row draw sha256 up h =
    let e : i64_to_u64 (u64_to_i64 (length up.content)) ≡ length up.content =
      i64_to_u64-u64_to_i64 (length up.content) ∙ omega arith in
    rw e refl

-- A failed read other than "not found" is passed on.
content_read-other :
    (b : Backend) (id : String) (meta : FileObject) (e : StorageError) (store : Store b.Blobs)
    → ((name : String) → e ≢ not_found name)
    → (content_read b id meta (err e) store).0 ≡ err e
content_read-other b id meta (backend m) store n = refl
content_read-other b id meta (file_too_large l s) store n = refl
content_read-other b id meta (migrate m) store n = refl
content_read-other b id meta (not_found m) store n = absurd (n m refl)
content_read-other b id meta (quota_exceeded l s) store n = refl
content_read-other b id meta (unsupported_content_type m) store n = refl

module _ (b : Backend) (contract : Contract b) (o : Ordering) (quota : QuotaConfig)
    (sha256 : Bytes → String) where
  -- What a successful upload of new content leaves: its blob, and its row behind rows with other
  -- identifiers.
  record Stored (draw : Draw) (up : Upload) (object : FileObject) (after : Store b.Blobs)
      : Type 0 where
    returned : object ≡ new_object draw up
    kept : Index
    others : All (λ row. row.id ≢ draw.id) kept
    index : after.index ≡ kept ++ new_row draw (sha256 up.content) up ∷ []
    blob : contract.holds after.blobs draw.blob_key ≡ some up.content

  put_file-Stored :
      (draw : Draw) (up : Upload) (store after : Store b.Blobs) (object : FileObject)
      → IsFresh draw store.index
      → find_by_sha256 (sha256 up.content) store.index ≡ none
      → put_file b o quota sha256 draw up store ≡ (ok object, after)
      → Stored draw up object after
  put_file-Stored draw up store after object fresh new h =
      let size = length up.content in
      let put = b.put draw.blob_key up.content store.blobs in
      let written = record store { blobs = put.1 } in
      let evicted = evict_for_size (delete_blob b) o quota size written in
      elim (Result-cases (b.put draw.blob_key up.content store.blobs).0) [
        | inr (e, f) ↦ absurd (cc (ap (λ r. r.0) (rw (f, put_file) at h)))
        | inl (u, f) ↦
            let stored = rw (new, index_file) at (rw (f, put_file) at h) in
            elim (Result-cases evicted.0) [
              | inr (e, k) ↦ absurd (cc (ap (λ r. r.0) (rw (k, insert_row) at stored)))
              | inl (v, k) ↦
                  let done = rw (k, insert_row) at stored in
                  record {
                    returned = ground (arith, ap (λ r. r.0) done);
                    kept = evicted.1.index;
                    others =
                        evict_for_size-All b o quota size (λ row. row.id ≢ draw.id) written fresh.1;
                    index = sym (ap (λ r. r.1.index) done);
                    blob =
                        ap (λ s. contract.holds s draw.blob_key) (sym (ap (λ r. r.1.blobs) done))
                        ∙ evict_for_size-spares b o quota size contract sha256 draw.blob_key written
                            fresh.0
                        ∙ contract.put_stores draw.blob_key up.content store.blobs f;
                  }
            ]
      ]

  get_content-Stored :
      (draw : Draw) (up : Upload) (object : FileObject) (after : Store b.Blobs)
      → length up.content ≤ i64_max
      → Stored draw up object after
      → (get_metadata draw.id after.index ≡ ok object)
        × (blob_key_for draw.id after.index ≡ ok draw.blob_key)
  unfolding get_metadata blob_key_for
  get_content-Stored draw up object after small s =
      let row = new_row draw (sha256 up.content) up in
      let found : find (has_id draw.id) after.index ≡ some row =
        ap (λ rows. find (has_id draw.id) rows) s.index ∙ find_last s.kept row s.others in
      (
        rw found (ap ok (into_object-new_row draw (sha256 up.content) up small ∙ sym s.returned)),
        rw found refl,
      )

  -- A read of the file, or the failure of the backend that it passes on.
  abbrev Reads : Draw → Upload → FileObject → Store b.Blobs → String → Type 0
  Reads draw up object after id =
      ((get_content b id after).0 ≡ ok (object, up.content))
      ⊎ ((e : StorageError) × ((get_content b id after).0 ≡ err e)
          × ((b.get draw.blob_key after.blobs).0 ≡ err e)
          × ((name : String) → e ≢ not_found name))

  Stored-Reads :
      (draw : Draw) (up : Upload) (object : FileObject) (after : Store b.Blobs)
      → length up.content ≤ i64_max
      → Stored draw up object after
      → Reads draw up object after draw.id
  unfolding get_content
  Stored-Reads draw up object after small s =
      let (meta, key) = get_content-Stored draw up object after small s in
      elim (Result-cases (b.get draw.blob_key after.blobs).0) [
        | inl (content, g) ↦ inl (
            rw (get_content, meta, key, g)
              (ap (λ c. ok (object, c))
                (ground (arith, contract.get_reads draw.blob_key after.blobs g, s.blob))))
        | inr (e, g) ↦
            let other = missed g in
            inr (
              e,
              rw (get_content, meta, key, g) (content_read-other b draw.id object e _ other),
              g,
              other,
            )
      ]
    where
      missed :
          {e : StorageError}
          → (b.get draw.blob_key after.blobs).0 ≡ err e
          → (name : String) → e ≢ not_found name
      missed g name same =
          absurd (cc (s.blob, contract.get_misses draw.blob_key after.blobs (g ∙ ap err same)))

  -- After a successful upload of content that the index does not have yet, of at most i64::MAX
  -- bytes and with a fresh key and identifier, a read of the file returns the object that the
  -- upload returned with the uploaded bytes, or an error of the backend's that is not "not found".
  get_content-uploaded :
      (infer : Bytes → Option (List ℕ)) (draw : Draw) (up : Upload) (store after : Store b.Blobs)
      (object : FileObject)
      → IsFresh draw store.index
      → length up.content ≤ i64_max
      → find_by_sha256 (sha256 up.content) store.index ≡ none
      → upload b o quota sha256 infer draw up store ≡ (ok object, after)
      → ((get_content b object.id after).0 ≡ ok (object, up.content))
        ⊎ ((e : StorageError) × ((get_content b object.id after).0 ≡ err e)
            × ((b.get draw.blob_key after.blobs).0 ≡ err e)
            × ((name : String) → e ≢ not_found name))
  unfolding upload
  get_content-uploaded infer draw up store after object fresh small new h =
      elim (Result-cases
        (check_content_type infer up >> check_file_size quota (length up.content))) [
          | inr (e, f) ↦ absurd (cc (ap (λ r. r.0) (rw (f, upload) at h)))
          | inl (_, f) ↦
              let s = put_file-Stored draw up store after object fresh new (rw (f, upload) at h) in
              subst (Reads draw up object after) (sym (ap (λ q. q.id) s.returned))
                (Stored-Reads draw up object after small s)
        ]

  -- An upload that passes the checks is not turned away by the eviction.
  upload_accepts :
      (infer : Bytes → Option (List ℕ)) (draw : Draw) (up : Upload) (store : Store b.Blobs)
      → IsKeyed store.index
      → (check_content_type infer up >> check_file_size quota (length up.content)) ≡ ok tt
      → (b.put draw.blob_key up.content store.blobs).0 ≡ ok tt
      → find_by_sha256 (sha256 up.content) store.index ≡ none
      → (upload b o quota sha256 infer draw up store).0 ≡ ok (new_object draw up)
  unfolding upload evict_for_size
  upload_accepts infer draw up store k passed put new =
      let written = record store { blobs = (b.put draw.blob_key up.content store.blobs).1 } in
      rw (passed, upload) rw (put, put_file) rw (new, index_file)
        elim (Option-cases quota.max_total_bytes) [
          | inl none_set ↦ rw (none_set, insert_row) refl
          | inr (max_total, set) ↦
              let size = length up.content in
              let evicted = evict_within_fits (delete_blob b) o max_total size written k in
              rw (set, insert_row) rw (evicted.1, insert_row) refl
        ]

  -- When no two rows have one identifier, an upload of at most i64::MAX bytes with a fresh key and
  -- identifier, which passes the checks, which the backend takes and whose digest the index lacks,
  -- succeeds, and a read of the file returns the object that the upload returned with the uploaded
  -- bytes, or an error of the backend's that is not "not found".
  pub get_content-upload :
      (infer : Bytes → Option (List ℕ)) (draw : Draw) (up : Upload) (store : Store b.Blobs)
      → IsKeyed store.index
      → IsFresh draw store.index
      → length up.content ≤ i64_max
      → (check_content_type infer up >> check_file_size quota (length up.content)) ≡ ok tt
      → (b.put draw.blob_key up.content store.blobs).0 ≡ ok tt
      → find_by_sha256 (sha256 up.content) store.index ≡ none
      → let (result, after) = upload b o quota sha256 infer draw up store in
        (result ≡ ok (new_object draw up))
        × (((get_content b draw.id after).0 ≡ ok (new_object draw up, up.content))
            ⊎ ((e : StorageError) × ((get_content b draw.id after).0 ≡ err e)
                × ((b.get draw.blob_key after.blobs).0 ≡ err e)
                × ((name : String) → e ≢ not_found name)))
  get_content-upload infer draw up store k fresh small passed put new =
      let after = (upload b o quota sha256 infer draw up store).1 in
      let accepted = upload_accepts infer draw up store k passed put new in
      (
        accepted,
        get_content-uploaded infer draw up store after (new_object draw up) fresh small new
            (ap (λ r. (r, after)) accepted),
      )

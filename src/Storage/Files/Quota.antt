-- ===== src/Storage/Files/Quota.antt =====
-- The quota on the total that an upload of crates/storage/src/store.rs keeps.
use coulisse.Prelude.{
  ℕ, ◌+◌, ◌≤◌, String, ◌≡◌, inl, inr, Option, some, List, [], ◌∷◌, ◌++◌, ◌>>◌, Result-cases,
  Option-cases, length, arith,
}
use coulisse.Prelude.Int.{pos_part}
use coulisse.Core.{u64_to_i64}
use coulisse.Sql.{Ordering}
use coulisse.Storage.{
  FileRow, Index, QuotaConfig, Store, stored_bytes, evict_for_size, check_file_size,
}
use coulisse.Storage.Eviction.{IsKeyed, evict_within_fits}
use coulisse.Storage.Backend.{Bytes, Backend}
use coulisse.Storage.Files.{
  Upload, Draw, find_by_sha256, check_content_type, delete_blob, index_file, put_file, upload,
}

stored_bytes-append_one :
    (rows : Index) (new : FileRow)
    → stored_bytes (rows ++ new ∷ []) ≡ stored_bytes rows + pos_part new.bytes
stored_bytes-append_one [] new = omega arith
stored_bytes-append_one (row ∷ rows) new = omega (arith, stored_bytes-append_one rows new)

u64_to_i64-le : (n : ℕ) → pos_part (u64_to_i64 n) ≤ n
unfolding u64_to_i64
u64_to_i64-le n = ground arith

module _ (b : Backend) (o : Ordering) (quota : QuotaConfig) (sha256 : Bytes → String) where
  put_file-fits :
      (max_total : ℕ) (draw : Draw) (up : Upload) (store : Store b.Blobs)
      → quota.max_total_bytes ≡ some max_total
      → IsKeyed store.index
      → stored_bytes store.index ≤ max_total
      → length up.content ≤ max_total
      → stored_bytes (put_file b o quota sha256 draw up store).1.index ≤ max_total
  unfolding evict_for_size
  put_file-fits max_total draw up store set k within small =
      let size = length up.content in
      let put = b.put draw.blob_key up.content store.blobs in
      let written = record store { blobs = put.1 } in
      elim (Result-cases (b.put draw.blob_key up.content store.blobs).0) [
        | inr (e, f) ↦ rw (f, put_file) within
        | inl (u, f) ↦
            rw (f, put_file)
              elim (Option-cases (find_by_sha256 (sha256 up.content) store.index)) [
                | inr (existing, g) ↦ rw g elim (Result-cases (b.delete draw.blob_key put.1).0) [
                  | inl (_, h) ↦ rw (h, index_file) within
                  | inr (_, h) ↦ rw (h, index_file) within
                ]
                | inl g ↦
                    let (after, evicted, fits) =
                      evict_within_fits (delete_blob b) o max_total size written k in
                    rw (g, set, evicted, stored_bytes-append_one after.index)
                      elim fits [
                        | inl le ↦ omega (arith, u64_to_i64-le size)
                        | inr nothing ↦ rw nothing (omega (arith, u64_to_i64-le size))
                      ]
              ]
      ]

  -- Under a quota on the total, when no two rows have one identifier, the index is within the
  -- quota and the uploaded content is no larger than it, the index is within the quota after
  -- the upload too, whatever its result.
  pub upload_fits :
      (infer : Bytes → Option (List ℕ)) (max_total : ℕ) (draw : Draw) (up : Upload)
      (store : Store b.Blobs)
      → quota.max_total_bytes ≡ some max_total
      → IsKeyed store.index
      → stored_bytes store.index ≤ max_total
      → length up.content ≤ max_total
      → stored_bytes (upload b o quota sha256 infer draw up store).1.index ≤ max_total
  unfolding upload
  upload_fits infer max_total draw up store set k within small =
      elim (Result-cases
        (check_content_type infer up >> check_file_size quota (length up.content))) [
          | inr (e, f) ↦ rw (f, upload) within
          | inl (_, f) ↦ rw (f, upload) (put_file-fits max_total draw up store set k within small)
        ]

-- ===== src/Storage/Files/Additions.antt =====
-- An upload of crates/storage/src/store.rs keeps the invariant of the index.
use coulisse.Prelude.{
  ℕ, String, ◌≡◌, ◌≢◌, inl, inr, refl, sym, ap, ◌∙◌, false, Option, none, some, List, [], ◌∷◌, ◌++◌,
  ◌>>◌, Result-cases, Option-cases, ==_iff, string_eq, length, map, find, find-none, All, All-map,
  All-zip, All-append, Distinct-append_one, arith,
}
use coulisse.Core.{u64_to_i64}
use coulisse.Sql.{Ordering}
use coulisse.Storage.{FileRow, Index, QuotaConfig, Store, evict_for_size, check_file_size}
use coulisse.Storage.Backend.{Bytes, Backend}
use coulisse.Storage.Backend.Contract.{Contract}
use coulisse.Storage.Files.{
  Upload, Draw, has_sha256, find_by_sha256, check_content_type, new_row, delete_blob, index_file,
  put_file, upload,
}
use coulisse.Storage.Files.Rows.{IsKeyed-append_one}
use coulisse.Storage.Files.Soundness.{Matches, IsSound, fade-IsSound, delete-Fades}
use coulisse.Storage.Files.Evictions.{
  evict_for_size-All, evict_for_size-Fades, evict_for_size-IsSound, evict_for_size-spares,
}

-- No row has the key or the identifier that the upload draws.
abbrev pub IsFresh : Draw → Index → Type 0
IsFresh draw index =
    All (λ row. row.storage_key ≢ draw.blob_key) index × All (λ row. row.id ≢ draw.id) index

pub unsampled :
    (sha256 : String) (index : Index)
    → find_by_sha256 sha256 index ≡ none
    → All (λ row. has_sha256 sha256 row ≡ false) index
unfolding find_by_sha256
unsampled sha256 index h = elim (Option-cases (find (has_sha256 sha256) index)) [
  | inl e ↦ find-none (has_sha256 sha256) index e
  | inr (row, e) ↦ absurd (cc (rw e at h))
]

All-of_map {ℓ} :
    {K : Type 0} (P : K → Type ℓ) (key : FileRow → K) (rows : List FileRow)
    → All (λ row. P (key row)) rows
    → All P (map key rows)
All-of_map P key [] h = tt
All-of_map P key (row ∷ rows) h = (h.0, All-of_map P key rows h.1)

map-append_one :
    {K : Type 0} (key : FileRow → K) (rows : List FileRow) (new : FileRow)
    → map key (rows ++ new ∷ []) ≡ map key rows ++ key new ∷ []
map-append_one key [] new = refl
map-append_one key (row ∷ rows) new = ap (λ ks. key row ∷ ks) (map-append_one key rows new)

module _ (b : Backend) (contract : Contract b) (sha256 : Bytes → String) where
  open contract use {holds}

  abbrev Sound : Store b.Blobs → Type 0
  Sound = IsSound b contract sha256

  -- The write of a blob under a key that no row has.
  pub put-IsSound :
      (key : String) (content : Bytes) (store : Store b.Blobs)
      → All (λ row. row.storage_key ≢ key) store.index
      → Sound store
      → Sound (record { blobs = (b.put key content store.blobs).1; index = store.index })
  put-IsSound key content store fresh h = record {
    keyed = h.keyed;
    deduplicated = h.deduplicated;
    matches =
        All-map (λ row. (row.storage_key ≢ key) × Matches b contract sha256 store.blobs row)
          (Matches b contract sha256 (b.put key content store.blobs).1) store.index
          (λ row k c held. k.1 c (
            sym (contract.put_spares key row.storage_key content store.blobs (λ e. k.0 (sym e)))
            ∙ held))
          (All-zip (λ row. row.storage_key ≢ key) (Matches b contract sha256 store.blobs)
            store.index fresh h.matches);
  }

  -- The insertion of the row of a blob that is there.
  pub insert-IsSound :
      (draw : Draw) (up : Upload) (store : Store b.Blobs)
      → All (λ row. row.id ≢ draw.id) store.index
      → All (λ row. has_sha256 (sha256 up.content) row ≡ false) store.index
      → holds store.blobs draw.blob_key ≡ some up.content
      → Sound store
      → Sound (record store { index = store.index ++ new_row draw (sha256 up.content) up ∷ [] })
  insert-IsSound draw up store fresh new held h = record {
    keyed = IsKeyed-append_one store.index (new_row draw (sha256 up.content) up) fresh h.keyed;
    deduplicated =
        rw (map-append_one (λ row. row.sha256) store.index (new_row draw (sha256 up.content) up)) (
          Distinct-append_one (map (λ row. row.sha256) store.index) (sha256 up.content)
            (All-of_map (λ s. s ≢ sha256 up.content) (λ row. row.sha256) store.index
              (All-map (λ row. has_sha256 (sha256 up.content) row ≡ false)
                (λ row. row.sha256 ≢ sha256 up.content) store.index
                (λ row e same.
                  absurd (ground (arith, e, (==_iff row.sha256 (sha256 up.content)).1 same)))
                new))
            h.deduplicated);
    matches =
        All-append (Matches b contract sha256 store.blobs) store.index
          (new_row draw (sha256 up.content) up ∷ []) h.matches
          (
            (λ content e.
                let same : content ≡ up.content = cc (e, held) in
                (ap sha256 same, ap (λ c. u64_to_i64 (length c)) same)),
            tt,
          );
  }

  module _ (o : Ordering) (quota : QuotaConfig) where
    put_file-IsSound :
        (draw : Draw) (up : Upload) (store : Store b.Blobs)
        → IsFresh draw store.index
        → Sound store
        → Sound (put_file b o quota sha256 draw up store).1
    put_file-IsSound draw up store fresh h =
        let size = length up.content in
        let put = b.put draw.blob_key up.content store.blobs in
        let written = record store { blobs = put.1 } in
        let kept = put-IsSound draw.blob_key up.content store fresh.0 h in
        let evicted = evict_for_size (delete_blob b) o quota size written in
        elim (Result-cases (b.put draw.blob_key up.content store.blobs).0) [
          | inr (e, f) ↦ rw (f, put_file) kept
          | inl (u, f) ↦
              rw (f, put_file)
                elim (Option-cases (find_by_sha256 (sha256 up.content) store.index)) [
                  | inr (existing, g) ↦
                      let gone =
                        fade-IsSound b contract sha256 written (b.delete draw.blob_key put.1).1
                          (delete-Fades b contract sha256 draw.blob_key put.1) kept in
                      rw g elim (Result-cases (b.delete draw.blob_key put.1).0) [
                        | inl (_, k) ↦ rw (k, index_file) gone
                        | inr (_, k) ↦ rw (k, index_file) gone
                      ]
                  | inl g ↦ rw g elim (Result-cases evicted.0) [
                    | inr (e, k) ↦ rw k (
                        fade-IsSound b contract sha256 written evicted.1.blobs
                          (evict_for_size-Fades b o quota size contract sha256 written) kept)
                    | inl (u, k) ↦ rw k (
                        insert-IsSound draw up evicted.1
                          (evict_for_size-All b o quota size (λ row. row.id ≢ draw.id) written
                            fresh.1)
                          (evict_for_size-All b o quota size
                            (λ row. has_sha256 (sha256 up.content) row ≡ false) written
                            (unsampled (sha256 up.content) store.index g))
                          (evict_for_size-spares b o quota size contract sha256 draw.blob_key
                              written fresh.0
                            ∙ contract.put_stores draw.blob_key up.content store.blobs f)
                          (evict_for_size-IsSound b o quota size contract sha256 written kept))
                  ]
                ]
        ]

    pub upload-IsSound :
        (infer : Bytes → Option (List ℕ)) (draw : Draw) (up : Upload) (store : Store b.Blobs)
        → IsFresh draw store.index
        → Sound store
        → Sound (upload b o quota sha256 infer draw up store).1
    unfolding upload
    upload-IsSound infer draw up store fresh h =
        elim (Result-cases
          (check_content_type infer up >> check_file_size quota (length up.content))) [
            | inr (e, f) ↦ rw (f, upload) h
            | inl (_, f) ↦ rw (f, upload) (put_file-IsSound draw up store fresh h)
          ]

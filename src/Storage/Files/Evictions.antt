-- ===== src/Storage/Files/Evictions.antt =====
-- What an eviction of crates/storage/src/store.rs leaves as it was.
use mathlib.Core.List.{Memᴰ}
use coulisse.Prelude.{
  ℕ, ◌+◌, ◌-◌, String, ◌≡◌, ◌≢◌, inl, inr, refl, ◌∙◌, true, not, List, [], ◌∷◌, Result-cases, ok,
  Option-cases, Bool-cases, string_eq, find, find-some, All, All-mem, All-keep, leb, arith,
}
use coulisse.Prelude.Int.{pos_part}
use coulisse.Sql.{Ordering, delete_where}
use coulisse.Storage.{
  FileRow, Index, QuotaConfig, Store, stored_bytes, has_id, blob_key_for, evict, evict_rows,
  evict_within, evict_for_size,
}
use coulisse.Storage.Backend.{Bytes, Backend}
use coulisse.Storage.Backend.Contract.{Contract}
use coulisse.Storage.Files.{delete_blob}
use coulisse.Storage.Files.Soundness.{
  IsSound, Fades, fade-IsSound, shrink-IsSound, delete-Fades, Fades-trans,
}

-- The key that a lookup returns is that of a row with the identifier.
pub blob_key_for-mem :
    (id : String) (index : Index) {key : String}
    → blob_key_for id index ≡ ok key
    → (row : FileRow) × Memᴰ row index × (has_id id row ≡ true) × (row.storage_key ≡ key)
unfolding blob_key_for
blob_key_for-mem id index h = elim (Option-cases (find (has_id id) index)) [
  | inl e ↦ absurd (cc (rw e at h))
  | inr (row, e) ↦
      let found = find-some (has_id id) index e in
      (row, found.0, found.1, ground (arith, rw e at h))
]

module _ {Blobs : Type 0} (delete_blob : String → Blobs → Blobs) (Q : Store Blobs → Type 0) where
  -- What every single eviction keeps, the loop keeps.
  pub evict_rows-keeps :
      ((row : FileRow) (key : String) (store : Store Blobs)
        → blob_key_for row.id store.index ≡ ok key
        → Q store
        → Q (evict delete_blob row key store))
      → (rows : List FileRow) (needed freed : ℕ) (store : Store Blobs) → Q store
      → Q (evict_rows delete_blob rows needed freed store).1
  unfolding evict_rows
  evict_rows-keeps step [] needed freed store q = q
  evict_rows-keeps step (row ∷ rows) needed freed store q = elim (Bool-cases (leb needed freed)) [
    | inl e ↦ rw e q
    | inr e ↦ rw e elim (Result-cases (blob_key_for row.id store.index)) [
      | inl (key, f) ↦ rw f (
          evict_rows-keeps step rows needed (freed + pos_part row.bytes)
            (evict delete_blob row key store) (step row key store f q))
      | inr (e', f) ↦ rw f q
    ]
  ]

  pub evict_for_size-keeps :
      ((row : FileRow) (key : String) (store : Store Blobs)
        → blob_key_for row.id store.index ≡ ok key
        → Q store
        → Q (evict delete_blob row key store))
      → (o : Ordering) (quota : QuotaConfig) (incoming : ℕ) (store : Store Blobs) → Q store
      → Q (evict_for_size delete_blob o quota incoming store).1
  unfolding evict_for_size evict_within
  evict_for_size-keeps step o quota incoming store q = elim (Option-cases quota.max_total_bytes) [
    | inl e ↦ rw e q
    | inr (max_total, e) ↦
        rw e elim (Bool-cases (leb (stored_bytes store.index + incoming) max_total)) [
          | inl f ↦ rw f q
          | inr f ↦ rw f (
              evict_rows-keeps step (o.order_by FileRow (λ r. r.created_at) store.index)
                (stored_bytes store.index + incoming - max_total) 0 store q)
        ]
  ]

module _ (b : Backend) (o : Ordering) (quota : QuotaConfig) (incoming : ℕ) where
  -- A predicate of rows that every row has, every row left has.
  pub evict_for_size-All :
      (P : FileRow → Type 0) (store : Store b.Blobs)
      → All P store.index
      → All P (evict_for_size (delete_blob b) o quota incoming store).1.index
  evict_for_size-All P store h =
      evict_for_size-keeps (delete_blob b) (λ s. All P s.index)
        (λ row key s _ a. drop row s.index a) o quota incoming store h
    where
      drop :
          (row : FileRow) (index : Index) → All P index → All P (delete_where (has_id row.id) index)
      drop row index a =
          unfold delete_where in
          All-keep P (λ r. not (has_id row.id r)) index (λ r m _. All-mem P a m)

  module _ (contract : Contract b) (sha256 : Bytes → String) where
    pub evict_for_size-IsSound :
        (store : Store b.Blobs)
        → IsSound b contract sha256 store
        → IsSound b contract sha256 (evict_for_size (delete_blob b) o quota incoming store).1
    unfolding delete_where
    evict_for_size-IsSound store h =
        evict_for_size-keeps (delete_blob b) (IsSound b contract sha256)
          (λ row key s _ sound.
            shrink-IsSound b contract sha256
              (record { blobs = (b.delete key s.blobs).1; index = s.index })
              (λ r. not (has_id row.id r))
              (fade-IsSound b contract sha256 s (b.delete key s.blobs).1
                (delete-Fades b contract sha256 key s.blobs) sound))
          o quota incoming store h

    pub evict_for_size-Fades :
        (store : Store b.Blobs)
        → Fades b contract sha256 store.blobs
            (evict_for_size (delete_blob b) o quota incoming store).1.blobs
    evict_for_size-Fades store =
        evict_for_size-keeps (delete_blob b) (λ s. Fades b contract sha256 store.blobs s.blobs)
          (λ row key s _ f.
            Fades-trans b contract sha256 f (delete-Fades b contract sha256 key s.blobs))
          o quota incoming store (λ j. inr refl)

    -- The blob of a key that no row has is as it was.
    pub evict_for_size-spares :
        (j : String) (store : Store b.Blobs)
        → All (λ row. row.storage_key ≢ j) store.index
        → contract.holds (evict_for_size (delete_blob b) o quota incoming store).1.blobs j
          ≡ contract.holds store.blobs j
    unfolding delete_where
    evict_for_size-spares j store fresh =
        (evict_for_size-keeps (delete_blob b)
          (λ s.
            All (λ row. row.storage_key ≢ j) s.index
            × (contract.holds s.blobs j ≡ contract.holds store.blobs j))
          (λ row key s found k.
            let (r, m, _, e) = blob_key_for-mem row.id s.index found in
            (
              All-keep (λ r. r.storage_key ≢ j) (λ r. not (has_id row.id r)) s.index
                  (λ r m _. All-mem (λ r. r.storage_key ≢ j) k.0 m),
              contract.delete_spares key j s.blobs
                    (λ same. All-mem (λ r. r.storage_key ≢ j) k.0 m (e ∙ same))
                  ∙ k.1,
            ))
          o quota incoming store (fresh, refl)).1

-- ===== src/Storage/Files/Soundness.antt =====
-- The invariant that the index of crates/storage/src/store.rs keeps over its blobs: through every
-- call, and where the process stops between the blob's write or deletion and the index's.
use coulisse.Prelude.{
  String, ◌≡◌, ◌⊎◌, inl, inr, sym, ◌∙◌, subst, Bool, none, some, Bool-cases, ◌==◌, ==_iff,
  string_eq, length, map, keep, All, All-map, All-mem, Distinct, arith, All-keep,
}
use coulisse.Core.{u64_to_i64}
use coulisse.Storage.{FileRow, Store}
use coulisse.Storage.Backend.{Bytes, Backend}
use coulisse.Storage.Backend.Contract.{Contract}
use coulisse.Storage.Eviction.{IsKeyed}
use coulisse.Storage.Files.Rows.{IsKeyed-keep, Distinct-map-keep}

module _ (b : Backend) (contract : Contract b) (sha256 : Bytes → String) where
  open contract use {holds}

  -- A row's blob, where it is there, is the content that the row describes.
  abbrev pub Matches : b.Blobs → FileRow → Type 0
  Matches blobs row =
      (content : Bytes)
      → holds blobs row.storage_key ≡ some content
      → (sha256 content ≡ row.sha256) × (u64_to_i64 (length content) ≡ row.bytes)

  pub record IsSound (store : Store b.Blobs) : Type 0 where
    pub keyed : IsKeyed store.index
    pub deduplicated : Distinct (map (λ row. row.sha256) store.index)
    pub matches : All (Matches store.blobs) store.index

  -- Every blob is as it was, or gone.
  abbrev pub Fades : b.Blobs → b.Blobs → Type 0
  Fades before after = (j : String) → (holds after j ≡ none) ⊎ (holds after j ≡ holds before j)

  pub Fades-trans : {s t u : b.Blobs} → Fades s t → Fades t u → Fades s u
  Fades-trans f g j = elim (g j) [
    | inl gone ↦ inl gone
    | inr same ↦ elim (f j) [ inl gone ↦ inl (same ∙ gone) | inr first ↦ inr (same ∙ first) ]
  ]

  pub Matches-Fades : (s t : b.Blobs) (row : FileRow) → Fades s t → Matches s row → Matches t row
  Matches-Fades s t row f m content h = elim (f row.storage_key) [
    | inl gone ↦ absurd (cc)
    | inr same ↦ m content (sym same ∙ h)
  ]

  pub fade-IsSound :
      (store : Store b.Blobs) (blobs : b.Blobs)
      → Fades store.blobs blobs
      → IsSound store
      → IsSound (record { blobs = blobs; index = store.index })
  fade-IsSound store blobs f h = record {
    keyed = h.keyed;
    deduplicated = h.deduplicated;
    matches =
        All-map (Matches store.blobs) (Matches blobs) store.index
          (λ row m. Matches-Fades store.blobs blobs row f m) h.matches;
  }

  pub shrink-IsSound :
      (store : Store b.Blobs) (p : FileRow → Bool)
      → IsSound store
      → IsSound (record { blobs = store.blobs; index = keep p store.index })
  shrink-IsSound store p h = record {
    keyed = IsKeyed-keep p store.index h.keyed;
    deduplicated = Distinct-map-keep (λ row. row.sha256) p store.index h.deduplicated;
    matches =
        All-keep (Matches store.blobs) p store.index
          (λ row m _. All-mem (Matches store.blobs) h.matches m);
  }

  pub delete-Fades : (key : String) (s : b.Blobs) → Fades s (b.delete key s).1
  delete-Fades key s j = elim (Bool-cases (key == j)) [
    | inl e ↦
        subst (λ k. (holds (b.delete key s).1 k ≡ none) ⊎ (holds (b.delete key s).1 k ≡ holds s k))
          ((==_iff key j).0 e) (contract.delete_leaves key s)
    | inr e ↦
        inr (
          contract.delete_spares key j s
            (λ same. absurd (ground (arith, e, (==_iff key j).1 same))))
  ]

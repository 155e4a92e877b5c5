-- ===== src/Storage/Files/History.antt =====
-- The histories of a store of crates/storage/src/store.rs: calls in any order, and the points at
-- which a process that stops, or a backend that loses a blob, leaves the index and the blobs apart.
use coulisse.Prelude.{ℕ, String, Option, List, []}
use coulisse.Sql.{Ordering}
use coulisse.Storage.{QuotaConfig, Store, evict_for_size}
use coulisse.Storage.Backend.{Bytes, Backend}
use coulisse.Storage.Backend.Contract.{Contract}
use coulisse.Storage.Files.{
  Upload, Draw, delete_blob, delete, get_content, reconcile_at_boot, upload,
}
use coulisse.Storage.Files.Soundness.{IsSound, fade-IsSound, delete-Fades}
use coulisse.Storage.Files.Evictions.{evict_for_size-Fades}
use coulisse.Storage.Files.Calls.{delete-IsSound, get_content-IsSound, reconcile_at_boot-IsSound}
use coulisse.Storage.Files.Additions.{IsFresh, upload-IsSound, put-IsSound}

module _ (b : Backend) (o : Ordering) (quota : QuotaConfig) (sha256 : Bytes → String)
    (infer : Bytes → Option (List ℕ)) where
  -- `unindexed`: the process stops after an upload wrote its blob; `unevicted`: it stops after the
  -- evictions of an upload, before the commit; `lost`: a blob goes without its row, by a `delete`
  -- that stops half way or from outside.
  pub data Step (store : Store b.Blobs) : Store b.Blobs → Type 0 where
    uploaded :
        (draw : Draw) (up : Upload)
        → IsFresh draw store.index
        → Step store (upload b o quota sha256 infer draw up store).1
    deleted : (id : String) → Step store (delete b id store).1
    read : (id : String) → Step store (get_content b id store).1
    booted : Step store (reconcile_at_boot b store)
    unindexed :
        (draw : Draw) (up : Upload)
        → IsFresh draw store.index
        → Step store (record store { blobs = (b.put draw.blob_key up.content store.blobs).1 })
    unevicted :
        (incoming : ℕ)
        → Step store (record store {
          blobs = (evict_for_size (delete_blob b) o quota incoming store).1.blobs;
        })
    lost : (key : String) → Step store (record store { blobs = (b.delete key store.blobs).1 })

  pub data History (blobs : b.Blobs) : Store b.Blobs → Type 0 where
    opened : History blobs (record { blobs = blobs; index = [] })
    next : {s t : Store b.Blobs} → History blobs s → Step s t → History blobs t

  module _ (contract : Contract b) where
    Step-IsSound :
        {s t : Store b.Blobs} → Step s t → IsSound b contract sha256 s → IsSound b contract sha256 t
    Step-IsSound {s} (uploaded draw up fresh) h =
        upload-IsSound b contract sha256 o quota infer draw up s fresh h
    Step-IsSound {s} (deleted id) h = delete-IsSound b contract sha256 id s h
    Step-IsSound {s} (read id) h = get_content-IsSound b contract sha256 id s h
    Step-IsSound {s} booted h = reconcile_at_boot-IsSound b contract sha256 s h
    Step-IsSound {s} (unindexed draw up fresh) h =
        put-IsSound b contract sha256 draw.blob_key up.content s fresh.0 h
    Step-IsSound {s} (unevicted incoming) h =
        fade-IsSound b contract sha256 s _
          (evict_for_size-Fades b o quota incoming contract sha256 s) h
    Step-IsSound {s} (lost key) h =
        fade-IsSound b contract sha256 s _ (delete-Fades b contract sha256 key s.blobs) h

    -- On a backend that keeps its contract, after any history of uploads with fresh keys and
    -- identifiers, deletions, reads, boots, stops between two writes and lost blobs from an empty
    -- index on: no two rows have one identifier or one digest, and the blob of each row, where it
    -- is there, has the digest and the size of the row.
    pub History-IsSound :
        {blobs : b.Blobs} {store : Store b.Blobs}
        → History blobs store
        → IsSound b contract sha256 store
    History-IsSound opened = record { keyed = tt; deduplicated = tt; matches = tt }
    History-IsSound (next h step) = Step-IsSound step (History-IsSound h)

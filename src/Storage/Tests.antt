-- ===== src/Storage/Tests.antt =====
-- Eviction among two files of four bytes.
use coulisse.Prelude.{ℕ, String, ◌≡◌, refl, not, List, [], ◌∷◌, ok, keep, ◌==◌, string_eq}
use coulisse.Prelude.Int.{pos}
use coulisse.Sql.{delete_where}
use coulisse.Sql.Sort.{insertion_order}
use coulisse.Storage.{FileRow, Store, evict_within, evict_rows, blob_key_for}

abbrev file : String → ℕ → FileRow
file id created_at = record {
  bytes = pos 4;
  content_type = "text/plain";
  created_at = pos created_at;
  filename = "notes.txt";
  id = id;
  purpose = "assistants";
  sha256 = id;
  storage_key = id;
  user_id = "u";
}

abbrev delete_key : String → List String → List String
delete_key key blobs = keep (λ b. not (b == key)) blobs

abbrev two_files : Store (List String)
two_files = record { blobs = "a" ∷ "b" ∷ []; index = file "a" 2 ∷ file "b" 1 ∷ [] }

oldest_goes :
    evict_within delete_key insertion_order 9 5 two_files
    ≡ (ok tt, record { blobs = "a" ∷ []; index = file "a" 2 ∷ [] })
unfolding evict_within evict_rows insertion_order blob_key_for delete_where
oldest_goes = refl

-- A file larger than the whole quota leaves nothing behind, and still does not fit.
larger_than_the_quota :
    evict_within delete_key insertion_order 9 50 two_files
    ≡ (ok tt, record { blobs = []; index = [] })
unfolding evict_within evict_rows insertion_order blob_key_for delete_where
larger_than_the_quota = refl

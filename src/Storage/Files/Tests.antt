-- ===== src/Storage/Files/Tests.antt =====
-- A store on the file system in memory, with a quota of nine bytes.
use coulisse.Prelude.{
  ℕ, ◌≤◌, String, ◌≡◌, ◌≢◌, ◌⊎◌, refl, Option, none, some, List, [], ◌∷◌, ◌==◌, ok, err, keep,
  member, string_eq, text_eq, All, codes, if◌then◌else◌, arith, trim, split_on,
}
use coulisse.Sql.Sort.{insertion_order}
use coulisse.Storage.{
  StorageError, not_found, unsupported_content_type, QuotaConfig, Store, stored_bytes,
  check_file_size, into_object, evict_for_size, evict_within, evict_rows, blob_key_for,
}
use coulisse.Storage.Mime.{is_allowed, infer_mime}
use coulisse.Sql.{delete_where}
use coulisse.Core.{i64_to_u64, u64_to_i64}
use coulisse.Storage.Backend.{Bytes, fs_put, fs_backend}
use coulisse.Storage.Backend.Contract.{Contract, fs_backend-Contract}
use coulisse.Storage.Backend.Shelf.{Shelf, shelf, shelf-Documented}
use coulisse.Storage.Files.{
  Upload, Draw, upload, get_content, reconcile_at_boot, new_object, new_row, check_content_type,
  find_by_sha256,
}
use coulisse.Storage.Files.Soundness.{IsSound}
use coulisse.Storage.Files.History.{uploaded, booted, opened, next, History-IsSound}
use coulisse.Storage.Files.Uploads.{get_content-upload}
use coulisse.Storage.Files.Quota.{upload_fits}
use coulisse.Storage.Files.Reconciliation.{reconcile_at_boot-exact}

-- Stands in for the digest of the contents below.
abbrev digest : Bytes → String
digest content = if content == codes "hello" then "d1" else "d2"

abbrev no_inference : Bytes → Option (List ℕ)
no_inference content = none

abbrev nine_bytes : QuotaConfig
nine_bytes = record { max_file_bytes = none; max_total_bytes = some 9 }

abbrev hello : Upload
hello = record {
  content = codes "hello";
  content_type = "text/plain; charset=utf-8";
  filename = "hello.txt";
  purpose = "assistants";
  user_id = "u";
}

abbrev world : Upload
world = record {
  content = codes "world";
  content_type = "text/plain";
  filename = "world.txt";
  purpose = "assistants";
  user_id = "u";
}

abbrev program : Upload
program = record hello { content_type = "application/x-msdownload" }

abbrev first_draw : Draw
first_draw = record { blob_key = "k1"; id = "file-1"; now_secs = 1 }

abbrev second_draw : Draw
second_draw = record { blob_key = "k2"; id = "file-2"; now_secs = 2 }

abbrev empty : Store Shelf
empty = record { blobs = []; index = [] }

abbrev one_file : Store Shelf
one_file = record { blobs = ("k1", codes "hello") ∷ []; index = new_row first_draw "d1" hello ∷ [] }

abbrev two_files : Store Shelf
two_files = record {
  blobs = ("k2", codes "world") ∷ [];
  index = new_row first_draw "d1" hello ∷ new_row second_draw "d2" world ∷ [];
}

hello_is_stored :
    upload (fs_backend shelf) insertion_order nine_bytes digest no_inference first_draw hello empty
    ≡ (ok (new_object first_draw hello), one_file)
unfolding upload check_content_type is_allowed infer_mime trim split_on check_file_size fs_put
    find_by_sha256 evict_for_size evict_within
hello_is_stored = refl

-- The same content again discards its blob and returns the file that is there.
hello_again :
    upload
      (fs_backend shelf)
      insertion_order
      nine_bytes
      digest
      no_inference
      second_draw
      hello
      one_file
    ≡ (ok (new_object first_draw hello), one_file)
unfolding upload check_content_type is_allowed infer_mime trim split_on check_file_size fs_put
    find_by_sha256 evict_for_size evict_within into_object i64_to_u64 u64_to_i64
hello_again = refl

program_is_refused :
    upload
      (fs_backend shelf)
      insertion_order
      nine_bytes
      digest
      no_inference
      first_draw
      program
      empty
    ≡ (err (unsupported_content_type (codes "application/x-msdownload")), empty)
unfolding upload check_content_type is_allowed infer_mime trim split_on check_file_size
program_is_refused = refl

-- The second file does not fit beside the first.
world_evicts :
    (upload
      (fs_backend shelf)
      insertion_order
      nine_bytes
      digest
      no_inference
      second_draw
      world
      one_file).1.blobs
    ≡ ("k2", codes "world") ∷ []
unfolding upload check_content_type is_allowed infer_mime trim split_on check_file_size fs_put
    find_by_sha256 evict_for_size evict_within insertion_order evict_rows blob_key_for delete_where
    u64_to_i64
world_evicts = refl

abbrev shelf_contract : Contract (fs_backend shelf)
shelf_contract = fs_backend-Contract shelf shelf-Documented

abbrev after_hello : Store Shelf
after_hello =
    (upload (fs_backend shelf) insertion_order nine_bytes digest no_inference first_draw hello
      empty).1

History-IsSound_example :
    IsSound
      (fs_backend shelf)
      shelf_contract
      digest
      (reconcile_at_boot (fs_backend shelf) after_hello)
History-IsSound_example =
    History-IsSound (fs_backend shelf) insertion_order nine_bytes digest no_inference shelf_contract
      (next (next opened (uploaded first_draw hello (tt, tt))) booted)

get_content-upload_example :
    let (result, after) =
      upload
        (fs_backend shelf)
        insertion_order
        nine_bytes
        digest
        no_inference
        first_draw
        hello
        empty in
    (result ≡ ok (new_object first_draw hello))
    × (((get_content (fs_backend shelf) "file-1" after).0
          ≡ ok (new_object first_draw hello, codes "hello"))
        ⊎ ((e : StorageError) × ((get_content (fs_backend shelf) "file-1" after).0 ≡ err e)
            × (((fs_backend shelf).get "k1" after.blobs).0 ≡ err e)
            × ((name : String) → e ≢ not_found name)))
unfolding find_by_sha256 check_content_type is_allowed infer_mime trim split_on check_file_size
    fs_put
get_content-upload_example =
    get_content-upload (fs_backend shelf) shelf_contract insertion_order nine_bytes digest
      no_inference first_draw hello empty tt (tt, tt) (omega arith) refl refl refl

upload_fits_example :
    stored_bytes
      (upload
        (fs_backend shelf)
        insertion_order
        nine_bytes
        digest
        no_inference
        second_draw
        world
        one_file).1.index
    ≤ 9
unfolding u64_to_i64
upload_fits_example =
    upload_fits (fs_backend shelf) insertion_order nine_bytes digest no_inference 9 second_draw
      world one_file refl (tt, tt) (omega arith) (omega arith)

reconcile_at_boot-exact_example :
    ((reconcile_at_boot (fs_backend shelf) two_files).index
      ≡ keep (λ row. member row.storage_key ("k2" ∷ [])) two_files.index)
    × All
        (λ row.
          shelf_contract.holds
            (reconcile_at_boot (fs_backend shelf) two_files).blobs
            row.storage_key
          ≢ none)
        (reconcile_at_boot (fs_backend shelf) two_files).index
    × ((j : String)
        → shelf_contract.holds (reconcile_at_boot (fs_backend shelf) two_files).blobs j
          ≡ shelf_contract.holds two_files.blobs j)
reconcile_at_boot-exact_example =
    reconcile_at_boot-exact (fs_backend shelf) shelf_contract ("k2" ∷ []) two_files
      ((refl, tt), (tt, tt)) refl (λ e. cc e)

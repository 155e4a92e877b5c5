-- ===== src/Storage/Backend/Shelf.antt =====
-- A file system in memory: the calls that crates/storage/src/backend.rs makes, on a list of named
-- files, as they are documented.
use coulisse.Prelude.{
  String, ◌≡◌, ◌≢◌, ◌↔◌, inl, inr, refl, ap, ◌∙◌, true, Option, none, some, List, [], ◌∷◌, ◌++◌,
  Result, ok, err, Bool-cases, ◌==◌, ==_iff, ==_refl, string_eq, member, if◌then◌else◌, arith,
}
use coulisse.Storage.Backend.{Bytes, FileSystem, IoError, missing, text_names}
use coulisse.Storage.Backend.Contract.{Documented}

abbrev pub Shelf : Type 0
Shelf = List (String × Bytes)

abbrev pub contents : Shelf → String → Option Bytes
contents [] key = none
contents ((name, content) ∷ files) key = if name == key then some content else contents files key

abbrev pub remove : String → Shelf → Shelf
remove key [] = []
remove key ((name, content) ∷ files) =
    let rest = remove key files in if name == key then rest else (name, content) ∷ rest

abbrev write_found : String → Bytes → Shelf → Option Bytes → Result IoError (Unit {0}) × Shelf
write_found key content files none = (err missing, files)
write_found key content files (some old) = (ok tt, (key, old ++ content) ∷ remove key files)

abbrev read_found : Shelf → Option Bytes → Result IoError Bytes × Shelf
read_found files none = (err missing, files)
read_found files (some content) = (ok content, files)

abbrev remove_found : String → Shelf → Option Bytes → Result IoError (Unit {0}) × Shelf
remove_found key files none = (err missing, files)
remove_found key files (some content) = (ok tt, remove key files)

abbrev names : Shelf → List (Option String)
names [] = []
names ((name, content) ∷ files) = some name ∷ names files

abbrev pub shelf : FileSystem
shelf = record {
  Disk = Shelf;
  create = λ key files. (ok tt, (key, []) ∷ remove key files);
  write_all = λ key content files. write_found key content files (contents files key);
  flush = λ key files. (ok tt, files);
  read = λ key files. read_found files (contents files key);
  remove_file = λ key files. remove_found key files (contents files key);
  read_dir = λ files. (ok (names files), files);
}

contents-remove : (key : String) (files : Shelf) → contents (remove key files) key ≡ none
contents-remove key [] = refl
contents-remove key ((name, content) ∷ files) = elim (Bool-cases (name == key)) [
  | inl e ↦ rw e (contents-remove key files)
  | inr e ↦ rw (e, e) (contents-remove key files)
]

contents-remove_other :
    (key j : String) (files : Shelf) → key ≢ j → contents (remove key files) j ≡ contents files j
contents-remove_other key j [] n = refl
contents-remove_other key j ((name, content) ∷ files) n =
    ground (arith, ==_iff name key, ==_iff name j, contents-remove_other key j files n)

front_spares :
    (key j : String) (content : Bytes) (files : Shelf)
    → key ≢ j
    → contents ((key, content) ∷ remove key files) j ≡ contents files j
front_spares key j content files n =
    ground (arith, ==_iff key j, contents-remove_other key j files n)

front_stores :
    (key : String) (content : Bytes) (files : Shelf)
    → contents ((key, content) ∷ files) key ≡ some content
front_stores key content files = rw (==_refl key) refl

write_found-appends :
    (key : String) (content : Bytes) (files : Shelf) (found : Option Bytes) {old : Bytes}
    → found ≡ some old
    → contents (write_found key content files found).1 key ≡ some (old ++ content)
write_found-appends key content files none e = cc e
write_found-appends key content files (some found) {old} e =
    let same : found ≡ old = ground arith in
    front_stores key (found ++ content) (remove key files) ∙ ap (λ o. some (o ++ content)) same

write_found-spares :
    (key j : String) (content : Bytes) (files : Shelf) (found : Option Bytes)
    → key ≢ j
    → contents (write_found key content files found).1 j ≡ contents files j
write_found-spares key j content files none n = refl
write_found-spares key j content files (some old) n = front_spares key j (old ++ content) files n

read_found-keeps : (files : Shelf) (found : Option Bytes) → (read_found files found).1 ≡ files
read_found-keeps files none = refl
read_found-keeps files (some content) = refl

read_found-reads :
    (files : Shelf) (found : Option Bytes) {content : Bytes}
    → (read_found files found).0 ≡ ok content
    → found ≡ some content
read_found-reads files none e = cc e
read_found-reads files (some c) e = ground arith

read_found-misses :
    (files : Shelf) (found : Option Bytes) → (read_found files found).0 ≡ err missing → found ≡ none
read_found-misses files none e = refl
read_found-misses files (some c) e = cc e

remove_found-removes :
    (key : String) (files : Shelf) (found : Option Bytes)
    → contents files key ≡ found
    → contents (remove_found key files found).1 key ≡ none
remove_found-removes key files none e = e
remove_found-removes key files (some c) e = contents-remove key files

remove_found-spares :
    (key j : String) (files : Shelf) (found : Option Bytes)
    → key ≢ j
    → contents (remove_found key files found).1 j ≡ contents files j
remove_found-spares key j files none n = refl
remove_found-spares key j files (some c) n = contents-remove_other key j files n

names_found :
    (files : Shelf) (j : String)
    → (member j (text_names (names files)) ≡ true) ↔ (contents files j ≢ none)
names_found [] j = ((λ e. cc e), λ n. absurd (n refl))
names_found ((name, content) ∷ files) j = elim (Bool-cases (name == j)) [
  | inl e ↦ rw e ((λ _ n. cc n), λ _. refl)
  | inr e ↦ rw e (names_found files j)
]

read_found-missing :
    (files : Shelf) (found : Option Bytes) → found ≡ none → (read_found files found).0 ≡ err missing
read_found-missing files none e = refl
read_found-missing files (some c) e = cc e

remove_found-missing :
    (key : String) (files : Shelf) (found : Option Bytes)
    → found ≡ none
    → (remove_found key files found).0 ≡ err missing
remove_found-missing key files none e = refl
remove_found-missing key files (some c) e = cc e

pub shelf-Documented : Documented shelf
shelf-Documented = record {
  contents = contents;
  create_empties = λ key files h. front_stores key [] (remove key files);
  create_spares = λ key j files n. front_spares key j [] files n;
  write_appends =
      λ key content files {old} e h. write_found-appends key content files (contents files key) e;
  write_spares =
      λ key j content files n. write_found-spares key j content files (contents files key) n;
  flush_keeps = λ key files h. refl;
  flush_spares = λ key j files n. refl;
  read_keeps = λ key j files. ap (λ s. contents s j) (read_found-keeps files (contents files key));
  read_reads = λ key files {content} h. read_found-reads files (contents files key) h;
  read_misses = λ key files h. read_found-misses files (contents files key) h;
  read_missing = λ key files e. read_found-missing files (contents files key) e;
  remove_missing = λ key files e. remove_found-missing key files (contents files key) e;
  remove_removes = λ key files h. remove_found-removes key files (contents files key) refl;
  remove_leaves = λ key files. inl (remove_found-removes key files (contents files key) refl);
  remove_spares = λ key j files n. remove_found-spares key j files (contents files key) n;
  list_keeps = λ j files. refl;
  list_names = λ files {entries} h j. rw (← named files h) (names_found files j);
}
  where
    named :
        (files : Shelf) {entries : List (Option String)}
        → (shelf.read_dir files).0 ≡ ok entries
        → names files ≡ entries
    named files h = ground arith

-- ===== src/Database/Interface.antt =====
-- src-tauri/database/src/interface.rs and db.rs: how the database is opened, changed and saved. The
-- library that keeps it in a file, and the library of URLs, are arguments.
pub mod Recovery
use drop_app.Prelude.{
  String, Bool, true, false, not, List, [], ◌∷◌, Option, none, some, Map, get, insert, remove,
  is_some, contains_key, string_key, if◌then◌else◌,
}
use text.Mathlib.Text.{◌==◌ as str_eq}
use drop_app.Prelude.Panics.{◌>>=◌, ensure}
use drop_app.Prelude.Outcomes.{Outcome, ok, err, panic}
use drop_app.Prelude.Texts.{join_path, concat}
use drop_app.Database.Models.{Database, new_database}
use drop_app.Database.Stored.{StoredDatabase, stored, restored}

-- What is stored of a database in a file, among the files of the disk: reading it, making the file of
-- a new one, and writing it.
pub record Rustbreak (Bytes : Type 0) : Type 0 where
  pub load_from_path : String → Map String Bytes → Outcome String StoredDatabase
  pub create_at_path :
      String → StoredDatabase → Map String Bytes → Outcome String (Map String Bytes)
  pub save : String → StoredDatabase → Map String Bytes → Outcome String (Map String Bytes)

-- The open database, and the files.
pub record DatabaseInterface (Bytes : Type 0) : Type 0 where
  pub path : String
  pub contents : Database
  pub files : Map String Bytes

-- What the file system answers to the creation of a directory, to looking whether the database
-- exists, and to its renaming: an error or none.
pub record Disk : Type 0 where
  pub create_dir_all : String → Option String
  pub exists : Option String
  pub rename : Option String

abbrev pub done : Option String → Option (Unit {0})
done none = some tt
done (some e) = none

abbrev pub expect_ok {ℓ} : {A : Type ℓ} → Outcome String A → Option A
expect_ok (ok a) = some a
expect_ok (err e) = none
expect_ok panic = none

-- `DATA_ROOT_DIR`
unfoldable pub data_root_dir : String → Bool → String
data_root_dir base debug_assertions =
    join_path base (if debug_assertions then "drop-debug" else "drop")

unfoldable pub create_dirs : (String → Option String) → List String → Option (Unit {0})
create_dirs create [] = some tt
create_dirs create (dir ∷ dirs) = done (create dir) >>= λ _. create_dirs create dirs

abbrev pub db_path : String → String
db_path root = join_path root "drop.db"

abbrev pub backup_path : String → String → String
backup_path root time = join_path root (concat ("drop.db.backup-" ∷ time ∷ []))

abbrev pub games_base_dir : String → String
games_base_dir root = join_path root "games"

abbrev pub cache_dir_of : String → String
cache_dir_of root = join_path root "cache"

abbrev pub ok_or_original : String → Outcome String String → String
ok_or_original original (ok o) = o
ok_or_original original (err e) = original
ok_or_original original panic = original

abbrev pub shown_as : (String → Outcome String String) → String → String
shown_as canonicalize original = ok_or_original original (canonicalize original)

abbrev pub map_some : (String → String) → Option String → Option String
map_some f none = none
map_some f (some a) = some (f a)

abbrev pub set_up_dirs : String → List String
set_up_dirs root =
    root
    ∷ games_base_dir root
    ∷ join_path root "logs"
    ∷ cache_dir_of root
    ∷ join_path root "pfx"
    ∷ []

module _ {Bytes : Type 0} (library : Rustbreak Bytes) where
  abbrev pub create_database :
      String → Database → Map String Bytes → Option (DatabaseInterface Bytes)
  create_database path contents files = do
    files' ← expect_ok (library.create_at_path path (stored contents) files)
    some (record { path = path; contents = contents; files = files' })

  abbrev pub rename_to :
      Option Bytes → String → String → Map String Bytes → Option (Map String Bytes)
  rename_to none from to files = none
  rename_to (some bytes) from to files = some (insert to bytes (remove from files))

  unfoldable pub handle_invalid_database :
      Disk → String → String → Map String Bytes → Option (DatabaseInterface Bytes)
  handle_invalid_database disk root time files = do
    _ ← done disk.rename
    let path = db_path root
    renamed ← rename_to (get path files) path (backup_path root time) files
    create_database path
        (new_database (games_base_dir root) (some (backup_path root time)) (cache_dir_of root))
        renamed

  abbrev pub open_database :
      Outcome String StoredDatabase
      → Disk
      → String
      → String
      → Map String Bytes
      → Option (DatabaseInterface Bytes)
  open_database (ok contents) disk root time files =
      some (record { path = db_path root; contents = restored contents; files = files })
  open_database (err e) disk root time files = handle_invalid_database disk root time files
  open_database panic disk root time files = none

  abbrev pub open_or_create :
      Bool → Disk → String → String → Map String Bytes → Option (DatabaseInterface Bytes)
  open_or_create true disk root time files =
      open_database (library.load_from_path (db_path root) files) disk root time files
  open_or_create false disk root time files =
      create_database (db_path root) (new_database (games_base_dir root) none (cache_dir_of root))
        files

  -- `time` is the clock's, in seconds.
  unfoldable pub set_up_database :
      Disk → String → String → Map String Bytes → Option (DatabaseInterface Bytes)
  set_up_database disk root time files = do
    _ ← create_dirs disk.create_dir_all (set_up_dirs root)
    _ ← done disk.exists
    open_or_create (contains_key (db_path root) files) disk root time files

  -- A change through `borrow_db_mut_checked`: when the borrow ends the database is saved, and an error
  -- of that is a panic.
  unfoldable pub change :
      (Database → Database) → DatabaseInterface Bytes → Option (DatabaseInterface Bytes)
  change f db = do
    files ← expect_ok (library.save db.path (stored (f db.contents)) db.files)
    some (record db { contents = f db.contents; files = files })

  unfoldable pub database_is_set_up : DatabaseInterface Bytes → Bool
  database_is_set_up db = not (str_eq db.contents.base_url "")

  -- The start of the client takes what is known of an earlier database, to show where it is. The
  -- borrow is one for writing, so the database is saved in any case.
  unfoldable pub report_corrupted :
      (String → Outcome String String)
      → DatabaseInterface Bytes
      → Option (Option String × DatabaseInterface Bytes)
  report_corrupted canonicalize db = do
    db' ← change (λ d. record d { prev_database = none }) db
    some (map_some (shown_as canonicalize) db.contents.prev_database, db')

module _ {Bytes Url : Type 0} where
  unfoldable pub fetch_base_url :
      (String → Outcome String Url) → DatabaseInterface Bytes → Option Url
  fetch_base_url parse db = expect_ok (parse db.contents.base_url)

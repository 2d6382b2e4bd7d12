-- ===== src/Database/Interface/Recovery.antt =====
-- What becomes of the data when the client starts again, also when its file cannot be read.
use Prim.Native.String.{◌++◌ as append, count}
use text.Mathlib.Text.{◌==◌ as str_eq, starts_with}
use text.Mathlib.TextEquality.{eq_iff, starts_with_iff}
use text.Mathlib.TextLemmas.{
  append_cancel_left, length-append, append_assoc, append-nil, append_inj,
}
use drop_app.Prelude.{
  String, ◌≡◌, refl, sym, ap, subst, some-injective, ◌∙◌, List, true, false, ◌≢◌, [], ◌∷◌, Option,
  none, some, Map, get, insert, remove, contains_key, ◌||◌, same, string_key, arith,
  get-insert_self, Bool-cases, inl, inr,
}
use drop_app.Prelude.Panics.{◌>>=◌, >>=-eq-some}
use drop_app.Prelude.Outcomes.{Outcome, ok, err, panic}
use drop_app.Prelude.Texts.{join_path, concat, ends_with}
use drop_app.Database.Models.{Database, new_database}
use drop_app.Database.Stored.{StoredDatabase, stored, persisted, restored-stored}
use drop_app.Database.Interface.{
  Rustbreak, DatabaseInterface, Disk, done, expect_ok, create_dirs, db_path, backup_path,
  games_base_dir, cache_dir_of, set_up_database, set_up_dirs, open_or_create,
  handle_invalid_database, shown_as, map_some, change, report_corrupted,
}

create_dirs-none :
    (create : String → Option String) (dirs : List String)
    → ((dir : String) → create dir ≡ none)
    → create_dirs create dirs ≡ some tt
unfolding create_dirs
create_dirs-none create [] h = refl
create_dirs-none create (dir ∷ dirs) h = rw (h dir) (create_dirs-none create dirs h)

expect_ok-eq-some {ℓ} :
    {A : Type ℓ} {a : A} (o : Outcome String A) → expect_ok o ≡ some a → o ≡ ok a
expect_ok-eq-some (ok a) h = ground arith
expect_ok-eq-some (err e) h = cc
expect_ok-eq-some panic h = cc

-- What stands before the name of a file in a directory.
join_path-prefix :
    (root : String)
    → (before : String) × ((name : String)
        → starts_with name "/" ≡ false
        → join_path root name ≡ append before name)
unfolding join_path concat
join_path-prefix root = elim (Bool-cases (str_eq root "" || ends_with root "/")) [
  | inl bare ↦ (root, λ name h. rw (h, bare) refl)
  | inr other ↦
      (append root "/", λ name h. rw (h, other, append-nil name) (sym (append_assoc root "/" name)))
]

shorter : (time : String) → "drop.db" ≢ concat ("drop.db.backup-" ∷ time ∷ [])
unfolding concat
shorter time h = omega (arith, ap count h, length-append "drop.db.backup-" (append time ""))

slash_ne_d : ◌≢◌ {A = String} "/" "d"
slash_ne_d h = cc ((eq_iff "/" "d").1 h)

relative : (time : String) → starts_with (concat ("drop.db.backup-" ∷ time ∷ [])) "/" ≡ false
unfolding concat
relative time = elim (Bool-cases (starts_with (append "drop.db.backup-" (append time "")) "/")) [
  | inr no_root ↦ no_root
  | inl root ↦
      let (rest, eq) = (starts_with_iff _ "/").0 root in
      let same_text = eq ∙ append_assoc "d" "rop.db.backup-" (append time "") in
      absurd (slash_ne_d (append_inj {s₁ = "/"} {s₂ = "d"} same_text refl).0)
]

backup-ne-db : (root time : String) → same (db_path root) (backup_path root time) ≡ false
backup-ne-db root time =
    let (before, joined) = join_path-prefix root in
    let suffix = concat ("drop.db.backup-" ∷ time ∷ []) in
    elim (Bool-cases (same (db_path root) (backup_path root time))) [
      | inr differ ↦ differ
      | inl equal ↦ absurd (
          shorter time (
            append_cancel_left before "drop.db" suffix
              (sym (joined "drop.db" refl) ∙ (eq_iff _ _).0 equal ∙ joined suffix (relative time))))
    ]

-- Changes one after the other, and what they make of a database.
abbrev pub change_all :
    {Bytes : Type 0}
    → Rustbreak Bytes
    → List (Database → Database)
    → DatabaseInterface Bytes
    → Option (DatabaseInterface Bytes)
change_all library [] db = some db
change_all library (f ∷ fs) db = change library f db >>= change_all library fs

abbrev pub changed : List (Database → Database) → Database → Database
changed [] d = d
changed (f ∷ fs) d = changed fs (f d)

module _ {Bytes : Type 0} (library : Rustbreak Bytes)
    (saves : (path : String) (d : StoredDatabase) (files after : Map String Bytes)
      → library.save path d files ≡ ok after
      → (library.load_from_path path after ≡ ok d) × (contains_key path after ≡ true)) where
  -- The file holds the database.
  abbrev Saved : DatabaseInterface Bytes → Type 0
  Saved db =
      (library.load_from_path db.path db.files ≡ ok (stored db.contents))
      × (contains_key db.path db.files ≡ true)

  change-Saved :
      (f : Database → Database) (db db' : DatabaseInterface Bytes)
      → change library f db ≡ some db'
      → Saved db' × (db'.path ≡ db.path) × (db'.contents ≡ f db.contents)
  unfolding change
  change-Saved f db db' h =
      let (files, saved, eq) =
        >>=-eq-some (expect_ok (library.save db.path (stored (f db.contents)) db.files)) _ h in
      let loads =
        saves db.path (stored (f db.contents)) db.files files (expect_ok-eq-some _ saved) in
      subst (λ x. Saved x × (x.path ≡ db.path) × (x.contents ≡ f db.contents)) (some-injective eq)
        (loads, refl, refl)

  change_all-Saved :
      (fs : List (Database → Database)) (db db' : DatabaseInterface Bytes)
      → Saved db
      → change_all library fs db ≡ some db'
      → Saved db' × (db'.path ≡ db.path) × (db'.contents ≡ changed fs db.contents)
  change_all-Saved [] db db' s h =
      subst (λ x. Saved x × (x.path ≡ db.path) × (x.contents ≡ db.contents)) (some-injective h)
        (s, refl, refl)
  change_all-Saved (f ∷ fs) db db' s h =
      let (next, first, rest) = >>=-eq-some (change library f db) _ h in
      let (saved, path, contents) = change-Saved f db next first in
      let (saved', path', contents') = change_all-Saved fs next db' saved rest in
      (saved', path' ∙ path, contents' ∙ ap (changed fs) contents)

report_corrupted_lem :
    {Bytes : Type 0} (library : Rustbreak Bytes) (canonicalize : String → Outcome String String)
    (backup : String) (db db' : DatabaseInterface Bytes) (shown : Option String)
    → db.contents.prev_database ≡ some backup
    → report_corrupted library canonicalize db ≡ some (shown, db')
    → (shown ≡ some (shown_as canonicalize backup)) × (db'.contents.prev_database ≡ none)
unfolding report_corrupted change
report_corrupted_lem library canonicalize backup db db' shown known report =
    let (after, changed, told) =
      >>=-eq-some (change library (λ d. record d { prev_database = none }) db) _ report in
    let (_, _, eq) = >>=-eq-some (expect_ok (library.save db.path _ db.files)) _ changed in
    (ground (arith, told, ap (map_some (shown_as canonicalize)) known), ground (arith, told, eq))

module _ {Bytes : Type 0} (library : Rustbreak Bytes) (disk : Disk) (root time : String)
    (dirs : (dir : String) → disk.create_dir_all dir ≡ none) (looked : disk.exists ≡ none) where
  set_up_database_lem :
      (files : Map String Bytes)
      → set_up_database library disk root time files
        ≡ open_or_create library (contains_key (db_path root) files) disk root time files
  unfolding set_up_database
  set_up_database_lem files =
      ground (arith, looked, create_dirs-none disk.create_dir_all (set_up_dirs root) dirs)

  -- Let saving put into the file what loading it gives back. A change that has returned, and all
  -- that were made before it and after it, are there when the client starts again: the database is then
  -- as the last of them left it, but that no game is in transit and no earlier database is known.
  pub change_then_set_up :
      (saves : (path : String) (d : StoredDatabase) (files after : Map String Bytes)
        → library.save path d files ≡ ok after
        → (library.load_from_path path after ≡ ok d) × (contains_key path after ≡ true))
      → (f : Database → Database) (fs : List (Database → Database))
        (db db' : DatabaseInterface Bytes)
      → db.path ≡ db_path root
      → change_all library (f ∷ fs) db ≡ some db'
      → set_up_database library disk root time db'.files
        ≡ some (record {
          path = db_path root;
          contents = persisted (changed (f ∷ fs) db.contents);
          files = db'.files;
        })
  change_then_set_up saves f fs db db' p h =
      let (next, first, rest) = >>=-eq-some (change library f db) _ h in
      let (saved, same_path, contents) = change-Saved library saves f db next first in
      let ((loads, found), same_path', contents') =
        change_all-Saved library saves fs next db' saved rest in
      let here : db'.path ≡ db_path root = same_path' ∙ same_path ∙ p in
      let is : db'.contents ≡ changed (f ∷ fs) db.contents = contents' ∙ ap (changed fs) contents in
      let loads_here = ap (λ x. library.load_from_path x db'.files) (sym here) ∙ loads in
      let found_here = ap (λ x. contains_key x db'.files) (sym here) ∙ found in
      set_up_database_lem db'.files
      ∙ rw (found_here, loads_here)
          (ap (λ d. some (record { path = db_path root; contents = d; files = db'.files }))
            (restored-stored db'.contents ∙ ap persisted is))

  -- Let making the file of a new database leave the other files alone. Where the file of the database
  -- cannot be loaded, and the start does not panic, the client starts with a new database, and what
  -- the file held is in a backup. The first report of a corrupted database shows the path of the
  -- backup, in its canonical form if there is one, and then no earlier database is known any more.
  pub set_up_invalid :
      (keeps : (path other : String) (d : StoredDatabase) (files after : Map String Bytes)
        → library.create_at_path path d files ≡ ok after
        → same path other ≡ false
        → get other after ≡ get other files)
      → (canonicalize : String → Outcome String String) (bytes : Bytes) (e : String)
        (files : Map String Bytes) (db db' : DatabaseInterface Bytes) (shown : Option String)
      → get (db_path root) files ≡ some bytes
      → library.load_from_path (db_path root) files ≡ err e
      → set_up_database library disk root time files ≡ some db
      → report_corrupted library canonicalize db ≡ some (shown, db')
      → (db.contents
          ≡ new_database (games_base_dir root) (some (backup_path root time)) (cache_dir_of root))
        × (get (backup_path root time) db.files ≡ some bytes)
        × (shown ≡ some (shown_as canonicalize (backup_path root time)))
        × (db'.contents.prev_database ≡ none)
  unfolding handle_invalid_database new_database
  set_up_invalid keeps canonicalize bytes e files db db' shown g l h report =
      let backup = backup_path root time in
      let fresh = new_database (games_base_dir root) (some backup) (cache_dir_of root) in
      let renamed = insert backup bytes (remove (db_path root) files) in
      let handled : handle_invalid_database library disk root time files ≡ some db =
        ground (arith, set_up_database_lem files, g, l, h) in
      let (_, moved, rest) = >>=-eq-some (done disk.rename) _ handled in
      let (after, created, eq) =
        >>=-eq-some (expect_ok (library.create_at_path (db_path root) (stored fresh) renamed)) _
          (rw g at rest) in
      let fresh_one : db.contents ≡ fresh = ground (arith, eq) in
      let (told, forgotten) =
        report_corrupted_lem library canonicalize backup db db' shown
          (ap (λ d. d.prev_database) fresh_one) report in
      let kept =
        keeps (db_path root) backup (stored fresh) renamed after (expect_ok-eq-some _ created)
          (backup-ne-db root time) in
      (
        fresh_one,
        ground (arith, eq, kept, get-insert_self backup bytes (remove (db_path root) files)),
        told,
        forgotten,
      )

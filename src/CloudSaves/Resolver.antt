-- ===== src/CloudSaves/Resolver.antt =====
-- src-tauri/cloud_saves/src/resolver.rs: collecting the saved files of a game into an archive, and
-- putting them back. The archive is the list of its entries with the path that each was read from, and
-- the bytes of its metadata;
-- `normalize` of normalise.rs, which rewrites by regular expressions, is an argument.
use Prim.Native.String.{String}
use text.Mathlib.Text.{◌==◌ as str_eq, starts_with}
use drop_app.Prelude.{ℕ, length, Bool, ◌||◌, Option, none, some, List, [], ◌∷◌, ◌++◌, if◌then◌else◌}
use drop_app.Prelude.Outcomes.{Outcome, ok, err, panic, ◌>>=◌, unwrap}
use drop_app.Prelude.Texts.{split, join_path}
use drop_app.Database.Metadata.{Platform}
use drop_app.Database.Models.{GameVersion}
use drop_app.CloudSaves.{CloudSaveMetadata, BackupError, Condition, os, GameFile}
use drop_app.CloudSaves.Placeholders
use drop_app.CloudSaves.Handlers.{Computer, BackupHandler, sources, find_source}

-- Empty components and further dots are left out.
unfoldable pub segments : List String → List String
segments [] = []
segments (s ∷ ss) = let rest = segments ss in if str_eq s "" || str_eq s "." then rest else s ∷ rest

abbrev pub after_dot : List String → List String
after_dot [] = []
after_dot (s ∷ ss) = if str_eq s "." then "." ∷ segments ss else segments (s ∷ ss)

-- `Path::components` on Unix: the root and a leading dot are components.
unfoldable pub components : String → List String
components path =
    let pieces = split "/" path in
    if starts_with path "/" then "/" ∷ segments pieces else after_dot pieces

abbrev pub translate : BackupHandler → GameVersion → String → Outcome BackupError String
translate h g s =
    if str_eq s Placeholders.root
    then h.root_translate g
    else if str_eq s Placeholders.game
    then h.game_translate g
    else if str_eq s Placeholders.base
    then h.base_translate g
    else if str_eq s Placeholders.home
    then h.home_translate g
    else if str_eq s Placeholders.store_user_id
    then h.store_user_id_translate g
    else if str_eq s Placeholders.os_user_name
    then h.os_user_name_translate g
    else if str_eq s Placeholders.win_app_data
    then h.win_app_data_translate g
    else if str_eq s Placeholders.win_local_app_data
    then h.win_local_app_data_translate g
    else if str_eq s Placeholders.win_local_app_data_low
    then h.win_local_app_data_low_translate g
    else if str_eq s Placeholders.win_documents
    then h.win_documents_translate g
    else if str_eq s Placeholders.win_public
    then h.win_public_translate g
    else if str_eq s Placeholders.win_program_data
    then h.win_program_data_translate g
    else if str_eq s Placeholders.win_dir
    then h.win_dir_translate g
    else if str_eq s Placeholders.xdg_data
    then h.xdg_data_translate g
    else if str_eq s Placeholders.xdg_config
    then h.xdg_config_translate g
    else if str_eq s Placeholders.skip
    then h.skip_translate g
    else ok s

-- `s.push(…)` for each component.
unfoldable pub push_components :
    BackupHandler → GameVersion → List String → String → Outcome BackupError String
push_components h g [] s = ok s
push_components h g (c ∷ cs) s = translate h g c >>= (λ t. push_components h g cs (join_path s t))

unfoldable pub parse_path : BackupHandler → GameVersion → String → Outcome BackupError String
parse_path h g path = push_components h g (components path) ""

-- The first condition on the operating system.
abbrev pub os_of : List Condition → Option Platform
os_of [] = none
os_of (os p ∷ cs) = some p
os_of (Condition.other ∷ cs) = os_of cs

-- What `metadata` says of a path.
pub data FileKind : Type 0 where
  directory plain_file special : FileKind

-- An entry's name, and the path it was read from or is copied to.
abbrev pub Entries : Type 0
Entries = List (String × String)

abbrev pub handler_for : Computer → Option Platform → Option (Platform × BackupHandler)
handler_for computer none = none
handler_for computer (some p) = elim (find_source (sources computer) computer.os p) [
  | none ↦ none
  | some h ↦ some (p, h)
]

abbrev pub with_id : String → GameFile → GameFile
with_id id f = record f { id = some id }

abbrev pub archive :
    Option FileKind → String → String → GameFile → Outcome BackupError (Entries × GameFile)
archive none id path f = panic
archive (some directory) id path f = ok ((id, path) ∷ [], with_id id f)
archive (some plain_file) id path f = ok ((id, path) ∷ [], with_id id f)
archive (some special) id path f = ok ([], with_id id f)

abbrev pub unwrap_path : Outcome BackupError String → Outcome BackupError String
unwrap_path (ok path) = ok path
unwrap_path (err e) = panic
unwrap_path panic = panic

-- `place` says whether the parent directory can be made and the item copied.
abbrev pub copy_to : (String → String → Bool) → String → String → Outcome BackupError Entries
copy_to place id path = if place id path then ok ((id, path) ∷ []) else panic

module _ (computer : Computer) (game_version : GameVersion) where
  module _ (normalize : String → Platform → String) (stat : String → Option FileKind) where
    abbrev pub resolve_by :
        Option (Platform × BackupHandler)
        → String
        → GameFile
        → Outcome BackupError (Entries × GameFile)
    resolve_by none id f = ok ([], f)
    resolve_by (some (p, h)) id f = do
      path ← unwrap_path (parse_path h game_version (normalize f.path p))
      archive (stat path) id path f

    -- Each file comes with the id that is drawn for it.
    unfoldable pub resolve_files :
        List (String × GameFile) → Outcome BackupError (Entries × List GameFile)
    resolve_files [] = ok ([], [])
    resolve_files ((id, f) ∷ fs) = do
      (entries, f') ← resolve_by (handler_for computer (os_of f.conditions)) id f
      (more, fs') ← resolve_files fs
      ok (entries ++ more, f' ∷ fs')

  module _ (place : String → String → Bool) where
    abbrev pub extract_by :
        Option (Platform × BackupHandler) → String → GameFile → Outcome BackupError Entries
    extract_by none id f = ok []
    extract_by (some (p, h)) id f = do
      path ← parse_path h game_version f.path
      copy_to place id path

    -- The copies that are made.
    unfoldable pub extract_files : List GameFile → Outcome BackupError Entries
    extract_files [] = ok []
    extract_files (f ∷ fs) = do
      id ← unwrap f.id
      copied ← extract_by (handler_for computer (os_of f.conditions)) id f
      more ← extract_files fs
      ok (copied ++ more)

-- What of `metadata` and of the archive's library is used: JSON to and from bytes, and what the entry
-- of an open file unpacks to, when it is appended while it stands at this position.
pub record ArchiveLibrary (Byte : Type 0) : Type 0 where
  pub to_string : CloudSaveMetadata → List Byte
  pub from_slice : List Byte → Option CloudSaveMetadata
  pub append_file : ℕ → List Byte → List Byte

-- The items under their ids, and the entry `metadata`.
pub record Archive (Byte : Type 0) : Type 0 where
  pub entries : Entries
  pub metadata : List Byte

module _ {Byte : Type 0} (library : ArchiveLibrary Byte) where
  -- The temporary file stands at its end when it has been written.
  abbrev pub append_metadata : CloudSaveMetadata → List Byte
  append_metadata meta =
      let serialized = library.to_string meta in library.append_file (length serialized) serialized

  unfoldable pub resolve :
      Computer
      → (String → Platform → String)
      → (String → Option FileKind)
      → GameVersion
      → String
      → List (String × GameFile)
      → Outcome BackupError (Archive Byte)
  resolve computer normalize stat game_version save_id files = do
    (entries, files') ← resolve_files computer game_version normalize stat files
    ok (record {
      entries = entries;
      metadata =
          append_metadata
            (record { files = files'; game_version = game_version; save_id = save_id });
    })

  unfoldable pub extract :
      Computer → (String → String → Bool) → Archive Byte → Outcome BackupError Entries
  extract computer place archived = do
    manifest ← unwrap (library.from_slice archived.metadata)
    extract_files computer manifest.game_version place manifest.files

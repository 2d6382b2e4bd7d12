-- ===== src/Games/Scan.antt =====
-- src-tauri/games/src/scan.rs: at start-up, the directories with data of an unfinished download become
-- games that are partially installed. What is found in the directories is an argument.
pub mod Imports
use drop_app.Prelude.{
  String, ◌≡◌, refl, Bool, true, false, List, [], ◌∷◌, Option, none, some, get, insert, same,
  string_key, contains_key, if◌then◌else◌, arith, get-insert, get-congr, All,
}
use drop_app.Prelude.Panics.{◌>>=◌}
use drop_app.Database.Metadata.{DownloadableMetadata, game}
use drop_app.Database.Models.{GameDownloadStatus, partially_installed}
use drop_app.Games.Library.{Client, set_partially_installed, mark_partially_installed}
use drop_app.Downloads.DropData.{DropData}

-- A directory: its name and, if it has a file of drop data, what reading that gives.
pub record Directory : Type 0 where
  pub file_name : String
  pub drop_data : Option (Option DropData)

abbrev pub scanned_meta : DropData → DownloadableMetadata
scanned_meta d = record { id = d.game_id; version = some d.game_version; download_type = game }

-- What is known of the game is looked up under the name of the directory.
abbrev pub scan_found : String → Option (Option DropData) → Client → Option Client
scan_found game_id none c = some c
scan_found game_id (some none) c = some c
scan_found game_id (some (some d)) c =
    if contains_key game_id c.db.game_statuses
    then some c
    else set_partially_installed (scanned_meta d) d.base_path false c

unfoldable pub scan_directories : List Directory → Client → Option Client
scan_directories [] c = some c
scan_directories (d ∷ ds) c = scan_found d.file_name d.drop_data c >>= scan_directories ds

abbrev pub entries_or_none : Option (List Directory) → List Directory
entries_or_none none = []
entries_or_none (some ds) = ds

-- An install directory that cannot be read is passed over.
unfoldable pub scan_dirs : (String → Option (List Directory)) → List String → Client → Option Client
scan_dirs read_dir [] c = some c
scan_dirs read_dir (dir ∷ dirs) c =
    scan_directories (entries_or_none (read_dir dir)) c >>= scan_dirs read_dir dirs

unfoldable pub scan_install_dirs : (String → Option (List Directory)) → Client → Option Client
scan_install_dirs read_dir c = scan_dirs read_dir c.db.install_dirs c

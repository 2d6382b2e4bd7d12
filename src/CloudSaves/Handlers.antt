-- ===== src/CloudSaves/Handlers.antt =====
-- src-tauri/cloud_saves/src/backup_manager.rs and path.rs: what each placeholder stands for on each
-- platform. No handler reads the path that it is asked with. What the library of directories finds
-- on this computer is an argument.
use drop_app.Prelude.{String, Option, none, some, List, [], ◌∷◌, if◌then◌else◌, ◌&&◌}
use drop_app.Prelude.Outcomes.{Outcome, ok, err, ok_or}
use drop_app.Prelude.Texts.{join_path}
use drop_app.Database.Metadata.{Platform, windows, linux, mac_os, platform_eq}
use drop_app.Database.Models.{GameVersion}
use drop_app.CloudSaves.{BackupError, invalid_system, not_found}

pub data CommonPath : Type 0 where
  config data_dir data_local data_local_low document home public_dir saved_games : CommonPath

-- This computer: its platform, the root of Drop's data, the name of the user, and its directories.
pub record Computer : Type 0 where
  pub os : Platform
  pub data_root_dir : String
  pub username : String
  pub known_dir : CommonPath → Option String

-- `CommonPath::get`: two of them are only known on Windows.
unfoldable pub get_common : Computer → CommonPath → Option String
get_common c data_local_low = if platform_eq c.os windows then c.known_dir data_local_low else none
get_common c saved_games = if platform_eq c.os windows then c.known_dir saved_games else none
get_common c config = c.known_dir config
get_common c data_dir = c.known_dir data_dir
get_common c data_local = c.known_dir data_local
get_common c document = c.known_dir document
get_common c home = c.known_dir home
get_common c public_dir = c.known_dir public_dir

abbrev pub Translate : Type 0
Translate = GameVersion → Outcome BackupError String

pub record BackupHandler : Type 0 where
  pub root_translate : Translate
  pub game_translate : Translate
  pub base_translate : Translate
  pub home_translate : Translate
  pub store_user_id_translate : Translate
  pub os_user_name_translate : Translate
  pub win_app_data_translate : Translate
  pub win_local_app_data_translate : Translate
  pub win_local_app_data_low_translate : Translate
  pub win_documents_translate : Translate
  pub win_public_translate : Translate
  pub win_program_data_translate : Translate
  pub win_dir_translate : Translate
  pub xdg_data_translate : Translate
  pub xdg_config_translate : Translate
  pub skip_translate : Translate

abbrev pub common : Computer → CommonPath → Translate
common c path game = ok_or (get_common c path) not_found

abbrev pub unexpected : Translate
unexpected game = err invalid_system

abbrev root_of : Computer → String
root_of c = join_path c.data_root_dir "games"

-- The trait's own methods, which a handler has unless it gives its own.
unfoldable pub default_handler : Computer → BackupHandler
default_handler c = record {
  root_translate = λ game. ok (root_of c);
  game_translate = λ game. ok game.game_id;
  base_translate = λ game. ok (join_path (root_of c) game.game_id);
  home_translate = common c home;
  store_user_id_translate = λ game. ok game.game_id;
  os_user_name_translate = λ game. ok c.username;
  win_app_data_translate = unexpected;
  win_local_app_data_translate = unexpected;
  win_local_app_data_low_translate = unexpected;
  win_documents_translate = unexpected;
  win_public_translate = unexpected;
  win_program_data_translate = unexpected;
  win_dir_translate = unexpected;
  xdg_data_translate = unexpected;
  xdg_config_translate = unexpected;
  skip_translate = λ game. ok "";
}

unfoldable pub linux_backup_manager : Computer → BackupHandler
linux_backup_manager c = record (default_handler c) {
  xdg_config_translate = common c data_dir;
  xdg_data_translate = common c config;
}

unfoldable pub windows_backup_manager : Computer → BackupHandler
windows_backup_manager c = record (default_handler c) {
  win_app_data_translate = common c config;
  win_local_app_data_translate = common c data_local;
  win_local_app_data_low_translate = common c data_local_low;
  win_dir_translate = λ game. ok "C:/Windows";
  win_documents_translate = common c document;
  win_program_data_translate = λ game. ok "C:/ProgramData";
  win_public_translate = common c public_dir;
}

unfoldable pub mac_backup_manager : Computer → BackupHandler
mac_backup_manager c = default_handler c

pub record Source : Type 0 where
  pub current : Platform
  pub target : Platform
  pub handler : BackupHandler

-- `BackupManager::new`
abbrev pub sources : Computer → List Source
sources c =
    record { current = windows; target = windows; handler = windows_backup_manager c }
    ∷ record { current = linux; target = linux; handler = linux_backup_manager c }
    ∷ record { current = mac_os; target = mac_os; handler = mac_backup_manager c }
    ∷ []

unfoldable pub find_source : List Source → Platform → Platform → Option BackupHandler
find_source [] current target = none
find_source (s ∷ ss) current target =
    let rest = find_source ss current target in
    if platform_eq s.current current && platform_eq s.target target then some s.handler else rest

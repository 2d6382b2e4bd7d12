-- ===== src/Process/Compat.antt =====
-- src-tauri/client/src/compat.rs: whether umu, which runs Windows games, is installed and where. The
-- host that the program was built for and runs on is an argument.
use drop_app.Prelude.{String, Bool, ℕ, List, [], ◌∷◌, Option, none, some, is_some, if◌then◌else◌}
use drop_app.Prelude.Texts.{join_path}
use drop_app.Database.Metadata.{Platform, windows, platform_eq}

-- `executable_exists` says whether starting the executable succeeds.
pub record Host : Type 0 where
  pub os : Platform
  pub is_aarch64 : Bool
  pub page_size : ℕ
  pub executable_exists : String → Bool

pub record CompatInfo : Type 0 where
  pub umu_installed : Bool

abbrev umu_base_launcher_executable : String
umu_base_launcher_executable = "umu-run"

abbrev umu_install_dirs : List String
umu_install_dirs = "/app/share" ∷ "/use/local/share" ∷ "/usr/share" ∷ "/opt" ∷ []

unfoldable pub search_dirs : Host → List String → Option String
search_dirs h [] = none
search_dirs h (dir ∷ dirs) =
    let rest = search_dirs h dirs in
    let p = join_path dir umu_base_launcher_executable in
    if h.executable_exists p then some p else rest

unfoldable pub get_umu_executable : Host → Option String
get_umu_executable h =
    if h.executable_exists umu_base_launcher_executable
    then some umu_base_launcher_executable
    else search_dirs h umu_install_dirs

unfoldable pub create_new_compat_info : Host → Option CompatInfo
create_new_compat_info h =
    if platform_eq h.os windows
    then none
    else some (record { umu_installed = is_some (get_umu_executable h) })

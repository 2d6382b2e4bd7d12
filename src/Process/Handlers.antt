-- ===== src/Process/Handlers.antt =====
-- src-tauri/process/src/process_handlers.rs and the trait `ProcessHandler` of process_manager.rs: how
-- a game is started on its platform. None of the handlers reads the database that it is asked with.
use drop_app.Prelude.{
  String, Bool, true, false, ◌&&◌, ◌==◌, List, [], ◌∷◌, Option, none, some, if◌then◌else◌,
}
use text.Mathlib.Text.{◌==◌ as str_eq}
use drop_app.Prelude.Outcomes.{Outcome, ok, ◌>>=◌, ok_or, unwrap}
use drop_app.Prelude.Texts.{concat, join, split, trim}
use drop_app.Database.Metadata.{Platform, linux, DownloadableMetadata, platform_eq}
use drop_app.Database.Models.{GameVersion, DatabaseApplications}
use drop_app.Process.{ProcessError, invalid_arguments}
use drop_app.Process.Compat.{Host, CompatInfo, get_umu_executable, create_new_compat_info}

pub record ProcessHandler : Type 0 where
  pub create_launch_process :
      DownloadableMetadata
      → String
      → List String
      → GameVersion
      → String
      → Outcome ProcessError String
  pub valid_for_platform : DatabaseApplications → Platform → Bool

-- The quotes around the command, and the arguments after it.
abbrev quoted : String → List String → List String
quoted command args = "\"" ∷ command ∷ "\" " ∷ join " " args ∷ []

unfoldable pub native_game_launcher : ProcessHandler
native_game_launcher = record {
  create_launch_process = λ meta command args version dir. ok (concat (quoted command args));
  valid_for_platform = λ db target. true;
}

abbrev pub umu_id_of : Option String → String → String
umu_id_of none id = id
umu_id_of (some override) id = if str_eq override "" then id else override

-- `{umu:?}` puts quotes around the path; the paths that are searched hold nothing to escape.
unfoldable pub umu_launch_process :
    Host → String → List String → GameVersion → Outcome ProcessError String
umu_launch_process h command args version = do
  umu ← unwrap (get_umu_executable h)
  let id = umu_id_of version.umu_id_override version.game_id
  ok (concat ("GAMEID=" ∷ id ∷ " \"" ∷ umu ∷ "\" " ∷ quoted command args))

abbrev pub umu_installed_of : Option CompatInfo → Bool
umu_installed_of none = false
umu_installed_of (some info) = info.umu_installed

unfoldable pub umu_launcher : Host → ProcessHandler
umu_launcher h = record {
  create_launch_process =
      λ meta command args version dir. umu_launch_process h command args version;
  valid_for_platform = λ db target. umu_installed_of (create_new_compat_info h);
}

abbrev pub piece : List String → Option String
piece [] = none
piece (s ∷ ss) = some s

abbrev pub pieces_after : List String → List String
pieces_after [] = []
pieces_after (s ∷ ss) = ss

unfoldable pub asahi_launch_process :
    Host → String → List String → GameVersion → Outcome ProcessError String
asahi_launch_process h command args version = do
  umu_string ← umu_launch_process h command args version
  let pieces = split "umu-run" umu_string
  env ← ok_or (piece pieces) (invalid_arguments umu_string)
  cmd ← ok_or (piece (pieces_after pieces)) (invalid_arguments umu_string)
  ok (concat (trim env ∷ " muvm -- " ∷ "umu-run" ∷ cmd ∷ []))

-- Only on Linux on ARM with pages of 16 KiB.
unfoldable pub asahi_valid : Host → Bool
asahi_valid h =
    platform_eq h.os linux
    && h.is_aarch64
    && h.page_size == 16384
    && umu_installed_of (create_new_compat_info h)

unfoldable pub asahi_muvm_launcher : Host → ProcessHandler
asahi_muvm_launcher h = record {
  create_launch_process =
      λ meta command args version dir. asahi_launch_process h command args version;
  valid_for_platform = λ db target. asahi_valid h;
}

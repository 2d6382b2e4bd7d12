-- ===== src/Tests/CloudSaves.antt =====
-- Test data and tests of CloudSaves.
use Prim.Native.String.{String}
use drop_app.Prelude.{drop, ◌≡◌, refl, true, Option, none, some, List, [], ◌∷◌}
use drop_app.Prelude.Outcomes.{ok, err, panic}
use drop_app.Prelude.Texts.{join_path, split, split_from, ends_with, concat}
use drop_app.Database.Metadata.{Platform, linux, platform_eq}
use drop_app.CloudSaves.{CloudSaveMetadata, GameFile, file, os, invalid_system}
use drop_app.CloudSaves.Handlers.{
  BackupHandler, Computer, CommonPath, config, data_dir, home, get_common, find_source,
  linux_backup_manager, default_handler,
}
use drop_app.CloudSaves.Resolver.{
  parse_path, push_components, components, segments, FileKind, plain_file, resolve, extract,
  resolve_files, Archive, ArchiveLibrary, with_id,
}
use drop_app.CloudSaves.Restore.{extract_not_rewound}
use drop_app.Tests.Client.{version_one}

abbrev dir_of : CommonPath → Option String
dir_of config = some "/home/ann/.config"
dir_of data_dir = some "/home/ann/.local/share"
dir_of home = some "/home/ann"
dir_of _ = none

abbrev computer : Computer
computer = record {
  os = linux;
  data_root_dir = "/home/ann/.drop";
  username = "ann";
  known_dir = dir_of;
}

abbrev handler : BackupHandler
handler = linux_backup_manager computer

home_path : parse_path handler version_one "<home>/saves/./a" ≡ ok "/home/ann/saves/a"
unfolding parse_path push_components components split split_from segments linux_backup_manager
    default_handler get_common join_path ends_with concat
home_path = refl

-- The directory of the configuration.
xdg_data_path : parse_path handler version_one "<xdgData>/a" ≡ ok "/home/ann/.config/a"
unfolding parse_path push_components components split split_from segments linux_backup_manager
    get_common join_path ends_with concat
xdg_data_path = refl

windows_path : parse_path handler version_one "<winDir>/a" ≡ err invalid_system
unfolding parse_path push_components components split split_from segments linux_backup_manager
    default_handler join_path ends_with concat
windows_path = refl

abbrev as_is : String → Platform → String
as_is path p = path

abbrev stat : String → Option FileKind
stat path = some plain_file

abbrev save : GameFile
save = record { path = "/s"; id = none; data_type = file; tags = []; conditions = os linux ∷ [] }

abbrev files : List (String × GameFile)
files = ("1", save) ∷ []

is_resolved :
    resolve_files computer version_one as_is stat files
    ≡ ok (("1", "/s") ∷ [], with_id "1" save ∷ [])
unfolding resolve_files find_source platform_eq parse_path push_components components split
    split_from segments join_path ends_with concat
is_resolved = refl

abbrev left_out : GameFile
left_out = record save { conditions = [] }

-- Texts whose only letter is what they stand for.
abbrev read_letter : List CloudSaveMetadata → Option CloudSaveMetadata
read_letter [] = none
read_letter (m ∷ ms) = some m

abbrev rewinding : ArchiveLibrary CloudSaveMetadata
rewinding = record {
  to_string = λ m. m ∷ [];
  from_slice = read_letter;
  append_file = λ position contents. contents;
}

abbrev reading_on : ArchiveLibrary CloudSaveMetadata
reading_on = record rewinding { append_file = λ position contents. drop position contents }

abbrev meta : CloudSaveMetadata
meta = record { files = with_id "1" save ∷ []; game_version = version_one; save_id = "s" }

abbrev backed_up : Archive CloudSaveMetadata
backed_up = record { entries = ("1", "/s") ∷ []; metadata = meta ∷ [] }

abbrev lost : Archive CloudSaveMetadata
lost = record backed_up { metadata = [] }

is_lost : resolve reading_on computer as_is stat version_one "s" files ≡ ok lost
unfolding resolve resolve_files find_source platform_eq parse_path push_components components split
    split_from segments join_path ends_with concat
is_lost = refl

restoring_lost : extract reading_on computer (λ i path. true) lost ≡ panic
restoring_lost =
    extract_not_rewound reading_on computer version_one as_is stat (λ i path. true)
      (λ position contents. refl) refl "s" files lost is_lost

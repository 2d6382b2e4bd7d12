-- ===== src/Commands/Details.antt =====
-- The commands of src-tauri/src/games.rs on one game: reading it, uninstalling it, changing its
-- configuration. `answer` is what the request comes to, an error before it is sent included.
use drop_app.Prelude.{
  String, ◌==◌, List, Option, none, some, Map, get, insert, string_key, if◌then◌else◌,
}
use drop_app.Prelude.Outcomes.{Outcome, ok, err, panic, ◌>>=◌, ok_or, unwrap}
use drop_app.Database.Metadata.{DownloadableMetadata}
use drop_app.Database.Models.{DatabaseApplications, GameVersion}
use drop_app.Games.State.{GameStatusWithTransient, fetch_state}
use drop_app.Games.Library.{Client, uninstall_game_logic}
use drop_app.Remote.Error.{
  RemoteAccessError, DropServerError, invalid_response, game_not_found, fetch_error,
}
use drop_app.Remote.Cache.{Writing, Codec, cache_object_db, get_cached_object_db}
use drop_app.Remote.Auth.{Reply, no_reply, reply, map_fetch}
use drop_app.Process.Manager.{ProcessManager, valid_platform}
use drop_app.Commands.{Game, App, LibraryError, meta_not_found, version_not_found}
use drop_app.Commands.Library.{or_remote, filter}

pub record FetchGameStruct : Type 0 where
  pub game : Game
  pub status : GameStatusWithTransient
  pub version : Option GameVersion

pub record FrontendGameOptions : Type 0 where
  pub launch_string : String

abbrev pub named_version :
    Option (Map String GameVersion) → Option String → Outcome RemoteAccessError (Option GameVersion)
named_version none version = ok none
named_version (some versions) version = do
  name ← unwrap version
  found ← unwrap (get name versions)
  ok (some found)

abbrev version_of_meta :
    DatabaseApplications
    → Option DownloadableMetadata
    → Outcome RemoteAccessError (Option GameVersion)
version_of_meta db none = ok none
version_of_meta db (some meta) = named_version (get meta.id db.game_versions) meta.version

-- The data of the installed version, if the game has any versions; a missing one is a panic.
unfoldable pub installed_version :
    DatabaseApplications → String → Outcome RemoteAccessError (Option GameVersion)
installed_version db id = version_of_meta db (get id db.installed_game_version)

unfoldable pub fetch_game_status : DatabaseApplications → String → GameStatusWithTransient
fetch_game_status db id = fetch_state id db

abbrev pub get_current_meta : DatabaseApplications → String → Option DownloadableMetadata
get_current_meta db game_id = get game_id db.installed_game_version

-- With the directory that the spawned thread goes on to remove, if any.
unfoldable pub uninstall_game : String → Client → Outcome LibraryError (Client × Option String)
uninstall_game game_id c = do
  meta ← ok_or (get_current_meta c.db game_id) (meta_not_found game_id)
  unwrap (uninstall_game_logic meta c)

unfoldable pub update_game_configuration :
    String → FrontendGameOptions → Client → Outcome LibraryError Client
update_game_configuration game_id options c = do
  meta ← ok_or (get game_id c.db.installed_game_version) (meta_not_found game_id)
  version ← ok_or meta.version (version_not_found meta.id)
  versions ← unwrap (get meta.id c.db.game_versions)
  existing ← unwrap (get version versions)
  let updated = record existing { launch_command_template = options.launch_string }
  let game_versions = insert meta.id (insert version updated versions) c.db.game_versions
  ok (record c { db = record c.db { game_versions = game_versions } })

-- The list of versions in a reply.
abbrev read_versions : Reply (List GameVersion) → Outcome RemoteAccessError (List GameVersion)
read_versions (no_reply e) = err (fetch_error e)
read_versions (reply status error versions) =
    let refused = map_fetch error >>= (λ e. err (invalid_response e)) in
    if status == 200 then map_fetch versions else refused

-- Only the versions that this host can run.
unfoldable pub fetch_game_version_options_logic :
    {Child : Type 0}
    → Outcome RemoteAccessError (Reply (List GameVersion))
    → ProcessManager Child
    → DatabaseApplications
    → Outcome RemoteAccessError (List GameVersion)
fetch_game_version_options_logic answer m db = do
  versions ← answer >>= read_versions
  ok (filter (λ (v : GameVersion). valid_platform m db v.platform) versions)

abbrev pub add_game : {Bytes : Type 0} → String → Game → App Bytes → App Bytes
add_game id game app = record app {
  games = insert id game app.games;
  client = record app.client {
    db = record app.client.db { game_statuses = or_remote id app.client.db.game_statuses };
  };
}

abbrev pub not_found :
    String → Outcome RemoteAccessError FetchGameStruct → Outcome RemoteAccessError FetchGameStruct
not_found id (ok shown) = ok shown
not_found id (err e) = err (game_not_found id)
not_found id panic = panic

abbrev pub refuse : DropServerError → Outcome RemoteAccessError Game
refuse e = err (invalid_response e)

module _ {Bytes : Type 0} (key_hash : String → String) (codec : Codec Bytes Game)
    (cache_dir : String) where
  unfoldable pub fetch_game_logic_offline :
      String → App Bytes → Outcome RemoteAccessError FetchGameStruct
  fetch_game_logic_offline id app = do
    version ← installed_version app.client.db id
    game ← get_cached_object_db key_hash codec id cache_dir app.files
    ok (record { game = game; status = fetch_state id app.client.db; version = version })

  -- The game is shown if it could be cached.
  abbrev pub show :
      String
      → Game
      → Option GameVersion
      → Writing Bytes
      → App Bytes
      → Outcome RemoteAccessError FetchGameStruct × App Bytes
  show id game version writing app =
      let (error, files) = cache_object_db key_hash codec writing id game cache_dir app.files in
      let shown =
        ok (record { game = game; status = fetch_state id app.client.db; version = version }) in
      (elim error [ none ↦ shown | some e ↦ err e ], record app { files = files })

  abbrev pub receive :
      String
      → Outcome RemoteAccessError Game
      → Option GameVersion
      → Writing Bytes
      → App Bytes
      → Outcome RemoteAccessError FetchGameStruct × App Bytes
  receive id (ok game) version writing app = show id game version writing (add_game id game app)
  receive id (err e) version writing app = (err e, app)
  receive id panic version writing app = (panic, app)

  abbrev pub read_reply :
      String
      → Outcome RemoteAccessError (Reply Game)
      → Option GameVersion
      → Writing Bytes
      → App Bytes
      → Outcome RemoteAccessError FetchGameStruct × App Bytes
  read_reply id panic version writing app = (panic, app)
  read_reply id (err e) version writing app = (err e, app)
  read_reply id (ok (no_reply e)) version writing app = (err (fetch_error e), app)
  read_reply id (ok (reply status error game)) version writing app =
      if status == 404
      then (not_found id (fetch_game_logic_offline id app), app)
      else if status == 200
      then receive id (map_fetch game) version writing app
      else receive id (map_fetch error >>= refuse) version writing app

  abbrev pub known_or_fetched :
      Outcome RemoteAccessError (Option GameVersion)
      → Option Game
      → String
      → Outcome RemoteAccessError (Reply Game)
      → Writing Bytes
      → App Bytes
      → Outcome RemoteAccessError FetchGameStruct × App Bytes
  known_or_fetched panic known id answer writing app = (panic, app)
  known_or_fetched (err e) known id answer writing app = (err e, app)
  known_or_fetched (ok version) (some game) id answer writing app = show id game version writing app
  known_or_fetched (ok version) none id answer writing app =
      read_reply id answer version writing app

  unfoldable pub fetch_game_logic :
      String
      → Outcome RemoteAccessError (Reply Game)
      → Writing Bytes
      → App Bytes
      → Outcome RemoteAccessError FetchGameStruct × App Bytes
  fetch_game_logic id answer writing app =
      known_or_fetched (installed_version app.client.db id) (get id app.games) id answer writing app

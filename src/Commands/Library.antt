-- ===== src/Commands/Library.antt =====
-- `fetch_library` of src-tauri/src/games.rs, online and offline. `answer` is what the request comes to,
-- an error before it is sent included.
use drop_app.Prelude.{
  String, Bool, true, false, ◌||◌, ◌==◌, List, [], ◌∷◌, ◌++◌, Option, none, some, Map, get, insert,
  same, contains_key, string_key, if◌then◌else◌,
}
use drop_app.Prelude.Outcomes.{Outcome, ok, err, panic, ◌>>=◌}
use drop_app.Database.Metadata.{DownloadableMetadata}
use drop_app.Database.Models.{GameDownloadStatus, remote}
use drop_app.Games.Library.{needs_version}
use drop_app.Remote.Error.{RemoteAccessError, DropServerError, invalid_response, fetch_error}
use drop_app.Remote.Cache.{Files, Writing, Codec, cache_object_db, get_cached_object_db}
use drop_app.Remote.Auth.{Reply, no_reply, reply, map_fetch}
use drop_app.Commands.{Game, App}

unfoldable pub filter {ℓ} : {A : Type ℓ} → (A → Bool) → List A → List A
filter p [] = []
filter p (x ∷ xs) = let rest = filter p xs in if p x then x ∷ rest else rest

-- `entry(id).or_insert(Remote)`
abbrev pub or_remote : String → Map String GameDownloadStatus → Map String GameDownloadStatus
or_remote id m = if contains_key id m then m else insert id remote m

unfoldable pub add_statuses :
    List Game → Map String GameDownloadStatus → Map String GameDownloadStatus
add_statuses [] m = m
add_statuses (g ∷ gs) m = add_statuses gs (or_remote g.id m)

unfoldable pub add_games : List Game → Map String Game → Map String Game
add_games [] m = m
add_games (g ∷ gs) m = add_games gs (insert g.id g m)

unfoldable pub in_library : String → List Game → Bool
in_library id [] = false
in_library id (g ∷ gs) = same g.id id || in_library id gs

abbrev invalid_reply : Outcome String DropServerError → DropServerError
invalid_reply (ok e) = e
invalid_reply (err e) = record {
  status_code = 500;
  status_message = "Invalid response from server.";
}
invalid_reply panic = record { status_code = 500; status_message = "Invalid response from server." }

-- `unwrap_or(false)`
abbrev pub or_false : Option Bool → Bool
or_false none = false
or_false (some b) = b

-- `!do_hard_refresh && let Ok(library) = …`
abbrev pub usable : Bool → Outcome RemoteAccessError (List Game) → Option (List Game)
usable true cached = none
usable false (ok library) = some library
usable false (err e) = none
usable false panic = none

-- The list of games in a reply.
abbrev pub read_games : Reply (List Game) → Outcome RemoteAccessError (List Game)
read_games (no_reply e) = err (fetch_error e)
read_games (reply status error games) =
    if status == 200 then map_fetch games else err (invalid_response (invalid_reply error))

abbrev pub is_playable : Map String GameDownloadStatus → Game → Bool
is_playable statuses game = needs_version (get game.id statuses)

abbrev pub push_cached : Outcome RemoteAccessError Game → List Game → List Game
push_cached (ok game) games = games ++ game ∷ []
push_cached (err e) games = games
push_cached panic games = games

module _ {Bytes : Type 0} (key_hash : String → String) (game_codec : Codec Bytes Game)
    (cache_dir : String) where
  -- A game that is installed and not in the list is added as the cache has it, if it has.
  unfoldable pub add_if_missing : Files Bytes → DownloadableMetadata → List Game → List Game
  add_if_missing files meta games =
      if in_library meta.id games
      then games
      else push_cached (get_cached_object_db key_hash game_codec meta.id cache_dir files) games

  unfoldable pub add_installed :
      Files Bytes → List (String × DownloadableMetadata) → List Game → List Game
  add_installed files [] games = games
  add_installed files ((id, meta) ∷ metas) games =
      add_installed files metas (add_if_missing files meta games)

  unfoldable pub merge : List Game → App Bytes → List Game × App Bytes
  merge games app =
      let client = record app.client {
        db = record app.client.db {
          game_statuses = add_statuses games app.client.db.game_statuses;
        };
      } in
      (
        add_installed app.files client.db.installed_game_version games,
        record app { games = add_games games app.games; client = client },
      )

  module _ (codec : Codec Bytes (List Game)) where
    abbrev conclude :
        List Game
        → Option RemoteAccessError × Files Bytes
        → App Bytes
        → Outcome RemoteAccessError (List Game) × App Bytes
    conclude games (none, files) app = (ok games, record app { files = files })
    conclude games (some e, files) app = (err e, record app { files = files })

    abbrev pub fetched :
        Outcome RemoteAccessError (List Game)
        → Writing Bytes
        → App Bytes
        → Outcome RemoteAccessError (List Game) × App Bytes
    fetched panic writing app = (panic, app)
    fetched (err e) writing app = (err e, app)
    fetched (ok games) writing app =
        let (library, app') = merge games app in
        conclude library
          (cache_object_db key_hash codec writing "library" library cache_dir app'.files) app'

    unfoldable pub fetch_library_logic :
        Option Bool
        → Outcome RemoteAccessError (Reply (List Game))
        → Writing Bytes
        → App Bytes
        → Outcome RemoteAccessError (List Game) × App Bytes
    fetch_library_logic hard_fresh answer writing app =
        let refetched = fetched (answer >>= read_games) writing app in
        let cached = get_cached_object_db key_hash codec "library" cache_dir app.files in
        elim (usable (or_false hard_fresh) cached) [
          | some library ↦ (ok library, app)
          | none ↦ refetched
        ]

    unfoldable pub fetch_library_logic_offline : App Bytes → Outcome RemoteAccessError (List Game)
    fetch_library_logic_offline app = do
      games ← get_cached_object_db key_hash codec "library" cache_dir app.files
      ok (filter (is_playable app.client.db.game_statuses) games)

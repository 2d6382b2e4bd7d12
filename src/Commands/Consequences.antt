-- ===== src/Commands/Consequences.antt =====
-- What the commands on one game do after others: offline after online, and after a partial install.
use drop_app.Prelude.{
  String, ◌≡◌, refl, sym, ap, ◌∙◌, Bool, true, false, ◌==◌, Option, none, some, Map, get, insert,
  same, string_key, arith, get-insert, get-insert_self, Bool-cases, Option-cases, inl, inr, ◌⊎◌,
  some-injective, is_some, if◌then◌else◌,
}
use drop_app.Prelude.Outcomes.{Outcome, ok, err, panic, ◌>>=◌}
use drop_app.Prelude.Panics.{◌>>=◌ as and_then, >>=-eq-some}
use drop_app.Database.Metadata.{DownloadableMetadata}
use drop_app.Database.Models.{GameVersion}
use drop_app.Games.Library.{
  Client, set_partially_installed, mark_partially_installed, push_game_update, emit,
}
use drop_app.Remote.Error.{RemoteAccessError}
use drop_app.Remote.Cache.{
  written, Codec, cache_object_db, get_cached_object_written, write_sync, write_to,
}
use drop_app.Remote.Auth.{Reply, no_reply, reply, map_fetch}
use drop_app.Process.Ends.{Consistent}
use drop_app.Process.Finish.{installed_version_data}
use drop_app.Commands.{Game, App}
use drop_app.Commands.Details.{
  FetchGameStruct, FrontendGameOptions, installed_version, update_game_configuration,
  fetch_game_logic, fetch_game_logic_offline, known_or_fetched, show, read_reply, receive,
  not_found, add_game, refuse,
}

-- Changing the configuration of a game that the database is consistent for does not fail: the data of
-- its installed version has the new template, and is otherwise as it was; so are all statuses and the
-- data of other games.
pub update_game_configuration_lem :
    (id : String) (options : FrontendGameOptions) (meta : DownloadableMetadata) (g : GameVersion)
    (c : Client)
    → Consistent id meta g c
    → (c' : Client) × (update_game_configuration id options c ≡ ok c')
      × Consistent id meta (record g { launch_command_template = options.launch_string }) c'
      × (c'.db.game_statuses ≡ c.db.game_statuses)
      × ((other : String)
          → same id other ≡ false
          → get other c'.db.game_versions ≡ get other c.db.game_versions)
unfolding update_game_configuration installed_version_data
update_game_configuration_lem id options meta g c (i, t, known, entry) =
    let (versions, found, named) = >>=-eq-some (get id c.db.game_versions) _ entry in
    let (version, v, data_of) = >>=-eq-some meta.version _ named in
    let updated : GameVersion = record g { launch_command_template = options.launch_string } in
    let stored = insert version updated versions in
    let game_versions = insert meta.id stored c.db.game_versions in
    let found' = ap (λ x. get x c.db.game_versions) i ∙ found in
    let found'' =
      sym (ap (λ x. get x game_versions) i) ∙ get-insert_self meta.id stored c.db.game_versions in
    let c' : Client = record c { db = record c.db { game_versions = game_versions } } in
    (
      c',
      rw (known, update_game_configuration, v, found', data_of) refl,
      (i, t, known, rw (found'', v) (get-insert_self version updated versions)),
      refl,
      λ other apart. ground (arith, get-insert meta.id other stored c.db.game_versions),
    )

push_game_update-db :
    (id : String) (v : Option GameVersion) (status : _) (c c' : Client)
    → push_game_update id v status c ≡ some c'
    → c'.db ≡ c.db
unfolding push_game_update emit
push_game_update-db id none status c c' h = ground arith
push_game_update-db id (some v) status c c' h = sym (ap (λ x. x.db) (some-injective h))

set_partially_installed-db :
    (meta : DownloadableMetadata) (dir : String) (push : Bool) (c c' : Client)
    → set_partially_installed meta dir push c ≡ some c'
    → (v : String) × (meta.version ≡ some v) × (c'.db ≡ (mark_partially_installed meta v dir c).db)
unfolding set_partially_installed
set_partially_installed-db meta dir true c c' h =
    let (v, named, pushed) = >>=-eq-some meta.version _ h in
    (v, named, push_game_update-db _ _ _ (mark_partially_installed meta v dir c) c' pushed)
set_partially_installed-db meta dir false c c' h =
    let (v, named, marked) = >>=-eq-some meta.version _ h in
    (v, named, sym (ap (λ x. x.db) (some-injective marked)))

-- What a partial install says of the installed version: which it is, and no data.
set_partially_installed-known :
    (meta : DownloadableMetadata) (dir : String) (push : Bool) (c c' : Client)
    → set_partially_installed meta dir push c ≡ some c'
    → (v : String) × (meta.version ≡ some v)
      × (get meta.id c'.db.installed_game_version ≡ some meta)
      × (c'.db.game_versions ≡ c.db.game_versions)
unfolding mark_partially_installed
set_partially_installed-known meta dir push c c' h =
    let (v, named, same_db) = set_partially_installed-db meta dir push c c' h in
    (
      v,
      named,
      ap (λ x. get meta.id x.installed_game_version) same_db
          ∙ get-insert_self meta.id meta c.db.installed_game_version,
      ap (λ x. x.game_versions) same_db,
    )

no_data :
    (id v : String) (versions : Map String (Map String GameVersion))
    → and_then (get id versions) (get v) ≡ none
    → (get id versions ≡ none)
      ⊎ ((vs : Map String GameVersion) × (get id versions ≡ some vs) × (get v vs ≡ none))
no_data id v versions h = elim (Option-cases (get id versions)) [
  | inl unknown ↦ inl unknown
  | inr (vs, known) ↦ inr (vs, known, (rw known at h))
]

-- A partial install of a version of which the database has no data makes it the installed one, still
-- without data. Changing the configuration of the game then panics; reading its installed version,
-- which showing the game begins with, panics if the database has data of another version of it, and
-- otherwise finds none.
pub partial_install_panics :
    (meta : DownloadableMetadata) (v dir : String) (push : Bool) (c c' : Client)
    (options : FrontendGameOptions)
    → set_partially_installed meta dir push c ≡ some c'
    → meta.version ≡ some v
    → and_then (get meta.id c.db.game_versions) (get v) ≡ none
    → (update_game_configuration meta.id options c' ≡ panic)
      × (installed_version c'.db meta.id
          ≡ (if is_some (get meta.id c.db.game_versions) then panic else ok none))
unfolding update_game_configuration installed_version
partial_install_panics meta v dir push c c' options h named absent =
    let (_, _, known, versions) = set_partially_installed-known meta dir push c c' h in
    let same_data = ap (get meta.id) versions in
    elim (no_data meta.id v c.db.game_versions absent) [
      | inl fresh ↦ (
        rw (known, update_game_configuration, named, same_data ∙ fresh) refl,
        rw (known, installed_version, same_data ∙ fresh, fresh) refl,
      )
      | inr (others, found, missing) ↦ (
        rw (known, update_game_configuration, named, same_data ∙ found, missing) refl,
        rw (known, installed_version, same_data ∙ found, named, missing, found) refl,
      )
    ]

module _ {Bytes : Type 0} (key_hash : String → String) (codec : Codec Bytes Game)
    (cache_dir : String) (decodes : (g : Game) → codec.decode (codec.encode g) ≡ ok g) where
  show-offline :
      (id : String) (g : Game) (version : Option GameVersion) (app app' : App Bytes)
      (shown : FetchGameStruct)
      → installed_version app.client.db id ≡ ok version
      → show key_hash codec cache_dir id g version written app ≡ (ok shown, app')
      → fetch_game_logic_offline key_hash codec cache_dir id app' ≡ ok shown
  unfolding fetch_game_logic_offline cache_object_db write_sync write_to
  show-offline id g version app app' shown v h =
      let (_, files) = cache_object_db key_hash codec written id g cache_dir app.files in
      let cached = get_cached_object_written key_hash codec decodes id cache_dir g app.files in
      let stored : app' ≡ record app { files = files } = sym (ap (λ x. x.1) h) in
      rw stored (rw (v, cached) (ap (λ x. x.0) h))

  not_found-ok :
      (id : String) (o : Outcome RemoteAccessError FetchGameStruct) (shown : FetchGameStruct)
      → not_found id o ≡ ok shown
      → o ≡ ok shown
  not_found-ok id (ok s) shown h = h
  not_found-ok id (err e) shown h = cc
  not_found-ok id panic shown h = cc

  receive-offline :
      (id : String) (received : Outcome RemoteAccessError Game) (version : Option GameVersion)
      (app app' : App Bytes) (shown : FetchGameStruct)
      → installed_version app.client.db id ≡ ok version
      → receive key_hash codec cache_dir id received version written app ≡ (ok shown, app')
      → fetch_game_logic_offline key_hash codec cache_dir id app' ≡ ok shown
  unfolding installed_version
  receive-offline id (ok g) version app app' shown v h =
      show-offline id g version (add_game id g app) app' shown v h
  receive-offline id (err e) version app app' shown v h = ground arith
  receive-offline id panic version app app' shown v h = ground arith

  read_reply-offline :
      (id : String) (answer : Outcome RemoteAccessError (Reply Game)) (version : Option GameVersion)
      (app app' : App Bytes) (shown : FetchGameStruct)
      → installed_version app.client.db id ≡ ok version
      → read_reply key_hash codec cache_dir id answer version written app ≡ (ok shown, app')
      → fetch_game_logic_offline key_hash codec cache_dir id app' ≡ ok shown
  read_reply-offline id panic version app app' shown v h = ground arith
  read_reply-offline id (err e) version app app' shown v h = ground arith
  read_reply-offline id (ok (no_reply e)) version app app' shown v h = ground arith
  read_reply-offline id (ok (reply status error g)) version app app' shown v h =
      elim (Bool-cases (status == 404)) [
        | inl missing ↦
            let offline = fetch_game_logic_offline key_hash codec cache_dir id app in
            let answered : not_found id offline ≡ ok shown = ground arith in
            let kept : app' ≡ app = ground arith in rw kept (not_found-ok id offline shown answered)
        | inr found ↦ elim (Bool-cases (status == 200)) [
          | inl fine ↦ receive-offline id (map_fetch g) version app app' shown v (ground arith)
          | inr refused ↦
              receive-offline id (map_fetch error >>= refuse) version app app' shown v
                (ground arith)
        ]
      ]

  known_or_fetched-offline :
      (version : Outcome RemoteAccessError (Option GameVersion)) (known : Option Game) (id : String)
      (answer : Outcome RemoteAccessError (Reply Game)) (app app' : App Bytes)
      (shown : FetchGameStruct)
      → installed_version app.client.db id ≡ version
      → known_or_fetched key_hash codec cache_dir version known id answer written app
        ≡ (ok shown, app')
      → fetch_game_logic_offline key_hash codec cache_dir id app' ≡ ok shown
  known_or_fetched-offline panic known id answer app app' shown v h = ground arith
  known_or_fetched-offline (err e) known id answer app app' shown v h = ground arith
  known_or_fetched-offline (ok version) (some g) id answer app app' shown v h =
      show-offline id g version app app' shown v h
  known_or_fetched-offline (ok version) none id answer app app' shown v h =
      read_reply-offline id answer version app app' shown v h

  -- A game that is fetched online, and cached, is the same when it is fetched offline right after it:
  -- the game, its status and its version.
  pub fetch_game_then_offline :
      (id : String) (answer : Outcome RemoteAccessError (Reply Game)) (app app' : App Bytes)
      (shown : FetchGameStruct)
      → fetch_game_logic key_hash codec cache_dir id answer written app ≡ (ok shown, app')
      → fetch_game_logic_offline key_hash codec cache_dir id app' ≡ ok shown
  unfolding fetch_game_logic
  fetch_game_then_offline id answer app app' shown h =
      known_or_fetched-offline _ _ id answer app app' shown refl h

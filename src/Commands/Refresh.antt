-- ===== src/Commands/Refresh.antt =====
-- What fetching the library does to the list of games and to their statuses.
use mathlib.Core.List.{append-nil, append_assoc}
use drop_app.Prelude.{
  String, ◌≡◌, refl, sym, ap, ◌∙◌, Bool, true, false, ◌||◌, List, [], ◌∷◌, ◌++◌, Option, none, some,
  Map, get, same, string_key, arith, get-insert, get-congr, Bool-cases, inl, inr,
}
use drop_app.Prelude.Outcomes.{Outcome, ok, err, panic, ◌>>=◌}
use drop_app.Database.Metadata.{DownloadableMetadata}
use drop_app.Database.Models.{GameDownloadStatus, remote}
use drop_app.Remote.Error.{RemoteAccessError}
use drop_app.Remote.Cache.{
  Files, Writing, written, Codec, cache_object_db, get_cached_object_db, get_cached_object_written,
  write_sync, write_to,
}
use drop_app.Remote.Auth.{Reply}
use drop_app.Commands.{Game, App}
use drop_app.Commands.Library.{
  filter, or_remote, add_statuses, in_library, read_games, add_installed, add_if_missing,
  push_cached, merge, fetch_library_logic, fetch_library_logic_offline, is_playable,
}

-- A status that is stored stays; a game of the library that has none becomes remote.
abbrev pub status_or_remote : Option GameDownloadStatus → Bool → Option GameDownloadStatus
status_or_remote (some s) in_it = some s
status_or_remote none true = some remote
status_or_remote none false = none

or_remote-lookup :
    (id other : String) (m : Map String GameDownloadStatus)
    → get other (or_remote id m) ≡ status_or_remote (get other m) (same id other)
or_remote-lookup id other m = ground (arith, get-insert id other remote m, get-congr id other m)

get-add_statuses :
    (games : List Game) (id : String) (m : Map String GameDownloadStatus)
    → get id (add_statuses games m) ≡ status_or_remote (get id m) (in_library id games)
unfolding add_statuses in_library
get-add_statuses [] id m = ground arith
get-add_statuses (g ∷ gs) id m =
    ground (arith, get-add_statuses gs id (or_remote g.id m), or_remote-lookup g.id id m)

module _ {Bytes : Type 0} (key_hash : String → String) (game_codec : Codec Bytes Game)
    (cache_dir : String) where
  abbrev cached_game : Files Bytes → String → Outcome RemoteAccessError Game
  cached_game files id = get_cached_object_db key_hash game_codec id cache_dir files

  push_cached-extends :
      (found : Outcome RemoteAccessError Game) (games : List Game)
      → (extra : List Game) × (push_cached found games ≡ games ++ extra)
  push_cached-extends (ok game) games = (game ∷ [], refl)
  push_cached-extends (err e) games = ([], sym (append-nil games))
  push_cached-extends panic games = ([], sym (append-nil games))

  add_if_missing-extends :
      (files : Files Bytes) (meta : DownloadableMetadata) (games : List Game)
      → (extra : List Game) × (add_if_missing key_hash game_codec cache_dir files meta games
          ≡ games ++ extra)
  unfolding add_if_missing
  add_if_missing-extends files meta games = elim (Bool-cases (in_library meta.id games)) [
    | inl there ↦ ([], rw there (sym (append-nil games)))
    | inr absent ↦
        let (extra, e) = push_cached-extends (cached_game files meta.id) games in
        (extra, rw absent e)
  ]

  add_installed-extends :
      (files : Files Bytes) (metas : List (String × DownloadableMetadata)) (games : List Game)
      → (extra : List Game) × (add_installed key_hash game_codec cache_dir files metas games
          ≡ games ++ extra)
  unfolding add_installed
  add_installed-extends files [] games = ([], sym (append-nil games))
  add_installed-extends files ((id, meta) ∷ metas) games =
      let (first, e) = add_if_missing-extends files meta games in
      let (rest, f) = add_installed-extends files metas (games ++ first) in
      (first ++ rest, rw e (f ∙ append_assoc games first rest))

  -- Every installed game that the cache has under its id is in the list.
  abbrev pub Covers : Files Bytes → List (String × DownloadableMetadata) → List Game → Type 0
  Covers files [] library = Unit
  Covers files ((id, meta) ∷ metas) library =
      ((game : Game)
        → cached_game files meta.id ≡ ok game
        → same game.id meta.id ≡ true
        → in_library meta.id library ≡ true)
      × Covers files metas library

  in_library-append :
      (id : String) (games more : List Game)
      → in_library id (games ++ more) ≡ (in_library id games || in_library id more)
  unfolding in_library
  in_library-append id [] more = refl
  in_library-append id (g ∷ gs) more = ground (arith, in_library-append id gs more)

  in_library-add_if_missing :
      (files : Files Bytes) (meta : DownloadableMetadata) (games : List Game) (game : Game)
      → cached_game files meta.id ≡ ok game
      → same game.id meta.id ≡ true
      → in_library meta.id (add_if_missing key_hash game_codec cache_dir files meta games) ≡ true
  unfolding add_if_missing in_library
  in_library-add_if_missing files meta games game h s =
      ground (arith, in_library-append meta.id games (game ∷ []))

  add_installed-Covers :
      (files : Files Bytes) (metas : List (String × DownloadableMetadata)) (games : List Game)
      → Covers files metas (add_installed key_hash game_codec cache_dir files metas games)
  unfolding add_installed
  add_installed-Covers files [] games = tt
  add_installed-Covers files ((id, meta) ∷ metas) games =
      let next = add_if_missing key_hash game_codec cache_dir files meta games in
      let (extra, e) = add_installed-extends files metas next in
      (
        λ game h s. rw e (
            rw
              (
                in_library-append meta.id next extra,
                in_library-add_if_missing files meta games game h s,
              )
              refl),
        add_installed-Covers files metas next,
      )

  module _ (codec : Codec Bytes (List Game)) where
    -- A hard refresh whose reply reads as a list of games, and that is cached, gives that list followed
    -- by further games, every installed game among them that the cache has under its own id. No stored
    -- status changes, and a game of the reply that had none is remote. The next fetch that is not hard
    -- gives the same list, whatever it would be answered, and changes nothing; the next one offline
    -- gives the games of the list that are installed or wait for their setup.
    pub fetch_library_lem :
        ((library : List Game) → codec.decode (codec.encode library) ≡ ok library)
        → (answer answer' : Outcome RemoteAccessError (Reply (List Game))) (writing : Writing Bytes)
          (games : List Game) (app : App Bytes)
        → (answer >>= read_games) ≡ ok games
        → (extra : List Game) × (app' : App Bytes) × (fetch_library_logic key_hash game_codec
              cache_dir codec
              (some true)
              answer
              written
              app
            ≡ (ok (games ++ extra), app'))
          × Covers app.files app.client.db.installed_game_version (games ++ extra)
          × ((id : String)
              → get id app'.client.db.game_statuses
                ≡ status_or_remote (get id app.client.db.game_statuses) (in_library id games))
          × (fetch_library_logic key_hash game_codec cache_dir codec none answer' writing app'
              ≡ (ok (games ++ extra), app'))
          × (fetch_library_logic_offline key_hash game_codec cache_dir codec app'
              ≡ ok (filter (is_playable app'.client.db.game_statuses) (games ++ extra)))
    unfolding fetch_library_logic merge fetch_library_logic_offline cache_object_db write_sync
        write_to
    fetch_library_lem decodes answer answer' writing games app h =
        let installed = app.client.db.installed_game_version in
        let (extra, e) = add_installed-extends app.files installed games in
        let (library, merged) = merge key_hash game_codec cache_dir games app in
        let files' =
          (cache_object_db key_hash codec written "library" library cache_dir app.files).1 in
        let app' : App Bytes = record merged { files = files' } in
        let cached =
          get_cached_object_written key_hash codec decodes "library" cache_dir library app.files in
        (
          extra,
          app',
          rw (h, fetch_library_logic) (ap (λ x. (ok x, app')) e),
          rw (← e) (add_installed-Covers app.files installed games),
          λ id. get-add_statuses games id app.client.db.game_statuses,
          rw (cached, fetch_library_logic) (ap (λ x. (ok x, app')) e),
          rw cached (ap (λ x. ok (filter (is_playable app'.client.db.game_statuses) x)) e),
        )

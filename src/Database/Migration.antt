-- ===== src/Database/Migration.antt =====
-- src-tauri/database/src/models.rs: the `From` conversions that bring an old database up to date.
use drop_app.Prelude.{
  ◌≡◌, refl, sym, subst, ◌∙◌, String, Option, none, some, [], ◌∷◌, get, Map, string_key, arith,
}
use drop_app.Database.Models.{Database, DatabaseApplications, GameDownloadStatus}
use drop_app.Database.Old
use drop_app.Database.Old.{DatabaseV1, DatabaseV2}

unfoldable pub upgrade_status : Old.GameDownloadStatus → GameDownloadStatus
upgrade_status Old.remote = GameDownloadStatus.remote
upgrade_status (Old.setup_required v d) = GameDownloadStatus.setup_required v d
upgrade_status (Old.installed v d) = GameDownloadStatus.installed v d

unfoldable pub upgrade_statuses : Map String Old.GameDownloadStatus → Map String GameDownloadStatus
unfolding upgrade_status
upgrade_statuses [] = []
upgrade_statuses ((id, s) ∷ m) = (id, upgrade_status s) ∷ upgrade_statuses m

unfoldable pub upgrade_applications : Old.DatabaseApplications → DatabaseApplications
unfolding upgrade_statuses
upgrade_applications a = record {
  install_dirs = a.install_dirs;
  game_statuses = upgrade_statuses a.game_statuses;
  game_versions = a.game_versions;
  installed_game_version = a.installed_game_version;
  transient_statuses = a.transient_statuses;
}

unfoldable pub upgrade_v1 : DatabaseV1 → DatabaseV2
upgrade_v1 d = record {
  settings = d.settings;
  auth = d.auth;
  base_url = d.base_url;
  applications = d.applications;
  prev_database = d.prev_database;
  cache_dir = d.cache_dir;
  compat_info = none;
}

unfoldable pub upgrade_v2 : DatabaseV2 → Database
unfolding upgrade_applications
upgrade_v2 d = record {
  settings = d.settings;
  auth = d.auth;
  base_url = d.base_url;
  applications = upgrade_applications d.applications;
  prev_database = d.prev_database;
  cache_dir = d.cache_dir;
  compat_info = none;
}

-- The two statuses say the same of a game: that nothing is known, that it is not here, or that this
-- version is in this directory and installed or still to be set up.
abbrev pub SameStatus : Option Old.GameDownloadStatus → Option GameDownloadStatus → Type 0
SameStatus none none = Unit
SameStatus (some Old.remote) (some GameDownloadStatus.remote) = Unit
SameStatus (some (Old.setup_required v d)) (some (GameDownloadStatus.setup_required v' d')) =
    (v ≡ v') × (d ≡ d')
SameStatus (some (Old.installed v d)) (some (GameDownloadStatus.installed v' d')) =
    (v ≡ v') × (d ≡ d')
SameStatus _ _ = ⊥

abbrev upgraded : Option Old.GameDownloadStatus → Option GameDownloadStatus
upgraded none = none
upgraded (some s) = some (upgrade_status s)

SameStatus-upgraded : (s : Option Old.GameDownloadStatus) → SameStatus s (upgraded s)
unfolding upgrade_status
SameStatus-upgraded none = tt
SameStatus-upgraded (some Old.remote) = tt
SameStatus-upgraded (some (Old.setup_required v d)) = (refl, refl)
SameStatus-upgraded (some (Old.installed v d)) = (refl, refl)

get-upgrade_statuses :
    (id : String) (m : Map String Old.GameDownloadStatus)
    → get id (upgrade_statuses m) ≡ upgraded (get id m)
unfolding upgrade_statuses get
get-upgrade_statuses id [] = refl
get-upgrade_statuses id ((j, s) ∷ m) = ground (arith, get-upgrade_statuses id m)

upgraded-injective : (s t : Option Old.GameDownloadStatus) → upgraded s ≡ upgraded t → s ≡ t
unfolding upgrade_status
upgraded-injective s t h = ground arith

-- The whole way from version 1 to the current one: what is known of each game says the same, and two
-- databases that come to the same status of a game had the same one.
pub upgrade_game_statuses :
    (d e : DatabaseV1) (id : String)
    → let new = (upgrade_v2 (upgrade_v1 d)).applications in
      let other = (upgrade_v2 (upgrade_v1 e)).applications in
      SameStatus (get id d.applications.game_statuses) (get id new.game_statuses)
      × (get id new.game_statuses ≡ get id other.game_statuses
          → get id d.applications.game_statuses ≡ get id e.applications.game_statuses)
unfolding upgrade_v1 upgrade_v2
upgrade_game_statuses d e id =
    let there = get-upgrade_statuses id d.applications.game_statuses in
    let here = get-upgrade_statuses id e.applications.game_statuses in
    (
      subst (SameStatus (get id d.applications.game_statuses)) (sym there)
          (SameStatus-upgraded (get id d.applications.game_statuses)),
      λ h. upgraded-injective _ _ (sym there ∙ h ∙ here),
    )

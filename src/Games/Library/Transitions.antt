-- ===== src/Games/Library/Transitions.antt =====
-- What the operations of src-tauri/games/src/library.rs do to the state of a game.
use drop_app.Prelude.{
  String, ◌≡◌, refl, Bool, true, false, Option, none, some, get, same, string_key, arith, remove,
  get-insert, get-remove, get-insert_self, get-remove_self,
}
use drop_app.Database.Metadata.{
  DownloadableMetadata, game, metadata_eq, metadata_key, download_type_eq,
}
use drop_app.Database.Models.{remote, partially_installed, uninstalling}
use drop_app.Games.State.{fetch_state, unversioned}
use drop_app.Games.Library.{
  Client, set_partially_installed, uninstall_game_logic, finish_uninstall, push_game_update,
  install_dir_of, start_removal, mark_partially_installed, mark_uninstalling, mark_remote, emit,
  update_game, update_library,
}

-- A game's metadata is looked up by its id alone.
pub same-unversioned :
    (meta : DownloadableMetadata)
    → meta.download_type ≡ game
    → same meta (unversioned meta.id) ≡ true
unfolding metadata_eq download_type_eq
same-unversioned meta h = ground (arith, string_key.eq-refl meta.id)

-- What the interface is told of every game but one, which an operation on that one leaves alone.
abbrev pub SameElsewhere : String → Client → Client → Type 0
SameElsewhere id c d =
    (other : String) → same id other ≡ false → fetch_state other d.db ≡ fetch_state other c.db

pub metadata_eq_other :
    (meta : DownloadableMetadata) (id : String)
    → same meta.id id ≡ false
    → same meta (unversioned id) ≡ false
unfolding metadata_eq
metadata_eq_other meta id h = ground arith

mark_partially_installed-elsewhere :
    (meta : DownloadableMetadata) (v dir : String) (c : Client)
    → SameElsewhere meta.id c (mark_partially_installed meta v dir c)
unfolding fetch_state mark_partially_installed
mark_partially_installed-elsewhere meta v dir c other h =
    let t = get-remove meta (unversioned other) c.db.transient_statuses in
    let g = get-insert meta.id other (partially_installed v dir) c.db.game_statuses in
    ground (arith, t, g, metadata_eq_other meta other h)

fetch_state-mark_partially_installed :
    (meta : DownloadableMetadata) (v dir : String) (c : Client)
    → meta.download_type ≡ game
    → fetch_state meta.id (mark_partially_installed meta v dir c).db
      ≡ (some (partially_installed v dir), none)
unfolding fetch_state mark_partially_installed
fetch_state-mark_partially_installed meta v dir c t = ground (
  arith,
  get-remove meta (unversioned meta.id) c.db.transient_statuses,
  get-insert_self meta.id (partially_installed v dir) c.db.game_statuses,
  same-unversioned meta t,
)

installed_version-mark_partially_installed :
    (meta : DownloadableMetadata) (v dir : String) (c : Client)
    → get meta.id (mark_partially_installed meta v dir c).db.installed_game_version ≡ some meta
unfolding mark_partially_installed
installed_version-mark_partially_installed meta v dir c =
    get-insert_self meta.id meta c.db.installed_game_version

-- Recording a partial install with a version does not panic, and leaves the game partially installed
-- in that directory with no transient status on top, at its new version; other games keep both.
pub set_partially_installed_lem :
    (meta : DownloadableMetadata) (v dir : String) (push : Bool) (c : Client)
    → meta.download_type ≡ game
    → meta.version ≡ some v
    → (c' : Client) × (set_partially_installed meta dir push c ≡ some c')
      × (fetch_state meta.id c'.db ≡ (some (partially_installed v dir), none))
      × (get meta.id c'.db.installed_game_version ≡ some meta)
      × SameElsewhere meta.id c c'
unfolding set_partially_installed push_game_update emit
set_partially_installed_lem meta v dir false c t h = (
  mark_partially_installed meta v dir c,
  rw (h, set_partially_installed),
  fetch_state-mark_partially_installed meta v dir c t,
  installed_version-mark_partially_installed meta v dir c,
  mark_partially_installed-elsewhere meta v dir c,
)
set_partially_installed_lem meta v dir true c t h = (
  emit (update_game meta.id (some (partially_installed v dir), none) none)
      (mark_partially_installed meta v dir c),
  ground (arith, fetch_state-mark_partially_installed meta v dir c t),
  fetch_state-mark_partially_installed meta v dir c t,
  installed_version-mark_partially_installed meta v dir c,
  mark_partially_installed-elsewhere meta v dir c,
)

fetch_state-mark_uninstalling :
    (meta : DownloadableMetadata) (c : Client)
    → meta.download_type ≡ game
    → fetch_state meta.id (mark_uninstalling meta c).db ≡ (none, some uninstalling)
unfolding fetch_state mark_uninstalling
fetch_state-mark_uninstalling meta c t = ground (
  arith,
  get-insert meta (unversioned meta.id) uninstalling c.db.transient_statuses,
  same-unversioned meta t,
)

fetch_state-mark_remote :
    (meta : DownloadableMetadata) (c : Client)
    → meta.download_type ≡ game
    → fetch_state meta.id (mark_remote meta c).db ≡ (some remote, none)
unfolding fetch_state mark_remote
fetch_state-mark_remote meta c t = ground (
  arith,
  get-remove meta (unversioned meta.id) (remove meta c.db.transient_statuses),
  get-insert_self meta.id remote c.db.game_statuses,
  same-unversioned meta t,
)

start_removal-marked :
    (meta : DownloadableMetadata) (dir : Option String) (c : Client)
    → meta.download_type ≡ game
    → fetch_state meta.id c.db ≡ (none, some uninstalling)
    → (c' : Client) × (start_removal meta dir c ≡ (c', dir))
      × (fetch_state meta.id c'.db ≡ (none, some uninstalling))
      × (c'.db.game_statuses ≡ c.db.game_statuses)
unfolding mark_uninstalling
start_removal-marked meta none c t h = (c, refl, h, refl)
start_removal-marked meta (some dir) c t h =
    (mark_uninstalling meta c, refl, fetch_state-mark_uninstalling meta c t, refl)

-- Starting to uninstall never panics. The game reads as being uninstalled, and a removal is started
-- exactly if the stored status names a directory, of that directory; no stored status changes.
pub uninstall_game_logic_lem :
    (meta : DownloadableMetadata) (c : Client)
    → meta.download_type ≡ game
    → (c' : Client) × (uninstall_game_logic meta c
        ≡ some (c', install_dir_of (get meta.id c.db.game_statuses)))
      × (fetch_state meta.id c'.db ≡ (none, some uninstalling))
      × (c'.db.game_statuses ≡ c.db.game_statuses)
unfolding uninstall_game_logic push_game_update emit mark_uninstalling
uninstall_game_logic_lem meta c t =
    let marked = fetch_state-mark_uninstalling meta c t in
    let event = update_game meta.id (none, some uninstalling) none in
    let (c', started, state, statuses) =
      start_removal-marked meta (install_dir_of (get meta.id c.db.game_statuses))
        (emit event (mark_uninstalling meta c)) t marked in
    (c', ground (arith, marked, started), state, statuses)

-- A removal that succeeds does not panic, and leaves the game neither installed nor in transit.
pub finish_uninstall_lem :
    (meta : DownloadableMetadata) (c : Client)
    → meta.download_type ≡ game
    → (c' : Client) × (finish_uninstall meta true c ≡ some c')
      × (fetch_state meta.id c'.db ≡ (some remote, none))
      × (get meta.id c'.db.installed_game_version ≡ none)
unfolding finish_uninstall push_game_update emit mark_remote
finish_uninstall_lem meta c t = (
  emit update_library (emit (update_game meta.id (some remote, none) none) (mark_remote meta c)),
  ground (arith, fetch_state-mark_remote meta c t),
  fetch_state-mark_remote meta c t,
  get-remove_self meta.id c.db.installed_game_version,
)

-- Uninstalling a game never panics. At first the game reads as being uninstalled, no stored status
-- changes, and a removal is started exactly if the stored status names a directory, of that directory.
-- Once a removal has succeeded, the game is remote, is not in transit, and has no installed version.
pub uninstall_then_finish :
    (meta : DownloadableMetadata) (c : Client)
    → meta.download_type ≡ game
    → (c' c'' : Client) × (uninstall_game_logic meta c
        ≡ some (c', install_dir_of (get meta.id c.db.game_statuses)))
      × (fetch_state meta.id c'.db ≡ (none, some uninstalling))
      × (c'.db.game_statuses ≡ c.db.game_statuses)
      × (finish_uninstall meta true c' ≡ some c'')
      × (fetch_state meta.id c''.db ≡ (some remote, none))
      × (get meta.id c''.db.installed_game_version ≡ none)
uninstall_then_finish meta c t =
    let (c', started, reads, kept) = uninstall_game_logic_lem meta c t in
    let (c'', finished, removed, forgotten) = finish_uninstall_lem meta c' t in
    (c', c'', started, reads, kept, finished, removed, forgotten)

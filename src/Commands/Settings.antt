-- ===== src/Commands/Settings.antt =====
-- src-tauri/src/settings.rs: the directories that games are installed in.
pub mod Values
use drop_app.Prelude.{
  get, String, ◌≡◌, refl, true, false, ℕ, zero, suc, List, [], ◌∷◌, ◌++◌, Option, none, some, ltb,
  length, contains, Distinct, string_key, append-Distinct, if◌then◌else◌, arith,
}
use drop_app.Prelude.Panics.{◌>>=◌}
use drop_app.Database.Models.{GameDownloadStatus}
use drop_app.Games.Library.{Client}
use drop_app.Games.Scan.{Directory, scan_install_dirs}
use drop_app.Games.Scan.Imports.{Each, AreNamed, scan_install_dirs_lem}
use drop_app.Manager.Queue.{remove_at}

pub data ErrorKind : Type 0 where
  directory_not_empty already_exists : ErrorKind
  other : String → ErrorKind

-- What looking at a directory gives: the number of its entries, or that it was created, or an error
-- of either.
pub data Found : Type 0 where
  entries : ℕ → Found
  created : Found
  not_read : String → Found

abbrev pub fetch_download_dir_stats : Client → List String
fetch_download_dir_stats c = c.db.install_dirs

abbrev set_install_dirs : List String → Client → Client
set_install_dirs dirs c = record c { db = record c.db { install_dirs = dirs } }

-- `Vec::remove` panics beyond the end.
unfoldable pub delete_download_dir : ℕ → Client → Option Client
delete_download_dir index c =
    let dirs = c.db.install_dirs in
    if ltb index (length dirs) then some (set_install_dirs (remove_at index dirs) c) else none

unfoldable pub check_found : Found → Option ErrorKind
check_found (entries zero) = none
check_found (entries (suc n)) = some directory_not_empty
check_found created = none
check_found (not_read e) = some (other e)

module _ (read_dir : String → Option (List Directory)) where
  abbrev pub push_dir : String → Client → Option (Option ErrorKind × Client)
  push_dir new_dir c =
      if contains c.db.install_dirs new_dir then some (some already_exists, c) else (do
        scanned ←
            scan_install_dirs read_dir (set_install_dirs (c.db.install_dirs ++ new_dir ∷ []) c)
        some (none, scanned))

  unfoldable pub add_download_dir : Found → String → Client → Option (Option ErrorKind × Client)
  add_download_dir found new_dir c = elim (check_found found) [
    | some e ↦ some (some e, c)
    | none ↦ push_dir new_dir c
  ]

length-snoc_lt : (ks : List String) (k : String) → ltb (length ks) (length (ks ++ k ∷ [])) ≡ true
length-snoc_lt [] k = refl
length-snoc_lt (j ∷ js) k = ground (arith, length-snoc_lt js k)

remove_at-snoc : (ks : List String) (k : String) → remove_at (length ks) (ks ++ k ∷ []) ≡ ks
unfolding remove_at
remove_at-snoc [] k = refl
remove_at-snoc (j ∷ js) k = rw (remove_at-snoc js k) refl

-- Let the install directories be distinct, let a new one be empty or be created and not be among them,
-- and let every directory with readable data in all of these be named as the game of that data. Then
-- it is added at the end, the directories are still distinct and every stored status stays, and
-- deleting the last one gives the directories from before, with no change of a status.
pub add_then_delete :
    (read_dir : String → Option (List Directory)) (found : Found) (new_dir : String) (c : Client)
    → check_found found ≡ none
    → contains c.db.install_dirs new_dir ≡ false
    → Distinct c.db.install_dirs
    → Each AreNamed read_dir (c.db.install_dirs ++ new_dir ∷ [])
    → (c' c'' : Client) × (add_download_dir read_dir found new_dir c ≡ some (none, c'))
      × (fetch_download_dir_stats c' ≡ c.db.install_dirs ++ new_dir ∷ [])
      × Distinct c'.db.install_dirs
      × ((id : String) (status : GameDownloadStatus)
          → get id c.db.game_statuses ≡ some status
          → get id c'.db.game_statuses ≡ some status)
      × (delete_download_dir (length c.db.install_dirs) c' ≡ some c'')
      × (fetch_download_dir_stats c'' ≡ c.db.install_dirs)
      × (c''.db.game_statuses ≡ c'.db.game_statuses)
unfolding add_download_dir delete_download_dir
add_then_delete read_dir found new_dir c empty new d named =
    let dirs = c.db.install_dirs in
    let (c', scanned, (stays, _, kept), _) =
      scan_install_dirs_lem read_dir (set_install_dirs (dirs ++ new_dir ∷ []) c) named in
    (
      c',
      set_install_dirs dirs c',
      ground (arith, empty, new, scanned),
      kept,
      rw kept (append-Distinct dirs new_dir d new),
      stays,
      rw (kept, length-snoc_lt dirs new_dir, remove_at-snoc dirs new_dir) refl,
      refl,
      refl,
    )

-- ===== src/Games/Scan/Imports.antt =====
-- What scanning the install directories does to the games in the database.
use drop_app.Prelude.{
  String, ◌≡◌, refl, true, List, [], ◌∷◌, Option, none, some, get, same, string_key, contains_key,
  arith, get-insert, get-congr, is_some, ◌∙◌, Option-cases, Bool-cases, inl, inr, get-insert_self,
}
use drop_app.Database.Models.{GameDownloadStatus, partially_installed}
use drop_app.Games.Library.{Client, set_partially_installed, mark_partially_installed}
use drop_app.Downloads.DropData.{DropData}
use drop_app.Games.Scan.{
  Directory, scanned_meta, scan_found, scan_directories, scan_dirs, entries_or_none,
  scan_install_dirs,
}

-- A directory is named as the game of its data.
abbrev pub IsNamed : String → Option (Option DropData) → Type 0
IsNamed name none = Unit
IsNamed name (some none) = Unit
IsNamed name (some (some d)) = same name d.game_id ≡ true

abbrev pub AreNamed : List Directory → Type 0
AreNamed [] = Unit
AreNamed (d ∷ ds) = IsNamed d.file_name d.drop_data × AreNamed ds

-- Stored statuses and the list of directories stay, and the interface is told nothing.
abbrev pub Keeps : Client → Client → Type 0
Keeps c c' =
    ((id : String) (s : GameDownloadStatus)
      → get id c.db.game_statuses ≡ some s
      → get id c'.db.game_statuses ≡ some s)
    × (c'.events ≡ c.events)
    × (c'.db.install_dirs ≡ c.db.install_dirs)

-- The game of a directory whose data can be read has a status.
abbrev pub IsImported : Client → Option (Option DropData) → Type 0
IsImported c none = Unit
IsImported c (some none) = Unit
IsImported c (some (some d)) = is_some (get d.game_id c.db.game_statuses) ≡ true

abbrev pub AreImported : Client → List Directory → Type 0
AreImported c [] = Unit
AreImported c (d ∷ ds) = IsImported c d.drop_data × AreImported c ds

abbrev pub Each :
    (List Directory → Type 0) → (String → Option (List Directory)) → List String → Type 0
Each P read_dir [] = Unit
Each P read_dir (dir ∷ dirs) = P (entries_or_none (read_dir dir)) × Each P read_dir dirs

Keeps-trans : (a b c : Client) → Keeps a b → Keeps b c → Keeps a c
Keeps-trans a b c (h, e, d) (k, f, d') = (λ id s x. k id s (h id s x), f ∙ e, d' ∙ d)

Keeps-IsImported :
    (c c' : Client) (found : Option (Option DropData))
    → Keeps c c'
    → IsImported c found
    → IsImported c' found
Keeps-IsImported c c' none k h = tt
Keeps-IsImported c c' (some none) k h = tt
Keeps-IsImported c c' (some (some d)) (k, _, _) h =
    elim (Option-cases (get d.game_id c.db.game_statuses)) [
      | inl absent ↦ ground arith
      | inr (s, there) ↦ rw (k d.game_id s there) refl
    ]

Keeps-AreImported :
    (c c' : Client) (ds : List Directory) → Keeps c c' → AreImported c ds → AreImported c' ds
Keeps-AreImported c c' [] k h = tt
Keeps-AreImported c c' (d ∷ ds) k (h, hs) =
    (Keeps-IsImported c c' d.drop_data k h, Keeps-AreImported c c' ds k hs)

scan_found-Keeps :
    (name : String) (found : Option (Option DropData)) (c : Client)
    → IsNamed name found
    → (c' : Client) × (scan_found name found c ≡ some c') × Keeps c c' × IsImported c' found
unfolding set_partially_installed mark_partially_installed
scan_found-Keeps name none c h = (c, refl, (λ id s x. x, refl, refl), tt)
scan_found-Keeps name (some none) c h = (c, refl, (λ id s x. x, refl, refl), tt)
scan_found-Keeps name (some (some d)) c h =
    let statuses = c.db.game_statuses in
    let status = partially_installed d.game_version d.base_path in
    let congr = get-congr name d.game_id statuses h in
    elim (Bool-cases (contains_key name statuses)) [
      | inl known ↦ (c, rw known refl, (λ id s x. x, refl, refl), rw congr at known)
      | inr new ↦ (
        mark_partially_installed (scanned_meta d) d.game_version d.base_path c,
        rw new refl,
        (
          λ id s x.
              ground
                (arith, get-insert d.game_id id status statuses, get-congr d.game_id id statuses),
          refl,
          refl,
        ),
        rw (get-insert_self d.game_id status statuses) refl,
      )
    ]

scan_directories-Keeps :
    (ds : List Directory) (c : Client)
    → AreNamed ds
    → (c' : Client) × (scan_directories ds c ≡ some c') × Keeps c c' × AreImported c' ds
unfolding scan_directories
scan_directories-Keeps [] c h = (c, refl, (λ id s x. x, refl, refl), tt)
scan_directories-Keeps (d ∷ ds) c (h, hs) =
    let (b, e, k, i) = scan_found-Keeps d.file_name d.drop_data c h in
    let (c', f, l, is) = scan_directories-Keeps ds b hs in
    (c', rw e f, Keeps-trans c b c' k l, (Keeps-IsImported b c' d.drop_data l i, is))

scan_dirs-Keeps :
    (read_dir : String → Option (List Directory)) (dirs : List String) (c : Client)
    → Each AreNamed read_dir dirs
    → (c' : Client) × (scan_dirs read_dir dirs c ≡ some c')
      × Keeps c c'
      × Each (AreImported c') read_dir dirs
unfolding scan_dirs
scan_dirs-Keeps read_dir [] c h = (c, refl, (λ id s x. x, refl, refl), tt)
scan_dirs-Keeps read_dir (dir ∷ dirs) c (h, hs) =
    let (b, e, k, i) = scan_directories-Keeps (entries_or_none (read_dir dir)) c h in
    let (c', f, l, is) = scan_dirs-Keeps read_dir dirs b hs in
    (
      c',
      rw e f,
      Keeps-trans c b c' k l,
      (Keeps-AreImported b c' (entries_or_none (read_dir dir)) l i, is),
    )

-- If every directory with readable data is named as the game of that data, scanning does not panic.
-- Then every game with such a directory has a status, no stored status has changed, the directories
-- are the same, and the interface was told nothing.
pub scan_install_dirs_lem :
    (read_dir : String → Option (List Directory)) (c : Client)
    → Each AreNamed read_dir c.db.install_dirs
    → (c' : Client) × (scan_install_dirs read_dir c ≡ some c')
      × Keeps c c'
      × Each (AreImported c') read_dir c.db.install_dirs
unfolding scan_install_dirs
scan_install_dirs_lem read_dir c h = scan_dirs-Keeps read_dir c.db.install_dirs c h

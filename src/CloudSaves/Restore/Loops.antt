-- ===== src/CloudSaves/Restore/Loops.antt =====
-- src-tauri/cloud_saves/src/resolver.rs: what the loop of `extract` makes of the files that the loop of
-- `resolve` leaves.
use Prim.Native.String.{String}
use drop_app.Prelude.{
  ◌≡◌, ◌≢◌, refl, sym, ap, ◌∙◌, Bool, true, Option, none, some, List, [], ◌∷◌, ◌++◌, arith, All,
  some-injective,
}
use drop_app.Prelude.Outcomes.{Outcome, ok, err, panic, unwrap, >>=-eq-ok, ok-injective}
use drop_app.Database.Metadata.{Platform}
use drop_app.Database.Models.{GameVersion}
use drop_app.CloudSaves.{BackupError, GameFile}
use drop_app.CloudSaves.Handlers.{Computer, BackupHandler}
use drop_app.CloudSaves.Resolver.{
  parse_path, os_of, FileKind, special, Entries, handler_for, with_id, archive, unwrap_path,
  resolve_by, resolve_files, extract_by, extract_files, copy_to, directory, plain_file,
}

unwrap_path-ok :
    (o : Outcome BackupError String) (path : String) → unwrap_path o ≡ ok path → o ≡ ok path
unwrap_path-ok (ok p) path h = h
unwrap_path-ok (err e) path h = cc
unwrap_path-ok panic path h = cc

module _ (place : String → String → Bool) where
  archive-copied :
      (kind : Option FileKind) (id path : String) (f f' : GameFile) (entries : Entries)
      → kind ≢ some special
      → place id path ≡ true
      → archive kind id path f ≡ ok (entries, f')
      → (f' ≡ with_id id f) × (copy_to place id path ≡ ok entries)
  archive-copied none id path f f' entries k h e = ground arith
  archive-copied (some directory) id path f f' entries k h e =
      let made = ok-injective e in (sym (ap (λ x. x.1) made), rw h (ap (λ x. ok x.0) made))
  archive-copied (some plain_file) id path f f' entries k h e =
      let made = ok-injective e in (sym (ap (λ x. x.1) made), rw h (ap (λ x. ok x.0) made))
  archive-copied (some special) id path f f' entries k h e = elim (k refl) [ ]

module _ (computer : Computer) (game_version : GameVersion) (normalize : String → Platform → String)
    (stat : String → Option FileKind) where
  -- The file names its platform, one that this computer backs up, and its path is in the normal form.
  abbrev pub IsPortable : String × GameFile → Type 0
  IsPortable (id, f) =
      (p : Platform) × (h : BackupHandler) × (handler_for computer (os_of f.conditions)
        ≡ some (p, h))
      × (normalize f.path p ≡ f.path)

  module _ (place : String → String → Bool) where
    -- A file that was archived is copied back to where it was read from.
    extract_by-resolve_by :
        (source : Option (Platform × BackupHandler)) (id : String) (f f' : GameFile)
        (entries : Entries)
        → ((path : String) → stat path ≢ some special)
        → ((i path : String) → place i path ≡ true)
        → (p : Platform) × (h : BackupHandler) × (source ≡ some (p, h))
          × (normalize f.path p ≡ f.path)
        → resolve_by computer game_version normalize stat source id f ≡ ok (entries, f')
        → (f' ≡ with_id id f) × (extract_by computer game_version place source id f' ≡ ok entries)
    extract_by-resolve_by none id f f' entries plain places (p, h, found, normal) e = cc
    extract_by-resolve_by (some (q, b)) id f f' entries plain places (p, h, found, normal) e =
        let (path, opened, archived) =
          >>=-eq-ok (unwrap_path (parse_path b game_version (normalize f.path q))) _ e in
        let (kept, copied) =
          archive-copied place (stat path) id path f f' entries (plain path) (places id path)
            archived in
        let parsed = unwrap_path-ok (parse_path b game_version (normalize f.path q)) path opened in
        let same_os = ap (λ x. x.0) (some-injective found) in
        let here : parse_path b game_version f'.path ≡ ok path = rw kept (
          ap (parse_path b game_version) (sym (ap (normalize f.path) same_os ∙ normal)) ∙ parsed) in
        (kept, rw here copied)

    extract_files-cons :
        (id : String) (f f' : GameFile) (fs : List GameFile) (entries more : Entries)
        → f' ≡ with_id id f
        → extract_by computer game_version place (handler_for computer (os_of f.conditions)) id f'
          ≡ ok entries
        → extract_files computer game_version place fs ≡ ok more
        → extract_files computer game_version place (f' ∷ fs) ≡ ok (entries ++ more)
    unfolding extract_files
    extract_files-cons id f f' fs entries more kept copied copied_rest =
        let same : extract_by computer game_version place
              (handler_for computer (os_of f.conditions)) id (with_id id f)
            ≡ ok entries =
          rw kept at copied in
        rw kept (rw (same, copied_rest) refl)

    pub resolve_files-cons :
        (id : String) (f : GameFile) (fs : List (String × GameFile)) (entries : Entries)
        (files' : List GameFile)
        → resolve_files computer game_version normalize stat ((id, f) ∷ fs) ≡ ok (entries, files')
        → (first last : Entries) × (f' : GameFile) × (fs' : List GameFile) × (resolve_by computer
              game_version normalize stat
              (handler_for computer (os_of f.conditions))
              id
              f
            ≡ ok (first, f'))
          × (resolve_files computer game_version normalize stat fs ≡ ok (last, fs'))
          × (entries ≡ first ++ last)
          × (files' ≡ f' ∷ fs')
    unfolding resolve_files
    resolve_files-cons id f fs entries files' e =
        let source = handler_for computer (os_of f.conditions) in
        let (first, resolved, e') =
          >>=-eq-ok (resolve_by computer game_version normalize stat source id f) _ e in
        let (last, resolved_rest, ended) =
          >>=-eq-ok (resolve_files computer game_version normalize stat fs) _ e' in
        let made = sym (ok-injective ended) in
        (
          first.0,
          last.0,
          first.1,
          last.1,
          resolved,
          resolved_rest,
          ap (λ x. x.0) made,
          ap (λ x. x.1) made,
        )

    -- The loops: what the second makes of the files that the first leaves.
    pub extract_files-resolve_files :
        (files : List (String × GameFile)) (entries : Entries) (files' : List GameFile)
        → ((path : String) → stat path ≢ some special)
        → ((i path : String) → place i path ≡ true)
        → All IsPortable files
        → resolve_files computer game_version normalize stat files ≡ ok (entries, files')
        → extract_files computer game_version place files' ≡ ok entries
    unfolding resolve_files extract_files
    extract_files-resolve_files [] entries files' plain places portable e =
        let made = ok-injective e in
        ap (extract_files computer game_version place) (sym (ap (λ x. x.1) made))
        ∙ ap (λ x. ok x.0) made
    extract_files-resolve_files ((id, f) ∷ fs) entries files' plain places (portable, rest) e =
        let (first, last, f', fs', resolved, resolved_rest, all, made) =
          resolve_files-cons id f fs entries files' e in
        let (kept, copied) = extract_by-resolve_by _ id f f' first plain places portable resolved in
        let copied_rest = extract_files-resolve_files fs last fs' plain places rest resolved_rest in
        rw (made, all) (extract_files-cons id f f' fs' first last kept copied copied_rest)

    -- A file that names no platform is left out of the backup and gets no id.
    pub resolve_by-no_os :
        (source : Option (Platform × BackupHandler)) (id : String) (f f' : GameFile)
        (entries : Entries)
        → source ≡ none
        → resolve_by computer game_version normalize stat source id f ≡ ok (entries, f')
        → f' ≡ f
    resolve_by-no_os none id f f' entries h e = sym (ap (λ x. x.1) (ok-injective e))
    resolve_by-no_os (some s) id f f' entries h e = cc

    pub extract_files-needs_id :
        (f : GameFile) (fs : List GameFile) (copied : Entries)
        → f.id ≡ none
        → extract_files computer game_version place (f ∷ fs) ≢ ok copied
    unfolding extract_files
    extract_files-needs_id f fs copied h e = cc (h, e)

    pub extract_files-rest :
        (f : GameFile) (fs : List GameFile) (copied : Entries)
        → extract_files computer game_version place (f ∷ fs) ≡ ok copied
        → (more : Entries) × (extract_files computer game_version place fs ≡ ok more)
    unfolding extract_files
    extract_files-rest f fs copied e =
        let (id, _, e₁) = >>=-eq-ok (unwrap f.id) _ e in
        let (_, _, e₂) =
          >>=-eq-ok
            (extract_by computer game_version place (handler_for computer (os_of f.conditions)) id
              f)
            _ e₁ in
        let (more, rest, _) = >>=-eq-ok (extract_files computer game_version place fs) _ e₂ in
        (more, rest)

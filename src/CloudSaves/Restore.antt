-- ===== src/CloudSaves/Restore.antt =====
-- What becomes of a backup that is restored on the same computer.
pub mod Loops
use Prim.Native.String.{String}
use drop_app.Prelude.{
  ℕ, length, drop, ◌≡◌, refl, sym, ap, ◌∙◌, Bool, Option, none, List, [], ◌∷◌, arith,
  some-injective,
}
use drop_app.Prelude.Outcomes.{Outcome, ok, err, panic, unwrap, >>=-eq-ok, ok-injective}
use drop_app.Database.Metadata.{Platform}
use drop_app.Database.Models.{GameVersion}
use drop_app.CloudSaves.{CloudSaveMetadata, BackupError, GameFile}
use drop_app.CloudSaves.Handlers.{Computer, BackupHandler}
use drop_app.CloudSaves.Resolver.{
  parse_path, FileKind, Entries, with_id, archive, unwrap_path, resolve_by, resolve_files,
  extract_by, resolve, extract, Archive, ArchiveLibrary, append_metadata, copy_to, directory,
  plain_file,
}

drop_all {ℓ} : {A : Type ℓ} (xs : List A) → drop (length xs) xs ≡ []
drop_all [] = refl
drop_all (x ∷ xs) = drop_all xs

module _ {Byte : Type 0} (library : ArchiveLibrary Byte) (computer : Computer)
    (game_version : GameVersion) (normalize : String → Platform → String)
    (stat : String → Option FileKind) (place : String → String → Bool) where
  resolve-ok :
      (save_id : String) (files : List (String × GameFile)) (archived : Archive Byte)
      → resolve library computer normalize stat game_version save_id files ≡ ok archived
      → (entries : Entries) × (files' : List GameFile) × (resolve_files computer game_version
            normalize stat files
          ≡ ok (entries, files'))
        × (archived ≡ record {
          entries = entries;
          metadata =
              append_metadata library
                (record { files = files'; game_version = game_version; save_id = save_id });
        })
  unfolding resolve
  resolve-ok save_id files archived e =
      let (made, looped, packed) =
        >>=-eq-ok (resolve_files computer game_version normalize stat files) _ e in
      (made.0, made.1, looped, sym (ok-injective packed))

  -- Let the entry of a file have what follows the position at which the file stands, and let no
  -- metadata be read from nothing. The temporary file stands at its end, so its entry is empty:
  -- restoring a backup, whatever it was made of, panics.
  pub extract_not_rewound :
      (following : (position : ℕ) (contents : List Byte)
        → library.append_file position contents ≡ drop position contents)
      (nothing : library.from_slice [] ≡ none) (save_id : String) (files : List (String × GameFile))
      (archived : Archive Byte)
      → resolve library computer normalize stat game_version save_id files ≡ ok archived
      → extract library computer place archived ≡ panic
  unfolding extract
  extract_not_rewound following nothing save_id files archived e =
      let (entries, files', looped, packed) = resolve-ok save_id files archived e in
      let meta : CloudSaveMetadata = record {
        files = files';
        game_version = game_version;
        save_id = save_id;
      } in
      let text = library.to_string meta in
      let lost : library.from_slice (append_metadata library meta) ≡ none =
        ap library.from_slice (following (length text) text ∙ drop_all text) ∙ nothing in
      rw packed (rw lost refl)

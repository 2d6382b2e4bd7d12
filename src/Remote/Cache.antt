-- ===== src/Remote/Cache.antt =====
-- src-tauri/remote/src/cache.rs: objects kept in files of the cache directory, each under the hash of
-- its key. The hash and the encoding are other libraries' and arguments.
use drop_app.Prelude.{
  String, ◌≡◌, refl, false, ℕ, ◌+◌, ◌%◌, ◌^◌, Option, none, some, Map, get, insert, remove, same,
  string_key, get-insert, get-insert_self,
}
use drop_app.Prelude.Outcomes.{Outcome, ok, err, panic, ◌>>=◌}
use drop_app.Prelude.Texts.{join_path}
use drop_app.Remote.Error.{RemoteAccessError, cache}

-- The files by path, with what the encoding makes of an object. A file that cannot be read counts as
-- missing.
abbrev pub Files : Type 0 → Type 0
Files Bytes = Map String Bytes

-- What happens to a write: the file is not created, it is but only a part is written, or all.
pub data Writing (Bytes : Type 0) : Type 0 where
  create_failed : String → Writing Bytes
  write_failed : String → Bytes → Writing Bytes
  written : Writing Bytes

pub record Codec (Bytes D : Type 0) : Type 0 where
  pub encode : D → Bytes
  pub decode : Bytes → Outcome String D

-- The error, if there is one, and the files.
unfoldable pub write_to :
    {Bytes : Type 0} → Writing Bytes → String → Bytes → Files Bytes → Option String × Files Bytes
write_to (create_failed e) path bytes files = (some e, files)
write_to (write_failed e part) path bytes files = (some e, insert path part files)
write_to written path bytes files = (none, insert path bytes files)

abbrev pub read_from : {Bytes : Type 0} → Option (Bytes) → Outcome String (Bytes)
read_from none = err "No such file or directory"
read_from (some bytes) = ok bytes

abbrev pub remove_from :
    {Bytes : Type 0} → Option (Bytes) → String → Files Bytes → Option String × Files Bytes
remove_from none path files = (some "No such file or directory", files)
remove_from (some bytes) path files = (none, remove path files)

abbrev pub map_cache {ℓ} : {A : Type ℓ} → Outcome String A → Outcome RemoteAccessError A
map_cache (ok a) = ok a
map_cache (err e) = err (cache e)
map_cache panic = panic

abbrev pub error_of : Option String → Option RemoteAccessError
error_of none = none
error_of (some e) = some (cache e)

-- `duration` seconds from now as a `u64`.
unfoldable pub expiry_after : ℕ → ℕ → ℕ
expiry_after now duration = (now + duration) % 2 ^ 64

abbrev pub get_cache_path : (String → String) → String → String → String
get_cache_path key_hash base key = join_path base (key_hash key)

module _ {Bytes : Type 0} (key_hash : String → String) where
  unfoldable pub write_sync :
      Writing Bytes → String → String → Bytes → Files Bytes → Option String × Files Bytes
  write_sync writing base key bytes files =
      write_to writing (get_cache_path key_hash base key) bytes files

  unfoldable pub read_sync : String → String → Files Bytes → Outcome String (Bytes)
  read_sync base key files = read_from (get (get_cache_path key_hash base key) files)

  unfoldable pub delete_sync : String → String → Files Bytes → Option String × Files Bytes
  delete_sync base key files =
      let path = get_cache_path key_hash base key in remove_from (get path files) path files

  -- `cache_dir` is the database's.
  module _ {D : Type 0} (codec : Codec Bytes D) where
    unfoldable pub cache_object_db :
        Writing Bytes → String → D → String → Files Bytes → Option RemoteAccessError × Files Bytes
    cache_object_db writing key object cache_dir files =
        let (e, after) = write_sync writing cache_dir key (codec.encode object) files in
        (error_of e, after)

    unfoldable pub get_cached_object_db :
        String → String → Files Bytes → Outcome RemoteAccessError D
    get_cached_object_db key cache_dir files = do
      bytes ← map_cache (read_sync cache_dir key files)
      map_cache (codec.decode bytes)

  unfoldable pub clear_cached_object_db :
      String → String → Files Bytes → Option RemoteAccessError × Files Bytes
  clear_cached_object_db key cache_dir files =
      let (e, after) = delete_sync cache_dir key files in (error_of e, after)

  module _ {D : Type 0} (codec : Codec Bytes D)
      (decodes : (d : D) → codec.decode (codec.encode d) ≡ ok d) where
    pub get_cached_object_written :
        (key cache_dir : String) (object : D) (files : Files Bytes)
        → get_cached_object_db codec key cache_dir
            (cache_object_db codec written key object cache_dir files).1
          ≡ ok object
    unfolding cache_object_db get_cached_object_db write_sync write_to read_sync
    get_cached_object_written key cache_dir object files =
        let path = get_cache_path key_hash cache_dir key in
        rw (get-insert_self path (codec.encode object) files, decodes object) refl

    -- An object that is cached without an error is what the cache then holds under its key. Any other
    -- key whose file is another one reads as before, also if the write fails.
    pub get_cached_object-cache_object :
        (key other cache_dir : String) (object : D) (writing : Writing Bytes) (files : Files Bytes)
        → same (get_cache_path key_hash cache_dir key) (get_cache_path key_hash cache_dir other)
          ≡ false
        → let (e, after) = cache_object_db codec writing key object cache_dir files in
          (e ≡ none → get_cached_object_db codec key cache_dir after ≡ ok object)
          × (get_cached_object_db codec other cache_dir after
              ≡ get_cached_object_db codec other cache_dir files)
    unfolding cache_object_db get_cached_object_db write_sync write_to read_sync
    get_cached_object-cache_object key other cache_dir object (create_failed e) files apart =
        (λ h. cc, refl)
    get_cached_object-cache_object key other cache_dir object (write_failed e part) files apart =
        let path = get_cache_path key_hash cache_dir key in
        let bytes = codec.encode object in
        (
          λ h. cc,
          rw (get-insert path (get_cache_path key_hash cache_dir other) part files, apart) refl,
        )
    get_cached_object-cache_object key other cache_dir object written files apart =
        let path = get_cache_path key_hash cache_dir key in
        let bytes = codec.encode object in
        (
          λ h. get_cached_object_written key cache_dir object files,
          rw (get-insert path (get_cache_path key_hash cache_dir other) bytes files, apart) refl,
        )

-- ===== src/Remote/FetchObject.antt =====
-- src-tauri/remote/src/fetch_object.rs: objects of the server, by
-- way of the cache. What the server answers, the clock and the header library are arguments.
use Prim.Native.String.{String}
use drop_app.Prelude.{
  ◌≡◌, refl, Bool, true, false, ℕ, ◌<◌, ◌≤◌, ◌+◌, ◌*◌, ◌^◌, List, [], Option, none, some,
  string_key, arith, if◌then◌else◌,
}
use drop_app.Prelude.Outcomes.{Outcome, ok, err, panic}
use drop_app.Database.Models.{DatabaseAuth}
use drop_app.Remote.Error.{RemoteAccessError, CacheError}
use drop_app.Remote.Cache.{
  Files, Writing, written, Codec, cache_object_db, get_cached_object_db, get_cached_object_written,
  write_sync, write_to, expiry_after,
}
use drop_app.Remote.ObjectCache.{
  ObjectCache, has_expired, Response, ok_response, cache_of_response, response_of_cache,
}
use drop_app.Remote.Auth.{generate_authorization_header}

-- The server's: an error of sending the request, or the Content-Type, and the body or none if
-- reading it fails. Its status is never looked at.
pub data Sent (HeaderValue : Type 0) : Type 0 where
  send_failed : String → Sent HeaderValue
  received : Option HeaderValue → Option (List ℕ) → Sent HeaderValue

-- The three clocks that a fetch reads, and how its write goes.
pub record Moment (Bytes : Type 0) : Type 0 where
  pub nonce : String
  pub looked : ℕ
  pub checked : ℕ
  pub stored : ℕ
  pub writing : Writing Bytes

abbrev pub body_or_empty : Option (List ℕ) → List ℕ
body_or_empty none = []
body_or_empty (some bytes) = bytes

-- The path without its leading slash; slicing the empty text panics.
abbrev pub object_id_of : String → Option String
object_id_of String.[] = none
object_id_of (String.◌∷◌ c s) = some s

-- `cache_result.map_or(true, |x| x.has_expired())`
abbrev pub must_cache : Outcome RemoteAccessError ObjectCache → ℕ → Bool
must_cache (ok object) now = has_expired object now
must_cache (err e) now = true
must_cache panic now = true

module _ {Bytes : Type 0} {HeaderValue : Type 0} (to_str : HeaderValue → Outcome String String)
    (from_str : String → Outcome String HeaderValue) where
  module _ (sign_nonce : String → String → Option String) (key_hash : String → String)
      (codec : Codec Bytes ObjectCache) (cache_dir : String) where
    -- A failure to cache is a panic. What was written stays.
    abbrev pub store :
        Moment Bytes
        → String
        → Response HeaderValue
        → Outcome CacheError ObjectCache
        → Files Bytes
        → Outcome CacheError (Response HeaderValue) × Files Bytes
    store t object_id resp panic files = (panic, files)
    store t object_id resp (err e) files = (err e, files)
    store t object_id resp (ok object) files =
        let (error, after) =
          cache_object_db key_hash codec t.writing object_id object cache_dir files in
        (elim error [ none ↦ ok resp | some e ↦ panic ], after)

    abbrev pub from_cache :
        Outcome RemoteAccessError ObjectCache → Outcome CacheError (Response HeaderValue)
    from_cache (ok object) = response_of_cache from_str object
    from_cache (err e) = err (CacheError.remote e)
    from_cache panic = panic

    unfoldable pub answered :
        Sent HeaderValue
        → Moment Bytes
        → String
        → Outcome RemoteAccessError ObjectCache
        → Files Bytes
        → Outcome CacheError (Response HeaderValue) × Files Bytes
    answered (send_failed e) t object_id cached files = (from_cache cached, files)
    answered (received none bytes) t object_id cached files = (panic, files)
    answered (received (some h) bytes) t object_id cached files =
        let resp = ok_response h (body_or_empty bytes) in
        let stored = store t object_id resp (cache_of_response to_str resp t.stored) files in
        if must_cache cached t.checked then stored else (ok resp, files)

    abbrev pub with_header :
        Outcome RemoteAccessError String
        → Outcome CacheError (Response HeaderValue) × Files Bytes
        → Files Bytes
        → Outcome CacheError (Response HeaderValue) × Files Bytes
    with_header panic rest files = (panic, files)
    with_header (err e) rest files = rest
    with_header (ok header) rest files = rest

    unfoldable pub fetch_id :
        String
        → Option DatabaseAuth
        → Sent HeaderValue
        → Moment Bytes
        → Files Bytes
        → Outcome CacheError (Response HeaderValue) × Files Bytes
    fetch_id object_id auth answer t files =
        let cached = get_cached_object_db key_hash codec object_id cache_dir files in
        let header = generate_authorization_header sign_nonce auth t.nonce in
        let fetched = with_header header (answered answer t object_id cached files) files in
        if must_cache cached t.looked then fetched else (from_cache cached, files)

    -- The response or the error, and the files.
    unfoldable pub fetch_object :
        String
        → Option DatabaseAuth
        → Sent HeaderValue
        → Moment Bytes
        → Files Bytes
        → Outcome CacheError (Response HeaderValue) × Files Bytes
    fetch_object path auth answer t files = elim (object_id_of path) [
      | none ↦ (panic, files)
      | some object_id ↦ fetch_id object_id auth answer t files
    ]

    -- `fetch_object_wrapper`: an error is answered with status 500.
    unfoldable pub fetch_object_wrapper :
        Outcome CacheError (Response HeaderValue) → Option (Response HeaderValue)
    fetch_object_wrapper (ok r) = some r
    fetch_object_wrapper (err e) = some (record { status = 500; content_type = none; body = [] })
    fetch_object_wrapper panic = none

    -- When the server cannot be reached, the object in the cache is the answer however old it is, and
    -- an error if there is none; the files stay as they are.
    pub fetch_object_unreached :
        (path object_id header e : String) (auth : Option DatabaseAuth) (t : Moment Bytes)
        (files : Files Bytes)
        → object_id_of path ≡ some object_id
        → generate_authorization_header sign_nonce auth t.nonce ≡ ok header
        → fetch_object path auth (send_failed e) t files
          ≡ (from_cache (get_cached_object_db key_hash codec object_id cache_dir files), files)
    unfolding fetch_object fetch_id answered
    fetch_object_unreached path object_id header e auth t files p s = ground arith

    answered-stores :
        (object_id text : String) (h : HeaderValue) (bytes : List ℕ) (t : Moment Bytes)
        (cached : Outcome RemoteAccessError ObjectCache) (files : Files Bytes)
        → to_str h ≡ ok text
        → must_cache cached t.checked ≡ true
        → t.writing ≡ written
        → let object : ObjectCache = record {
          content_type = text;
          body = bytes;
          expiry = expiry_after t.stored (60 * 60 * 24);
        } in
          answered (received (some h) (some bytes)) t object_id cached files ≡ (
            ok (ok_response h bytes),
            (cache_object_db key_hash codec written object_id object cache_dir files).1,
          )
    unfolding answered cache_of_response cache_object_db write_sync write_to
    answered-stores object_id text h bytes t cached files to due writes = rw (due, to, writes) refl

    must_cache-later :
        (cached : Outcome RemoteAccessError ObjectCache) (now after : ℕ)
        → now ≤ after
        → must_cache cached now ≡ true
        → must_cache cached after ≡ true
    unfolding has_expired
    must_cache-later (ok object) now after order due = ground arith
    must_cache-later (err e) now after order due = refl
    must_cache-later panic now after order due = refl

    -- An object that is missing from the cache or has expired there, and that the server answers with
    -- a Content-Type that is text, is the response, and is cached. For a day the next fetch of it gives
    -- the same response and leaves the files alone, whatever the server would answer by then, and
    -- whether or not the client is still signed in.
    pub fetch_object_twice :
        ((object : ObjectCache) → codec.decode (codec.encode object) ≡ ok object)
        → (path object_id header text : String) (auth auth' : Option DatabaseAuth) (h : HeaderValue)
          (bytes : List ℕ) (answer : Sent HeaderValue) (t later : Moment Bytes)
          (files : Files Bytes)
        → object_id_of path ≡ some object_id
        → generate_authorization_header sign_nonce auth t.nonce ≡ ok header
        → to_str h ≡ ok text
        → from_str text ≡ ok h
        → must_cache (get_cached_object_db key_hash codec object_id cache_dir files) t.looked ≡ true
        → t.looked ≤ t.checked
        → t.writing ≡ written
        → t.stored + 60 * 60 * 24 < 2 ^ 64
        → later.looked ≤ t.stored + 60 * 60 * 24
        → let resp = ok_response h bytes in
          (after : Files Bytes) × (fetch_object path auth (received (some h) (some bytes)) t files
            ≡ (ok resp, after))
          × (fetch_object path auth' answer later after ≡ (ok resp, after))
    unfolding fetch_object fetch_id response_of_cache has_expired expiry_after
    fetch_object_twice decodes path object_id header text auth auth' h bytes answer t later files p
          s to from due order writes small soon =
        let cached = get_cached_object_db key_hash codec object_id cache_dir files in
        let object : ObjectCache = record {
          content_type = text;
          body = bytes;
          expiry = expiry_after t.stored (60 * 60 * 24);
        } in
        let (_, after) = cache_object_db key_hash codec written object_id object cache_dir files in
        let now_cached =
          get_cached_object_written key_hash codec decodes object_id cache_dir object files in
        let stored =
          answered-stores object_id text h bytes t cached files to
            (must_cache-later cached t.looked t.checked order due) writes in
        let fresh : has_expired object later.looked ≡ false = ground arith in
        (
          after,
          rw (p, fetch_object, due, s) stored,
          rw (p, fetch_object, now_cached, fresh, response_of_cache, from) refl,
        )

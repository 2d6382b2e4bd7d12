-- ===== src/Remote/Auth.antt =====
-- src-tauri/remote/src/auth.rs, with the states of src-tauri/client/src/app_status.rs and the user of
-- user.rs: signing in again when the client starts. The signature, and what the server replies, are
-- arguments.
use drop_app.Prelude.{
  String, ◌≡◌, Bool, true, false, ℕ, ◌==◌, [], ◌∷◌, Option, none, some, string_key, arith,
  if◌then◌else◌,
}
use drop_app.Prelude.Outcomes.{Outcome, ok, err, panic, ◌>>=◌, unwrap}
use drop_app.Prelude.Texts.{concat}
use drop_app.Database.Models.{DatabaseAuth}
use drop_app.Remote.Error.{
  RemoteAccessError, DropServerError, fetch_error, out_of_sync, invalid_response,
}
use drop_app.Remote.Cache.{
  Files, Writing, written, Codec, get_cached_object_written, cache_object_db, get_cached_object_db,
}
use text.Mathlib.Text.{◌==◌ as str_eq}

pub data AppStatus : Type 0 where
  not_configured offline server_error signed_out signed_in signed_in_needs_reauth : AppStatus
  server_unavailable : AppStatus

pub record User : Type 0 where
  pub id : String
  pub username : String
  pub admin : Bool
  pub display_name : String
  pub profile_picture_object_id : String

pub record HandshakeResponse : Type 0 where
  pub private_key : String
  pub certificate : String
  pub id : String

-- `From<HandshakeResponse> for DatabaseAuth`
unfoldable pub auth_of : HandshakeResponse → DatabaseAuth
auth_of value = record {
  private_key = value.private_key;
  cert = value.certificate;
  client_id = value.id;
  web_token = none;
}

-- No reply, or one with this status whose body reads as an error of the server, or as an object.
pub data Reply (D : Type 0) : Type 0 where
  no_reply : String → Reply D
  reply : ℕ → Outcome String DropServerError → Outcome String D → Reply D

-- `?` on an error of the request or of reading its body.
abbrev pub map_fetch {ℓ} : {A : Type ℓ} → Outcome String A → Outcome RemoteAccessError A
map_fetch (ok a) = ok a
map_fetch (err e) = err (fetch_error e)
map_fetch panic = panic

abbrev is_fetch_error : RemoteAccessError → Bool
is_fetch_error (fetch_error e) = true
is_fetch_error _ = false

-- `sign_nonce` gives the signature of a nonce by a private key, or none.
module _ (sign_nonce : String → String → Option String) where
  unfoldable pub generate_authorization_header :
      Option DatabaseAuth → String → Outcome RemoteAccessError String
  generate_authorization_header auth nonce = do
    certs ← unwrap auth
    signature ← unwrap (sign_nonce certs.private_key nonce)
    ok (concat ("Nonce " ∷ certs.client_id ∷ " " ∷ nonce ∷ " " ∷ signature ∷ []))

  abbrev refuse : DropServerError → Outcome RemoteAccessError User
  refuse e =
      if str_eq e.status_message "Nonce expired" then err out_of_sync else err (invalid_response e)

  abbrev read_user : Reply User → Outcome RemoteAccessError User
  read_user (no_reply e) = err (fetch_error e)
  read_user (reply status error user) =
      let refused = map_fetch error >>= refuse in if status == 200 then map_fetch user else refused

  unfoldable pub fetch_user :
      Option DatabaseAuth → String → Reply User → Outcome RemoteAccessError User
  fetch_user auth nonce answer = do _ ← generate_authorization_header auth nonce; read_user answer

  module _ {Bytes : Type 0} (key_hash : String → String) (codec : Codec Bytes User) where
    abbrev ok_of : Outcome RemoteAccessError User → Option User
    ok_of (ok user) = some user
    ok_of (err e) = none
    ok_of panic = none

    abbrev cached_user : String → Files Bytes → Option User
    cached_user cache_dir files = ok_of (get_cached_object_db key_hash codec "user" cache_dir files)

    -- A failure to cache the user is only logged.
    abbrev settle :
        Writing Bytes
        → String
        → Files Bytes
        → Outcome RemoteAccessError User
        → Option (AppStatus × Option User × Files Bytes)
    settle writing cache_dir files (ok user) = some (
      signed_in,
      some user,
      (cache_object_db key_hash codec writing "user" user cache_dir files).1,
    )
    settle writing cache_dir files (err e) = some (
        if is_fetch_error e
        then (offline, cached_user cache_dir files, files)
        else (signed_in_needs_reauth, none, files))
    settle writing cache_dir files panic = none

    -- The status, the user and the files; `none` is a panic.
    unfoldable pub setup :
        Option DatabaseAuth
        → String
        → Reply User
        → Writing Bytes
        → String
        → Files Bytes
        → Option (AppStatus × Option User × Files Bytes)
    setup none nonce answer writing cache_dir files = some (signed_out, none, files)
    setup (some auth) nonce answer writing cache_dir files =
        settle writing cache_dir files (fetch_user (some auth) nonce answer)

    -- Only a user that was fetched makes the client signed in.
    settle-signed_in :
        (writing : Writing Bytes) (cache_dir : String) (files after : Files Bytes)
        (fetched : Outcome RemoteAccessError User) (user : Option User)
        → settle writing cache_dir files fetched ≡ some (signed_in, user, after)
        → (u : User) × (user ≡ some u)
          × (after ≡ (cache_object_db key_hash codec writing "user" u cache_dir files).1)
    settle-signed_in writing cache_dir files after (ok u) user h = (u, ground arith, ground arith)
    settle-signed_in writing cache_dir files after (err e) user h = ground arith
    settle-signed_in writing cache_dir files after panic user h = cc

    -- A client that has signed in and cached its user, and starts again without reaching the server
    -- while its files are as they were, is offline with the same user.
    pub setup_then_offline :
        ((user : User) → codec.decode (codec.encode user) ≡ ok user)
        → (auth : DatabaseAuth) (nonce later : String) (answer : Reply User) (e : String)
          (cache_dir : String) (files after : Files Bytes) (user : Option User)
          (writing : Writing Bytes) (signature : String)
        → setup (some auth) nonce answer written cache_dir files ≡ some (signed_in, user, after)
        → sign_nonce auth.private_key later ≡ some signature
        → setup (some auth) later (no_reply e) writing cache_dir after ≡ some (offline, user, after)
    unfolding setup fetch_user generate_authorization_header
    setup_then_offline decodes auth nonce later answer e cache_dir files after user writing
          signature h s =
        let (u, found, stored) = settle-signed_in written cache_dir files after _ user h in
        let cached = get_cached_object_written key_hash codec decodes "user" cache_dir u files in
        ground (arith, cached)

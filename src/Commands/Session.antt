-- ===== src/Commands/Session.antt =====
-- Signing in and out: `recieve_handshake` of src-tauri/src/lib.rs, and src-tauri/src/remote.rs. The
-- replies of the server and the library of URLs are arguments.
use drop_app.Prelude.{
  String, Bool, ◌&&◌, ℕ, leb, List, [], ◌∷◌, ◌++◌, Option, none, some, if◌then◌else◌,
}
use text.Mathlib.Text.{◌==◌ as str_eq}
use drop_app.Prelude.Panics.{◌>>=◌}
use drop_app.Prelude.Outcomes.{Outcome, ok, err, panic}
use drop_app.Prelude.Texts.{split}
use drop_app.Database.Models.{DatabaseAuth}
use drop_app.Remote.Error.{
  RemoteAccessError, fetch_error, parsing_error, handshake_failed, invalid_response,
  invalid_endpoint,
}
use drop_app.Remote.Cache.{Files, Writing, Codec, clear_cached_object_db}
use drop_app.Remote.Auth.{
  AppStatus, User, HandshakeResponse, auth_of, Reply, no_reply, reply, signed_out, setup,
  generate_authorization_header,
}

pub data SessionEvent : Type 0 where
  auth_processing auth_failed auth_finished auth_signed_out : SessionEvent

-- The status and the user of `AppState`, what the database says of the server, and the cache.
pub record Session (Bytes : Type 0) : Type 0 where
  pub status : AppStatus
  pub user : Option User
  pub auth : Option DatabaseAuth
  pub base_url : String
  pub files : Files Bytes
  pub events : List SessionEvent

pub record HandshakeRequestBody : Type 0 where
  pub client_id : String
  pub token : String

abbrev pub is_success : ℕ → Bool
is_success status = leb 200 status && leb status 299

-- A reply that is a success, or the error of the request, of the server or of reading the reply.
abbrev pub read_handshake : Reply HandshakeResponse → Outcome RemoteAccessError HandshakeResponse
read_handshake (no_reply e) = err (fetch_error e)
read_handshake (reply status (ok error) (ok r)) =
    if is_success status then ok r else err (invalid_response error)
read_handshake (reply status (ok error) (err e)) =
    if is_success status then err (fetch_error e) else err (invalid_response error)
read_handshake (reply status (err e) (ok r)) =
    if is_success status then ok r else err (fetch_error e)
read_handshake (reply status (err e) (err e')) =
    if is_success status then err (fetch_error e') else err (fetch_error e)
read_handshake _ = panic

-- The client and the token of a link.
abbrev pub request_body : List String → Option HandshakeRequestBody
request_body (scheme ∷ client_id ∷ token ∷ []) =
    some (record { client_id = client_id; token = token })
request_body _ = none

abbrev set_web_token : String → Option DatabaseAuth → Option DatabaseAuth
set_web_token token none = none
set_web_token token (some auth) = some (record auth { web_token = some token })

module _ {Bytes : Type 0} where
  abbrev pub emit_session : SessionEvent → Session Bytes → Session Bytes
  emit_session e s = record s { events = s.events ++ e ∷ [] }

  -- `sign_out`
  unfoldable pub sign_out : Session Bytes → Session Bytes
  sign_out s =
      emit_session auth_signed_out (record s { auth = none; status = signed_out; user = none })

  -- What `use_remote` does with the answer to a health check at a URL: its app's name.
  abbrev pub use_remote :
      String
      → Outcome RemoteAccessError String
      → Session Bytes
      → Option (Option RemoteAccessError × Session Bytes)
  use_remote url panic s = none
  use_remote url (err e) s = some (some e, s)
  use_remote url (ok app_name) s =
      if str_eq app_name "Drop"
      then some (none, record s { status = signed_out; base_url = url })
      else some (some invalid_endpoint, s)

  module _ (sign_nonce : String → String → Option String) where
    abbrev token_answer :
        Outcome RemoteAccessError String
        → Outcome String String
        → Session Bytes
        → Option (Option RemoteAccessError × Session Bytes)
    token_answer (ok header) (ok token) s =
        some (none, record s { auth = set_web_token token s.auth })
    token_answer (ok header) (err e) s = some (some (fetch_error e), s)
    token_answer (ok header) panic s = none
    token_answer (err e) answer s = some (some e, s)
    token_answer panic answer s = none

    -- The credentials are stored first. The token is the text of the reply, whatever its status.
    abbrev pub store_auth :
        Outcome RemoteAccessError HandshakeResponse
        → String
        → Outcome String String
        → Session Bytes
        → Option (Option RemoteAccessError × Session Bytes)
    store_auth panic nonce token s = none
    store_auth (err e) nonce token s = some (some e, s)
    store_auth (ok r) nonce token s =
        let stored = record s { auth = some (auth_of r) } in
        token_answer (generate_authorization_header sign_nonce (some (auth_of r)) nonce) token
          stored

    -- `parse` gives the error of parsing the base URL, if there is one.
    abbrev pub handshake_with :
        Option HandshakeRequestBody
        → (String → Option String)
        → Reply HandshakeResponse
        → String
        → Outcome String String
        → Session Bytes
        → Option (Option RemoteAccessError × Session Bytes)
    handshake_with none parse answer nonce token s =
        some (some (handshake_failed "failed to parse token"), emit_session auth_failed s)
    handshake_with (some body) parse answer nonce token s = elim (parse s.base_url) [
      | some e ↦ some (some (parsing_error e), s)
      | none ↦ store_auth (read_handshake answer) nonce token s
    ]

    unfoldable pub recieve_handshake_logic :
        (String → Option String)
        → String
        → Reply HandshakeResponse
        → String
        → Outcome String String
        → Session Bytes
        → Option (Option RemoteAccessError × Session Bytes)
    recieve_handshake_logic parse path answer nonce token s =
        handshake_with (request_body (split "/" path)) parse answer nonce token s

    module _ (key_hash : String → String) (codec : Codec Bytes User) (cache_dir : String) where
      abbrev clear : String → Files Bytes → Files Bytes
      clear key files = (clear_cached_object_db key_hash key cache_dir files).1

      abbrev pub finish_handshake :
          Option RemoteAccessError
          → String
          → Reply User
          → Writing Bytes
          → Session Bytes
          → Option (Session Bytes)
      finish_handshake (some e) nonce answer writing s = some (emit_session auth_failed s)
      finish_handshake none nonce answer writing s = do
        (status, user, files) ←
            setup sign_nonce key_hash codec s.auth nonce answer writing cache_dir s.files
        some (
            emit_session auth_finished (record s {
              status = status;
              user = user;
              files = clear "library" (clear "collections" files);
            }))

      -- The replies to the handshake, to the request of a token, and, at a later time, to that of the
      -- user.
      unfoldable pub recieve_handshake :
          (String → Option String)
          → String
          → Reply HandshakeResponse
          → String
          → Outcome String String
          → String
          → Reply User
          → Writing Bytes
          → Session Bytes
          → Option (Session Bytes)
      recieve_handshake parse path answer nonce token later user writing s = do
        (error, s') ←
            recieve_handshake_logic parse path answer nonce token (emit_session auth_processing s)
        finish_handshake error later user writing s'

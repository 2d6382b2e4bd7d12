-- ===== src/Commands/Connect.antt =====
-- The ways to the server of src-tauri/src/remote.rs and of `on_open_url` in src-tauri/src/lib.rs, with
-- `auth_initiate_logic` of src-tauri/remote/src/auth.rs. The server's answers, the messages of the
-- websocket and the libraries of URLs and of JSON are arguments.
pub mod Links
use drop_app.Prelude.{
  String, Bool, true, false, ℕ, ◌==◌, List, [], ◌∷◌, Option, none, some, if◌then◌else◌,
}
use text.Mathlib.Text.{◌==◌ as str_eq}
use drop_app.Prelude.Panics
use drop_app.Prelude.Outcomes.{Outcome, ok, err, panic, ◌>>=◌}
use drop_app.Prelude.Texts.{concat}
use drop_app.Remote.Error.{
  RemoteAccessError, DropServerError, fetch_error, handshake_failed, fetch_error_ws, parsing_error,
  unparseable_response,
}
use drop_app.Remote.Cache.{Files, Writing, Codec, cache_object_db, get_cached_object_db}
use drop_app.Remote.Auth.{
  AppStatus, User, HandshakeResponse, Reply, no_reply, reply, map_fetch, setup,
}
use drop_app.Remote.Requests.{
  UrlLibrary, HttpRequest, map_parsing, generate_url, make_authenticated_get, send,
}
use drop_app.Commands.Session.{Session, auth_failed, emit_session, recieve_handshake}

pub record InitiateRequestBody : Type 0 where
  pub name : String
  pub platform : String
  pub capabilities : List String
  pub mode : String

pub record CodeWebsocketResponse : Type 0 where
  pub response_type : String
  pub value : String

pub data Message : Type 0 where
  text_message : String → Message
  other_message : Message

-- How the task of a code ends: with the token of a handshake, or with an error.
pub data CodeEnd : Type 0 where
  token : String → CodeEnd
  failed : RemoteAccessError → CodeEnd
  panicked : CodeEnd

abbrev pub initiate_body : String → String → String → InitiateRequestBody
initiate_body hostname os mode = record {
  name = concat (hostname ∷ " (Desktop)" ∷ []);
  platform = os;
  capabilities = "peerAPI" ∷ "cloudSaves" ∷ [];
  mode = mode;
}

abbrev pub refused : DropServerError → Outcome RemoteAccessError String
refused error = err (handshake_failed error.status_message)

-- The text of a reply with status 200.
abbrev pub read_text : Reply String → Outcome RemoteAccessError String
read_text (no_reply e) = err (fetch_error e)
read_text (reply status error answer) =
    let no = map_fetch error >>= refused in if status == 200 then map_fetch answer else no

abbrev pub read_response : Outcome String CodeWebsocketResponse → CodeEnd
read_response (ok response) =
    if str_eq response.response_type "token"
    then token response.value
    else failed (handshake_failed response.value)
read_response (err e) = failed (unparseable_response e)
read_response panic = panicked

-- The messages of the websocket up to its end; messages that are no text are passed over.
unfoldable pub load :
    (String → Outcome String CodeWebsocketResponse) → List (Outcome String Message) → CodeEnd
load parse [] = failed (handshake_failed "Failed to connect to websocket")
load parse (ok other_message ∷ messages) = load parse messages
load parse (ok (text_message t) ∷ messages) = read_response (parse t)
load parse (err e ∷ messages) = failed (fetch_error_ws e)
load parse (panic ∷ messages) = panicked

module _ {Url : Type 0} (library : UrlLibrary Url) where
  unfoldable pub gen_drop_url : String → String → Outcome RemoteAccessError String
  gen_drop_url base_url path = do
    base ← map_parsing (library.parse base_url)
    url ← map_parsing (library.join base path)
    ok (library.to_text url)

  module _ (hostname os : String) (server : String → InitiateRequestBody → Reply String) where
    unfoldable pub auth_initiate_logic : String → String → Outcome RemoteAccessError String
    auth_initiate_logic base_url mode = do
      base ← map_parsing (library.parse base_url)
      endpoint ← map_parsing (library.join base "/api/v1/client/auth/initiate")
      read_text (server (library.to_text endpoint) (initiate_body hostname os mode))

    -- The URL that the browser is to open.
    unfoldable pub auth_initiate : String → Outcome RemoteAccessError String
    auth_initiate base_url = do
      base ← map_parsing (library.parse base_url)
      redir_url ← auth_initiate_logic base_url "callback"
      complete_redir_url ← map_parsing (library.join base redir_url)
      ok (library.to_text complete_redir_url)

    -- The code, and the URL for the task that waits for it.
    unfoldable pub auth_initiate_code : String → Outcome RemoteAccessError (String × Url)
    auth_initiate_code base_url = do
      base ← map_parsing (library.parse base_url)
      code ← auth_initiate_logic base_url "code"
      ok (code, base)

  -- The task that waits for a code to be used: `opened` is the error of opening the websocket.
  unfoldable pub wait_for_code :
      (String → Outcome String CodeWebsocketResponse)
      → Url
      → Option String
      → List (Outcome String Message)
      → CodeEnd
  wait_for_code parse base opened messages =
      elim (library.join base "/api/v1/client/auth/code/ws") [
        | err e ↦ failed (parsing_error e)
        | panic ↦ panicked
        | ok ws_url ↦ elim opened [
          | some e ↦ failed (fetch_error_ws e)
          | none ↦ load parse messages
        ]
      ]

-- A URL that the system asks the client to open.
pub record DeepLink : Type 0 where
  pub host : Option String
  pub path : String

abbrev pub is_handshake : Option String → Bool
is_handshake none = false
is_handshake (some host) = str_eq host "handshake"

-- What a sign-in by a path does to the session; none is a panic.
abbrev pub Receive : Type 0 → Type 0
Receive Bytes = String → Session Bytes → Option (Session Bytes)

module _ {Bytes : Type 0} (recieve : Receive Bytes) where
  unfoldable pub manual_recieve_handshake : String → Session Bytes → Option (Session Bytes)
  manual_recieve_handshake t s = recieve (concat ("handshake/" ∷ t ∷ [])) s

  -- The first URL counts.
  unfoldable pub on_open_url : List DeepLink → Session Bytes → Option (Session Bytes)
  on_open_url [] s = some s
  on_open_url (url ∷ urls) s = if is_handshake url.host then recieve url.path s else some s

  -- The end of the task that waits for a code.
  unfoldable pub finish_code : CodeEnd → Session Bytes → Option (Session Bytes)
  finish_code (token t) s = manual_recieve_handshake t s
  finish_code (failed e) s = some (emit_session auth_failed s)
  finish_code panicked s = none

abbrev with_setup :
    {Bytes : Type 0}
    → Session Bytes
    → Option (AppStatus × Option User × Files Bytes)
    → Option (Session Bytes)
with_setup s none = none
with_setup s (some (status, user, files)) =
    some (record s { status = status; user = user; files = files })

unfoldable pub retry_connect :
    {Bytes : Type 0}
    → (String → String → Option String)
    → (String → String)
    → Codec Bytes User
    → String
    → String
    → Reply User
    → Writing Bytes
    → Session Bytes
    → Option (Session Bytes)
retry_connect sign_nonce key_hash codec cache_dir nonce answer writing s =
    with_setup s (setup sign_nonce key_hash codec s.auth nonce answer writing cache_dir s.files)

-- `fetch_drop_object`: what the server sends is cached under the path, whatever its status; without an
-- answer the cache is read.
module _ {Url Bytes : Type 0} (library : UrlLibrary Url) (key_hash : String → String)
    (codec : Codec Bytes (List ℕ)) (cache_dir : String) where
  abbrev pub store_object :
      Option RemoteAccessError × Files Bytes
      → List ℕ
      → Outcome RemoteAccessError (List ℕ) × Files Bytes
  store_object (none, files) object = (ok object, files)
  store_object (some e, files) object = (err e, files)

  -- An error of sending, or the bytes of the body or an error of reading them.
  abbrev pub object_of :
      String
      → Outcome RemoteAccessError (HttpRequest Url)
      → Outcome String (Outcome String (List ℕ))
      → Writing Bytes
      → Files Bytes
      → Outcome RemoteAccessError (List ℕ) × Files Bytes
  object_of path (err e) answer writing files = (err e, files)
  object_of path panic answer writing files = (panic, files)
  object_of path (ok r) (ok (ok object)) writing files =
      store_object (cache_object_db key_hash codec writing path object cache_dir files) object
  object_of path (ok r) (ok (err e)) writing files = (err (fetch_error e), files)
  object_of path (ok r) (ok panic) writing files = (panic, files)
  object_of path (ok r) (err e) writing files =
      (get_cached_object_db key_hash codec path cache_dir files, files)
  object_of path (ok r) panic writing files = (panic, files)

  unfoldable pub fetch_drop_object :
      String
      → String
      → Outcome RemoteAccessError String
      → Outcome String (Outcome String (List ℕ))
      → Writing Bytes
      → Files Bytes
      → Outcome RemoteAccessError (List ℕ) × Files Bytes
  fetch_drop_object base_url path header answer writing files =
      object_of path
        (gen_drop_url library base_url path >>= λ drop_url.
          make_authenticated_get (generate_url library base_url (path ∷ []) []) header)
        answer writing files

-- ===== src/Remote/ServerProto.antt =====
-- src-tauri/remote/src/server_proto.rs, and `offline!` of cache.rs by which src-tauri/src/lib.rs picks
-- one of its handlers: requests of the interface that are passed on to the server. The library of
-- URIs and the server's answer are arguments.
pub mod Token
use drop_app.Prelude.{
  String, ◌≡◌, refl, Bool, true, false, not, ◌&&◌, ◌||◌, ℕ, List, [], ◌∷◌, ◌++◌, Option, none, some,
  if◌then◌else◌, arith, Bool-cases, inl, inr,
}
use text.Mathlib.Text.{starts_with, ◌==◌ as str_eq}
use drop_app.Prelude.Panics.{◌>>=◌}
use drop_app.Prelude.Outcomes.{Outcome, ok, err, panic}
use drop_app.Prelude.Texts.{concat}
use drop_app.Database.Models.{DatabaseAuth, Settings}
use drop_app.Remote.Auth.{AppStatus, offline}

-- `http::uri::Parts`
pub record Parts (PathAndQuery : Type 0) : Type 0 where
  pub scheme : Option String
  pub authority : Option String
  pub path_and_query : Option PathAndQuery

pub record UriLibrary (Uri PathAndQuery : Type 0) : Type 0 where
  pub parse : String → Option Uri
  pub path : Uri → String
  pub into_parts : Uri → Parts PathAndQuery
  pub from_parts : Parts PathAndQuery → Option Uri
  pub path_and_query_from_str : String → Option PathAndQuery
  pub to_text : Uri → String

-- Names of headers are in lower case, which is what the library turns them into.
abbrev pub Headers : Type 0
Headers = List (String × String)

-- The values under a name.
unfoldable pub values_of : String → Headers → List String
values_of name [] = []
values_of name ((n, v) ∷ headers) =
    let rest = values_of name headers in if str_eq name n then v ∷ rest else rest

pub record Request (Uri : Type 0) : Type 0 where
  pub method : String
  pub uri : Uri
  pub headers : Headers
  pub body : List ℕ

pub record Response : Type 0 where
  pub status : ℕ
  pub headers : Headers
  pub body : List ℕ

-- What is sent to the server: it has no body.
pub record Sent : Type 0 where
  pub method : String
  pub url : String
  pub headers : Headers

-- An error, with its status if it has one, of sending or of reading the body of a reply.
pub data Answer : Type 0 where
  not_sent : Option ℕ → Answer
  no_body : Option ℕ → Answer
  answered : ℕ → List ℕ → Answer

pub data Effect : Type 0 where
  webbrowser_open : String → Effect
  send : Sent → Effect

abbrev pub bad_request : ℕ
bad_request = 400

abbrev pub unauthorized : ℕ
unauthorized = 401

abbrev pub not_found : ℕ
not_found = 404

abbrev pub internal_server_error : ℕ
internal_server_error = 500

abbrev status_or : Option ℕ → ℕ → ℕ
status_or none default = default
status_or (some status) default = status

abbrev pub empty_response : ℕ → Response
empty_response status = record { status = status; headers = []; body = [] }

abbrev pub read_answer : Answer → Outcome ℕ Response
read_answer (not_sent status) = err (status_or status bad_request)
read_answer (no_body status) = err (status_or status internal_server_error)
read_answer (answered status body) = ok (record { status = status; headers = []; body = body })

abbrev pub whitelist_prefix : List String
whitelist_prefix = "/store" ∷ "/api" ∷ "/_" ∷ "/fonts" ∷ []

-- `iter().all(|f| !path.starts_with(f))`, said the other way round.
unfoldable pub is_whitelisted : List String → String → Bool
is_whitelisted [] path = false
is_whitelisted (f ∷ fs) path = starts_with path f || is_whitelisted fs path

abbrev pub web_token_of : Option DatabaseAuth → Option String
web_token_of none = none
web_token_of (some auth) = auth.web_token

unfoldable pub handle_server_proto_offline : Outcome ℕ Response
handle_server_proto_offline = ok (empty_response not_found)

-- An error becomes an empty response with its status.
unfoldable pub respond : Outcome ℕ Response → Option Response
respond (ok response) = some response
respond (err status) = some (empty_response status)
respond panic = none

abbrev pub bearer : String → String × String
bearer web_token = ("authorization", concat ("Bearer " ∷ web_token ∷ []))

abbrev pub is_offline : Settings → AppStatus → Bool
is_offline settings offline = true
is_offline settings status = settings.force_offline

-- `set_headers` is the client library's `headers`: the headers set so far, and those of a request.
module _ {Uri PathAndQuery : Type 0} (library : UriLibrary Uri PathAndQuery)
    (set_headers : Headers → Headers → Headers) where
  -- The URI at the server: the path of the request, and the scheme and authority of the base URL.
  unfoldable pub server_uri : Uri → Uri → Option Uri
  server_uri remote uri = do
    path_and_query ←
        library.path_and_query_from_str (concat (library.path uri ∷ "?noWrapper=true" ∷ []))
    library.from_parts (record {
      scheme = (library.into_parts remote).scheme;
      authority = (library.into_parts remote).authority;
      path_and_query = some path_and_query;
    })

  abbrev pub forward : Option Uri → String → Request Uri → Answer → Outcome ℕ Response × List Effect
  forward none web_token request answer = (panic, [])
  forward (some uri) web_token request answer =
      let url = library.to_text uri in
      if is_whitelisted whitelist_prefix (library.path request.uri)
      then (
        read_answer answer,
        send (record {
          method = request.method;
          url = url;
          headers = set_headers (bearer web_token ∷ []) request.headers;
        })
            ∷ [],
      )
      else (ok (empty_response 200), webbrowser_open url ∷ [])

  abbrev pub with_token :
      Option String → String → Request Uri → Answer → Outcome ℕ Response × List Effect
  with_token none base_url request answer = (err unauthorized, [])
  with_token (some web_token) base_url request answer =
      forward (library.parse base_url >>= λ remote. server_uri remote request.uri) web_token request
        answer

  unfoldable pub handle_server_proto :
      Option DatabaseAuth → String → Request Uri → Answer → Outcome ℕ Response × List Effect
  handle_server_proto auth base_url request answer =
      with_token (web_token_of auth) base_url request answer

  -- `offline!` with the two wrappers, and what the responder is given; none is a panic.
  unfoldable pub serve :
      Settings
      → AppStatus
      → Option DatabaseAuth
      → String
      → Request Uri
      → Answer
      → Option Response × List Effect
  serve settings status auth base_url request answer =
      if is_offline settings status
      then (respond handle_server_proto_offline, [])
      else (let (result, effects) = handle_server_proto auth base_url request answer in
          (respond result, effects))

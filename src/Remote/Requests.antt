-- ===== src/Remote/Requests.antt =====
-- src-tauri/remote/src/requests.rs: URLs at the server, and requests that carry an authorization. The
-- library of URLs is an argument.
use drop_app.Prelude.{String, List, [], ◌∷◌}
use drop_app.Prelude.Outcomes.{Outcome, ok, err, panic, ◌>>=◌}
use drop_app.Remote.Error.{RemoteAccessError, parsing_error}
use drop_app.Remote.Auth.{map_fetch}

pub record UrlLibrary (Url : Type 0) : Type 0 where
  pub parse : String → Outcome String Url
  pub join : Url → String → Outcome String Url
  pub append_pairs : List (String × String) → Url → Url
  pub to_text : Url → String

-- `json` is the fields of the body.
pub record HttpRequest (Url : Type 0) : Type 0 where
  pub method : String
  pub url : Url
  pub authorization : String
  pub json : List (String × String)

abbrev pub map_parsing {ℓ} : {A : Type ℓ} → Outcome String A → Outcome RemoteAccessError A
map_parsing (ok a) = ok a
map_parsing (err e) = err (parsing_error e)
map_parsing panic = panic

-- `unwrap_or_else(|_| panic!(…))`
abbrev pub or_panic {ℓ} : {A : Type ℓ} → Outcome String A → Outcome RemoteAccessError A
or_panic (ok a) = ok a
or_panic (err e) = panic
or_panic panic = panic

module _ {Url : Type 0} (library : UrlLibrary Url) where
  unfoldable pub join_all : List String → Url → Outcome RemoteAccessError Url
  join_all [] url = ok url
  join_all (endpoint ∷ endpoints) url =
      map_parsing (library.join url endpoint) >>= join_all endpoints

  unfoldable pub generate_url :
      String → List String → List (String × String) → Outcome RemoteAccessError Url
  generate_url base_url path_components query = do
    base ← or_panic (library.parse base_url)
    url ← join_all path_components base
    ok (library.append_pairs query url)

-- A request of the client: its URL first, then the header. Nothing is sent if one of them fails.
abbrev pub request :
    {Url : Type 0}
    → String
    → List (String × String)
    → Outcome RemoteAccessError Url
    → Outcome RemoteAccessError String
    → Outcome RemoteAccessError (HttpRequest Url)
request method json url header = do
  u ← url
  h ← header
  ok (record { method = method; url = u; authorization = h; json = json })

-- What is answered to a request, and the request if it was sent.
abbrev pub send {ℓ} :
    {Url : Type 0} {A : Type ℓ}
    → Outcome RemoteAccessError (HttpRequest Url)
    → Outcome String A
    → Outcome RemoteAccessError A × List (HttpRequest Url)
send (ok r) answer = (map_fetch answer, r ∷ [])
send (err e) answer = (err e, [])
send panic answer = (panic, [])

abbrev pub make_authenticated_get :
    {Url : Type 0}
    → Outcome RemoteAccessError Url
    → Outcome RemoteAccessError String
    → Outcome RemoteAccessError (HttpRequest Url)
make_authenticated_get = request "GET" []

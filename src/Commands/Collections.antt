-- ===== src/Commands/Collections.antt =====
-- src-tauri/src/collections.rs, with the types of src-tauri/games/src/collections/collection.rs: the
-- collections of games that the server keeps. What it answers is an argument; no command looks at the
-- status of an answer.
pub mod Entries
pub mod Caching
use drop_app.Prelude.{String, Bool, true, false, List, [], ◌∷◌, Option, none, some}
use drop_app.Prelude.Outcomes.{Outcome, ok, err, panic, ◌>>=◌}
use drop_app.Remote.Error.{RemoteAccessError}
use drop_app.Remote.Cache.{Files, Writing, Codec, cache_object_db, get_cached_object_db}
use drop_app.Remote.Requests.{
  UrlLibrary, HttpRequest, generate_url, request, send, make_authenticated_get,
}
use drop_app.Commands.{Game}

pub record CollectionObject : Type 0 where
  pub collection_id : String
  pub game_id : String
  pub game : Game

pub record Collection : Type 0 where
  pub id : String
  pub name : String
  pub is_default : Bool
  pub user_id : String
  pub entries : List CollectionObject

abbrev pub Collections : Type 0
Collections = List Collection

-- The answer, once the object in it is cached: an error of that is returned.
abbrev pub unless_error {ℓ} :
    {A : Type ℓ} → Option RemoteAccessError → A → Outcome RemoteAccessError A
unless_error none a = ok a
unless_error (some e) a = err e

module _ {Url : Type 0} (library : UrlLibrary Url) (base_url : String) where
  abbrev pub collection_url : String → Outcome RemoteAccessError Url
  collection_url collection_id =
      generate_url library base_url ("/api/v1/client/collection" ∷ collection_id ∷ []) []

  abbrev pub entry_url : String → Outcome RemoteAccessError Url
  entry_url collection_id =
      generate_url library base_url ("/api/v1/client/collection" ∷ collection_id ∷ "entry" ∷ []) []

module _ {Url : Type 0} (library : UrlLibrary Url) (base_url : String)
    (header : Outcome RemoteAccessError String) where
  module _ {Bytes : Type 0} (key_hash : String → String) (codec : Codec Bytes Collections)
      (cache_dir : String) where
    abbrev pub cache_collections :
        Outcome RemoteAccessError Collections × List (HttpRequest Url)
        → Writing Bytes
        → Files Bytes
        → Outcome RemoteAccessError Collections × List (HttpRequest Url) × Files Bytes
    cache_collections (ok collections, sent) writing files =
        let (error, after) =
          cache_object_db key_hash codec writing "collections" collections cache_dir files in
        (unless_error error collections, sent, after)
    cache_collections (err e, sent) writing files = (err e, sent, files)
    cache_collections (panic, sent) writing files = (panic, sent, files)

    abbrev pub refresh_collections :
        Outcome String Collections
        → Writing Bytes
        → Files Bytes
        → Outcome RemoteAccessError Collections × List (HttpRequest Url) × Files Bytes
    refresh_collections answer writing files =
        let url = generate_url library base_url ("/api/v1/client/collection" ∷ []) [] in
        cache_collections (send (make_authenticated_get url header) answer) writing files

    abbrev pub cached_or_refresh :
        Outcome RemoteAccessError Collections
        → Outcome String Collections
        → Writing Bytes
        → Files Bytes
        → Outcome RemoteAccessError Collections × List (HttpRequest Url) × Files Bytes
    cached_or_refresh (ok cached) answer writing files = (ok cached, [], files)
    cached_or_refresh (err e) answer writing files = refresh_collections answer writing files
    cached_or_refresh panic answer writing files = (panic, [], files)

    -- No argument counts as false.
    unfoldable pub fetch_collections :
        Option Bool
        → Outcome String Collections
        → Writing Bytes
        → Files Bytes
        → Outcome RemoteAccessError Collections × List (HttpRequest Url) × Files Bytes
    fetch_collections (some true) answer writing files = refresh_collections answer writing files
    fetch_collections hard_refresh answer writing files =
        cached_or_refresh (get_cached_object_db key_hash codec "collections" cache_dir files) answer
          writing files

  unfoldable pub fetch_collection :
      String
      → Outcome String Collection
      → Outcome RemoteAccessError Collection × List (HttpRequest Url)
  fetch_collection collection_id answer =
      let url =
        generate_url library base_url ("/api/v1/client/collection/" ∷ collection_id ∷ []) [] in
      send (make_authenticated_get url header) answer

  unfoldable pub create_collection :
      String
      → Outcome String Collection
      → Outcome RemoteAccessError Collection × List (HttpRequest Url)
  create_collection name answer =
      let url = generate_url library base_url ("/api/v1/client/collection" ∷ []) [] in
      send (request "POST" (("name", name) ∷ []) url header) answer

  unfoldable pub delete_collection :
      String → Outcome String Bool → Outcome RemoteAccessError Bool × List (HttpRequest Url)
  delete_collection collection_id answer =
      send (request "DELETE" [] (collection_url library base_url collection_id) header) answer

  -- `answer` is the error of sending, if there is one.
  unfoldable pub add_game_to_collection :
      String
      → String
      → Outcome String (Unit {0})
      → Outcome RemoteAccessError (Unit {0}) × List (HttpRequest Url)
  add_game_to_collection collection_id game_id answer =
      send (request "POST" (("id", game_id) ∷ []) (entry_url library base_url collection_id) header)
        answer

  unfoldable pub delete_game_in_collection :
      String
      → String
      → Outcome String (Unit {0})
      → Outcome RemoteAccessError (Unit {0}) × List (HttpRequest Url)
  delete_game_in_collection collection_id game_id answer =
      send
        (request "DELETE" (("id", game_id) ∷ []) (entry_url library base_url collection_id) header)
        answer

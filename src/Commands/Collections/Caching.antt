-- ===== src/Commands/Collections/Caching.antt =====
-- Fetching the collections again.
use drop_app.Prelude.{String, ◌≡◌, refl, true, false, List, [], none, some, arith}
use drop_app.Prelude.Outcomes.{Outcome, ok, err, panic}
use drop_app.Remote.Error.{RemoteAccessError}
use drop_app.Remote.Cache.{
  Files, Writing, written, Codec, cache_object_db, get_cached_object_db, get_cached_object_written,
  write_sync, write_to,
}
use drop_app.Remote.Requests.{UrlLibrary, HttpRequest}
use drop_app.Commands.Collections.{Collections, cache_collections, fetch_collections}

module _ {Url : Type 0} (library : UrlLibrary Url) (base_url : String)
    (header : Outcome RemoteAccessError String) {Bytes : Type 0} (key_hash : String → String)
    (codec : Codec Bytes Collections) (cache_dir : String)
    (decodes : (c : Collections) → codec.decode (codec.encode c) ≡ ok c) where
  cache_collections-cached :
      (answer : Outcome RemoteAccessError Collections × List (HttpRequest Url))
      (files after : Files Bytes) (collections : Collections) (sent : List (HttpRequest Url))
      → cache_collections library base_url header key_hash codec cache_dir answer written files
        ≡ (ok collections, sent, after)
      → get_cached_object_db key_hash codec "collections" cache_dir after ≡ ok collections
  unfolding cache_object_db write_sync write_to
  cache_collections-cached (ok found, sent') files after collections sent h =
      ground (
        arith,
        get_cached_object_written key_hash codec decodes "collections" cache_dir found files,
      )
  cache_collections-cached (err e, sent') files after collections sent h = ground arith
  cache_collections-cached (panic, sent') files after collections sent h = ground arith

  -- Let decoding undo encoding, and let the file be written. Once the collections were refreshed with
  -- success, fetching them again without a refresh gives the same ones, sends nothing, and leaves the
  -- cache as it is, whatever the server would answer.
  pub fetch_collections_twice :
      (answer later : Outcome String Collections) (writing : Writing Bytes)
      (files after : Files Bytes) (collections : Collections) (sent : List (HttpRequest Url))
      → fetch_collections library base_url header key_hash codec cache_dir
          (some true)
          answer
          written
          files
        ≡ (ok collections, sent, after)
      → (fetch_collections library base_url header key_hash codec cache_dir none later writing after
          ≡ (ok collections, [], after))
        × (fetch_collections library base_url header key_hash codec cache_dir
              (some false)
              later
              writing
              after
            ≡ (ok collections, [], after))
  unfolding fetch_collections
  fetch_collections_twice answer later writing files after collections sent h =
      let cached = cache_collections-cached _ files after collections sent h in
      (rw cached refl, rw cached refl)

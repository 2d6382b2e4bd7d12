-- ===== src/Commands/Collections/Entries.antt =====
-- What the commands on collections ask of the server.
use Prim.Native.Char.{code}
use Prim.Native.String.{◌++◌ as append}
use text.Mathlib.Text.{◌==◌ as str_eq}
use mathlib.Core.Path.{fun_ext}
use drop_app.Prelude.{
  String, ◌≡◌, refl, ap, ◌∙◌, Bool, true, not, ◌&&◌, ◌||◌, ℕ, leb, ◌==◌, List, [], ◌∷◌, ◌++◌,
}
use drop_app.Prelude.Outcomes.{Outcome, ok, err, panic, ◌>>=◌}
use drop_app.Remote.Error.{RemoteAccessError}
use drop_app.Remote.Requests.{
  UrlLibrary, map_parsing, or_panic, join_all, generate_url, request, send,
}
use drop_app.Commands.Collections.{
  add_game_to_collection, delete_game_in_collection, delete_collection, entry_url, collection_url,
}

-- The characters of the ids of the server.
abbrev pub is_id_char : ℕ → Bool
is_id_char c =
    leb b'a' c && leb c b'z' || leb b'A' c && leb c b'Z' || leb b'0' c && leb c b'9' || c == b'-'

abbrev pub are_id_chars : String → Bool
are_id_chars String.[] = true
are_id_chars (String.◌∷◌ c s) = is_id_char (code c) && are_id_chars s

-- A segment of a path in which no character has a meaning of its own.
abbrev pub is_segment : String → Bool
is_segment s = not (str_eq s "") && are_id_chars s

abbrev pub AreSegments : List String → Type 0
AreSegments [] = Unit
AreSegments (s ∷ ss) = (is_segment s ≡ true) × AreSegments ss

abbrev pub path_of : List String → String
path_of [] = ""
path_of (s ∷ ss) = append "/" (append s (path_of ss))

-- A segment that is joined to a URL takes the place of the last one of the path.
abbrev pub ReplacesLast : {Url : Type 0} → UrlLibrary Url → Type 0
ReplacesLast library =
    (base : _) (segments : List String) (last next : String)
    → AreSegments segments
    → is_segment last ≡ true
    → is_segment next ≡ true
    → (library.join base (path_of (segments ++ last ∷ [])) >>= λ url. library.join url next)
      ≡ library.join base (path_of (segments ++ next ∷ []))

module _ {A : Type 0} where
  map_parsing-bind :
      (o : Outcome String A) (f : A → Outcome String A) (k : A → Outcome RemoteAccessError A)
      → (map_parsing o >>= λ a. map_parsing (f a) >>= k) ≡ (map_parsing (o >>= f) >>= k)
  map_parsing-bind (ok a) f k = refl
  map_parsing-bind (err e) f k = refl
  map_parsing-bind panic f k = refl

abbrev pub prefix : List String
prefix = "api" ∷ "v1" ∷ "client" ∷ []

module _ {Url : Type 0} (library : UrlLibrary Url) (replaces : ReplacesLast library)
    (base_url : String) where
  join_all-replaced :
      (segments : List String) (last next : String) (endpoints : List String) (base : Url)
      → AreSegments segments
      → is_segment last ≡ true
      → is_segment next ≡ true
      → join_all library (path_of (segments ++ last ∷ []) ∷ next ∷ endpoints) base
        ≡ join_all library (path_of (segments ++ next ∷ []) ∷ endpoints) base
  unfolding join_all
  join_all-replaced segments last next endpoints base all l n =
      map_parsing-bind (library.join base (path_of (segments ++ last ∷ [])))
        (λ url. library.join url next) (join_all library endpoints)
      ∙ ap (λ o. map_parsing o >>= join_all library endpoints)
          (replaces base segments last next all l n)

  join_three :
      (base : Url) (id : String)
      → is_segment id ≡ true
      → join_all library ("/api/v1/client/collection" ∷ id ∷ "entry" ∷ []) base
        ≡ join_all library ("/api/v1/client/entry" ∷ []) base
  join_three base id h =
      join_all-replaced prefix "collection" id ("entry" ∷ []) base (refl, (refl, (refl, tt))) refl h
      ∙ join_all-replaced prefix id "entry" [] base (refl, (refl, (refl, tt))) h refl

  generate_url-congr :
      (es fs : List String)
      → ((base : Url) → join_all library es base ≡ join_all library fs base)
      → generate_url library base_url es [] ≡ generate_url library base_url fs []
  unfolding generate_url
  generate_url-congr es fs same_url =
      ap
        (λ (joined : Url → Outcome RemoteAccessError Url).
          or_panic (library.parse base_url) >>= λ base.
          joined base >>= λ url. ok (library.append_pairs [] url))
        (fun_ext same_url)

  entry_url_lem :
      (id : String)
      → is_segment id ≡ true
      → entry_url library base_url id
        ≡ generate_url library base_url ("/api/v1/client/entry" ∷ []) []
  entry_url_lem id h = generate_url-congr _ _ (λ base. join_three base id h)

  collection_url_lem :
      (id : String)
      → is_segment id ≡ true
      → collection_url library base_url id
        ≡ generate_url library base_url (path_of (prefix ++ id ∷ []) ∷ []) []
  collection_url_lem id h =
      generate_url-congr _ _
        (λ base. join_all-replaced prefix "collection" id [] base (refl, (refl, (refl, tt))) refl h)

  -- Let a segment that is joined to a URL replace the last segment of its path. Adding a game to a
  -- collection, or deleting it there, asks the server for the same URL whichever the collection is,
  -- and deleting a collection for the URL that has the collection's id in the place of `collection`.
  pub add_game_any_collection :
      (header : Outcome RemoteAccessError String) (id game_id : String)
      (answer : Outcome String (Unit {0})) (deleted : Outcome String Bool)
      → is_segment id ≡ true
      → let url = generate_url library base_url ("/api/v1/client/entry" ∷ []) [] in
        (add_game_to_collection library base_url header id game_id answer
          ≡ send (request "POST" (("id", game_id) ∷ []) url header) answer)
        × (delete_game_in_collection library base_url header id game_id answer
            ≡ send (request "DELETE" (("id", game_id) ∷ []) url header) answer)
        × (delete_collection library base_url header id deleted
            ≡ send
                (request "DELETE" []
                  (generate_url library base_url (path_of (prefix ++ id ∷ []) ∷ []) [])
                  header)
                deleted)
  unfolding add_game_to_collection delete_game_in_collection delete_collection
  add_game_any_collection header id game_id answer deleted h = (
    ap (λ url. send (request "POST" (("id", game_id) ∷ []) url header) answer) (entry_url_lem id h),
    ap (λ url. send (request "DELETE" (("id", game_id) ∷ []) url header) answer)
        (entry_url_lem id h),
    ap (λ url. send (request "DELETE" [] url header) deleted) (collection_url_lem id h),
  )

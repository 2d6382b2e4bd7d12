-- ===== src/Tests/Remote.antt =====
-- Test data and tests of Remote.
use drop_app.Prelude.{
  String, ℕ, ◌≡◌, refl, true, false, ◌∷◌, [], Option, none, some, get, insert, string_key, arith,
}
use drop_app.Prelude.Texts.{join_path, ends_with, concat}
use drop_app.Prelude.Outcomes.{Outcome, ok, err}
use drop_app.Database.Models.{DatabaseAuth}
use drop_app.Remote.Cache.{
  Codec, Files, written, write_to, write_sync, read_sync, cache_object_db, get_cached_object_db,
}
use drop_app.Remote.ObjectCache.{ObjectCache, Response, ok_response}
use drop_app.Remote.FetchObject.{
  Moment, received, send_failed, fetch_object, fetch_object_twice, must_cache,
}
use drop_app.Remote.Auth.{User, setup, fetch_user, generate_authorization_header, signed_in, reply}

abbrev pub key_hash : String → String
key_hash key = key

abbrev pub as_is : {D : Type 0} → Codec D D
as_is = record { encode = λ d. d; decode = λ d. ok d }

-- The headers of this host are texts.
abbrev to_text : String → Outcome String String
to_text h = ok h

abbrev pub auth_one : DatabaseAuth
auth_one = record { private_key = "k"; cert = "c"; client_id = "i"; web_token = none }

abbrev pub sign : String → String → Option String
sign key nonce = some nonce

abbrev pub user_one : User
user_one = record {
  id = "u";
  username = "ann";
  admin = false;
  display_name = "Ann";
  profile_picture_object_id = "p";
}

abbrev user_files : Files User
user_files = ("/cache/user", user_one) ∷ []

is_signed_in :
    setup sign key_hash as_is
      (some auth_one)
      "1"
      (reply 200 (err "") (ok user_one))
      written
      "/cache"
      []
    ≡ some (signed_in, some user_one, user_files)
unfolding setup fetch_user generate_authorization_header cache_object_db write_sync write_to insert
    join_path ends_with concat
is_signed_in = refl

abbrev at_time : ℕ → Moment ObjectCache
at_time t = record { nonce = "1"; looked = t; checked = t; stored = t; writing = written }

has_header : generate_authorization_header sign (some auth_one) "1" ≡ ok "Nonce i 1 1"
unfolding generate_authorization_header concat
has_header = refl

not_cached :
    must_cache (get_cached_object_db key_hash (as_is {D = ObjectCache}) "o" "/cache" []) 100 ≡ true
unfolding get_cached_object_db read_sync get
not_cached = refl

fetch_object_twice_example :
    let resp : Response String = ok_response "image/png" (1 ∷ []) in
    let fetch = fetch_object to_text (λ h. ok h) sign key_hash (as_is {D = ObjectCache}) "/cache" in
    (after : Files ObjectCache) × (fetch "/o"
        (some auth_one)
        (received (some "image/png") (some (1 ∷ [])))
        (at_time 100)
        []
      ≡ (ok resp, after))
    × (fetch "/o" none (send_failed "offline") (at_time 5000) after ≡ (ok resp, after))
fetch_object_twice_example =
    fetch_object_twice to_text (λ h. ok h) sign key_hash as_is "/cache" (λ o. refl) "/o" "o"
      "Nonce i 1 1" "image/png" (some auth_one) none "image/png" (1 ∷ []) (send_failed "offline")
      (at_time 100) (at_time 5000) [] refl has_header refl refl not_cached (omega arith) refl
      (omega arith) (omega arith)

-- ===== src/Tests/Session.antt =====
-- Test data and tests of Commands/Session, Commands/Handshake, Commands/Startup and
-- Commands/Settings.
use drop_app.Prelude.{◌≡◌, refl, ◌∷◌, [], ◌++◌, none, some, string_key}
use drop_app.Prelude.Texts.{split, split_from}
use drop_app.Prelude.Outcomes.{ok, err}
use drop_app.Remote.Cache.{written}
use drop_app.Remote.Auth.{User, HandshakeResponse, auth_of, reply, signed_in, signed_out}
use drop_app.Commands.Session.{
  Session, HandshakeRequestBody, auth_processing, auth_finished, request_body, recieve_handshake,
}
use drop_app.Commands.Handshake.{recieve_handshake_lem}
use drop_app.Tests.Remote.{key_hash, as_is, sign, user_one}

abbrev pub session_one : Session User
session_one = record {
  status = signed_out;
  user = none;
  auth = none;
  base_url = "http://drop";
  files = [];
  events = [];
}

abbrev body_one : HandshakeRequestBody
body_one = record { client_id = "i"; token = "t" }

is_body : request_body (split "/" "handshake/i/t") ≡ some body_one
unfolding split split_from
is_body = refl

abbrev pub response_one : HandshakeResponse
response_one = record { private_key = "k"; certificate = "c"; id = "i" }

recieve_handshake_lem_example :
    (s' : Session User) × (recieve_handshake sign key_hash as_is "/cache"
        (λ url. none)
        "handshake/i/t"
        (reply 200 (err "") (ok response_one))
        "1"
        (ok "w")
        "2"
        (reply 200 (err "") (ok user_one))
        written
        session_one
      ≡ some s')
    × (s'.status ≡ signed_in)
    × (s'.user ≡ some user_one)
    × (s'.auth ≡ some (record (auth_of response_one) { web_token = some "w" }))
    × (s'.events ≡ ([] ++ auth_processing ∷ []) ++ auth_finished ∷ [])
recieve_handshake_lem_example =
    recieve_handshake_lem sign key_hash as_is "/cache" (λ url. none) "handshake/i/t" "1" "w" "2" "1"
      "2" (reply 200 (err "") (ok response_one)) (err "") user_one written session_one body_one
      response_one is_body refl refl refl refl

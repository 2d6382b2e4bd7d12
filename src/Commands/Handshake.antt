-- ===== src/Commands/Handshake.antt =====
-- What a sign-in does to the session.
use drop_app.Prelude.{String, ◌≡◌, refl, [], ◌∷◌, ◌++◌, Option, none, some, arith, string_key}
use drop_app.Prelude.Outcomes.{Outcome, ok}
use drop_app.Prelude.Texts.{split, concat}
use drop_app.Database.Models.{DatabaseAuth}
use drop_app.Remote.Error.{DropServerError}
use drop_app.Remote.Cache.{Files, Writing, Codec, cache_object_db, clear_cached_object_db}
use drop_app.Remote.Auth.{
  User, HandshakeResponse, auth_of, Reply, reply, signed_in, setup, fetch_user,
  generate_authorization_header,
}
use drop_app.Commands.Session.{
  Session, auth_processing, auth_finished, HandshakeRequestBody, read_handshake, request_body,
  recieve_handshake_logic, recieve_handshake, emit_session,
}

module _ {Bytes : Type 0} (sign_nonce : String → String → Option String)
    (key_hash : String → String) (codec : Codec Bytes User) (cache_dir : String) where
  header_lem :
      (auth : DatabaseAuth) (nonce signature : String)
      → sign_nonce auth.private_key nonce ≡ some signature
      → (header : String) × (generate_authorization_header sign_nonce (some auth) nonce ≡ ok header)
  unfolding generate_authorization_header
  header_lem auth nonce signature n =
      (concat ("Nonce " ∷ auth.client_id ∷ " " ∷ nonce ∷ " " ∷ signature ∷ []), rw (n) refl)

  setup_lem :
      (auth : DatabaseAuth) (nonce header : String) (error : Outcome String DropServerError)
      (user : User) (writing : Writing Bytes) (files : Files Bytes)
      → generate_authorization_header sign_nonce (some auth) nonce ≡ ok header
      → setup sign_nonce key_hash codec
          (some auth)
          nonce
          (reply 200 error (ok user))
          writing
          cache_dir
          files
        ≡ some (
          signed_in,
          some user,
          (cache_object_db key_hash codec writing "user" user cache_dir files).1,
        )
  unfolding setup fetch_user
  setup_lem auth nonce header error user writing files n = rw (n) refl

  logic_lem :
      (parse : String → Option String) (path nonce token header : String)
      (answer : Reply HandshakeResponse) (s : Session Bytes) (body : HandshakeRequestBody)
      (r : HandshakeResponse)
      → request_body (split "/" path) ≡ some body
      → parse s.base_url ≡ none
      → read_handshake answer ≡ ok r
      → generate_authorization_header sign_nonce (some (auth_of r)) nonce ≡ ok header
      → recieve_handshake_logic sign_nonce parse path answer nonce (ok token) s
        ≡ some (none, record s { auth = some (record (auth_of r) { web_token = some token }) })
  unfolding recieve_handshake_logic
  logic_lem parse path nonce token header answer s body r b p h n = ground (arith, n)

  -- Let a link name a client and a token, let the base URL parse, the server accept the link with
  -- credentials that sign at both times, the request for a web token be answered, and the one for the
  -- user with status 200 and a user. Then the client is signed in as that user. Its credentials are
  -- those of the first reply, with the text of the second, whatever its status, as the web token; the
  -- interface is told that the sign-in is in progress, and then that it is finished.
  pub recieve_handshake_lem :
      (parse : String → Option String) (path nonce token later signature signature' : String)
      (answer : Reply HandshakeResponse) (error : Outcome String DropServerError) (user : User)
      (writing : Writing Bytes) (s : Session Bytes) (body : HandshakeRequestBody)
      (r : HandshakeResponse)
      → request_body (split "/" path) ≡ some body
      → parse s.base_url ≡ none
      → read_handshake answer ≡ ok r
      → sign_nonce r.private_key nonce ≡ some signature
      → sign_nonce r.private_key later ≡ some signature'
      → (s' : Session Bytes) × (recieve_handshake sign_nonce key_hash codec cache_dir parse path
            answer nonce
            (ok token)
            later
            (reply 200 error (ok user))
            writing
            s
          ≡ some s')
        × (s'.status ≡ signed_in)
        × (s'.user ≡ some user)
        × (s'.auth ≡ some (record (auth_of r) { web_token = some token }))
        × (s'.events ≡ (s.events ++ auth_processing ∷ []) ++ auth_finished ∷ [])
  unfolding recieve_handshake auth_of
  recieve_handshake_lem parse path nonce token later signature signature' answer error user writing
        s body r b p h n n' =
      let (header, given) = header_lem (auth_of r) nonce signature n in
      let signed = record (auth_of r) { web_token = some token } in
      let (header', given') = header_lem signed later signature' n' in
      let cached = (cache_object_db key_hash codec writing "user" user cache_dir s.files).1 in
      let cleared = (clear_cached_object_db key_hash "collections" cache_dir cached).1 in
      let started = emit_session auth_processing s in
      let s' : Session Bytes = record s {
        status = signed_in;
        user = some user;
        auth = some signed;
        files = (clear_cached_object_db key_hash "library" cache_dir cleared).1;
        events = (s.events ++ auth_processing ∷ []) ++ auth_finished ∷ [];
      } in
      (
        s',
        rw
            (
              logic_lem parse path nonce token header answer started body r b p h given,
              setup_lem signed later header' error user writing s.files given',
            )
            refl,
        refl,
        refl,
        refl,
        refl,
      )

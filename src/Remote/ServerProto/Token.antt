-- ===== src/Remote/ServerProto/Token.antt =====
-- Where the web token goes.
use drop_app.Prelude.{
  String, ◌≡◌, refl, ap, ◌∙◌, true, false, List, [], ◌∷◌, Option, none, some, arith, Bool-cases,
  inl, inr,
}
use drop_app.Prelude.Panics.{◌>>=◌, >>=-eq-some}
use drop_app.Database.Models.{DatabaseAuth, Settings}
use drop_app.Remote.Auth.{AppStatus}
use drop_app.Remote.ServerProto.{
  Parts, UriLibrary, Headers, values_of, Request, Sent, Answer, Effect, send, whitelist_prefix,
  is_whitelisted, web_token_of, bearer, forward, with_token, server_uri, handle_server_proto,
  is_offline, serve,
}

abbrev pub or_default : List String → List String → List String
or_default [] default = default
or_default (v ∷ vs) default = v ∷ vs

module _ {Uri PathAndQuery : Type 0} (library : UriLibrary Uri PathAndQuery)
    (set_headers : Headers → Headers → Headers) where
  forward-send :
      (uri : Option Uri) (web_token : String) (request : Request Uri) (answer : Answer) (s : Sent)
      (rest : List Effect)
      → (forward library set_headers uri web_token request answer).1 ≡ send s ∷ rest
      → (u : Uri) × (uri ≡ some u)
        × (is_whitelisted whitelist_prefix (library.path request.uri) ≡ true)
        × (s ≡ record {
          method = request.method;
          url = library.to_text u;
          headers = set_headers (bearer web_token ∷ []) request.headers;
        })
        × (rest ≡ [])
  forward-send none web_token request answer s rest h = cc
  forward-send (some u) web_token request answer s rest h =
      elim (Bool-cases (is_whitelisted whitelist_prefix (library.path request.uri))) [
        | inl listed ↦ (u, refl, listed, ground arith, ground arith)
        | inr other ↦ ground arith
      ]

  with_token-send :
      (token : Option String) (base_url : String) (request : Request Uri) (answer : Answer)
      (s : Sent) (rest : List Effect)
      → (with_token library set_headers token base_url request answer).1 ≡ send s ∷ rest
      → (t : String) × (token ≡ some t)
        × ((forward library set_headers
              (library.parse base_url >>= λ remote.
                server_uri library set_headers remote request.uri)
              t
              request
              answer).1
            ≡ send s ∷ rest)
  with_token-send none base_url request answer s rest h = cc
  with_token-send (some t) base_url request answer s rest h = (t, refl, h)

  -- Let a URI that is made of parts have the scheme and the authority of these parts, and let headers
  -- that are set on others replace those of the same name. What is sent to a server is sent once,
  -- while the client is not offline, for a path of the whitelist, and to the scheme and authority of
  -- the base URL. It has the headers of the request, and the stored web token if the request has no
  -- authorization of its own, which otherwise takes the token's place.
  pub serve-send :
      (faithful : (parts : Parts PathAndQuery) (uri : Uri)
        → library.from_parts parts ≡ some uri
        → ((library.into_parts uri).scheme ≡ parts.scheme)
          × ((library.into_parts uri).authority ≡ parts.authority))
      → (replaces : (name : String) (before after : Headers)
          → values_of name (set_headers before after)
            ≡ or_default (values_of name after) (values_of name before))
      → (settings : Settings) (status : AppStatus) (auth : Option DatabaseAuth) (base_url : String)
        (request : Request Uri) (answer : Answer) (s : Sent) (rest : List Effect)
      → (serve library set_headers settings status auth base_url request answer).1 ≡ send s ∷ rest
      → (is_offline settings status ≡ false)
        × (rest ≡ [])
        × (is_whitelisted whitelist_prefix (library.path request.uri) ≡ true)
        × ((token : String) × (web_token_of auth ≡ some token)
            × ((name : String)
                → values_of name s.headers
                  ≡ or_default
                      (values_of name request.headers)
                      (values_of name (bearer token ∷ []))))
        × ((remote uri : Uri) × (library.parse base_url ≡ some remote)
            × (s.url ≡ library.to_text uri)
            × ((library.into_parts uri).scheme ≡ (library.into_parts remote).scheme)
            × ((library.into_parts uri).authority ≡ (library.into_parts remote).authority))
  unfolding serve handle_server_proto server_uri
  serve-send faithful replaces settings status auth base_url request answer s rest h =
      elim (Bool-cases (is_offline settings status)) [
        | inl off ↦ ground arith
        | inr on ↦
            let (token, known, sent) =
              with_token-send (web_token_of auth) base_url request answer s rest (rw on at h) in
            let (uri, made, listed, is, alone) = forward-send _ token request answer s rest sent in
            let (remote, parsed, moved) = >>=-eq-some (library.parse base_url) _ made in
            let (path_and_query, read, built) =
              >>=-eq-some (library.path_and_query_from_str _) _ moved in
            let (scheme, authority) = faithful _ uri built in
            (
              on,
              alone,
              listed,
              (
                token,
                known,
                λ name.
                    ap (λ x. values_of name x.headers) is
                    ∙ replaces name (bearer token ∷ []) request.headers,
              ),
              (remote, uri, parsed, ap (λ x. x.url) is, scheme, authority),
            )
      ]

-- ===== src/Remote/ObjectCache.antt =====
-- The cached responses of src-tauri/remote/src/cache.rs. The conversions between a header's value and a
-- text are a library's and arguments.
use Prim.Native.String.{String}
use drop_app.Prelude.{Bool, ℕ, ◌*◌, ltb, List, Option, none, some, string_key}
use drop_app.Prelude.Outcomes.{Outcome, ok, err, panic}
use drop_app.Remote.Error.{CacheError, header_not_found, parse_error, construction_error}
use drop_app.Remote.Cache.{expiry_after}

pub record ObjectCache : Type 0 where
  pub content_type : String
  pub body : List ℕ
  pub expiry : ℕ

-- `expiry < current`, at the time of the check.
unfoldable pub has_expired : ObjectCache → ℕ → Bool
has_expired object now = ltb object.expiry now

-- Of a response, its status, its Content-Type and its body.
pub record Response (HeaderValue : Type 0) : Type 0 where
  pub status : ℕ
  pub content_type : Option HeaderValue
  pub body : List ℕ

module _ {HeaderValue : Type 0} where
  -- `Response::builder` sets the status 200.
  abbrev pub ok_response : HeaderValue → List ℕ → Response HeaderValue
  ok_response h bytes = record { status = 200; content_type = some h; body = bytes }

module _ {HeaderValue : Type 0} (to_str : HeaderValue → Outcome String String) where
  unfoldable pub cache_of_response : Response HeaderValue → ℕ → Outcome CacheError ObjectCache
  cache_of_response value now = elim value.content_type [
    | none ↦ err (header_not_found "content-type")
    | some h ↦ elim (to_str h) [
      | ok text ↦ ok (record {
        content_type = text;
        body = value.body;
        expiry = expiry_after now (60 * 60 * 24);
      })
      | err e ↦ err (parse_error e)
      | panic ↦ panic
    ]
  ]

module _ {HeaderValue : Type 0} (from_str : String → Outcome String HeaderValue) where
  unfoldable pub response_of_cache : ObjectCache → Outcome CacheError (Response HeaderValue)
  response_of_cache value = elim (from_str value.content_type) [
    | ok h ↦ ok (ok_response h value.body)
    | err e ↦ err (construction_error e)
    | panic ↦ panic
  ]

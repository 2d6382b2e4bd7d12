-- ===== src/Remote/Certificates.antt =====
-- src-tauri/remote/src/utils.rs: the certificates of the user, and the three clients that trust them.
-- The library of HTTP clients is a parameter: how it reads a bundle, and what it builds.
pub mod Trust
use drop_app.Prelude.{ℕ, Bool, true, false, Option, none, some, List, [], ◌∷◌, ◌++◌}
use drop_app.Prelude.Panics.{◌>>=◌}

-- An entry of the directory: one that cannot be listed, a file that cannot be opened, one that is
-- opened and cannot be read to its end, or its bytes.
pub data DirEntry : Type 0 where
  unlisted unopened unread : DirEntry
  bytes : List ℕ → DirEntry

pub record ClientBuilder {ℓ} (Certificate : Type ℓ) : Type ℓ where
  pub roots : List Certificate
  pub rustls : Bool
  pub http1_only : Bool

abbrev pub new_builder {ℓ} : {Certificate : Type ℓ} → ClientBuilder Certificate
new_builder = record { roots = []; rustls = false; http1_only = false }

module _ {ℓ} {Certificate : Type ℓ} where
  abbrev pub bundle_or_none : Option (List Certificate) → List Certificate
  bundle_or_none none = []
  bundle_or_none (some cs) = cs

  module _ (from_pem_bundle : List ℕ → Option (List Certificate)) where
    -- The loop over the directory, with the certificates so far.
    unfoldable pub read_certificates : List Certificate → List DirEntry → Option (List Certificate)
    read_certificates certs [] = some certs
    read_certificates certs (unlisted ∷ es) = none
    read_certificates certs (unopened ∷ es) = read_certificates certs es
    read_certificates certs (unread ∷ es) = none
    read_certificates certs (bytes buf ∷ es) =
        read_certificates (certs ++ bundle_or_none (from_pem_bundle buf)) es

    -- `none`: the directory cannot be read.
    unfoldable pub fetch_certificates : Option (List DirEntry) → Option (List Certificate)
    fetch_certificates none = some []
    fetch_certificates (some entries) = read_certificates [] entries

  unfoldable pub add_roots :
      List Certificate → ClientBuilder Certificate → ClientBuilder Certificate
  add_roots [] client = client
  add_roots (cert ∷ certs) client =
      add_roots certs (record client { roots = client.roots ++ cert ∷ [] })

  -- `get_client_sync` and `get_client_async` differ in the client that the library builds.
  module _ {κ} {Client : Type κ} (build : ClientBuilder Certificate → Option Client) where
    abbrev pub get_client : List Certificate → Option Client
    get_client certs = build (record (add_roots certs new_builder) { rustls = true })

    abbrev pub get_client_ws : List Certificate → Option Client
    get_client_ws certs =
        build (record (add_roots certs new_builder) { rustls = true; http1_only = true })

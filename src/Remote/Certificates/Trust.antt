-- ===== src/Remote/Certificates/Trust.antt =====
-- src-tauri/remote/src/utils.rs: whom the clients trust.
use mathlib.Core.List.{append_assoc, append-nil}
use drop_app.Prelude.{
  ℕ, ◌≡◌, refl, ◌∙◌, sym, ap, Bool, true, false, Option, none, some, List, [], ◌∷◌, ◌++◌,
  if◌then◌else◌,
}
use drop_app.Prelude.Panics.{◌>>=◌}
use drop_app.Remote.Certificates.{
  DirEntry, unlisted, unopened, unread, bytes, ClientBuilder, new_builder, bundle_or_none,
  read_certificates, fetch_certificates, add_roots, get_client,
}

-- Every entry is listed, and what is opened can be read.
abbrev pub readable : List DirEntry → Bool
readable [] = true
readable (unlisted ∷ es) = false
readable (unopened ∷ es) = readable es
readable (unread ∷ es) = false
readable (bytes buf ∷ es) = readable es

module _ {ℓ} {Certificate : Type ℓ} (from_pem_bundle : List ℕ → Option (List Certificate)) where
  -- What the files hold, one after the other.
  abbrev pub bundles : List DirEntry → List Certificate
  bundles [] = []
  bundles (unlisted ∷ es) = bundles es
  bundles (unopened ∷ es) = bundles es
  bundles (unread ∷ es) = bundles es
  bundles (bytes buf ∷ es) = bundle_or_none (from_pem_bundle buf) ++ bundles es

  read_certificates_lem :
      (certs : List Certificate) (es : List DirEntry)
      → read_certificates from_pem_bundle certs es
        ≡ (if readable es then some (certs ++ bundles es) else none)
  unfolding read_certificates
  read_certificates_lem certs [] = ap some (sym (append-nil certs))
  read_certificates_lem certs (unlisted ∷ es) = refl
  read_certificates_lem certs (unopened ∷ es) = read_certificates_lem certs es
  read_certificates_lem certs (unread ∷ es) = refl
  read_certificates_lem certs (bytes buf ∷ es) =
      read_certificates_lem (certs ++ bundle_or_none (from_pem_bundle buf)) es
      ∙ ap (λ cs. if readable es then some cs else none)
          (append_assoc certs (bundle_or_none (from_pem_bundle buf)) (bundles es))

add_roots_lem {ℓ} :
    {Certificate : Type ℓ} (certs : List Certificate) (client : ClientBuilder Certificate)
    → add_roots certs client ≡ record client { roots = client.roots ++ certs }
unfolding add_roots
add_roots_lem [] client = ap (λ r. record client { roots = r }) (sym (append-nil client.roots))
add_roots_lem (cert ∷ certs) client =
    add_roots_lem certs (record client { roots = client.roots ++ cert ∷ [] })
    ∙ ap (λ r. record client { roots = r }) (append_assoc client.roots (cert ∷ []) certs)

abbrev pub trusting {ℓ} : {Certificate : Type ℓ} → List Certificate → ClientBuilder Certificate
trusting certs = record { roots = certs; rustls = true; http1_only = false }

get_client_lem {ℓ κ} :
    {Certificate : Type ℓ} {Client : Type κ} (build : ClientBuilder Certificate → Option Client)
    (certs : List Certificate)
    → get_client build certs ≡ build (trusting certs)
get_client_lem build certs =
    ap (λ client. build (record client { rustls = true })) (add_roots_lem certs new_builder)

built {ℓ κ} :
    {Certificate : Type ℓ} {Client : Type κ} (build : ClientBuilder Certificate → Option Client)
    (certs : List Certificate) (b : Bool)
    → ((if b then some certs else none) >>= get_client build)
      ≡ (if b then build (trusting certs) else none)
built build certs true = get_client_lem build certs
built build certs false = refl

-- A client trusts the certificates of all files that hold a bundle, in the order of the directory, on
-- top of those that it brings along, and files that cannot be opened or are not bundles are passed
-- over. But an entry that cannot be listed, or is opened and cannot be read, like a directory, ends it
-- with a panic.
pub get_client-fetch_certificates {ℓ κ} :
    {Certificate : Type ℓ} {Client : Type κ} (from_pem_bundle : List ℕ → Option (List Certificate))
    (build : ClientBuilder Certificate → Option Client) (es : List DirEntry)
    → (fetch_certificates from_pem_bundle (some es) >>= get_client build)
      ≡ (if readable es then build (trusting (bundles from_pem_bundle es)) else none)
unfolding fetch_certificates
get_client-fetch_certificates from_pem_bundle build es =
    ap (λ o. o >>= get_client build) (read_certificates_lem from_pem_bundle [] es)
    ∙ built build (bundles from_pem_bundle es) (readable es)

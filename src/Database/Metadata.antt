-- ===== src/Database/Metadata.antt =====
-- src-tauri/database/src/models.rs and platform.rs: the key of a download, whose equality and hash
-- read the id and the type and pass over the version.
use drop_app.Prelude.{◌≡◌, Bool, true, false, ◌&&◌, String, Option, Key, string_key, same, arith}

pub data Platform : Type 0 where
  windows linux mac_os : Platform

unfoldable pub platform_eq : Platform → Platform → Bool
platform_eq windows windows = true
platform_eq linux linux = true
platform_eq mac_os mac_os = true
platform_eq _ _ = false

unfoldable pub is_case_sensitive : Platform → Bool
is_case_sensitive windows = false
is_case_sensitive mac_os = false
is_case_sensitive linux = true

pub data DownloadType : Type 0 where
  game tool dlc game_mod : DownloadType

unfoldable pub download_type_eq : DownloadType → DownloadType → Bool
download_type_eq game game = true
download_type_eq tool tool = true
download_type_eq dlc dlc = true
download_type_eq game_mod game_mod = true
download_type_eq _ _ = false

pub record DownloadableMetadata : Type 0 where
  pub id : String
  pub version : Option String
  pub download_type : DownloadType

unfoldable pub metadata_eq : DownloadableMetadata → DownloadableMetadata → Bool
metadata_eq a b = same a.id b.id && download_type_eq a.download_type b.download_type

download_type_eq_refl : (a : DownloadType) → download_type_eq a a ≡ true
unfolding download_type_eq
download_type_eq_refl a = ground arith

download_type_eq_comm : (a b : DownloadType) → download_type_eq a b ≡ download_type_eq b a
unfolding download_type_eq
download_type_eq_comm a b = ground arith

download_type_eq→eq : (a b : DownloadType) → download_type_eq a b ≡ true → a ≡ b
unfolding download_type_eq
download_type_eq→eq a b h = ground arith

pub metadata_eq_refl : (a : DownloadableMetadata) → metadata_eq a a ≡ true
unfolding metadata_eq
metadata_eq_refl a = ground (arith, string_key.eq-refl a.id, download_type_eq_refl a.download_type)

pub metadata_eq_comm : (a b : DownloadableMetadata) → metadata_eq a b ≡ metadata_eq b a
unfolding metadata_eq
metadata_eq_comm a b =
    ground
      (arith, string_key.eq-comm a.id b.id, download_type_eq_comm a.download_type b.download_type)

pub metadata_eq-congr :
    (a b c : DownloadableMetadata) → metadata_eq a b ≡ true → metadata_eq a c ≡ metadata_eq b c
unfolding metadata_eq
metadata_eq-congr a b c h =
    ground (
      arith,
      string_key.eq-congr a.id b.id c.id,
      download_type_eq→eq a.download_type b.download_type,
    )

-- The equality of keys is an equivalence, so hash maps keyed by it behave.
instance abbrev pub metadata_key : Key DownloadableMetadata
metadata_key = record {
  eq = metadata_eq;
  eq-refl = metadata_eq_refl;
  eq-comm = metadata_eq_comm;
  eq-congr = metadata_eq-congr;
}

-- Two keys with the same id and type are the same key, whatever their versions.
pub metadata_eq_any_version :
    (i : String) (v w : Option String) (t : DownloadType)
    → metadata_eq
        (record { id = i; version = v; download_type = t })
        (record { id = i; version = w; download_type = t })
      ≡ true
unfolding metadata_eq
metadata_eq_any_version i v w t = ground (arith, string_key.eq-refl i, download_type_eq_refl t)

-- Different ids are different keys.
pub metadata_eq_id : (a b : DownloadableMetadata) → metadata_eq a b ≡ true → same a.id b.id ≡ true
unfolding metadata_eq
metadata_eq_id a b h = ground arith

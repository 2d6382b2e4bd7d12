-- ===== src/Downloads/Manifest.antt =====
-- src-tauri/games/src/downloads/manifest.rs: what the server says a game consists of, and the pieces
-- that the client asks for.
use drop_app.Prelude.{ℕ, String, List, Map, map}

pub record DropChunk : Type 0 where
  pub permissions : ℕ
  pub ids : List String
  pub checksums : List String
  pub lengths : List ℕ
  pub version_name : String

abbrev pub DropManifest : Type 0
DropManifest = Map String DropChunk

pub record DownloadDrop : Type 0 where
  pub index : ℕ
  pub filename : String
  pub path : String
  pub start : ℕ
  pub size : ℕ
  pub checksum : String
  pub permissions : ℕ

pub record DownloadBucket : Type 0 where
  pub game_id : String
  pub version : String
  pub drops : List DownloadDrop

pub record DownloadContext : Type 0 where
  pub context : String

pub record ChunkBodyFile : Type 0 where
  pub filename : String
  pub chunk_index : ℕ

pub record ChunkBody : Type 0 where
  pub context : String
  pub files : List ChunkBodyFile

unfoldable pub create : DownloadContext → List DownloadDrop → ChunkBody
create ctx drops = record {
  context = ctx.context;
  files = map (λ d. record { filename = d.filename; chunk_index = d.index }) drops;
}

pub record DropValidateContext : Type 0 where
  pub index : ℕ
  pub offset : ℕ
  pub path : String
  pub checksum : String
  pub size : ℕ

abbrev pub to_context : DownloadDrop → DropValidateContext
to_context d = record {
  index = d.index;
  offset = d.start;
  path = d.path;
  checksum = d.checksum;
  size = d.size;
}

unfoldable pub validate_contexts : DownloadBucket → List DropValidateContext
validate_contexts bucket = map to_context bucket.drops

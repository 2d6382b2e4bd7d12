-- ===== src/Downloads/Buckets.antt =====
-- `generate_buckets` of src-tauri/games/src/downloads/download_agent.rs: the chunks of a manifest are
-- gathered into buckets, one open bucket for each version at a time.
pub mod Reference
pub mod Conserve
pub mod Bounds
pub mod Layout
use drop_app.Prelude.{
  ℕ, zero, suc, ◌+◌, ◌*◌, ◌-◌, ◌/◌, Bool, true, false, not, ◌&&◌, ◌||◌, String, Option, none, some,
  List, [], ◌∷◌, ◌++◌, Map, get, insert, string_key, leb, if◌then◌else◌, length, get_elem?,
}
use drop_app.Prelude.Usize.{add_usize}
use drop_app.Prelude.Outcomes.{Outcome, ok, err, panic, ◌>>=◌, unwrap}
use drop_app.Downloads.Manifest.{DropChunk, DropManifest, DownloadDrop, DownloadBucket}

abbrev pub target_bucket_size : ℕ
target_bucket_size = 63 * 1000 * 1000

abbrev pub max_files_per_bucket : ℕ
max_files_per_bucket = 1024 / 4 - 1

-- The three variables that the loop fills.
pub record Plan : Type 0 where
  pub buckets : List DownloadBucket
  pub current_buckets : Map String DownloadBucket
  pub current_bucket_sizes : Map String ℕ

abbrev pub empty_plan : Plan
empty_plan = record { buckets = []; current_buckets = []; current_bucket_sizes = [] }

abbrev pub is_empty {ℓ} : {A : Type ℓ} → List A → Bool
is_empty [] = true
is_empty (x ∷ xs) = false

-- `entry(version).or_insert_with(...)`, read
abbrev pub open_bucket : String → String → Option DownloadBucket → DownloadBucket
open_bucket game_id version none = record { game_id = game_id; version = version; drops = [] }
open_bucket game_id version (some b) = b

abbrev pub open_size : Option ℕ → ℕ
open_size none = 0
open_size (some n) = n

-- The open bucket is full: it is moved into the list before the drop is added.
unfoldable pub is_full : DownloadBucket → ℕ → ℕ → Bool
is_full bucket size extra =
    (leb target_bucket_size (add_usize size extra)
      || leb max_files_per_bucket (length bucket.drops))
    && not (is_empty bucket.drops)

abbrev pub store : String → DownloadBucket → ℕ → Plan → Plan
store version bucket size p = record p {
  current_buckets = insert version bucket p.current_buckets;
  current_bucket_sizes = insert version size p.current_bucket_sizes;
}

abbrev pub close : DownloadBucket → Plan → Plan
close bucket p = record p { buckets = p.buckets ++ bucket ∷ [] }

abbrev pub single : String → String → DownloadDrop → DownloadBucket
single game_id version d = record { game_id = game_id; version = version; drops = d ∷ [] }

abbrev pub extend : DownloadBucket → DownloadDrop → DownloadBucket
extend bucket d = record bucket { drops = bucket.drops ++ d ∷ [] }

-- A drop that is smaller than the target joins the open bucket of its version, or a new one.
unfoldable pub add_small : String → String → DownloadDrop → DownloadBucket → ℕ → Plan → Plan
add_small game_id version d bucket size p =
    if is_full bucket size d.size
    then store version (single game_id version d) (add_usize 0 d.size) (close bucket p)
    else store version (extend bucket d) (add_usize size d.size) p

-- One turn of the inner loop, the drop made.
unfoldable pub add_drop : String → String → DownloadDrop → Plan → Plan
add_drop game_id version d p =
    if leb target_bucket_size d.size
    then close (single game_id version d) p
    else add_small game_id version d (open_bucket game_id version (get version p.current_buckets))
        (open_size (get version p.current_bucket_sizes)) p

abbrev pub make_drop : String → String → DropChunk → ℕ → ℕ → ℕ → String → DownloadDrop
make_drop raw_path path chunk index start size checksum = record {
  index = index;
  filename = raw_path;
  path = path;
  start = start;
  size = size;
  checksum = checksum;
  permissions = chunk.permissions;
}

-- The inner loop, over the chunks of one file. A chunk with no checksum is an index out of range.
unfoldable pub add_chunks :
    {E : Type 0} → String → String → String → DropChunk → List ℕ → ℕ → ℕ → Plan → Outcome E Plan
add_chunks game_id raw_path path chunk [] index offset p = ok p
add_chunks game_id raw_path path chunk (size ∷ sizes) index offset p = do
  checksum ← unwrap (get_elem? chunk.checksums index)
  let d = make_drop raw_path path chunk index offset size checksum
  add_chunks game_id raw_path path chunk sizes (suc index) (add_usize offset size)
      (add_drop game_id chunk.version_name d p)

-- The outer loop, over the files. `locate` is the file's place below the base directory, once its
-- directories are made and it is open, or the error of that.
unfoldable pub add_files :
    {E : Type 0} → String → (String → Outcome E String) → DropManifest → Plan → Outcome E Plan
add_files game_id locate [] p = ok p
add_files game_id locate ((raw_path, chunk) ∷ manifest) p = do
  path ← locate raw_path
  p' ← add_chunks game_id raw_path path chunk chunk.lengths 0 0 p
  add_files game_id locate manifest p'

-- The open buckets that hold something.
unfoldable pub open_buckets : Map String DownloadBucket → List DownloadBucket
open_buckets [] = []
open_buckets ((version, bucket) ∷ m) =
    if is_empty bucket.drops then open_buckets m else bucket ∷ open_buckets m

unfoldable pub finish : Plan → List DownloadBucket
finish p = p.buckets ++ open_buckets p.current_buckets

unfoldable pub plan_buckets :
    {E : Type 0}
    → String
    → (String → Outcome E String)
    → DropManifest
    → Outcome E (List DownloadBucket)
plan_buckets game_id locate manifest = do
  p ← add_files game_id locate manifest empty_plan
  ok (finish p)

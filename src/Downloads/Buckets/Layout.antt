-- ===== src/Downloads/Buckets/Layout.antt =====
-- Where the chunks of a file lie in it.
use drop_app.Prelude.{
  ℕ, suc, ◌+◌, ◌≤◌, ◌<◌, ◌≡◌, String, some, List, [], ◌∷◌, arith, get_elem?, length, sum_by,
}
use drop_app.Prelude.Usize.{add_usize_exact, usize_mod}
use drop_app.Prelude.Outcomes.{Outcome, ok}
use drop_app.Downloads.Manifest.{DropChunk, DropManifest, DownloadDrop}
use drop_app.Downloads.Buckets.{Plan, empty_plan, add_chunks, finish, plan_buckets}
use drop_app.Downloads.Buckets.Reference.{
  tag, add_all, file_drops, add_chunks_total, get_elem?-lt, IsPlannable, add_files_total,
  manifest_drops,
}

-- The drops of a file stand for its chunks in order: each has the length and the checksum of its
-- chunk and its index, and begins where the one before it ends.
abbrev pub LaidOut : DropChunk → List ℕ → ℕ → ℕ → List DownloadDrop → Type 0
LaidOut chunk [] index offset [] = Unit
LaidOut chunk [] index offset (d ∷ ds) = ⊥
LaidOut chunk (size ∷ sizes) index offset [] = ⊥
LaidOut chunk (size ∷ sizes) index offset (d ∷ ds) =
    (d.size ≡ size)
    × (d.start ≡ offset)
    × (d.index ≡ index)
    × (get_elem? chunk.checksums index ≡ some d.checksum)
    × LaidOut chunk sizes (suc index) (offset + size) ds

abbrev pub total : List ℕ → ℕ
total = sum_by (λ n. n)

file_drops-LaidOut :
    (raw_path path : String) (chunk : DropChunk) (sizes : List ℕ) (index offset : ℕ)
    → index + length sizes ≤ length chunk.checksums
    → offset + total sizes < usize_mod
    → LaidOut chunk sizes index offset (file_drops raw_path path chunk sizes index offset)
unfolding file_drops
file_drops-LaidOut raw_path path chunk [] index offset h b = tt
file_drops-LaidOut raw_path path chunk (size ∷ sizes) index offset h b =
    let (c, found) = get_elem?-lt chunk.checksums index (omega arith) in
    let rest =
      file_drops-LaidOut raw_path path chunk sizes (suc index) (offset + size) (omega arith)
        (omega arith) in
    ground (arith, found, add_usize_exact offset size, rest)

-- With a checksum for every chunk, and a file whose size fits a machine word, the inner loop returns;
-- what it adds to the plan are the chunks of the file in order, end to end from the file's start.
pub add_chunks-LaidOut :
    {E : Type 0} (game_id raw_path path : String) (chunk : DropChunk) (p : Plan)
    → length chunk.lengths ≤ length chunk.checksums
    → total chunk.lengths < usize_mod
    → (ds : List DownloadDrop) × (add_chunks {E = E} game_id raw_path path chunk chunk.lengths 0 0 p
        ≡ ok (add_all game_id (tag chunk.version_name ds) p))
      × LaidOut chunk chunk.lengths 0 0 ds
add_chunks-LaidOut game_id raw_path path chunk p h b = (
  file_drops raw_path path chunk chunk.lengths 0 0,
  add_chunks_total game_id raw_path path chunk chunk.lengths 0 0 p (omega arith),
  file_drops-LaidOut raw_path path chunk chunk.lengths 0 0 (omega arith) (omega arith),
)

-- Planning returns when every file can be placed and has a checksum for each of its chunks.
pub plan_buckets_total :
    {E : Type 0} (game_id : String) (locate : String → Outcome E String) (m : DropManifest)
    → IsPlannable locate m
    → plan_buckets game_id locate m
      ≡ ok (finish (add_all game_id (manifest_drops locate m) empty_plan))
unfolding plan_buckets
plan_buckets_total game_id locate m h = rw (add_files_total game_id locate m empty_plan h)

-- ===== src/Downloads/Buckets/Reference.antt =====
-- The loops of `generate_buckets` against a plain list: planning a manifest is adding its drops, one
-- after the other.
use drop_app.Prelude.{
  ℕ, zero, suc, ◌+◌, ◌≤◌, ◌<◌, ◌≡◌, refl, String, none, some, List, [], ◌∷◌, ◌++◌, arith, get_elem?,
  length, Option-cases, inl, inr,
}
use drop_app.Prelude.Usize.{add_usize}
use drop_app.Prelude.Outcomes.{Outcome, ok, err, panic, >>=-eq-ok}
use drop_app.Downloads.Manifest.{DropChunk, DropManifest, DownloadDrop}
use drop_app.Downloads.Buckets.{Plan, add_drop, make_drop, add_chunks, add_files}

-- The drops of one file: one for each length, in order, as far as there are checksums.
unfoldable pub file_drops : String → String → DropChunk → List ℕ → ℕ → ℕ → List DownloadDrop
file_drops raw_path path chunk [] index offset = []
file_drops raw_path path chunk (size ∷ sizes) index offset =
    let rest = file_drops raw_path path chunk sizes (suc index) (add_usize offset size) in
    elim (get_elem? chunk.checksums index) [
      | none ↦ []
      | some checksum ↦ make_drop raw_path path chunk index offset size checksum ∷ rest
    ]

-- A drop with the version whose bucket it goes to.
abbrev pub Tagged : Type 0
Tagged = String × DownloadDrop

abbrev pub tag : String → List DownloadDrop → List Tagged
tag version [] = []
tag version (d ∷ ds) = (version, d) ∷ tag version ds

unfoldable pub manifest_drops :
    {E : Type 0} → (String → Outcome E String) → DropManifest → List Tagged
manifest_drops locate [] = []
manifest_drops locate ((raw_path, chunk) ∷ m) =
    let rest = manifest_drops locate m in
    elim (locate raw_path) [
      | ok path ↦ tag chunk.version_name (file_drops raw_path path chunk chunk.lengths 0 0) ++ rest
      | err e ↦ []
      | panic ↦ []
    ]

unfoldable pub add_all : String → List Tagged → Plan → Plan
add_all game_id [] p = p
add_all game_id ((version, d) ∷ ds) p = add_all game_id ds (add_drop game_id version d p)

pub add_all-append :
    (game_id : String) (ds es : List Tagged) (p : Plan)
    → add_all game_id (ds ++ es) p ≡ add_all game_id es (add_all game_id ds p)
unfolding add_all
add_all-append game_id [] es p = refl
add_all-append game_id ((v, d) ∷ ds) es p = add_all-append game_id ds es (add_drop game_id v d p)

pub add_chunks_ref :
    {E : Type 0} (game_id raw_path path : String) (chunk : DropChunk) (sizes : List ℕ)
    (index offset : ℕ) (p p' : Plan)
    → add_chunks {E = E} game_id raw_path path chunk sizes index offset p ≡ ok p'
    → p'
      ≡ add_all game_id
          (tag chunk.version_name (file_drops raw_path path chunk sizes index offset))
          p
unfolding add_chunks file_drops add_all
add_chunks_ref game_id raw_path path chunk [] index offset p p' e = cc
add_chunks_ref {E} game_id raw_path path chunk (size ∷ sizes) index offset p p' e =
    elim (Option-cases (get_elem? chunk.checksums index)) [
      | inl missing ↦ ground arith
      | inr (c, found) ↦
          let d = make_drop raw_path path chunk index offset size c in
          ground (
            arith,
            add_chunks_ref {E = E} game_id raw_path path chunk sizes (suc index)
                (add_usize offset size) (add_drop game_id chunk.version_name d p) p',
          )
    ]

-- A chunk for every length: then no index is out of range.
abbrev pub HasChecksums : DropChunk → Type 0
HasChecksums chunk = length chunk.lengths ≤ length chunk.checksums

pub get_elem?-lt {ℓ} :
    {A : Type ℓ} (xs : List A) (i : ℕ) → i < length xs → (a : A) × (get_elem? xs i ≡ some a)
get_elem?-lt [] i h = absurd (omega arith)
get_elem?-lt (x ∷ xs) zero h = (x, refl)
get_elem?-lt (x ∷ xs) (suc i) h = get_elem?-lt xs i (omega arith)

pub add_chunks_total :
    {E : Type 0} (game_id raw_path path : String) (chunk : DropChunk) (sizes : List ℕ)
    (index offset : ℕ) (p : Plan)
    → index + length sizes ≤ length chunk.checksums
    → add_chunks {E = E} game_id raw_path path chunk sizes index offset p
      ≡ ok (
          add_all game_id
            (tag chunk.version_name (file_drops raw_path path chunk sizes index offset))
            p)
unfolding add_chunks file_drops add_all
add_chunks_total game_id raw_path path chunk [] index offset p h = refl
add_chunks_total {E} game_id raw_path path chunk (size ∷ sizes) index offset p h =
    let (c, found) = get_elem?-lt chunk.checksums index (omega arith) in
    let d = make_drop raw_path path chunk index offset size c in
    ground (
      arith,
      found,
      add_chunks_total {E = E} game_id raw_path path chunk sizes (suc index) (add_usize offset size)
          (add_drop game_id chunk.version_name d p),
    )

-- Whenever planning returns, it has added the drops of the manifest in order.
pub add_files_ref :
    {E : Type 0} (game_id : String) (locate : String → Outcome E String) (m : DropManifest)
    (p p' : Plan)
    → add_files game_id locate m p ≡ ok p'
    → p' ≡ add_all game_id (manifest_drops locate m) p
unfolding add_files manifest_drops add_all
add_files_ref game_id locate [] p p' e = cc
add_files_ref {E} game_id locate ((raw_path, chunk) ∷ m) p p' e =
    let (path, located, after) = >>=-eq-ok (locate raw_path) _ e in
    let (q, chunks, files) =
      >>=-eq-ok (add_chunks {E = E} game_id raw_path path chunk chunk.lengths 0 0 p) _ after in
    let drops = tag chunk.version_name (file_drops raw_path path chunk chunk.lengths 0 0) in
    ground (
      arith,
      located,
      add_chunks_ref {E = E} game_id raw_path path chunk chunk.lengths 0 0 p q chunks,
      add_files_ref game_id locate m q p' files,
      add_all-append game_id drops (manifest_drops locate m) p,
    )

-- Every file can be placed, and has a checksum for each of its chunks.
abbrev pub IsPlannable : {E : Type 0} → (String → Outcome E String) → DropManifest → Type 0
IsPlannable {E} locate [] = Unit
IsPlannable {E} locate ((raw_path, chunk) ∷ m) =
    ((path : String) × (locate raw_path ≡ ok path)) × HasChecksums chunk × IsPlannable locate m

-- Then planning returns.
pub add_files_total :
    {E : Type 0} (game_id : String) (locate : String → Outcome E String) (m : DropManifest)
    (p : Plan)
    → IsPlannable locate m
    → add_files game_id locate m p ≡ ok (add_all game_id (manifest_drops locate m) p)
unfolding add_files manifest_drops add_all
add_files_total game_id locate [] p h = refl
add_files_total {E} game_id locate ((raw_path, chunk) ∷ m) p h =
    let (path, located) = h.0 in
    let drops = tag chunk.version_name (file_drops raw_path path chunk chunk.lengths 0 0) in
    ground (
      arith,
      located,
      add_chunks_total {E = E} game_id raw_path path chunk chunk.lengths 0 0 p (omega arith),
      add_files_total game_id locate m (add_all game_id drops p) h.2,
      add_all-append game_id drops (manifest_drops locate m) p,
    )

-- ===== src/Downloads/Pipeline/Stored.antt =====
-- src-tauri/games/src/downloads/download_logic.rs and validate.rs: a fetched bucket is read back.
use text.Mathlib.Text.{◌==◌ as str_eq}
use drop_app.Prelude.{
  ℕ, ◌+◌, ◌≤◌, ◌<◌, ◌≡◌, refl, String, Bool, true, not, ◌||◌, Option, some, List, [], ◌∷◌, length,
  take, drop, leb, Map, get, insert, same, string_key, get-congr, get-insert, get-insert_self,
  arith, ◌⊎◌, inl, inr, All, sum_by, Bool-cases, if◌then◌else◌,
}
use drop_app.Prelude.Slices.{length-take_bound, length-take_le, length-take-drop}
use drop_app.Manager.Flag.{DownloadThreadControlFlag, go}
use drop_app.Downloads.Manifest.{DownloadDrop, to_context}
use drop_app.Downloads.Validate.{Turn, answer as judged, validate_game_chunk}
use drop_app.Downloads.Validate.Copy.{Reads}
use drop_app.Downloads.Validate.Chunk.{validate_game_chunk-judged}
use drop_app.Downloads.Pipeline.{Write, download_game_bucket, streamed, answer, copy, copied}
use drop_app.Downloads.Pipeline.Bucket.{download_game_bucket-true}
use drop_app.Downloads.Pipeline.Writes.{slices}
use drop_app.Downloads.Pipeline.Files.{
  write_bytes, opened, write_files, Holds, Holds-write_at, Holds-elsewhere, ReadsBack,
  Holds-ReadsBack,
}

-- Two drops with no byte of a file in common.
abbrev pub apart : DownloadDrop → DownloadDrop → Bool
apart d e =
    not (same d.path e.path) || (leb (d.start + d.size) e.start || leb (e.start + e.size) d.start)

abbrev pub Apart : List DownloadDrop → Type 0
Apart [] = Unit
Apart (d ∷ ds) = All (λ e. apart d e ≡ true) ds × Apart ds

-- A write is in its file, which an empty one always is.
abbrev Lies : ℕ → List ℕ → List ℕ → Type 0
Lies n [] file = Unit
Lies n (b ∷ bytes) file = Holds n (b ∷ bytes) file

abbrev Stored : Map String (List ℕ) → Write → Type 0
Stored files (d, bytes) = (file : List ℕ) × (get d.path files ≡ some file) × Lies d.start bytes file

Lies-written : (n : ℕ) (bytes file : List ℕ) → Lies n bytes (write_bytes n bytes file)
Lies-written n [] file = tt
Lies-written n (b ∷ bytes) file = Holds-write_at n (b ∷ bytes) file

Lies-elsewhere :
    (n : ℕ) (bytes : List ℕ) (m : ℕ) (others file : List ℕ)
    → (n + length bytes ≤ m) ⊎ (m + length others ≤ n)
    → Lies n bytes file
    → Lies n bytes (write_bytes m others file)
Lies-elsewhere n [] m others file h s = tt
Lies-elsewhere n (b ∷ bytes) m [] file h s = s
Lies-elsewhere n (b ∷ bytes) m (o ∷ others) file h s =
    Holds-elsewhere n (b ∷ bytes) m (o ∷ others) file h s

Lies-ReadsBack : (n : ℕ) (bytes file : List ℕ) → Lies n bytes file → ReadsBack n bytes file
Lies-ReadsBack n [] file s = (omega arith, refl)
Lies-ReadsBack n (b ∷ bytes) file s = Holds-ReadsBack n (b ∷ bytes) file s

-- One more write, the way `write_files` does it.
abbrev with_file : Write → Map String (List ℕ) → Map String (List ℕ)
with_file (d, bytes) files =
    insert d.path (write_bytes d.start bytes (opened (get d.path files))) files

apart_ranges :
    (d e : DownloadDrop) (m n : ℕ)
    → m ≤ d.size
    → n ≤ e.size
    → apart d e ≡ true
    → same d.path e.path ≡ true
    → (d.start + m ≤ e.start) ⊎ (e.start + n ≤ d.start)
apart_ranges d e m n h g a s = ground arith

get-with_file :
    (d e : DownloadDrop) (others : List ℕ) (files : Map String (List ℕ)) (file : List ℕ)
    → get d.path files ≡ some file
    → get d.path (with_file (e, others) files)
      ≡ some (if same d.path e.path then write_bytes e.start others file else file)
get-with_file d e others files file found = ground (
  arith,
  found,
  get-insert e.path d.path (write_bytes e.start others (opened (get e.path files))) files,
  get-congr d.path e.path files,
  string_key.eq-comm d.path e.path,
)

Stored-with_file :
    (d e : DownloadDrop) (bytes others : List ℕ) (files : Map String (List ℕ))
    → length bytes ≤ d.size
    → length others ≤ e.size
    → apart d e ≡ true
    → Stored files (d, bytes)
    → Stored (with_file (e, others) files) (d, bytes)
Stored-with_file d e bytes others files h g a (file, found, lies) =
    elim (Bool-cases (same d.path e.path)) [
      | inl shared ↦ (
        write_bytes e.start others file,
        ground (arith, shared, get-with_file d e others files file found),
        Lies-elsewhere d.start bytes e.start others file
            (apart_ranges d e (length bytes) (length others) h g a shared) lies,
      )
      | inr elsewhere ↦
          (file, ground (arith, elsewhere, get-with_file d e others files file found), lies)
    ]

slices-keep :
    (d : DownloadDrop) (bytes : List ℕ) (ds : List DownloadDrop) (source : List ℕ)
    (files : Map String (List ℕ))
    → length bytes ≤ d.size
    → All (λ e. apart d e ≡ true) ds
    → Stored files (d, bytes)
    → Stored (write_files (slices ds source) files) (d, bytes)
unfolding slices write_files
slices-keep d bytes [] source files h a s = s
slices-keep d bytes (e ∷ ds) source files h (a, rest) s =
    slices-keep d bytes ds (drop e.size source) (with_file (e, take e.size source) files) h rest (
      Stored-with_file d e bytes (take e.size source) files h (length-take_bound e.size source) a s)

-- The drops of a bucket that share no bytes all end up in their files.
slices-Stored :
    (ds : List DownloadDrop) (source : List ℕ) (files : Map String (List ℕ))
    → Apart ds
    → All (Stored (write_files (slices ds source) files)) (slices ds source)
unfolding slices write_files
slices-Stored [] source files a = tt
slices-Stored (d ∷ ds) source files (a, rest) =
    let bytes = take d.size source in
    let file = write_bytes d.start bytes (opened (get d.path files)) in
    let now : Stored (with_file (d, bytes) files) (d, bytes) = (
      file,
      get-insert_self d.path file files,
      Lies-written d.start bytes (opened (get d.path files)),
    ) in
    (
      slices-keep d bytes ds (drop d.size source) (with_file (d, bytes) files)
          (length-take_bound d.size source) a now,
      slices-Stored ds (drop d.size source) (with_file (d, bytes) files) rest,
    )

-- What validation says of a drop whose bytes are these.
abbrev pub Judged :
    (List ℕ → String) → Map String (List ℕ) → List Turn → DownloadDrop → List ℕ → Type 0
Judged digest files ts d bytes =
    validate_game_chunk digest (get d.path files) (to_context d) go ts
    ≡ some (judged (str_eq (digest bytes) d.checksum))

Stored-Judged :
    (digest : List ℕ → String) (files : Map String (List ℕ)) (ts : List Turn) (d : DownloadDrop)
    (bytes : List ℕ)
    → length bytes ≡ d.size
    → d.size < length ts
    → Reads ts
    → Stored files (d, bytes)
    → Judged digest files ts d bytes
Stored-Judged digest files ts d bytes full enough reads (file, found, lies) =
    let (fits, back) = Lies-ReadsBack d.start bytes file lies in
    let read =
      validate_game_chunk-judged digest file (to_context d) ts (rw full at fits) enough reads in
    let bytes_are : take d.size (drop d.start file) ≡ bytes = (rw full at back) in
    rw (found, read, bytes_are)

All-Judged :
    (digest : List ℕ → String) (files : Map String (List ℕ)) (ts : List Turn)
    (ds : List DownloadDrop) (source : List ℕ)
    → sum_by (λ d. d.size) ds ≤ length source
    → sum_by (λ d. d.size) ds < length ts
    → Reads ts
    → All (Stored files) (slices ds source)
    → All (λ w. Judged digest files ts w.0 w.1) (slices ds source)
unfolding slices
All-Judged digest files ts [] source fits enough reads s = tt
All-Judged digest files ts (d ∷ ds) source fits enough reads (s, rest) =
    let full = length-take_le d.size source (omega (arith, fits)) in
    (
      Stored-Judged digest files ts d (take d.size source) full (omega (arith, enough)) reads s,
      All-Judged digest files ts ds (drop d.size source)
          (omega (arith, fits, full, length-take-drop d.size source)) (omega (arith, enough)) reads
          rest,
    )

-- What is fetched is what is validated. Let the drops of a bucket share no bytes of a file, and let
-- the bucket count as fetched. Then each drop's file, as the writers leave it whatever it held before,
-- is judged by the digest of the bytes that the stream had for that drop, when validation is not
-- stopped, no read fails, and its turns are more than the bucket's bytes.
pub download-validate :
    (digest : List ℕ → String) (flag : DownloadThreadControlFlag) (lengths source : List ℕ)
    (ds : List DownloadDrop) (plan : List (List Turn × DownloadThreadControlFlag))
    (closing : Option String) (files : Map String (List ℕ)) (ts : List Turn)
    → download_game_bucket flag (streamed lengths source) ds plan closing ≡ some (answer true)
    → Apart ds
    → sum_by (λ d. d.size) ds < length ts
    → Reads ts
    → (copy ds source plan ≡ some (copied (slices ds source)))
      × All
          (λ w. Judged digest (write_files (slices ds source) files) ts w.0 w.1)
          (slices ds source)
download-validate digest flag lengths source ds plan closing files ts fetched a enough reads =
    let (ls, src, on, same_response, agreed, closed, run, fits) =
      download_game_bucket-true flag (streamed lengths source) ds plan closing fetched in
    let src_is : src ≡ source = cc in
    let ran : copy ds source plan ≡ some (copied (slices ds source)) = (rw src_is at run) in
    let held : sum_by (λ d. d.size) ds ≤ length source = (rw src_is at fits) in
    (
      ran,
      All-Judged digest (write_files (slices ds source) files) ts ds source held enough reads
          (slices-Stored ds source files a),
    )

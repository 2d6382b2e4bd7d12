-- ===== src/Downloads/Validate.antt =====
-- src-tauri/games/src/downloads/validate.rs: one chunk of a file is read and hashed. What each turn of
-- the loop finds, the flag and the answer of the read, is an argument, and so is the digest.
pub mod Copy
pub mod Chunk
use text.Mathlib.Text.{◌==◌ as str_eq}
use drop_app.Prelude.{
  ℕ, zero, suc, ◌+◌, ◌-◌, min, String, Bool, true, false, Option, none, some, List, [], ◌∷◌, ◌++◌,
  length, take, drop, ltb, leb, if◌then◌else◌,
}
use drop_app.Downloads.Manifest.{DropValidateContext}
use drop_app.Manager.Flag.{DownloadThreadControlFlag, stop, go}

-- The flag, and up to how many bytes `read` offers; `none` is an I/O error.
abbrev pub Turn : Type 0
Turn = DownloadThreadControlFlag × Option ℕ

-- The bytes that the hasher was given, and what the progress was advanced by.
pub data CopyEnd : Type 0 where
  stopped : ℕ → CopyEnd
  io_failed : CopyEnd
  copied : List ℕ → ℕ → CopyEnd

abbrev pub copy_buf_size : ℕ
copy_buf_size = 512

-- A read past the wanted size is cut down to it.
abbrev pub wanted : ℕ → ℕ → List ℕ → List ℕ
wanted size total_bytes bytes =
    if ltb size total_bytes then take (length bytes - (total_bytes - size)) bytes else bytes

-- `none`: the loop is still running after these turns.
unfoldable pub validate_copy : ℕ → ℕ → List ℕ → List ℕ → ℕ → List Turn → Option CopyEnd
validate_copy size total_bytes source out progress [] = none
validate_copy size total_bytes source out progress ((stop, r) ∷ ts) = some (stopped progress)
validate_copy size total_bytes source out progress ((go, none) ∷ ts) = some io_failed
validate_copy size total_bytes source out progress ((go, some n) ∷ ts) =
    let bytes_read = take (min copy_buf_size n) source in
    let total = total_bytes + length bytes_read in
    let kept = wanted size total bytes_read in
    let rest =
      validate_copy size total (drop (min copy_buf_size n) source) (out ++ kept)
        (progress + length kept) ts in
    if leb size total then some (copied (out ++ kept) (progress + length kept)) else rest

pub data ChunkEnd : Type 0 where
  answer : Bool → ChunkEnd
  io_error : ChunkEnd

-- The progress is set to 0 when the flag says `Stop` at the start; that is not in the result.
abbrev pub conclude : (List ℕ → String) → String → Option CopyEnd → Option ChunkEnd
conclude digest checksum none = none
conclude digest checksum (some (stopped p)) = some (answer false)
conclude digest checksum (some io_failed) = some io_error
conclude digest checksum (some (copied bytes p)) = some (answer (str_eq (digest bytes) checksum))

-- `file` is what the chunk's path opens to, and seeking to an offset drops what comes before it.
unfoldable pub validate_game_chunk :
    (List ℕ → String)
    → Option (List ℕ)
    → DropValidateContext
    → DownloadThreadControlFlag
    → List Turn
    → Option ChunkEnd
validate_game_chunk digest file ctx stop ts = some (answer false)
validate_game_chunk digest none ctx go ts = some (answer false)
validate_game_chunk digest (some bytes) ctx go ts =
    conclude digest ctx.checksum (validate_copy ctx.size 0 (drop ctx.offset bytes) [] 0 ts)
